-- ===== src/Cli/Keys.antt =====
-- The connections and key files of the hub client, in done_cli/cli_done/HubClient.go.
use Prim.Native.String.{◌++◌ as append_text}
use done_rest.Prelude.{String, ◌⊎◌, inl, inr, Option, none, some, ◌==◌, if◌then◌else◌}
use done_rest.Errors.{Error}
use done_rest.Transport.Api.{HubTransport}
use done_rest.Cli.{Client}

abbrev pub kp_file_ext : String
kp_file_ext = ".key"

abbrev pub token_file_ext : String
token_file_ext = ".token"

abbrev pub pub_key_file_ext : String
pub_key_file_ext = ".pub"

-- What the code asks of the file system, whose state is `F`: path.Join, os.ReadFile, and the reading
-- and writing of key pairs by their file names. A joined path is not empty.
pub record ClientFiles (F K : Type 0) : Type 0 where
  pub join_path : String → String → String
  pub read_file : String → F → String ⊎ Error
  pub new_key_from_file : String → F → K ⊎ Error
  pub export_private_to_file : K → String → F → F × Option Error
  pub export_public_to_file : K → String → F → F × Option Error

-- The key from its file, or the new one that is saved; the error of the public key's file counts
-- before that of the private one's.
load_or_create :
    {F K : Type 0}
    → ClientFiles F K
    → String
    → String
    → K
    → K ⊎ Error
    → F
    → F × Option K × Option Error
load_or_create files key_file pub_file fresh (inl kp) fs = (fs, some kp, none)
load_or_create files key_file pub_file fresh (inr e) fs =
    let (saved, err) = files.export_private_to_file fresh key_file fs in
    let (published, err2) = files.export_public_to_file fresh pub_file saved in
    (published, some fresh, elim err2 [ some e2 ↦ some e2 | none ↦ err ])

module _ (ht : HubTransport) {V A : Type 0} where
  -- The key is kept also if the connection fails.
  unfoldable pub connect_with_token :
      ht.KeyPair → String → Client ht V A → Client ht V A × Option Error
  connect_with_token kp token hc =
      let (after, err) = ht.connect_with_token kp token hc.transport in
      (record hc { transport = after; kp = some kp }, err)

  unfoldable pub connect_with_password : String → Client ht V A → Client ht V A × Option Error
  connect_with_password password hc =
      let (after, err) = ht.connect_with_password password hc.transport in
      (record hc { transport = after }, err)

  unfoldable pub disconnect : Client ht V A → Client ht V A
  disconnect hc = record hc { transport = ht.disconnect hc.transport }

  module _ {F : Type 0} (files : ClientFiles F ht.KeyPair) where
    connect_with_files :
        String ⊎ Error → ht.KeyPair ⊎ Error → Client ht V A → Client ht V A × Option Error
    unfolding connect_with_token
    connect_with_files (inr e) key hc = (hc, some e)
    connect_with_files (inl token) (inr e) hc = (hc, some e)
    connect_with_files (inl token) (inl kp) hc = connect_with_token kp token hc

    unfoldable pub connect_with_token_file :
        String → F → Client ht V A → Client ht V A × Option Error
    unfolding connect_with_files
    connect_with_token_file keys_dir fs hc =
        let file_of = λ (ext : String). files.join_path keys_dir (append_text hc.client_id ext) in
        connect_with_files (files.read_file (file_of token_file_ext) fs)
          (files.new_key_from_file (file_of kp_file_ext) fs) hc

    -- `fresh` is the key pair that CreateKeyPair makes if it is called.
    unfoldable pub load_create_key_pair :
        String → String → ht.KeyPair → F → Client ht V A → F × Option ht.KeyPair × Option Error
    unfolding load_or_create
    load_create_key_pair client_id keys_dir fresh fs hc =
        let owner = if client_id == "" then hc.client_id else client_id in
        let file_of = λ (ext : String). files.join_path keys_dir (append_text owner ext) in
        let key_file = file_of kp_file_ext in
        if keys_dir == ""
        then (fs, none, some Error.missing_keys_dir)
        else load_or_create files key_file (file_of pub_key_file_ext) fresh
            (files.new_key_from_file key_file fs) fs
