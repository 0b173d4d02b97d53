-- ===== src/Auth/Store.antt =====
-- done_mod/mod_auth/auth_str/AuthnFileStore.go. The file at storePath is a field of the state.
-- `Io` holds what the calls of the file system answer during one operation, and `now` the time.
pub mod Saving
pub mod Calls
pub mod Entries
pub mod Validity
pub mod Opening
pub mod Durability
pub mod Passwords
use Prim.Native.String.{len}
use done_rest.Prelude.{
  ℕ, String, Bool, true, false, ◌&&◌, ◌||◌, Option, none, some, List, [], map, Dict, lookup, insert,
  remove, values, ltb, eqb, ◌==◌, ◌/=◌, if◌then◌else◌, length,
}
use done_rest.Errors.{Error}
use done_rest.Bus.Api.{ClientAuthInfo}
use done_rest.Auth.Api.{
  ClientProfile, AuthnEntry, Bcrypt, zero_profile, client_type_device, client_type_service,
  client_type_user, default_device_token_validity_days, default_service_token_validity_days,
  default_user_token_validity_days,
}

-- What the password file holds: nothing, bytes that are no JSON map of entries, or such a map.
pub data Contents : Type 0 where
  blank malformed : Contents
  json : Dict AuthnEntry → Contents

pub record Io : Type 0 where
  pub mkdir_all : Option Error
  pub create_temp : Option Error
  pub write : Option Error
  pub rename : Option Error
  pub read_file : Option Error
  pub watch : Option Error

pub record AuthnFileStore : Type 0 where
  pub entries : Dict AuthnEntry
  pub watcher : Bool
  pub file : Option Contents

-- An operation returns the new state and its error, `none` for Go's nil.
abbrev pub Outcome : Type 0
Outcome = AuthnFileStore × Option Error

pub new_authn_file_store : Option Contents → AuthnFileStore
new_authn_file_store file = record { entries = []; watcher = false; file = file }

-- The temporary file's contents beside the error. Marshalling a map of entries does not fail.
unfoldable pub write_passwords_to_temp_file : Io → Dict AuthnEntry → Contents × Option Error
write_passwords_to_temp_file io entries = elim io.create_temp [
  | some e ↦ (blank, some e)
  | none ↦ (json entries, io.write)
]

rename_temp_file : Io → AuthnFileStore → Contents × Option Error → Outcome
rename_temp_file io s (contents, some e) = (s, some e)
rename_temp_file io s (contents, none) = elim io.rename [
  | some e ↦ (s, some e)
  | none ↦ (record s { file = some contents }, none)
]

unfoldable pub save : Io → AuthnFileStore → Outcome
unfolding write_passwords_to_temp_file rename_temp_file
save io s = elim io.mkdir_all [
  | some e ↦ (s, some e)
  | none ↦ rename_temp_file io s (write_passwords_to_temp_file io s.entries)
]

unfoldable pub default_validity : ClientProfile → ClientProfile
default_validity profile =
    if eqb profile.token_validity_days 0
    then if profile.client_type == client_type_device
      then record profile { token_validity_days = default_device_token_validity_days }
      else if profile.client_type == client_type_service
      then record profile { token_validity_days = default_service_token_validity_days }
      else if profile.client_type == client_type_user
      then record profile { token_validity_days = default_user_token_validity_days }
      else profile
    else profile

-- The entry that `add` stores: a new one, or the present one with its profile replaced.
unfoldable pub added_entry : ℕ → ClientProfile → Option AuthnEntry → AuthnEntry
added_entry now profile found =
    let stamped = record profile { updated_mse = now } in
    elim found [
      | none ↦ record { client_profile = stamped; password_hash = "" }
      | some entry ↦ record entry { client_profile = stamped }
    ]

-- The checks of `Add`, in its order.
unfoldable pub rejection : String → ClientProfile → Option Error
rejection client_id profile =
    if client_id == "" || client_id /= profile.client_id
    then some Error.missing_client_id
    else if profile.client_type /= client_type_device
        && (profile.client_type /= client_type_user && profile.client_type /= client_type_service)
    then some Error.invalid_client_type
    else none

unfoldable pub add : Io → ℕ → String → ClientProfile → AuthnFileStore → Outcome
add io now client_id profile s = elim (rejection client_id profile) [
  | some e ↦ (s, some e)
  | none ↦
      let entry = added_entry now (default_validity profile) (lookup client_id s.entries) in
      save io (record s { entries = insert client_id entry s.entries })
]

-- `watcher.Close` cannot fail in a way that the code looks at.
unfoldable pub close : AuthnFileStore → AuthnFileStore
close s = record s { watcher = false }

unfoldable pub count : AuthnFileStore → ℕ
count s = length s.entries

unfoldable pub client_auth_info : AuthnEntry → ClientAuthInfo
client_auth_info e = record {
  client_id = e.client_id;
  client_type = e.client_type;
  pub_key = e.pub_key;
  password_hash = e.password_hash;
  role = e.role;
}

unfoldable pub get_entries : AuthnFileStore → List AuthnEntry
get_entries s = values s.entries

unfoldable pub get_auth_client_list : AuthnFileStore → List ClientAuthInfo
unfolding get_entries client_auth_info
get_auth_client_list s = map client_auth_info (get_entries s)

-- Go returns the zero profile beside the error.
unfoldable pub get_profile : String → AuthnFileStore → ClientProfile × Option Error
get_profile client_id s = elim (lookup client_id s.entries) [
  | none ↦ (zero_profile, some Error.client_not_found)
  | some entry ↦ (entry.client_profile, none)
]

unfoldable pub get_profiles : AuthnFileStore → List ClientProfile × Option Error
get_profiles s = (map (λ (e : AuthnEntry). e.client_profile) (values s.entries), none)

load_contents : AuthnFileStore → Contents → Outcome
load_contents s blank = (s, none)
load_contents s malformed = (s, some Error.unmarshal_failed)
load_contents s (json entries) = (record s { entries = entries }, none)

-- `Reload` with what the read of the file finds.
reload_from : Io → AuthnFileStore → Option Contents → Outcome
unfolding load_contents
reload_from io s none = save io s
reload_from io s (some contents) = elim io.read_file [
  | some e ↦ (s, some Error.read_failed)
  | none ↦ load_contents s contents
]

unfoldable pub reload : Io → AuthnFileStore → Outcome
unfolding reload_from
reload io s = reload_from io s s.file

-- The watcher is set whether or not the file could be watched.
watch_file : Io → Outcome → Outcome
watch_file io (s, some e) = (s, some e)
watch_file io (s, none) = (record s { watcher = true }, io.watch)

unfoldable pub open_store : Io → AuthnFileStore → Outcome
unfolding watch_file
open_store io s = if s.watcher then (s, some Error.already_open) else watch_file io (reload io s)

unfoldable pub remove_client : Io → String → AuthnFileStore → Outcome
remove_client io client_id s = save io (record s { entries = remove client_id s.entries })

unfoldable pub set_password_hash : Io → ℕ → String → String → AuthnFileStore → Outcome
set_password_hash io now login_id hash s = elim (lookup login_id s.entries) [
  | none ↦ (s, some Error.client_not_found)
  | some entry ↦
      let stamped = record (entry.client_profile) { updated_mse = now } in
      save io (record s {
        entries =
            insert login_id (record { client_profile = stamped; password_hash = hash }) s.entries;
      })
]

unfoldable pub set_password : Bcrypt → Io → ℕ → ℕ → String → String → AuthnFileStore → Outcome
set_password bcrypt io now salt login_id password s =
    if ltb (len password) 5
    then (s, some Error.password_too_short)
    else elim (bcrypt.generate_from_password salt password) [
      | none ↦ (s, some (Error.external "bcrypt"))
      | some hash ↦ set_password_hash io now login_id hash s
    ]

-- The fields that `update` takes over from the given profile, each unless it is empty.
unfoldable pub updated_profile : ℕ → ClientProfile → ClientProfile → ClientProfile
updated_profile now profile old = record old {
  client_type = if profile.client_type /= "" then profile.client_type else old.client_type;
  display_name = if profile.display_name /= "" then profile.display_name else old.display_name;
  token_validity_days =
      if eqb profile.token_validity_days 0
      then old.token_validity_days
      else profile.token_validity_days;
  pub_key = if profile.pub_key /= "" then profile.pub_key else old.pub_key;
  updated_mse = now;
}

unfoldable pub update : Io → ℕ → String → ClientProfile → AuthnFileStore → Outcome
update io now client_id profile s = elim (lookup client_id s.entries) [
  | none ↦ (s, some Error.client_not_found)
  | some entry ↦
      if profile.client_id /= client_id
      then (s, some Error.client_id_mismatch)
      else let entry' = record entry {
        client_profile = updated_profile now profile entry.client_profile;
      } in
        save io (record s { entries = insert client_id entry' s.entries })
]

unfoldable pub verify_password :
    Bcrypt → String → String → AuthnFileStore → ClientProfile × Option Error
verify_password bcrypt login_id password s = elim (lookup login_id s.entries) [
  | none ↦ (zero_profile, some Error.invalid_login)
  | some entry ↦
      if bcrypt.compare_hash_and_password entry.password_hash password
      then (entry.client_profile, none)
      else (zero_profile, some Error.invalid_login)
]
