-- ===== src/Bus/Nats/Tokens.antt =====
-- done_mod/mod_bus/bus_srv/NatsAuth.go: the tokens that the NATS server makes, and the validation
-- of passwords, keys and tokens.
pub mod Validation
use done_rest.Prelude.{
  ℕ, ◌+◌, ◌*◌, ◌/◌, String, Bool, true, false, ◌&&◌, ◌||◌, Option, none, some, List, [], ◌∷◌, ◌++◌,
  ◌≡◌, Dict, lookup, insert, ltb, eqb, ◌==◌, ◌/=◌, if◌then◌else◌,
}
use done_rest.Errors.{Error}
use done_rest.Bus.Api.{ClientAuthInfo}
use done_rest.Auth.Api.{
  Bcrypt, client_type_device, client_type_service, default_device_token_validity_days,
  default_service_token_validity_days, default_user_token_validity_days,
}
use done_rest.Bus.Nats.{
  Permissions, NatsMsgServer, UserClaims, Library, make_permissions, get_client_auth,
}

-- Days of validity by the type of the client.
unfoldable pub validity_days : String → ℕ
validity_days client_type =
    if client_type == client_type_device
    then default_device_token_validity_days
    else if client_type == client_type_service
    then default_service_token_validity_days
    else default_user_token_validity_days

-- `now` is in milliseconds, the claims are in seconds.
unfoldable pub user_claims : ℕ → ClientAuthInfo → Permissions → NatsMsgServer → UserClaims
unfolding validity_days
user_claims now info perms srv = record {
  subject = info.pub_key;
  name = info.client_id;
  client_type = info.client_type;
  issued_at = now / 1000;
  expires = (now + validity_days info.client_type * 86400000) / 1000;
  issuer = srv.app_account_pub;
  audience = srv.app_account_name;
  permissions = perms;
}

-- The validation's errors are replaced by the result of the encoding. With warnings and no error
-- the code reads the first of no errors, and panics.
unfoldable pub checked_encode : Library → String → UserClaims → String × Option Error
checked_encode lib account claims =
    let (errors, warnings) = lib.validate claims in
    if eqb errors 0 && ltb 0 warnings then ("", some Error.panicked) else lib.encode account claims

-- The new state, the token and the error.
abbrev pub TokenResult : Type 0
TokenResult = NatsMsgServer × String × Option Error

unfoldable pub create_jwt_token : Library → ℕ → ClientAuthInfo → NatsMsgServer → TokenResult
create_jwt_token lib now info srv =
    if info.client_id == "" || (info.pub_key == "" || (info.role == "" || info.client_type == ""))
    then (srv, "", some Error.invalid_auth_info)
    else let made = make_permissions lib info srv in
      let encoded = checked_encode lib srv.app_account_pub (user_claims now info made.1 srv) in
      (made.0, encoded.0, encoded.1)

unfoldable pub create_token : Library → ℕ → ClientAuthInfo → NatsMsgServer → TokenResult
create_token lib now info srv =
    if srv.callout
    then create_jwt_token lib now info srv
    else if info.pub_key == ""
    then (srv, "", some Error.missing_pub_key)
    else (srv, info.pub_key, none)

unfoldable pub validate_password : Bcrypt → String → String → NatsMsgServer → Option Error
unfolding get_client_auth
validate_password bcrypt login_id password srv =
    if login_id == "" || password == ""
    then some Error.invalid_login
    else elim (get_client_auth login_id srv) [
      | none ↦ some Error.client_not_found
      | some info ↦
          if bcrypt.compare_hash_and_password info.password_hash password
          then none
          else some (Error.external "bcrypt")
    ]

-- The verification of a signature with a public key in its text form.
pub data KeyCheck : Type 0 where
  bad_key refused verified : KeyCheck

-- What the code calls of the NATS jwt and nkeys packages and of Go's base64 to read a token. The
-- validation of claims at a time answers the numbers of errors and warnings. The law is that the
-- subject and the name of an encoded token are read back, and as its issuer the public key of the
-- pair that it was signed with, whatever issuer the claims had.
pub record TokenReader (lib : Library) : Type 0 where
  pub decode_user_claims : String → Option UserClaims
  pub validate_at : ℕ → UserClaims → ℕ × ℕ
  pub raw_url_decode : String → String × Option Error
  pub std_decode : String → String × Option Error
  pub verify : String → String → String → KeyCheck
  pub decode-encode :
      (account : String) (claims : UserClaims) (token : String)
      → lib.encode account claims ≡ (token, none)
      → (read : UserClaims) × (decode_user_claims token ≡ some read)
        × (read.subject ≡ claims.subject)
        × (read.issuer ≡ account)
        × (read.name ≡ claims.name)

module _ (lib : Library) (reader : TokenReader lib) where
  -- The first error of the validation of claims, or a warning.
  unfoldable pub validation_error : ℕ → UserClaims → Option Error
  validation_error now claims =
      let (errors, warnings) = reader.validate_at now claims in
      if ltb 0 errors
      then some Error.invalid_token
      else if ltb 0 warnings
      then some Error.invalid_token
      else none

  -- `GetClientAuth` assigns its own error to the variable of the validation's error.
  unfoldable pub client_of_claims :
      ℕ → UserClaims → String → NatsMsgServer → Option ClientAuthInfo × Option Error
  unfolding validation_error
  client_of_claims now claims client_id srv =
      let err = validation_error now claims in
      elim (get_client_auth client_id srv) [
        | none ↦ (none, some Error.client_not_found)
        | some info ↦ (some info, none)
      ]

  -- The URL encoding first, then the standard one.
  unfoldable pub decode_signature : String → String × Option Error
  decode_signature signed_nonce =
      let raw = reader.raw_url_decode signed_nonce in
      elim raw.1 [ none ↦ raw | some e ↦ reader.std_decode signed_nonce ]

  check_signature : String → String → String × Option Error → Option Error
  check_signature subject nonce (signature, some e) = some Error.signature_not_base64
  check_signature subject nonce (signature, none) = elim (reader.verify subject nonce signature) [
    | bad_key ↦ some Error.panicked
    | refused ↦ some Error.signature_not_verified
    | verified ↦ none
  ]

  unfoldable pub check_nonce : String → String → String → Option Error
  unfolding check_signature
  check_nonce subject signed_nonce nonce =
      if signed_nonce /= ""
      then check_signature subject nonce (decode_signature signed_nonce)
      else none

  -- The checks after the client of the token was looked up.
  check_claims :
      UserClaims
      → String
      → String
      → String
      → NatsMsgServer
      → Option ClientAuthInfo × Option Error
      → Option Error
  check_claims claims client_id signed_nonce nonce srv (found, some e) = some Error.pub_key_mismatch
  check_claims claims client_id signed_nonce nonce srv (none, none) = some Error.pub_key_mismatch
  check_claims claims client_id signed_nonce nonce srv (some info, none) =
      if claims.subject /= info.pub_key
      then some Error.pub_key_mismatch
      else elim (check_nonce claims.subject signed_nonce nonce) [
        | some e ↦ some e
        | none ↦
            if claims.issuer /= srv.app_account_pub
            then some Error.unknown_issuer
            else if claims.name /= client_id
            then some Error.client_id_mismatch
            else none
      ]

  unfoldable pub validate_jwt_token :
      ℕ → String → String → String → String → NatsMsgServer → Option Error
  unfolding check_claims
  validate_jwt_token now client_id token signed_nonce nonce srv =
      elim (reader.decode_user_claims token) [
        | none ↦ some Error.undecodable_token
        | some claims ↦
            check_claims claims client_id signed_nonce nonce srv
              (client_of_claims now claims client_id srv)
      ]

  -- The error of the decoding of the signature is replaced by that of the key.
  unfoldable pub validate_nkey : String → String → String → String → NatsMsgServer → Option Error
  validate_nkey client_id pub_key signed_nonce nonce srv =
      elim (reader.verify pub_key nonce (reader.raw_url_decode signed_nonce).0) [
        | bad_key ↦ some Error.bad_pub_key
        | refused ↦ some Error.signature_not_verified
        | verified ↦ elim (get_client_auth client_id srv) [
          | none ↦ some Error.client_not_found
          | some info ↦ if info.pub_key /= pub_key then some Error.pub_key_mismatch else none
        ]
      ]

  unfoldable pub validate_token :
      ℕ → String → String → String → String → NatsMsgServer → Option Error
  validate_token now client_id token signed_nonce nonce srv =
      if srv.callout
      then validate_jwt_token now client_id token signed_nonce nonce srv
      else if token == "" || client_id == ""
      then some Error.invalid_token
      else none
