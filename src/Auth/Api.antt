-- ===== src/Auth/Api.antt =====
-- The data of done_mod/mod_auth/auth_api: client profiles, store entries, client types and roles.
use done_rest.Prelude.{ℕ, String, Option, some, Bool, true, ◌≡◌}

pub record ClientProfile : Type 0 where
  pub client_id : String
  pub client_type : String
  pub display_name : String
  pub pub_key : String
  pub updated_mse : ℕ
  pub token_validity_days : ℕ
  pub role : String

pub record AuthnEntry : Type 0 where
  pub client_profile : ClientProfile
  pub open client_profile use *
  pub password_hash : String

-- The zero value of the struct, which Go's map read returns for a missing key.
abbrev pub zero_profile : ClientProfile
zero_profile = record {
  client_id = "";
  client_type = "";
  display_name = "";
  pub_key = "";
  updated_mse = 0;
  token_validity_days = 0;
  role = "";
}

abbrev pub client_type_device : String
client_type_device = "device"

abbrev pub client_type_service : String
client_type_service = "service"

abbrev pub client_type_user : String
client_type_user = "user"

abbrev pub default_device_token_validity_days : ℕ
default_device_token_validity_days = 90

abbrev pub default_service_token_validity_days : ℕ
default_service_token_validity_days = 365

abbrev pub default_user_token_validity_days : ℕ
default_user_token_validity_days = 30

-- golang.org/x/crypto/bcrypt. A hash is drawn with a salt; the package documents that a generated
-- hash compares equal to the password that it was made from.
pub record Bcrypt : Type 0 where
  pub generate_from_password : ℕ → String → Option String
  pub compare_hash_and_password : String → String → Bool
  pub compare-generate :
      (salt : ℕ) (password hash : String)
      → generate_from_password salt password ≡ some hash
      → compare_hash_and_password hash password ≡ true
