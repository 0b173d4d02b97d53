-- ===== src/Auth/Clients.antt =====
-- done_mod/mod_auth/auth_srv/AuthManageClients.go, over any message server. An operation returns
-- the new state, its response and its error. `Env` has what the calls outside the code answer.
pub mod Sync
pub mod Roles
pub mod Errors
pub mod Adding
use done_rest.Prelude.{ℕ, String, Option, none, some, List, ◌==◌, ◌/=◌, if◌then◌else◌, map}
use done_rest.Errors.{Error}
use done_rest.Bus.Api.{ClientAuthInfo, MsgServer}
use done_rest.Auth.Api.{
  ClientProfile, AuthnEntry, Bcrypt, client_type_device, client_type_service, client_type_user,
}
use done_rest.Auth.Roles.{client_role_device, client_role_service}
use done_rest.Auth.Store.{
  AuthnFileStore, Io, Outcome, add, remove_client as store_remove, set_password, update,
  get_profile, get_profiles, get_entries, client_auth_info, count,
}

pub record Env : Type 0 where
  pub io : Io
  -- the answers of the file system during a second save
  pub io_second : Io
  pub now : ℕ
  pub salt : ℕ

-- A server's state beside the store.
pub record AuthState (m : MsgServer) : Type 0 where
  pub store : AuthnFileStore
  pub server : m.State

-- The profile of a new client, as the three Add methods write it.
abbrev pub new_profile : String → String → String → String → String → ClientProfile
new_profile client_id client_type display_name pub_key role = record {
  client_id = client_id;
  client_type = client_type;
  display_name = display_name;
  pub_key = pub_key;
  updated_mse = 0;
  token_validity_days = 0;
  role = role;
}

-- What a token is created for; the password hash is left out.
abbrev pub token_info : String → String → String → String → ClientAuthInfo
token_info client_id client_type pub_key role = record {
  client_id = client_id;
  client_type = client_type;
  pub_key = pub_key;
  password_hash = "";
  role = role;
}

module _ (m : MsgServer) where
  -- The new state, the token and the error.
  abbrev pub Response : Type 0
  Response = AuthState m × String × Option Error

  unfoldable pub on_change : AuthState m → AuthState m × Option Error
  on_change svc =
      let applied = m.apply_auth (map client_auth_info (get_entries svc.store)) svc.server in
      (record svc { server = applied.0 }, applied.1)

  -- `CreateToken` for a client with a public key; without one there is no call.
  token_for : Env → ClientAuthInfo → AuthState m → Response
  token_for env info svc =
      let token = m.create_token env.now info svc.server in
      (record svc { server = token.0 }, token.1, token.2)

  add_device_token : Env → String → String → AuthState m × Option Error → Response
  unfolding token_for
  add_device_token env device_id pub_key (svc, err) =
      let info = token_info device_id client_type_device pub_key client_role_device in
      let token = token_for env info svc in if pub_key /= "" then token else (svc, "", err)

  add_device_stored : Env → String → String → AuthState m → Option Error → Response
  unfolding add_device_token
  add_device_stored env device_id pub_key svc (some e) = (svc, "", some e)
  add_device_stored env device_id pub_key svc none =
      add_device_token env device_id pub_key (on_change svc)

  unfoldable pub add_device : Env → String → String → String → AuthState m → Response
  unfolding add_device_stored
  add_device env device_id display_name pub_key svc =
      let profile =
        new_profile device_id client_type_device display_name pub_key client_role_device in
      let added = add env.io env.now device_id profile svc.store in
      if device_id == ""
      then (svc, "", some Error.missing_client_id)
      else add_device_stored env device_id pub_key (record svc { store = added.0 }) added.1

  -- The error of `CreateToken` is dropped here, and the change is applied after it.
  add_service_stored : Env → String → String → AuthState m → Option Error → Response
  unfolding token_for
  add_service_stored env service_id pub_key svc (some e) = (svc, "", some e)
  add_service_stored env service_id pub_key svc none =
      let info = token_info service_id client_type_service pub_key client_role_service in
      let token = token_for env info svc in
      let made : AuthState m × String = if pub_key /= "" then (token.0, token.1) else (svc, "") in
      let changed = on_change made.0 in (changed.0, made.1, changed.1)

  unfoldable pub add_service : Env → String → String → String → AuthState m → Response
  unfolding add_service_stored
  add_service env service_id display_name pub_key svc =
      let profile =
        new_profile service_id client_type_service display_name pub_key client_role_service in
      let added = add env.io env.now service_id profile svc.store in
      if service_id == ""
      then (svc, "", some Error.missing_client_id)
      else add_service_stored env service_id pub_key (record svc { store = added.0 }) added.1

  add_user_applied : String → AuthState m → Option Error → Response
  add_user_applied token svc (some e) = (svc, token, some e)
  add_user_applied token svc none = let changed = on_change svc in (changed.0, token, changed.1)

  -- `err` is the error of `SetPassword`, which the one of `CreateToken` replaces.
  add_user_token : Env → String → String → String → AuthState m → Option Error → Response
  unfolding token_for add_user_applied
  add_user_token env user_id pub_key role svc err =
      let info = token_info user_id client_type_user pub_key role in
      let token = token_for env info svc in
      if pub_key /= ""
      then add_user_applied token.1 token.0 token.2
      else add_user_applied "" svc err

  add_user_stored :
      Bcrypt → Env → String → String → String → String → AuthState m → Option Error → Response
  unfolding add_user_token
  add_user_stored bcrypt env user_id password pub_key role svc (some e) = (svc, "", some e)
  add_user_stored bcrypt env user_id password pub_key role svc none =
      let changed = set_password bcrypt env.io_second env.now env.salt user_id password svc.store in
      if password /= ""
      then add_user_token env user_id pub_key role (record svc { store = changed.0 }) changed.1
      else add_user_token env user_id pub_key role svc none

  unfoldable pub add_user :
      Bcrypt → Env → String → String → String → String → String → AuthState m → Response
  unfolding add_user_stored
  add_user bcrypt env user_id display_name password pub_key role svc =
      let profile = new_profile user_id client_type_user display_name pub_key role in
      let added = add env.io env.now user_id profile svc.store in
      if user_id == ""
      then (svc, "", some Error.missing_client_id)
      else add_user_stored bcrypt env user_id password pub_key role (record svc { store = added.0 })
          added.1

  unfoldable pub get_count : AuthState m → ℕ
  get_count svc = count svc.store

  unfoldable pub get_client_profile : String → AuthState m → ClientProfile × Option Error
  get_client_profile client_id svc = get_profile client_id svc.store

  -- The change reaches the server only if the store made it.
  change_if_stored : AuthState m → Outcome → AuthState m × Option Error
  change_if_stored svc (store, some e) = (record svc { store = store }, some e)
  change_if_stored svc (store, none) = on_change (record svc { store = store })

  unfoldable pub remove_client : Env → String → AuthState m → AuthState m × Option Error
  unfolding change_if_stored
  remove_client env client_id svc = change_if_stored svc (store_remove env.io client_id svc.store)

  unfoldable pub set_client_password :
      Bcrypt → Env → String → String → AuthState m → AuthState m × Option Error
  unfolding change_if_stored
  set_client_password bcrypt env client_id password svc =
      change_if_stored svc
        (set_password bcrypt env.io env.now env.salt client_id password svc.store)

  unfoldable pub update_client :
      Env → String → ClientProfile → AuthState m → AuthState m × Option Error
  update_client env client_id profile svc =
      let updated = update env.io env.now client_id profile svc.store in
      (record svc { store = updated.0 }, updated.1)

  update_role :
      Env
      → String
      → String
      → AuthState m
      → ClientProfile × Option Error
      → AuthState m × Option Error
  update_role env client_id role svc (prof, some e) = (svc, some e)
  update_role env client_id role svc (prof, none) =
      let updated = update env.io env.now client_id (record prof { role = role }) svc.store in
      (record svc { store = updated.0 }, updated.1)

  unfoldable pub update_client_role :
      Env → String → String → AuthState m → AuthState m × Option Error
  unfolding update_role
  update_client_role env client_id role svc =
      update_role env client_id role svc (get_profile client_id svc.store)
