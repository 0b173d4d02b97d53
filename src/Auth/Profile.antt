-- ===== src/Auth/Profile.antt =====
-- done_mod/mod_auth/auth_srv/AuthManageProfile.go, over any message server. The goroutines that a
-- call starts are the tasks of the state; `Step` runs any one of them at any time.
pub mod Tokens
pub mod Tasks
use done_rest.Prelude.{
  ℕ, String, Option, none, some, List, [], ◌∷◌, ◌++◌, ◌≡◌, ◌==◌, ◌/=◌, if◌then◌else◌,
}
use done_rest.Errors.{Error}
use done_rest.Bus.Api.{ClientAuthInfo, MsgServer}
use done_rest.Auth.Api.{ClientProfile, Bcrypt, client_type_service}
use done_rest.Auth.Store.{
  AuthnFileStore, Outcome, set_password, update, get_profile, get_auth_client_list, verify_password,
}
use done_rest.Auth.Clients.{Env, AuthState, token_info}

-- `go ApplyAuth(clients)`, with the list read when the goroutine is started, and `go onChange()`.
pub data Task : Type 0 where
  applies : List ClientAuthInfo → Task
  changes : Task

pub record ProfileState (m : MsgServer) : Type 0 where
  pub auth : AuthState m
  pub open auth use *
  pub tasks : List Task

-- The token info of a profile.
abbrev pub profile_info : ClientProfile → ClientAuthInfo
profile_info p = token_info p.client_id p.client_type p.pub_key p.role

module _ (m : MsgServer) where
  abbrev pub Change : Type 0
  Change = ProfileState m × Option Error

  abbrev pub with_store : ProfileState m → AuthnFileStore → ProfileState m
  with_store svc store = record svc { auth = record (svc.auth) { store = store } }

  unfoldable pub schedule : Task → ProfileState m → ProfileState m
  schedule t svc = record svc { tasks = svc.tasks ++ t ∷ [] }

  unfoldable pub on_change : ProfileState m → ProfileState m
  unfolding schedule
  on_change svc = schedule (applies (get_auth_client_list svc.store)) svc

  -- What a goroutine does when it runs. The error of ApplyAuth is dropped.
  unfoldable pub run_task : Task → ProfileState m → ProfileState m
  run_task (applies clients) svc = record svc {
    auth = record (svc.auth) { server = (m.apply_auth clients svc.server).0 };
  }
  run_task changes svc = on_change svc

  pub data Step (svc : ProfileState m) : ProfileState m → Type 0 where
    runs :
        (before after : List Task) (t : Task) {svc' : ProfileState m}
        → svc.tasks ≡ before ++ t ∷ after
        → svc' ≡ run_task t (record svc { tasks = before ++ after })
        → Step svc svc'

  -- The new state, the token and the error.
  abbrev pub Response : Type 0
  Response = ProfileState m × String × Option Error

  own_token : Env → ProfileState m → ClientProfile × Option Error → Response
  own_token env svc (profile, some e) = (svc, "", some e)
  own_token env svc (profile, none) =
      let token = m.create_token env.now (profile_info profile) svc.server in
      (record svc { auth = record (svc.auth) { server = token.0 } }, token.1, token.2)

  unfoldable pub new_token : Bcrypt → Env → String → String → ProfileState m → Response
  unfolding own_token
  new_token bcrypt env sender_id password svc =
      own_token env svc (verify_password bcrypt sender_id password svc.store)

  unfoldable pub refresh_token : Env → String → ProfileState m → Response
  unfolding own_token
  refresh_token env sender_id svc = own_token env svc (get_profile sender_id svc.store)

  permit : String → String → List String → ProfileState m → ClientProfile × Option Error → Change
  permit sender_id capability roles svc (profile, some e) = (svc, some e)
  permit sender_id capability roles svc (profile, none) =
      if profile.client_type /= client_type_service then (svc, some Error.not_a_service) else (
        record svc {
          auth = record (svc.auth) {
            server = m.set_service_permissions sender_id capability roles svc.server;
          };
        },
        none,
      )

  unfoldable pub set_service_permissions : String → String → List String → ProfileState m → Change
  unfolding permit
  set_service_permissions sender_id capability roles svc =
      permit sender_id capability roles svc (get_profile sender_id svc.store)

  -- The error of `GetProfile` is dropped; the profile is the zero value then.
  unfoldable pub update_name : Env → String → String → ProfileState m → Change
  update_name env sender_id new_name svc =
      let found = get_profile sender_id svc.store in
      let profile = record (found.0) { display_name = new_name } in
      let updated = update env.io env.now sender_id profile svc.store in
      (with_store svc updated.0, updated.1)

  password_changed : ProfileState m → Outcome → Change
  password_changed svc (store, some e) = (with_store svc store, some e)
  password_changed svc (store, none) = (on_change (with_store svc store), none)

  change_password : Bcrypt → Env → String → String → ProfileState m → Option Error → Change
  unfolding password_changed
  change_password bcrypt env sender_id password svc (some e) = (svc, some e)
  change_password bcrypt env sender_id password svc none =
      password_changed svc
        (set_password bcrypt env.io env.now env.salt sender_id password svc.store)

  unfoldable pub update_password : Bcrypt → Env → String → String → ProfileState m → Change
  unfolding change_password
  update_password bcrypt env sender_id new_password svc =
      change_password bcrypt env sender_id new_password svc (get_profile sender_id svc.store).1

  pub_key_changed : ProfileState m → Outcome → Change
  unfolding schedule
  pub_key_changed svc (store, some e) = (with_store svc store, some e)
  pub_key_changed svc (store, none) = (schedule changes (with_store svc store), none)

  change_pub_key : Env → String → String → ProfileState m → ClientProfile × Option Error → Change
  unfolding pub_key_changed
  change_pub_key env sender_id pub_key svc (profile, some e) = (svc, some e)
  change_pub_key env sender_id pub_key svc (profile, none) =
      pub_key_changed svc
        (update env.io env.now sender_id (record profile { pub_key = pub_key }) svc.store)

  unfoldable pub update_pub_key : Env → String → String → ProfileState m → Change
  unfolding change_pub_key
  update_pub_key env sender_id new_pub_key svc =
      change_pub_key env sender_id new_pub_key svc (get_profile sender_id svc.store)
