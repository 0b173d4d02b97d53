-- ===== src/Auth/Service/Started.antt =====
-- What a start of the auth service without an error leaves, in
-- done_mod/mod_auth/auth_srv/AuthService.go.
use done_rest.Prelude.{◌≡◌, refl, Option, none, some}
use done_rest.Errors.{Error}
use done_rest.Bus.Api.{MsgServer}
use done_rest.Auth.Api.{Bcrypt}
use done_rest.Auth.Roles.{client_role_admin}
use done_rest.Auth.Store.{Outcome}
use done_rest.Auth.Store.Entries.{role_of}
use done_rest.Auth.Store.Validity.{IsValid}
use done_rest.Auth.Store.Opening.{open_store-IsValid}
use done_rest.Auth.Clients.{AuthState, Response, add_service}
use done_rest.Auth.Clients.Adding.{add_service-IsValid, add_user-role}
use done_rest.Auth.Clients.Sync.{IsSynced, add_user-IsSynced}
use done_rest.Transport.Api.{HubTransport}
use done_rest.Cli.{Client}
use done_rest.Cli.Keys.{connect_with_token, load_create_key_pair}
use done_rest.Auth.Service.{
  AuthService, AuthConfig, Startup, Capabilities, ServiceFiles, auth_service_name, start,
  start_opened, start_added, start_connected, ensure_accounts, ensure_launcher, ensure_admin,
  add_admin, save_admin_token, save_launcher_token, permit, serve,
}

module _ (m : MsgServer) (ht : HubTransport) {V A F : Type 0} (bcrypt : Bcrypt)
    (files : ServiceFiles F ht.KeyPair) (cfg : AuthConfig) (at : Startup ht V A) where
  -- The server authenticates the clients of the store, where the administrator has its role.
  abbrev pub HasStarted : AuthState m → Type 0
  HasStarted auth =
      IsSynced m auth × (role_of cfg.admin_account_id auth.store ≡ some client_role_admin)

  save_admin_token-HasStarted :
      (r : Response m) (fs : F)
      → (r.2 ≡ none → HasStarted r.0)
      → (save_admin_token m ht bcrypt files cfg at r fs).2 ≡ none
      → HasStarted (save_admin_token m ht bcrypt files cfg at r fs).0
  unfolding save_admin_token
  save_admin_token-HasStarted (auth, token, some e) fs h ok = cc ok
  save_admin_token-HasStarted (auth, token, none) fs h ok = h refl

  add_admin-HasStarted :
      (auth : AuthState m) (loaded : F × Option ht.KeyPair × Option Error)
      → IsValid auth.store
      → (add_admin m ht bcrypt files cfg at auth loaded).2 ≡ none
      → HasStarted (add_admin m ht bcrypt files cfg at auth loaded).0
  unfolding add_admin
  add_admin-HasStarted auth (fs, none, err) v ok = cc ok
  add_admin-HasStarted auth (fs, some key, err) v ok =
      let pub_key = at.export_public key in
      save_admin_token-HasStarted _ fs
        (λ added. (
          add_user-IsSynced m bcrypt at.admin_env cfg.admin_account_id "Administrator" "" pub_key
              client_role_admin auth v added,
          add_user-role m bcrypt at.admin_env cfg.admin_account_id "Administrator" pub_key
              client_role_admin auth added,
        ))
        ok

  save_launcher_token-store :
      (r : Response m) (fs : F)
      → (save_launcher_token m ht bcrypt files cfg at r fs).0.store ≡ r.0.store
  unfolding save_launcher_token
  save_launcher_token-store (auth, token, some e) fs = refl
  save_launcher_token-store (auth, token, none) fs = refl

  ensure_launcher-HasStarted :
      (hc : Client ht V A) (auth : AuthState m) (loaded : F × Option ht.KeyPair × Option Error)
      → IsValid auth.store
      → (ensure_launcher m ht bcrypt files cfg at hc auth loaded).2 ≡ none
      → HasStarted (ensure_launcher m ht bcrypt files cfg at hc auth loaded).0
  unfolding ensure_launcher ensure_admin
  ensure_launcher-HasStarted hc auth (fs, none, err) v ok = cc ok
  ensure_launcher-HasStarted hc auth (fs, some key, err) v ok =
      let added =
        add_service m at.launcher_env cfg.launcher_account_id "Launcher Service"
          (at.export_public key) auth in
      add_admin-HasStarted _ _
        (rw (save_launcher_token-store added fs) (
          add_service-IsValid m at.launcher_env cfg.launcher_account_id "Launcher Service"
            (at.export_public key) auth v))
        ok

  start_connected-HasStarted :
      (caps : Capabilities V A) (auth : AuthState m) (fs : F)
      (connection : Client ht V A × Option Error)
      → IsValid auth.store
      → (start_connected m ht bcrypt files cfg at caps auth fs connection).2 ≡ none
      → HasStarted (start_connected m ht bcrypt files cfg at caps auth fs connection).0.auth
  unfolding start_connected ensure_accounts
  start_connected-HasStarted caps auth fs (hc, some e) v ok = cc ok
  start_connected-HasStarted caps auth fs (hc, none) v ok =
      let ready = serve m ht caps hc in
      ensure_launcher-HasStarted ready (record auth { server = permit m auth.server })
        (load_create_key_pair ht files.keys cfg.launcher_account_id cfg.keys_dir at.launcher_key fs
          ready)
        (record { entries = v.entries; file = v.file }) ok

  start_added-HasStarted :
      (caps : Capabilities V A) (r : Response m) (fs : F)
      → IsValid r.0.store
      → (start_added m ht bcrypt files cfg at caps r fs).2 ≡ none
      → HasStarted (start_added m ht bcrypt files cfg at caps r fs).0.auth
  unfolding start_added
  start_added-HasStarted caps (auth, token, some e) fs v ok = cc ok
  start_added-HasStarted caps (auth, token, none) fs v ok =
      start_connected-HasStarted caps auth fs (connect_with_token ht at.own_key token at.new_client)
        v ok

  start_opened-HasStarted :
      (caps : Capabilities V A) (svc : AuthService m ht V A) (opened : Outcome) (fs : F)
      → IsValid opened.0
      → (start_opened m ht bcrypt files cfg at caps svc opened fs).2 ≡ none
      → HasStarted (start_opened m ht bcrypt files cfg at caps svc opened fs).0.auth
  unfolding start_opened
  start_opened-HasStarted caps svc (store, some e) fs v ok = cc ok
  start_opened-HasStarted caps svc (store, none) fs v ok =
      start_added-HasStarted caps _ fs
        (add_service-IsValid m at.service_env auth_service_name "Auth Service"
          (at.export_public at.own_key) _ v)
        ok

  -- After a start without an error on a valid store, the message server authenticates exactly the
  -- clients of the store, and the administrator is there with the admin role.
  pub start-HasStarted :
      (caps : Capabilities V A) (svc : AuthService m ht V A) (fs : F)
      → IsValid svc.auth.store
      → (start m ht bcrypt files cfg at caps svc fs).2 ≡ none
      → HasStarted (start m ht bcrypt files cfg at caps svc fs).0.auth
  unfolding start
  start-HasStarted caps svc fs v ok =
      start_opened-HasStarted caps svc _ fs (open_store-IsValid at.store_io svc.auth.store v) ok
