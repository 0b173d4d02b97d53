-- ===== src/Auth/Service.antt =====
-- The start of the auth service, done_mod/mod_auth/auth_srv/AuthService.go: it adds itself, the
-- launcher and the administrator to the store, and serves its capabilities through a hub client.
pub mod Started
use Prim.Native.String.{◌++◌ as append_text}
use done_rest.Prelude.{String, ◌≡◌, Option, none, some, List, [], ◌∷◌, Dict}
use done_rest.Errors.{Error}
use done_rest.Bus.Api.{MsgServer}
use done_rest.Auth.Api.{Bcrypt}
use done_rest.Auth.Roles.{
  client_role_viewer, client_role_operator, client_role_manager, client_role_admin,
}
use done_rest.Auth.Store.{Io, Outcome, open_store, close}
use done_rest.Auth.Clients.{Env, AuthState, Response, add_service, add_user}
use done_rest.Transport.Api.{HubTransport}
use done_rest.Cli.{HubClient, Client, set_rpc_capability}
use done_rest.Cli.Requests.{Method}
use done_rest.Cli.Keys.{
  ClientFiles, connect_with_token, disconnect, load_create_key_pair, token_file_ext,
}

abbrev pub auth_service_name : String
auth_service_name = "auth"

abbrev pub auth_manage_clients_capability : String
auth_manage_clients_capability = "manageClients"

abbrev pub auth_manage_roles_capability : String
auth_manage_roles_capability = "manageRoles"

abbrev pub auth_profile_capability : String
auth_profile_capability = "profile"

pub record AuthConfig : Type 0 where
  pub admin_account_id : String
  pub launcher_account_id : String
  pub keys_dir : String

-- The hub client is `none` before a start came so far.
pub record AuthService (m : MsgServer) (ht : HubTransport) (V A : Type 0) : Type 0 where
  pub auth : AuthState m
  pub hc : Option (Client ht V A)

-- What a start finds: the answers of the files of the store, the clocks and salts of its calls, the
-- new client that it makes, the key pairs that it may create and their public keys.
pub record Startup (ht : HubTransport) (V A : Type 0) : Type 0 where
  pub store_io : Io
  pub service_env : Env
  pub launcher_env : Env
  pub admin_env : Env
  pub new_client : Client ht V A
  pub own_key : ht.KeyPair
  pub launcher_key : ht.KeyPair
  pub admin_key : ht.KeyPair
  pub export_public : ht.KeyPair → String

-- The tables of methods of the three capabilities.
pub record Capabilities (V A : Type 0) : Type 0 where
  pub manage_clients : Dict (Method V A)
  pub manage_roles : Dict (Method V A)
  pub profile : Dict (Method V A)

-- The files of the client's keys, with os.Remove, whose error is dropped, and os.WriteFile.
pub record ServiceFiles (F K : Type 0) : Type 0 where
  pub keys : ClientFiles F K
  pub remove_file : String → F → F
  pub write_file : String → String → F → F × Option Error

-- The roles that may use each capability.
unfoldable pub permit : (m : MsgServer) → m.State → m.State
permit m server =
    let admins = client_role_admin ∷ [] in
    let with_clients =
      m.set_service_permissions auth_service_name auth_manage_clients_capability admins server in
    let with_roles =
      m.set_service_permissions auth_service_name auth_manage_roles_capability admins
        with_clients in
    m.set_service_permissions auth_service_name auth_profile_capability
      (client_role_viewer ∷ client_role_operator ∷ client_role_manager ∷ client_role_admin ∷ [])
      with_roles

module _ (m : MsgServer) (ht : HubTransport) {V A : Type 0} where
  -- Start of the three managers, none of which fails.
  unfoldable pub serve : Capabilities V A → Client ht V A → Client ht V A
  unfolding set_rpc_capability
  serve caps hc =
      let with_clients =
        set_rpc_capability ht auth_manage_clients_capability caps.manage_clients hc in
      let with_roles =
        set_rpc_capability ht auth_manage_roles_capability caps.manage_roles with_clients in
      set_rpc_capability ht auth_profile_capability caps.profile with_roles

  module _ {F : Type 0} (bcrypt : Bcrypt) (files : ServiceFiles F ht.KeyPair) (cfg : AuthConfig)
      (at : Startup ht V A) where
    unfoldable pub save_token : String → String → F → F × Option Error
    save_token client_id token fs =
        let token_file = files.keys.join_path cfg.keys_dir (append_text client_id token_file_ext) in
        files.write_file token_file token (files.remove_file token_file fs)

    -- The error of the file is dropped here.
    save_launcher_token : Response m → F → AuthState m × F
    unfolding save_token
    save_launcher_token (auth, token, some e) fs = (auth, fs)
    save_launcher_token (auth, token, none) fs =
        (auth, (save_token cfg.launcher_account_id token fs).0)

    save_admin_token : Response m → F → AuthState m × F × Option Error
    unfolding save_token
    save_admin_token (auth, token, some e) fs = (auth, fs, some e)
    save_admin_token (auth, token, none) fs =
        let (after, err) = save_token cfg.admin_account_id token fs in (auth, after, err)

    -- Without a key the call of ExportPublic panics.
    add_admin : AuthState m → F × Option ht.KeyPair × Option Error → AuthState m × F × Option Error
    unfolding save_admin_token
    add_admin auth (fs, none, err) = (auth, fs, some Error.panicked)
    add_admin auth (fs, some key, err) =
        save_admin_token
          (add_user m bcrypt at.admin_env cfg.admin_account_id "Administrator" ""
            (at.export_public key) client_role_admin auth)
          fs

    ensure_admin : Client ht V A → AuthState m × F → AuthState m × F × Option Error
    unfolding add_admin
    ensure_admin hc (auth, fs) =
        add_admin auth
          (load_create_key_pair ht files.keys cfg.admin_account_id cfg.keys_dir at.admin_key fs hc)

    -- Also if the launcher could not be added, the start goes on.
    ensure_launcher :
        Client ht V A
        → AuthState m
        → F × Option ht.KeyPair × Option Error
        → AuthState m × F × Option Error
    unfolding save_launcher_token ensure_admin
    ensure_launcher hc auth (fs, none, err) = (auth, fs, some Error.panicked)
    ensure_launcher hc auth (fs, some key, err) = ensure_admin hc (
        save_launcher_token
          (add_service m at.launcher_env cfg.launcher_account_id "Launcher Service"
            (at.export_public key) auth)
          fs)

    ensure_accounts : Client ht V A → AuthState m → F → AuthState m × F × Option Error
    unfolding ensure_launcher
    ensure_accounts hc auth fs = ensure_launcher hc auth (
        load_create_key_pair ht files.keys cfg.launcher_account_id cfg.keys_dir at.launcher_key fs
          hc)

    -- The service's own hub client, connected with the token that its own AddService made.
    start_connected :
        Capabilities V A
        → AuthState m
        → F
        → Client ht V A × Option Error
        → AuthService m ht V A × F × Option Error
    unfolding serve permit ensure_accounts
    start_connected caps auth fs (hc, some e) = (record { auth = auth; hc = some hc }, fs, some e)
    start_connected caps auth fs (hc, none) =
        let ready = serve caps hc in
        let (after, files_after, err) =
          ensure_accounts ready (record auth { server = permit m auth.server }) fs in
        (record { auth = after; hc = some ready }, files_after, err)

    start_added : Capabilities V A → Response m → F → AuthService m ht V A × F × Option Error
    unfolding start_connected
    start_added caps (auth, token, some e) fs =
        (record { auth = auth; hc = some at.new_client }, fs, some e)
    start_added caps (auth, token, none) fs =
        start_connected caps auth fs (connect_with_token ht at.own_key token at.new_client)

    start_opened :
        Capabilities V A
        → AuthService m ht V A
        → Outcome
        → F
        → AuthService m ht V A × F × Option Error
    unfolding start_added
    start_opened caps svc (store, some e) fs =
        (record svc { auth = record (svc.auth) { store = store } }, fs, some e)
    start_opened caps svc (store, none) fs =
        start_added caps
          (add_service m at.service_env auth_service_name "Auth Service"
            (at.export_public at.own_key) (record (svc.auth) { store = store }))
          fs

    unfoldable pub start :
        Capabilities V A → AuthService m ht V A → F → AuthService m ht V A × F × Option Error
    unfolding start_opened
    start caps svc fs = start_opened caps svc (open_store at.store_io svc.auth.store) fs

  -- Stop leaves the client, disconnected.
  unfoldable pub stop : AuthService m ht V A → AuthService m ht V A
  unfolding disconnect
  stop svc =
      let hc : Option (Client ht V A) = elim svc.hc [
        | none ↦ none
        | some client ↦ some (disconnect ht client)
      ] in
      record { auth = record (svc.auth) { store = close svc.auth.store }; hc = hc }
