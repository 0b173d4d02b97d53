-- ===== src/Auth/Clients/Errors.antt =====
-- Which errors reach the caller of AddDevice and AddUser.
use Prim.Native.String.{len}
use done_rest.Prelude.{◌<◌, String, ◌≡◌, ◌≢◌, none, some, arith, eq_iff}
use done_rest.Errors.{Error}
use done_rest.Bus.Api.{MsgServer}
use done_rest.Auth.Api.{Bcrypt, client_type_device, client_type_user}
use done_rest.Auth.Roles.{client_role_device}
use done_rest.Auth.Store.{add}
use done_rest.Auth.Store.Passwords.{set_password_short}
use done_rest.Auth.Clients.{
  Env, AuthState, add_device, add_service, add_user, on_change, new_profile, token_info,
}

-- When a device with an ID and a public key has been stored, what `AddDevice` returns is the token
-- and the error of `CreateToken` alone: an error of `ApplyAuth`, after which the server does not
-- know the device, does not reach the caller.
add_device-hides_apply_error :
    (m : MsgServer) (env : Env) (device_id display_name pub_key : String) (svc : AuthState m)
    → let added =
        add env.io env.now device_id
          (new_profile device_id client_type_device display_name pub_key client_role_device)
          svc.store in
      let changed = on_change m (record svc { store = added.0 }) in
      device_id ≢ ""
      → pub_key ≢ ""
      → added.1 ≡ none
      → let token =
          m.create_token env.now
            (token_info device_id client_type_device pub_key client_role_device)
            changed.0.server in
        let result = add_device m env device_id display_name pub_key svc in
        (result.1 ≡ token.1) × (result.2 ≡ token.2)
unfolding add_device
add_device-hides_apply_error m env device_id display_name pub_key svc named keyed stored = (
  ground (arith, eq_iff device_id "", eq_iff pub_key ""),
  ground (arith, eq_iff device_id "", eq_iff pub_key ""),
)

-- `AddUser` with a password of one to four bytes, for a user that the store accepts. Without a
-- public key the call fails with the password's error and the server is left as it was, though the
-- user is in the store. With one the password's error is dropped: the result is that of
-- `CreateToken`, and if that succeeds the one of applying the change.
add_user_short_password :
    (m : MsgServer) (bcrypt : Bcrypt) (env : Env)
    (user_id display_name password pub_key role : String) (svc : AuthState m)
    → let added =
        add env.io env.now user_id
          (new_profile user_id client_type_user display_name pub_key role)
          svc.store in
      let stored = record svc { store = added.0 } in
      let token =
        m.create_token env.now (token_info user_id client_type_user pub_key role) svc.server in
      let made = record stored { server = token.0 } in
      let result = add_user m bcrypt env user_id display_name password pub_key role svc in
      user_id ≢ ""
      → added.1 ≡ none
      → password ≢ ""
      → len password < 5
      → (pub_key ≡ "" → result ≡ (stored, "", some Error.password_too_short))
        × (pub_key ≢ "" → (e : Error) → token.2 ≡ some e → result ≡ (made, token.1, some e))
        × (pub_key ≢ ""
            → token.2 ≡ none
            → result ≡ ((on_change m made).0, token.1, (on_change m made).1))
unfolding add_user
add_user_short_password m bcrypt env user_id display_name password pub_key role svc named stored
      given short =
    let added =
      add env.io env.now user_id (new_profile user_id client_type_user display_name pub_key role)
        svc.store in
    let refused =
      set_password_short bcrypt env.io_second env.now env.salt user_id password added.0 short in
    (
      λ h. ground (arith, eq_iff user_id "", eq_iff password "", eq_iff pub_key "", refused),
      λ h e t. ground (arith, eq_iff user_id "", eq_iff password "", eq_iff pub_key "", refused),
      λ h t. ground (arith, eq_iff user_id "", eq_iff password "", eq_iff pub_key "", refused),
    )

-- Without a public key there is no token.
module _ (m : MsgServer) (env : Env) (client_id display_name pub_key : String) (svc : AuthState m)
    (keyless : pub_key ≡ "") where
  pub token-add_device : (add_device m env client_id display_name pub_key svc).1 ≡ ""
  unfolding add_device
  token-add_device = ground (arith, eq_iff pub_key "")

  pub token-add_service : (add_service m env client_id display_name pub_key svc).1 ≡ ""
  unfolding add_service
  token-add_service = ground (arith, eq_iff pub_key "")
