-- ===== src/Bus/Nats/Server.antt =====
-- The NATS server as a message server of the services, and the clients that it authenticates.
use done_rest.Prelude.{
  String, ◌≡◌, ◌≢◌, ◌↔◌, refl, ap, none, some, arith, List, [], ◌∷◌, lookup, eq_iff, true,
  Option-cases, inl, inr,
}
use done_rest.Bus.Api.{ClientAuthInfo, MsgServer, clients_by_id}
use done_rest.Bus.Nats.{
  NatsMsgServer, Library, Applied, apply_auth, apply_clients, apply_client, make_permissions,
  set_service_permissions, get_client_auth,
}
use done_rest.Bus.Nats.Tokens.{create_token, validate_password}
use done_rest.Auth.Api.{Bcrypt}

clients-apply_clients :
    (lib : Library) (cs : List ClientAuthInfo) (srv : NatsMsgServer) (a : Applied)
    → (apply_clients lib cs srv a).1.clients ≡ clients_by_id a.clients cs
unfolding apply_clients apply_client clients_by_id
clients-apply_clients lib [] srv a = refl
clients-apply_clients lib (c ∷ cs) srv a =
    clients-apply_clients lib cs (make_permissions lib c srv).0
      (apply_client c (make_permissions lib c srv).1 a)

pub known-apply_auth :
    (lib : Library) (cs : List ClientAuthInfo) (srv : NatsMsgServer) (client_id : String)
    → get_client_auth client_id (apply_auth lib cs srv).0 ≡ lookup client_id (clients_by_id [] cs)
unfolding get_client_auth apply_auth
known-apply_auth lib cs srv client_id = ap (lookup client_id) (clients-apply_clients lib cs srv _)

abbrev pub nats_msg_server : Library → MsgServer
nats_msg_server lib = record {
  State = NatsMsgServer;
  apply_auth = apply_auth lib;
  create_token = create_token lib;
  set_service_permissions = set_service_permissions;
  known = get_client_auth;
  known-apply_auth = λ cs s client_id _. known-apply_auth lib cs s client_id;
}

validate_password_lem :
    (bcrypt : Bcrypt) (login_id password : String) (srv : NatsMsgServer)
    → (validate_password bcrypt login_id password srv ≡ none) ↔ (
        (info : ClientAuthInfo) × (login_id ≢ "")
        × (password ≢ "")
        × (get_client_auth login_id srv ≡ some info)
        × (bcrypt.compare_hash_and_password info.password_hash password ≡ true))
unfolding validate_password
validate_password_lem bcrypt login_id password srv = (
  λ h. elim (Option-cases (lookup login_id srv.auth_clients)) [
    | inl missing ↦ absurd (ground (arith, eq_iff login_id "", eq_iff password ""))
    | inr (info, found) ↦ (
      info,
      ground (arith, eq_iff login_id "", eq_iff password ""),
      ground (arith, eq_iff login_id "", eq_iff password ""),
      found,
      ground (arith, eq_iff login_id "", eq_iff password ""),
    )
  ],
  λ h.
      let (info, named, given, found, fits) = h in
      ground (arith, eq_iff login_id "", eq_iff password ""),
)

-- After ApplyAuth with a list, also when the reload of the server's options fails, a password is
-- accepted for a login exactly when neither is empty, the list has a client of that ID, and bcrypt
-- accepts the password for the hash of the last such client.
pub validate_password-apply_auth :
    (lib : Library) (bcrypt : Bcrypt) (cs : List ClientAuthInfo) (srv : NatsMsgServer)
    (login_id password : String)
    → (validate_password bcrypt login_id password (apply_auth lib cs srv).0 ≡ none) ↔ (
        (info : ClientAuthInfo) × (login_id ≢ "")
        × (password ≢ "")
        × (lookup login_id (clients_by_id [] cs) ≡ some info)
        × (bcrypt.compare_hash_and_password info.password_hash password ≡ true))
validate_password-apply_auth lib bcrypt cs srv login_id password =
    rw (← known-apply_auth lib cs srv login_id)
      (validate_password_lem bcrypt login_id password (apply_auth lib cs srv).0)
