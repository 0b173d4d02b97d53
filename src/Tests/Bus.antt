-- ===== src/Tests/Bus.antt =====
-- Subjects, permissions and tokens of the server with the default roles.
use done_rest.Prelude.{
  String, ◌≡◌, ◌≢◌, ◌↔◌, refl, none, some, [], ◌∷◌, arith, lookup, insert, true, All,
}
use done_rest.Transport.Subjects.{AreTokens}
use done_rest.Bus.Api.{ClientAuthInfo, clients_by_id}
use done_rest.Bus.Slices.{Slice, append, literal}
use done_rest.Bus.Nats.{
  NatsMsgServer, permit_roles, apply_auth, make_permissions, set_service_permissions,
  service_permission, or_empty,
}
use done_rest.Bus.Nats.Tokens.{validate_password}
use done_rest.Bus.Nats.Grants.{MayPublish, make_permissions-MayPublish}
use done_rest.Bus.Nats.Sharing.{permission_at, make_permissions_overwrites}
use done_rest.Bus.Nats.Server.{validate_password-apply_auth}
use done_rest.Auth.Api.{client_type_user}
use done_rest.Auth.Roles.{client_role_manager}
use done_rest.Auth.Roles.Defaults.{default_role_permissions}
use done_rest.Auth.Clients.{token_info}
use done_rest.Tests.Fixtures.{marked, plain_library, nats, hash_of}

parts-AreTokens : AreTokens "event" "agent" "" "temperature"
parts-AreTokens = record {
  msg_type_free = omega arith;
  agent_id_free = omega arith;
  thing_id_free = tt;
  name_free = omega arith;
}

abbrev manager : ClientAuthInfo
manager = record (token_info "mia" client_type_user "KM" client_role_manager) {
  password_hash = hash_of "secret";
}

make_permissions-MayPublish_example :
    All (MayPublish "mia") (make_permissions plain_library manager nats).1.pub_allow
make_permissions-MayPublish_example =
    make_permissions-MayPublish plain_library manager nats (λ e. cc e)

abbrev stranger : ClientAuthInfo
stranger = token_info "zoe" client_type_user "KZ" "guest"

abbrev with_service : NatsMsgServer
with_service = set_service_permissions "state" "store" (client_role_manager ∷ []) nats

-- The slices that the managers and the administrators have by default.
abbrev manager_slice : Slice
manager_slice = record { array = 3; len = 3; cap = 4 }

abbrev admin_slice : Slice
admin_slice = record { array = 3; len = 4; cap = 4 }

make_permissions_overwrites_example :
    permission_at (make_permissions plain_library manager with_service).0 admin_slice 3
    ≡ some (service_permission "state" "store")
unfolding lookup default_role_permissions set_service_permissions append literal permit_roles insert
    or_empty
make_permissions_overwrites_example =
    make_permissions_overwrites plain_library manager with_service manager_slice admin_slice
      (service_permission "state" "store") refl refl (omega arith) refl (omega arith)

validate_password-apply_auth_example :
    let login : String = "mia" in
    let password : String = "secret" in
    (validate_password marked login password (apply_auth plain_library (manager ∷ []) nats).0
      ≡ none)
    ↔ ((info : ClientAuthInfo) × (login ≢ "")
        × (password ≢ "")
        × (lookup "mia" (clients_by_id [] (manager ∷ [])) ≡ some info)
        × (marked.compare_hash_and_password info.password_hash "secret" ≡ true))
validate_password-apply_auth_example =
    validate_password-apply_auth plain_library marked (manager ∷ []) nats "mia" "secret"
