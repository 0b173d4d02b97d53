-- ===== src/Bus/Nats.antt =====
-- done_mod/mod_bus/bus_srv/NatsAuth.go: clients and permissions of the NATS server.
pub mod Grants
pub mod Sharing
pub mod Server
pub mod Tokens
use done_rest.Prelude.{
  ℕ, ◌+◌, ◌*◌, ◌/◌, String, Bool, true, false, ◌&&◌, ◌||◌, Option, none, some, List, [], ◌∷◌, ◌++◌,
  ◌≡◌, Dict, lookup, insert, ltb, eqb, ◌==◌, ◌/=◌, if◌then◌else◌,
}
use Prim.Native.String.{◌++◌ as append_text}
use done_rest.Errors.{Error}
use done_rest.Bus.Api.{ClientAuthInfo, RolePermission}
use done_rest.Bus.Slices.{Slice, Heap, read, append}
use done_rest.Transport.{message_type_rpc, message_type_inbox}
use done_rest.Transport.Subjects.{make_subject}
use done_rest.Auth.Api.{
  Bcrypt, client_type_device, client_type_service, default_device_token_validity_days,
  default_service_token_validity_days, default_user_token_validity_days,
}
use done_rest.Auth.Roles.{client_role_admin}

abbrev pub events_intake_stream_name : String
events_intake_stream_name = "$events"

pub record Permissions : Type 0 where
  pub pub_allow : List String
  pub pub_deny : List String
  pub sub_allow : List String
  pub sub_deny : List String

pub record User : Type 0 where
  pub username : String
  pub password : String
  pub permissions : Permissions

-- No permissions object means unlimited access.
pub record NkeyUser : Type 0 where
  pub nkey : String
  pub permissions : Option Permissions

-- The fields of the server and of its configuration that this code reads. `callout` tells whether
-- an AuthCallout is configured. A role may have no slice at all, Go's nil.
pub record NatsMsgServer : Type 0 where
  pub core_service_pub : String
  pub system_user_pub : String
  pub app_account_pub : String
  pub app_account_name : String
  pub callout : Bool
  pub auth_clients : Dict ClientAuthInfo
  pub role_permissions : Dict (Option Slice)
  pub service_permissions : Dict (List RolePermission)
  pub arrays : Heap RolePermission
  pub users : List User
  pub nkeys : List NkeyUser

pub record UserClaims : Type 0 where
  pub subject : String
  pub name : String
  pub client_type : String
  pub issued_at : ℕ
  pub expires : ℕ
  pub issuer : String
  pub audience : String
  pub permissions : Permissions

-- What the code calls of the NATS libraries and of the Go runtime: the reload of the server's
-- options, the numbers of errors and warnings of a validation, the encoding of claims with the key
-- pair of a public key, and the capacity of a slice that has to grow.
pub record Library : Type 0 where
  pub reload_options : List User → List NkeyUser → Option Error
  pub validate : UserClaims → ℕ × ℕ
  pub encode : String → UserClaims → String × Option Error
  pub grow : ℕ → ℕ → ℕ

abbrev pub client_id_place : String
client_id_place = "{clientID}"

unfoldable pub perm_agent_id : ClientAuthInfo → RolePermission → String
perm_agent_id info perm = if perm.agent_id == client_id_place then info.client_id else perm.agent_id

unfoldable pub pub_subject : ClientAuthInfo → RolePermission → String
unfolding perm_agent_id
pub_subject info perm =
    make_subject perm.msg_type (perm_agent_id info perm) perm.thing_id perm.msg_name info.client_id

unfoldable pub sub_subject : ClientAuthInfo → RolePermission → String
unfolding perm_agent_id
sub_subject info perm =
    make_subject perm.msg_type (perm_agent_id info perm) perm.thing_id perm.msg_name ""

-- The loop over the permissions of the role.
unfoldable pub apply_role : ClientAuthInfo → List RolePermission → Permissions → Permissions
apply_role info [] p = p
apply_role info (perm ∷ rest) p = apply_role info rest (record p {
  pub_allow = if perm.allow_pub then p.pub_allow ++ pub_subject info perm ∷ [] else p.pub_allow;
  sub_allow = if perm.allow_sub then p.sub_allow ++ sub_subject info perm ∷ [] else p.sub_allow;
})

abbrev pub stream_subjects : List String
stream_subjects =
    "$JS.API.STREAM.INFO.$events" ∷ "$JS.API.CONSUMER.CREATE.$events"
    ∷ "$JS.API.CONSUMER.LIST.$events" ∷ "$JS.API.CONSUMER.INFO.$events.>"
    ∷ "$JS.API.CONSUMER.MSG.NEXT.$events.>" ∷ []

unfoldable pub inbox_permissions : ClientAuthInfo → Permissions
inbox_permissions info = record {
  pub_allow = "_INBOX.>" ∷ [];
  pub_deny = [];
  sub_allow = append_text "_INBOX." (append_text info.client_id ".>") ∷ [];
  sub_deny = [];
}

-- Stream access for every role that has permissions, and for the admin role one subject more.
unfoldable pub with_streams : ClientAuthInfo → Permissions → Permissions
with_streams info p = record p {
  pub_allow =
      p.pub_allow
      ++ (stream_subjects ++ (if info.role == client_role_admin then "$JS.API.INFO" ∷ [] else []));
}

unfoldable pub denied_streams : Permissions → Permissions
denied_streams p = record p {
  pub_deny = p.pub_deny ++ "$JS.API.CONSUMER.>" ∷ "$JS.API.STREAM.>" ∷ [];
}

-- The slice of the role, with the permissions that services set for it appended.
unfoldable pub extended_role :
    Library → NatsMsgServer → Slice → Option (List RolePermission) → Slice × Heap RolePermission
extended_role lib srv slice none = (slice, srv.arrays)
extended_role lib srv slice (some perms) = append lib.grow srv.arrays slice perms

role_permissions_for :
    Library → ClientAuthInfo → NatsMsgServer → Option (Option Slice) → NatsMsgServer × Permissions
role_permissions_for lib info srv none = (srv, denied_streams (inbox_permissions info))
role_permissions_for lib info srv (some none) = (srv, inbox_permissions info)
role_permissions_for lib info srv (some (some slice)) =
    let extended = extended_role lib srv slice (lookup info.role srv.service_permissions) in
    (
      record srv { arrays = extended.1 },
      with_streams info (apply_role info (read extended.1 extended.0) (inbox_permissions info)),
    )

-- The appending may write into an array that another role's slice shares.
unfoldable pub make_permissions :
    Library → ClientAuthInfo → NatsMsgServer → NatsMsgServer × Permissions
unfolding role_permissions_for
make_permissions lib info srv =
    role_permissions_for lib info srv (lookup info.role srv.role_permissions)

-- The lists that ApplyAuth builds.
pub record Applied : Type 0 where
  pub users : List User
  pub nkeys : List NkeyUser
  pub clients : Dict ClientAuthInfo

unfoldable pub apply_client : ClientAuthInfo → Permissions → Applied → Applied
apply_client info perms a = record {
  users =
      if info.password_hash /= ""
      then a.users
        ++ record { username = info.client_id; password = info.password_hash; permissions = perms }
          ∷ []
      else a.users;
  nkeys =
      if info.pub_key /= ""
      then a.nkeys ++ record { nkey = info.pub_key; permissions = some perms } ∷ []
      else a.nkeys;
  clients = insert info.client_id info a.clients;
}

unfoldable pub apply_clients :
    Library → List ClientAuthInfo → NatsMsgServer → Applied → NatsMsgServer × Applied
apply_clients lib [] srv a = (srv, a)
apply_clients lib (info ∷ rest) srv a =
    let made = make_permissions lib info srv in
    apply_clients lib rest made.0 (apply_client info made.1 a)

-- The core service's and the system user's keys are kept.
unfoldable pub kept_nkeys : NatsMsgServer → List NkeyUser
kept_nkeys srv =
    record { nkey = srv.core_service_pub; permissions = none }
    ∷ record { nkey = srv.system_user_pub; permissions = none }
    ∷ []

unfoldable pub apply_auth :
    Library → List ClientAuthInfo → NatsMsgServer → NatsMsgServer × Option Error
apply_auth lib clients srv =
    let done =
      apply_clients lib clients srv (record { users = []; nkeys = kept_nkeys srv; clients = [] }) in
    (
      record (done.0) {
        users = (done.1).users;
        nkeys = (done.1).nkeys;
        auth_clients = (done.1).clients;
      },
      lib.reload_options (done.1).users (done.1).nkeys,
    )

unfoldable pub get_client_auth : String → NatsMsgServer → Option ClientAuthInfo
get_client_auth client_id srv = lookup client_id srv.auth_clients

unfoldable pub set_role_permissions : Dict (Option Slice) → NatsMsgServer → NatsMsgServer
set_role_permissions perms srv = record srv { role_permissions = perms }

abbrev pub service_permission : String → String → RolePermission
service_permission service_id capability = record {
  agent_id = service_id;
  thing_id = capability;
  msg_type = message_type_rpc;
  msg_name = "";
  allow_pub = true;
  allow_sub = false;
}

unfoldable pub or_empty : Option (List RolePermission) → List RolePermission
or_empty none = []
or_empty (some perms) = perms

-- The loop over the roles.
unfoldable pub permit_roles :
    RolePermission → List String → Dict (List RolePermission) → Dict (List RolePermission)
permit_roles perm [] d = d
permit_roles perm (role ∷ rest) d =
    permit_roles perm rest (insert role (or_empty (lookup role d) ++ perm ∷ []) d)

unfoldable pub set_service_permissions :
    String → String → List String → NatsMsgServer → NatsMsgServer
set_service_permissions service_id capability roles srv = record srv {
  service_permissions =
      permit_roles (service_permission service_id capability) roles srv.service_permissions;
}
