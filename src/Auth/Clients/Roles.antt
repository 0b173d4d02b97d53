-- ===== src/Auth/Clients/Roles.antt =====
-- `UpdateClientRole` against what its name says.
use done_rest.Prelude.{String, ◌≡◌, refl, Option, none, some, arith}
use done_rest.Errors.{Error}
use done_rest.Bus.Api.{MsgServer}
use done_rest.Auth.Api.{ClientProfile}
use done_rest.Auth.Store.{get_profile}
use done_rest.Auth.Store.Entries.{role_of, update-keeps_roles}
use done_rest.Auth.Clients.{Env, AuthState, update_client_role, update_role}

update_role-keeps_roles :
    (m : MsgServer) (env : Env) (client_id role : String) (svc : AuthState m)
    (found : ClientProfile × Option Error) (j : String)
    → role_of j (update_role m env client_id role svc found).0.store ≡ role_of j svc.store
unfolding update_role
update_role-keeps_roles m env client_id role svc (prof, some e) j = refl
update_role-keeps_roles m env client_id role svc (prof, none) j =
    update-keeps_roles env.io env.now client_id (record prof { role = role }) svc.store j

-- `UpdateClientRole` changes no role in the store, the client's own included, and leaves the
-- message server as it was: the request to change a role has no effect on any role, whatever the
-- store, the client and the role asked for.
pub update_client_role-keeps_roles :
    (m : MsgServer) (env : Env) (client_id role : String) (svc : AuthState m) (j : String)
    → let after = (update_client_role m env client_id role svc).0 in
      (role_of j after.store ≡ role_of j svc.store) × (after.server ≡ svc.server)
unfolding update_client_role update_role
update_client_role-keeps_roles m env client_id role svc j = (
  update_role-keeps_roles m env client_id role svc (get_profile client_id svc.store) j,
  ground arith,
)
