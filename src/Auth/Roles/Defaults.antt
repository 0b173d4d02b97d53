-- ===== src/Auth/Roles/Defaults.antt =====
-- done_mod/mod_auth/auth_api/ManageRolesAPI.go: the default permissions of the roles. The package's
-- variables are initialised in the order of their declarations, each by an append to the slice
-- before it, so roles may share an array.
use done_rest.Prelude.{ℕ, String, true, false, Option, none, some, List, [], ◌∷◌, Dict}
use done_rest.Bus.Api.{RolePermission}
use done_rest.Bus.Slices.{Slice, Heap, append, literal}
use done_rest.Transport.{
  message_type_action, message_type_config, message_type_event, message_type_rpc,
}
use done_rest.Auth.Roles.{
  client_role_none, client_role_device, client_role_service, client_role_viewer,
  client_role_operator, client_role_manager, client_role_admin,
}

-- A permission for an agent, or for all, to publish.
abbrev pub publishing : String → String → RolePermission
publishing msg_type agent_id = record {
  agent_id = agent_id;
  thing_id = "";
  msg_type = msg_type;
  msg_name = "";
  allow_pub = true;
  allow_sub = false;
}

abbrev pub subscribing : String → String → RolePermission
subscribing msg_type agent_id = record {
  agent_id = agent_id;
  thing_id = "";
  msg_type = msg_type;
  msg_name = "";
  allow_pub = false;
  allow_sub = true;
}

abbrev pub device_permissions : List RolePermission
device_permissions =
    publishing message_type_event "{clientID}"
    ∷ subscribing message_type_event ""
    ∷ subscribing message_type_action "{clientID}"
    ∷ subscribing message_type_config "{clientID}"
    ∷ []

abbrev pub viewer_permissions : List RolePermission
viewer_permissions = subscribing message_type_event "" ∷ []

abbrev pub operator_permissions : List RolePermission
operator_permissions = subscribing message_type_event "" ∷ publishing message_type_action "" ∷ []

abbrev pub manager_extra : List RolePermission
manager_extra = publishing message_type_config "" ∷ []

abbrev pub admin_extra : List RolePermission
admin_extra = publishing message_type_rpc "" ∷ []

abbrev pub service_extra : List RolePermission
service_extra =
    publishing message_type_event "{clientID}"
    ∷ subscribing message_type_rpc "{clientID}"
    ∷ subscribing message_type_action "{clientID}"
    ∷ subscribing message_type_config "{clientID}"
    ∷ []

-- The slices of the roles beside the arrays that they stand in.
pub record Defaults : Type 0 where
  pub roles : Dict (Option Slice)
  pub arrays : Heap RolePermission

unfoldable pub default_role_permissions : (ℕ → ℕ → ℕ) → Heap RolePermission → Defaults
default_role_permissions grow start =
    let device = literal start device_permissions in
    let viewer = literal device.1 viewer_permissions in
    let operator = literal viewer.1 operator_permissions in
    let manager = append grow operator.1 operator.0 manager_extra in
    let admin = append grow manager.1 manager.0 admin_extra in
    let service = append grow admin.1 admin.0 service_extra in
    record {
      roles =
          (client_role_none, none)
          ∷ (client_role_device, some device.0)
          ∷ (client_role_service, some service.0)
          ∷ (client_role_viewer, some viewer.0)
          ∷ (client_role_operator, some operator.0)
          ∷ (client_role_manager, some manager.0)
          ∷ (client_role_admin, some admin.0)
          ∷ [];
      arrays = service.1;
    }
