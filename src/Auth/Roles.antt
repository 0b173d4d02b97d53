-- ===== src/Auth/Roles.antt =====
-- done_mod/mod_auth/auth_api/ManageRolesAPI.go: the predefined roles.
pub mod Defaults
use done_rest.Prelude.{String}

abbrev pub client_role_none : String
client_role_none = ""

abbrev pub client_role_admin : String
client_role_admin = "admin"

abbrev pub client_role_device : String
client_role_device = "device"

abbrev pub client_role_manager : String
client_role_manager = "manager"

abbrev pub client_role_operator : String
client_role_operator = "operator"

abbrev pub client_role_service : String
client_role_service = "service"

abbrev pub client_role_viewer : String
client_role_viewer = "viewer"
