-- ===== src/Tests/AuthService.antt =====
-- A start of the auth service on the fixtures, with a file system that keeps nothing.
use Prim.Native.String.{◌++◌ as append_text}
use done_rest.Prelude.{String, false, refl, inr, none, List, [], lookup, insert}
use done_rest.Errors.{Error}
use done_rest.Bus.Nats.{apply_auth, apply_clients, make_permissions, set_service_permissions}
use done_rest.Auth.Roles.Defaults.{default_role_permissions}
use done_rest.Bus.Nats.Tokens.{create_token, create_jwt_token, checked_encode}
use done_rest.Auth.Store.{
  add, save, rejection, open_store, reload, get_entries, client_auth_info, added_entry,
  default_validity,
}
use done_rest.Auth.Store.Validity.{IsValid}
use done_rest.Auth.Clients.{add_user, add_service, on_change}
use done_rest.Auth.Service.{AuthService, AuthConfig, Startup, Capabilities, ServiceFiles, start}
use done_rest.Auth.Service.Started.{HasStarted, start-HasStarted}
use done_rest.Cli.Keys.{connect_with_token, load_create_key_pair}
use done_rest.Transport.Nats.{nats_transport, connect_with_token as nats_connect}
use done_rest.Tests.Fixtures.{marked, working, two_clients, bus, env, hub}
use done_rest.Tests.Messages.{quick_nats, connected_as}
use done_rest.Tests.Store.{two_clients-IsValid}

abbrev accounts : AuthConfig
accounts = record {
  admin_account_id = "admin";
  launcher_account_id = "launcher";
  keys_dir = "keys";
}

abbrev no_files : ServiceFiles (Unit {0}) String
no_files = record {
  keys = record {
    join_path = λ folder name. append_text folder name;
    read_file = λ name fs. inr Error.read_failed;
    new_key_from_file = λ name fs. inr Error.read_failed;
    export_private_to_file = λ kp name fs. (fs, none);
    export_public_to_file = λ kp name fs. (fs, none);
  };
  remove_file = λ name fs. fs;
  write_file = λ name text fs. (fs, none);
}

abbrev first_start : Startup (nats_transport quick_nats) String (List String)
first_start = record {
  store_io = working;
  service_env = env;
  launcher_env = env;
  admin_env = env;
  new_client = connected_as "auth";
  own_key = "K1";
  launcher_key = "K2";
  admin_key = "K3";
  export_public = λ kp. kp;
}

abbrev no_methods : Capabilities String (List String)
no_methods = record { manage_clients = []; manage_roles = []; profile = [] }

abbrev stopped : AuthService bus (nats_transport quick_nats) String (List String)
stopped = record { auth = record hub { store = record two_clients { watcher = false } }; hc = none }

stopped-IsValid : IsValid stopped.auth.store
stopped-IsValid = record { entries = two_clients-IsValid.entries; file = two_clients-IsValid.file }

start-HasStarted_example :
    HasStarted bus
      (nats_transport quick_nats)
      marked
      no_files
      accounts
      first_start
      (start bus
        (nats_transport quick_nats)
        marked
        no_files
        accounts
        first_start
        no_methods
        stopped
        tt).0.auth
unfolding start add_user add_service add rejection save on_change apply_auth create_token
    create_jwt_token checked_encode insert lookup open_store reload connect_with_token
    load_create_key_pair connected_as nats_connect apply_clients get_entries make_permissions
    set_service_permissions default_role_permissions client_auth_info added_entry default_validity
start-HasStarted_example =
    start-HasStarted bus (nats_transport quick_nats) marked no_files accounts first_start no_methods
      stopped tt stopped-IsValid refl
