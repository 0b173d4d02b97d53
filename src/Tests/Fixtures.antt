-- ===== src/Tests/Fixtures.antt =====
-- The data of the tests: a bcrypt, a file system without failures, two clients, a server with the
-- default roles.
use Prim.Native.String.{◌++◌ as append_text}
use done_rest.Prelude.{◌*◌, String, ◌≡◌, true, none, some, [], ◌∷◌, arith, ◌==◌, eq_iff}
use done_rest.Bus.Api.{RolePermission, MsgServer}
use done_rest.Bus.Slices.{Heap}
use done_rest.Bus.Nats.{NatsMsgServer, Library}
use done_rest.Bus.Nats.Server.{nats_msg_server}
use done_rest.Auth.Api.{AuthnEntry, Bcrypt, client_type_service, client_type_user}
use done_rest.Auth.Roles.{client_role_manager, client_role_service}
use done_rest.Auth.Roles.Defaults.{Defaults, default_role_permissions, publishing}
use done_rest.Auth.Store.{AuthnFileStore, Io}
use done_rest.Auth.Clients.{Env, AuthState, new_profile}
use done_rest.Auth.Profile.{ProfileState}

-- The hash of a password is the password behind a mark.
abbrev pub hash_of : String → String
hash_of password = append_text "#" password

pub marked-generate :
    (password hash : String)
    → some (hash_of password) ≡ some hash
    → (hash == hash_of password) ≡ true
marked-generate password hash h = ground (arith, eq_iff hash (hash_of password))

abbrev pub marked : Bcrypt
marked = record {
  generate_from_password = λ salt password. some (hash_of password);
  compare_hash_and_password = λ hash password. hash == hash_of password;
  compare-generate = λ salt password hash h. marked-generate password hash h;
}

abbrev pub working : Io
working = record {
  mkdir_all = none;
  create_temp = none;
  write = none;
  rename = none;
  read_file = none;
  watch = none;
}

abbrev pub alice : AuthnEntry
alice = record {
  client_profile = record (new_profile "alice" client_type_user "Alice" "" client_role_manager) {
    token_validity_days = 30;
  };
  password_hash = hash_of "secret";
}

abbrev pub state_service : AuthnEntry
state_service = record {
  client_profile =
      record (new_profile "state" client_type_service "State" "K1" client_role_service) {
        token_validity_days = 365;
      };
  password_hash = "";
}

abbrev pub two_clients : AuthnFileStore
two_clients = record {
  entries = ("alice", alice) ∷ ("state", state_service) ∷ [];
  watcher = true;
  file = none;
}

abbrev pub plain_library : Library
plain_library = record {
  reload_options = λ users nkeys. none;
  validate = λ claims. (0, 0);
  encode = λ account claims. (append_text "jwt:" claims.name, none);
  grow = λ cap need. cap * 2;
}

abbrev pub blank_heap : Heap RolePermission
blank_heap = record { next = 0; cell = λ a i. publishing "" "" }

abbrev pub roles : Defaults
roles = default_role_permissions plain_library.grow blank_heap

abbrev pub nats : NatsMsgServer
nats = record {
  core_service_pub = "CORE";
  system_user_pub = "SYSTEM";
  app_account_pub = "APP";
  app_account_name = "hub";
  callout = true;
  auth_clients = [];
  role_permissions = roles.roles;
  service_permissions = [];
  arrays = roles.arrays;
  users = [];
  nkeys = [];
}

abbrev pub bus : MsgServer
bus = nats_msg_server plain_library

abbrev pub env : Env
env = record { io = working; io_second = working; now = 5000; salt = 7 }

abbrev pub hub : AuthState bus
hub = record { store = two_clients; server = nats }

abbrev pub profiles : ProfileState bus
profiles = record { auth = hub; tasks = [] }
