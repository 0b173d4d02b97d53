-- ===== src/Bus/Api.antt =====
-- done_mod/mod_bus/IMsgServer.go: what the services ask of a message server.
use done_rest.Prelude.{ℕ, String, Bool, ◌≡◌, Option, none, List, [], ◌∷◌, Dict, lookup, insert}
use done_rest.Errors.{Error}

-- What is given to the message server for each client.
pub record ClientAuthInfo : Type 0 where
  pub client_id : String
  pub client_type : String
  pub pub_key : String
  pub password_hash : String
  pub role : String

-- An empty text stands for any agent, thing, message type or name.
pub record RolePermission : Type 0 where
  pub agent_id : String
  pub thing_id : String
  pub msg_type : String
  pub msg_name : String
  pub allow_pub : Bool
  pub allow_sub : Bool

-- The clients of a list by their ID; the last of one ID stays.
unfoldable pub clients_by_id : Dict ClientAuthInfo → List ClientAuthInfo → Dict ClientAuthInfo
clients_by_id d [] = d
clients_by_id d (c ∷ cs) = clients_by_id (insert c.client_id c d) cs

-- The part of IMsgServer that the services call. `known` is the client that the server
-- authenticates under an ID, and the law is what ApplyAuth promises: after a call without an error
-- these are the clients of the list.
pub record MsgServer : Type 1 where
  pub State : Type 0
  pub apply_auth : List ClientAuthInfo → State → State × Option Error
  pub create_token : ℕ → ClientAuthInfo → State → State × String × Option Error
  pub set_service_permissions : String → String → List String → State → State
  pub known : String → State → Option ClientAuthInfo
  pub known-apply_auth :
      (clients : List ClientAuthInfo) (s : State) (client_id : String)
      → (apply_auth clients s).1 ≡ none
      → known client_id (apply_auth clients s).0 ≡ lookup client_id (clients_by_id [] clients)
