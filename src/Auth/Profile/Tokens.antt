-- ===== src/Auth/Profile/Tokens.antt =====
-- Who gets a token, and who may set permissions.
use done_rest.Prelude.{String, ◌≡◌, ◌≢◌, none, some, arith, lookup, true, List, eq_iff}
use done_rest.Errors.{Error}
use done_rest.Bus.Api.{MsgServer}
use done_rest.Auth.Api.{AuthnEntry, Bcrypt, client_type_service}
use done_rest.Auth.Store.{verify_password, get_profile}
use done_rest.Auth.Clients.{Env}
use done_rest.Auth.Profile.{ProfileState, profile_info, new_token, set_service_permissions}

-- `NewToken` that returns no error is for a sender in the store whose hash bcrypt accepts for the
-- given password, and the token is the one that the server creates for that sender's own profile.
pub new_token-verified :
    (m : MsgServer) (bcrypt : Bcrypt) (env : Env) (sender_id password : String)
    (svc : ProfileState m)
    → (new_token m bcrypt env sender_id password svc).2 ≡ none
    → (e : AuthnEntry) × (lookup sender_id svc.store.entries ≡ some e)
      × (bcrypt.compare_hash_and_password e.password_hash password ≡ true)
      × ((new_token m bcrypt env sender_id password svc).1
          ≡ (m.create_token env.now (profile_info e.client_profile) svc.server).1)
unfolding new_token verify_password
new_token-verified m bcrypt env sender_id password svc ok = ground arith

-- `SetServicePermissions` by a sender that is not in the store, or that is not of type service,
-- fails and changes nothing; by a service it sets the permissions under the sender's own ID.
set_service_permissions_lem :
    (m : MsgServer) (sender_id capability : String) (roles : List String) (svc : ProfileState m)
    → ((lookup sender_id svc.store.entries ≡ none)
        → set_service_permissions m sender_id capability roles svc
          ≡ (svc, some Error.client_not_found))
      × ((e : AuthnEntry)
          → lookup sender_id svc.store.entries ≡ some e
          → e.client_type ≢ client_type_service
          → set_service_permissions m sender_id capability roles svc
            ≡ (svc, some Error.not_a_service))
      × ((e : AuthnEntry)
          → lookup sender_id svc.store.entries ≡ some e
          → e.client_type ≡ client_type_service
          → ((set_service_permissions m sender_id capability roles svc).0.server
              ≡ m.set_service_permissions sender_id capability roles svc.server)
            × ((set_service_permissions m sender_id capability roles svc).1 ≡ none))
unfolding set_service_permissions get_profile
set_service_permissions_lem m sender_id capability roles svc = (
  λ missing. ground arith,
  λ e found other. ground (arith, eq_iff e.client_type client_type_service),
  λ e found service. (
    ground (arith, eq_iff e.client_type client_type_service),
    ground (arith, eq_iff e.client_type client_type_service),
  ),
)
