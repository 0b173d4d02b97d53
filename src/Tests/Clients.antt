-- ===== src/Tests/Clients.antt =====
-- The management of clients and of profiles, on the fixtures.
use done_rest.Prelude.{String, ◌≡◌, refl, none, List, [], ◌∷◌, lookup, insert}
use done_rest.Bus.Api.{ClientAuthInfo}
use done_rest.Bus.Nats.{apply_auth}
use done_rest.Bus.Nats.Tokens.{create_token, create_jwt_token, checked_encode}
use done_rest.Auth.Store.{
  get_profile, set_password_hash, add, set_password, save, remove_client, rejection,
}
use done_rest.Auth.Store.Entries.{role_of}
use done_rest.Auth.Clients.{
  add_user, remove_client as remove_from_hub, update_client_role, on_change,
}
use done_rest.Auth.Clients.Sync.{IsSynced, known_or, add_user-IsSynced, remove_client-IsSynced}
use done_rest.Auth.Clients.Roles.{update_client_role-keeps_roles}
use done_rest.Auth.Profile.{ProfileState, Step, update_password, on_change as schedule_apply}
use done_rest.Auth.Profile.Tasks.{update_password-overtaken}
use done_rest.Tests.Store.{two_clients-IsValid}
use done_rest.Tests.Fixtures.{marked, state_service, two_clients, bus, env, hub, profiles}

abbrev with_password : ProfileState bus
with_password = record profiles {
  auth = record hub {
    store = record two_clients {
      entries = ("state", record state_service { password_hash = "#secret" }) ∷ [];
    };
  };
}

applied_without_error :
    (clients : List ClientAuthInfo) (s : bus.State) → (bus.apply_auth clients s).1 ≡ none
unfolding apply_auth
applied_without_error clients s = refl

add_user-IsSynced_example :
    IsSynced bus (add_user bus marked env "bob" "Bob" "secret" "KB" "viewer" hub).0
unfolding add_user add rejection save on_change apply_auth set_password set_password_hash
    create_token create_jwt_token checked_encode insert lookup
add_user-IsSynced_example =
    add_user-IsSynced bus marked env "bob" "Bob" "secret" "KB" "viewer" hub two_clients-IsValid refl

remove_client-IsSynced_example :
    let after = (remove_from_hub bus env "alice" hub).0 in
    (lookup "alice" after.store.entries ≡ none)
    × (bus.known "alice" after.server ≡ none)
    × IsSynced bus after
unfolding remove_from_hub remove_client on_change save apply_auth
remove_client-IsSynced_example = remove_client-IsSynced bus env "alice" hub two_clients-IsValid refl

update_client_role-keeps_roles_example :
    let after = (update_client_role bus env "alice" "admin" hub).0 in
    (role_of "alice" after.store ≡ role_of "alice" hub.store) × (after.server ≡ hub.server)
update_client_role-keeps_roles_example =
    update_client_role-keeps_roles bus env "alice" "admin" hub "alice"

update_password-overtaken_example :
    let one = update_password bus marked env "alice" "first" profiles in
    let two = update_password bus marked env "alice" "second" one.0 in
    (mid last : ProfileState bus) × Step bus two.0 mid
    × Step bus mid last
    × (last.tasks ≡ [])
    × (last.store ≡ two.0.store)
    × ((client_id : String)
        → bus.known client_id last.server ≡ known_or none (lookup client_id one.0.store.entries))
unfolding update_password set_password get_profile lookup set_password_hash save schedule_apply
    insert
update_password-overtaken_example =
    update_password-overtaken bus marked env env "alice" "alice" "second" "first" profiles
      two_clients-IsValid refl refl refl (λ clients s. applied_without_error clients s)
