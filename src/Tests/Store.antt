-- ===== src/Tests/Store.antt =====
-- The store of the auth module, on the fixtures.
use done_rest.Prelude.{
  String, ◌≡◌, ◌≢◌, refl, none, List, [], ◌∷◌, arith, lookup, inl, inr, Holds-cons, Holds-nil,
}
use done_rest.Auth.Api.{ClientProfile, client_type_user}
use done_rest.Auth.Roles.{client_role_viewer}
use done_rest.Auth.Store.{set_password, verify_password}
use done_rest.Auth.Store.Calls.{Call, adds, updates, removes, sets_password, reloads, perform, run}
use done_rest.Auth.Store.Entries.{IsAddable}
use done_rest.Auth.Store.Validity.{IsValid, IsValidEntry, run-IsValid}
use done_rest.Auth.Store.Durability.{restart, restart-perform}
use done_rest.Auth.Store.Passwords.{verify-set_password}
use done_rest.Auth.Clients.{new_profile}
use done_rest.Tests.Fixtures.{marked, working, alice, state_service, two_clients}

abbrev bob : ClientProfile
bob = new_profile "bob" client_type_user "Bob" "KB" client_role_viewer

bob-IsAddable : IsAddable "bob" bob
bob-IsAddable = record { named = λ h. cc h; matching = refl; typed = inr (inr refl) }

pub two_clients-IsValid : IsValid two_clients
unfolding lookup
two_clients-IsValid = record {
  entries = record {
    distinct = (refl, (refl, tt));
    valid =
        Holds-cons IsValidEntry "alice" alice (("state", state_service) ∷ [])
          (record {
            named = λ h. cc h;
            keyed = refl;
            typed = inr (inr refl);
            lasting = omega arith;
          })
          (Holds-cons IsValidEntry "state" state_service []
            (record {
              named = λ h. cc h;
              keyed = refl;
              typed = inr (inl refl);
              lasting = omega arith;
            })
            (Holds-nil IsValidEntry));
  };
  file = tt;
}

abbrev promoted : ClientProfile
promoted = record (alice.client_profile) { role = "admin"; client_type = "robot" }

abbrev some_calls : List Call
some_calls =
    record { io = working; now = 1; salt = 2; request = adds "bob" bob }
    ∷ record { io = working; now = 3; salt = 4; request = sets_password "bob" "long enough" }
    ∷ record { io = working; now = 5; salt = 6; request = updates "alice" (alice.client_profile) }
    ∷ record { io = working; now = 7; salt = 8; request = removes "state" }
    ∷ record { io = working; now = 9; salt = 9; request = reloads }
    ∷ []

run-IsValid_example : IsValid (run marked some_calls two_clients)
run-IsValid_example =
    run-IsValid marked some_calls two_clients (tt, (tt, (inr (inr (inr refl)), (tt, (tt, tt)))))
      two_clients-IsValid

restart-perform_example :
    ((perform marked working 5000 1 (adds "bob" bob) two_clients).1 ≡ none
      → (restart working
          (perform marked working 5000 1 (adds "bob" bob) two_clients).0.file).0.entries
        ≡ (perform marked working 5000 1 (adds "bob" bob) two_clients).0.entries)
    × ((perform marked working 5000 1 (adds "bob" bob) two_clients).1 ≢ none
        → (perform marked working 5000 1 (adds "bob" bob) two_clients).0.file ≡ two_clients.file)
restart-perform_example =
    restart-perform marked working working 5000 1 (adds "bob" bob) two_clients tt refl

verify-set_password_example :
    (verify_password marked "alice" "new words"
        (set_password marked working 5000 1 "alice" "new words" two_clients).0
      ≡ (record (alice.client_profile) { updated_mse = 5000 }, none))
    × ((j q : String)
        → "alice" ≢ j
        → verify_password marked j q
            (set_password marked working 5000 1 "alice" "new words" two_clients).0
          ≡ verify_password marked j q two_clients)
unfolding lookup
verify-set_password_example =
    verify-set_password marked working 5000 1 "alice" "new words" "#new words" two_clients alice
      (omega arith) refl refl
