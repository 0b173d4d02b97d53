-- ===== src/Auth/Profile/Tasks.antt =====
-- The changes that reach the server in goroutines, and their order.
use done_rest.Prelude.{String, ◌≡◌, refl, Option, none, some, lookup, List, [], ◌∷◌, ◌++◌}
use done_rest.Errors.{Error}
use done_rest.Bus.Api.{MsgServer, ClientAuthInfo}
use done_rest.Auth.Api.{Bcrypt}
use done_rest.Auth.Store.{Outcome, get_profile, get_auth_client_list, set_password}
use done_rest.Auth.Store.Validity.{IsValid, set_password-IsValid}
use done_rest.Auth.Clients.{Env}
use done_rest.Auth.Clients.Sync.{known_or, applied-known}
use done_rest.Auth.Profile.{
  ProfileState, applies, Step, runs, run_task, update_password, change_password, password_changed,
  on_change,
}

-- A change of password that returned no error: the task that it started has the store's list.
record IsScheduled (m : MsgServer) (svc svc' : ProfileState m) : Type 0 where
  tasks : svc'.tasks ≡ svc.tasks ++ applies (get_auth_client_list svc'.store) ∷ []
  valid : IsValid svc'.store

change_password-IsScheduled :
    (m : MsgServer) (bcrypt : Bcrypt) (env : Env) (sender_id password : String)
    (svc : ProfileState m) (found : Option Error)
    → IsValid svc.store
    → (change_password m bcrypt env sender_id password svc found).1 ≡ none
    → IsScheduled m svc (change_password m bcrypt env sender_id password svc found).0
unfolding change_password password_changed on_change
change_password-IsScheduled m bcrypt env sender_id password svc (some e) v ok = cc
change_password-IsScheduled m bcrypt env sender_id password svc none v ok =
    go (set_password bcrypt env.io env.now env.salt sender_id password svc.store)
      (set_password-IsValid bcrypt env.io env.now env.salt sender_id password svc.store v) ok
  where
    go :
        (o : Outcome)
        → IsValid o.0
        → (password_changed m svc o).1 ≡ none
        → IsScheduled m svc (password_changed m svc o).0
    go (store, some e) w done = cc
    go (store, none) w done = record { tasks = refl; valid = w }

update_password-IsScheduled :
    (m : MsgServer) (bcrypt : Bcrypt) (env : Env) (sender_id password : String)
    (svc : ProfileState m)
    → IsValid svc.store
    → (update_password m bcrypt env sender_id password svc).1 ≡ none
    → IsScheduled m svc (update_password m bcrypt env sender_id password svc).0
unfolding update_password
update_password-IsScheduled m bcrypt env sender_id password svc =
    change_password-IsScheduled m bcrypt env sender_id password svc
      (get_profile sender_id svc.store).1

-- Two changes of password in a row, by anybody, from a valid store with no goroutine waiting, each
-- without an error. Their goroutines may run in the other order; if ApplyAuth returns no error,
-- the server then authenticates every client by the entry that the store held after the first
-- change, so by the replaced password, while the store has the second and no goroutine is left.
pub update_password-overtaken :
    (m : MsgServer) (bcrypt : Bcrypt) (env later : Env)
    (sender_id other_id password replaced : String) (svc : ProfileState m)
    → let one = update_password m bcrypt env sender_id replaced svc in
      let two = update_password m bcrypt later other_id password one.0 in
      IsValid svc.store
      → svc.tasks ≡ []
      → one.1 ≡ none
      → two.1 ≡ none
      → ((clients : List ClientAuthInfo) (s : m.State) → (m.apply_auth clients s).1 ≡ none)
      → (mid last : ProfileState m) × Step m two.0 mid
        × Step m mid last
        × (last.tasks ≡ [])
        × (last.store ≡ two.0.store)
        × ((client_id : String)
            → m.known client_id last.server ≡ known_or none (lookup client_id one.0.store.entries))
unfolding run_task
update_password-overtaken m bcrypt env later sender_id other_id password replaced svc v idle ok₁ ok₂
      applies_ok =
    let one = (update_password m bcrypt env sender_id replaced svc).0 in
    let two = (update_password m bcrypt later other_id password one).0 in
    let h₁ = update_password-IsScheduled m bcrypt env sender_id replaced svc v ok₁ in
    let h₂ = update_password-IsScheduled m bcrypt later other_id password one h₁.valid ok₂ in
    let first = applies (get_auth_client_list one.store) in
    let second = applies (get_auth_client_list two.store) in
    let mid = run_task m second (record two { tasks = first ∷ [] }) in
    let last = run_task m first (record mid { tasks = [] }) in
    (
      mid,
      last,
      runs (first ∷ []) [] second (rw (h₂.tasks, h₁.tasks, idle)) refl,
      runs [] [] first refl refl,
      refl,
      refl,
      λ client_id. applied-known m one.store mid.server h₁.valid client_id (applies_ok _ _),
    )
