-- ===== src/Auth/Store/Calls.antt =====
-- The calls of the interface IAuthnStore that change the store, and their sequences. Each call has
-- the answers of the file system, the time and the salt that it met.
use done_rest.Prelude.{ℕ, String, List, [], ◌∷◌}
use done_rest.Auth.Api.{ClientProfile, Bcrypt}
use done_rest.Auth.Store.{
  AuthnFileStore, Io, Outcome, add, update, remove_client, set_password, reload,
}

pub data Request : Type 0 where
  adds updates : String → ClientProfile → Request
  removes : String → Request
  sets_password : String → String → Request
  reloads : Request

pub record Call : Type 0 where
  pub io : Io
  pub now : ℕ
  pub salt : ℕ
  pub request : Request

unfoldable pub perform : Bcrypt → Io → ℕ → ℕ → Request → AuthnFileStore → Outcome
perform bcrypt io now salt (adds client_id profile) s = add io now client_id profile s
perform bcrypt io now salt (updates client_id profile) s = update io now client_id profile s
perform bcrypt io now salt (removes client_id) s = remove_client io client_id s
perform bcrypt io now salt (sets_password login_id password) s =
    set_password bcrypt io now salt login_id password s
perform bcrypt io now salt reloads s = reload io s

unfoldable pub step : Bcrypt → Call → AuthnFileStore → Outcome
unfolding perform
step bcrypt c s = perform bcrypt c.io c.now c.salt c.request s

unfoldable pub run : Bcrypt → List Call → AuthnFileStore → AuthnFileStore
run bcrypt [] s = s
run bcrypt (c ∷ cs) s = run bcrypt cs (step bcrypt c s).0
