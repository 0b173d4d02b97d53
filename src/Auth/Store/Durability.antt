-- ===== src/Auth/Store/Durability.antt =====
-- What the file holds after a call, and what a restarted store reads from it.
use done_rest.Prelude.{
  ℕ, String, ◌≡◌, ◌≢◌, inl, inr, refl, ap, sym, ◌∙◌, Option, none, some, Dict, lookup, Option-cases,
  Bool-cases, ltb, ◌/=◌,
}
use Prim.Native.String.{len}
use done_rest.Errors.{Error}
use done_rest.Auth.Api.{ClientProfile, AuthnEntry, Bcrypt}
use done_rest.Auth.Store.{
  AuthnFileStore, Io, Contents, json, Outcome, add, rejection, update, remove_client, set_password,
  set_password_hash, reload, reload_from, save, new_authn_file_store,
}
use done_rest.Auth.Store.Calls.{Request, adds, updates, removes, sets_password, reloads, perform}
use done_rest.Auth.Store.Saving.{entries-save, save_cases}

-- Without an error the file holds the entries; with one it is as it was.
pub record IsDurable (s : AuthnFileStore) (o : Outcome) : Type 0 where
  pub saved : o.1 ≡ none → o.0.file ≡ some (json o.0.entries)
  pub failed : o.1 ≢ none → o.0.file ≡ s.file

save-IsDurable :
    (io : Io) (s : AuthnFileStore) (d : Dict AuthnEntry)
    → IsDurable s (save io (record s { entries = d }))
save-IsDurable io s d =
    let t = record s { entries = d } in
    elim (save_cases io t) [
      | inl (ok, e) ↦ record {
        saved = λ _. e ∙ ap (λ (x : Dict AuthnEntry). some (json x)) (sym (entries-save io t));
        failed = λ h. absurd (h ok);
      }
      | inr (bad, e) ↦ record { saved = λ h. absurd (bad h); failed = λ _. e }
    ]

refused-IsDurable : (s : AuthnFileStore) (e : Error) → IsDurable s (s, some e)
refused-IsDurable s e = record { saved = λ h. cc; failed = λ _. refl }

add-IsDurable :
    (io : Io) (now : ℕ) (client_id : String) (profile : ClientProfile) (s : AuthnFileStore)
    → IsDurable s (add io now client_id profile s)
unfolding add
add-IsDurable io now client_id profile s = elim (Option-cases (rejection client_id profile)) [
  | inl accepted ↦ rw (accepted, add) (save-IsDurable io s _)
  | inr (e, refused) ↦ rw (refused, add) (refused-IsDurable s e)
]

update-IsDurable :
    (io : Io) (now : ℕ) (client_id : String) (profile : ClientProfile) (s : AuthnFileStore)
    → IsDurable s (update io now client_id profile s)
unfolding update
update-IsDurable io now client_id profile s = elim (Option-cases (lookup client_id s.entries)) [
  | inl missing ↦ rw (missing, update) (refused-IsDurable s _)
  | inr (e, found) ↦
      rw (found, update)
        (elim (Bool-cases (profile.client_id /= client_id)) [
          | inl other ↦ rw other (refused-IsDurable s _)
          | inr same ↦ rw same (save-IsDurable io s _)
        ])
]

set_password_hash-IsDurable :
    (io : Io) (now : ℕ) (login_id hash : String) (s : AuthnFileStore)
    → IsDurable s (set_password_hash io now login_id hash s)
unfolding set_password_hash
set_password_hash-IsDurable io now login_id hash s =
    elim (Option-cases (lookup login_id s.entries)) [
      | inl missing ↦ rw (missing, set_password_hash) (refused-IsDurable s _)
      | inr (e, found) ↦ rw (found, set_password_hash) (save-IsDurable io s _)
    ]

set_password-IsDurable :
    (bcrypt : Bcrypt) (io : Io) (now salt : ℕ) (login_id password : String) (s : AuthnFileStore)
    → IsDurable s (set_password bcrypt io now salt login_id password s)
unfolding set_password
set_password-IsDurable bcrypt io now salt login_id password s =
    elim (Bool-cases (ltb (len password) 5)) [
      | inl short ↦ rw short (refused-IsDurable s _)
      | inr long ↦ rw long (elim (Option-cases (bcrypt.generate_from_password salt password)) [
        | inl failed ↦ rw failed (refused-IsDurable s _)
        | inr (hash, e) ↦ rw e (set_password_hash-IsDurable io now login_id hash s)
      ])
    ]

-- Every request but a reload writes.
abbrev pub Writes : Request → Type 0
Writes reloads = ⊥
Writes _ = Unit

pub perform-IsDurable :
    (bcrypt : Bcrypt) (io : Io) (now salt : ℕ) (r : Request) (s : AuthnFileStore)
    → Writes r
    → IsDurable s (perform bcrypt io now salt r s)
unfolding perform remove_client
perform-IsDurable bcrypt io now salt (adds i p) s w = add-IsDurable io now i p s
perform-IsDurable bcrypt io now salt (updates i p) s w = update-IsDurable io now i p s
perform-IsDurable bcrypt io now salt (removes i) s w = save-IsDurable io s _
perform-IsDurable bcrypt io now salt (sets_password i p) s w =
    set_password-IsDurable bcrypt io now salt i p s
perform-IsDurable bcrypt io now salt reloads s w = absurd w

-- A store that is created anew over a file and reads it.
abbrev pub restart : Io → Option Contents → Outcome
restart io file = reload io (new_authn_file_store file)

restart-json :
    (io : Io) (d : Dict AuthnEntry)
    → io.read_file ≡ none
    → (restart io (some (json d))).0.entries ≡ d
unfolding reload new_authn_file_store
restart-json io d readable = rw (readable, reload_from)

-- After an add, update, removal or change of password that returned no error, a new store that
-- reads the file without an error has exactly the entries that the old store had. After one that
-- returned an error the file is what it was before the call.
pub restart-perform :
    (bcrypt : Bcrypt) (io later : Io) (now salt : ℕ) (r : Request) (s : AuthnFileStore)
    → Writes r
    → later.read_file ≡ none
    → ((perform bcrypt io now salt r s).1 ≡ none
        → (restart later (perform bcrypt io now salt r s).0.file).0.entries
          ≡ (perform bcrypt io now salt r s).0.entries)
      × ((perform bcrypt io now salt r s).1 ≢ none
          → (perform bcrypt io now salt r s).0.file ≡ s.file)
restart-perform bcrypt io later now salt r s w readable =
    let d = perform-IsDurable bcrypt io now salt r s w in
    (λ ok. rw (d.saved ok) (restart-json later _ readable), d.failed)
