-- ===== src/Auth/Store/Passwords.antt =====
-- Passwords: what `SetPassword` stores, `VerifyPassword` accepts.
use Prim.Native.String.{len}
use done_rest.Prelude.{
  ℕ, ◌≤◌, ◌<◌, String, ◌≡◌, ◌≢◌, none, some, arith, lookup, insert, lookup-insert, eq_iff, ◌==◌,
  if◌then◌else◌,
}
use done_rest.Errors.{Error}
use done_rest.Auth.Api.{AuthnEntry, Bcrypt}
use done_rest.Auth.Store.{AuthnFileStore, Io, set_password, set_password_hash, verify_password}
use done_rest.Auth.Store.Saving.{entries-save}

-- The entry with a new hash.
abbrev pub rehashed : ℕ → String → AuthnEntry → AuthnEntry
rehashed now hash e = record {
  client_profile = record (e.client_profile) { updated_mse = now };
  password_hash = hash;
}

module _ (bcrypt : Bcrypt) (io : Io) (now salt : ℕ) (login_id password hash : String) where
  pub lookup-set_password :
      (s : AuthnFileStore) (e : AuthnEntry)
      → 5 ≤ len password
      → lookup login_id s.entries ≡ some e
      → bcrypt.generate_from_password salt password ≡ some hash
      → (j : String)
      → lookup j (set_password bcrypt io now salt login_id password s).0.entries
        ≡ (if login_id == j then some (rehashed now hash e) else lookup j s.entries)
  unfolding set_password set_password_hash
  lookup-set_password s e long found hashed j = ground (
    arith,
    entries-save io (record s { entries = insert login_id (rehashed now hash e) s.entries }),
    lookup-insert login_id j (rehashed now hash e) s.entries,
  )

-- After a password of at least five bytes is set for a client that is present, and bcrypt made a
-- hash of it, that login with that password gives the client's profile, and every other login
-- gives what it gave before.
pub verify-set_password :
    (bcrypt : Bcrypt) (io : Io) (now salt : ℕ) (login_id password hash : String)
    (s : AuthnFileStore) (e : AuthnEntry)
    → 5 ≤ len password
    → lookup login_id s.entries ≡ some e
    → bcrypt.generate_from_password salt password ≡ some hash
    → let after = (set_password bcrypt io now salt login_id password s).0 in
      (verify_password bcrypt login_id password after
        ≡ (record (e.client_profile) { updated_mse = now }, none))
      × ((j q : String)
          → login_id ≢ j
          → verify_password bcrypt j q after ≡ verify_password bcrypt j q s)
unfolding verify_password
verify-set_password bcrypt io now salt login_id password hash s e long found hashed =
    let at = lookup-set_password bcrypt io now salt login_id password hash s e long found hashed in
    (
      ground (
        arith,
        at login_id,
        eq_iff login_id login_id,
        bcrypt.compare-generate salt password hash hashed,
      ),
      λ j q other. ground (arith, at j, eq_iff login_id j),
    )

-- A password of less than five bytes is refused and changes nothing, whoever it is for.
pub set_password_short :
    (bcrypt : Bcrypt) (io : Io) (now salt : ℕ) (login_id password : String) (s : AuthnFileStore)
    → len password < 5
    → set_password bcrypt io now salt login_id password s ≡ (s, some Error.password_too_short)
unfolding set_password
set_password_short bcrypt io now salt login_id password s short = ground arith
