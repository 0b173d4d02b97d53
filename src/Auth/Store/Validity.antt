-- ===== src/Auth/Store/Validity.antt =====
-- The entries that a store may hold, and that its calls keep them so.
use Prim.Native.String.{len}
use done_rest.Prelude.{
  ℕ, ◌<◌, String, ◌≡◌, ◌≢◌, ◌⊎◌, inl, inr, Option, none, some, List, [], ◌∷◌, arith, Dict, lookup,
  insert, IsDistinct, Holds, insert-IsDistinct, remove-IsDistinct, insert-Holds, remove-Holds,
  eq_iff, Option-cases, Bool-cases, ◌/=◌, ◌∙◌, sym, subst, ltb, All, lookup-insert_self,
}
use done_rest.Auth.Api.{ClientProfile, AuthnEntry, Bcrypt}
use done_rest.Auth.Store.{
  AuthnFileStore, Io, Contents, json, Outcome, add, added_entry, default_validity, update,
  updated_profile, remove_client, set_password, set_password_hash, reload, save, load_contents,
  reload_from, rejection,
}
use done_rest.Auth.Store.Calls.{
  Request, Call, adds, updates, removes, sets_password, reloads, perform, step, run,
}
use done_rest.Auth.Store.Entries.{
  KnownType, IsAddable, rejection-accepts, default_validity-pos, default_validity_keeps, add_eq,
}
use done_rest.Auth.Store.Saving.{entries-save, save_cases}

-- An entry stands under its own client ID, which is not empty, with a type of the three and a
-- number of days that is not zero.
pub record IsValidEntry (client_id : String) (e : AuthnEntry) : Type 0 where
  pub named : client_id ≢ ""
  pub keyed : e.client_id ≡ client_id
  pub typed : KnownType e.client_type
  pub lasting : 0 < e.token_validity_days

pub record IsValidDict (d : Dict AuthnEntry) : Type 0 where
  pub distinct : IsDistinct d
  pub valid : Holds IsValidEntry d

abbrev pub IsValidFile : Option Contents → Type 0
IsValidFile (some (json d)) = IsValidDict d
IsValidFile _ = Unit

pub record IsValid (s : AuthnFileStore) : Type 0 where
  pub entries : IsValidDict s.entries
  pub file : IsValidFile s.file

pub save-IsValid : (io : Io) (s : AuthnFileStore) → IsValid s → IsValid (save io s).0
save-IsValid io s v = record {
  entries = rw (entries-save io s) v.entries;
  file = elim (save_cases io s) [ inl (_, e) ↦ rw e v.entries | inr (_, e) ↦ rw e v.file ];
}

module _ (io : Io) (client_id : String) (s : AuthnFileStore) (v : IsValid s) where
  pub save-insert-IsValid :
      (e : AuthnEntry)
      → IsValidEntry client_id e
      → IsValid (save io (record s { entries = insert client_id e s.entries })).0
  save-insert-IsValid e h = save-IsValid io _ (record {
    entries = record {
      distinct = insert-IsDistinct client_id e s.entries v.entries.distinct;
      valid = insert-Holds IsValidEntry client_id e s.entries h v.entries.valid;
    };
    file = v.file;
  })

  pub remove_client-IsValid : IsValid (remove_client io client_id s).0
  unfolding remove_client
  remove_client-IsValid = save-IsValid io _ (record {
    entries = record {
      distinct = remove-IsDistinct client_id s.entries v.entries.distinct;
      valid = remove-Holds IsValidEntry client_id s.entries v.entries.valid;
    };
    file = v.file;
  })

added_entry-IsValidEntry :
    (client_id : String) (now : ℕ) (profile : ClientProfile) (o : Option AuthnEntry)
    → IsAddable client_id profile
    → IsValidEntry client_id (added_entry now (default_validity profile) o)
unfolding added_entry
added_entry-IsValidEntry client_id now profile none h = record {
  named = h.named;
  keyed = (default_validity_keeps profile).0 ∙ h.matching;
  typed = rw (default_validity_keeps profile).1 h.typed;
  lasting = default_validity-pos profile h.typed;
}
added_entry-IsValidEntry client_id now profile (some e) h = record {
  named = h.named;
  keyed = (default_validity_keeps profile).0 ∙ h.matching;
  typed = rw (default_validity_keeps profile).1 h.typed;
  lasting = default_validity-pos profile h.typed;
}

pub add-IsValid :
    (io : Io) (now : ℕ) (client_id : String) (profile : ClientProfile) (s : AuthnFileStore)
    → IsValid s
    → IsValid (add io now client_id profile s).0
unfolding add
add-IsValid io now client_id profile s v = elim (Option-cases (rejection client_id profile)) [
  | inl accepted ↦
      let h = (rejection-accepts client_id profile).0 accepted in
      subst (λ (o : Outcome). IsValid o.0) (sym (add_eq io now client_id profile s h))
        (save-insert-IsValid io client_id s v _
          (added_entry-IsValidEntry client_id now profile _ h))
  | inr (e, refused) ↦ rw (refused, add) v
]

updated_profile-IsValidEntry :
    (client_id : String) (now : ℕ) (profile : ClientProfile) (e : AuthnEntry)
    → (profile.client_type ≡ "") ⊎ KnownType profile.client_type
    → IsValidEntry client_id e
    → IsValidEntry client_id
        (record e { client_profile = updated_profile now profile e.client_profile })
unfolding updated_profile
updated_profile-IsValidEntry client_id now profile e h v = record {
  named = v.named;
  keyed = v.keyed;
  typed = ground (arith, eq_iff profile.client_type "");
  lasting = ground arith;
}

update-IsValid :
    (io : Io) (now : ℕ) (client_id : String) (profile : ClientProfile) (s : AuthnFileStore)
    → (profile.client_type ≡ "") ⊎ KnownType profile.client_type
    → IsValid s
    → IsValid (update io now client_id profile s).0
unfolding update
update-IsValid io now client_id profile s h v = elim (Option-cases (lookup client_id s.entries)) [
  | inl missing ↦ rw (missing, update) v
  | inr (e, found) ↦
      rw (found, update)
        (elim (Bool-cases (profile.client_id /= client_id)) [
          | inl other ↦ rw other v
          | inr same ↦ rw same (
              save-insert-IsValid io client_id s v _ (
                updated_profile-IsValidEntry client_id now profile e h
                  (v.entries.valid client_id e found)))
        ])
]

set_password_hash-IsValid :
    (io : Io) (now : ℕ) (login_id hash : String) (s : AuthnFileStore)
    → IsValid s
    → IsValid (set_password_hash io now login_id hash s).0
unfolding set_password_hash
set_password_hash-IsValid io now login_id hash s v =
    elim (Option-cases (lookup login_id s.entries)) [
      | inl missing ↦ rw (missing, set_password_hash) v
      | inr (e, found) ↦
          let old = v.entries.valid login_id e found in
          rw (found, set_password_hash)
            (save-insert-IsValid io login_id s v _ (record {
              named = old.named;
              keyed = old.keyed;
              typed = old.typed;
              lasting = old.lasting;
            }))
    ]

pub set_password-IsValid :
    (bcrypt : Bcrypt) (io : Io) (now salt : ℕ) (login_id password : String) (s : AuthnFileStore)
    → IsValid s
    → IsValid (set_password bcrypt io now salt login_id password s).0
unfolding set_password
set_password-IsValid bcrypt io now salt login_id password s v =
    elim (Bool-cases (ltb (len password) 5)) [
      | inl short ↦ rw short v
      | inr long ↦ rw long (elim (Option-cases (bcrypt.generate_from_password salt password)) [
        | inl failed ↦ rw failed v
        | inr (hash, e) ↦ rw e (set_password_hash-IsValid io now login_id hash s v)
      ])
    ]

load_contents-IsValid :
    (s : AuthnFileStore) (c : Contents)
    → IsValidFile (some c)
    → IsValid s
    → IsValid (load_contents s c).0
unfolding load_contents
load_contents-IsValid s (json d) f v = record { entries = f; file = v.file }
load_contents-IsValid s _ f v = v

reload_from-IsValid :
    (io : Io) (s : AuthnFileStore) (o : Option Contents)
    → IsValidFile o
    → IsValid s
    → IsValid (reload_from io s o).0
unfolding reload_from
reload_from-IsValid io s none f v = save-IsValid io s v
reload_from-IsValid io s (some c) f v = elim (Option-cases io.read_file) [
  | inl readable ↦ rw (readable, reload_from) (load_contents-IsValid s c f v)
  | inr (e, unreadable) ↦ rw (unreadable, reload_from) v
]

pub reload-IsValid : (io : Io) (s : AuthnFileStore) → IsValid s → IsValid (reload io s).0
unfolding reload
reload-IsValid io s v = reload_from-IsValid io s s.file v.file v

-- An update gives one of the three client types, or leaves the type alone.
abbrev pub KeepsTypes : Request → Type 0
KeepsTypes (updates client_id profile) = (profile.client_type ≡ "") ⊎ KnownType profile.client_type
KeepsTypes _ = Unit

perform-IsValid :
    (bcrypt : Bcrypt) (io : Io) (now salt : ℕ) (r : Request) (s : AuthnFileStore)
    → KeepsTypes r
    → IsValid s
    → IsValid (perform bcrypt io now salt r s).0
unfolding perform
perform-IsValid bcrypt io now salt (adds i p) s h v = add-IsValid io now i p s v
perform-IsValid bcrypt io now salt (updates i p) s h v = update-IsValid io now i p s h v
perform-IsValid bcrypt io now salt (removes i) s h v = remove_client-IsValid io i s v
perform-IsValid bcrypt io now salt (sets_password i w) s h v =
    set_password-IsValid bcrypt io now salt i w s v
perform-IsValid bcrypt io now salt reloads s h v = reload-IsValid io s v

-- From a valid store, any sequence of calls, whatever the file system, the clock and the salts
-- answer and whether or not the calls fail, ends in a valid store: keys are distinct, each entry
-- stands under its own non-empty client ID with one of the three client types and a token validity
-- that is not zero, and so does every entry of the file. The condition is that no update brings in
-- a client type that is not one of the three.
pub run-IsValid :
    (bcrypt : Bcrypt) (cs : List Call) (s : AuthnFileStore)
    → All (λ (c : Call). KeepsTypes c.request) cs
    → IsValid s
    → IsValid (run bcrypt cs s)
unfolding run step
run-IsValid bcrypt [] s h v = v
run-IsValid bcrypt (c ∷ cs) s h v =
    run-IsValid bcrypt cs _ h.1 (perform-IsValid bcrypt c.io c.now c.salt c.request s h.0 v)

-- `Update` does not check the type as `Add` does: a call with any type, also one that is not of
-- the three, for a client that is present, stores that type.
update-unchecked_type :
    (io : Io) (now : ℕ) (client_id : String) (profile : ClientProfile) (s : AuthnFileStore)
    (e : AuthnEntry)
    → lookup client_id s.entries ≡ some e
    → profile.client_id ≡ client_id
    → profile.client_type ≢ ""
    → (e' : AuthnEntry) × (lookup client_id (update io now client_id profile s).0.entries ≡ some e')
      × (e'.client_type ≡ profile.client_type)
unfolding update updated_profile
update-unchecked_type io now client_id profile s e found same typed = (
  record e { client_profile = updated_profile now profile e.client_profile },
  ground (
    arith,
    eq_iff profile.client_id client_id,
    entries-save io (record s {
      entries =
          insert client_id
            (record e { client_profile = updated_profile now profile e.client_profile }) s.entries;
    }),
    lookup-insert_self client_id
        (record e { client_profile = updated_profile now profile e.client_profile }) s.entries,
  ),
  ground (arith, eq_iff profile.client_type ""),
)
