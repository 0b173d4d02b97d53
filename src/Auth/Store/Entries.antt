-- ===== src/Auth/Store/Entries.antt =====
-- What each operation does to the entries.
use done_rest.Prelude.{
  ℕ, ◌<◌, String, ◌≡◌, ◌≢◌, ◌⊎◌, ◌↔◌, inl, inr, refl, Option, none, some, arith, lookup, insert,
  lookup-insert, eq_iff, ap, ◌∙◌, Option-cases, ◌==◌, if◌then◌else◌,
}
use done_rest.Auth.Api.{
  ClientProfile, AuthnEntry, client_type_device, client_type_service, client_type_user,
}
use done_rest.Auth.Store.{
  AuthnFileStore, Io, Outcome, add, added_entry, rejection, default_validity, update,
  updated_profile, save,
}
use done_rest.Auth.Store.Saving.{entries-save}

abbrev pub KnownType : String → Type 0
KnownType t = (t ≡ client_type_device) ⊎ ((t ≡ client_type_service) ⊎ (t ≡ client_type_user))

-- The arguments that `add` accepts.
pub record IsAddable (client_id : String) (profile : ClientProfile) : Type 0 where
  pub named : client_id ≢ ""
  pub matching : profile.client_id ≡ client_id
  pub typed : KnownType profile.client_type

pub rejection-accepts :
    (client_id : String) (profile : ClientProfile)
    → (rejection client_id profile ≡ none) ↔ IsAddable client_id profile
unfolding rejection
rejection-accepts client_id profile = (
  λ h. ground (
    arith,
    eq_iff client_id "",
    eq_iff client_id profile.client_id,
    eq_iff profile.client_type "device",
    eq_iff profile.client_type "user",
    eq_iff profile.client_type "service",
  ),
  λ h. ground (
    arith,
    eq_iff client_id "",
    eq_iff client_id profile.client_id,
    eq_iff profile.client_type "device",
    eq_iff profile.client_type "user",
    eq_iff profile.client_type "service",
  ),
)

pub default_validity-pos :
    (profile : ClientProfile)
    → KnownType profile.client_type
    → 0 < (default_validity profile).token_validity_days
unfolding default_validity
default_validity-pos profile h = ground (
  arith,
  eq_iff profile.client_type "device",
  eq_iff profile.client_type "user",
  eq_iff profile.client_type "service",
)

-- Of the profile only the number of days changes.
pub default_validity_keeps :
    (profile : ClientProfile)
    → ((default_validity profile).client_id ≡ profile.client_id)
      × ((default_validity profile).client_type ≡ profile.client_type)
      × ((default_validity profile).role ≡ profile.role)
      × ((default_validity profile).pub_key ≡ profile.pub_key)
unfolding default_validity
default_validity_keeps profile = ground arith

pub add_eq :
    (io : Io) (now : ℕ) (client_id : String) (profile : ClientProfile) (s : AuthnFileStore)
    → IsAddable client_id profile
    → add io now client_id profile s
      ≡ save io (record s {
        entries =
            insert client_id
              (added_entry now (default_validity profile) (lookup client_id s.entries))
              s.entries;
      })
unfolding add
add_eq io now client_id profile s h = ground (arith, (rejection-accepts client_id profile).1 h)

pub lookup-add :
    (io : Io) (now : ℕ) (client_id : String) (profile : ClientProfile) (s : AuthnFileStore)
    (j : String)
    → IsAddable client_id profile
    → lookup j (add io now client_id profile s).0.entries ≡ (
        if client_id == j
        then some (added_entry now (default_validity profile) (lookup client_id s.entries))
        else lookup j s.entries)
lookup-add io now client_id profile s j h =
    let e = added_entry now (default_validity profile) (lookup client_id s.entries) in
    ap (λ (o : Outcome). lookup j o.0.entries) (add_eq io now client_id profile s h)
    ∙ ap (lookup j) (entries-save io (record s { entries = insert client_id e s.entries }))
    ∙ lookup-insert client_id j e s.entries

added_hash :
    (now : ℕ) (p : ClientProfile) (o : Option AuthnEntry) (old : AuthnEntry)
    → o ≡ some old
    → (added_entry now p o).password_hash ≡ old.password_hash
unfolding added_entry
added_hash now p o old h = ground arith

added_profile :
    (now : ℕ) (p : ClientProfile) (o : Option AuthnEntry)
    → (added_entry now p o).client_profile ≡ record p { updated_mse = now }
unfolding added_entry
added_profile now p none = refl
added_profile now p (some e) = refl

-- What `Add` leaves, for a client ID that is not empty and that the profile repeats, with one of
-- the three client types, also when saving fails: an entry under that ID with the profile's role
-- and public key, the time of the call and a token validity that is not zero; the password hash of
-- an entry that was there before is kept; and no other client's entry changes.
pub add_entry :
    (io : Io) (now : ℕ) (client_id : String) (profile : ClientProfile) (s : AuthnFileStore)
    → IsAddable client_id profile
    → let after = (add io now client_id profile s).0.entries in
      (e : AuthnEntry) × (lookup client_id after ≡ some e)
      × (e.role ≡ profile.role)
      × (e.pub_key ≡ profile.pub_key)
      × (e.updated_mse ≡ now)
      × (0 < e.token_validity_days)
      × ((old : AuthnEntry)
          → lookup client_id s.entries ≡ some old
          → e.password_hash ≡ old.password_hash)
      × ((j : String) → client_id ≢ j → lookup j after ≡ lookup j s.entries)
add_entry io now client_id profile s h =
    let p = default_validity profile in
    let o = lookup client_id s.entries in
    let stamped = added_profile now p o in
    let kept = default_validity_keeps profile in
    (
      added_entry now p o,
      ground (arith, lookup-add io now client_id profile s client_id h, eq_iff client_id client_id),
      ap (λ (q : ClientProfile). q.role) stamped ∙ kept.2,
      ap (λ (q : ClientProfile). q.pub_key) stamped ∙ kept.3,
      ap (λ (q : ClientProfile). q.updated_mse) stamped,
      rw stamped (default_validity-pos profile h.typed),
      λ old found. added_hash now p o old found,
      λ j other. ground (arith, lookup-add io now client_id profile s j h, eq_iff client_id j),
    )

-- The role of a client, if it is present.
abbrev pub role_of : String → AuthnFileStore → Option String
role_of j s = elim (lookup j s.entries) [ none ↦ none | some e ↦ some e.role ]

lookup-save-insert :
    (io : Io) (client_id j : String) (e : AuthnEntry) (s : AuthnFileStore)
    → lookup j (save io (record s { entries = insert client_id e s.entries })).0.entries
      ≡ (if client_id == j then some e else lookup j s.entries)
lookup-save-insert io client_id j e s =
    ap (lookup j) (entries-save io (record s { entries = insert client_id e s.entries }))
    ∙ lookup-insert client_id j e s.entries

-- `Update` changes no client's role, whatever role the given profile has.
pub update-keeps_roles :
    (io : Io) (now : ℕ) (client_id : String) (profile : ClientProfile) (s : AuthnFileStore)
    (j : String)
    → role_of j (update io now client_id profile s).0 ≡ role_of j s
unfolding update updated_profile
update-keeps_roles io now client_id profile s j = elim (Option-cases (lookup client_id s.entries)) [
  | inl missing ↦ rw (missing, update)
  | inr (e, found) ↦
      let e' = record e { client_profile = updated_profile now profile e.client_profile } in
      ground (arith, found, eq_iff client_id j, lookup-save-insert io client_id j e' s)
]
