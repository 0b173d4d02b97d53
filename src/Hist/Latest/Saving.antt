-- ===== src/Hist/Latest/Saving.antt =====
-- SaveChanges of LatestPropertiesStore.go: what is in the store afterwards, and what is forgotten.
use done_rest.Prelude.{
  String, Bool, true, false, ◌||◌, ◌≡◌, ◌⊎◌, inl, inr, refl, sym, ap, ◌∙◌, subst, Option, none,
  some, List, [], ◌∷◌, Dict, lookup, insert, lookup-insert, lookup-insert_self, ◌==◌, if◌then◌else◌,
  arith, eq_iff, eq_refl, Bool-cases, Option-cases, IsDistinct, insert-IsDistinct, Holds,
  Holds-head, Holds-tail,
}
use done_rest.Errors.{Error}
use done_rest.Buckets.Stores.{BucketStore, Holdings, placed, outcome}
use done_rest.Hist.Latest.{
  ThingValueMap, Json, LatestPropertiesStore, new_properties_store, props_of, decode_props,
  load_props, get_properties, pick_or_all, changed_addresses, written, save_one, last_error,
  save_all, save_changes,
}

among : String → List String → Bool
among k [] = false
among k (a ∷ later) = (a == k) || among k later

-- Every Thing that is marked as changed is among the addresses.
abbrev IsListed : List String → Dict Bool → Type 0
IsListed addrs m = Holds (λ k b. (b ≡ false) ⊎ (among k addrs ≡ true)) m

clear : List String → Dict Bool → Dict Bool
clear [] m = m
clear (a ∷ later) m = clear later (insert a false m)

IsListed-clear :
    (addrs : List String) (m : Dict Bool)
    → IsDistinct m
    → IsListed addrs m
    → changed_addresses (clear addrs m) ≡ []
unfolding clear among changed_addresses
IsListed-clear [] [] d h = refl
IsListed-clear [] ((k, b) ∷ m) d h = ground (
  arith,
  Holds-head (λ k b. (b ≡ false) ⊎ (among k [] ≡ true)) k b m h,
  IsListed-clear [] m d.1 (Holds-tail (λ k b. (b ≡ false) ⊎ (among k [] ≡ true)) k b m d.0 h),
)
IsListed-clear (a ∷ later) m d h =
    IsListed-clear later (insert a false m) (insert-IsDistinct a false m d)
      (λ k b e. ground (arith, eq_iff a k, lookup-insert a k false m, h k b))

changed_addresses-IsListed : (m : Dict Bool) → IsDistinct m → IsListed (changed_addresses m) m
unfolding changed_addresses among lookup
changed_addresses-IsListed [] d k b e = cc e
changed_addresses-IsListed ((j, c) ∷ m) d k b e =
    ground (arith, eq_iff j k, changed_addresses-IsListed m d.1 k b)

placed_key :
    (id key other val : String) (held : Holdings)
    → placed id key (some val) held id other ≡ (if key == other then some val else held id other)
unfolding placed
placed_key id key other val held = rw (eq_refl id) refl

outcome_either :
    (err : Option Error) (changed before : Holdings) (id key val : String)
    → changed id key ≡ some val
    → before id key ≡ some val
    → outcome err changed before id key ≡ some val
outcome_either none changed before id key val h g = h
outcome_either (some e) changed before id key val h g = g

module _ (json : Json) (bs : BucketStore) (bucket_id : String) where
  changed_things-save_one :
      (addr : String) (srv : LatestPropertiesStore bs.Store)
      → (save_one json bs bucket_id addr srv).0.changed_things
        ≡ insert addr false srv.changed_things
  unfolding save_one
  changed_things-save_one addr srv = elim (Option-cases (lookup addr srv.cache)) [
    | inl missing ↦ rw (missing, save_one) refl
    | inr (props, found) ↦ rw (found, save_one) refl
  ]

  changed_things-save_all :
      (addrs : List String) (err : Option Error) (srv : LatestPropertiesStore bs.Store)
      → (save_all json bs bucket_id addrs err srv).0.changed_things ≡ clear addrs srv.changed_things
  unfolding save_all clear
  changed_things-save_all [] err srv = refl
  changed_things-save_all (a ∷ later) err srv =
      let after = save_one json bs bucket_id a srv in
      changed_things-save_all later (last_error err after.1) after.0
      ∙ ap (clear later) (changed_things-save_one a srv)

  -- SaveChanges marks every Thing as unchanged, whatever the store answers: after a SaveChanges that
  -- failed, the next one writes nothing and returns no error, if no address stands twice among the
  -- marks.
  pub save_changes-forgets :
      (srv : LatestPropertiesStore bs.Store)
      → IsDistinct srv.changed_things
      → let after = (save_changes json bs bucket_id srv).0 in
        save_changes json bs bucket_id after ≡ (after, none)
  unfolding save_changes save_all
  save_changes-forgets srv d =
      let after = (save_changes json bs bucket_id srv).0 in
      let cleared : changed_addresses after.changed_things ≡ [] =
        ap changed_addresses
          (changed_things-save_all (changed_addresses srv.changed_things) none srv)
        ∙ IsListed-clear (changed_addresses srv.changed_things) srv.changed_things d
            (changed_addresses-IsListed srv.changed_things d) in
      ap (λ addrs. save_all json bs bucket_id addrs none after) cleared

  cache-save_one :
      (addr : String) (srv : LatestPropertiesStore bs.Store)
      → (save_one json bs bucket_id addr srv).0.cache ≡ srv.cache
  unfolding save_one
  cache-save_one addr srv = elim (Option-cases (lookup addr srv.cache)) [
    | inl missing ↦ rw (missing, save_one) refl
    | inr (props, found) ↦ rw (found, save_one) refl
  ]

  module _ (addr text : String) (props : ThingValueMap)
      (marshalled : json.marshal props ≡ some text) where
    -- The Thing has the properties in memory.
    abbrev Caches : LatestPropertiesStore bs.Store → Type 0
    Caches srv = lookup addr srv.cache ≡ some props

    abbrev Stores : LatestPropertiesStore bs.Store → Type 0
    Stores srv = bs.stored srv.store bucket_id addr ≡ some text

    stored-written :
        (a : String) (o : Option String) (store : bs.Store)
        → (a ≡ addr → o ≡ some text)
        → bs.stored store bucket_id addr ≡ some text
        → bs.stored (written json bs bucket_id a o store).0 bucket_id addr ≡ some text
    unfolding written
    stored-written a none store same held = held
    stored-written a (some t) store same held =
        ap (λ (h : Holdings). h bucket_id addr) (bs.stored-set bucket_id a t store)
        ∙ outcome_either (bs.set bucket_id a t store).1 _ (bs.stored store) bucket_id addr text
            (placed_key bucket_id a addr t (bs.stored store) ∙ elim (Bool-cases (a == addr)) [
              | inl hit ↦ rw hit (same ((eq_iff a addr).0 hit))
              | inr miss ↦ rw miss held
            ])
            held

    Stores-save_one :
        (a : String) (srv : LatestPropertiesStore bs.Store)
        → Caches srv
        → Stores srv
        → Stores (save_one json bs bucket_id a srv).0
    unfolding save_one
    Stores-save_one a srv cached held = elim (Option-cases (lookup a srv.cache)) [
      | inl missing ↦ rw (missing, save_one) held
      | inr (others, found) ↦
          rw (found, save_one)
            (stored-written a (json.marshal others) srv.store
              (λ same.
                let both : some others ≡ some props =
                  sym found ∙ ap (λ k. lookup k srv.cache) same ∙ cached in
                let equal : others ≡ props = cc both in ap json.marshal equal ∙ marshalled)
              held)
    ]

    Stores-save_own :
        (srv : LatestPropertiesStore bs.Store)
        → Caches srv
        → (save_one json bs bucket_id addr srv).1 ≡ none
        → Stores (save_one json bs bucket_id addr srv).0
    unfolding save_one written
    Stores-save_own srv cached fine =
        let set = bs.set bucket_id addr text srv.store in
        let unchanged = insert addr false srv.changed_things in
        let saved : save_one json bs bucket_id addr srv
            ≡ (record srv { store = set.0; changed_things = unchanged }, set.1) =
          rw (cached, save_one, marshalled, written) refl in
        let good : set.1 ≡ none =
          sym (ap (λ (r : LatestPropertiesStore bs.Store × Option Error). r.1) saved) ∙ fine in
        ap
          (λ (r : LatestPropertiesStore bs.Store × Option Error).
            bs.stored r.0.store bucket_id addr)
          saved
        ∙ ap (λ (h : Holdings). h bucket_id addr) (bs.stored-set bucket_id addr text srv.store)
        ∙ ap
            (λ e.
              outcome e (placed bucket_id addr (some text) (bs.stored srv.store))
                (bs.stored srv.store) bucket_id addr)
            good
        ∙ placed_key bucket_id addr addr text (bs.stored srv.store)
        ∙ rw (eq_refl addr) refl

    last_error-none :
        (earlier later : Option Error)
        → last_error earlier later ≡ none
        → (earlier ≡ none) × (later ≡ none)
    unfolding last_error
    last_error-none earlier none h = (h, refl)
    last_error-none earlier (some e) h = cc h

    no_error :
        (addrs : List String) (err : Option Error) (srv : LatestPropertiesStore bs.Store)
        → (save_all json bs bucket_id addrs err srv).1 ≡ none
        → err ≡ none
    unfolding save_all
    no_error [] err srv h = h
    no_error (a ∷ later) err srv h =
        (last_error-none err (save_one json bs bucket_id a srv).1 (
          no_error later (last_error err (save_one json bs bucket_id a srv).1)
            (save_one json bs bucket_id a srv).0 h)).0

    Stores-save_all :
        (addrs : List String) (err : Option Error) (srv : LatestPropertiesStore bs.Store)
        → Caches srv
        → Stores srv ⊎ (among addr addrs ≡ true)
        → (save_all json bs bucket_id addrs err srv).1 ≡ none
        → Stores (save_all json bs bucket_id addrs err srv).0
    unfolding save_all among
    Stores-save_all [] err srv cached (inl held) fine = held
    Stores-save_all [] err srv cached (inr h) fine = cc h
    Stores-save_all (a ∷ later) err srv cached due fine =
        let after = save_one json bs bucket_id a srv in
        let still : Caches after.0 = ap (λ c. lookup addr c) (cache-save_one a srv) ∙ cached in
        let one_fine =
          (last_error-none err after.1 (no_error later (last_error err after.1) after.0 fine)).1 in
        Stores-save_all later (last_error err after.1) after.0 still
          (elim due [
            | inl held ↦ inl (Stores-save_one a srv cached held)
            | inr listed ↦ elim (Bool-cases (a == addr)) [
              | inl hit ↦
                  let same = (eq_iff a addr).0 hit in
                  inl (
                    subst (λ x. Stores (save_one json bs bucket_id x srv).0) (sym same)
                      (Stores-save_own srv cached
                        (subst (λ x. (save_one json bs bucket_id x srv).1 ≡ none) same one_fine)))
              | inr miss ↦ inr (ground (arith, listed, miss))
            ]
          ])
          fine

    -- A Thing that is marked as changed, whose properties can be marshalled: after a SaveChanges
    -- without an error, a new store on the same bucket that reads the Thing without an error has
    -- the properties that were in memory, if no address stands twice among the marks.
    pub get_properties-save_changes :
        (srv : LatestPropertiesStore bs.Store)
        → IsDistinct srv.changed_things
        → lookup addr srv.changed_things ≡ some true
        → lookup addr srv.cache ≡ some props
        → (save_changes json bs bucket_id srv).1 ≡ none
        → (bs.get bucket_id addr (save_changes json bs bucket_id srv).0.store).2 ≡ none
        → (get_properties json bs bucket_id addr []
            (new_properties_store (save_changes json bs bucket_id srv).0.store)).1
          ≡ props
    unfolding save_changes get_properties new_properties_store load_props props_of pick_or_all
        decode_props lookup
    get_properties-save_changes srv d marked cached fine readable =
        let after = (save_changes json bs bucket_id srv).0 in
        let due : among addr (changed_addresses srv.changed_things) ≡ true =
          ground (arith, changed_addresses-IsListed srv.changed_things d addr true marked) in
        let held =
          Stores-save_all (changed_addresses srv.changed_things) none srv cached (inr due) fine in
        let found = bs.get-stored bucket_id addr after.store readable ∙ held in
        rw
          (
            found,
            lookup-insert_self addr (decode_props json (some text)) [],
            props_of,
            json.unmarshal-marshal props text marshalled,
            decode_props,
          )
          refl
