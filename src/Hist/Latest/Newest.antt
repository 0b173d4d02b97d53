-- ===== src/Hist/Latest/Newest.antt =====
-- The values that HandleAddValue of LatestPropertiesStore.go keeps are the newest, in whichever order
-- they come.
use done_rest.Prelude.{
  ℕ, ◌≤◌, ◌<◌, String, false, ◌≡◌, ◌≢◌, ◌⊎◌, inl, inr, refl, sym, ap, ◌∙◌, subst, Option, none,
  some, List, [], ◌∷◌, lookup, lookup-insert, lookup-insert_self, ltb, eqb, ◌==◌, if◌then◌else◌,
  arith, eq_iff, eq_refl, ne→false, Bool-cases, Option-cases, All,
}
use done_rest.Buckets.Stores.{BucketStore}
use done_rest.Transport.{event_name_props}
use done_rest.Hist.{ThingValue}
use done_rest.Hist.Encoding.{thing_addr}
use done_rest.Hist.Latest.{
  ThingValueMap, Json, LatestPropertiesStore, set_if_newer, props_of, with_time, updated_props,
  load_props, keep_props, handle_add_value, get_properties, pick_or_all,
}

-- The newer of a value and what was there; the earlier one stays for the same time.
abbrev newer : ThingValue → Option ThingValue → ThingValue
newer tv none = tv
newer tv (some latest) = if ltb latest.created_msec tv.created_msec then tv else latest

lookup-set_if_newer :
    (name other : String) (tv : ThingValue) (props : ThingValueMap)
    → lookup other (set_if_newer name tv props)
      ≡ (if name == other then some (newer tv (lookup other props)) else lookup other props)
unfolding set_if_newer
lookup-set_if_newer name other tv props = elim (Option-cases (lookup name props)) [
  | inl missing ↦
      rw (missing, set_if_newer)
        (elim (Bool-cases (name == other)) [
          | inl same ↦
              rw
                (lookup-insert name other tv props, same, sym ((eq_iff name other).0 same), missing)
                refl
          | inr apart ↦ rw (lookup-insert name other tv props, apart) refl
        ])
  | inr (latest, found) ↦
      rw (found, set_if_newer)
        (elim (Bool-cases (name == other)) [
          | inl same ↦
              let there : lookup other props ≡ some latest =
                ap (λ n. lookup n props) (sym ((eq_iff name other).0 same)) ∙ found in
              rw (same, there)
                (elim (Bool-cases (ltb latest.created_msec tv.created_msec)) [
                  | inl is_newer ↦ rw is_newer (rw (lookup-insert name other tv props, same) refl)
                  | inr older ↦ rw older there
                ])
          | inr apart ↦ rw apart (elim (Bool-cases (ltb latest.created_msec tv.created_msec)) [
            | inl is_newer ↦ rw is_newer (rw (lookup-insert name other tv props, apart) refl)
            | inr older ↦ rw older refl
          ])
        ])
]

newer-le : (tv : ThingValue) (o : Option ThingValue) → tv.created_msec ≤ (newer tv o).created_msec
newer-le tv none = omega arith
newer-le tv (some latest) = ground arith

newer-newer :
    (a b : ThingValue) (o : Option ThingValue)
    → a.created_msec ≢ b.created_msec
    → newer b (some (newer a o)) ≡ newer a (some (newer b o))
newer-newer a b none h = ground arith
newer-newer a b (some c) h = ground arith

-- The order of two values does not matter, unless they are of one name and one time.
set_if_newer-set_if_newer :
    (a b : ThingValue) (n m other : String) (props : ThingValueMap)
    → (n ≢ m) ⊎ (a.created_msec ≢ b.created_msec)
    → lookup other (set_if_newer m b (set_if_newer n a props))
      ≡ lookup other (set_if_newer n a (set_if_newer m b props))
set_if_newer-set_if_newer a b n m other props apart =
    lookup-set_if_newer m other b (set_if_newer n a props)
    ∙ rw (lookup-set_if_newer n other a props, lookup-set_if_newer m other b props)
        (either n m other apart)
    ∙ sym (lookup-set_if_newer n other a (set_if_newer m b props))
  where
    o : Option ThingValue
    o = lookup other props

    either :
        (n m other : String)
        → (n ≢ m) ⊎ (a.created_msec ≢ b.created_msec)
        → (if m == other
            then some (newer b (if n == other then some (newer a o) else o))
            else (if n == other then some (newer a o) else o))
          ≡ (if n == other
              then some (newer a (if m == other then some (newer b o) else o))
              else (if m == other then some (newer b o) else o))
    either n m other apart = elim (Bool-cases (n == other)) [
      | inr k ↦ rw k refl
      | inl k ↦ elim (Bool-cases (m == other)) [
        | inr l ↦ rw (k, l) refl
        | inl l ↦
            rw (k, l)
              (elim apart [
                | inl differ ↦ absurd (differ ((eq_iff n other).0 k ∙ sym ((eq_iff m other).0 l)))
                | inr other_time ↦ ap some (newer-newer a b o other_time)
              ])
      ]
    ]

-- A value of the Thing that is no properties event and has a time.
abbrev pub IsPlain : String → ThingValue → Type 0
IsPlain addr tv = (thing_addr tv ≡ addr) × (tv.name ≢ event_name_props) × (0 < tv.created_msec)

-- A value of the name that is as new.
abbrev pub IsKept : ThingValueMap → String → ℕ → Type 0
IsKept props name created =
    (latest : ThingValue) × (lookup name props ≡ some latest) × (created ≤ latest.created_msec)

module _ (json : Json) (bs : BucketStore) (bucket_id : String) where
  -- The properties of the Thing once they are loaded.
  abbrev loaded : String → LatestPropertiesStore bs.Store → ThingValueMap
  loaded addr srv = props_of addr (load_props json bs bucket_id addr srv).0

  load_props-cached :
      (addr : String) (props : ThingValueMap) (srv : LatestPropertiesStore bs.Store)
      → lookup addr srv.cache ≡ some props
      → loaded addr srv ≡ props
  unfolding load_props props_of
  load_props-cached addr props srv found = rw (found, load_props) (rw (found, props_of) refl)

  updated_props-plain :
      (now : ℕ) (tv : ThingValue) (props : ThingValueMap)
      → tv.name ≢ event_name_props
      → 0 < tv.created_msec
      → updated_props json (with_time now tv) props ≡ some (set_if_newer tv.name tv props)
  unfolding updated_props with_time
  updated_props-plain now tv props plain has_time =
      let early : eqb tv.created_msec 0 ≡ false = ground (arith, has_time) in
      rw (early, ne→false tv.name event_name_props plain) refl

  loaded_here :
      (now : ℕ) (tv : ThingValue) (srv : LatestPropertiesStore bs.Store)
      → tv.name ≢ event_name_props
      → 0 < tv.created_msec
      → loaded (thing_addr tv) (handle_add_value json bs bucket_id now tv srv)
        ≡ set_if_newer tv.name tv (loaded (thing_addr tv) srv)
  unfolding handle_add_value keep_props
  loaded_here now tv srv plain has_time =
      let addr = thing_addr tv in
      let mid = (load_props json bs bucket_id addr srv).0 in
      let props = set_if_newer tv.name tv (props_of addr mid) in
      load_props-cached addr props (handle_add_value json bs bucket_id now tv srv) (
        ap
          (λ (p : Option ThingValueMap).
            lookup addr (keep_props json bs bucket_id addr mid p).cache)
          (updated_props-plain now tv (props_of addr mid) plain has_time)
        ∙ lookup-insert_self addr props mid.cache)

  loaded-handle_add_value :
      (addr : String) (now : ℕ) (tv : ThingValue) (srv : LatestPropertiesStore bs.Store)
      → IsPlain addr tv
      → loaded addr (handle_add_value json bs bucket_id now tv srv)
        ≡ set_if_newer tv.name tv (loaded addr srv)
  loaded-handle_add_value addr now tv srv (at, plain, has_time) =
      subst
        (λ i.
          loaded i (handle_add_value json bs bucket_id now tv srv)
          ≡ set_if_newer tv.name tv (loaded i srv))
        at (loaded_here now tv srv plain has_time)

  -- The values in the order in which they are added.
  unfoldable pub add_values :
      ℕ → List ThingValue → LatestPropertiesStore bs.Store → LatestPropertiesStore bs.Store
  unfolding handle_add_value
  add_values now [] srv = srv
  add_values now (tv ∷ tvs) srv = add_values now tvs (handle_add_value json bs bucket_id now tv srv)

  IsKept-set_if_newer :
      (props : ThingValueMap) (name : String) (created : ℕ) (tv : ThingValue)
      → IsKept props name created
      → IsKept (set_if_newer tv.name tv props) name created
  IsKept-set_if_newer props name created tv (latest, found, as_new) =
      elim (Bool-cases (tv.name == name)) [
        | inl same ↦ (
          newer tv (some latest),
          lookup-set_if_newer tv.name name tv props ∙ rw (same, found) refl,
          ground (arith, as_new),
        )
        | inr apart ↦ (latest, lookup-set_if_newer tv.name name tv props ∙ rw apart found, as_new)
      ]

  IsKept-self :
      (props : ThingValueMap) (tv : ThingValue)
      → IsKept (set_if_newer tv.name tv props) tv.name tv.created_msec
  IsKept-self props tv = (
    newer tv (lookup tv.name props),
    lookup-set_if_newer tv.name tv.name tv props ∙ rw (eq_refl tv.name) refl,
    newer-le tv (lookup tv.name props),
  )

  IsKept-add_values :
      (addr name : String) (created now : ℕ) (tvs : List ThingValue)
      (srv : LatestPropertiesStore bs.Store)
      → All (IsPlain addr) tvs
      → IsKept (loaded addr srv) name created
      → IsKept (loaded addr (add_values now tvs srv)) name created
  unfolding add_values
  IsKept-add_values addr name created now [] srv plain kept = kept
  IsKept-add_values addr name created now (tv ∷ tvs) srv plain kept =
      IsKept-add_values addr name created now tvs (handle_add_value json bs bucket_id now tv srv)
        plain.1
        (subst (λ p. IsKept p name created) (sym (loaded-handle_add_value addr now tv srv plain.0))
          (IsKept-set_if_newer (loaded addr srv) name created tv kept))

  -- After any values of a Thing were added, with a time and no properties events, the latest value
  -- of each of their names is at least as new as each of them.
  add_values-IsKept :
      (addr : String) (now : ℕ) (tvs : List ThingValue) (srv : LatestPropertiesStore bs.Store)
      → All (IsPlain addr) tvs
      → All
          (λ (tv : ThingValue).
            IsKept
              (get_properties json bs bucket_id addr [] (add_values now tvs srv)).1
              tv.name
              tv.created_msec)
          tvs
  unfolding add_values get_properties pick_or_all
  add_values-IsKept addr now [] srv plain = tt
  add_values-IsKept addr now (tv ∷ tvs) srv plain = (
    IsKept-add_values addr tv.name tv.created_msec now tvs
        (handle_add_value json bs bucket_id now tv srv) plain.1
        (subst (λ p. IsKept p tv.name tv.created_msec)
          (sym (loaded-handle_add_value addr now tv srv plain.0))
          (IsKept-self (loaded addr srv) tv)),
    add_values-IsKept addr now tvs _ plain.1,
  )

  latest-order :
      (addr name : String) (now : ℕ) (a b : ThingValue) (srv : LatestPropertiesStore bs.Store)
      → IsPlain addr a
      → IsPlain addr b
      → (a.name ≢ b.name) ⊎ (a.created_msec ≢ b.created_msec)
      → let add = handle_add_value json bs bucket_id now in
        lookup name (get_properties json bs bucket_id addr [] (add b (add a srv))).1
        ≡ lookup name (get_properties json bs bucket_id addr [] (add a (add b srv))).1
  unfolding get_properties pick_or_all
  latest-order addr name now a b srv plain_a plain_b apart =
      let add = handle_add_value json bs bucket_id now in
      rw
        (
          loaded-handle_add_value addr now b (add a srv) plain_b,
          loaded-handle_add_value addr now a srv plain_a,
          loaded-handle_add_value addr now a (add b srv) plain_a,
          loaded-handle_add_value addr now b srv plain_b,
        )
        (set_if_newer-set_if_newer a b a.name b.name name (loaded addr srv) apart)

  -- Two values of a Thing, with a time and no properties events, unless they have one name and one
  -- time: in whichever order they are added, each property of the Thing has the same latest value,
  -- and the latest values of their names are at least as new as the two.
  pub handle_add_value-order :
      (addr name : String) (now : ℕ) (a b : ThingValue) (srv : LatestPropertiesStore bs.Store)
      → IsPlain addr a
      → IsPlain addr b
      → (a.name ≢ b.name) ⊎ (a.created_msec ≢ b.created_msec)
      → let add = handle_add_value json bs bucket_id now in
        let props = (get_properties json bs bucket_id addr [] (add b (add a srv))).1 in
        (lookup name props
          ≡ lookup name (get_properties json bs bucket_id addr [] (add a (add b srv))).1)
        × IsKept props a.name a.created_msec
        × IsKept props b.name b.created_msec
  unfolding add_values
  handle_add_value-order addr name now a b srv plain_a plain_b apart =
      let kept = add_values-IsKept addr now (a ∷ b ∷ []) srv (plain_a, (plain_b, tt)) in
      (latest-order addr name now a b srv plain_a plain_b apart, kept.0, kept.1.0)
