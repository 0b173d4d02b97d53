-- ===== src/Hist/Bulk.antt =====
-- AddMessages of done_mod/mod_hist/hist_srv/AddHistory.go: adding several values at once.
use done_rest.Prelude.{
  ℕ, ◌≡◌, ◌≢◌, ◌↔◌, refl, inl, inr, sym, ◌∙◌, String, Bool, true, false, Option, none, some, List,
  [], ◌∷◌, ◌++◌, arith, Dict, insert, eq_iff, if◌then◌else◌, Option-cases, All,
}
use done_rest.Errors.{Error}
use done_rest.Hist.{ThingValue}
use done_rest.Hist.Encoding.{Decimal, encode_value, thing_addr}
use done_rest.Hist.Adding.{AddHistory, validate_value, bucket_of, add_message}

-- The state, the pairs by the address of their Thing, and the error.
abbrev pub Collected : Type 0
Collected = AddHistory × Dict (Dict String) × Option Error

-- One value, after its validation. The callback is called with each value that is kept.
unfoldable pub collect_validated :
    Decimal → ℕ → AddHistory → Dict (Dict String) → ThingValue × Bool × Option Error → Collected
collect_validated dec now h groups (tv, retained, some e) = (h, groups, some e)
collect_validated dec now h groups (tv, false, none) = (h, groups, none)
collect_validated dec now h groups (tv, true, none) =
    let (key, val) = encode_value dec now tv in
    let addr = thing_addr tv in
    (
      record h { added = h.added ++ tv ∷ [] },
      insert addr (insert key val (bucket_of addr groups)) groups,
      none,
    )

-- The loop that groups the pairs by address; an address has a group from its first value on.
unfoldable pub collect : Decimal → ℕ → List ThingValue → AddHistory → Dict (Dict String) → Collected
unfolding collect_validated
collect dec now [] h groups = (h, groups, none)
collect dec now (tv ∷ rest) h groups =
    let addr = thing_addr tv in
    let opened = insert addr (bucket_of addr groups) groups in
    let one = collect_validated dec now h opened (validate_value now h.retention_mgr tv) in
    let later = collect dec now rest one.0 one.1 in elim one.2 [ some e ↦ one | none ↦ later ]

unfoldable pub set_multiple : Dict String → Dict String → Dict String
set_multiple [] bucket = bucket
set_multiple ((key, val) ∷ rest) bucket = set_multiple rest (insert key val bucket)

-- The loop over the addresses. The errors of SetMultiple, at the addresses where `fails` holds, and
-- of Close are dropped.
unfoldable pub set_groups :
    (String → Bool) → Dict (Dict String) → Dict (Dict String) → Dict (Dict String)
set_groups fails [] store = store
set_groups fails ((addr, pairs) ∷ rest) store =
    set_groups fails rest
      (if fails addr then store else insert addr (set_multiple pairs (bucket_of addr store)) store)

unfoldable pub set_collected : (String → Bool) → Collected → AddHistory × Option Error
set_collected fails (h, groups, some e) = (h, some e)
set_collected fails (h, groups, none) = (record h { store = set_groups fails groups h.store }, none)

unfoldable pub add_messages :
    Decimal
    → ℕ
    → (String → Bool)
    → Option Error
    → List ThingValue
    → AddHistory
    → AddHistory × Option Error
unfolding set_collected
add_messages dec now fails failure [] h = (h, none)
add_messages dec now fails failure (tv ∷ []) h = add_message dec now failure tv h
add_messages dec now fails failure (tv ∷ next ∷ rest) h =
    set_collected fails (collect dec now (tv ∷ next ∷ rest) h [])

-- The values that the validation accepts.
pub record IsAddressed (tv : ThingValue) : Type 0 where
  pub thing : tv.thing_id ≢ ""
  pub agent : tv.agent_id ≢ ""
  pub named : tv.name ≢ ""

validate_value-IsAddressed :
    (now : ℕ) (h : AddHistory) (tv : ThingValue)
    → ((validate_value now h.retention_mgr tv).2 ≡ none) ↔ IsAddressed tv
unfolding validate_value
validate_value-IsAddressed now h tv = (
  λ ok. ground (arith, eq_iff tv.thing_id "", eq_iff tv.agent_id "", eq_iff tv.name ""),
  λ a. ground (arith, eq_iff tv.thing_id "", eq_iff tv.agent_id "", eq_iff tv.name ""),
)

-- One value leaves the buckets and the rules alone, and its error is that of the validation.
collect_validated_lem :
    (dec : Decimal) (now : ℕ) (h : AddHistory) (groups : Dict (Dict String))
    (v : ThingValue × Bool × Option Error)
    → ((collect_validated dec now h groups v).2 ≡ v.2)
      × ((collect_validated dec now h groups v).0.store ≡ h.store)
unfolding collect_validated
collect_validated_lem dec now h groups (tv, retained, some e) = (refl, refl)
collect_validated_lem dec now h groups (tv, false, none) = (refl, refl)
collect_validated_lem dec now h groups (tv, true, none) = (refl, refl)

collect_lem :
    (dec : Decimal) (now : ℕ) (tvs : List ThingValue) (h : AddHistory) (groups : Dict (Dict String))
    → (((collect dec now tvs h groups).2 ≡ none) ↔ All IsAddressed tvs)
      × ((collect dec now tvs h groups).0.store ≡ h.store)
unfolding collect
collect_lem dec now [] h groups = ((λ ok. tt, λ a. refl), refl)
collect_lem dec now (tv ∷ rest) h groups =
    let addr = thing_addr tv in
    let opened = insert addr (bucket_of addr groups) groups in
    let checked = validate_value now h.retention_mgr tv in
    let one = collect_validated dec now h opened checked in
    let facts = collect_validated_lem dec now h opened checked in
    let later = collect_lem dec now rest one.0 one.1 in
    let accepted = validate_value-IsAddressed now h tv in
    elim (Option-cases one.2) [
      | inl ok ↦
          rw (ok, collect)
            (
              (λ done. (accepted.0 (sym facts.0 ∙ ok), later.0.0 done), λ all. later.0.1 all.1),
              later.1 ∙ facts.1,
            )
      | inr (e, bad) ↦
          rw (bad, collect)
            ((λ done. cc (bad, done), λ all. cc (facts.0, accepted.1 all.0)), facts.1)
    ]

-- Two or more values at once are refused altogether when one of them has no Thing ID, no agent ID
-- or no name: there is an error exactly in that case, and with it every bucket is as it was.
add_messages_lem :
    (dec : Decimal) (now : ℕ) (fails : String → Bool) (failure : Option Error)
    (tv next : ThingValue) (rest : List ThingValue) (h : AddHistory)
    → let result = add_messages dec now fails failure (tv ∷ next ∷ rest) h in
      ((result.1 ≡ none) ↔ All IsAddressed (tv ∷ next ∷ rest))
      × (result.1 ≢ none → result.0.store ≡ h.store)
unfolding add_messages
add_messages_lem dec now fails failure tv next rest h =
    decide (collect dec now (tv ∷ next ∷ rest) h []) (collect_lem dec now (tv ∷ next ∷ rest) h [])
  where
    decide :
        (c : Collected)
        → ((c.2 ≡ none) ↔ All IsAddressed (tv ∷ next ∷ rest)) × (c.0.store ≡ h.store)
        → (((set_collected fails c).1 ≡ none) ↔ All IsAddressed (tv ∷ next ∷ rest))
          × ((set_collected fails c).1 ≢ none → (set_collected fails c).0.store ≡ h.store)
    decide (h', groups, some e) facts = (facts.0, λ bad. facts.1)
    decide (h', groups, none) facts = (facts.0, λ bad. absurd (bad refl))
