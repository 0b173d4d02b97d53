-- ===== src/Hist/Adding.antt =====
-- done_mod/mod_hist/hist_srv/AddHistory.go: adding a value to the bucket of its Thing.
use done_rest.Prelude.{
  ℕ, ◌≡◌, ◌≢◌, refl, String, Bool, true, false, ◌||◌, Option, none, some, List, [], ◌∷◌, ◌++◌,
  arith, Dict, lookup, insert, lookup-insert, lookup-insert_self, eq_iff, eqb, ne→false, ◌==◌,
  if◌then◌else◌,
}
use done_rest.Errors.{Error}
use done_rest.Hist.{ThingValue}
use done_rest.Hist.Retention.{RetentionRuleSet, is_retained}
use done_rest.Hist.Encoding.{
  Decimal, encode_value, thing_addr, decode_value, value, IsEncodable, decode_value-encode_value,
}

-- The buckets by their ID, each with its values by their key; the retention manager, if there is
-- one; and the values that the callback onAddedValue was called with.
pub record AddHistory : Type 0 where
  pub store : Dict (Dict String)
  pub retention_mgr : Option RetentionRuleSet
  pub added : List ThingValue

-- Without a retention manager every value is kept.
unfoldable pub is_kept : Option RetentionRuleSet → ThingValue → Bool
is_kept none tv = true
is_kept (some rules) tv = (is_retained rules tv).0

-- The value with its time, whether it is retained, and the error.
unfoldable pub validate_value :
    ℕ → Option RetentionRuleSet → ThingValue → ThingValue × Bool × Option Error
validate_value now mgr tv =
    let timed : ThingValue =
      if eqb tv.created_msec 0 then record tv { created_msec = now } else tv in
    if tv.thing_id == "" || tv.agent_id == ""
    then (tv, false, some Error.missing_address)
    else if tv.name == ""
    then (tv, false, some Error.missing_name)
    else (timed, is_kept mgr timed, none)

unfoldable pub bucket_of : String → Dict (Dict String) → Dict String
bucket_of bucket_id store = elim (lookup bucket_id store) [ none ↦ [] | some bucket ↦ bucket ]

-- `bucket.Set` with the error that the store answers; the callback is called in any case.
unfoldable pub set_value :
    Decimal → ℕ → Option Error → ThingValue → AddHistory → AddHistory × Option Error
unfolding bucket_of
set_value dec now failure tv h =
    let (key, val) = encode_value dec now tv in
    let addr = thing_addr tv in
    let stored : Dict (Dict String) = elim failure [
      | some e ↦ h.store
      | none ↦ insert addr (insert key val (bucket_of addr h.store)) h.store
    ] in
    (record h { store = stored; added = h.added ++ tv ∷ [] }, failure)

add_validated :
    Decimal
    → ℕ
    → Option Error
    → AddHistory
    → ThingValue × Bool × Option Error
    → AddHistory × Option Error
unfolding set_value
add_validated dec now failure h (tv, retained, some e) = (h, some e)
add_validated dec now failure h (tv, false, none) = (h, none)
add_validated dec now failure h (tv, true, none) = set_value dec now failure tv h

unfoldable pub add_message :
    Decimal → ℕ → Option Error → ThingValue → AddHistory → AddHistory × Option Error
unfolding add_validated
add_message dec now failure tv h =
    add_validated dec now failure h (validate_value now h.retention_mgr tv)

validate_value-IsEncodable :
    (now : ℕ) (mgr : Option RetentionRuleSet) (tv : ThingValue)
    → IsEncodable tv
    → tv.thing_id ≢ ""
    → tv.agent_id ≢ ""
    → tv.name ≢ ""
    → validate_value now mgr tv ≡ (tv, is_kept mgr tv, none)
unfolding validate_value
validate_value-IsEncodable now mgr tv fits thing agent name =
    let timed : eqb tv.created_msec 0 ≡ false = ground (arith, fits.timed) in
    rw
      (
        ne→false tv.thing_id "" thing,
        ne→false tv.agent_id "" agent,
        ne→false tv.name "" name,
        timed,
      )
      refl

-- A value with an ID of its agent and Thing and with a name, all of them and the sender's ID
-- without a slash, with a time and one of the three types. If there is no retention manager, or its
-- rules retain the value, and the store takes it, the bucket of the Thing has its payload under its
-- key, which decodes to the value, no other bucket changes, and the callback is called with it. If
-- the rules do not retain it, nothing changes and there is no error.
add_message_lem :
    (dec : Decimal) (now : ℕ) (tv : ThingValue) (h : AddHistory)
    → IsEncodable tv
    → tv.thing_id ≢ ""
    → tv.agent_id ≢ ""
    → tv.name ≢ ""
    → let after = (add_message dec now none tv h).0 in
      let (key, val) = encode_value dec now tv in
      (is_kept h.retention_mgr tv ≡ true
        → (lookup key (bucket_of (thing_addr tv) after.store) ≡ some val)
          × (decode_value dec (thing_addr tv) key val ≡ value tv)
          × ((other : String)
              → thing_addr tv ≢ other
              → lookup other after.store ≡ lookup other h.store)
          × (after.added ≡ h.added ++ tv ∷ []))
      × (is_kept h.retention_mgr tv ≡ false → add_message dec now none tv h ≡ (h, none))
unfolding add_message
add_message_lem dec now tv h fits thing agent name =
    let validated = validate_value-IsEncodable now h.retention_mgr tv fits thing agent name in
    let addr = thing_addr tv in
    let (key, val) = encode_value dec now tv in
    let bucket = insert key val (bucket_of addr h.store) in
    (
      λ kept.
          let stored : add_message dec now none tv h ≡ set_value dec now none tv h =
            rw (validated, kept) refl in
          (
            rw stored (
                unfold bucket_of in
                ground (
                  arith,
                  lookup-insert_self addr bucket h.store,
                  lookup-insert_self key val (bucket_of addr h.store),
                )),
            decode_value-encode_value dec now tv fits,
            λ other apart.
                rw stored
                  (ground (arith, lookup-insert addr other bucket h.store, eq_iff addr other)),
            rw stored refl,
          ),
      λ dropped. rw (validated, dropped) refl,
    )
