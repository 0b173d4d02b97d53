-- ===== src/Tests/Latest.antt =====
-- Latest properties of a Thing on a bbolt database in memory, and a JSON of one map.
use done_rest.Prelude.{
  ℕ, String, Bool, true, false, ◌&&◌, ◌≡◌, ◌≢◌, inl, inr, refl, Bool-cases, if◌then◌else◌, ◌∙◌, sym,
  Option, none, some, [], ◌∷◌, lookup, insert, arith, eq_iff, eqb, ◌==◌, ap,
}
use done_rest.Buckets.Bolts.Bucket.{set as bucket_set, get as bucket_get}
use done_rest.Transport.{event_name_props}
use done_rest.Buckets.Bolts.Store.{BoltStore}
use done_rest.Buckets.Bolts.Store.Interface.{bolt_store}
use done_rest.Hist.{ThingValue}
use done_rest.Hist.Encoding.{thing_addr}
use done_rest.Hist.Latest.{
  ThingValueMap, Json, LatestPropertiesStore, handle_add_value, get_properties,
  new_properties_store, save_changes,
}
use done_rest.Hist.Latest.Newest.{IsKept, handle_add_value-order}
use done_rest.Hist.Latest.Saving.{save_changes-forgets, get_properties-save_changes}
use done_rest.Tests.Hist.{reading}
use done_rest.Tests.Databases.{Buckets, in_memory}

abbrev is_reading : String → ThingValue → Bool
is_reading name tv =
    name == "temperature"
    && (tv.agent_id == "agent"
        && (tv.thing_id == "thing"
            && (tv.name == "temperature"
                && (tv.payload == "21"
                    && (eqb tv.created_msec 3
                        && (tv.sender_id == "agent" && tv.value_type == "event"))))))

and_true : (a b : Bool) → (a && b) ≡ true → (a ≡ true) × (b ≡ true)
and_true true b h = (refl, h)
and_true false b h = cc h

eqb-true : (n m : ℕ) → eqb n m ≡ true → n ≡ m
eqb-true n m h = ground (arith, h)

abbrev one : String → ThingValue → ThingValueMap
one name tv = (name, tv) ∷ []

abbrev read_map : ThingValueMap
read_map = ("temperature", reading) ∷ []

the_reading : (name : String) (tv : ThingValue) → is_reading name tv ≡ true → one name tv ≡ read_map
the_reading name tv h =
    let (k, h1) = and_true _ _ h in
    let (a, h2) = and_true _ _ h1 in
    let (t, h3) = and_true _ _ h2 in
    let (n, h4) = and_true _ _ h3 in
    let (p, h5) = and_true _ _ h4 in
    let (c, h6) = and_true _ _ h5 in
    let (s, v) = and_true _ _ h6 in
    λ i.
      ((
        (eq_iff name "temperature").0 k i,
        record {
          agent_id = (eq_iff tv.agent_id "agent").0 a i;
          thing_id = (eq_iff tv.thing_id "thing").0 t i;
          name = (eq_iff tv.name "temperature").0 n i;
          payload = (eq_iff tv.payload "21").0 p i;
          created_msec = eqb-true tv.created_msec 3 c i;
          sender_id = (eq_iff tv.sender_id "agent").0 s i;
          value_type = (eq_iff tv.value_type "event").0 v i;
        },
      )
        ∷ [])

abbrev to_text : ThingValueMap → Option String
to_text [] = none
to_text ((name, tv) ∷ []) = if is_reading name tv then some "{reading}" else none
to_text ((name, tv) ∷ (other ∷ later)) = none

abbrev of_text : String → Option ThingValueMap
of_text text = if text == "{reading}" then some read_map else none

of_text-to_text :
    (m : ThingValueMap) (text : String) → to_text m ≡ some text → of_text text ≡ some m
of_text-to_text [] text h = cc h
of_text-to_text ((name, tv) ∷ []) text h = elim (Bool-cases (is_reading name tv)) [
  | inl hit ↦
      let said : to_text (one name tv) ≡ some "{reading}" = rw hit refl in
      let same : some "{reading}" ≡ some text = sym said ∙ h in
      let text_is : text ≡ "{reading}" = cc same in
      rw text_is (ap (λ (m : ThingValueMap). some m) (sym (the_reading name tv hit)))
  | inr miss ↦ let said : to_text (one name tv) ≡ none = rw miss refl in cc (sym said ∙ h)
]
of_text-to_text ((name, tv) ∷ (other ∷ later)) text h = cc h

abbrev json : Json
json = record {
  marshal = to_text;
  unmarshal = of_text;
  unmarshal_props = λ text. none;
  unmarshal-marshal = of_text-to_text;
}

abbrev older : ThingValue
older = record reading { payload = "20"; created_msec = 2 }

abbrev latest_store : LatestPropertiesStore (BoltStore Buckets)
latest_store = record {
  store = record { bolt_db = []; store_path = "history"; bucket_ref_count = 1 };
  cache = ("agent/thing", read_map) ∷ [];
  changed_things = ("agent/thing", true) ∷ [];
}

unlike : "temperature" ≢ event_name_props
unlike h = let differ : false ≡ true = ap (λ (s : String). s == event_name_props) h in cc differ

abbrev add_reading :
    LatestPropertiesStore (BoltStore Buckets) → LatestPropertiesStore (BoltStore Buckets)
unfolding handle_add_value
add_reading = handle_add_value json (bolt_store in_memory) "latest" 9 reading

abbrev add_older :
    LatestPropertiesStore (BoltStore Buckets) → LatestPropertiesStore (BoltStore Buckets)
unfolding handle_add_value
add_older = handle_add_value json (bolt_store in_memory) "latest" 9 older

abbrev all_props : LatestPropertiesStore (BoltStore Buckets) → ThingValueMap
unfolding get_properties
all_props srv = (get_properties json (bolt_store in_memory) "latest" (thing_addr reading) [] srv).1

handle_add_value-order_example :
    (lookup "temperature" (all_props (add_reading (add_older latest_store)))
      ≡ lookup "temperature" (all_props (add_older (add_reading latest_store))))
    × IsKept (all_props (add_reading (add_older latest_store))) "temperature" older.created_msec
    × IsKept (all_props (add_reading (add_older latest_store))) "temperature" reading.created_msec
unfolding thing_addr all_props add_reading add_older
handle_add_value-order_example =
    handle_add_value-order json (bolt_store in_memory) "latest" (thing_addr reading) "temperature" 9
      older reading latest_store (refl, unlike, omega arith) (refl, unlike, omega arith)
      (inr (omega arith))

save_changes-forgets_example :
    let after = (save_changes json (bolt_store in_memory) "latest" latest_store).0 in
    save_changes json (bolt_store in_memory) "latest" after ≡ (after, none)
unfolding lookup
save_changes-forgets_example =
    save_changes-forgets json (bolt_store in_memory) "latest" latest_store (refl, tt)

get_properties-save_changes_example :
    (get_properties json (bolt_store in_memory) "latest" "agent/thing" [] (
      new_properties_store
        (save_changes json (bolt_store in_memory) "latest" latest_store).0.store)).1
    ≡ read_map
unfolding lookup save_changes bucket_set bucket_get insert
get_properties-save_changes_example =
    get_properties-save_changes json (bolt_store in_memory) "latest" "agent/thing" "{reading}"
      read_map refl latest_store (refl, tt) refl refl refl refl
