-- ===== src/Tests/Things.antt =====
-- A Thing with a switch and a sensor, and readers of its values.
use done_rest.Prelude.{◌≡◌, refl, some, none, [], ◌∷◌, true, lookup, List}
use done_rest.Things.Properties.{
  Use, sets, takes, clears, run, get_values-set_value, merge, get_values, get_value,
  new_property_values, get_values-run, set_value_bool,
}
use done_rest.Things.Documents.{
  id_or_type, DataSchema, read_only_property, get_property_of_type, new_td,
}
use done_rest.Things.Documents.Building.{
  Addition, adds_property, adds_event, build, last_property, get_property_of_type-build,
}

-- The second value is set twice and changed between the reads.
abbrev uses : List Use
uses =
    sets "on" "true"
    ∷ sets "dim" "3"
    ∷ takes true
    ∷ clears
    ∷ sets "dim" "4"
    ∷ sets "dim" "4"
    ∷ sets "on" "true"
    ∷ []

get_values-run_example :
    let (pv, copy) = run uses (new_property_values, []) in
    lookup "dim" (merge (get_values true pv).1 copy) ≡ get_value "dim" pv
get_values-run_example = get_values-run uses "dim" tt

get_values-set_value_example :
    let (after, read) = run (takes true ∷ sets "dim" "4" ∷ clears ∷ []) (new_property_values, []) in
    (get_value "dim" after ≡ some "4")
    × (lookup "dim" (merge (get_values true after).1 read) ≡ get_value "dim" new_property_values)
unfolding new_property_values get_value lookup
get_values-set_value_example =
    get_values-set_value true "dim" "4" new_property_values [] (λ k. refl) (λ e. cc e)

changed_values :
    (get_values true (
      set_value_bool "on" true
        (get_values true (set_value_bool "on" true new_property_values)).0)).1
    ≡ []
unfolding get_values set_value_bool new_property_values lookup
changed_values = refl

abbrev parts : List Addition
parts =
    adds_property "" "ht:prop:name" "Name" "string"
    ∷ adds_event "temp" "ht:prop:env" "Temperature" "" none
    ∷ adds_property "power" "ht:prop:switch:onoff" "Power" "boolean"
    ∷ []

get_property_of_type-build_example :
    let (key, found) =
      get_property_of_type "ht:prop:switch:onoff"
        (build parts (new_td "now" "now" "urn:lamp" "Lamp" "lamp")) in
    (q : DataSchema) × (found ≡ some q)
    × (last_property key parts none ≡ some q)
    × (q.at_type ≡ "ht:prop:switch:onoff")
unfolding last_property id_or_type
get_property_of_type-build_example =
    get_property_of_type-build parts "now" "now" "urn:lamp" "Lamp" "lamp" "power"
      (read_only_property "ht:prop:switch:onoff" "Power" "boolean") refl
