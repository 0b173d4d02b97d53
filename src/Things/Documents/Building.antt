-- ===== src/Things/Documents/Building.antt =====
-- What a document has after its affordances were added, in done_tool/things/TD.go.
use done_rest.Prelude.{
  Option-cases, String, ◌≡◌, ◌≢◌, refl, ap, sym, ◌∙◌, inl, inr, Option, none, some, List, [], ◌∷◌,
  Dict, lookup, lookup-insert, ◌==◌, if◌then◌else◌, eq_iff, eq_refl, Bool-cases, IsDistinct,
  insert-IsDistinct,
}
use done_rest.Things.Documents.{
  DataSchema, Td, new_td, add_action, add_event, add_property, read_only_property, id_or_type,
  get_property, get_property_of_type, find_of_type, update_action, update_event, update_property,
}

-- An affordance to add.
pub data Addition : Type 0 where
  adds_action : String → String → String → String → Option DataSchema → Addition
  adds_event : String → String → String → String → Option DataSchema → Addition
  adds_property : String → String → String → String → Addition

unfoldable pub build : List Addition → Td → Td
unfolding add_action add_event add_property
build [] td = td
build (adds_action name type title descr input ∷ rest) td =
    build rest (add_action name type title descr input td).0
build (adds_event id type title descr schema ∷ rest) td =
    build rest (add_event id type title descr schema td).0
build (adds_property id type title data_type ∷ rest) td =
    build rest (add_property id type title data_type td).0

-- The property that was added last under a key.
unfoldable pub last_property : String → List Addition → Option DataSchema → Option DataSchema
last_property key [] found = found
last_property key (adds_property id type title data_type ∷ rest) found =
    last_property key rest
      (if id_or_type id type == key then some (read_only_property type title data_type) else found)
last_property key (adds_action name type title descr input ∷ rest) found =
    last_property key rest found
last_property key (adds_event id type title descr schema ∷ rest) found =
    last_property key rest found

get_property-build :
    (additions : List Addition) (key : String) (td : Td)
    → get_property key (build additions td) ≡ last_property key additions (get_property key td)
unfolding build last_property get_property add_action add_event add_property update_action
    update_event update_property
get_property-build [] key td = refl
get_property-build (adds_action name type title descr input ∷ rest) key td =
    get_property-build rest key (add_action name type title descr input td).0
get_property-build (adds_event id type title descr schema ∷ rest) key td =
    get_property-build rest key (add_event id type title descr schema td).0
get_property-build (adds_property id type title data_type ∷ rest) key td =
    get_property-build rest key (add_property id type title data_type td).0
    ∙ ap (last_property key rest) (
        lookup-insert (id_or_type id type) key (read_only_property type title data_type)
          td.properties)

build-IsDistinct :
    (additions : List Addition) (td : Td)
    → IsDistinct td.properties
    → IsDistinct (build additions td).properties
unfolding build add_action add_event add_property update_action update_event update_property
build-IsDistinct [] td d = d
build-IsDistinct (adds_action name type title descr input ∷ rest) td d =
    build-IsDistinct rest (add_action name type title descr input td).0 d
build-IsDistinct (adds_event id type title descr schema ∷ rest) td d =
    build-IsDistinct rest (add_event id type title descr schema td).0 d
build-IsDistinct (adds_property id type title data_type ∷ rest) td d =
    build-IsDistinct rest (add_property id type title data_type td).0 (
      insert-IsDistinct (id_or_type id type) (read_only_property type title data_type) td.properties
        d)

find_of_type-some :
    (at_type : String) (props : Dict DataSchema) (k : String) (p : DataSchema)
    → IsDistinct props
    → find_of_type at_type props ≡ (k, some p)
    → (lookup k props ≡ some p) × (p.at_type ≡ at_type)
unfolding find_of_type lookup
find_of_type-some at_type [] k p d h = cc (ap (λ r. r.1) h)
find_of_type-some at_type ((j, q) ∷ props) k p d h = elim (Bool-cases (q.at_type == at_type)) [
  | inl found ↦
      let h' = rw found at h in
      let same : some q ≡ some p = ap (λ r. r.1) h' in
      let first : j ≡ k = ap (λ r. r.0) h' in
      let of_type = (eq_iff q.at_type at_type).0 found in (rw first (rw (eq_refl k) same), cc)
  | inr other ↦
      let (at_key, of_type) = find_of_type-some at_type props k p d.1 (rw other at h) in
      (
        elim (Bool-cases (j == k)) [
          | inl first ↦
              let at_k = (eq_iff j k).0 first in
              let at_j : lookup k props ≡ none = ap (λ i. lookup i props) (sym at_k) ∙ d.0 in cc
          | inr later ↦ rw later at_key
        ],
        of_type,
      )
]

find_of_type-none :
    (at_type : String) (props : Dict DataSchema) (k : String) (p : DataSchema)
    → (find_of_type at_type props).1 ≡ none
    → lookup k props ≡ some p
    → p.at_type ≢ at_type
unfolding find_of_type lookup
find_of_type-none at_type [] k p h found = cc found
find_of_type-none at_type ((j, q) ∷ props) k p h found = elim (Bool-cases (q.at_type == at_type)) [
  | inl same ↦ cc (rw same at h)
  | inr other ↦ elim (Bool-cases (j == k)) [
    | inl first ↦
        let here : some q ≡ some p = rw first at found in
        λ is.
          let q_is : q.at_type ≡ at_type =
            ap (λ o. elim o [ none ↦ at_type | some x ↦ x.at_type ]) here ∙ is in
          let back = (eq_iff q.at_type at_type).1 q_is in cc
    | inr later ↦ find_of_type-none at_type props k p (rw other at h) (rw later at found)
  ]
]

-- In a document that is built by adding affordances, of which a property has a type,
-- GetPropertyOfType finds a property of that type and the ID it has.
pub get_property_of_type-build :
    (additions : List Addition) (created modified thing_id title device_type : String) (k : String)
    (p : DataSchema)
    → last_property k additions none ≡ some p
    → let (key, found) =
        get_property_of_type p.at_type
          (build additions (new_td created modified thing_id title device_type)) in
      (q : DataSchema) × (found ≡ some q)
      × (last_property key additions none ≡ some q)
      × (q.at_type ≡ p.at_type)
unfolding get_property_of_type get_property new_td lookup
get_property_of_type-build additions created modified thing_id title device_type k p is =
    let start = new_td created modified thing_id title device_type in
    let props = (build additions start).properties in
    let (key, found) = find_of_type p.at_type props in
    let d = build-IsDistinct additions start tt in
    elim (Option-cases found) [
      | inl nothing ↦ absurd (
          find_of_type-none p.at_type props k p nothing (get_property-build additions k start ∙ is)
            refl)
      | inr (q, is_q) ↦
          let (at_key, of_type) =
            find_of_type-some p.at_type props key q d (ap (λ o. (key, o)) is_q) in
          (q, is_q, sym (get_property-build additions key start) ∙ at_key, of_type)
    ]
