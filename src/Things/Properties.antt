-- ===== src/Things/Properties.antt =====
-- done_tool/things/PropertyValues.go: the latest values of properties and those that changed.
use done_rest.Prelude.{
  ap, eq_iff, ◌≢◌, lookup-insert_self, String, Bool, true, false, ◌≡◌, refl, sym, ◌∙◌, inl, inr,
  arith, Option, none, some, List, [], ◌∷◌, Dict, lookup, insert, lookup-insert, ◌==◌,
  if◌then◌else◌, Bool-cases,
}

pub record PropertyValues : Type 0 where
  pub latest : Dict String
  pub changed : Dict String

unfoldable pub new_property_values : PropertyValues
new_property_values = record { latest = []; changed = [] }

unfoldable pub get_value : String → PropertyValues → Option String
unfolding lookup
get_value key pv = lookup key pv.latest

-- The copy that it returns has the same values.
unfoldable pub get_latest : PropertyValues → Dict String
get_latest pv = pv.latest

unfoldable pub has_changes : PropertyValues → Bool
has_changes pv = elim pv.changed [ [] ↦ false | ◌∷◌ entry later ↦ true ]

unfoldable pub get_changed : Bool → PropertyValues → PropertyValues × Dict String
get_changed clear pv = (if clear then record pv { changed = [] } else pv, pv.changed)

-- The part of GetValues that holds the mutex, of GetChanged or GetLatest.
unfoldable pub take_values : Bool → PropertyValues → PropertyValues × Dict String
unfolding get_changed get_latest
take_values only_changes pv = if only_changes then get_changed true pv else (pv, get_latest pv)

-- The rest of GetValues, which holds no mutex, so that other calls may come before it.
unfoldable pub clear_changes : PropertyValues → PropertyValues
clear_changes pv = record pv { changed = [] }

unfoldable pub get_values : Bool → PropertyValues → PropertyValues × Dict String
unfolding take_values clear_changes
get_values only_changes pv =
    let (after, v) = take_values only_changes pv in (clear_changes after, v)

unfoldable pub is_value : String → Option String → Bool
is_value new_value none = false
is_value new_value (some old_value) = old_value == new_value

-- A value that is there already changes nothing.
unfoldable pub set_value : String → String → PropertyValues → PropertyValues
unfolding is_value insert
set_value key new_value pv = if is_value new_value (lookup key pv.latest) then pv else record {
  latest = insert key new_value pv.latest;
  changed = insert key new_value pv.changed;
}

unfoldable pub set_value_bool : String → Bool → PropertyValues → PropertyValues
unfolding set_value
set_value_bool key new_value = set_value key (if new_value then "true" else "false")

-- FormatInt of strconv to base 10 is a parameter.
unfoldable pub set_value_int {ℓ} :
    {Int : Type ℓ} → (Int → String) → String → Int → PropertyValues → PropertyValues
unfolding set_value
set_value_int format_int key new_value = set_value key (format_int new_value)

-- What is done with the values, by the parts that nothing comes between: a change, and the two parts
-- of a reader's GetValues.
pub data Use : Type 0 where
  sets : String → String → Use
  takes : Bool → Use
  clears : Use

-- The copy of a reader, which writes the changes that it reads over it.
unfoldable pub merge : Dict String → Dict String → Dict String
merge [] copy = copy
merge ((k, v) ∷ changes) copy = insert k v (merge changes copy)

unfoldable pub run : List Use → PropertyValues × Dict String → PropertyValues × Dict String
unfolding set_value take_values clear_changes merge
run [] s = s
run (sets key value ∷ uses) (pv, copy) = run uses (set_value key value pv, copy)
run (takes only_changes ∷ uses) (pv, copy) =
    let (after, v) = take_values only_changes pv in
    run uses (after, if only_changes then merge v copy else v)
run (clears ∷ uses) (pv, copy) = run uses (clear_changes pv, copy)

-- Nothing comes between the two parts of a GetValues.
abbrev pub IsUndisturbed : List Use → Type 0
IsUndisturbed [] = Unit
IsUndisturbed (sets key value ∷ uses) = IsUndisturbed uses
IsUndisturbed (takes only_changes ∷ clears ∷ uses) = IsUndisturbed uses
IsUndisturbed (takes only_changes ∷ _) = ⊥
IsUndisturbed (clears ∷ uses) = ⊥

abbrev over : Option String → Option String → Option String
over none old = old
over (some v) old = some v

lookup-merge :
    (changes copy : Dict String) (k : String)
    → lookup k (merge changes copy) ≡ over (lookup k changes) (lookup k copy)
unfolding merge lookup
lookup-merge [] copy k = refl
lookup-merge ((j, v) ∷ changes) copy k =
    ground (arith, lookup-insert j k v (merge changes copy), lookup-merge changes copy k)

-- What the reader does not have of the latest values are the changes.
abbrev pub IsTracked : PropertyValues × Dict String → Type 0
IsTracked (pv, copy) =
    (k : String) → lookup k pv.latest ≡ over (lookup k pv.changed) (lookup k copy)

set_value-IsTracked :
    (key value : String) (pv : PropertyValues) (copy : Dict String)
    → IsTracked (pv, copy)
    → IsTracked (set_value key value pv, copy)
unfolding set_value
set_value-IsTracked key value pv copy h k =
    elim (Bool-cases (is_value value (lookup key pv.latest))) [
      | inl same ↦ rw same (h k)
      | inr other ↦ rw other (
          ground
            (arith, lookup-insert key k value pv.latest, lookup-insert key k value pv.changed, h k))
    ]

get_values-IsTracked :
    (only_changes : Bool) (pv : PropertyValues) (copy : Dict String)
    → IsTracked (pv, copy)
    → IsTracked (
      (get_values only_changes pv).0,
      if only_changes
          then merge (get_values only_changes pv).1 copy
          else (get_values only_changes pv).1,
    )
unfolding get_values take_values get_changed get_latest clear_changes lookup
get_values-IsTracked true pv copy h k = h k ∙ sym (lookup-merge pv.changed copy k)
get_values-IsTracked false pv copy h k = refl

pub run-IsTracked :
    (uses : List Use) (s : PropertyValues × Dict String)
    → IsUndisturbed uses
    → IsTracked s
    → IsTracked (run uses s)
unfolding run get_values
run-IsTracked [] s quiet h = h
run-IsTracked (sets key value ∷ uses) (pv, copy) quiet h =
    run-IsTracked uses _ quiet (set_value-IsTracked key value pv copy h)
run-IsTracked (takes only_changes ∷ clears ∷ uses) (pv, copy) quiet h =
    run-IsTracked uses _ quiet (get_values-IsTracked only_changes pv copy h)
run-IsTracked (takes only_changes ∷ []) (pv, copy) quiet h = absurd quiet
run-IsTracked (takes only_changes ∷ sets key value ∷ uses) (pv, copy) quiet h = absurd quiet
run-IsTracked (takes only_changes ∷ takes again ∷ uses) (pv, copy) quiet h = absurd quiet
run-IsTracked (clears ∷ uses) (pv, copy) quiet h = absurd quiet

-- A reader that keeps a copy and, after any changes and reads, reads the changes once more has all of
-- the latest values and no others, if no change comes between the two parts of a read.
pub get_values-run :
    (uses : List Use) (k : String)
    → IsUndisturbed uses
    → let (pv, copy) = run uses (new_property_values, []) in
      lookup k (merge (get_values true pv).1 copy) ≡ get_value k pv
unfolding get_values take_values get_changed get_value new_property_values lookup
get_values-run uses k quiet =
    let (pv, copy) = run uses (new_property_values, []) in
    lookup-merge pv.changed copy k
    ∙ sym (run-IsTracked uses (new_property_values, []) quiet (λ j. refl) k)

is_value-differs :
    (value : String) (old : Option String) → old ≢ some value → is_value value old ≡ false
unfolding is_value
is_value-differs value none h = refl
is_value-differs value (some v) h = elim (Bool-cases (v == value)) [
  | inl same ↦ absurd (h (ap some ((eq_iff v value).0 same)))
  | inr other ↦ other
]

set_value-differs :
    (key value : String) (pv : PropertyValues)
    → lookup key pv.latest ≢ some value
    → lookup key (set_value key value pv).latest ≡ some value
unfolding set_value
set_value-differs key value pv h =
    rw (is_value-differs value (lookup key pv.latest) h) (lookup-insert_self key value pv.latest)

-- Where a change of a value comes between the two parts of a read, by a reader that can have all of
-- the latest values by reading the changes, the value is the latest, but a later read of the changes
-- leaves the reader with the one before.
pub get_values-set_value :
    (only_changes : Bool) (key value : String) (pv : PropertyValues) (copy : Dict String)
    → IsTracked (pv, copy)
    → get_value key pv ≢ some value
    → let (after, read) = run (takes only_changes ∷ sets key value ∷ clears ∷ []) (pv, copy) in
      (get_value key after ≡ some value)
      × (lookup key (merge (get_values true after).1 read) ≡ get_value key pv)
unfolding run get_value get_values take_values get_changed get_latest clear_changes lookup merge
get_values-set_value true key value pv copy h differs = (
  set_value-differs key value (record pv { changed = [] }) differs,
  lookup-merge pv.changed copy key ∙ sym (h key),
)
get_values-set_value false key value pv copy h differs =
    (set_value-differs key value pv differs, refl)
