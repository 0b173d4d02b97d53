-- ===== src/Prelude/Maps.antt =====
-- Go's `map[string]V` as an association list. A range over a map visits its entries in an order
-- that Go leaves open; the model visits them in the order of the list.
use Prim.Native.String.{String}
use mathlib.Core.List.{List, [], ◌∷◌, map}
use mathlib.Core.Logic.{inl, inr}
use mathlib.Core.Option.{Option, none, some}
use mathlib.Core.Path.{◌≡◌, refl, subst}
use native.Mathlib.Omega.{arith}
use text.Mathlib.TextEquality.{eq_iff}
use done_rest.Prelude.Tests.{◌==◌, if◌then◌else◌, Bool-cases}

abbrev pub Dict {ℓ} : Type ℓ → Type ℓ
Dict V = List (String × V)

module _ {ℓ} {V : Type ℓ} where
  -- The values of a range over the map.
  abbrev pub values : Dict V → List V
  values m = map (λ entry. entry.1) m

  -- delete(m, key)
  unfoldable pub remove : String → Dict V → Dict V
  remove key [] = []
  remove key (entry ∷ later) =
      let kept = remove key later in if entry.0 == key then kept else entry ∷ kept

  -- m[key] = value
  unfoldable pub insert : String → V → Dict V → Dict V
  insert key value [] = (key, value) ∷ []
  insert key value (entry ∷ later) =
      let kept = insert key value later in
      if entry.0 == key then (key, value) ∷ later else entry ∷ kept

  -- value, found := m[key]
  unfoldable pub lookup : String → Dict V → Option V
  lookup key [] = none
  lookup key (entry ∷ later) =
      let found = lookup key later in if entry.0 == key then some entry.1 else found

  pub lookup-remove :
      (key other : String) (m : Dict V)
      → lookup other (remove key m) ≡ (if key == other then none else lookup other m)
  unfolding remove lookup
  lookup-remove key other [] = ground arith
  lookup-remove key other (entry ∷ later) = ground (
    arith,
    lookup-remove key other later,
    eq_iff key other,
    eq_iff entry.0 key,
    eq_iff entry.0 other,
  )

  pub lookup-insert :
      (key other : String) (value : V) (m : Dict V)
      → lookup other (insert key value m) ≡ (if key == other then some value else lookup other m)
  unfolding insert lookup
  lookup-insert key other value [] = refl
  lookup-insert key other value (entry ∷ later) = ground (
    arith,
    lookup-insert key other value later,
    eq_iff key other,
    eq_iff entry.0 key,
    eq_iff entry.0 other,
  )

  pub lookup-insert_self :
      (key : String) (value : V) (m : Dict V) → lookup key (insert key value m) ≡ some value
  lookup-insert_self key value m = ground (arith, eq_iff key key, lookup-insert key key value m)

  -- No key stands twice, as in any Go map.
  abbrev pub IsDistinct : Dict V → Type ℓ
  IsDistinct [] = Unit
  IsDistinct ((k, v) ∷ m) = (lookup k m ≡ none) × IsDistinct m

  pub insert-IsDistinct :
      (k : String) (v : V) (m : Dict V) → IsDistinct m → IsDistinct (insert k v m)
  unfolding insert lookup
  insert-IsDistinct k v [] d = (refl, tt)
  insert-IsDistinct k v ((j, w) ∷ m) d =
      ground (arith, eq_iff j k, eq_iff k j, lookup-insert k j v m, insert-IsDistinct k v m d.1)

  pub remove-IsDistinct : (k : String) (m : Dict V) → IsDistinct m → IsDistinct (remove k m)
  unfolding remove lookup
  remove-IsDistinct k [] d = tt
  remove-IsDistinct k ((j, w) ∷ m) d =
      ground (arith, eq_iff j k, lookup-remove k j m, remove-IsDistinct k m d.1)

  -- Every entry satisfies `P`.
  abbrev pub Holds {κ} : (String → V → Type κ) → Dict V → Type (ℓ ⊔ κ)
  Holds P m = (k : String) (v : V) → lookup k m ≡ some v → P k v

  pub insert-Holds {κ} :
      (P : String → V → Type κ) (k : String) (v : V) (m : Dict V)
      → P k v
      → Holds P m
      → Holds P (insert k v m)
  insert-Holds P k v m p h j w e = elim (Bool-cases (k == j)) [
    | inl same ↦
        subst (λ i. P i w) ((eq_iff k j).0 same)
          (subst (P k) (ground (arith, lookup-insert k j v m)) p)
    | inr other ↦ h j w (ground (arith, lookup-insert k j v m))
  ]

  pub remove-Holds {κ} :
      (P : String → V → Type κ) (k : String) (m : Dict V) → Holds P m → Holds P (remove k m)
  remove-Holds P k m h j w e = h j w (ground (arith, lookup-remove k j m))

module _ {ℓ κ} {V : Type ℓ} (P : String → V → Type κ) where
  pub Holds-head : (k : String) (v : V) (m : Dict V) → Holds P ((k, v) ∷ m) → P k v
  unfolding lookup
  Holds-head k v m h = h k v (ground (arith, eq_iff k k))

  pub Holds-tail :
      (k : String) (v : V) (m : Dict V) → lookup k m ≡ none → Holds P ((k, v) ∷ m) → Holds P m
  unfolding lookup
  Holds-tail k v m absent h j w e = h j w (elim (Bool-cases (k == j)) [
    | inl same ↦ cc (absent, e, (eq_iff k j).0 same)
    | inr other ↦ rw other e
  ])

  pub Holds-cons : (k : String) (v : V) (m : Dict V) → P k v → Holds P m → Holds P ((k, v) ∷ m)
  unfolding lookup
  Holds-cons k v m p h j w e = elim (Bool-cases (k == j)) [
    | inl same ↦ subst (λ i. P i w) ((eq_iff k j).0 same) (subst (P k) (ground arith) p)
    | inr other ↦ h j w (ground arith)
  ]

  pub Holds-nil : Holds P []
  unfolding lookup
  Holds-nil j w e = cc
