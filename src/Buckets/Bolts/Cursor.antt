-- ===== src/Buckets/Bolts/Cursor.antt =====
-- done_tool/buckets/bolts/BBoltCursor.go: the cursors of the store on bbolt.
pub mod Moves
pub mod Interface
use done_rest.Prelude.{
  ℕ, zero, suc, String, Bool, true, false, ◌≡◌, ◌≢◌, refl, Option, none, some, List, [], ◌∷◌, Dict,
  insert, arith,
}
use done_rest.Buckets.Api.{Entry, Place, BucketCursors}

-- bbolt's Cursor, with what its documentation says of the moves of a cursor that stands on an
-- entry. `none` is for a nil key.
pub record BoltCursors : Type 1 where
  pub RawCursor : Type 0
  pub raw_first : RawCursor → RawCursor × Option Entry
  pub raw_last : RawCursor → RawCursor × Option Entry
  pub raw_next : RawCursor → RawCursor × Option Entry
  pub raw_prev : RawCursor → RawCursor × Option Entry
  pub raw_seek : String → RawCursor → RawCursor × Option Entry
  pub raw_place : RawCursor → Option Place
  pub raw_entries : RawCursor → List Entry
  pub raw_first-none : (c : RawCursor) → raw_entries c ≡ [] → (raw_first c).1 ≡ none
  pub raw_first-some :
      (c : RawCursor) (e : Entry) (es : List Entry)
      → raw_entries c ≡ e ∷ es
      → ((raw_first c).1 ≡ some e)
        × (raw_place (raw_first c).0 ≡ some (record { behind = []; here = e; ahead = es }))
  pub raw_next-none :
      (c : RawCursor) (x : Entry) (b : List Entry)
      → raw_place c ≡ some (record { behind = b; here = x; ahead = [] })
      → (raw_next c).1 ≡ none
  pub raw_next-some :
      (c : RawCursor) (x e : Entry) (b a : List Entry)
      → raw_place c ≡ some (record { behind = b; here = x; ahead = e ∷ a })
      → ((raw_next c).1 ≡ some e)
        × (raw_place (raw_next c).0 ≡ some (record { behind = x ∷ b; here = e; ahead = a }))
  pub raw_prev-none :
      (c : RawCursor) (x : Entry) (a : List Entry)
      → raw_place c ≡ some (record { behind = []; here = x; ahead = a })
      → (raw_prev c).1 ≡ none
  pub raw_prev-some :
      (c : RawCursor) (x e : Entry) (b a : List Entry)
      → raw_place c ≡ some (record { behind = e ∷ b; here = x; ahead = a })
      → ((raw_prev c).1 ≡ some e)
        × (raw_place (raw_prev c).0 ≡ some (record { behind = b; here = e; ahead = x ∷ a }))

-- The bucket and the cursor are nil together, as NewBBoltCursor and Release make them. The context
-- is the name that is kept in it.
pub record BBoltCursor (Raw : Type 0) : Type 0 where
  pub cursor : Option Raw
  pub bucket_id : String
  pub context : String

module _ (bolt : BoltCursors) where
  -- A move of a cursor that is not released.
  unfoldable pub moved_by :
      (bolt.RawCursor → bolt.RawCursor × Option Entry)
      → BBoltCursor bolt.RawCursor
      → BBoltCursor bolt.RawCursor × Option Entry
  moved_by move c = elim c.cursor [
    | none ↦ (c, none)
    | some raw ↦ (record c { cursor = some (move raw).0 }, (move raw).1)
  ]

  unfoldable pub first : BBoltCursor bolt.RawCursor → BBoltCursor bolt.RawCursor × Option Entry
  unfolding moved_by
  first = moved_by bolt.raw_first

  unfoldable pub last : BBoltCursor bolt.RawCursor → BBoltCursor bolt.RawCursor × Option Entry
  unfolding moved_by
  last = moved_by bolt.raw_last

  unfoldable pub next : BBoltCursor bolt.RawCursor → BBoltCursor bolt.RawCursor × Option Entry
  unfolding moved_by
  next = moved_by bolt.raw_next

  unfoldable pub prev : BBoltCursor bolt.RawCursor → BBoltCursor bolt.RawCursor × Option Entry
  unfolding moved_by
  prev = moved_by bolt.raw_prev

  unfoldable pub seek :
      String → BBoltCursor bolt.RawCursor → BBoltCursor bolt.RawCursor × Option Entry
  unfolding moved_by
  seek search_key = moved_by (bolt.raw_seek search_key)

  -- The loop of NextN and PrevN, with the documents so far.
  unfoldable pub collect :
      (bolt.RawCursor → bolt.RawCursor × Option Entry)
      → ℕ
      → bolt.RawCursor
      → Dict String
      → bolt.RawCursor × Dict String × Bool
  collect move zero raw docs = (raw, docs, true)
  collect move (suc steps) raw docs = elim (move raw).1 [
    | none ↦ ((move raw).0, docs, false)
    | some (k, v) ↦ collect move steps (move raw).0 (insert k v docs)
  ]

  -- The documents of a released cursor are nil, a map without entries.
  unfoldable pub collected :
      (bolt.RawCursor → bolt.RawCursor × Option Entry)
      → ℕ
      → BBoltCursor bolt.RawCursor
      → BBoltCursor bolt.RawCursor × Dict String × Bool
  unfolding collect
  collected move steps c = elim c.cursor [
    | none ↦ (c, [], false)
    | some raw ↦
        let (after, docs, remaining) = collect move steps raw [] in
        (record c { cursor = some after }, docs, remaining)
  ]

  unfoldable pub next_n :
      ℕ → BBoltCursor bolt.RawCursor → BBoltCursor bolt.RawCursor × Dict String × Bool
  unfolding collected
  next_n = collected bolt.raw_next

  unfoldable pub prev_n :
      ℕ → BBoltCursor bolt.RawCursor → BBoltCursor bolt.RawCursor × Dict String × Bool
  unfolding collected
  prev_n = collected bolt.raw_prev

  -- The read transaction ends with the release.
  unfoldable pub release : BBoltCursor bolt.RawCursor → BBoltCursor bolt.RawCursor
  release c = record c { cursor = none }

  -- Where the cursor stands, which is nowhere once it is released.
  unfoldable pub place_of : BBoltCursor bolt.RawCursor → Option Place
  place_of c = elim c.cursor [ none ↦ none | some raw ↦ bolt.raw_place raw ]

  unfoldable pub entries_of : BBoltCursor bolt.RawCursor → List Entry
  entries_of c = elim c.cursor [ none ↦ [] | some raw ↦ bolt.raw_entries raw ]
