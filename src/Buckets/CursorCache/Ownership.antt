-- ===== src/Buckets/CursorCache/Ownership.antt =====
-- Who reaches a cursor, and which cursors the background loop frees.
use done_rest.Prelude.{
  ℕ, ◌+◌, ◌%◌, ◌^◌, ◌≤◌, ◌<◌, ◌≡◌, ◌≢◌, refl, String, Bool, Option, none, some, ◌++◌, arith, lookup,
  ◌==◌, if◌then◌else◌, eq_iff, lookup-insert, lookup-remove, IsDistinct, Holds,
}
use done_rest.Errors.{Error}
use done_rest.Buckets.CursorCache.{CursorInfo, CursorCache, add, get, release, freed_by}

-- Every entry stands under its own key, which was made from a number up to the counter.
pub record IsCache {Cursor Bucket : Type 0} (format : ℕ → String) (cc : CursorCache Cursor Bucket)
    : Type 0 where
  pub distinct : IsDistinct cc.cursors_by_key
  pub keyed : Holds (λ k (info : CursorInfo Cursor Bucket). info.key ≡ k) cc.cursors_by_key
  pub made :
      Holds
        (λ k (info : CursorInfo Cursor Bucket). (n : ℕ) × (n ≤ cc.cursor_counter) × (k ≡ format n))
        cc.cursors_by_key

module _ {Cursor Bucket : Type 0} where
  -- A client that adds a cursor gets it under the returned key, no other client does, and every
  -- cursor that was in the cache is still there under its key. The conditions are that different
  -- numbers have different texts, and that the counter does not wrap.
  pub get-add :
      (format : ℕ → String) (cursor : Cursor) (bucket : Option Bucket) (client_id : String)
      (lifespan now : ℕ) (cc : CursorCache Cursor Bucket)
      → ((a b : ℕ) → format a ≡ format b → a ≡ b)
      → IsCache format cc
      → cc.cursor_counter + 1 < 2 ^ 64
      → let added = add format cursor bucket client_id lifespan cc in
        ((u : Bool)
          → ((get now added.1 client_id u added.0).1 ≡ some cursor)
            × ((get now added.1 client_id u added.0).2 ≡ none))
        × ((other : String) (u : Bool)
            → other ≢ client_id
            → get now added.1 other u added.0 ≡ (added.0, none, some Error.not_the_owner))
        × ((k : String) (info : CursorInfo Cursor Bucket)
            → lookup k cc.cursors_by_key ≡ some info
            → lookup k (added.0).cursors_by_key ≡ some info)
  unfolding add get
  get-add format cursor bucket client_id lifespan now cc injective v small =
      let next = (cc.cursor_counter + 1) % 2 ^ 64 in
      let info : CursorInfo Cursor Bucket = record {
        key = format next;
        bucket = bucket;
        cursor = cursor;
        owner_id = client_id;
        last_used = 0;
        lifespan = lifespan;
      } in
      let at = λ (k : String). lookup-insert (format next) k info cc.cursors_by_key in
      (
        λ u. (
          ground (
            arith,
            at (format next),
            eq_iff (format next) (format next),
            eq_iff client_id client_id,
          ),
          ground (
            arith,
            at (format next),
            eq_iff (format next) (format next),
            eq_iff client_id client_id,
          ),
        ),
        λ other u h.
            ground
              (arith, at (format next), eq_iff (format next) (format next), eq_iff client_id other),
        λ k old found.
            let (n, below, same) = v.made k old found in
            ground (arith, at k, eq_iff (format next) k, injective next n),
      )

  -- What a removal leaves.
  lookup-release :
      (client_id key : String) (info : CursorInfo Cursor Bucket) (cc : CursorCache Cursor Bucket)
      (k : String)
      → lookup key cc.cursors_by_key ≡ some info
      → info.owner_id ≡ client_id
      → lookup k (release client_id key cc).0.cursors_by_key
        ≡ (if key == k then none else lookup k cc.cursors_by_key)
  unfolding release
  lookup-release client_id key info cc k found mine =
      ground (arith, lookup-remove key k cc.cursors_by_key, eq_iff info.owner_id client_id)

  -- A release by another client fails and changes nothing. One by the owner takes the cursor out of
  -- the cache, leaves every other cursor, frees the cursor and its bucket once, and from then on
  -- the key gives no cursor to anybody and releasing it again changes nothing.
  release_lem :
      (client_id key : String) (now : ℕ) (info : CursorInfo Cursor Bucket)
      (cc : CursorCache Cursor Bucket)
      → lookup key cc.cursors_by_key ≡ some info
      → let after = (release client_id key cc).0 in
        (info.owner_id ≢ client_id → release client_id key cc ≡ (cc, some Error.not_the_owner))
        × (info.owner_id ≡ client_id
            → ((release client_id key cc).1 ≡ none)
              × (after.freed ≡ cc.freed ++ freed_by info)
              × ((other : String) (u : Bool)
                  → get now key other u after ≡ (after, none, some Error.cursor_not_found))
              × ((other : String) → release other key after ≡ (after, none))
              × ((k : String)
                  → key ≢ k
                  → lookup k after.cursors_by_key ≡ lookup k cc.cursors_by_key))
  unfolding release get
  release_lem client_id key now info cc found = (
    λ other. ground (arith, eq_iff info.owner_id client_id),
    λ mine.
        let at = λ (k : String). lookup-release client_id key info cc k found mine in
        let gone : lookup key (release client_id key cc).0.cursors_by_key ≡ none =
          ground (arith, at key, eq_iff key key) in
        (
          ground (arith, eq_iff info.owner_id client_id),
          ground (arith, eq_iff info.owner_id client_id),
          λ other u. rw (gone, get) refl,
          λ other. rw (gone, release) refl,
          λ k h. ground (arith, at k, eq_iff key k),
        ),
  )
