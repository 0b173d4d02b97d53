-- ===== src/Buckets/CursorCache/Expiry.antt =====
-- Which cursors one round of the background loop frees.
use done_rest.Prelude.{
  ℕ, ◌+◌, ◌-◌, ◌%◌, ◌^◌, ◌≤◌, ◌<◌, ◌≡◌, refl, ◌∙◌, inl, inr, String, Bool, false, ◌||◌, Option,
  none, some, List, [], ◌∷◌, arith, Dict, lookup, values, ltb, ◌==◌, if◌then◌else◌, eq_iff,
  lookup-insert, lookup-remove, IsDistinct, Holds, Holds-head, Holds-tail, Option-cases, Bool-cases,
  All, insert-Holds, insert-IsDistinct,
}
use done_rest.Buckets.CursorCache.{
  CursorInfo, CursorCache, add, release, release_all, release_expired, get_expired_cursors, expired,
}
use done_rest.Buckets.CursorCache.Ownership.{IsCache}

module _ {Cursor Bucket : Type 0} where
  -- The key stands in the list.
  unfoldable has_key : String → List (CursorInfo Cursor Bucket) → Bool
  has_key k [] = false
  has_key k (info ∷ rest) = info.key == k || has_key k rest

  is_expired : ℕ → Option (CursorInfo Cursor Bucket) → Bool
  is_expired now none = false
  is_expired now (some info) = ltb info.lifespan (now - info.last_used)

  has_key-expired :
      (now : ℕ) (d : Dict (CursorInfo Cursor Bucket)) (k : String)
      → IsDistinct d
      → Holds (λ j (info : CursorInfo Cursor Bucket). info.key ≡ j) d
      → has_key k (expired now (values d)) ≡ is_expired now (lookup k d)
  unfolding has_key is_expired expired lookup
  has_key-expired now [] k u h = refl
  has_key-expired now ((j, info) ∷ d) k u h =
      let here = Holds-head (λ j (i : CursorInfo Cursor Bucket). i.key ≡ j) j info d h in
      let there =
        has_key-expired now d k u.1
          (Holds-tail (λ j (i : CursorInfo Cursor Bucket). i.key ≡ j) j info d u.0 h) in
      ground (arith, here, there, u.0, eq_iff info.key k, eq_iff j k)

  -- The owner of each of the list is that of the entry under its key.
  abbrev AreOwned : List (CursorInfo Cursor Bucket) → CursorCache Cursor Bucket → Type 0
  AreOwned infos cc =
      All
        (λ (i : CursorInfo Cursor Bucket).
          (e : CursorInfo Cursor Bucket)
          → lookup i.key cc.cursors_by_key ≡ some e
          → e.owner_id ≡ i.owner_id)
        infos

  lookup-release_owned :
      (info : CursorInfo Cursor Bucket) (cc : CursorCache Cursor Bucket) (k : String)
      → ((e : CursorInfo Cursor Bucket)
          → lookup info.key cc.cursors_by_key ≡ some e
          → e.owner_id ≡ info.owner_id)
      → lookup k (release info.owner_id info.key cc).0.cursors_by_key
        ≡ (if info.key == k then none else lookup k cc.cursors_by_key)
  unfolding release
  lookup-release_owned info cc k h = elim (Option-cases (lookup info.key cc.cursors_by_key)) [
    | inl missing ↦ rw (missing, release) (ground (arith, missing, eq_iff info.key k))
    | inr (e, found) ↦ ground (
      arith,
      lookup-remove info.key k cc.cursors_by_key,
      h e found,
      eq_iff e.owner_id info.owner_id,
    )
  ]

  AreOwned-release :
      (info : CursorInfo Cursor Bucket) (cc : CursorCache Cursor Bucket)
      (rest : List (CursorInfo Cursor Bucket))
      → ((e : CursorInfo Cursor Bucket)
          → lookup info.key cc.cursors_by_key ≡ some e
          → e.owner_id ≡ info.owner_id)
      → AreOwned rest cc
      → AreOwned rest (release info.owner_id info.key cc).0
  AreOwned-release info cc [] h a = tt
  AreOwned-release info cc (i ∷ rest) h a = (
    λ e found. a.0 e (ground (arith, lookup-release_owned info cc i.key h)),
    AreOwned-release info cc rest h a.1,
  )

  lookup-release_all :
      (infos : List (CursorInfo Cursor Bucket)) (cc : CursorCache Cursor Bucket) (k : String)
      → AreOwned infos cc
      → lookup k (release_all infos cc).cursors_by_key
        ≡ (if has_key k infos then none else lookup k cc.cursors_by_key)
  unfolding release_all has_key
  lookup-release_all [] cc k a = refl
  lookup-release_all (info ∷ rest) cc k a =
      lookup-release_all rest (release info.owner_id info.key cc).0 k
        (AreOwned-release info cc rest a.0 a.1)
      ∙ ground (arith, lookup-release_owned info cc k a.0)

  AreOwned-expired :
      (now : ℕ) (cc : CursorCache Cursor Bucket) (d : Dict (CursorInfo Cursor Bucket))
      → ((k : String) (info : CursorInfo Cursor Bucket)
          → lookup k d ≡ some info
          → lookup info.key cc.cursors_by_key ≡ some info)
      → IsDistinct d
      → AreOwned (expired now (values d)) cc
  unfolding expired lookup
  AreOwned-expired now cc [] h u = tt
  AreOwned-expired now cc ((k, info) ∷ d) h u =
      let here = h k info (ground (arith, eq_iff k k)) in
      let there =
        AreOwned-expired now cc d
          (λ j i found. h j i (elim (Bool-cases (k == j)) [
            | inl same ↦ absurd (ground (arith, u.0, eq_iff k j))
            | inr other ↦ ground arith
          ]))
          u.1 in
      elim (Bool-cases (ltb info.lifespan (now - info.last_used))) [
        | inl old ↦ rw old ((λ e found. ground (arith, here)), there)
        | inr young ↦ rw young there
      ]

  -- One round of the loop takes out of a well-formed cache exactly the cursors whose last use is
  -- longer ago than their lifespan, and leaves the others as they are.
  release_expired_lem :
      (format : ℕ → String) (now : ℕ) (cc : CursorCache Cursor Bucket) (k : String)
      → IsCache format cc
      → lookup k (release_expired now cc).cursors_by_key ≡ (elim (lookup k cc.cursors_by_key) [
        | none ↦ none
        | some info ↦ if ltb info.lifespan (now - info.last_used) then none else some info
      ])
  unfolding release_expired get_expired_cursors is_expired
  release_expired_lem format now cc k v =
      lookup-release_all (expired now (values cc.cursors_by_key)) cc k (
        AreOwned-expired now cc cc.cursors_by_key
          (λ j info found. ground (arith, v.keyed j info found)) v.distinct)
      ∙ ground (arith, has_key-expired now cc.cursors_by_key k v.distinct v.keyed)

  pub add-IsCache :
      (format : ℕ → String) (cursor : Cursor) (bucket : Option Bucket) (client_id : String)
      (lifespan : ℕ) (cc : CursorCache Cursor Bucket)
      → IsCache format cc
      → cc.cursor_counter + 1 < 2 ^ 64
      → IsCache format (add format cursor bucket client_id lifespan cc).0
  unfolding add
  add-IsCache format cursor bucket client_id lifespan cc v small = record {
    distinct = insert-IsDistinct _ _ cc.cursors_by_key v.distinct;
    keyed =
        insert-Holds (λ k (info : CursorInfo Cursor Bucket). info.key ≡ k) _ _ cc.cursors_by_key
          refl v.keyed;
    made =
        insert-Holds
          (λ k (info : CursorInfo Cursor Bucket).
            (n : ℕ) × (n ≤ (cc.cursor_counter + 1) % 2 ^ 64) × (k ≡ format n))
          _ _ cc.cursors_by_key ((cc.cursor_counter + 1) % 2 ^ 64, omega arith, refl)
          (λ k info found. let (n, below, same) = v.made k info found in (n, omega arith, same));
  }

  -- A cursor that has just been added counts as last used at time zero: with a lifespan below the
  -- present time the next round of the loop takes it out of the cache, however soon that is.
  release_expired-add :
      (format : ℕ → String) (cursor : Cursor) (bucket : Option Bucket) (client_id : String)
      (lifespan now : ℕ) (cc : CursorCache Cursor Bucket)
      → IsCache format cc
      → cc.cursor_counter + 1 < 2 ^ 64
      → lifespan < now
      → let added = add format cursor bucket client_id lifespan cc in
        lookup added.1 (release_expired now added.0).cursors_by_key ≡ none
  unfolding add
  release_expired-add format cursor bucket client_id lifespan now cc v small brief =
      let added = add format cursor bucket client_id lifespan cc in
      release_expired_lem format now added.0 added.1
        (add-IsCache format cursor bucket client_id lifespan cc v small)
      ∙ ground (
        arith,
        lookup-insert added.1 added.1
            (record {
              key = added.1;
              bucket = bucket;
              cursor = cursor;
              owner_id = client_id;
              last_used = 0;
              lifespan = lifespan;
            })
            cc.cursors_by_key,
        eq_iff added.1 added.1,
      )
