-- ===== src/Hist/Cursors/Batches.antt =====
-- NextN and PrevN of HistoryCursor.go against the list of the values that pass the filter.
use done_rest.Prelude.{
  ℕ, zero, suc, ◌<◌, String, Bool, true, false, ◌||◌, ◌≡◌, ◌≢◌, ◌⊎◌, inl, inr, refl, sym, ap, subst,
  ◌∙◌, Option, none, some, List, [], ◌∷◌, map, arith, ltb, leb, ◌==◌, eq_iff, ne→false,
  if◌then◌else◌, Bool-cases, length, All, lookup, insert, lookup-insert_self, take, leb-suc,
  leb-zero,
}
use done_rest.Buckets.Api.{BucketCursors, Walk, forward, backward}
use done_rest.Buckets.CursorCache.{CursorCache, CursorInfo, get}
use done_rest.Hist.{ThingValue}
use done_rest.Hist.Encoding.{Decimal, value, encode_value, decode_value, decode_value-encode_value}
use done_rest.Hist.Cursors.{find_name, find_next_name, find_prev_name}
use done_rest.Hist.Cursors.Search.{
  search, IsStored, IsAhead, IsLeft, IsSameCursor, find_name-search,
}
use done_rest.Hist.Cursors.Service.{
  CursorCall, with_cursor, prepend, CursorNResp, Move, moved, replied, single, settle, arrive,
  put_cursor, reply, on_cursor, batch, next, next_n, prev, prev_n,
}

-- The values that the filter of a cursor lets through: all of them without a name.
unfoldable pub matching : String → List ThingValue → List ThingValue
matching name [] = []
matching name (tv ∷ tvs) =
    let rest = matching name tvs in if name == "" || name == tv.name then tv ∷ rest else rest

-- In the bucket, and not past the limit.
abbrev pub IsReached : (ℕ → Bool) → String → ThingValue → Type 0
IsReached is_past bucket_id tv = IsStored bucket_id tv × (is_past tv.created_msec ≡ false)

IsReached-IsStored :
    (is_past : ℕ → Bool) (id : String) (tvs : List ThingValue)
    → All (IsReached is_past id) tvs
    → All (IsStored id) tvs
IsReached-IsStored is_past id [] h = tt
IsReached-IsStored is_past id (tv ∷ tvs) h = (h.0.0, IsReached-IsStored is_past id tvs h.1)

IsStored-IsReached :
    (id : String) (tvs : List ThingValue)
    → All (IsStored id) tvs
    → All (IsReached (λ t. ltb t 0) id) tvs
IsStored-IsReached id [] h = tt
IsStored-IsReached id (tv ∷ tvs) h = ((h.0, ground arith), IsStored-IsReached id tvs h.1)

-- A value of the filter, and the values after it.
abbrev Splits :
    (ℕ → Bool) → String → String → List ThingValue → ThingValue → List ThingValue → Type 0
Splits is_past id name tvs tv rest =
    (matching name tvs ≡ tv ∷ matching name rest)
    × All (IsReached is_past id) rest
    × (length rest < suc (length tvs))

search_cases :
    (is_past : ℕ → Bool) (id name : String) (tvs : List ThingValue)
    → name ≢ ""
    → All (IsReached is_past id) tvs
    → ((tv : ThingValue) × (rest : List ThingValue) × (search is_past name tvs
          ≡ (some tv, some rest))
        × Splits is_past id name tvs tv rest)
      ⊎ (((search is_past name tvs).0 ≡ none) × (matching name tvs ≡ []))
unfolding search matching
search_cases is_past id name [] named h = inr (refl, refl)
search_cases is_past id name (tv ∷ tvs) named h = elim (Bool-cases (name == tv.name)) [
  | inl hit ↦
      inl (tv, tvs, rw (h.0.1, hit) refl, (rw (ne→false name "" named, hit) refl, h.1, omega arith))
  | inr miss ↦ elim (search_cases is_past id name tvs named h.1) [
    | inl (found, rest, e, splits) ↦ inl (
      found,
      rest,
      rw (h.0.1, miss) e,
      (rw (ne→false name "" named, miss) splits.0, splits.1, omega (arith, splits.2)),
    )
    | inr (e, left) ↦ inr (rw (h.0.1, miss) e, rw (ne→false name "" named, miss) left)
  ]
]

module _ (dec : Decimal) (now : ℕ) (cs : BucketCursors) where
  abbrev walk_on : ℕ → Walk cs → (ℕ → Bool) → cs.Cursor → Move cs.Cursor
  walk_on fuel walk is_past c =
      arrive dec cs (λ d. find_name dec cs fuel walk is_past (cs.context d) d) (walk.step c)

  -- Either a value that the filter lets through is found, or there is none.
  abbrev Advances : Walk cs → (ℕ → Bool) → cs.Cursor → List ThingValue → Move cs.Cursor → Type 0
  Advances walk is_past c tvs result =
      ((d : cs.Cursor) × (tv : ThingValue) × (rest : List ThingValue) × (result ≡ moved d (some tv))
        × IsSameCursor dec now cs c d
        × IsAhead dec now cs walk d rest
        × Splits is_past (cs.bucket_id c) (cs.context c) tvs tv rest)
      ⊎ ((d : cs.Cursor) × (result ≡ moved d none) × (matching (cs.context c) tvs ≡ []))

  walk_on-Advances :
      (walk : Walk cs) (is_past : ℕ → Bool) (fuel : ℕ) (c : cs.Cursor) (tvs : List ThingValue)
      → length tvs < fuel
      → All (IsReached is_past (cs.bucket_id c)) tvs
      → IsAhead dec now cs walk c tvs
      → Advances walk is_past c tvs (walk_on fuel walk is_past c)
  unfolding arrive settle matching
  walk_on-Advances walk is_past fuel c [] enough reached (b, x, e) =
      inr ((walk.step c).0, rw (walk.step-none c x b e, arrive) refl, refl)
  walk_on-Advances walk is_past fuel c (tv ∷ tvs) enough reached (b, x, e) =
      let (k, v) = encode_value dec now tv in
      let after = (walk.step c).0 in
      let stepped = walk.step-some c x (k, v) b (map (encode_value dec now) tvs) e in
      let same : IsSameCursor dec now cs c after = (walk.bucket_id-step c, walk.context-step c) in
      let stands : IsAhead dec now cs walk after tvs = (x ∷ b, (k, v), stepped.1) in
      let decoded : decode_value dec (cs.bucket_id after) k v ≡ value tv =
        subst (λ id. decode_value dec id k v ≡ value tv) (reached.0.0.1 ∙ sym same.0)
          (decode_value-encode_value dec now tv reached.0.0.0) in
      elim (Bool-cases (cs.context c == "")) [
        | inl free ↦ inl (
          after,
          tv,
          tvs,
          rw (stepped.0, decoded, same.1, free, settle, arrive) refl,
          same,
          stands,
          (rw free refl, reached.1, omega arith),
        )
        | inr named ↦ elim (Bool-cases (cs.context c == tv.name)) [
          | inl hit ↦ inl (
            after,
            tv,
            tvs,
            rw (stepped.0, decoded, same.1, named, hit, settle, arrive) refl,
            same,
            stands,
            (rw (named, hit) refl, reached.1, omega arith),
          )
          | inr miss ↦
              let (d, found, alike, left) =
                find_name-search dec now cs walk is_past (cs.context c) fuel tvs after (omega arith)
                  (subst (λ id. All (IsStored id) tvs) (sym same.0)
                    (IsReached-IsStored is_past (cs.bucket_id c) tvs reached.1))
                  stands in
              elim (search_cases is_past (cs.bucket_id c) (cs.context c) tvs
                (ground (arith, eq_iff (cs.context c) "")) reached.1) [
                  | inl (hit, rest, e, splits) ↦ inl (
                    d,
                    hit,
                    rest,
                    rw (stepped.0, decoded, same.1, named, miss, found, e, settle, arrive) refl,
                    (alike.0 ∙ same.0, alike.1 ∙ same.1),
                    subst (IsLeft dec now cs walk d)
                        (ap (λ (r : Option ThingValue × Option (List ThingValue)). r.1) e) left,
                    (rw (named, miss) splits.0, splits.1, omega (arith, splits.2)),
                  )
                  | inr (e, nothing) ↦ inr (
                    d,
                    rw (stepped.0, decoded, same.1, named, miss, found, e, settle, arrive) refl,
                    rw (named, miss) nothing,
                  )
                ]
        ]
      ]

module _ (cs : BucketCursors) {Bucket : Type 0} where
  -- The cache has the cursor under the key of the request, for its sender.
  abbrev pub Holding : CursorCall → CursorCache cs.Cursor Bucket → cs.Cursor → Type 0
  Holding call cc c =
      (info : CursorInfo cs.Cursor Bucket) × (lookup call.cursor_key cc.cursors_by_key ≡ some info)
      × (info.cursor ≡ c)
      × (info.owner_id ≡ call.sender_id)

  on_cursor-Holding :
      (move : cs.Cursor → Move cs.Cursor) (call : CursorCall) (cc : CursorCache cs.Cursor Bucket)
      (c d : cs.Cursor) (result : Option ThingValue)
      → Holding call cc c
      → move c ≡ moved d result
      → (after : CursorCache cs.Cursor Bucket) × (on_cursor cs move call cc
          ≡ replied after (some (single result)) none)
        × Holding call after d
  unfolding on_cursor with_cursor reply put_cursor get
  on_cursor-Holding move call cc c d result (info, found, is_it, owned) goes =
      let used = record info { last_used = call.used_at } in
      let kept = insert call.cursor_key used cc.cursors_by_key in
      let mine : (info.owner_id == call.sender_id) ≡ true =
        ground (arith, eq_iff info.owner_id call.sender_id) in
      let got : get call.used_at call.cursor_key call.sender_id true cc
          ≡ (record cc { cursors_by_key = kept }, some info.cursor, none) =
        rw (found, get, mine) refl in
      let again = lookup-insert_self call.cursor_key used cc.cursors_by_key in
      (
        record cc { cursors_by_key = insert call.cursor_key (record used { cursor = d }) kept },
        rw (got, ap move is_it ∙ goes, put_cursor, again) refl,
        (
          record used { cursor = d },
          lookup-insert_self call.cursor_key (record used { cursor = d }) kept,
          refl,
          owned,
        ),
      )

-- What a batch is to give.
abbrev pub matched_batch : ℕ → String → List ThingValue → CursorNResp
matched_batch limit name tvs = record {
  values = map (λ tv. some tv) (take limit (matching name tvs));
  items_remaining = leb limit (length (matching name tvs));
}

module _ (dec : Decimal) (now : ℕ) (cs : BucketCursors) {Bucket : Type 0} where
  batch-matching :
      (walk : Walk cs) (is_past : ℕ → Bool) (fuel : ℕ) (call : CursorCall) (name id : String)
      (limit : ℕ) (cc : CursorCache cs.Cursor Bucket) (c : cs.Cursor) (tvs : List ThingValue)
      → length tvs < fuel
      → cs.context c ≡ name
      → cs.bucket_id c ≡ id
      → Holding cs call cc c
      → All (IsReached is_past id) tvs
      → IsAhead dec now cs walk c tvs
      → (after : CursorCache cs.Cursor Bucket) × (batch cs
            (on_cursor cs (walk_on dec now cs fuel walk is_past) call)
            limit
            cc
          ≡ replied after (some (matched_batch limit name tvs)) none)
  unfolding batch prepend single
  batch-matching walk is_past fuel call name id zero cc c tvs enough named at held reached stands =
      (cc, ground arith)
  batch-matching walk is_past fuel call name id (suc limit) cc c tvs enough named at held reached
        stands =
      elim (walk_on-Advances dec now cs walk is_past fuel c tvs enough
        (subst (λ i. All (IsReached is_past i) tvs) (sym at) reached) stands) [
          | inl (d, tv, rest, e, alike, further, splits) ↦
              let (mid, answered, holds) =
                on_cursor-Holding cs (walk_on dec now cs fuel walk is_past) call cc c d (some tv)
                  held e in
              let (after, batched) =
                batch-matching walk is_past fuel call name id limit mid d rest
                  (omega (arith, splits.2)) (alike.1 ∙ named) (alike.0 ∙ at) holds
                  (subst (λ i. All (IsReached is_past i) rest) at splits.1) further in
              (
                after,
                rw
                    (
                      answered,
                      batch,
                      batched,
                      subst (λ n. matching n tvs ≡ tv ∷ matching n rest) named splits.0,
                    )
                    (ap
                      (λ more.
                        replied after
                          (some (record {
                            values = some tv ∷ map (λ v. some v) (take limit (matching name rest));
                            items_remaining = more;
                          }))
                          none)
                      (sym (leb-suc limit (length (matching name rest))))),
              )
          | inr (d, e, nothing) ↦
              let (after, answered, holds) =
                on_cursor-Holding cs (walk_on dec now cs fuel walk is_past) call cc c d none held
                  e in
              (
                after,
                rw (answered, batch, subst (λ n. matching n tvs ≡ []) named nothing)
                    (ap
                      (λ more.
                        replied after (some (record { values = []; items_remaining = more })) none)
                      (sym (leb-zero limit))),
              )
        ]

  -- A request of the sender's own cursor in the cache, on a Thing's bucket, with encodable values of
  -- that Thing ahead of it, none of them after the present, and more fuel than there are values:
  -- NextN returns without an error the values ahead that pass the cursor's filter, in their order
  -- and at most as many as the limit, and says that items remain exactly if at least as many passed
  -- the filter as the limit, so also where none is left after exactly as many.
  pub next_n-matching :
      (fuel limit : ℕ) (call : CursorCall) (cc : CursorCache cs.Cursor Bucket) (c : cs.Cursor)
      (tvs : List ThingValue)
      → length tvs < fuel
      → Holding cs call cc c
      → All (IsReached (λ t. ltb call.now t) (cs.bucket_id c)) tvs
      → IsAhead dec now cs (forward cs) c tvs
      → (after : CursorCache cs.Cursor Bucket) × (next_n dec cs fuel limit call cc
          ≡ replied after (some (matched_batch limit (cs.context c) tvs)) none)
  unfolding next_n next find_next_name
  next_n-matching fuel limit call cc c tvs enough =
      batch-matching (forward cs) (λ t. ltb call.now t) fuel call (cs.context c) (cs.bucket_id c)
        limit cc c tvs enough refl refl

  -- The same of PrevN for the values behind the cursor, the nearest first, whatever their times are.
  prev_n-matching :
      (fuel limit : ℕ) (call : CursorCall) (cc : CursorCache cs.Cursor Bucket) (c : cs.Cursor)
      (tvs : List ThingValue)
      → length tvs < fuel
      → Holding cs call cc c
      → All (IsStored (cs.bucket_id c)) tvs
      → IsAhead dec now cs (backward cs) c tvs
      → (after : CursorCache cs.Cursor Bucket) × (prev_n dec cs fuel limit call cc
          ≡ replied after (some (matched_batch limit (cs.context c) tvs)) none)
  unfolding prev_n prev find_prev_name backward
  prev_n-matching fuel limit call cc c tvs enough held stored =
      batch-matching (backward cs) (λ t. ltb t 0) fuel call (cs.context c) (cs.bucket_id c) limit cc
        c tvs enough refl refl held (IsStored-IsReached (cs.bucket_id c) tvs stored)
