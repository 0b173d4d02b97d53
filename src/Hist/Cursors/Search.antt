-- ===== src/Hist/Cursors/Search.antt =====
-- The loops of findNextName and findPrevName in HistoryCursor.go against a search through the
-- values that stand ahead of the cursor.
use done_rest.Prelude.{
  ℕ, zero, suc, ◌<◌, String, Bool, ◌≡◌, refl, sym, subst, ◌∙◌, Option, none, some, List, [], ◌∷◌,
  map, arith, ltb, ◌==◌, if◌then◌else◌, Bool-cases, inl, inr, length, All,
}
use done_rest.Buckets.Api.{BucketCursors, Entry, Walk, forward, backward}
use done_rest.Transport.Split.{split}
use done_rest.Hist.{ThingValue}
use done_rest.Hist.Encoding.{
  Decimal, value, IsEncodable, encode_value, decode_value, thing_addr, split-encode_value,
  decode_value-encode_value,
}
use done_rest.Hist.Cursors.{
  Verdict, check_parts, found_value, find_name, find_next_name, find_prev_name,
}

-- The first value of the name, and the values after it. A value past the limit ends the search and
-- is not taken; without either the search comes to the end, and nothing is said of what is left.
unfoldable pub search :
    (ℕ → Bool) → String → List ThingValue → Option ThingValue × Option (List ThingValue)
search is_past name [] = (none, none)
search is_past name (tv ∷ tvs) =
    let later = search is_past name tvs in
    if is_past tv.created_msec
    then (none, some (tv ∷ tvs))
    else if name == tv.name
    then (some tv, some tvs)
    else later

verdict-encode_value :
    (dec : Decimal) (now : ℕ) (is_past : ℕ → Bool) (name : String) (tv : ThingValue)
    → IsEncodable tv
    → check_parts dec is_past name (split b'/' (encode_value dec now tv).0) ≡ (
        if is_past tv.created_msec
        then Verdict.passed
        else if name == tv.name
        then Verdict.matched
        else Verdict.skipped)
unfolding check_parts
verdict-encode_value dec now is_past name tv fits =
    rw (split-encode_value dec now tv fits, dec.parse-format tv.created_msec) refl

-- A value that is stored in the bucket of the ID.
abbrev pub IsStored : String → ThingValue → Type 0
IsStored bucket_id tv = IsEncodable tv × (thing_addr tv ≡ bucket_id)

module _ (dec : Decimal) (now : ℕ) (cs : BucketCursors) where
  -- The values that stand ahead of a cursor on its walk, in their encoding.
  abbrev pub IsAhead : Walk cs → cs.Cursor → List ThingValue → Type 0
  IsAhead walk c tvs =
      (b : List Entry) × (x : Entry) × (walk.view c
        ≡ some (record { behind = b; here = x; ahead = map (encode_value dec now) tvs }))

  abbrev pub IsSameCursor : cs.Cursor → cs.Cursor → Type 0
  IsSameCursor c d = (cs.bucket_id d ≡ cs.bucket_id c) × (cs.context d ≡ cs.context c)

  abbrev pub IsLeft : Walk cs → cs.Cursor → Option (List ThingValue) → Type 0
  IsLeft walk c none = Unit
  IsLeft walk c (some tvs) = IsAhead walk c tvs

  -- What a search is to give.
  abbrev pub Finds :
      Walk cs
      → cs.Cursor
      → Option ThingValue × Option (List ThingValue)
      → Option (cs.Cursor × Option ThingValue)
      → Type 0
  Finds walk c wanted result =
      (d : cs.Cursor) × (result ≡ some (d, wanted.0)) × IsSameCursor c d × IsLeft walk d wanted.1

  pub find_name-search :
      (walk : Walk cs) (is_past : ℕ → Bool) (name : String) (fuel : ℕ) (tvs : List ThingValue)
      (c : cs.Cursor)
      → length tvs < fuel
      → All (IsStored (cs.bucket_id c)) tvs
      → IsAhead walk c tvs
      → Finds walk c (search is_past name tvs) (find_name dec cs fuel walk is_past name c)
  unfolding find_name search found_value
  find_name-search walk is_past name zero tvs c enough stored (b, x, e) = absurd (omega arith)
  find_name-search walk is_past name (suc fuel) [] c enough stored (b, x, e) = (
    (walk.step c).0,
    rw (walk.step-none c x b e, find_name) refl,
    (walk.bucket_id-step c, walk.context-step c),
    tt,
  )
  find_name-search walk is_past name (suc fuel) (tv ∷ tvs) c enough stored (b, x, e) =
      let (k, v) = encode_value dec now tv in
      let moved = (walk.step c).0 in
      let stepped = walk.step-some c x (k, v) b (map (encode_value dec now) tvs) e in
      let verdict = verdict-encode_value dec now is_past name tv stored.0.0 in
      let same : IsSameCursor c moved = (walk.bucket_id-step c, walk.context-step c) in
      let stands : IsAhead walk moved tvs = (x ∷ b, (k, v), stepped.1) in
      elim (Bool-cases (is_past tv.created_msec)) [
        | inl past ↦ (
          (walk.undo moved).0,
          rw (stepped.0, verdict, past, find_name) refl,
          (walk.bucket_id-undo moved ∙ same.0, walk.context-undo moved ∙ same.1),
          rw past
              (b, x, walk.view-undo moved (k, v) x b (map (encode_value dec now) tvs) stepped.1),
        )
        | inr early ↦ elim (Bool-cases (name == tv.name)) [
          | inl hit ↦ (
            moved,
            let decoded : decode_value dec (cs.bucket_id moved) k v ≡ value tv =
                  subst (λ id. decode_value dec id k v ≡ value tv) (stored.0.1 ∙ sym same.0)
                    (decode_value-encode_value dec now tv stored.0.0) in
                rw (stepped.0, verdict, early, hit, decoded, find_name) refl,
            same,
            rw (early, hit) stands,
          )
          | inr miss ↦
              let (d, found, alike, left) =
                find_name-search walk is_past name fuel tvs moved (omega arith)
                  (subst (λ id. All (IsStored id) tvs) (sym same.0) stored.1) stands in
              (
                d,
                rw (stepped.0, verdict, early, miss, found, find_name) refl,
                (alike.0 ∙ same.0, alike.1 ∙ same.1),
                rw (early, miss) left,
              )
        ]
      ]

  -- A cursor of a Thing's bucket, with encodable values of that Thing ahead of it, and more fuel
  -- than there are values: findNextName returns the first value of the name that comes before any
  -- value after the limit, or none, it stays on its bucket with its filter, and the values that
  -- are ahead of it then are those after the value it returned, or those from the value after the
  -- limit on.
  pub find_next_name-search :
      (fuel until : ℕ) (name : String) (c : cs.Cursor) (tvs : List ThingValue)
      → length tvs < fuel
      → All (IsStored (cs.bucket_id c)) tvs
      → IsAhead (forward cs) c tvs
      → Finds
          (forward cs)
          c
          (search (λ t. ltb until t) name tvs)
          (find_next_name dec cs fuel c name until)
  unfolding find_next_name
  find_next_name-search fuel until name c tvs =
      find_name-search (forward cs) (λ t. ltb until t) name fuel tvs c

  -- The same of findPrevName, for the values behind the cursor, the nearest first, and a limit that
  -- they are not to be before.
  find_prev_name-search :
      (fuel until : ℕ) (name : String) (c : cs.Cursor) (tvs : List ThingValue)
      → length tvs < fuel
      → All (IsStored (cs.bucket_id c)) tvs
      → IsAhead (backward cs) c tvs
      → Finds
          (backward cs)
          c
          (search (λ t. ltb t until) name tvs)
          (find_prev_name dec cs fuel c name until)
  unfolding find_prev_name
  find_prev_name-search fuel until name c tvs =
      find_name-search (backward cs) (λ t. ltb t until) name fuel tvs c
