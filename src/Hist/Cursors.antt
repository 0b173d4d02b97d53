-- ===== src/Hist/Cursors.antt =====
-- done_mod/mod_hist/hist_srv: the cursors of HistoryCursor.go and ReadHistoryService.go, over the
-- cursors of a store and the cache of Buckets/CursorCache.
pub mod Search
pub mod Service
pub mod Opening
pub mod Batches
use done_rest.Prelude.{
  ℕ, zero, suc, String, Bool, true, false, ◌&&◌, Option, none, some, List, [], ◌∷◌, ltb, ◌==◌, ◌/=◌,
  if◌then◌else◌, lookup, insert,
}
use done_rest.Errors.{Error}
use done_rest.Buckets.Api.{BucketCursors, Entry, Walk, forward, backward}
use done_rest.Buckets.CursorCache.{CursorCache, get}
use done_rest.Transport.Split.{split}
use done_rest.Hist.{ThingValue}
use done_rest.Hist.Encoding.{Decimal, Decoded, invalid, panics, value, decode_value}

-- What the loops of findNextName and findPrevName do with a key.
pub data Verdict : Type 0 where
  skipped passed matched : Verdict

unfoldable pub check_parts : Decimal → (ℕ → Bool) → String → List String → Verdict
check_parts dec is_past name (ts ∷ part ∷ letter ∷ sender ∷ []) =
    if is_past (dec.parse_int ts)
    then Verdict.passed
    else if name == part
    then Verdict.matched
    else Verdict.skipped
check_parts dec is_past name _ = Verdict.skipped

-- The value and its validity; a key of four parts does not panic.
unfoldable pub found_value : Decoded → Option ThingValue
found_value (value tv) = some tv
found_value invalid = none
found_value panics = none

module _ (dec : Decimal) (cs : BucketCursors) where
  -- The loop of findNextName and findPrevName, along the walk. `none` is for out of fuel.
  unfoldable pub find_name :
      ℕ → Walk cs → (ℕ → Bool) → String → cs.Cursor → Option (cs.Cursor × Option ThingValue)
  unfolding check_parts found_value
  find_name zero walk is_past name c = none
  find_name (suc fuel) walk is_past name c =
      let moved = (walk.step c).0 in
      let rest = find_name fuel walk is_past name moved in
      elim (walk.step c).1 [
        | none ↦ some (moved, none)
        | some (k, v) ↦ elim (check_parts dec is_past name (split b'/' k)) [
          | Verdict.skipped ↦ rest
          | Verdict.passed ↦ some ((walk.undo moved).0, none)
          | Verdict.matched ↦ some (moved, found_value (decode_value dec (cs.bucket_id moved) k v))
        ]
      ]

  unfoldable pub find_next_name :
      ℕ → cs.Cursor → String → ℕ → Option (cs.Cursor × Option ThingValue)
  unfolding find_name
  find_next_name fuel c name until = find_name fuel (forward cs) (λ t. ltb until t) name c

  -- The zero time of Go is before every time of a value, as 0 is.
  unfoldable pub find_prev_name :
      ℕ → cs.Cursor → String → ℕ → Option (cs.Cursor × Option ThingValue)
  unfolding find_name
  find_prev_name fuel c name until = find_name fuel (backward cs) (λ t. ltb t until) name c
