-- ===== src/Dir/Batches.antt =====
-- The batches of documents and the opening of a cursor in ReadDirectoryService.go of
-- done_mod/mod_dir/dir_srv. Offsets and limits are not negative.
use done_rest.Prelude.{
  ℕ, String, ◌≡◌, refl, Option, none, some, List, [], ◌∷◌, ◌++◌, Dict, ltb, if◌then◌else◌, ◌⊎◌, inl,
  inr,
}
use done_rest.Errors.{Error}
use done_rest.Buckets.Api.{BucketCursors}
use done_rest.Buckets.CursorCache.{CursorCache, add}
use done_rest.Hist.{ThingValue}
use done_rest.Hist.Cursors.Opening.{minute}
use done_rest.Dir.{ValueJson}

module _ (cs : BucketCursors) where
  -- The cursor is used before the error is looked at, and without one the call panics.
  unfoldable pub get_tds_raw : ℕ → ℕ → cs.Cursor ⊎ Error → Dict String ⊎ Error
  get_tds_raw offset limit (inr e) = inr Error.panicked
  get_tds_raw offset limit (inl c) =
      let skipped = if ltb 0 offset then (cs.next_n offset c).0 else c in
      inl (cs.next_n limit skipped).1

-- The values that can be decoded, and the error of the last document.
unfoldable pub decode_batch :
    ValueJson → Dict String → Option Error → List ThingValue × Option Error
decode_batch json [] err = ([], err)
decode_batch json ((key, doc) ∷ docs) err =
    let (value, failure) = json.unmarshal_value doc in
    let (values, last) = decode_batch json docs failure in
    (elim failure [ some e ↦ values | none ↦ value ∷ values ], last)

-- The error is that of the last document alone, whatever failed before it.
decode_batch-last :
    (json : ValueJson) (docs : Dict String) (key doc : String) (err : Option Error)
    → (decode_batch json (docs ++ ((key, doc) ∷ [])) err).1 ≡ (json.unmarshal_value doc).1
unfolding decode_batch
decode_batch-last json [] key doc err = refl
decode_batch-last json ((k, d) ∷ docs) key doc err =
    decode_batch-last json docs key doc (json.unmarshal_value d).1

module _ (json : ValueJson) (cs : BucketCursors) where
  -- The documents are those of GetTDsRaw.
  unfoldable pub get_tds : ℕ → ℕ → cs.Cursor ⊎ Error → List ThingValue × Option Error
  unfolding get_tds_raw decode_batch
  get_tds offset limit opened = elim (get_tds_raw cs offset limit opened) [
    | inr e ↦ ([], some e)
    | inl docs ↦ decode_batch json docs none
  ]

-- A cursor lives for a minute.
unfoldable pub get_td_cursor :
    {Cursor Bucket : Type 0}
    → (ℕ → String)
    → Bucket
    → String
    → CursorCache Cursor Bucket
    → Cursor ⊎ Error
    → CursorCache Cursor Bucket × Option String × Option Error
unfolding add
get_td_cursor format bucket sender_id cached (inr e) = (cached, none, some e)
get_td_cursor format bucket sender_id cached (inl c) =
    let added = add format c (some bucket) sender_id minute cached in (added.0, some added.1, none)
