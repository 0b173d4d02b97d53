-- ===== src/Dir/Cursors.antt =====
-- The cursors of the directory, in DirectoryCursor.go of done_mod/mod_dir/dir_srv.
use done_rest.Prelude.{
  ℕ, String, Bool, true, ◌≡◌, refl, ap, Option, none, some, List, [], ◌∷◌, Dict, lookup, length,
  ltb, if◌then◌else◌, ◌==◌, arith, eq_iff, remove, lookup-remove,
}
use done_rest.Errors.{Error}
use done_rest.Buckets.Api.{BucketCursors, Entry}
use done_rest.Buckets.CursorCache.{CursorCache, get, release}
use done_rest.Transport.Split.{split}
use done_rest.Hist.{ThingValue}
use done_rest.Hist.Cursors.Service.{CursorCall, put_cursor}
use done_rest.Hist.Cursors.Batches.{Holding}
use done_rest.Dir.{ValueJson}

-- A value and its validity; an error of JSON is dropped.
unfoldable pub decode_td : ValueJson → String → String → Option ThingValue
decode_td json key doc =
    if ltb (length (split b'/' key)) 2 then none else some (json.unmarshal_value doc).0

-- The values that can be decoded, and the last error.
unfoldable pub decode_docs : ValueJson → Dict String → Option Error → List ThingValue × Option Error
decode_docs json [] err = ([], err)
decode_docs json ((key, doc) ∷ docs) err = elim (json.unmarshal_value doc).1 [
  | some e ↦ decode_docs json docs (some e)
  | none ↦
      let (values, last) = decode_docs json docs err in
      ((json.unmarshal_value doc).0 ∷ values, last)
]

-- The cache, the response or nil, and the error. First and Next respond with a value that may be
-- invalid.
abbrev pub Answer : Type 0 → Type 0 → Type 0 → Type 0
Answer Cursor Bucket A = CursorCache Cursor Bucket × Option A × Option Error

module _ (json : ValueJson) (cs : BucketCursors) {Bucket : Type 0} where
  with_found :
      (cs.Cursor → CursorCache cs.Cursor Bucket → Answer cs.Cursor Bucket (Option ThingValue))
      → CursorCache cs.Cursor Bucket × Option cs.Cursor × Option Error
      → Answer cs.Cursor Bucket (Option ThingValue)
  with_found use_cursor (kept, c, some e) = (kept, none, some e)
  with_found use_cursor (kept, none, none) = (kept, none, some Error.panicked)
  with_found use_cursor (kept, some c, none) = use_cursor c kept

  -- Of an empty store the response is nil.
  first_found :
      String
      → CursorCache cs.Cursor Bucket
      → cs.Cursor × Option Entry
      → Answer cs.Cursor Bucket (Option ThingValue)
  unfolding put_cursor decode_td
  first_found key kept (c, none) = (put_cursor cs key c kept, none, none)
  first_found key kept (c, some (k, v)) =
      (put_cursor cs key c kept, some (decode_td json k v), none)

  unfoldable pub first_td :
      CursorCall → CursorCache cs.Cursor Bucket → Answer cs.Cursor Bucket (Option ThingValue)
  unfolding with_found first_found
  first_td call cached =
      with_found (λ c kept. first_found call.cursor_key kept (cs.first c))
        (get call.used_at call.cursor_key call.sender_id true cached)

  -- At the end the key is empty, and the value invalid.
  next_found :
      String
      → CursorCache cs.Cursor Bucket
      → cs.Cursor × Option Entry
      → Answer cs.Cursor Bucket (Option ThingValue)
  unfolding put_cursor decode_td
  next_found key kept (c, none) = (put_cursor cs key c kept, some (decode_td json "" ""), none)
  next_found key kept (c, some (k, v)) = (put_cursor cs key c kept, some (decode_td json k v), none)

  unfoldable pub next_td :
      CursorCall → CursorCache cs.Cursor Bucket → Answer cs.Cursor Bucket (Option ThingValue)
  unfolding with_found next_found
  next_td call cached =
      with_found (λ c kept. next_found call.cursor_key kept (cs.next c))
        (get call.used_at call.cursor_key call.sender_id true cached)

  next_n_found :
      String
      → ℕ
      → CursorCache cs.Cursor Bucket × Option cs.Cursor × Option Error
      → Answer cs.Cursor Bucket (List ThingValue × Bool)
  unfolding put_cursor decode_docs
  next_n_found key limit (kept, c, some e) = (kept, none, some e)
  next_n_found key limit (kept, none, none) = (kept, none, some Error.panicked)
  next_n_found key limit (kept, some c, none) =
      let (moved, docs, remaining) = cs.next_n limit c in
      let (values, err) = decode_docs json docs none in
      (put_cursor cs key moved kept, some (values, remaining), err)

  unfoldable pub next_n_tds :
      ℕ
      → CursorCall
      → CursorCache cs.Cursor Bucket
      → Answer cs.Cursor Bucket (List ThingValue × Bool)
  unfolding next_n_found
  next_n_tds limit call cached =
      next_n_found call.cursor_key limit
        (get call.used_at call.cursor_key call.sender_id true cached)

module _ (cs : BucketCursors) {Bucket : Type 0} where
  -- The key and the client stand in the other order than in the cache's Release.
  unfoldable pub release_td_cursor :
      CursorCall → CursorCache cs.Cursor Bucket → CursorCache cs.Cursor Bucket × Option Error
  unfolding release
  release_td_cursor call cached = release call.cursor_key call.sender_id cached

  released_nothing :
      (call : CursorCall) (cached : CursorCache cs.Cursor Bucket)
      → lookup call.sender_id cached.cursors_by_key ≡ none
      → release_td_cursor call cached ≡ (cached, none)
  unfolding release_td_cursor
  released_nothing call cached missing = rw (missing, release) refl

  -- A cursor that is cached for its sender, whose ID is no key of the cache: after the directory's
  -- Release of it there is no error and the sender still gets the cursor, while after the cache's
  -- Release by the sender the key gives no cursor.
  pub get-release_td_cursor :
      (call : CursorCall) (cached : CursorCache cs.Cursor Bucket) (c : cs.Cursor)
      → Holding cs call cached c
      → lookup call.sender_id cached.cursors_by_key ≡ none
      → let try = get call.used_at call.cursor_key call.sender_id true in
        ((release_td_cursor call cached).1 ≡ none)
        × ((try (release_td_cursor call cached).0).1 ≡ some c)
        × ((try (release call.sender_id call.cursor_key cached).0).1 ≡ none)
  unfolding get release
  get-release_td_cursor call cached c (info, found, is_it, owned) missing =
      let mine : (info.owner_id == call.sender_id) ≡ true =
        ground (arith, eq_iff info.owner_id call.sender_id) in
      let key = call.cursor_key in
      let gone : lookup key (remove key cached.cursors_by_key) ≡ none =
        ground (arith, eq_iff key key, lookup-remove key key cached.cursors_by_key) in
      (
        rw (released_nothing call cached missing) refl,
        rw (released_nothing call cached missing) (rw (found, get, mine) (ap (λ x. some x) is_it)),
        rw (found, release, mine, gone, get) refl,
      )
