-- ===== src/Hist/Cursors/Opening.antt =====
-- The opening and releasing of cursors in ReadHistoryService.go and HistoryCursor.go of
-- done_mod/mod_hist/hist_srv.
use Prim.Native.String.{◌++◌ as append_text}
use done_rest.Prelude.{ℕ, String, ◌||◌, Option, none, some, ◌==◌, if◌then◌else◌, ◌⊎◌, inl, inr}
use done_rest.Errors.{Error}
use done_rest.Buckets.Api.{BucketCursors}
use done_rest.Buckets.CursorCache.{CursorCache, add, release}
use done_rest.Hist.Encoding.{slash}
use done_rest.Hist.Cursors.Service.{CursorCall}

-- In nanoseconds.
abbrev pub minute : ℕ
minute = 60_000_000_000

module _ (cs : BucketCursors) {Bucket : Type 0} where
  unfoldable pub release_cursor :
      CursorCall → CursorCache cs.Cursor Bucket → CursorCache cs.Cursor Bucket × Option Error
  unfolding release
  release_cursor call = release call.sender_id call.cursor_key

  add_opened :
      (ℕ → String)
      → String
      → Bucket
      → CursorCache cs.Cursor Bucket
      → cs.Cursor ⊎ Error
      → CursorCache cs.Cursor Bucket × Option String × Option Error
  unfolding add
  add_opened format sender_id bucket cc (inr e) = (cc, none, some e)
  add_opened format sender_id bucket cc (inl c) =
      let added = add format c (some bucket) sender_id minute cc in (added.0, some added.1, none)

  -- `open_cursor` is `Cursor` of the bucket that the store has under an ID, with the name to filter
  -- on as the context; `format` is strconv.FormatUint with base 16.
  unfoldable pub get_cursor :
      (ℕ → String)
      → (String → Bucket)
      → (Bucket → String → cs.Cursor ⊎ Error)
      → String
      → String
      → String
      → String
      → CursorCache cs.Cursor Bucket
      → CursorCache cs.Cursor Bucket × Option String × Option Error
  unfolding add_opened
  get_cursor format get_bucket open_cursor sender_id agent_id thing_id name cc =
      let bucket = get_bucket (append_text agent_id (String.◌∷◌ slash thing_id)) in
      if agent_id == "" || thing_id == ""
      then (cc, none, some Error.missing_address)
      else add_opened format sender_id bucket cc (open_cursor bucket name)
