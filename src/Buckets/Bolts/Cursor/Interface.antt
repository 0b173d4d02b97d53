-- ===== src/Buckets/Bolts/Cursor/Interface.antt =====
-- BBoltCursor of done_tool/buckets/bolts/BBoltCursor.go as an IBucketCursor of IBucketStore.go.

use done_rest.Buckets.Api.{BucketCursors}
use done_rest.Buckets.Bolts.Cursor.{
  BoltCursors, BBoltCursor, first, last, next, prev, seek, next_n, place_of, entries_of,
}
use done_rest.Buckets.Bolts.Cursor.Moves.{
  next-none, next-some, prev-none, prev-some, first-context, next-context, prev-context, first-none,
  first-some,
}

module _ (bolt : BoltCursors) where
  -- The wrapper keeps what bbolt documents, so that its cursors are those of the interface.
  abbrev pub bolt_cursors : BucketCursors
  bolt_cursors = record {
    Cursor = BBoltCursor bolt.RawCursor;
    bucket_id = λ c. c.bucket_id;
    context = λ c. c.context;
    first = first bolt;
    last = last bolt;
    next = next bolt;
    prev = prev bolt;
    seek = seek bolt;
    next_n = next_n bolt;
    place = place_of bolt;
    entries = entries_of bolt;
    first-none = λ c. first-none bolt c.cursor c.bucket_id c.context;
    first-some = λ c. first-some bolt c.cursor c.bucket_id c.context;
    next-none = next-none bolt;
    next-some = next-some bolt;
    prev-none = prev-none bolt;
    prev-some = prev-some bolt;
    bucket_id-first = λ c. (first-context bolt c).0;
    bucket_id-next = λ c. (next-context bolt c).0;
    bucket_id-prev = λ c. (prev-context bolt c).0;
    context-next = λ c. (next-context bolt c).1;
    context-prev = λ c. (prev-context bolt c).1;
  }
