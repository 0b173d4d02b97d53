-- ===== src/Hist/Cursors/Service.antt =====
-- The operations of ReadHistoryService on cursors, in HistoryCursor.go and ReadHistoryService.go of
-- done_mod/mod_hist/hist_srv.

use done_rest.Prelude.{
  ℕ, zero, suc, String, Bool, true, false, not, ◌&&◌, Option, none, some, List, [], ◌∷◌, ◌/=◌,
  if◌then◌else◌, lookup, insert,
}
use done_rest.Errors.{Error}
use done_rest.Buckets.Api.{BucketCursors, Entry}
use done_rest.Buckets.CursorCache.{CursorCache, get}
use done_rest.Hist.{ThingValue}
use done_rest.Hist.Encoding.{Decimal, Decoded, invalid, panics, value, decode_value}
use done_rest.Hist.Cursors.{find_next_name, find_prev_name}

pub record CursorSingleResp : Type 0 where
  pub value : Option ThingValue
  pub valid : Bool

-- The values are pointers in the source.
pub record CursorNResp : Type 0 where
  pub values : List (Option ThingValue)
  pub items_remaining : Bool

-- A request for a cursor: by whom, with which key, and the time, for the cache from Go's zero time
-- on and for the values in milliseconds after the epoch.
pub record CursorCall : Type 0 where
  pub sender_id : String
  pub cursor_key : String
  pub used_at : ℕ
  pub now : ℕ

-- Where a cursor goes and the value that it finds, unless the fuel ends or a key makes it panic.
pub data Move (Cursor : Type 0) : Type 0 where
  out_of_fuel broken : Move Cursor
  moved : Cursor → Option ThingValue → Move Cursor

-- The new cache and Go's two results, of which the first is nil or not.
pub data Reply (Cursor Bucket R : Type 0) : Type 0 where
  unfinished panicking : Reply Cursor Bucket R
  replied : CursorCache Cursor Bucket → Option R → Option Error → Reply Cursor Bucket R

unfoldable pub single : Option ThingValue → CursorSingleResp
single none = record { value = none; valid = false }
single (some tv) = record { value = some tv; valid = true }

module _ (dec : Decimal) (cs : BucketCursors) where
  -- With the value of the cursor's entry, and what the search would find.
  unfoldable pub settle :
      cs.Cursor → Decoded → Option (cs.Cursor × Option ThingValue) → Move cs.Cursor
  settle c invalid found = moved c none
  settle c panics found = broken
  settle c (value tv) found =
      if cs.context c /= "" && cs.context c /= tv.name
      then elim found [ none ↦ out_of_fuel | some (d, result) ↦ moved d result ]
      else moved c (some tv)

  unfoldable pub arrive :
      (cs.Cursor → Option (cs.Cursor × Option ThingValue))
      → cs.Cursor × Option Entry
      → Move cs.Cursor
  unfolding settle
  arrive find (c, none) = moved c none
  arrive find (c, some (k, v)) = settle c (decode_value dec (cs.bucket_id c) k v) (find c)

module _ (cs : BucketCursors) {Bucket : Type 0} where
  -- The cache holds a pointer to the cursor that moved.
  unfoldable pub put_cursor :
      String → cs.Cursor → CursorCache cs.Cursor Bucket → CursorCache cs.Cursor Bucket
  put_cursor key c cc = elim (lookup key cc.cursors_by_key) [
    | none ↦ cc
    | some info ↦ record cc {
      cursors_by_key = insert key (record info { cursor = c }) cc.cursors_by_key;
    }
  ]

  unfoldable pub reply :
      String
      → CursorCache cs.Cursor Bucket
      → Move cs.Cursor
      → Reply cs.Cursor Bucket CursorSingleResp
  unfolding single put_cursor
  reply key cc out_of_fuel = unfinished
  reply key cc broken = panicking
  reply key cc (moved c result) = replied (put_cursor key c cc) (some (single result)) none

  unfoldable pub with_cursor :
      (cs.Cursor → CursorCache cs.Cursor Bucket → Reply cs.Cursor Bucket CursorSingleResp)
      → CursorCache cs.Cursor Bucket × Option cs.Cursor × Option Error
      → Reply cs.Cursor Bucket CursorSingleResp
  with_cursor use_cursor (cc, c, some e) = replied cc none (some e)
  with_cursor use_cursor (cc, none, none) = panicking
  with_cursor use_cursor (cc, some c, none) = use_cursor c cc

  -- The cursor of the request is moved.
  unfoldable pub on_cursor :
      (cs.Cursor → Move cs.Cursor)
      → CursorCall
      → CursorCache cs.Cursor Bucket
      → Reply cs.Cursor Bucket CursorSingleResp
  unfolding with_cursor reply
  on_cursor move call cc =
      with_cursor (λ c kept. reply call.cursor_key kept (move c))
        (get call.used_at call.cursor_key call.sender_id true cc)

  -- The rest of a batch after one value.
  unfoldable pub prepend :
      Option ThingValue → Reply cs.Cursor Bucket CursorNResp → Reply cs.Cursor Bucket CursorNResp
  prepend result unfinished = unfinished
  prepend result panicking = panicking
  prepend result (replied cc none err) = replied cc none err
  prepend result (replied cc (some resp) err) =
      replied cc (some (record resp { values = result ∷ resp.values })) err

  -- The loop of NextN and PrevN: a nil response of the step is dereferenced.
  unfoldable pub batch :
      (CursorCache cs.Cursor Bucket → Reply cs.Cursor Bucket CursorSingleResp)
      → ℕ
      → CursorCache cs.Cursor Bucket
      → Reply cs.Cursor Bucket CursorNResp
  unfolding prepend
  batch step zero cc = replied cc (some (record { values = []; items_remaining = true })) none
  batch step (suc count) cc = elim (step cc) [
    | unfinished ↦ unfinished
    | panicking ↦ panicking
    | replied after response err ↦ elim response [
      | none ↦ panicking
      | some resp ↦ elim (not resp.valid) [
        | true ↦ replied after (some (record { values = []; items_remaining = false })) none
        | false ↦ elim err [
          | some e ↦ replied after (some (record { values = []; items_remaining = false })) none
          | none ↦ prepend resp.value (batch step count after)
        ]
      ]
    ]
  ]

module _ (dec : Decimal) (cs : BucketCursors) {Bucket : Type 0} where
  -- The time limit is the present.
  unfoldable pub next :
      ℕ → CursorCall → CursorCache cs.Cursor Bucket → Reply cs.Cursor Bucket CursorSingleResp
  unfolding on_cursor arrive
  next fuel call =
      on_cursor cs
        (λ c. arrive dec cs (λ d. find_next_name dec cs fuel d (cs.context d) call.now) (cs.next c))
        call

  unfoldable pub prev :
      ℕ → CursorCall → CursorCache cs.Cursor Bucket → Reply cs.Cursor Bucket CursorSingleResp
  unfolding on_cursor arrive
  prev fuel call =
      on_cursor cs
        (λ c. arrive dec cs (λ d. find_prev_name dec cs fuel d (cs.context d) 0) (cs.prev c)) call

  unfoldable pub last :
      ℕ → CursorCall → CursorCache cs.Cursor Bucket → Reply cs.Cursor Bucket CursorSingleResp
  unfolding on_cursor arrive
  last fuel call =
      on_cursor cs
        (λ c. arrive dec cs (λ d. find_prev_name dec cs fuel d (cs.context d) 0) (cs.last c)) call

  -- `format` is strconv.FormatInt with base 10 of the time to seek.
  unfoldable pub seek :
      ℕ → ℕ → CursorCall → CursorCache cs.Cursor Bucket → Reply cs.Cursor Bucket CursorSingleResp
  unfolding on_cursor arrive
  seek fuel time_stamp_msec call =
      on_cursor cs
        (λ c.
          arrive dec cs (λ d. find_next_name dec cs fuel d (cs.context d) call.now)
            (cs.seek (dec.format_int time_stamp_msec) c))
        call

  first_reply :
      ℕ
      → CursorCall
      → CursorCache cs.Cursor Bucket
      → cs.Cursor × Option Entry
      → Reply cs.Cursor Bucket CursorSingleResp
  unfolding arrive reply
  first_reply fuel call cc (c, none) = replied (put_cursor cs call.cursor_key c cc) none none
  first_reply fuel call cc (c, some e) =
      reply cs call.cursor_key cc
        (arrive dec cs (λ d. find_next_name dec cs fuel d (cs.context d) call.now) (c, some e))

  -- Of an empty bucket the response is nil.
  unfoldable pub first :
      ℕ → CursorCall → CursorCache cs.Cursor Bucket → Reply cs.Cursor Bucket CursorSingleResp
  unfolding first_reply with_cursor
  first fuel call cc =
      with_cursor cs (λ c kept. first_reply fuel call kept (cs.first c))
        (get call.used_at call.cursor_key call.sender_id true cc)

  -- The limit is not negative: a negative one makes the source panic.
  unfoldable pub next_n :
      ℕ → ℕ → CursorCall → CursorCache cs.Cursor Bucket → Reply cs.Cursor Bucket CursorNResp
  unfolding batch next
  next_n fuel limit call = batch cs (next fuel call) limit

  unfoldable pub prev_n :
      ℕ → ℕ → CursorCall → CursorCache cs.Cursor Bucket → Reply cs.Cursor Bucket CursorNResp
  unfolding batch prev
  prev_n fuel limit call = batch cs (prev fuel call) limit
