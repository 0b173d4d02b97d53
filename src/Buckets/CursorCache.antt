-- ===== src/Buckets/CursorCache.antt =====
-- done_tool/buckets/CursorCache.go: cursors that remote clients use by a key. The store's cursors
-- and buckets are of any type; what is released and closed is recorded in the state.
pub mod Ownership
pub mod Expiry
pub mod Runs
use done_rest.Prelude.{
  ℕ, ◌+◌, ◌-◌, ◌%◌, ◌^◌, String, Bool, Option, none, some, List, [], ◌∷◌, ◌++◌, Dict, lookup,
  insert, remove, values, ltb, ◌==◌, ◌/=◌, if◌then◌else◌,
}
use done_rest.Errors.{Error}

-- Times are counted from Go's zero time, which is the last use until there is one.
pub record CursorInfo (Cursor Bucket : Type 0) : Type 0 where
  pub key : String
  pub bucket : Option Bucket
  pub cursor : Cursor
  pub owner_id : String
  pub last_used : ℕ
  pub lifespan : ℕ

pub data Freed (Cursor Bucket : Type 0) : Type 0 where
  released : Cursor → Freed Cursor Bucket
  closed : Bucket → Freed Cursor Bucket

pub record CursorCache (Cursor Bucket : Type 0) : Type 0 where
  pub cursors_by_key : Dict (CursorInfo Cursor Bucket)
  pub cursor_counter : ℕ
  pub freed : List (Freed Cursor Bucket)

module _ {Cursor Bucket : Type 0} where
  unfoldable pub new_cursor_cache : CursorCache Cursor Bucket
  new_cursor_cache = record { cursors_by_key = []; cursor_counter = 1; freed = [] }

  -- `format` is strconv.FormatUint with base 16. The counter is a uint64.
  unfoldable pub add :
      (ℕ → String)
      → Cursor
      → Option Bucket
      → String
      → ℕ
      → CursorCache Cursor Bucket
      → CursorCache Cursor Bucket × String
  add format cursor bucket client_id lifespan cc =
      let counter = (cc.cursor_counter + 1) % 2 ^ 64 in
      let key = format counter in
      let info : CursorInfo Cursor Bucket = record {
        key = key;
        bucket = bucket;
        cursor = cursor;
        owner_id = client_id;
        last_used = 0;
        lifespan = lifespan;
      } in
      (
        record cc { cursors_by_key = insert key info cc.cursors_by_key; cursor_counter = counter },
        key,
      )

  -- Go returns nil beside an error.
  unfoldable pub get :
      ℕ
      → String
      → String
      → Bool
      → CursorCache Cursor Bucket
      → CursorCache Cursor Bucket × Option Cursor × Option Error
  get now cursor_key client_id update_last_used cc = elim (lookup cursor_key cc.cursors_by_key) [
    | none ↦ (cc, none, some Error.cursor_not_found)
    | some info ↦
        if info.owner_id /= client_id
        then (cc, none, some Error.not_the_owner)
        else if update_last_used
        then (
          record cc {
            cursors_by_key = insert cursor_key (record info { last_used = now }) cc.cursors_by_key;
          },
          some info.cursor,
          none,
        )
        else (cc, some info.cursor, none)
  ]

  -- Go's duration may be negative; `now` is not before the last use.
  unfoldable pub expired : ℕ → List (CursorInfo Cursor Bucket) → List (CursorInfo Cursor Bucket)
  expired now [] = []
  expired now (info ∷ rest) =
      let others = expired now rest in
      if ltb info.lifespan (now - info.last_used) then info ∷ others else others

  unfoldable pub get_expired_cursors :
      ℕ → CursorCache Cursor Bucket → List (CursorInfo Cursor Bucket)
  unfolding expired
  get_expired_cursors now cc = expired now (values cc.cursors_by_key)

  unfoldable pub owned : String → List (CursorInfo Cursor Bucket) → List (CursorInfo Cursor Bucket)
  owned owner_id [] = []
  owned owner_id (info ∷ rest) =
      let others = owned owner_id rest in
      if info.owner_id == owner_id then info ∷ others else others

  unfoldable pub get_cursors_by_owner :
      String → CursorCache Cursor Bucket → List (CursorInfo Cursor Bucket)
  unfolding owned
  get_cursors_by_owner owner_id cc = owned owner_id (values cc.cursors_by_key)

  -- What `Release` frees: the cursor, and the bucket if there is one.
  unfoldable pub freed_by : CursorInfo Cursor Bucket → List (Freed Cursor Bucket)
  freed_by info = elim info.bucket [
    | none ↦ released info.cursor ∷ []
    | some b ↦ released info.cursor ∷ closed b ∷ []
  ]

  -- An error of closing the bucket is logged only.
  unfoldable pub release :
      String → String → CursorCache Cursor Bucket → CursorCache Cursor Bucket × Option Error
  release client_id cursor_key cc = elim (lookup cursor_key cc.cursors_by_key) [
    | none ↦ (cc, none)
    | some info ↦ if info.owner_id /= client_id then (cc, some Error.not_the_owner) else (
      record cc {
        cursors_by_key = remove cursor_key cc.cursors_by_key;
        freed = cc.freed ++ freed_by info;
      },
      none,
    )
  ]

  unfoldable pub release_all :
      List (CursorInfo Cursor Bucket) → CursorCache Cursor Bucket → CursorCache Cursor Bucket
  unfolding release
  release_all [] cc = cc
  release_all (info ∷ rest) cc = release_all rest (release info.owner_id info.key cc).0

  -- One round of the background loop of `Start`.
  unfoldable pub release_expired : ℕ → CursorCache Cursor Bucket → CursorCache Cursor Bucket
  unfolding release_all
  release_expired now cc = release_all (get_expired_cursors now cc) cc
