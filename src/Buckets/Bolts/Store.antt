-- ===== src/Buckets/Bolts/Store.antt =====
-- done_tool/buckets/bolts/BoltStore.go: the store on bbolt.
pub mod Interface
use done_rest.Prelude.{ℕ, ◌+◌, ◌-◌, ◌%◌, ◌^◌, String, Option, none, some, List, Dict, ◌⊎◌, inl, inr}
use done_rest.Errors.{Error}
use done_rest.Buckets.Bolts.Bucket.{BoltDatabase}
use done_rest.Buckets.Bolts.Bucket as Bucket

-- The database is nil until the store is opened. The count is an int32, read here without a sign.
pub record BoltStore (Db : Type 0) : Type 0 where
  pub bolt_db : Db
  pub store_path : String
  pub bucket_ref_count : ℕ

module _ {Db : Type 0} where
  unfoldable pub new_bolt_store : Db → String → BoltStore Db
  new_bolt_store unopened store_path = record {
    bolt_db = unopened;
    store_path = store_path;
    bucket_ref_count = 0;
  }

  -- A bucket is its ID here; its database is that of the store.
  abbrev pub get_bucket : String → BoltStore Db → BoltStore Db
  get_bucket bucket_id store = record store {
    bucket_ref_count = (store.bucket_ref_count + 1) % 2 ^ 32;
  }

  abbrev pub on_bucket_released : BoltStore Db → BoltStore Db
  on_bucket_released store = record store {
    bucket_ref_count = (store.bucket_ref_count + (2 ^ 32 - 1)) % 2 ^ 32;
  }

  -- `Close` of a bucket.
  abbrev pub close_bucket : String → BoltStore Db → BoltStore Db × Option Error
  close_bucket bucket_id store = (on_bucket_released store, none)

  -- An error of making the folder is logged only. `bolt_open` is bbolt.Open, which returns nil beside
  -- an error.
  unfoldable pub open_store :
      Db
      → (String → Option Error)
      → (String → Db ⊎ Error)
      → BoltStore Db
      → BoltStore Db × Option Error
  open_store unopened make_folder bolt_open store = elim (bolt_open store.store_path) [
    | inl db ↦ (record store { bolt_db = db }, none)
    | inr e ↦ (record store { bolt_db = unopened }, some e)
  ]

  -- A write and a read of a bucket, on the database of the store.
  abbrev pub write_db : (Db → Db × Option Error) → BoltStore Db → BoltStore Db × Option Error
  write_db operation store =
      (record store { bolt_db = (operation store.bolt_db).0 }, (operation store.bolt_db).1)

  abbrev pub read_db :
      {A : Type 0} → (Db → Db × A × Option Error) → BoltStore Db → BoltStore Db × A × Option Error
  read_db operation store =
      let (after, val, err) = operation store.bolt_db in
      (record store { bolt_db = after }, val, err)
