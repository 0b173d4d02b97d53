-- ===== src/Buckets/Bolts/Store/Interface.antt =====
-- BoltStore and BoltBucket of done_tool/buckets/bolts as an IBucketStore and its IBuckets.
use done_rest.Prelude.{◌%◌, ◌^◌, refl, arith}
use done_rest.Buckets.Stores.{BucketStore}
use done_rest.Buckets.Bolts.Bucket.{BoltDatabase, delete, get, get_multiple, set, set_multiple}
use done_rest.Buckets.Bolts.Bucket.Transactions.{
  db_holds-delete, db_holds-get, db_holds-get_multiple, db_holds-set, db_holds-set_multiple,
  get-db_holds,
}
use done_rest.Buckets.Bolts.Store.{BoltStore, get_bucket, close_bucket, write_db, read_db}

module _ (bolt : BoltDatabase) where
  abbrev pub bolt_store : BucketStore
  bolt_store = record {
    Store = BoltStore bolt.Db;
    get_bucket = get_bucket;
    close_bucket = close_bucket;
    delete = λ id key. write_db (delete bolt id key);
    get = λ id key. read_db (get bolt id key);
    get_multiple = λ id keys. read_db (get_multiple bolt id keys);
    set = λ id key val. write_db (set bolt id key val);
    set_multiple = λ id docs. write_db (set_multiple bolt id docs);
    stored = λ s. bolt.db_holds s.bolt_db;
    open_buckets = λ s. s.bucket_ref_count % 2 ^ 32;
    stored-get_bucket = λ id s. refl;
    stored-close_bucket = λ id s. refl;
    stored-delete = λ id key s. db_holds-delete bolt id key s.bolt_db;
    stored-set = λ id key val s. db_holds-set bolt id key val s.bolt_db;
    stored-set_multiple = λ id docs s. db_holds-set_multiple bolt id docs s.bolt_db;
    stored-get = λ id key s. db_holds-get bolt id key s.bolt_db;
    stored-get_multiple = λ id keys s. db_holds-get_multiple bolt id keys s.bolt_db;
    get-stored = λ id key s fine. get-db_holds bolt id key s.bolt_db fine;
    open_buckets-close_bucket = λ id s t h. omega (arith, h);
    open_buckets-delete = λ id key s. refl;
    open_buckets-get = λ id key s. refl;
    open_buckets-get_multiple = λ id keys s. refl;
    open_buckets-set = λ id key val s. refl;
    open_buckets-set_multiple = λ id docs s. refl;
  }
