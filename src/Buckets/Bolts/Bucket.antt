-- ===== src/Buckets/Bolts/Bucket.antt =====
-- done_tool/buckets/bolts/BoltBucket.go: the buckets of the store on bbolt.
pub mod Transactions
use done_rest.Prelude.{
  ℕ, String, Bool, true, false, ◌≡◌, ◌⊎◌, inl, inr, Option, none, some, List, [], ◌∷◌, Dict, insert,
  ◌==◌, if◌then◌else◌,
}
use done_rest.Errors.{Error}
use done_rest.Buckets.Stores.{Holdings, placed, outcome}

-- bbolt's DB, transactions and buckets, with what its documentation says of them: a transaction
-- starts from what the database holds, its writes are in the transaction only, a commit without an
-- error puts them into the database, and one with an error or a rollback leaves the database.
pub record BoltDatabase : Type 1 where
  pub Db : Type 0
  pub Tx : Type 0
  pub begin : Bool → Db → Tx ⊎ Error
  pub create_bucket_if_not_exists : String → Tx → Tx × Option Error
  pub has_bucket : String → Tx → Bool
  pub get_key : String → String → Tx → Option String
  pub put_key : String → String → String → Tx → Tx × Option Error
  pub delete_key : String → String → Tx → Tx × Option Error
  pub commit : Tx → Db → Db × Option Error
  pub rollback : Tx → Db → Db
  pub db_holds : Db → Holdings
  pub tx_holds : Tx → Holdings
  pub tx_holds-begin :
      (writable : Bool) (db : Db) (tx : Tx) → begin writable db ≡ inl tx → tx_holds tx ≡ db_holds db
  pub tx_holds-create :
      (id : String) (tx : Tx) → tx_holds (create_bucket_if_not_exists id tx).0 ≡ tx_holds tx
  pub get_key-tx_holds : (id key : String) (tx : Tx) → get_key id key tx ≡ tx_holds tx id key
  pub missing_bucket :
      (id key : String) (tx : Tx) → has_bucket id tx ≡ false → tx_holds tx id key ≡ none
  pub tx_holds-put_key :
      (id key val : String) (tx : Tx)
      → (put_key id key val tx).1 ≡ none
      → tx_holds (put_key id key val tx).0 ≡ placed id key (some val) (tx_holds tx)
  pub tx_holds-delete_key :
      (id key : String) (tx : Tx)
      → (delete_key id key tx).1 ≡ none
      → tx_holds (delete_key id key tx).0 ≡ placed id key none (tx_holds tx)
  pub db_holds-commit :
      (tx : Tx) (db : Db)
      → db_holds (commit tx db).0 ≡ outcome (commit tx db).1 (tx_holds tx) (db_holds db)
  pub db_holds-rollback : (tx : Tx) (db : Db) → db_holds (rollback tx db) ≡ db_holds db

module _ (bolt : BoltDatabase) {A : Type 0} where
  -- The end of the transaction, after the callback.
  unfoldable pub end_transaction :
      Bool → bolt.Db → bolt.Tx × A × Option Error → bolt.Db × A × Option Error
  end_transaction writable db (tx, val, some e) = (bolt.rollback tx db, val, some e)
  end_transaction true db (tx, val, none) = ((bolt.commit tx db).0, val, (bolt.commit tx db).1)
  end_transaction false db (tx, val, none) = (bolt.rollback tx db, val, none)

  -- The callback, if there is a bucket: its writes, what it reads, and its error. `unread` is what
  -- is read without a callback.
  unfoldable pub called_back :
      Bool
      → String
      → A
      → (bolt.Tx → bolt.Tx × A × Option Error)
      → bolt.Tx
      → bolt.Tx × A × Option Error
  called_back true id unread callback tx = elim (bolt.create_bucket_if_not_exists id tx).1 [
    | some e ↦ ((bolt.create_bucket_if_not_exists id tx).0, unread, some e)
    | none ↦ callback (bolt.create_bucket_if_not_exists id tx).0
  ]
  called_back false id unread callback tx = elim (bolt.has_bucket id tx) [
    | true ↦ callback tx
    | false ↦ (tx, unread, none)
  ]

  unfoldable pub bucket_transaction :
      Bool
      → String
      → A
      → (bolt.Tx → bolt.Tx × A × Option Error)
      → bolt.Db
      → bolt.Db × A × Option Error
  unfolding end_transaction called_back
  bucket_transaction writable id unread callback db = elim (bolt.begin writable db) [
    | inr e ↦ (db, unread, some e)
    | inl tx ↦ end_transaction writable db (called_back writable id unread callback tx)
  ]

module _ (bolt : BoltDatabase) where
  -- A transaction that only writes.
  unfoldable pub write_transaction :
      String → (bolt.Tx → bolt.Tx × Option Error) → bolt.Db → bolt.Db × Option Error
  unfolding bucket_transaction
  write_transaction id write db =
      let (after, read, err) =
        bucket_transaction bolt true id tt (λ tx. ((write tx).0, tt, (write tx).1)) db in
      (after, err)

  unfoldable pub delete : String → String → bolt.Db → bolt.Db × Option Error
  unfolding write_transaction
  delete id key = write_transaction id (bolt.delete_key id key)

  -- A key that is not there is an error; a bucket that was never written has nil for every key.
  unfoldable pub get_value : String → String → bolt.Tx → bolt.Tx × Option String × Option Error
  get_value id key tx = elim (bolt.get_key id key tx) [
    | some v ↦ (tx, some v, none)
    | none ↦ (tx, none, some Error.key_not_found)
  ]

  unfoldable pub get : String → String → bolt.Db → bolt.Db × Option String × Option Error
  unfolding bucket_transaction get_value
  get id key = bucket_transaction bolt false id none (get_value id key)

  -- The documents of the keys that are there.
  unfoldable pub get_existing : String → List String → bolt.Tx → Dict String
  get_existing id [] tx = []
  get_existing id (key ∷ keys) tx =
      let rest = get_existing id keys tx in
      elim (bolt.get_key id key tx) [ none ↦ rest | some v ↦ insert key v rest ]

  unfoldable pub get_multiple :
      String → List String → bolt.Db → bolt.Db × Dict String × Option Error
  unfolding bucket_transaction get_existing
  get_multiple id keys =
      bucket_transaction bolt false id [] (λ tx. (tx, get_existing id keys tx, none))

  unfoldable pub set : String → String → String → bolt.Db → bolt.Db × Option Error
  unfolding write_transaction
  set id key val = write_transaction id (bolt.put_key id key val)

  -- The loop ends at the first error.
  unfoldable pub put_docs : String → Dict String → bolt.Tx → bolt.Tx × Option Error
  put_docs id [] tx = (tx, none)
  put_docs id ((k, v) ∷ docs) tx = elim (bolt.put_key id k v tx).1 [
    | some e ↦ ((bolt.put_key id k v tx).0, some e)
    | none ↦ put_docs id docs (bolt.put_key id k v tx).0
  ]

  unfoldable pub set_multiple : String → Dict String → bolt.Db → bolt.Db × Option Error
  unfolding write_transaction put_docs
  set_multiple id docs = write_transaction id (put_docs id docs)
