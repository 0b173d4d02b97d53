-- ===== src/Buckets/Bolts/Bucket/Transactions.antt =====
-- What the operations of BoltBucket in done_tool/buckets/bolts/BoltBucket.go do to the database.
use done_rest.Prelude.{
  String, true, false, ◌≡◌, ◌≢◌, refl, sym, ap, ◌∙◌, ◌⊎◌, inl, inr, Option, none, some, List, [],
  ◌∷◌, Dict, Option-cases, Bool-cases, Sum-cases, subst,
}
use done_rest.Errors.{Error}
use done_rest.Buckets.Stores.{Holdings, placed, all_placed, outcome}
use done_rest.Buckets.Bolts.Bucket.{
  BoltDatabase, end_transaction, called_back, bucket_transaction, write_transaction, delete, get,
  get_value, get_multiple, get_existing, set, set_multiple, put_docs,
}

module _ (bolt : BoltDatabase) where
  -- A write within a transaction that makes a change if it has no error.
  abbrev Changes : (bolt.Tx → bolt.Tx × Option Error) → (Holdings → Holdings) → Type 0
  Changes write change =
      (tx : bolt.Tx) → (write tx).1 ≡ none → bolt.tx_holds (write tx).0 ≡ change (bolt.tx_holds tx)

  db_holds-end_transaction :
      {A : Type 0} (db : bolt.Db) (tx : bolt.Tx) (val : A) (err : Option Error) (held : Holdings)
      → bolt.tx_holds tx ≡ held ⊎ (err ≢ none)
      → bolt.db_holds (end_transaction bolt true db (tx, val, err)).0
        ≡ outcome (end_transaction bolt true db (tx, val, err)).2 held (bolt.db_holds db)
  unfolding end_transaction
  db_holds-end_transaction db tx val (some e) held h = bolt.db_holds-rollback tx db
  db_holds-end_transaction db tx val none held (inl h) =
      bolt.db_holds-commit tx db ∙ ap (λ x. outcome (bolt.commit tx db).1 x (bolt.db_holds db)) h
  db_holds-end_transaction db tx val none held (inr h) = absurd (h refl)

  called_back-Changes :
      (id : String) (write : bolt.Tx → bolt.Tx × Option Error) (change : Holdings → Holdings)
      (tx : bolt.Tx)
      → Changes write change
      → let result = called_back bolt true id tt (λ t. ((write t).0, tt, (write t).1)) tx in
        (bolt.tx_holds result.0 ≡ change (bolt.tx_holds tx)) ⊎ (result.2 ≢ none)
  unfolding called_back
  called_back-Changes id write change tx law =
      let made = bolt.create_bucket_if_not_exists id tx in
      elim (Option-cases made.1) [
        | inl fine ↦
            rw (fine, called_back)
              (elim (Option-cases (write made.0).1) [
                | inl good ↦ inl (law made.0 good ∙ ap change (bolt.tx_holds-create id tx))
                | inr (e, bad) ↦ inr (λ h. cc (h, bad))
              ])
        | inr (e, failed) ↦ rw (failed, called_back) (inr (λ h. cc h))
      ]

  db_holds-write_transaction :
      (id : String) (write : bolt.Tx → bolt.Tx × Option Error) (change : Holdings → Holdings)
      (db : bolt.Db)
      → Changes write change
      → bolt.db_holds (write_transaction bolt id write db).0
        ≡ outcome
            (write_transaction bolt id write db).1
            (change (bolt.db_holds db))
            (bolt.db_holds db)
  unfolding write_transaction bucket_transaction called_back end_transaction
  db_holds-write_transaction id write change db law = elim (Sum-cases (bolt.begin true db)) [
    | inl (tx, opened) ↦
        rw (opened, bucket_transaction)
          (let r = called_back bolt true id tt (λ t. ((write t).0, tt, (write t).1)) tx in
            db_holds-end_transaction db r.0 tt r.2 (change (bolt.db_holds db)) (
              subst (λ h. (bolt.tx_holds r.0 ≡ change h) ⊎ (r.2 ≢ none))
                (bolt.tx_holds-begin true db tx opened)
                (called_back-Changes id write change tx law)))
    | inr (e, failed) ↦ rw (failed, bucket_transaction) refl
  ]

  put_docs-Changes :
      (id : String) (docs : Dict String) → Changes (put_docs bolt id docs) (all_placed id docs)
  unfolding put_docs all_placed
  put_docs-Changes id [] tx h = refl
  put_docs-Changes id ((k, v) ∷ docs) tx h =
      let put = bolt.put_key id k v tx in
      elim (Option-cases put.1) [
        | inl fine ↦
            let rest : put_docs bolt id ((k, v) ∷ docs) tx ≡ put_docs bolt id docs put.0 =
              rw (fine, put_docs) refl in
            ap (λ (r : bolt.Tx × Option Error). bolt.tx_holds r.0) rest
            ∙ put_docs-Changes id docs put.0
                (sym (ap (λ (r : bolt.Tx × Option Error). r.1) rest) ∙ h)
            ∙ ap (all_placed id docs) (bolt.tx_holds-put_key id k v tx fine)
        | inr (e, bad) ↦
            let failed : put_docs bolt id ((k, v) ∷ docs) tx ≡ (put.0, some e) =
              rw (bad, put_docs) refl in
            cc (sym (ap (λ (r : bolt.Tx × Option Error). r.1) failed) ∙ h)
      ]

  pub db_holds-delete :
      (id key : String) (db : bolt.Db)
      → bolt.db_holds (delete bolt id key db).0
        ≡ outcome
            (delete bolt id key db).1
            (placed id key none (bolt.db_holds db))
            (bolt.db_holds db)
  unfolding delete
  db_holds-delete id key db =
      db_holds-write_transaction id (bolt.delete_key id key) (placed id key none) db
        (bolt.tx_holds-delete_key id key)

  pub db_holds-set :
      (id key val : String) (db : bolt.Db)
      → bolt.db_holds (set bolt id key val db).0
        ≡ outcome
            (set bolt id key val db).1
            (placed id key (some val) (bolt.db_holds db))
            (bolt.db_holds db)
  unfolding set
  db_holds-set id key val db =
      db_holds-write_transaction id (bolt.put_key id key val) (placed id key (some val)) db
        (bolt.tx_holds-put_key id key val)

  -- SetMultiple writes all of its documents or, with an error, none of them: the database holds the
  -- documents in the bucket and what it held elsewhere, or what it held before.
  pub db_holds-set_multiple :
      (id : String) (docs : Dict String) (db : bolt.Db)
      → bolt.db_holds (set_multiple bolt id docs db).0
        ≡ outcome
            (set_multiple bolt id docs db).1
            (all_placed id docs (bolt.db_holds db))
            (bolt.db_holds db)
  unfolding set_multiple
  db_holds-set_multiple id docs db =
      db_holds-write_transaction id (put_docs bolt id docs) (all_placed id docs) db
        (put_docs-Changes id docs)

  db_holds-end_read :
      {A : Type 0} (db : bolt.Db) (tx : bolt.Tx) (val : A) (err : Option Error)
      → bolt.db_holds (end_transaction bolt false db (tx, val, err)).0 ≡ bolt.db_holds db
  unfolding end_transaction
  db_holds-end_read db tx val none = bolt.db_holds-rollback tx db
  db_holds-end_read db tx val (some e) = bolt.db_holds-rollback tx db

  db_holds-read :
      {A : Type 0} (id : String) (unread : A) (callback : bolt.Tx → bolt.Tx × A × Option Error)
      (db : bolt.Db)
      → bolt.db_holds (bucket_transaction bolt false id unread callback db).0 ≡ bolt.db_holds db
  unfolding bucket_transaction end_transaction
  db_holds-read id unread callback db = elim (Sum-cases (bolt.begin false db)) [
    | inr (e, failed) ↦ rw (failed, bucket_transaction) refl
    | inl (tx, opened) ↦
        rw (opened, bucket_transaction)
          (let r = called_back bolt false id unread callback tx in db_holds-end_read db r.0 r.1 r.2)
  ]

  pub db_holds-get :
      (id key : String) (db : bolt.Db) → bolt.db_holds (get bolt id key db).0 ≡ bolt.db_holds db
  unfolding get
  db_holds-get id key db = db_holds-read id none (get_value bolt id key) db

  pub db_holds-get_multiple :
      (id : String) (keys : List String) (db : bolt.Db)
      → bolt.db_holds (get_multiple bolt id keys db).0 ≡ bolt.db_holds db
  unfolding get_multiple
  db_holds-get_multiple id keys db =
      db_holds-read id [] (λ tx. (tx, get_existing bolt id keys tx, none)) db

  -- Without an error Get gives what the database holds: the value, or nil for a bucket that was
  -- never written.
  pub get-db_holds :
      (id key : String) (db : bolt.Db)
      → (get bolt id key db).2 ≡ none
      → (get bolt id key db).1 ≡ bolt.db_holds db id key
  unfolding get bucket_transaction end_transaction called_back get_value
  get-db_holds id key db fine = elim (Sum-cases (bolt.begin false db)) [
    | inr (e, failed) ↦
        let got : get bolt id key db ≡ (db, none, some e) = rw (failed, bucket_transaction) refl in
        cc (fine, ap (λ (r : bolt.Db × Option String × Option Error). r.2) got)
    | inl (tx, opened) ↦
        let held = ap (λ h. h id key) (bolt.tx_holds-begin false db tx opened) in
        elim (Bool-cases (bolt.has_bucket id tx)) [
          | inr missing ↦
              let got : get bolt id key db ≡ (bolt.rollback tx db, none, none) =
                rw (opened, bucket_transaction, missing, called_back) refl in
              ap (λ (r : bolt.Db × Option String × Option Error). r.1) got
              ∙ sym (bolt.missing_bucket id key tx missing)
              ∙ held
          | inl present ↦ elim (Option-cases (bolt.get_key id key tx)) [
            | inl absent ↦
                let got : get bolt id key db
                    ≡ (bolt.rollback tx db, none, some Error.key_not_found) =
                  rw (opened, bucket_transaction, present, called_back, absent, get_value) refl in
                cc (fine, ap (λ (r : bolt.Db × Option String × Option Error). r.2) got)
            | inr (v, found) ↦
                let got : get bolt id key db ≡ (bolt.rollback tx db, some v, none) =
                  rw (opened, bucket_transaction, present, called_back, found, get_value) refl in
                ap (λ (r : bolt.Db × Option String × Option Error). r.1) got
                ∙ sym found
                ∙ bolt.get_key-tx_holds id key tx
                ∙ held
          ]
        ]
  ]
