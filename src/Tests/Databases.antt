-- ===== src/Tests/Databases.antt =====
-- A bbolt database in memory.
use done_rest.Prelude.{
  String, Bool, true, false, ◌≡◌, ◌⊎◌, inl, inr, refl, ap, sym, Option, none, some, [], Dict,
  lookup, insert, eq_iff, lookup-insert, lookup-remove, remove, ◌∙◌, Bool-cases, Option-cases, ◌==◌,
  if◌then◌else◌,
}
use done_rest.Errors.{Error}
use done_rest.Buckets.Stores.{Holdings, placed}
use done_rest.Buckets.Bolts.Bucket.{BoltDatabase}

abbrev pub Buckets : Type 0
Buckets = Dict (Dict String)

abbrev pub in_bucket : Option (Dict String) → String → Option String
in_bucket none key = none
in_bucket (some docs) key = lookup key docs

abbrev pub holds : Buckets → Holdings
holds db id key = in_bucket (lookup id db) key

abbrev pub docs_of : Option (Dict String) → Dict String
docs_of none = []
docs_of (some docs) = docs

abbrev pub is_there : Option (Dict String) → Bool
is_there none = false
is_there (some docs) = true

abbrev pub ensure : String → Buckets → Option (Dict String) → Buckets
ensure id db none = insert id [] db
ensure id db (some docs) = db

abbrev pub put : String → String → String → Buckets → Buckets × Option Error
put id key val db =
    if key == ""
    then (db, some (Error.external "key required"))
    else (insert id (insert key val (docs_of (lookup id db))) db, none)

abbrev pub take_out : String → String → Buckets → Buckets
take_out id key db = insert id (remove key (docs_of (lookup id db))) db

in_docs : (found : Option (Dict String)) (k : String) → lookup k (docs_of found) ≡ in_bucket found k
unfolding lookup
in_docs none k = refl
in_docs (some docs) k = refl

holds-insert :
    (id key other k : String) (val : Option String) (docs : Dict String) (db : Buckets)
    → lookup k docs ≡ (if key == k then val else holds db id k)
    → holds (insert id docs db) other k ≡ placed id key val (holds db) other k
unfolding placed
holds-insert id key other k val docs db h = elim (Bool-cases (id == other)) [
  | inl same ↦ rw (lookup-insert id other docs db, same, h, (eq_iff id other).0 same) refl
  | inr apart ↦ rw (lookup-insert id other docs db, apart) refl
]

pub holds-put :
    (id key val : String) (db : Buckets)
    → (put id key val db).1 ≡ none
    → holds (put id key val db).0 ≡ placed id key (some val) (holds db)
holds-put id key val db fine = λ i other k. at other k i
  where
    at :
        (other k : String)
        → holds (put id key val db).0 other k ≡ placed id key (some val) (holds db) other k
    at other k = elim (Bool-cases (key == "")) [
      | inl empty ↦
          let refused : put id key val db ≡ (db, some (Error.external "key required")) =
            rw empty refl in
          cc (sym (ap (λ (r : Buckets × Option Error). r.1) refused) ∙ fine)
      | inr named ↦ rw named (
          holds-insert id key other k (some val) (insert key val (docs_of (lookup id db))) db (
            lookup-insert key k val (docs_of (lookup id db))
            ∙ ap (λ o. if key == k then some val else o) (in_docs (lookup id db) k)))
    ]

pub holds-take_out :
    (id key : String) (db : Buckets) → holds (take_out id key db) ≡ placed id key none (holds db)
holds-take_out id key db = λ i other k.
    holds-insert id key other k none (remove key (docs_of (lookup id db))) db
      (lookup-remove key k (docs_of (lookup id db))
        ∙ ap (λ o. if key == k then none else o) (in_docs (lookup id db) k))
      i

pub holds-ensure : (id : String) (db : Buckets) → holds (ensure id db (lookup id db)) ≡ holds db
unfolding lookup
holds-ensure id db = λ i other k. at other k i
  where
    at : (other k : String) → holds (ensure id db (lookup id db)) other k ≡ holds db other k
    at other k = elim (Option-cases (lookup id db)) [
      | inl missing ↦ elim (Bool-cases (id == other)) [
        | inl same ↦
            rw
              (missing, lookup-insert id other [] db, same, sym ((eq_iff id other).0 same), missing)
              refl
        | inr apart ↦ rw (missing, lookup-insert id other [] db, apart) refl
      ]
      | inr (docs, found) ↦ rw found refl
    ]

pub holds_nothing :
    (id key : String) (db : Buckets) → is_there (lookup id db) ≡ false → holds db id key ≡ none
holds_nothing id key db h = elim (Option-cases (lookup id db)) [
  | inl missing ↦ rw missing refl
  | inr (docs, found) ↦ cc (h, ap is_there found)
]

abbrev pub begun : Buckets → Buckets ⊎ Error
begun db = inl db

pub same_db : (db tx : Buckets) → begun db ≡ begun tx → db ≡ tx
same_db db tx h = cc h

abbrev pub in_memory : BoltDatabase
in_memory = record {
  Db = Buckets;
  Tx = Buckets;
  begin = λ writable db. inl db;
  create_bucket_if_not_exists = λ id db. (ensure id db (lookup id db), none);
  has_bucket = λ id db. is_there (lookup id db);
  get_key = λ id key db. holds db id key;
  put_key = put;
  delete_key = λ id key db. (take_out id key db, none);
  commit = λ tx db. (tx, none);
  rollback = λ tx db. db;
  db_holds = holds;
  tx_holds = holds;
  tx_holds-begin = λ writable db tx h. ap holds (sym (same_db db tx h));
  tx_holds-create = holds-ensure;
  get_key-tx_holds = λ id key db. refl;
  missing_bucket = holds_nothing;
  tx_holds-put_key = holds-put;
  tx_holds-delete_key = λ id key db h. holds-take_out id key db;
  db_holds-commit = λ tx db. refl;
  db_holds-rollback = λ tx db. refl;
}
