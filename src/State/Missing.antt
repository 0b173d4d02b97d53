-- ===== src/State/Missing.antt =====
-- What StateService.go answers for a key that is not there, on the store of done_tool/buckets/bolts.
use done_rest.Prelude.{
  String, false, not, Bool-cases, if◌then◌else◌, ◌≡◌, refl, inl, inr, none, some,
}
use done_rest.Errors.{Error}
use done_rest.Buckets.Bolts.Bucket.{
  BoltDatabase, bucket_transaction, end_transaction, called_back, get, get_value,
}
use done_rest.Buckets.Bolts.Store.{BoltStore}
use done_rest.Buckets.Bolts.Store.Interface.{bolt_store}
use done_rest.State.{GetResp, text_of, found_of, first_error}
use done_rest.State as State

-- On a bbolt database that starts the read transaction, a client whose bucket was never written is
-- told of any key that it is found, with an empty value and without an error; a client that has a
-- bucket is told of a key that is not in it that it is not found, with an error.
get_absent :
    (bolt : BoltDatabase) (id key : String) (s : BoltStore bolt.Db) (tx : bolt.Tx)
    → bolt.begin false s.bolt_db ≡ inl tx
    → bolt.get_key id key tx ≡ none
    → let (after, resp, err) = State.get (bolt_store bolt) id key s in
      (resp ≡ record { key = key; found = not (bolt.has_bucket id tx); value = "" })
      × (err ≡ (if bolt.has_bucket id tx then some Error.key_not_found else none))
unfolding State.get get bucket_transaction end_transaction called_back get_value text_of found_of
    first_error
get_absent bolt id key s tx begun absent = elim (Bool-cases (bolt.has_bucket id tx)) [
  | inr missing ↦ rw (begun, bucket_transaction, missing, called_back) (refl, refl)
  | inl present ↦
      rw (begun, bucket_transaction, present, called_back, absent, get_value) (refl, refl)
]
