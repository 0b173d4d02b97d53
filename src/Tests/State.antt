-- ===== src/Tests/State.antt =====
-- A state service on a bbolt database in memory.
use done_rest.Prelude.{String, true, ◌≡◌, refl, List, [], ◌∷◌, lookup, insert, remove}
use done_rest.Buckets.Bolts.Bucket.{
  set_multiple, set as bucket_set, get as bucket_get, delete as bucket_delete,
}
use done_rest.Buckets.Bolts.Bucket.Transactions.{db_holds-set_multiple}
use done_rest.Buckets.Bolts.Store.{BoltStore}
use done_rest.Buckets.Bolts.Store.Interface.{bolt_store}
use done_rest.State.{Request, get, set, run, deletes, sets, gets}
use done_rest.State.Isolation.{get-run-set}
use done_rest.Tests.Databases.{Buckets, in_memory, holds}

abbrev empty_store : BoltStore Buckets
empty_store = record { bolt_db = []; store_path = "state"; bucket_ref_count = 0 }

abbrev by_bob : List (String × Request)
by_bob = ("bob", sets "k" "2") ∷ ("bob", deletes "k") ∷ ("bob", gets "k") ∷ []

get-run-set_example :
    (get (bolt_store in_memory) "alice" "k" (
      run
        (bolt_store in_memory)
        by_bob
        (set (bolt_store in_memory) "alice" "k" "1" empty_store).0)).1
    ≡ record { key = "k"; found = true; value = "1" }
unfolding set bucket_set get bucket_get lookup run bucket_delete insert remove
get-run-set_example =
    get-run-set (bolt_store in_memory) "alice" "k" "1" by_bob empty_store refl
      ((λ h. cc h), ((λ h. cc h), ((λ h. cc h), tt))) refl

db_holds-set_multiple_example :
    holds (set_multiple in_memory "alice" (("", "1") ∷ ("k", "2") ∷ []) []).0 ≡ holds []
unfolding set_multiple
db_holds-set_multiple_example =
    db_holds-set_multiple in_memory "alice" (("", "1") ∷ ("k", "2") ∷ []) []
