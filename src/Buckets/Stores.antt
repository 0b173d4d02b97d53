-- ===== src/Buckets/Stores.antt =====
-- done_tool/buckets/IBucketStore.go: the interfaces IBucketStore and IBucket, as operations on the
-- state of a store.
use done_rest.Prelude.{
  ℕ, String, ◌&&◌, ◌≡◌, Option, none, some, List, [], ◌∷◌, Dict, ◌==◌, if◌then◌else◌,
}
use done_rest.Errors.{Error}

-- What a store holds: the value under a key in a bucket.
abbrev pub Holdings : Type 0
Holdings = String → String → Option String

-- One value is put into a bucket, or taken out of it.
unfoldable pub placed : String → String → Option String → Holdings → Holdings
placed id key val held i k = if id == i && key == k then val else held i k

unfoldable pub all_placed : String → Dict String → Holdings → Holdings
unfolding placed
all_placed id [] held = held
all_placed id ((k, v) ∷ docs) held = all_placed id docs (placed id k (some v) held)

-- What is held after an operation: the change if it has no error, and else what was held before.
abbrev pub outcome : Option Error → Holdings → Holdings → Holdings
outcome none changed before = changed
outcome (some e) changed before = before

-- A bucket is known by its ID. `stored` is what the store holds and `open_buckets` how many of its
-- buckets are not closed. The laws say what the interface documents: a write without an error does
-- what it is to do, one with an error does nothing, and a read does not change what is held. The
-- closing of a bucket undoes its opening.
pub record BucketStore : Type 1 where
  pub Store : Type 0
  pub get_bucket : String → Store → Store
  pub close_bucket : String → Store → Store × Option Error
  pub delete : String → String → Store → Store × Option Error
  pub get : String → String → Store → Store × Option String × Option Error
  pub get_multiple : String → List String → Store → Store × Dict String × Option Error
  pub set : String → String → String → Store → Store × Option Error
  pub set_multiple : String → Dict String → Store → Store × Option Error
  pub stored : Store → Holdings
  pub open_buckets : Store → ℕ
  pub open_buckets-close_bucket :
      (id : String) (s t : Store)
      → open_buckets t ≡ open_buckets (get_bucket id s)
      → open_buckets (close_bucket id t).0 ≡ open_buckets s
  pub open_buckets-delete :
      (id key : String) (s : Store) → open_buckets (delete id key s).0 ≡ open_buckets s
  pub open_buckets-get :
      (id key : String) (s : Store) → open_buckets (get id key s).0 ≡ open_buckets s
  pub open_buckets-get_multiple :
      (id : String) (keys : List String) (s : Store)
      → open_buckets (get_multiple id keys s).0 ≡ open_buckets s
  pub open_buckets-set :
      (id key val : String) (s : Store) → open_buckets (set id key val s).0 ≡ open_buckets s
  pub open_buckets-set_multiple :
      (id : String) (docs : Dict String) (s : Store)
      → open_buckets (set_multiple id docs s).0 ≡ open_buckets s
  pub stored-get_bucket : (id : String) (s : Store) → stored (get_bucket id s) ≡ stored s
  pub stored-close_bucket : (id : String) (s : Store) → stored (close_bucket id s).0 ≡ stored s
  pub stored-delete :
      (id key : String) (s : Store)
      → stored (delete id key s).0
        ≡ outcome (delete id key s).1 (placed id key none (stored s)) (stored s)
  pub stored-set :
      (id key val : String) (s : Store)
      → stored (set id key val s).0
        ≡ outcome (set id key val s).1 (placed id key (some val) (stored s)) (stored s)
  pub stored-set_multiple :
      (id : String) (docs : Dict String) (s : Store)
      → stored (set_multiple id docs s).0
        ≡ outcome (set_multiple id docs s).1 (all_placed id docs (stored s)) (stored s)
  pub stored-get : (id key : String) (s : Store) → stored (get id key s).0 ≡ stored s
  pub stored-get_multiple :
      (id : String) (keys : List String) (s : Store) → stored (get_multiple id keys s).0 ≡ stored s
  pub get-stored :
      (id key : String) (s : Store) → (get id key s).2 ≡ none → (get id key s).1 ≡ stored s id key
