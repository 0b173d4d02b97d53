-- ===== src/State.antt =====
-- done_mod/mod_state/state_srv/StateService.go: the values that clients keep in the state service,
-- each client in the bucket of its own ID, over any bucket store.
pub mod Isolation
pub mod Missing
pub mod Messages
pub mod Client
use done_rest.Prelude.{String, Bool, true, false, Option, none, some, List, [], ◌∷◌, Dict}
use done_rest.Errors.{Error}
use done_rest.Buckets.Stores.{BucketStore}

pub record GetResp : Type 0 where
  pub key : String
  pub found : Bool
  pub value : String

-- string(value), which is empty for nil.
unfoldable pub text_of : Option String → String
text_of none = ""
text_of (some v) = v

unfoldable pub found_of : Option Error → Bool
found_of none = true
found_of (some e) = false

unfoldable pub first_error : Option Error → Option Error → Option Error
first_error none err2 = err2
first_error (some e) err2 = some e

module _ (bs : BucketStore) where
  -- Errors of closing are dropped here.
  unfoldable pub delete : String → String → bs.Store → bs.Store × Option Error
  delete sender_id key store =
      let (after, err) = bs.delete sender_id key (bs.get_bucket sender_id store) in
      ((bs.close_bucket sender_id after).0, err)

  unfoldable pub get : String → String → bs.Store → bs.Store × GetResp × Option Error
  unfolding text_of found_of first_error
  get sender_id key store =
      let (after, val, err) = bs.get sender_id key (bs.get_bucket sender_id store) in
      let (closed, err2) = bs.close_bucket sender_id after in
      (
        closed,
        record { key = key; found = found_of err; value = text_of val },
        first_error err err2,
      )

  -- The error of reading is dropped, the one of closing is returned.
  unfoldable pub get_multiple :
      String → List String → bs.Store → bs.Store × Dict String × Option Error
  get_multiple sender_id keys store =
      let (after, kv, err) = bs.get_multiple sender_id keys (bs.get_bucket sender_id store) in
      let (closed, err2) = bs.close_bucket sender_id after in (closed, kv, err2)

  unfoldable pub set : String → String → String → bs.Store → bs.Store × Option Error
  set sender_id key val store =
      let (after, err) = bs.set sender_id key val (bs.get_bucket sender_id store) in
      ((bs.close_bucket sender_id after).0, err)

  unfoldable pub set_multiple : String → Dict String → bs.Store → bs.Store × Option Error
  set_multiple sender_id kv store =
      let (after, err) = bs.set_multiple sender_id kv (bs.get_bucket sender_id store) in
      ((bs.close_bucket sender_id after).0, err)

-- A request to the service.
pub data Request : Type 0 where
  deletes gets : String → Request
  gets_multiple : List String → Request
  sets : String → String → Request
  sets_multiple : Dict String → Request

module _ (bs : BucketStore) where
  -- The store after a request of the sender.
  unfoldable pub handle : String → Request → bs.Store → bs.Store
  unfolding delete get get_multiple set set_multiple
  handle sender_id (deletes key) store = (delete bs sender_id key store).0
  handle sender_id (gets key) store = (get bs sender_id key store).0
  handle sender_id (gets_multiple keys) store = (get_multiple bs sender_id keys store).0
  handle sender_id (sets key val) store = (set bs sender_id key val store).0
  handle sender_id (sets_multiple kv) store = (set_multiple bs sender_id kv store).0

  unfoldable pub run : List (String × Request) → bs.Store → bs.Store
  unfolding handle
  run [] store = store
  run ((sender_id, request) ∷ later) store = run later (handle sender_id request store)
