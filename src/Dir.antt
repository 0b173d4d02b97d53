-- ===== src/Dir.antt =====
-- done_mod/mod_dir/dir_srv: the Thing Description documents of the directory, in UpdateDirectoryService.go
-- and ReadDirectoryService.go, in a bucket of any store.
pub mod Documents
pub mod Cursors
pub mod Batches
use Prim.Native.String.{◌++◌ as append_text}
use done_rest.Prelude.{ℕ, String, ◌≡◌, Option, none, some}
use done_rest.Errors.{Error}
use done_rest.Buckets.Stores.{BucketStore}
use done_rest.Transport.{message_type_event, event_name_td}
use done_rest.Hist.{ThingValue}
use done_rest.Hist.Encoding.{slash}

-- encoding/json on a value.
pub record ValueJson : Type 0 where
  pub marshal_value : ThingValue → String
  pub unmarshal_value : String → ThingValue × Option Error

unfoldable pub td_addr : String → String → String
td_addr agent_id thing_id = append_text agent_id (String.◌∷◌ slash thing_id)

-- The value that holds the document.
unfoldable pub td_value : ℕ → String → String → String → String → ThingValue
td_value now sender_id agent_id thing_id td_doc = record {
  agent_id = agent_id;
  thing_id = thing_id;
  name = event_name_td;
  payload = td_doc;
  created_msec = now;
  sender_id = sender_id;
  value_type = message_type_event;
}

-- Without a document the value is the empty one.
unfoldable pub empty_value : ThingValue
empty_value = record {
  agent_id = "";
  thing_id = "";
  name = "";
  payload = "";
  created_msec = 0;
  sender_id = "";
  value_type = "";
}

-- The bucket of the directory has the ID `bucket_id`.
module _ (json : ValueJson) (bs : BucketStore) (bucket_id : String) where
  unfoldable pub remove_td : String → String → bs.Store → bs.Store × Option Error
  unfolding td_addr
  remove_td agent_id thing_id store = bs.delete bucket_id (td_addr agent_id thing_id) store

  unfoldable pub update_td :
      ℕ → String → String → String → String → bs.Store → bs.Store × Option Error
  unfolding td_addr td_value
  update_td now sender_id agent_id thing_id td_doc store =
      bs.set bucket_id (td_addr agent_id thing_id)
        (json.marshal_value (td_value now sender_id agent_id thing_id td_doc)) store

  -- An error of the bucket is replaced.
  unfoldable pub read_td : Option String → ThingValue × Option Error
  unfolding empty_value
  read_td none = (empty_value, some Error.td_not_found)
  read_td (some raw) = json.unmarshal_value raw

  unfoldable pub get_td : String → String → bs.Store → bs.Store × ThingValue × Option Error
  unfolding td_addr read_td
  get_td agent_id thing_id store =
      let (after, raw, err) = bs.get bucket_id (td_addr agent_id thing_id) store in
      let (value, failure) = read_td raw in (after, value, failure)

  -- The sender is the agent of the event; an error is logged only.
  unfoldable pub handle_td_event : ℕ → ThingValue → bs.Store → bs.Store
  unfolding update_td
  handle_td_event now event store =
      (update_td now event.agent_id event.agent_id event.thing_id event.payload store).0
