-- ===== src/State/Messages.antt =====
-- done_mod/mod_state: the messages of the state service, of state_api, and the capability that Start
-- of state_srv/StateService.go registers for them.
use done_rest.Prelude.{String, ◌⊎◌, Option, none, some, List, [], ◌∷◌, Dict}
use done_rest.Errors.{Error}
use done_rest.Buckets.Stores.{BucketStore}
use done_rest.Transport.Api.{HubTransport}
use done_rest.Cli.{Client, set_rpc_capability}
use done_rest.Cli.Requests.{
  Method, Arg, Results, sender, value, service_context, payload, no_results, only_error, response,
}
use done_rest.State.{GetResp, delete, get, get_multiple, set, set_multiple}

abbrev pub state_service_name : String
state_service_name = "state"

abbrev pub storage_cap : String
storage_cap = "store"

abbrev pub delete_method : String
delete_method = "delete"

abbrev pub get_method : String
get_method = "get"

abbrev pub get_multiple_method : String
get_multiple_method = "getMultiple"

abbrev pub set_method : String
set_method = "set"

abbrev pub set_multiple_method : String
set_multiple_method = "setMultiple"

-- The arguments and responses of the methods.
pub data Message : Type 0 where
  delete_args get_args : String → Message
  get_multiple_args : List String → Message
  set_args : String → String → Message
  set_multiple_args : Dict String → Message
  get_resp : GetResp → Message
  get_multiple_resp : Dict String → Message

-- The serializer on these types: `encode` is ser.Marshal, which does not fail on them, and a `decode`
-- is ser.Unmarshal at one of them.
pub record Serializer : Type 0 where
  pub encode : Message → String
  pub decode_delete : String → Message ⊎ Error
  pub decode_get : String → Message ⊎ Error
  pub decode_get_multiple : String → Message ⊎ Error
  pub decode_set : String → Message ⊎ Error
  pub decode_set_multiple : String → Message ⊎ Error
  pub decode_get_resp : String → GetResp ⊎ Error
  pub decode_get_multiple_resp : String → Dict String ⊎ Error

-- The methods of the service on what is decoded for their parameters. Other arguments do not occur,
-- since the parameters are decoded at their types.
module _ (bs : BucketStore) where
  unfoldable pub call_delete : List (Arg Message) → bs.Store → bs.Store × Results Message
  call_delete (sender id ∷ value (delete_args key) ∷ []) store =
      let (after, err) = delete bs id key store in (after, only_error err)
  call_delete _ store = (store, no_results)

  unfoldable pub call_get : List (Arg Message) → bs.Store → bs.Store × Results Message
  call_get (sender id ∷ value (get_args key) ∷ []) store =
      let (after, resp, err) = get bs id key store in (after, response (some (get_resp resp)) err)
  call_get _ store = (store, no_results)

  unfoldable pub call_get_multiple : List (Arg Message) → bs.Store → bs.Store × Results Message
  call_get_multiple (sender id ∷ value (get_multiple_args keys) ∷ []) store =
      let (after, kv, err) = get_multiple bs id keys store in
      (after, response (some (get_multiple_resp kv)) err)
  call_get_multiple _ store = (store, no_results)

  unfoldable pub call_set : List (Arg Message) → bs.Store → bs.Store × Results Message
  call_set (sender id ∷ value (set_args key val) ∷ []) store =
      let (after, err) = set bs id key val store in (after, only_error err)
  call_set _ store = (store, no_results)

  unfoldable pub call_set_multiple : List (Arg Message) → bs.Store → bs.Store × Results Message
  call_set_multiple (sender id ∷ value (set_multiple_args kv) ∷ []) store =
      let (after, err) = set_multiple bs id kv store in (after, only_error err)
  call_set_multiple _ store = (store, no_results)

  abbrev pub method_of :
      (String → Message ⊎ Error)
      → (List (Arg Message) → bs.Store → bs.Store × Results Message)
      → Method Message bs.Store
  method_of decode call = record { params = service_context ∷ payload decode ∷ []; call = call }

  -- The table of methods of the capability.
  unfoldable pub storage_methods : Serializer → Dict (Method Message bs.Store)
  storage_methods ser =
      (delete_method, method_of ser.decode_delete call_delete)
      ∷ (get_method, method_of ser.decode_get call_get)
      ∷ (get_multiple_method, method_of ser.decode_get_multiple call_get_multiple)
      ∷ (set_method, method_of ser.decode_set call_set)
      ∷ (set_multiple_method, method_of ser.decode_set_multiple call_set_multiple)
      ∷ []

  module _ (ht : HubTransport) where
    -- What follows the opening of the store, by its error.
    unfoldable pub register :
        Serializer
        → Option Error
        → Client ht Message bs.Store
        → Client ht Message bs.Store × Option Error
    unfolding storage_methods set_rpc_capability
    register ser (some e) hc = (hc, some e)
    register ser none hc = (set_rpc_capability ht storage_cap (storage_methods ser) hc, none)

    -- The answer to SetServicePermissions, with the client after it, and the opened store with its
    -- error are arguments; a store is opened only if the permissions are set.
    unfoldable pub start :
        Serializer
        → Client ht Message bs.Store × Option Error
        → bs.Store × Option Error
        → bs.Store
        → Client ht Message bs.Store × bs.Store × Option Error
    unfolding register
    start ser (hc, some e) opened store = (hc, store, some e)
    start ser (hc, none) (after, open_err) store =
        let (ready, err) = register ser open_err hc in (ready, after, err)
