-- ===== src/State/Client.antt =====
-- done_mod/mod_state/state_cli/StateClient.go: the calls of the state service by a hub client.
pub mod Answered
use done_rest.Prelude.{String, Bool, true, false, ◌⊎◌, inl, inr, Option, none, some, List, Dict}
use done_rest.Errors.{Error}
use done_rest.Transport.Api.{HubTransport}
use done_rest.Cli.{Client}
use done_rest.Cli.Publishing.{pub_rpc_request}
use done_rest.State.{GetResp}
use done_rest.State.Messages.{
  Message, Serializer, delete_args, get_args, get_multiple_args, set_args, set_multiple_args,
  state_service_name, storage_cap, delete_method, get_method, get_multiple_method, set_method,
  set_multiple_method,
}

-- What is made of the response: whether the key was found, and the record that is decoded then.
unfoldable pub read_record :
    {R : Type 0}
    → (String → R ⊎ Error)
    → Option GetResp × Option Error
    → Bool × Option R × Option Error
read_record unmarshal (resp, some e) = (false, none, some e)
read_record unmarshal (none, none) = (false, none, none)
read_record unmarshal (some resp, none) = elim resp.found [
  | false ↦ (false, none, none)
  | true ↦ elim (unmarshal resp.value) [
    | inl r ↦ (true, some r, none)
    | inr e ↦ (true, none, some e)
  ]
]

-- The caller's own handlers are on any values and state.
module _ (ht : HubTransport) {V A : Type 0} (ser : Serializer) where
  -- A call that wants no response.
  unfoldable pub tell : String → Message → Client ht V A → Client ht V A × Option Error
  unfolding pub_rpc_request
  tell method_name req hc =
      let none_wanted : Option (String → GetResp ⊎ Error) = none in
      let (after, resp, err) =
        pub_rpc_request ht state_service_name storage_cap method_name (ser.encode req) none_wanted
          hc in
      (after, err)

  unfoldable pub delete : String → Client ht V A → Client ht V A × Option Error
  unfolding tell
  delete key = tell delete_method (delete_args key)

  unfoldable pub get :
      {R : Type 0}
      → (String → R ⊎ Error)
      → String
      → Client ht V A
      → Client ht V A × Bool × Option R × Option Error
  unfolding pub_rpc_request read_record
  get unmarshal key hc =
      let (after, resp, err) =
        pub_rpc_request ht state_service_name storage_cap get_method (ser.encode (get_args key))
          (some ser.decode_get_resp) hc in
      let (found, r, failure) = read_record unmarshal (resp, err) in (after, found, r, failure)

  unfoldable pub get_multiple :
      List String → Client ht V A → Client ht V A × Option (Dict String) × Option Error
  unfolding pub_rpc_request
  get_multiple keys =
      pub_rpc_request ht state_service_name storage_cap get_multiple_method
        (ser.encode (get_multiple_args keys)) (some ser.decode_get_multiple_resp)

  -- A record that cannot be encoded is not sent.
  unfoldable pub set :
      {R : Type 0}
      → (R → String ⊎ Error)
      → String
      → R
      → Client ht V A
      → Client ht V A × Option Error
  unfolding tell
  set marshal key record_value hc = elim (marshal record_value) [
    | inr e ↦ (hc, some e)
    | inl text ↦ tell set_method (set_args key text) hc
  ]

  unfoldable pub set_multiple : Dict String → Client ht V A → Client ht V A × Option Error
  unfolding tell
  set_multiple kv = tell set_multiple_method (set_multiple_args kv)
