-- ===== src/Cli/Publishing.antt =====
-- What the hub client publishes and subscribes to, in done_cli/cli_done/HubClient.go.
use done_rest.Prelude.{
  String, ◌⊎◌, inl, inr, ◌||◌, Option, none, some, [], ◌∷◌, Dict, ◌==◌, if◌then◌else◌,
}
use done_rest.Errors.{Error}
use done_rest.Transport.{
  message_type_action, message_type_config, message_type_event, message_type_rpc, event_name_props,
  event_name_td,
}
use done_rest.Transport.Api.{HubTransport}
use done_rest.Cli.{Client}
use done_rest.Cli.Address.{make_address}

-- The response is decoded where the caller wants one and there is no error.
unfoldable pub decode_response :
    {R : Type 0} → Option (String → R ⊎ Error) → String → Option Error → Option R × Option Error
decode_response decode text (some e) = (none, some e)
decode_response none text none = (none, none)
decode_response (some decode) text none = elim (decode text) [
  | inl r ↦ (some r, none)
  | inr e ↦ (none, some e)
]

module _ (ht : HubTransport) {V A : Type 0} where
  -- A request in this client's name.
  unfoldable pub request_address : String → String → String → String → Client ht V A → String
  unfolding make_address
  request_address msg_type agent_id thing_id name hc =
      make_address ht.address_tokens msg_type agent_id thing_id name hc.client_id

  -- An event of a Thing of this client.
  unfoldable pub event_address : String → String → Client ht V A → String
  unfolding make_address
  event_address thing_id event_id hc =
      make_address ht.address_tokens message_type_event hc.client_id thing_id event_id hc.client_id

  unfoldable pub pub_action :
      String → String → String → String → Client ht V A → Client ht V A × String × Option Error
  unfolding request_address
  pub_action agent_id thing_id name text hc =
      let addr = request_address message_type_action agent_id thing_id name hc in
      let (after, reply, err) = ht.pub_request addr text hc.transport in
      (record hc { transport = after }, reply, err)

  unfoldable pub pub_config :
      String → String → String → String → Client ht V A → Client ht V A × Option Error
  unfolding request_address
  pub_config agent_id thing_id prop_name text hc =
      let addr = request_address message_type_config agent_id thing_id prop_name hc in
      let (after, reply, err) = ht.pub_request addr text hc.transport in
      (record hc { transport = after }, err)

  -- What PubEvent, PubProps and PubTD share.
  unfoldable pub send_event :
      String → String → String → Client ht V A → Client ht V A × Option Error
  unfolding event_address
  send_event thing_id event_id text hc =
      let (after, err) = ht.pub_event (event_address thing_id event_id hc) text hc.transport in
      (record hc { transport = after }, err)

  unfoldable pub pub_event : String → String → String → Client ht V A → Client ht V A × Option Error
  unfolding send_event
  pub_event thing_id event_id text hc =
      if event_id == ""
      then (hc, some Error.missing_event_id)
      else send_event thing_id event_id text hc

  -- Each event by itself, until one fails.
  unfoldable pub pub_events : String → Dict String → Client ht V A → Client ht V A × Option Error
  unfolding pub_event
  pub_events thing_id [] hc = (hc, none)
  pub_events thing_id ((k, v) ∷ rest) hc =
      let (after, err) = pub_event thing_id k v hc in
      elim err [ some e ↦ (after, some e) | none ↦ pub_events thing_id rest after ]

  -- `marshal` is json.Marshal on texts, which does not fail.
  unfoldable pub pub_props :
      (Dict String → String) → String → Dict String → Client ht V A → Client ht V A × Option Error
  unfolding send_event
  pub_props marshal thing_id [] hc = (hc, none)
  pub_props marshal thing_id (p ∷ props) hc =
      send_event thing_id event_name_props (marshal (p ∷ props)) hc

  -- The ID of the TD and its JSON.
  unfoldable pub pub_td : String → String → Client ht V A → Client ht V A × Option Error
  unfolding send_event
  pub_td td_id text hc =
      if td_id == ""
      then (hc, some Error.missing_thing_id)
      else send_event td_id event_name_td text hc

  -- The request's JSON, or nothing for nil.
  unfoldable pub pub_rpc_request :
      {R : Type 0}
      → String
      → String
      → String
      → String
      → Option (String → R ⊎ Error)
      → Client ht V A
      → Client ht V A × Option R × Option Error
  unfolding request_address decode_response
  pub_rpc_request agent_id capability method_name text decode hc =
      let addr = request_address message_type_rpc agent_id capability method_name hc in
      let (after, reply, err) = ht.pub_request addr text hc.transport in
      let (resp, failure) = decode_response decode reply err in
      if capability == "" || method_name == ""
      then (hc, none, some Error.missing_method)
      else (record hc { transport = after }, resp, failure)

  unfoldable pub sub_events :
      String → String → String → Client ht V A → Client ht V A × Option Error
  unfolding make_address
  sub_events agent_id thing_id event_name hc =
      let addr =
        make_address ht.address_tokens message_type_event agent_id thing_id event_name "" in
      let (after, err) = ht.subscribe addr hc.transport in (record hc { transport = after }, err)
