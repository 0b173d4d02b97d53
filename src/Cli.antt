-- ===== src/Cli.antt =====
-- done_cli/cli_done: the client that connects to the message bus. This file has the client of
-- HubClient.go, its handlers and the dispatch of messages to them; Address has its addresses,
-- Requests is HandleRequestMessage.go, Publishing what it publishes, Keys its key files.
pub mod Address
pub mod Requests
pub mod Publishing
pub mod Keys
pub mod Dispatch
pub mod Capabilities
use done_rest.Prelude.{
  ℕ, String, Bool, true, false, ◌&&◌, not, ◌⊎◌, Option, none, some, [], Dict, lookup, insert, ◌==◌,
  ◌/=◌, if◌then◌else◌,
}
use done_rest.Errors.{Error}
use done_rest.Hist.{ThingValue}
use done_rest.Transport.{
  message_type_action, message_type_config, message_type_event, message_type_rpc,
}
use done_rest.Transport.Api.{HubTransport, HubTransportStatus, ConnectionStatus, connected}
use done_rest.Transport.Subjects.{Subject}
use done_rest.Cli.Address.{make_address, split_address}
use done_rest.Cli.Requests.{Method, handle_request_message}

-- What an application answers to a request: its new state, the reply and the error.
abbrev pub RequestHandler : Type 0 → Type 0
RequestHandler A = ThingValue → A → A × String × Option Error

-- The RPC handler is one that the application gave, or the closure of SetRPCCapability, which reads
-- the client's table of capabilities.
pub data RpcHandler (A : Type 0) : Type 0 where
  own_handler : RequestHandler A → RpcHandler A
  multi_cap_handler : RpcHandler A

-- The handlers of an application with the state `A`; the table has methods on values `V`.
pub record HubClient (T K V A : Type 0) : Type 0 where
  pub client_id : String
  pub transport : T
  pub kp : Option K
  pub retry_connect : Bool
  pub cap_table : Dict (Dict (Method V A))
  pub action_handler : Option (RequestHandler A)
  pub config_handler : Option (ThingValue → A → A × Option Error)
  pub connection_handler : Option (HubTransportStatus → A → A)
  pub event_handler : Option (ThingValue → A → A)
  pub rpc_handler : Option (RpcHandler A)

unfoldable pub new_thing_value : ℕ → Subject → String → ThingValue
new_thing_value now parts text = record {
  agent_id = parts.agent_id;
  thing_id = parts.thing_id;
  name = parts.name;
  payload = text;
  created_msec = now;
  sender_id = parts.sender_id;
  value_type = parts.msg_type;
}

abbrev is_connected : ConnectionStatus → Bool
is_connected connected = true
is_connected _ = false

abbrev pub Client : HubTransport → Type 0 → Type 0 → Type 0
Client ht V A = HubClient ht.Transport ht.KeyPair V A

unfoldable pub call_config :
    {A : Type 0} → (ThingValue → A → A × Option Error) → ThingValue → A → A × String × Option Error
call_config handler tv app = let (after, err) = handler tv app in (after, "", err)

module _ (ht : HubTransport) {V A : Type 0} where
  -- The transport's connect handler is the client's from here on.
  unfoldable pub new_hub_client_from_transport : ht.Transport → String → Client ht V A
  new_hub_client_from_transport transport client_id = record {
    client_id = client_id;
    transport = transport;
    kp = none;
    retry_connect = true;
    cap_table = [];
    action_handler = none;
    config_handler = none;
    connection_handler = none;
    event_handler = none;
    rpc_handler = none;
  }

  -- The address of all requests of a type to this client.
  unfoldable pub own_address : String → Client ht V A → String
  unfolding make_address
  own_address msg_type hc = make_address ht.address_tokens msg_type hc.client_id "" "" ""

  -- Subscribe, whose error is dropped, and SetRequestHandler.
  unfoldable pub listen : String → Client ht V A → Client ht V A
  unfolding own_address
  listen msg_type hc = record hc {
    transport = ht.set_request_handler (ht.subscribe (own_address msg_type hc) hc.transport).0;
  }

  unfoldable pub set_action_handler : RequestHandler A → Client ht V A → Client ht V A
  unfolding listen
  set_action_handler handler hc =
      listen message_type_action (record hc { action_handler = some handler })

  unfoldable pub set_config_handler :
      (ThingValue → A → A × Option Error) → Client ht V A → Client ht V A
  unfolding listen
  set_config_handler handler hc =
      listen message_type_config (record hc { config_handler = some handler })

  unfoldable pub set_connection_handler :
      (HubTransportStatus → A → A) → Client ht V A → Client ht V A
  set_connection_handler handler hc = record hc { connection_handler = some handler }

  unfoldable pub set_event_handler : (ThingValue → A → A) → Client ht V A → Client ht V A
  set_event_handler handler hc = record hc {
    event_handler = some handler;
    transport = ht.set_event_handler hc.transport;
  }

  unfoldable pub set_retry_connect : Bool → Client ht V A → Client ht V A
  set_retry_connect enable hc = record hc { retry_connect = enable }

  unfoldable pub set_rpc_handler : RpcHandler A → Client ht V A → Client ht V A
  unfolding listen
  set_rpc_handler handler hc = listen message_type_rpc (record hc { rpc_handler = some handler })

  unfoldable pub with_rpc_handler : Client ht V A → Client ht V A
  unfolding set_rpc_handler
  with_rpc_handler hc = elim hc.rpc_handler [
    | some handler ↦ hc
    | none ↦ set_rpc_handler multi_cap_handler hc
  ]

  -- A handler that is there stays, also one that knows nothing of the table.
  unfoldable pub set_rpc_capability : String → Dict (Method V A) → Client ht V A → Client ht V A
  unfolding with_rpc_handler
  set_rpc_capability cap_id cap_methods hc =
      let ready = with_rpc_handler hc in
      record ready {
        cap_table = insert cap_id cap_methods ready.cap_table;
        transport = ht.set_request_handler ready.transport;
      }

  -- A client that does not retry gives up.
  unfoldable pub on_connect : HubTransportStatus → Client ht V A → A → Client ht V A × A
  on_connect status hc app =
      let stop = not hc.retry_connect && not (is_connected status.connection_status) in
      (
        if stop then record hc { transport = ht.disconnect hc.transport } else hc,
        elim hc.connection_handler [ none ↦ app | some handler ↦ handler status app ],
      )

  unfoldable pub handle_event : Client ht V A → ThingValue → Option Error → A → A
  handle_event hc tv (some e) app = app
  handle_event hc tv none app = elim hc.event_handler [ none ↦ app | some handler ↦ handler tv app ]

  unfoldable pub on_event : ℕ → String → String → Client ht V A → A → A
  unfolding handle_event new_thing_value split_address
  on_event now addr text hc app =
      let (parts, err) = split_address ht.address_tokens addr in
      handle_event hc (new_thing_value now parts text) err app

  -- The table of methods of a capability, and in it the method.
  unfoldable pub call_capability :
      (V → String ⊎ Error) → Option (Dict (Method V A)) → RequestHandler A
  unfolding handle_request_message
  call_capability marshal none tv app = (app, "", some Error.unknown_capability)
  call_capability marshal (some methods) tv app = elim (lookup tv.name methods) [
    | none ↦ (app, "", some Error.unknown_method)
    | some method ↦ handle_request_message marshal tv.sender_id method tv.payload app
  ]

  unfoldable pub call_rpc : (V → String ⊎ Error) → Client ht V A → RpcHandler A → RequestHandler A
  unfolding call_capability
  call_rpc marshal hc (own_handler handler) tv app = handler tv app
  call_rpc marshal hc multi_cap_handler tv app =
      call_capability marshal (lookup tv.thing_id hc.cap_table) tv app

  -- The handler of a request to this client; with none the reply is empty and the error that of the
  -- address.
  unfoldable pub handle_request :
      (V → String ⊎ Error) → Client ht V A → Option Error → RequestHandler A
  unfolding call_rpc call_config
  handle_request marshal hc err tv app =
      let unhandled : A × String × Option Error = (app, "", err) in
      if tv.value_type == message_type_action
      then elim hc.action_handler [ none ↦ unhandled | some handler ↦ handler tv app ]
      else if tv.value_type == message_type_rpc
      then elim hc.rpc_handler [
        | none ↦ unhandled
        | some handler ↦ call_rpc marshal hc handler tv app
      ]
      else if tv.value_type == message_type_config
      then elim hc.config_handler [ none ↦ unhandled | some handler ↦ call_config handler tv app ]
      else unhandled

  -- What follows the splitting of the address. A message that is not for this client is an event.
  unfoldable pub route_request :
      (V → String ⊎ Error)
      → ℕ
      → String
      → Client ht V A
      → A
      → Subject × Option Error
      → A × String × Option Error × Bool
  unfolding handle_event handle_request new_thing_value
  route_request marshal now text hc app (parts, err) =
      let tv = new_thing_value now parts text in
      let (after, reply, failure) = handle_request marshal hc err tv app in
      if parts.agent_id /= hc.client_id
      then (handle_event hc tv err app, "", err, true)
      else (after, reply, failure, false)

  -- The state of the application, the reply, the error, and whether not to reply.
  unfoldable pub on_request :
      (V → String ⊎ Error)
      → ℕ
      → String
      → String
      → Client ht V A
      → A
      → A × String × Option Error × Bool
  unfolding route_request split_address
  on_request marshal now addr text hc app =
      route_request marshal now text hc app (split_address ht.address_tokens addr)
