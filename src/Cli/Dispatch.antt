-- ===== src/Cli/Dispatch.antt =====
-- Which handler of a hub client gets a message, in done_cli/cli_done/HubClient.go.
use Prim.Native.Char.{code}
use done_rest.Prelude.{
  ℕ, String, false, ◌≡◌, ◌≢◌, ◌⊎◌, refl, ap, ◌∙◌, Option, none, some, eq_refl, ne→false,
}
use done_rest.Errors.{Error}
use done_rest.Hist.{ThingValue}
use done_rest.Transport.{message_type_event, message_type_rpc}
use done_rest.Transport.Api.{HubTransport}
use done_rest.Transport.Split.{Avoids}
use done_rest.Transport.Subjects.{or_default}
use done_rest.Cli.{Client, RpcHandler, new_thing_value, call_rpc, route_request, on_request}
use done_rest.Cli.Address.{
  AddressTokens, IsMessageType, rpc, make_address, split_address, split_address-make_address,
}

-- A part of an address as a sender writes it: not empty, and without the separator.
abbrev pub IsPart : AddressTokens → String → Type 0
IsPart t s = (s ≢ "") × Avoids (code t.sep) s

or_default_given : (s default : String) → s ≢ "" → or_default s default ≡ s
unfolding or_default
or_default_given s default h = rw (ne→false s "" h) refl

-- A request of a client to a Thing or capability is split into what it was made of.
pub split_address_request :
    (t : AddressTokens) (msg_type agent_id thing_id name client_id : String)
    → IsMessageType msg_type
    → IsPart t msg_type
    → IsPart t agent_id
    → IsPart t thing_id
    → IsPart t name
    → IsPart t client_id
    → split_address t (make_address t msg_type agent_id thing_id name client_id) ≡ (
      record {
        msg_type = msg_type;
        agent_id = agent_id;
        thing_id = thing_id;
        name = name;
        sender_id = client_id;
      },
      none,
    )
split_address_request t msg_type agent_id thing_id name client_id is_type m a th n c =
    let same_m = or_default_given msg_type message_type_event m.0 in
    let same_a = or_default_given agent_id t.wc a.0 in
    let same_th = or_default_given thing_id t.wc th.0 in
    let same_n = or_default_given name t.wc n.0 in
    let same_c = or_default_given client_id t.rem c.0 in
    let whole =
      split_address-make_address t msg_type agent_id thing_id name client_id (rw same_m is_type)
        (rw (same_m, same_a, same_th, same_n, same_c) (m.1, (a.1, (th.1, (n.1, (c.1, tt)))))) in
    rw (same_m, same_a, same_th, same_n, same_c) at whole

abbrev pub rpc_value : ℕ → String → String → String → String → String → ThingValue
rpc_value now caller agent_id capability method_name text =
    new_thing_value now
      (record {
        msg_type = message_type_rpc;
        agent_id = agent_id;
        thing_id = capability;
        name = method_name;
        sender_id = caller;
      })
      text

-- The parts that make up the address of an RPC request.
pub record AreParts (t : AddressTokens) (caller capability method_name agent_id : String)
    : Type 0 where
  pub type_part : IsPart t message_type_rpc
  pub caller_part : IsPart t caller
  pub capability_part : IsPart t capability
  pub method_part : IsPart t method_name
  pub agent_part : IsPart t agent_id

split_address-rpc_address :
    (t : AddressTokens) (caller capability method_name agent_id : String)
    → AreParts t caller capability method_name agent_id
    → split_address t (make_address t message_type_rpc agent_id capability method_name caller) ≡ (
      record {
        msg_type = message_type_rpc;
        agent_id = agent_id;
        thing_id = capability;
        name = method_name;
        sender_id = caller;
      },
      none,
    )
split_address-rpc_address t caller capability method_name agent_id p =
    split_address_request t message_type_rpc agent_id capability method_name caller rpc p.type_part
      p.agent_part p.capability_part p.method_part p.caller_part

module _ (ht : HubTransport) {V A : Type 0} where
  -- A request to a method of a capability of a client, in the name of its caller.
  abbrev pub rpc_address : String → String → String → Client ht V A → String
  rpc_address caller capability method_name hc =
      make_address ht.address_tokens message_type_rpc hc.client_id capability method_name caller

  route_request-rpc :
      (marshal : V → String ⊎ Error) (now : ℕ) (caller capability method_name text : String)
      (hc : Client ht V A) (handler : RpcHandler A) (app : A)
      → hc.rpc_handler ≡ some handler
      → route_request ht marshal now text hc app (
        record {
          msg_type = message_type_rpc;
          agent_id = hc.client_id;
          thing_id = capability;
          name = method_name;
          sender_id = caller;
        },
        none,
      )
        ≡ (let (after, reply, err) =
              call_rpc ht marshal hc handler
                (rpc_value now caller hc.client_id capability method_name text)
                app in
            (after, reply, err, false))
  unfolding route_request
  route_request-rpc marshal now caller capability method_name text hc handler app h =
      let tv = rpc_value now caller hc.client_id capability method_name text in
      rw (eq_refl hc.client_id) (
        ap
          (λ (o : Option (RpcHandler A)).
            let r = elim o as (λ _. A × String × Option Error) [
              | none ↦ (app, "", none)
              | some f ↦ call_rpc ht marshal hc f tv app
            ] in
            (r.0, r.1, r.2, false))
          h)

  -- A request to a client that has an RPC handler comes to that handler.
  pub on_request-rpc_address :
      (marshal : V → String ⊎ Error) (now : ℕ) (caller capability method_name text : String)
      (hc : Client ht V A) (handler : RpcHandler A) (app : A)
      → AreParts ht.address_tokens caller capability method_name hc.client_id
      → hc.rpc_handler ≡ some handler
      → on_request ht marshal now (rpc_address caller capability method_name hc) text hc app ≡ (
          let (after, reply, err) =
            call_rpc ht marshal hc handler
              (rpc_value now caller hc.client_id capability method_name text)
              app in
          (after, reply, err, false))
  unfolding on_request
  on_request-rpc_address marshal now caller capability method_name text hc handler app p h =
      ap (route_request ht marshal now text hc app)
        (split_address-rpc_address ht.address_tokens caller capability method_name hc.client_id p)
      ∙ route_request-rpc marshal now caller capability method_name text hc handler app h
