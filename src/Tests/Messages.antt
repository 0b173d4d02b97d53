-- ===== src/Tests/Messages.antt =====
-- Two hub clients on a NATS library that answers at once: a service with the capability "greeter" and
-- its caller.
use Prim.Native.String.{◌++◌ as append_text}
use done_rest.Prelude.{
  ℕ, String, true, false, ◌≡◌, ◌≢◌, ◌⊎◌, ◌↔◌, inl, arith, none, some, List, [], ◌∷◌, Dict,
}
use done_rest.Errors.{Error}
use done_rest.Transport.Subjects.{or_default}
use done_rest.Transport.Nats.{NatsMsg, NatsLibrary, nats_transport, new_nats_transport}
use done_rest.Transport.Delivery.{Answers, asked, addressee, receive, receive-Answers}
use done_rest.Cli.{
  Client, new_hub_client_from_transport, set_rpc_handler, set_rpc_capability, own_handler,
  RequestHandler, listen, with_rpc_handler,
}
use done_rest.Cli.Address.{
  nats_tokens, make_address, split_address, split_address-make_address, event,
}
use done_rest.Cli.Requests.{
  Method, Results, Arg, sender, value, service_context, payload, response, no_results,
}
use done_rest.Cli.Capabilities.{set_capabilities}

abbrev greeting : List (Arg String) → List String → List String × Results String
greeting (sender s ∷ value v ∷ []) app = (s ∷ app, response (some (append_text v s)) none)
greeting _ app = (app, no_results)

-- Greets the sender with the text of the payload, and keeps a list of the senders.
abbrev greet : Method String (List String)
greet = record { params = service_context ∷ payload inl ∷ []; call = greeting }

abbrev pub quick_nats : NatsLibrary
quick_nats = record {
  Conn = ℕ;
  KeyPair = String;
  default_url = "nats://127.0.0.1:4222";
  connect = λ options. inl 0;
  jet_stream = λ conn. none;
  close = λ nc. none;
  publish = λ subject text nc. (nc, none);
  request = λ subject text nc. (nc, inl (asked subject "inbox" "hi alice"));
  subscribe = λ subject nc. (nc, none, true);
  seed = λ kp. kp;
  public_key = λ kp. kp;
  is_jwt = λ token. false;
}

unfoldable pub connected_as : String → Client (nats_transport quick_nats) String (List String)
unfolding new_hub_client_from_transport new_nats_transport
connected_as client_id =
    new_hub_client_from_transport (nats_transport quick_nats)
      (new_nats_transport quick_nats "" client_id) client_id

abbrev methods : Dict (Method String (List String))
methods = ("greet", greet) ∷ []

abbrev service : Client (nats_transport quick_nats) String (List String)
unfolding set_capabilities set_rpc_capability with_rpc_handler set_rpc_handler listen
service =
    set_capabilities (nats_transport quick_nats) (("greeter", methods) ∷ []) (connected_as "svc")

abbrev words : Error → String
words e = "failed"

abbrev as_text : String → String ⊎ Error
as_text s = inl s

split_address-make_address_example :
    split_address nats_tokens (make_address nats_tokens "" "svc" "" "load" "svc") ≡ (
      record {
        msg_type = "event";
        agent_id = "svc";
        thing_id = "*";
        name = "load";
        sender_id = "svc";
      },
      none,
    )
unfolding or_default
split_address-make_address_example =
    split_address-make_address nats_tokens "" "svc" "" "load" "svc" event (omega arith)

abbrev refuses : RequestHandler (List String)
refuses tv app = (app, "", some Error.unknown_method)

abbrev own_service : Client (nats_transport quick_nats) String (List String)
own_service = record (connected_as "svc") { rpc_handler = some (own_handler refuses) }

abbrev request_msg : NatsMsg
request_msg = asked "action.svc.lamp.on.alice" "inbox" ""

receive-Answers_example :
    Answers (receive quick_nats words as_text 9 service request_msg [])
    ↔ (request_msg.reply ≢ "")
      × (service.transport.request_handler ≡ true)
      × (addressee request_msg ≡ service.client_id)
receive-Answers_example = receive-Answers quick_nats words as_text 9 service request_msg []
