-- ===== src/Transport/Nats.antt =====
-- done_cli/cli_done/transport/NatsTransport.go: the transport over a connection of the NATS library.
use Prim.Native.String.{◌++◌ as append_text}
use done_rest.Prelude.{
  String, Bool, true, false, ◌⊎◌, inl, inr, Option, none, some, [], Dict, lookup, insert, ◌==◌,
  if◌then◌else◌,
}
use done_rest.Errors.{Error}
use done_rest.Cli.Address.{nats_tokens}
use done_rest.Transport.{message_type_inbox}
use done_rest.Transport.Api.{connected, disconnected, HubTransportStatus, HubTransport}

-- A message of the library. A header is `none` for a nil map; of each key the first value is kept.
pub record NatsMsg : Type 0 where
  pub subject : String
  pub reply : String
  pub payload : String
  pub header : Option (Dict String)

-- The ways to log in to the server.
pub data Credentials : Type 0 where
  user_info : String → String → Credentials
  -- the public key; the challenge is signed with the key pair
  nkey : String → Credentials
  -- the token and the seed
  user_jwt : String → String → Credentials

-- The options of a connection; TLS, the timeout and the handlers are the same in each.
pub record ConnectOptions : Type 0 where
  pub url : String
  pub name : String
  pub inbox_prefix : String
  pub credentials : Credentials

-- The library: connections and their calls, and the keys of nkeys. A call on a nil connection is the
-- library's too.
pub record NatsLibrary : Type 1 where
  pub Conn : Type 0
  pub KeyPair : Type 0
  pub default_url : String
  pub connect : ConnectOptions → Conn ⊎ Error
  pub jet_stream : Conn → Option Error
  pub close : Option Conn → Option Conn
  pub publish : String → String → Option Conn → Option Conn × Option Error
  pub request : String → String → Option Conn → Option Conn × (NatsMsg ⊎ Error)
  -- the subscription's error and validity
  pub subscribe : String → Option Conn → Option Conn × Option Error × Bool
  pub seed : KeyPair → String
  pub public_key : KeyPair → String
  pub is_jwt : String → Bool

-- `nc` is `none` for a nil connection. The handlers that the hub client sets are its own.
pub record NatsTransport (Conn : Type 0) : Type 0 where
  pub client_id : String
  pub nc : Option Conn
  pub server_url : String
  pub status : HubTransportStatus
  pub event_handler : Bool
  pub request_handler : Bool

module _ (lib : NatsLibrary) where
  open lib use {Conn, KeyPair}

  -- The URL may be empty.
  unfoldable pub new_nats_transport : String → String → NatsTransport Conn
  new_nats_transport url client_id =
      let server_url = if url == "" then lib.default_url else url in
      record {
        client_id = client_id;
        nc = none;
        server_url = server_url;
        status = record {
          hub_url = server_url;
          client_id = client_id;
          connection_status = disconnected;
          last_error = none;
        };
        event_handler = false;
        request_handler = false;
      }

  -- The connection is kept also if JetStream fails, and is nil if it failed itself.
  unfoldable pub connected_with :
      Conn ⊎ Error → NatsTransport Conn → NatsTransport Conn × Option Error
  connected_with (inr e) nt = (record nt { nc = none }, some e)
  connected_with (inl conn) nt = (record nt { nc = some conn }, lib.jet_stream conn)

  unfoldable pub connect_as : Credentials → NatsTransport Conn → NatsTransport Conn × Option Error
  unfolding connected_with
  connect_as credentials nt =
      connected_with
        (lib.connect (record {
          url = nt.server_url;
          name = nt.client_id;
          inbox_prefix = append_text message_type_inbox (append_text "." nt.client_id);
          credentials = credentials;
        }))
        nt

  unfoldable pub connect_with_jwt :
      KeyPair → String → NatsTransport Conn → NatsTransport Conn × Option Error
  unfolding connect_as
  connect_with_jwt my_key jwt_token = connect_as (user_jwt jwt_token (lib.seed my_key))

  unfoldable pub connect_with_key : KeyPair → NatsTransport Conn → NatsTransport Conn × Option Error
  unfolding connect_as
  connect_with_key my_key = connect_as (nkey (lib.public_key my_key))

  unfoldable pub connect_with_password :
      String → NatsTransport Conn → NatsTransport Conn × Option Error
  unfolding connect_as
  connect_with_password password nt = connect_as (user_info nt.client_id password) nt

  -- A text that is no token is ignored, and the key logs in by itself.
  unfoldable pub connect_with_token :
      KeyPair → String → NatsTransport Conn → NatsTransport Conn × Option Error
  unfolding connect_with_jwt connect_with_key
  connect_with_token my_key token nt =
      if lib.is_jwt token then connect_with_jwt my_key token nt else connect_with_key my_key nt

  unfoldable pub disconnect : NatsTransport Conn → NatsTransport Conn
  disconnect nt = record nt { nc = lib.close nt.nc }

  -- The status that the connect handler gets.
  unfoldable pub on_connected : NatsTransport Conn → NatsTransport Conn × HubTransportStatus
  on_connected nt =
      let status = record (nt.status) { connection_status = connected; last_error = none } in
      (record nt { status = status }, status)

  unfoldable pub on_disconnect :
      Option Error → NatsTransport Conn → NatsTransport Conn × HubTransportStatus
  on_disconnect err nt =
      let status = record (nt.status) { connection_status = disconnected; last_error = err } in
      (record nt { status = status }, status)

  unfoldable pub pub_event :
      String → String → NatsTransport Conn → NatsTransport Conn × Option Error
  pub_event subject text nt =
      let (after, err) = lib.publish subject text nt.nc in (record nt { nc = after }, err)

  unfoldable pub subscribe : String → NatsTransport Conn → NatsTransport Conn × Option Error
  subscribe subject nt =
      let (after, err, is_valid) = lib.subscribe subject nt.nc in
      let failed : Option Error = some Error.subscribe_failed in
      (
        record nt { nc = after },
        elim err [ some e ↦ failed | none ↦ if is_valid then none else failed ],
      )

  unfoldable pub set_event_handler : NatsTransport Conn → NatsTransport Conn
  set_event_handler nt = record nt { event_handler = true }

  unfoldable pub set_request_handler : NatsTransport Conn → NatsTransport Conn
  set_request_handler nt = record nt { request_handler = true }

-- The error that the header tells of; the texts of errors are those of `Error.external`.
unfoldable pub error_of_header : Option (Dict String) → Option Error
error_of_header none = none
error_of_header (some header) = elim (lookup "error" header) [
  | none ↦ none
  | some text ↦ if text == "" then none else some (Error.external text)
]

unfoldable pub reply_of : NatsMsg ⊎ Error → String × Option Error
unfolding error_of_header
reply_of (inr e) = ("", some e)
reply_of (inl resp) = (resp.payload, error_of_header resp.header)

unfoldable pub pub_request :
    (lib : NatsLibrary)
    → String
    → String
    → NatsTransport lib.Conn
    → NatsTransport lib.Conn × String × Option Error
unfolding reply_of
pub_request lib subject text nt =
    let (after, answer) = lib.request subject text nt.nc in
    let (reply, err) = reply_of answer in (record nt { nc = after }, reply, err)

-- The header gets the error, on a new map if it is nil.
unfoldable pub with_error : (Error → String) → Option Error → NatsMsg → NatsMsg
with_error error_text none msg = msg
with_error error_text (some e) msg = elim msg.header [
  | none ↦ record msg { header = some (insert "error" (error_text e) []) }
  | some header ↦ record msg { header = some (insert "error" (error_text e) header) }
]

-- What onMessage does: nothing, a call of the event handler, a response, or a panic.
pub data Handled (A : Type 0) : Type 0 where
  ignored : A → Handled A
  answered : A → NatsMsg → Handled A
  panics : A → Handled A

-- The answer to a request that the handler answered.
unfoldable pub respond :
    {A : Type 0} → (Error → String) → NatsMsg → A × String × Option Error × Bool → Handled A
unfolding with_error
respond error_text msg (after, reply, err, true) = ignored after
respond error_text msg (after, reply, err, false) =
    answered after (with_error error_text err (record msg { payload = reply }))

-- A request without a handler writes to the header, which panics if that is nil, and is not
-- answered.
unfoldable pub unhandled : {A : Type 0} → NatsMsg → A → Handled A
unhandled msg app = elim msg.header [ none ↦ panics app | some header ↦ ignored app ]

-- The handlers are those of the hub client, on the state of its application.
unfoldable pub on_message :
    {Conn A : Type 0}
    → (Error → String)
    → (String → String → A → A)
    → (String → String → A → A × String × Option Error × Bool)
    → NatsTransport Conn
    → NatsMsg
    → A
    → Handled A
unfolding respond unhandled
on_message error_text event_handler request_handler nt msg app =
    if msg.reply == ""
    then ignored (if nt.event_handler then event_handler msg.subject msg.payload app else app)
    else if nt.request_handler
    then respond error_text msg (request_handler msg.subject msg.payload app)
    else unhandled msg app

-- NatsTransport as an IHubTransport.
abbrev pub nats_transport : NatsLibrary → HubTransport
nats_transport lib = record {
  Transport = NatsTransport lib.Conn;
  KeyPair = lib.KeyPair;
  address_tokens = nats_tokens;
  connect_with_password = connect_with_password lib;
  connect_with_token = connect_with_token lib;
  disconnect = disconnect lib;
  get_status = λ nt. nt.status;
  pub_event = pub_event lib;
  pub_request = pub_request lib;
  set_event_handler = set_event_handler lib;
  set_request_handler = set_request_handler lib;
  subscribe = subscribe lib;
}
