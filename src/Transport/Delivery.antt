-- ===== src/Transport/Delivery.antt =====
-- Requests from one hub client to another over NATS: PubRPCRequest of HubClient.go, onMessage and
-- PubRequest of NatsTransport.go, and onRequest and HandleRequestMessage of the client that serves.
use done_rest.Prelude.{
  ℕ, String, true, ◌≡◌, ◌≢◌, ◌⊎◌, ◌↔◌, inl, inr, refl, ap, sym, ◌∙◌, Option, none, some, [],
  lookup-insert_self, ◌==◌, eq_iff, ne→false, Bool-cases, Option-cases,
}
use done_rest.Errors.{Error}
use done_rest.Transport.{message_type_rpc}
use done_rest.Transport.Subjects.{Subject}
use done_rest.Transport.Nats.{
  NatsMsg, NatsLibrary, nats_transport, on_message, Handled, ignored, answered, panics, respond,
  with_error, error_of_header, reply_of, unhandled, pub_request,
}
use done_rest.Cli.Dispatch.{AreParts, rpc_address, rpc_value, on_request-rpc_address}
use done_rest.Cli.Publishing.{pub_rpc_request, decode_response, request_address}
use done_rest.Cli.{call_rpc, RpcHandler, Client, on_request, on_event, route_request}
use done_rest.Cli.Address.{split_address, nats_tokens}

-- The agent that the address of a message names.
abbrev pub addressee : NatsMsg → String
addressee msg = (split_address nats_tokens msg.subject).0.agent_id

-- An error as its receiver has it, by its text.
unfoldable pub by_text : (Error → String) → Option Error → Option Error
by_text error_text none = none
by_text error_text (some e) = some (Error.external (error_text e))

-- The header of a response carries the text of an error over, if it is not empty.
reply_of-with_error :
    (error_text : Error → String) (err : Option Error) (subject inbox reply : String)
    → ((e : Error) → error_text e ≢ "")
    → reply_of (
        inl (
          with_error error_text err
            (record { subject = subject; reply = inbox; payload = reply; header = none })))
      ≡ (reply, by_text error_text err)
unfolding reply_of with_error error_of_header by_text
reply_of-with_error error_text none subject inbox reply texts = refl
reply_of-with_error error_text (some e) subject inbox reply texts =
    rw (lookup-insert_self "error" (error_text e) [], error_of_header)
      (rw (ne→false (error_text e) "" (texts e)) refl)

abbrev pub asked : String → String → String → NatsMsg
asked subject inbox text = record {
  subject = subject;
  reply = inbox;
  payload = text;
  header = none;
}

abbrev pub Answers : {A : Type 0} → Handled A → Type 0
Answers (answered after resp) = Unit
Answers (ignored after) = ⊥
Answers (panics after) = ⊥

-- An event or a request as the hub client of a transport handles it.
module _ (lib : NatsLibrary) {V A : Type 0} (error_text : Error → String)
    (marshal : V → String ⊎ Error) (now : ℕ) where
  unfoldable pub receive : Client (nats_transport lib) V A → NatsMsg → A → Handled A
  unfolding on_message
  receive hc =
      on_message error_text (λ addr text. on_event (nats_transport lib) now addr text hc)
        (λ addr text. on_request (nats_transport lib) marshal now addr text hc) hc.transport

  respond_routed :
      (hc : Client (nats_transport lib) V A) (msg : NatsMsg) (app : A) (parts : Subject)
      (err : Option Error)
      → Answers (
          respond error_text msg
            (route_request (nats_transport lib) marshal now msg.payload hc app (parts, err)))
        ↔ (parts.agent_id ≡ hc.client_id)
  unfolding respond route_request
  respond_routed hc msg app parts err = elim (Bool-cases (parts.agent_id == hc.client_id)) [
    | inl own ↦ rw own ((λ _. (eq_iff parts.agent_id hc.client_id).0 own), (λ _. tt))
    | inr other ↦
        rw other ((λ h. absurd h), (λ e. cc (other, (eq_iff parts.agent_id hc.client_id).1 e)))
  ]

  -- A message is answered exactly if it has a reply address, the client listens for requests, and
  -- the address names the client as the agent; then it is answered whatever handlers the client has
  -- for its type, and whatever they return.
  pub receive-Answers :
      (hc : Client (nats_transport lib) V A) (msg : NatsMsg) (app : A)
      → Answers (receive hc msg app) ↔ (
          (msg.reply ≢ "") × (hc.transport.request_handler ≡ true) × (addressee msg ≡ hc.client_id))
  unfolding receive unhandled on_request
  receive-Answers hc msg app = elim (Bool-cases (msg.reply == "")) [
    | inl silent ↦ rw silent ((λ h. absurd h), (λ h. absurd (h.0 ((eq_iff msg.reply "").0 silent))))
    | inr asks ↦
        let some_reply : msg.reply ≢ "" = λ e. cc (asks, (eq_iff msg.reply "").1 e) in
        elim (Bool-cases hc.transport.request_handler) [
          | inl listens ↦
              let both = respond_routed hc msg app _ (split_address nats_tokens msg.subject).1 in
              rw (asks, listens) ((λ h. (some_reply, refl, both.0 h)), (λ h. both.1 h.2))
          | inr deaf ↦ elim (Option-cases msg.header) [
            | inl bare ↦ rw (asks, deaf, bare) ((λ h. absurd h), (λ h. cc h.1))
            | inr (header, there) ↦ rw (asks, deaf, there) ((λ h. absurd h), (λ h. cc h.1))
          ]
        ]
  ]

  receive-rpc :
      (caller capability method_name inbox text : String) (hc : Client (nats_transport lib) V A)
      (handler : RpcHandler A) (app : A)
      → AreParts nats_tokens caller capability method_name hc.client_id
      → hc.rpc_handler ≡ some handler
      → hc.transport.request_handler ≡ true
      → inbox ≢ ""
      → let subject = rpc_address (nats_transport lib) caller capability method_name hc in
        receive hc (asked subject inbox text) app ≡ (
          let (after, reply, err) =
            call_rpc
              (nats_transport lib)
              marshal
              hc
              handler
              (rpc_value now caller hc.client_id capability method_name text)
              app in
          answered after (with_error error_text err (asked subject inbox reply)))
  unfolding receive on_request call_rpc
  receive-rpc caller capability method_name inbox text hc handler app p h listens asks =
      let subject = rpc_address (nats_transport lib) caller capability method_name hc in
      rw (ne→false inbox "" asks, listens)
        (ap (respond error_text (asked subject inbox text)) (
          on_request-rpc_address (nats_transport lib) marshal now caller capability method_name text
            hc handler app p h))

-- The same for an answer that is known.
pub pub_rpc_request-answered :
    (lib : NatsLibrary) {V A U B R : Type 0} (error_text : Error → String)
    (marshal : V → String ⊎ Error) (now : ℕ) (capability method_name inbox text : String)
    (decode : Option (String → R ⊎ Error)) (client : Client (nats_transport lib) U B)
    (hc : Client (nats_transport lib) V A) (handler : RpcHandler A) (app after : A) (resp : NatsMsg)
    → ((e : Error) → error_text e ≢ "")
    → AreParts nats_tokens client.client_id capability method_name hc.client_id
    → hc.rpc_handler ≡ some handler
    → hc.transport.request_handler ≡ true
    → inbox ≢ ""
    → let subject =
        request_address
          (nats_transport lib)
          message_type_rpc
          hc.client_id
          capability
          method_name
          client in
      receive lib error_text marshal now hc (asked subject inbox text) app ≡ answered after resp
      → (lib.request subject text client.transport.nc).1 ≡ inl resp
      → let (served, reply, err) =
          call_rpc
            (nats_transport lib)
            marshal
            hc
            handler
            (rpc_value now client.client_id hc.client_id capability method_name text)
            app in
        let (caller, result, failure) =
          pub_rpc_request
            (nats_transport lib)
            hc.client_id
            capability
            method_name
            text
            decode
            client in
        (after ≡ served)
        × ((result, failure) ≡ decode_response decode reply (by_text error_text err))
unfolding pub_rpc_request request_address pub_request
pub_rpc_request-answered lib {V} {A} error_text marshal now capability method_name inbox text decode
      client hc handler app after resp texts p h listens asks answers arrives =
    let served =
      call_rpc (nats_transport lib) marshal hc handler
        (rpc_value now client.client_id hc.client_id capability method_name text) app in
    let subject = rpc_address (nats_transport lib) client.client_id capability method_name hc in
    let given =
      sym answers
      ∙ receive-rpc lib error_text marshal now client.client_id capability method_name inbox text hc
          handler app p h listens asks in
    let same : after ≡ served.0 = cc given in
    let sent : resp ≡ with_error error_text served.2 (asked subject inbox served.1) = cc given in
    let back =
      ap reply_of (arrives ∙ ap inl sent)
      ∙ reply_of-with_error error_text served.2 subject inbox served.1 texts in
    (
      same,
      rw (ne→false capability "" p.capability_part.0, ne→false method_name "" p.method_part.0)
          (ap (λ (r : String × Option Error). decode_response decode r.0 r.1) back),
    )
