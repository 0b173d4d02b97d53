-- ===== src/State/Client/Answered.antt =====
-- What comes back to a caller of the state service over the network: Get of state_cli/StateClient.go,
-- the transports between, and Get of state_srv/StateService.go.
use done_rest.Prelude.{String, ◌⊎◌, inl, Option, none, some}
use done_rest.Errors.{Error}
use done_rest.Transport.{message_type_rpc}
use done_rest.Transport.Nats.{NatsLibrary, nats_transport}
use done_rest.Cli.{Client}
use done_rest.Cli.Publishing.{request_address}
use done_rest.State.{GetResp, get as service_get}
use done_rest.State.Client.{get}
use done_rest.State.Messages.{Message, Serializer, state_service_name, storage_cap, get_method}

-- The response that a caller hears of, or the text of the error.
abbrev pub heard : (Error → String) → GetResp → Option Error → Option GetResp × Option Error
heard error_text resp none = (some resp, none)
heard error_text resp (some e) = (none, some (Error.external (error_text e)))

abbrev pub encoded : Serializer → Message → String ⊎ Error
encoded ser m = inl (ser.encode m)

-- The subject of a request of a client for a key of its own.
abbrev pub get_subject :
    (lib : NatsLibrary) {U B : Type 0} → Client (nats_transport lib) U B → String
get_subject lib client =
    request_address (nats_transport lib) message_type_rpc state_service_name storage_cap get_method
      client
