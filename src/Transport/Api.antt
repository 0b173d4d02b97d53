-- ===== src/Transport/Api.antt =====
-- done_cli/cli_done/transport/IHubTransport.go: the status of a connection and the interface
-- IHubTransport that the hub client uses.
use done_rest.Prelude.{String, Option}
use done_rest.Errors.{Error}
use done_rest.Cli.Address.{AddressTokens}

pub data ConnectionStatus : Type 0 where
  connecting connected connect_failed disconnected expired unauthorized : ConnectionStatus

-- The certificate of the hub is left out.
pub record HubTransportStatus : Type 0 where
  pub hub_url : String
  pub client_id : String
  pub connection_status : ConnectionStatus
  pub last_error : Option Error

-- The handlers that are set on a transport are always the hub client's own, so that a transport
-- remembers only whether they are set. A new key pair, of CreateKeyPair, is an argument of its caller.
pub record HubTransport : Type 1 where
  pub Transport : Type 0
  pub KeyPair : Type 0
  pub address_tokens : AddressTokens
  pub connect_with_password : String → Transport → Transport × Option Error
  pub connect_with_token : KeyPair → String → Transport → Transport × Option Error
  pub disconnect : Transport → Transport
  pub get_status : Transport → HubTransportStatus
  pub pub_event : String → String → Transport → Transport × Option Error
  pub pub_request : String → String → Transport → Transport × String × Option Error
  pub set_event_handler : Transport → Transport
  pub set_request_handler : Transport → Transport
  pub subscribe : String → Transport → Transport × Option Error
