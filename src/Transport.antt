-- ===== src/Transport.antt =====
-- The transport of the hub client, done_cli/cli_done/transport: the message types of
-- IHubTransport.go and the subjects of subjects.go (Subjects, Split).
pub mod Api
pub mod Nats
pub mod Delivery
pub mod Split
pub mod Subjects
use done_rest.Prelude.{String}

abbrev pub message_type_action : String
message_type_action = "action"

abbrev pub message_type_config : String
message_type_config = "config"

abbrev pub message_type_event : String
message_type_event = "event"

abbrev pub message_type_rpc : String
message_type_rpc = "rpc"

abbrev pub message_type_inbox : String
message_type_inbox = "_INBOX"

abbrev pub event_name_props : String
event_name_props = "$properties"

abbrev pub event_name_td : String
event_name_td = "$td"
