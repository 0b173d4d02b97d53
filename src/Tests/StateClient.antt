-- ===== src/Tests/StateClient.antt =====
-- A caller that reads its value in a state service over the network.
use done_rest.Prelude.{ℕ, String, true, false, ◌⊎◌, inl, inr, none, []}
use done_rest.Errors.{Error}
use done_rest.Transport.Nats.{NatsLibrary, nats_transport, new_nats_transport}
use done_rest.Transport.Delivery.{asked}
use done_rest.Cli.{Client, new_hub_client_from_transport}
use done_rest.Buckets.Bolts.Bucket.{set as bucket_set, get as bucket_get}
use done_rest.Buckets.Bolts.Store.{BoltStore}
use done_rest.Buckets.Bolts.Store.Interface.{bolt_store}
use done_rest.State.{set, get as service_get}
use done_rest.State.Messages.{Message, Serializer, delete_args, get_args, get_resp}
use done_rest.State.Client.{get}
use done_rest.Tests.Databases.{Buckets, in_memory}

-- A serializer for the messages about the key "k".
abbrev wire_text : Message → String
wire_text (get_args key) = key
wire_text (get_resp resp) = resp.value
wire_text _ = ""

abbrev for_k : Serializer
for_k = record {
  encode = wire_text;
  decode_delete = λ text. inl (delete_args text);
  decode_get = λ text. inl (get_args text);
  decode_get_multiple = λ text. inr Error.unmarshal_failed;
  decode_set = λ text. inr Error.unmarshal_failed;
  decode_set_multiple = λ text. inr Error.unmarshal_failed;
  decode_get_resp = λ text. inl (record { key = "k"; found = true; value = text });
  decode_get_multiple_resp = λ text. inr Error.unmarshal_failed;
}

abbrev state_nats : NatsLibrary
state_nats = record {
  Conn = ℕ;
  KeyPair = String;
  default_url = "nats://127.0.0.1:4222";
  connect = λ options. inl 0;
  jet_stream = λ conn. none;
  close = λ nc. none;
  publish = λ subject text nc. (nc, none);
  request = λ subject text nc. (nc, inl (asked subject "inbox" "1"));
  subscribe = λ subject nc. (nc, none, true);
  seed = λ kp. kp;
  public_key = λ kp. kp;
  is_jwt = λ token. false;
}

abbrev as_record : String → String ⊎ Error
as_record text = inl text

abbrev words : Error → String
words e = "failed"

abbrev alice : Client (nats_transport state_nats) ℕ ℕ
unfolding new_hub_client_from_transport new_nats_transport
alice =
    new_hub_client_from_transport (nats_transport state_nats)
      (new_nats_transport state_nats "" "alice") "alice"

abbrev state_agent : Client (nats_transport state_nats) Message (BoltStore Buckets)
unfolding new_hub_client_from_transport new_nats_transport
state_agent =
    new_hub_client_from_transport (nats_transport state_nats)
      (new_nats_transport state_nats "" "state") "state"

abbrev with_value : BoltStore Buckets
unfolding set bucket_set
with_value =
    (set (bolt_store in_memory) "alice" "k" "1"
      (record { bolt_db = []; store_path = "state"; bucket_ref_count = 0 })).0
