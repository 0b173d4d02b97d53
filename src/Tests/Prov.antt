-- ===== src/Tests/Prov.antt =====
-- Provisioning requests on the hub of the fixtures.
use done_rest.Prelude.{
  ◌<◌, ◌≡◌, refl, some, List, [], ◌∷◌, arith, lookup, insert, true, false, Holds-cons, Holds-nil,
}
use done_rest.Auth.Roles.Defaults.{default_role_permissions}
use done_rest.Auth.Store.{
  add, rejection, save, get_entries, client_auth_info, added_entry, default_validity,
}
use done_rest.Auth.Clients.{Env, add_device, on_change}
use done_rest.Bus.Nats.{apply_clients, make_permissions, apply_auth}
use done_rest.Bus.Nats.Tokens.{user_claims, create_token, create_jwt_token, checked_encode}
use done_rest.Prov.{
  ProvisionStatus, ProvisionRequestArgs, ProvisionRequestResp, ProvState, answered, submit_request,
  submit_approved, answer, admitted, over_rpc, add_client, denial,
}
use done_rest.Prov.Requests.{
  IsRequest, AllRequests, Request, approves, rejects, pre_approves, submits, run, run-AllRequests,
}
use done_rest.Prov.Tokens.{IsGranted, submit_request_token}
use done_rest.Tests.Fixtures.{bus, env, hub}

abbrev waiting : ProvisionStatus
waiting = record {
  client_id = "dev";
  client_type = "";
  pub_key = "KD";
  mac = "";
  pending = true;
  approved_mse = 0;
  received_mse = 100;
  rejected_mse = 0;
  retry_sec = 60;
}

abbrev approved : ProvisionStatus
approved = record waiting { pending = false; approved_mse = 200; client_type = "device" }

abbrev keyless : ProvisionStatus
keyless = record approved { pub_key = "" }

abbrev asked : ProvState bus
asked = record { requests = ("dev", waiting) ∷ []; auth = hub }

abbrev granted : ProvState bus
granted = record { requests = ("dev", approved) ∷ []; auth = hub }

abbrev open_granted : ProvState bus
open_granted = record { requests = ("dev", keyless) ∷ []; auth = hub }

abbrev request : ProvisionRequestArgs
request = record { client_id = "dev"; mac = ""; pub_key = "KD" }

abbrev some_requests : List (Env × Request)
some_requests =
    (env, submits answered request)
    ∷ (env, approves "dev" "device")
    ∷ (env, submits answered request)
    ∷ (env, rejects "dev")
    ∷ (env, pre_approves [])
    ∷ []

asked-AllRequests : AllRequests bus asked
unfolding lookup
asked-AllRequests =
    Holds-cons IsRequest "dev" waiting []
      (record {
        keyed = refl;
        waiting = λ h. (refl, refl);
        decided = λ h. cc h;
        patient = λ h. (omega arith, omega arith, refl);
      })
      (Holds-nil IsRequest)

run-AllRequests_example : AllRequests bus (run bus some_requests asked)
run-AllRequests_example =
    run-AllRequests bus some_requests asked
      (omega arith, (omega arith, (omega arith, (omega arith, (omega arith, tt)))))
      asked-AllRequests

submit_request_token_example :
    (status : ProvisionStatus) × (lookup "dev" granted.requests ≡ some status)
    × (0 < status.approved_mse)
    × IsGranted status request
unfolding submit_request submit_approved admitted answer add_client add_device over_rpc add
    rejection save on_change apply_auth denial create_token create_jwt_token checked_encode lookup
    insert apply_clients get_entries make_permissions default_role_permissions client_auth_info
    added_entry default_validity user_claims
submit_request_token_example =
    submit_request_token bus env answered request granted
      (record {
        status = record approved { received_mse = 5000; pending = false };
        token = "jwt:dev";
      })
      refl (λ h. cc h)

abbrev keyless_resp : ProvisionRequestResp
keyless_resp = record {
  status = record keyless { received_mse = 5000; pending = false };
  token = "";
}
