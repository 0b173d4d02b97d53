-- ===== src/Prov.antt =====
-- The provisioning service, done_mod/mod_prov: prov_api and prov_srv/ManageIdProvService.go, over
-- the client management of the auth service, which it reaches by RPC.
pub mod Requests
pub mod Lifecycle
pub mod Tokens
use done_rest.Prelude.{
  ℕ, ◌+◌, String, Bool, true, false, ◌&&◌, ◌||◌, not, Option, none, some, List, [], ◌∷◌, Dict,
  lookup, insert, values, ltb, eqb, ◌==◌, ◌/=◌, if◌then◌else◌,
}
use done_rest.Errors.{Error}
use done_rest.Bus.Api.{MsgServer}
use done_rest.Auth.Api.{client_type_service}
use done_rest.Auth.Clients.{Env, AuthState, Response, add_device, add_service}

pub record ProvisionStatus : Type 0 where
  pub client_id : String
  pub client_type : String
  pub pub_key : String
  pub mac : String
  pub pending : Bool
  pub approved_mse : ℕ
  pub received_mse : ℕ
  pub rejected_mse : ℕ
  pub retry_sec : ℕ

pub record ProvisionRequestArgs : Type 0 where
  pub client_id : String
  pub mac : String
  pub pub_key : String

pub record GetRequestsArgs : Type 0 where
  pub approved : Bool
  pub pending : Bool
  pub rejected : Bool

pub record PreApprovedClient : Type 0 where
  pub client_id : String
  pub client_type : String
  pub mac : String
  pub pub_key : String

pub record ProvisionRequestResp : Type 0 where
  pub status : ProvisionStatus
  pub token : String

-- What happens to a call over the message bus: the auth service answers, or the request is lost,
-- or its answer is.
pub data Rpc : Type 0 where
  answered : Rpc
  request_lost answer_lost : Error → Rpc

unfoldable pub get_requests : GetRequestsArgs → List ProvisionStatus → List ProvisionStatus
get_requests args [] = []
get_requests args (status ∷ rest) =
    let others = get_requests args rest in
    if (status.pending && args.pending)
      || ((not (eqb status.approved_mse 0) && args.approved)
          || (not (eqb status.rejected_mse 0) && args.rejected))
    then status ∷ others
    else others

unfoldable pub approved_status : ℕ → String → ProvisionStatus → ProvisionStatus
approved_status now client_type status = record status {
  pending = false;
  client_type = client_type;
  approved_mse = now;
  rejected_mse = 0;
}

unfoldable pub rejected_status : ℕ → ProvisionStatus → ProvisionStatus
rejected_status now status = record status { pending = false; rejected_mse = now }

unfoldable pub pre_approved_status : ℕ → PreApprovedClient → ProvisionStatus
pre_approved_status now approval = record {
  client_id = approval.client_id;
  client_type = approval.client_type;
  pub_key = approval.pub_key;
  mac = approval.mac;
  pending = false;
  approved_mse = now;
  received_mse = 0;
  rejected_mse = 0;
  retry_sec = 0;
}

unfoldable pub new_status : ℕ → ProvisionRequestArgs → ProvisionStatus
new_status now args = record {
  client_id = args.client_id;
  client_type = "";
  pub_key = args.pub_key;
  mac = args.mac;
  pending = true;
  approved_mse = 0;
  received_mse = now;
  rejected_mse = 0;
  retry_sec = 60;
}

unfoldable pub still_rejected_status : ℕ → ProvisionStatus → ProvisionStatus
still_rejected_status now status = record status {
  retry_sec = 3600;
  received_mse = now;
  pending = false;
}

unfoldable pub repeated_status : ℕ → ProvisionStatus → ProvisionStatus
repeated_status now status = record status {
  pending = true;
  received_mse = now;
  retry_sec = if ltb status.retry_sec 600 then status.retry_sec + 30 else status.retry_sec;
}

-- The checks of an approved request, in their order.
unfoldable pub denial : ProvisionStatus → ProvisionRequestArgs → Option Error
denial status args =
    if status.pub_key /= "" && status.pub_key /= args.pub_key
    then some Error.pub_key_mismatch
    else if status.mac /= "" && status.mac /= args.mac
    then some Error.mac_mismatch
    else if args.pub_key == ""
    then some Error.missing_pub_key
    else none

unfoldable pub pre_approve :
    ℕ → List PreApprovedClient → Dict ProvisionStatus → Dict ProvisionStatus
unfolding pre_approved_status
pre_approve now [] requests = requests
pre_approve now (approval ∷ rest) requests = pre_approve now rest (
    if approval.client_id == ""
    then requests
    else insert approval.client_id (pre_approved_status now approval) requests)

pub record ProvState (m : MsgServer) : Type 0 where
  pub requests : Dict ProvisionStatus
  pub auth : AuthState m

module _ (m : MsgServer) where
  -- The new state, the response, which is nil beside an error, and the error.
  abbrev pub Reply : Type 0
  Reply = ProvState m × Option ProvisionRequestResp × Option Error

  unfoldable pub approve_request : ℕ → String → String → ProvState m → ProvState m × Option Error
  approve_request now client_id client_type svc = elim (lookup client_id svc.requests) [
    | none ↦ (svc, some Error.request_not_found)
    | some status ↦ (
      record svc {
        requests = insert client_id (approved_status now client_type status) svc.requests;
      },
      none,
    )
  ]

  unfoldable pub reject_request : ℕ → String → ProvState m → ProvState m × Option Error
  reject_request now client_id svc = elim (lookup client_id svc.requests) [
    | none ↦ (svc, some Error.request_not_found)
    | some status ↦
        (record svc { requests = insert client_id (rejected_status now status) svc.requests }, none)
  ]

  unfoldable pub pre_approve_clients : ℕ → List PreApprovedClient → ProvState m → ProvState m
  pre_approve_clients now approvals svc = record svc {
    requests = pre_approve now approvals svc.requests;
  }

  -- A call of the auth service over the bus.
  unfoldable pub over_rpc : Rpc → AuthState m → Response m → Response m
  over_rpc answered before r = r
  over_rpc (request_lost e) before r = (before, "", some e)
  over_rpc (answer_lost e) before r = (r.0, "", some e)

  -- The client is added with the public key of the approval, not with that of the request.
  unfoldable pub add_client : Env → ProvisionStatus → AuthState m → Response m
  add_client env status auth =
      if status.client_type == client_type_service
      then add_service m env status.client_id "service" status.pub_key auth
      else add_device m env status.client_id "device" status.pub_key auth

  unfoldable pub answer : String → ProvState m → ProvisionStatus → String → Reply
  answer client_id svc status token = (
    record svc { requests = insert client_id status svc.requests },
    some (record { status = status; token = token }),
    none,
  )

  unfoldable pub admitted :
      ProvisionRequestArgs → ProvState m → ProvisionStatus → Response m → Reply
  admitted args svc status (auth, token, some e) = (record svc { auth = auth }, none, some e)
  admitted args svc status (auth, token, none) =
      answer args.client_id (record svc { auth = auth }) status token

  unfoldable pub submit_approved :
      Env → Rpc → ProvisionRequestArgs → ProvState m → ProvisionStatus → Reply
  submit_approved env rpc args svc status = elim (denial status args) [
    | some e ↦ (svc, none, some e)
    | none ↦
        let status' = record status { received_mse = env.now; pending = false } in
        admitted args svc status' (over_rpc rpc svc.auth (add_client env status' svc.auth))
  ]

  unfoldable pub submit_request : Env → Rpc → ProvisionRequestArgs → ProvState m → Reply
  submit_request env rpc args svc = elim (lookup args.client_id svc.requests) [
    | none ↦ answer args.client_id svc (new_status env.now args) ""
    | some status ↦
        if not (eqb status.approved_mse 0)
        then submit_approved env rpc args svc status
        else if not (eqb status.rejected_mse 0)
        then answer args.client_id svc (still_rejected_status env.now status) ""
        else answer args.client_id svc (repeated_status env.now status) ""
  ]
