-- ===== src/Prov/Lifecycle.antt =====
-- What approving and rejecting do to the submission that follows.
use done_rest.Prelude.{
  ℕ, ◌<◌, String, ◌≡◌, ◌∙◌, inl, inr, refl, Option, none, some, arith, lookup, lookup-insert_self,
  insert, Dict, Option-cases, ◌==◌, false, if◌then◌else◌,
}
use done_rest.Errors.{Error}
use done_rest.Bus.Api.{MsgServer}
use done_rest.Auth.Api.{client_type_service}
use done_rest.Auth.Clients.{Env, Response, add_device, add_service}
use done_rest.Prov.{
  ProvisionStatus, ProvisionRequestArgs, ProvisionRequestResp, ProvState, Rpc, answered,
  approve_request, reject_request, submit_request, submit_approved, admitted, answer, denial,
  over_rpc, add_client, approved_status, rejected_status, still_rejected_status,
}
use done_rest.Prov.Tokens.{IsGranted, IsGranted-denial}

abbrev pub token_of : Option ProvisionRequestResp → Option String
token_of none = none
token_of (some resp) = some resp.token

token-admitted :
    (m : MsgServer) (args : ProvisionRequestArgs) (svc svc' : ProvState m)
    (status status' : ProvisionStatus) (r : Response m)
    → (token_of (admitted m args svc status r).1 ≡ token_of (admitted m args svc' status' r).1)
      × ((admitted m args svc status r).2 ≡ (admitted m args svc' status' r).2)
unfolding admitted answer
token-admitted m args svc svc' status status' (auth, token, some e) = (refl, refl)
token-admitted m args svc svc' status status' (auth, token, none) = (refl, refl)

submit-rejected :
    (m : MsgServer) (env : Env) (rpc : Rpc) (args : ProvisionRequestArgs) (svc : ProvState m)
    (now : ℕ) (s : ProvisionStatus)
    → lookup args.client_id svc.requests ≡ some s
    → 0 < s.approved_mse
    → submit_request m env rpc args (reject_request m now args.client_id svc).0
      ≡ submit_approved m env rpc args
          (record svc { requests = insert args.client_id (rejected_status now s) svc.requests })
          (rejected_status now s)
unfolding submit_request reject_request rejected_status
submit-rejected m env rpc args svc now s found approved = ground (
  arith,
  lookup-insert_self args.client_id (record s { pending = false; rejected_mse = now }) svc.requests,
)

submit-approved :
    (m : MsgServer) (env : Env) (rpc : Rpc) (args : ProvisionRequestArgs) (svc : ProvState m)
    (s : ProvisionStatus)
    → lookup args.client_id svc.requests ≡ some s
    → 0 < s.approved_mse
    → submit_request m env rpc args svc ≡ submit_approved m env rpc args svc s
unfolding submit_request
submit-approved m env rpc args svc s found approved = ground arith

module _ (m : MsgServer) (env : Env) (rpc : Rpc) (args : ProvisionRequestArgs)
    (svc : ProvState m) where
  abbrev received : ProvisionStatus → ProvisionStatus
  received s = record s { received_mse = env.now; pending = false }

  submit_approved-denied :
      (s : ProvisionStatus) (e : Error)
      → denial s args ≡ some e
      → submit_approved m env rpc args svc s ≡ (svc, none, some e)
  unfolding submit_approved
  submit_approved-denied s e denied = rw (denied, submit_approved)

  submit_approved-granted :
      (s : ProvisionStatus)
      → denial s args ≡ none
      → submit_approved m env rpc args svc s
        ≡ admitted m args svc
            (received s)
            (over_rpc m rpc svc.auth (add_client m env (received s) svc.auth))
  unfolding submit_approved
  submit_approved-granted s granted = rw (granted, submit_approved)

denial-rejected :
    (now : ℕ) (s : ProvisionStatus) (args : ProvisionRequestArgs)
    → denial (rejected_status now s) args ≡ denial s args
unfolding denial rejected_status
denial-rejected now s args = refl

-- The two submissions meet the same answer of the auth service.
submit_approved-rejected :
    (m : MsgServer) (env : Env) (rpc : Rpc) (args : ProvisionRequestArgs) (svc : ProvState m)
    (requests : Dict ProvisionStatus) (now : ℕ) (s : ProvisionStatus)
    → let svc' = record svc { requests = requests } in
      let after = submit_approved m env rpc args svc' (rejected_status now s) in
      let without = submit_approved m env rpc args svc s in
      (token_of after.1 ≡ token_of without.1) × (after.2 ≡ without.2)
unfolding rejected_status add_client
submit_approved-rejected m env rpc args svc requests now s =
    let svc' = record svc { requests = requests } in
    elim (Option-cases (denial s args)) [
      | inl granted ↦
          rw
            (
              submit_approved-granted m env rpc args svc s granted,
              submit_approved-granted m env rpc args svc' (rejected_status now s)
                  (denial-rejected now s args ∙ granted),
            )
            (token-admitted m args svc' svc (received m env rpc args svc' (rejected_status now s))
              (received m env rpc args svc s)
              (over_rpc m rpc svc.auth (add_client m env (received m env rpc args svc s) svc.auth)))
      | inr (e, denied) ↦
          rw
            (
              submit_approved-denied m env rpc args svc s e denied,
              submit_approved-denied m env rpc args svc' (rejected_status now s) e
                  (denial-rejected now s args ∙ denied),
            )
            (refl, refl)
    ]

-- Rejecting a request that has been approved does not stop it: the next submission has the token
-- and the error that it would have had without the rejection.
reject_request-ineffective :
    (m : MsgServer) (env : Env) (rpc : Rpc) (args : ProvisionRequestArgs) (svc : ProvState m)
    (now : ℕ) (s : ProvisionStatus)
    → lookup args.client_id svc.requests ≡ some s
    → 0 < s.approved_mse
    → let after = submit_request m env rpc args (reject_request m now args.client_id svc).0 in
      let without = submit_request m env rpc args svc in
      (token_of after.1 ≡ token_of without.1) × (after.2 ≡ without.2)
reject_request-ineffective m env rpc args svc now s found approved =
    rw
      (
        submit-rejected m env rpc args svc now s found approved,
        submit-approved m env rpc args svc s found approved,
      )
      (submit_approved-rejected m env rpc args svc _ now s)

-- Rejecting a request that has not been approved stops it: the next submission gets no token and a
-- retry delay of an hour, and the auth service is not called.
reject_request_lem :
    (m : MsgServer) (env : Env) (rpc : Rpc) (args : ProvisionRequestArgs) (svc : ProvState m)
    (now : ℕ) (s : ProvisionStatus)
    → lookup args.client_id svc.requests ≡ some s
    → s.approved_mse ≡ 0
    → 0 < now
    → let after = submit_request m env rpc args (reject_request m now args.client_id svc).0 in
      (resp : ProvisionRequestResp) × (after.1 ≡ some resp)
      × (resp.token ≡ "")
      × (resp.status.retry_sec ≡ 3600)
      × (after.0.auth ≡ svc.auth)
unfolding submit_request reject_request rejected_status answer still_rejected_status
reject_request_lem m env rpc args svc now s found open_still later =
    let s' = record s { pending = false; rejected_mse = now } in
    let kept = lookup-insert_self args.client_id s' svc.requests in
    (
      record { status = still_rejected_status env.now s'; token = "" },
      ground (arith, kept),
      refl,
      refl,
      ground (arith, kept),
    )

-- After a request is approved as a client type, a submission whose public key and MAC address are
-- those on record (where there are any) gets what the auth service answers when it adds a service,
-- for the type service, or else a device: its token, or its error.
approve_request_lem :
    (m : MsgServer) (env : Env) (args : ProvisionRequestArgs) (svc : ProvState m) (now : ℕ)
    (client_type : String) (s : ProvisionStatus)
    → lookup args.client_id svc.requests ≡ some s
    → IsGranted s args
    → 0 < now
    → let after =
        submit_request m env answered args
          (approve_request m now args.client_id client_type svc).0 in
      let added =
        if client_type == client_type_service
        then add_service m env s.client_id "service" s.pub_key svc.auth
        else add_device m env s.client_id "device" s.pub_key svc.auth in
      (added.2 ≡ none → (token_of after.1 ≡ some added.1) × (after.2 ≡ none))
      × ((e : Error) → added.2 ≡ some e → (after.1 ≡ none) × (after.2 ≡ some e))
unfolding submit_request approve_request approved_status submit_approved admitted answer over_rpc
    add_client
approve_request_lem m env args svc now client_type s found granted later =
    let s' = record s {
      pending = false;
      client_type = client_type;
      approved_mse = now;
      rejected_mse = 0;
    } in
    let kept = lookup-insert_self args.client_id s' svc.requests in
    let clear = IsGranted-denial s' args (record {
      key_given = granted.key_given;
      key_matches = granted.key_matches;
      mac_matches = granted.mac_matches;
    }) in
    (
      λ ok. (ground (arith, kept, clear), ground (arith, kept, clear)),
      λ e failed. (ground (arith, kept, clear), ground (arith, kept, clear)),
    )
