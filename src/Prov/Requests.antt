-- ===== src/Prov/Requests.antt =====
-- The state that a provisioning request can be in, kept by every operation.
use done_rest.Prelude.{
  ℕ, ◌≤◌, ◌<◌, ◌%◌, String, ◌≡◌, ◌⊎◌, inl, inr, true, false, none, some, List, [], ◌∷◌, arith, Dict,
  lookup, Holds, insert-Holds, All, Option-cases, Bool-cases, eqb, ◌==◌,
}
use done_rest.Bus.Api.{MsgServer}
use done_rest.Auth.Clients.{Env, Response}
use done_rest.Prov.{
  ProvisionStatus, ProvisionRequestArgs, PreApprovedClient, ProvState, Rpc, approve_request,
  reject_request, pre_approve, pre_approve_clients, submit_request, submit_approved, admitted,
  answer, approved_status, rejected_status, pre_approved_status, new_status, still_rejected_status,
  repeated_status, denial,
}

-- A request is pending exactly while it is neither approved nor rejected; then the next try is
-- after 60 to 600 seconds, in steps of 30.
pub record IsRequest (client_id : String) (status : ProvisionStatus) : Type 0 where
  pub keyed : status.client_id ≡ client_id
  pub waiting : status.pending ≡ true → (status.approved_mse ≡ 0) × (status.rejected_mse ≡ 0)
  pub decided : status.pending ≡ false → (0 < status.approved_mse) ⊎ (0 < status.rejected_mse)
  pub patient :
      status.pending ≡ true
      → (60 ≤ status.retry_sec) × (status.retry_sec ≤ 600) × (status.retry_sec % 30 ≡ 0)

abbrev pub AllRequests : (m : MsgServer) → ProvState m → Type 0
AllRequests m svc = Holds IsRequest svc.requests

repeated_status-IsRequest :
    (now : ℕ) (k : String) (s : ProvisionStatus)
    → s.approved_mse ≡ 0
    → s.rejected_mse ≡ 0
    → IsRequest k s
    → IsRequest k (repeated_status now s)
unfolding repeated_status
repeated_status-IsRequest now k s a r h = ground (arith, Bool-cases s.pending)

approved_status-IsRequest :
    (now : ℕ) (k client_type : String) (s : ProvisionStatus)
    → 0 < now
    → IsRequest k s
    → IsRequest k (approved_status now client_type s)
unfolding approved_status
approved_status-IsRequest now k client_type s later h = ground arith

rejected_status-IsRequest :
    (now : ℕ) (k : String) (s : ProvisionStatus)
    → 0 < now
    → IsRequest k s
    → IsRequest k (rejected_status now s)
unfolding rejected_status
rejected_status-IsRequest now k s later h = ground arith

pre_approved_status-IsRequest :
    (now : ℕ) (c : PreApprovedClient) → 0 < now → IsRequest c.client_id (pre_approved_status now c)
unfolding pre_approved_status
pre_approved_status-IsRequest now c later = ground arith

new_status-IsRequest :
    (now : ℕ) (args : ProvisionRequestArgs) → IsRequest args.client_id (new_status now args)
unfolding new_status
new_status-IsRequest now args = ground arith

still_rejected_status-IsRequest :
    (now : ℕ) (k : String) (s : ProvisionStatus)
    → 0 < s.rejected_mse
    → IsRequest k s
    → IsRequest k (still_rejected_status now s)
unfolding still_rejected_status
still_rejected_status-IsRequest now k s r h = ground arith

pre_approve-IsRequest :
    (now : ℕ) (cs : List PreApprovedClient) (d : Dict ProvisionStatus)
    → 0 < now
    → Holds IsRequest d
    → Holds IsRequest (pre_approve now cs d)
unfolding pre_approve
pre_approve-IsRequest now [] d later h = h
pre_approve-IsRequest now (c ∷ cs) d later h =
    pre_approve-IsRequest now cs _ later (elim (Bool-cases (c.client_id == "")) [
      | inl unnamed ↦ rw unnamed h
      | inr named ↦ rw named (
          insert-Holds IsRequest c.client_id (pre_approved_status now c) d
            (pre_approved_status-IsRequest now c later) h)
    ])

module _ (m : MsgServer) (svc : ProvState m) (h : AllRequests m svc) where
  answer-AllRequests :
      (client_id token : String) (status : ProvisionStatus)
      → IsRequest client_id status
      → AllRequests m (answer m client_id svc status token).0
  unfolding answer
  answer-AllRequests client_id token status r =
      insert-Holds IsRequest client_id status svc.requests r h

  approve_request-AllRequests :
      (now : ℕ) (client_id client_type : String)
      → 0 < now
      → AllRequests m (approve_request m now client_id client_type svc).0
  unfolding approve_request
  approve_request-AllRequests now client_id client_type later =
      elim (Option-cases (lookup client_id svc.requests)) [
        | inl missing ↦ rw (missing, approve_request) h
        | inr (s, found) ↦
            rw (found, approve_request)
              (insert-Holds IsRequest client_id _ svc.requests
                (approved_status-IsRequest now client_id client_type s later (h client_id s found))
                h)
      ]

  reject_request-AllRequests :
      (now : ℕ) (client_id : String)
      → 0 < now
      → AllRequests m (reject_request m now client_id svc).0
  unfolding reject_request
  reject_request-AllRequests now client_id later =
      elim (Option-cases (lookup client_id svc.requests)) [
        | inl missing ↦ rw (missing, reject_request) h
        | inr (s, found) ↦
            rw (found, reject_request)
              (insert-Holds IsRequest client_id _ svc.requests
                (rejected_status-IsRequest now client_id s later (h client_id s found)) h)
      ]

  admitted-AllRequests :
      (args : ProvisionRequestArgs) (status : ProvisionStatus) (r : Response m)
      → IsRequest args.client_id status
      → AllRequests m (admitted m args svc status r).0
  unfolding admitted answer
  admitted-AllRequests args status (auth, token, some e) r = h
  admitted-AllRequests args status (auth, token, none) r =
      insert-Holds IsRequest args.client_id status svc.requests r h

  submit_approved-AllRequests :
      (env : Env) (rpc : Rpc) (args : ProvisionRequestArgs) (s : ProvisionStatus)
      → 0 < s.approved_mse
      → IsRequest args.client_id s
      → AllRequests m (submit_approved m env rpc args svc s).0
  unfolding submit_approved
  submit_approved-AllRequests env rpc args s a r = elim (Option-cases (denial s args)) [
    | inl granted ↦ rw (granted, submit_approved) (admitted-AllRequests args _ _ (ground arith))
    | inr (e, denied) ↦ rw (denied, submit_approved) h
  ]

  found-AllRequests :
      (env : Env) (rpc : Rpc) (args : ProvisionRequestArgs) (s : ProvisionStatus)
      → lookup args.client_id svc.requests ≡ some s
      → IsRequest args.client_id s
      → AllRequests m (submit_request m env rpc args svc).0
  unfolding submit_request
  found-AllRequests env rpc args s found r =
      rw (found, submit_request)
        (elim (Bool-cases (eqb s.approved_mse 0)) [
          | inr approved ↦ rw approved (submit_approved-AllRequests env rpc args s (ground arith) r)
          | inl open_still ↦ rw open_still (elim (Bool-cases (eqb s.rejected_mse 0)) [
            | inr rejected ↦ rw rejected (
                answer-AllRequests args.client_id "" _
                  (still_rejected_status-IsRequest env.now args.client_id s (ground arith) r))
            | inl undecided ↦ rw undecided (
                answer-AllRequests args.client_id "" _ (
                  repeated_status-IsRequest env.now args.client_id s (ground arith) (ground arith)
                    r))
          ])
        ])

  submit_request-AllRequests :
      (env : Env) (rpc : Rpc) (args : ProvisionRequestArgs)
      → AllRequests m (submit_request m env rpc args svc).0
  unfolding submit_request
  submit_request-AllRequests env rpc args =
      elim (Option-cases (lookup args.client_id svc.requests)) [
        | inl unknown ↦
            rw (unknown, submit_request)
              (answer-AllRequests args.client_id "" _ (new_status-IsRequest env.now args))
        | inr (s, found) ↦ found-AllRequests env rpc args s found (h args.client_id s found)
      ]

-- The calls of the service that change its requests, at the time of `env`.
pub data Request : Type 0 where
  approves : String → String → Request
  rejects : String → Request
  pre_approves : List PreApprovedClient → Request
  submits : Rpc → ProvisionRequestArgs → Request

unfoldable pub perform : (m : MsgServer) → Env × Request → ProvState m → ProvState m
perform m (env, approves client_id client_type) svc =
    (approve_request m env.now client_id client_type svc).0
perform m (env, rejects client_id) svc = (reject_request m env.now client_id svc).0
perform m (env, pre_approves approvals) svc = pre_approve_clients m env.now approvals svc
perform m (env, submits rpc args) svc = (submit_request m env rpc args svc).0

unfoldable pub run : (m : MsgServer) → List (Env × Request) → ProvState m → ProvState m
run m [] svc = svc
run m (c ∷ cs) svc = run m cs (perform m c svc)

perform-AllRequests :
    (m : MsgServer) (c : Env × Request) (svc : ProvState m)
    → 0 < (c.0).now
    → AllRequests m svc
    → AllRequests m (perform m c svc)
unfolding perform pre_approve_clients
perform-AllRequests m (env, approves i t) svc later h =
    approve_request-AllRequests m svc h env.now i t later
perform-AllRequests m (env, rejects i) svc later h =
    reject_request-AllRequests m svc h env.now i later
perform-AllRequests m (env, pre_approves cs) svc later h =
    pre_approve-IsRequest env.now cs svc.requests later h
perform-AllRequests m (env, submits rpc args) svc later h =
    submit_request-AllRequests m svc h env rpc args

-- Every sequence of approvals, rejections, pre-approvals and submissions, at times after the
-- epoch, keeps this of every request: it stands under its own client ID; it is pending exactly
-- while it has been neither approved nor rejected; and while it is pending the retry delay lies
-- between 60 and 600 seconds and is a multiple of 30.
pub run-AllRequests :
    (m : MsgServer) (cs : List (Env × Request)) (svc : ProvState m)
    → All (λ (c : Env × Request). 0 < (c.0).now) cs
    → AllRequests m svc
    → AllRequests m (run m cs svc)
unfolding run
run-AllRequests m [] svc later h = h
run-AllRequests m (c ∷ cs) svc later h =
    run-AllRequests m cs (perform m c svc) later.1 (perform-AllRequests m c svc later.0 h)
