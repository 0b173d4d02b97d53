-- ===== src/Prov/Tokens.antt =====
-- Which submissions get a token.
use done_rest.Prelude.{
  ◌<◌, ◌≡◌, ◌≢◌, ◌⊎◌, inl, inr, refl, none, some, arith, lookup, eq_iff, Option-cases, Bool-cases,
  eqb, false,
}
use done_rest.Bus.Api.{MsgServer}
use done_rest.Auth.Clients.{Env, AuthState, Response}
use done_rest.Auth.Clients.Errors.{token-add_device, token-add_service}
use done_rest.Prov.{
  ProvisionStatus, ProvisionRequestArgs, ProvisionRequestResp, ProvState, Rpc, answered,
  request_lost, answer_lost, submit_request, submit_approved, admitted, answer, denial, over_rpc,
  add_client,
}

-- The public key and the MAC address of a request against those of the approval.
pub record IsGranted (status : ProvisionStatus) (args : ProvisionRequestArgs) : Type 0 where
  pub key_given : args.pub_key ≢ ""
  pub key_matches : (status.pub_key ≡ "") ⊎ (status.pub_key ≡ args.pub_key)
  pub mac_matches : (status.mac ≡ "") ⊎ (status.mac ≡ args.mac)

pub denial-IsGranted :
    (status : ProvisionStatus) (args : ProvisionRequestArgs)
    → denial status args ≡ none
    → IsGranted status args
unfolding denial
denial-IsGranted status args h = ground (
  arith,
  eq_iff status.pub_key "",
  eq_iff status.pub_key args.pub_key,
  eq_iff status.mac "",
  eq_iff status.mac args.mac,
  eq_iff args.pub_key "",
)

-- A response of `SubmitRequest` with a token is for a request that is on record, was approved, and
-- that comes with a public key; the key and the MAC address are those of the approval, where the
-- approval has any, so an approval without a MAC address admits any.
pub submit_request_token :
    (m : MsgServer) (env : Env) (rpc : Rpc) (args : ProvisionRequestArgs) (svc : ProvState m)
    (resp : ProvisionRequestResp)
    → (submit_request m env rpc args svc).1 ≡ some resp
    → resp.token ≢ ""
    → (status : ProvisionStatus) × (lookup args.client_id svc.requests ≡ some status)
      × (0 < status.approved_mse)
      × IsGranted status args
unfolding submit_request submit_approved answer
submit_request_token m env rpc args svc resp h given =
    elim (Option-cases (lookup args.client_id svc.requests)) [
      | inl unknown ↦ absurd (given (ground arith))
      | inr (s, found) ↦ elim (Bool-cases (eqb s.approved_mse 0)) [
        | inl undecided ↦ absurd (given (ground arith))
        | inr approved ↦ elim (Option-cases (denial s args)) [
          | inr (e, denied) ↦ absurd (ground arith)
          | inl granted ↦ (s, found, ground arith, denial-IsGranted s args granted)
        ]
      ]
    ]

keyless_client :
    (m : MsgServer) (env : Env) (status : ProvisionStatus) (auth : AuthState m)
    → status.pub_key ≡ ""
    → (add_client m env status auth).1 ≡ ""
unfolding add_client
keyless_client m env status auth keyless = ground (
  arith,
  token-add_service m env status.client_id "service" status.pub_key auth keyless,
  token-add_device m env status.client_id "device" status.pub_key auth keyless,
)

token-over_rpc :
    (m : MsgServer) (rpc : Rpc) (auth : AuthState m) (r : Response m)
    → r.1 ≡ ""
    → (over_rpc m rpc auth r).1 ≡ ""
unfolding over_rpc
token-over_rpc m answered auth r h = h
token-over_rpc m (request_lost e) auth r h = refl
token-over_rpc m (answer_lost e) auth r h = refl

token-admitted :
    (m : MsgServer) (args : ProvisionRequestArgs) (svc : ProvState m) (status : ProvisionStatus)
    (r : Response m) (resp : ProvisionRequestResp)
    → r.1 ≡ ""
    → (admitted m args svc status r).1 ≡ some resp
    → resp.token ≡ ""
unfolding admitted answer
token-admitted m args svc status (auth, token, some e) resp h p = cc
token-admitted m args svc status (auth, token, none) resp h p = ground arith

-- For a client that is approved without a public key, no response of `SubmitRequest` has a token,
-- whatever public key the request brings: the auth service is called with the empty key of the
-- approval.
submit_request_keyless :
    (m : MsgServer) (env : Env) (rpc : Rpc) (args : ProvisionRequestArgs) (svc : ProvState m)
    (status : ProvisionStatus) (resp : ProvisionRequestResp)
    → lookup args.client_id svc.requests ≡ some status
    → 0 < status.approved_mse
    → status.pub_key ≡ ""
    → (submit_request m env rpc args svc).1 ≡ some resp
    → resp.token ≡ ""
unfolding submit_request submit_approved
submit_request_keyless m env rpc args svc status resp found approved keyless h =
    let status' = record status { received_mse = env.now; pending = false } in
    let r = over_rpc m rpc svc.auth (add_client m env status' svc.auth) in
    let no_token =
      token-over_rpc m rpc svc.auth (add_client m env status' svc.auth)
        (keyless_client m env status' svc.auth keyless) in
    elim (Option-cases (denial status args)) [
      | inl granted ↦ token-admitted m args svc status' r resp no_token (ground arith)
      | inr (e, denied) ↦ ground arith
    ]

pub IsGranted-denial :
    (status : ProvisionStatus) (args : ProvisionRequestArgs)
    → IsGranted status args
    → denial status args ≡ none
unfolding denial
IsGranted-denial status args h = ground (
  arith,
  eq_iff status.pub_key "",
  eq_iff status.pub_key args.pub_key,
  eq_iff status.mac "",
  eq_iff status.mac args.mac,
  eq_iff args.pub_key "",
)
