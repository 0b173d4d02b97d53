-- ===== src/Cli/Capabilities.antt =====
-- The table of capabilities of a hub client, SetRPCCapability of done_cli/cli_done/HubClient.go.

use done_rest.Prelude.{
  ℕ, String, false, ◌≡◌, ◌⊎◌, refl, ap, sym, subst, ◌∙◌, arith, Option, none, some, List, [], ◌∷◌,
  Dict, lookup, insert, lookup-insert, ◌==◌, if◌then◌else◌,
}
use done_rest.Errors.{Error}
use done_rest.Transport.Api.{HubTransport}
use done_rest.Cli.{
  Client, RequestHandler, RpcHandler, own_handler, multi_cap_handler, set_rpc_capability,
  set_rpc_handler, with_rpc_handler, listen, call_rpc, on_request,
}
use done_rest.Cli.Requests.{Method}
use done_rest.Cli.Dispatch.{AreParts, rpc_address, rpc_value, on_request-rpc_address}

module _ (ht : HubTransport) {V A : Type 0} where
  -- SetRPCCapability for each capability in turn.
  unfoldable pub set_capabilities :
      List (String × Dict (Method V A)) → Client ht V A → Client ht V A
  unfolding set_rpc_capability
  set_capabilities [] hc = hc
  set_capabilities (c ∷ cs) hc = set_capabilities cs (set_rpc_capability ht c.0 c.1 hc)

  -- The methods that were set last.
  unfoldable pub last_set :
      String
      → List (String × Dict (Method V A))
      → Option (Dict (Method V A))
      → Option (Dict (Method V A))
  last_set cap_id [] found = found
  last_set cap_id (c ∷ cs) found = last_set cap_id cs (if c.0 == cap_id then some c.1 else found)

  with_rpc_handler-some :
      (hc : Client ht V A) (handler : RpcHandler A)
      → hc.rpc_handler ≡ some handler
      → with_rpc_handler ht hc ≡ hc
  unfolding with_rpc_handler
  with_rpc_handler-some hc handler h = ground arith

  set_rpc_capability-kept :
      (cap_id : String) (methods : Dict (Method V A)) (hc : Client ht V A) (handler : RpcHandler A)
      → hc.rpc_handler ≡ some handler
      → ((set_rpc_capability ht cap_id methods hc).rpc_handler ≡ some handler)
        × ((set_rpc_capability ht cap_id methods hc).cap_table ≡ insert cap_id methods hc.cap_table)
        × ((set_rpc_capability ht cap_id methods hc).client_id ≡ hc.client_id)
  unfolding set_rpc_capability with_rpc_handler
  set_rpc_capability-kept cap_id methods hc handler h = (ground arith, ground arith, ground arith)

  pub set_rpc_capability-new :
      (cap_id : String) (methods : Dict (Method V A)) (hc : Client ht V A)
      → hc.rpc_handler ≡ none
      → ((set_rpc_capability ht cap_id methods hc).rpc_handler ≡ some multi_cap_handler)
        × ((set_rpc_capability ht cap_id methods hc).cap_table ≡ insert cap_id methods hc.cap_table)
        × ((set_rpc_capability ht cap_id methods hc).client_id ≡ hc.client_id)
  unfolding set_rpc_capability with_rpc_handler set_rpc_handler listen
  set_rpc_capability-new cap_id methods hc h = (ground arith, ground arith, ground arith)

  set_capabilities-kept :
      (cs : List (String × Dict (Method V A))) (hc : Client ht V A) (handler : RpcHandler A)
      → hc.rpc_handler ≡ some handler
      → ((set_capabilities cs hc).rpc_handler ≡ some handler)
        × ((cap_id : String)
            → lookup cap_id (set_capabilities cs hc).cap_table
              ≡ last_set cap_id cs (lookup cap_id hc.cap_table))
        × ((set_capabilities cs hc).client_id ≡ hc.client_id)
  unfolding set_capabilities last_set
  set_capabilities-kept [] hc handler h = (h, (λ cap_id. refl), refl)
  set_capabilities-kept (c ∷ cs) hc handler h =
      let (there, table, same) = set_rpc_capability-kept c.0 c.1 hc handler h in
      let (kept, tables, owner) =
        set_capabilities-kept cs (set_rpc_capability ht c.0 c.1 hc) handler there in
      (
        kept,
        λ cap_id.
            tables cap_id
            ∙ ap (last_set cap_id cs) (rw table (lookup-insert c.0 cap_id c.1 hc.cap_table)),
        owner ∙ same,
      )

  -- Capabilities that are set on a client that has an RPC handler of its own are never called: it
  -- answers every request by itself.
  on_request-own_handler :
      (marshal : V → String ⊎ Error) (now : ℕ) (caller capability method_name text : String)
      (cs : List (String × Dict (Method V A))) (hc : Client ht V A) (handler : RequestHandler A)
      (app : A)
      → AreParts ht.address_tokens caller capability method_name hc.client_id
      → hc.rpc_handler ≡ some (own_handler handler)
      → let served = set_capabilities cs hc in
        on_request ht marshal now
          (rpc_address ht caller capability method_name served)
          text
          served
          app
        ≡ (let (after, reply, err) =
              handler (rpc_value now caller hc.client_id capability method_name text) app in
            (after, reply, err, false))
  unfolding call_rpc
  on_request-own_handler marshal now caller capability method_name text cs hc handler app p h =
      let served : Client ht V A = set_capabilities cs hc in
      let (kept, tables, owner) = set_capabilities-kept cs hc (own_handler handler) h in
      let here = subst (AreParts ht.address_tokens caller capability method_name) (sym owner) p in
      on_request-rpc_address ht marshal now caller capability method_name text served
        (own_handler handler) app here kept
      ∙ rw owner refl
