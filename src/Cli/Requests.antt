-- ===== src/Cli/Requests.antt =====
-- done_cli/cli_done/HandleRequestMessage.go: the call of a method by reflection on its parameters
-- and results.
use done_rest.Prelude.{String, ◌⊎◌, inl, inr, Option, none, some, List, [], ◌∷◌}
use done_rest.Errors.{Error}

-- The context is reduced to its sender. A parameter of another type has its decoder, `ser.Unmarshal`
-- at that type.
pub data Param (V : Type 0) : Type 0 where
  service_context : Param V
  payload : (String → V ⊎ Error) → Param V

pub data Arg (V : Type 0) : Type 0 where
  sender : String → Arg V
  value : V → Arg V

-- The results of a method by their number; a response is `none` for a nil interface. The last
-- result is of type error, as the documentation asks for.
pub data Results (V : Type 0) : Type 0 where
  no_results : Results V
  only_error : Option Error → Results V
  response : Option V → Option Error → Results V
  many : Results V

-- A method of a capability, over the state of the application.
pub record Method (V A : Type 0) : Type 0 where
  pub params : List (Param V)
  pub call : List (Arg V) → A → A × Results V

module _ {V : Type 0} where
  unfoldable pub collect_arg : String → String → Param V → Arg V ⊎ Error
  collect_arg sender_id text service_context = inl (sender sender_id)
  collect_arg sender_id text (payload decode) = elim (decode text) [
    | inl v ↦ inl (value v)
    | inr e ↦ inr Error.unmarshal_failed
  ]

  -- The loop over the parameters, which ends at the first one that cannot be decoded.
  unfoldable pub collect_args : String → String → List (Param V) → List (Arg V) ⊎ Error
  unfolding collect_arg
  collect_args sender_id text [] = inl []
  collect_args sender_id text (p ∷ ps) = elim (collect_arg sender_id text p) [
    | inr e ↦ inr e
    | inl arg ↦ elim (collect_args sender_id text ps) [
      | inr e ↦ inr e
      | inl args ↦ inl (arg ∷ args)
    ]
  ]

  -- Without a response there is no data, Go's nil.
  unfoldable pub marshal_results : (V → String ⊎ Error) → Results V → String × Option Error
  marshal_results marshal no_results = ("", none)
  marshal_results marshal (only_error err) = ("", err)
  marshal_results marshal (response v (some e)) = ("", some e)
  marshal_results marshal (response none none) = ("", none)
  marshal_results marshal (response (some v) none) = elim (marshal v) [
    | inl text ↦ (text, none)
    | inr e ↦ ("", some e)
  ]
  marshal_results marshal many = ("", some Error.too_many_results)

  module _ {A : Type 0} where
    unfoldable pub call_method :
        (V → String ⊎ Error) → Method V A → List (Arg V) ⊎ Error → A → A × String × Option Error
    unfolding marshal_results
    call_method marshal method (inr e) app = (app, "", some e)
    call_method marshal method (inl args) app =
        let (after, results) = method.call args app in
        let (text, err) = marshal_results marshal results in (after, text, err)

    unfoldable pub handle_request_message :
        (V → String ⊎ Error) → String → Method V A → String → A → A × String × Option Error
    unfolding collect_args call_method
    handle_request_message marshal sender_id method text =
        call_method marshal method (collect_args sender_id text method.params)
