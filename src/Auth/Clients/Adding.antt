-- ===== src/Auth/Clients/Adding.antt =====
-- What the adding of services and users leaves in the store, in
-- done_mod/mod_auth/auth_srv/AuthManageClients.go.
use done_rest.Prelude.{
  String, ◌≡◌, ◌≢◌, refl, ap, ◌∙◌, inl, inr, Option, none, some, ◌==◌, ◌/=◌, eq_iff, Bool-cases,
  if_both,
}
use done_rest.Errors.{Error}
use done_rest.Bus.Api.{MsgServer}
use done_rest.Auth.Api.{Bcrypt, client_type_user}
use done_rest.Auth.Store.{add}
use done_rest.Auth.Store.Entries.{add_entry, role_of}
use done_rest.Auth.Store.Validity.{IsValid, add-IsValid}
use done_rest.Auth.Clients.{
  Env, AuthState, Response, new_profile, token_for, on_change, add_service, add_service_stored,
  add_user, add_user_stored, add_user_token, add_user_applied,
}

module _ (m : MsgServer) where
  add_service_stored-IsValid :
      (env : Env) (service_id pub_key : String) (svc : AuthState m) (err : Option Error)
      → IsValid svc.store
      → IsValid (add_service_stored m env service_id pub_key svc err).0.store
  unfolding add_service_stored on_change
  add_service_stored-IsValid env service_id pub_key svc (some e) v = v
  add_service_stored-IsValid env service_id pub_key svc none v = elim (Bool-cases (pub_key /= "")) [
    | inl keyed ↦ rw keyed v
    | inr bare ↦ rw bare v
  ]

  pub add_service-IsValid :
      (env : Env) (service_id display_name pub_key : String) (svc : AuthState m)
      → IsValid svc.store
      → IsValid (add_service m env service_id display_name pub_key svc).0.store
  unfolding add_service
  add_service-IsValid env service_id display_name pub_key svc v =
      if_both (λ (r : Response m). IsValid r.0.store) (service_id == "") v
        (add_service_stored-IsValid env service_id pub_key _ _
          (add-IsValid env.io env.now service_id _ svc.store v))

  -- Without a password the store is the one that `Add` leaves.
  store-add_user_applied :
      (token : String) (svc : AuthState m) (err : Option Error)
      → (add_user_applied m token svc err).0.store ≡ svc.store
  unfolding add_user_applied on_change
  store-add_user_applied token svc (some e) = refl
  store-add_user_applied token svc none = refl

  store-add_user_stored :
      (bcrypt : Bcrypt) (env : Env) (user_id pub_key role : String) (svc : AuthState m)
      (err : Option Error)
      → (add_user_stored m bcrypt env user_id "" pub_key role svc err).0.store ≡ svc.store
  unfolding add_user_stored add_user_token token_for
  store-add_user_stored bcrypt env user_id pub_key role svc (some e) = refl
  store-add_user_stored bcrypt env user_id pub_key role svc none =
      elim (Bool-cases (pub_key /= "")) [
        | inl keyed ↦ rw keyed (store-add_user_applied _ _ _)
        | inr bare ↦ rw bare (store-add_user_applied "" svc none)
      ]

  role_of-add :
      (env : Env) (user_id display_name pub_key role : String) (svc : AuthState m)
      → user_id ≢ ""
      → role_of user_id
          (add env.io env.now user_id
            (new_profile user_id client_type_user display_name pub_key role)
            svc.store).0
        ≡ some role
  role_of-add env user_id display_name pub_key role svc named =
      let profile = new_profile user_id client_type_user display_name pub_key role in
      let added =
        add_entry env.io env.now user_id profile svc.store
          (record { named = named; matching = refl; typed = inr (inr refl) }) in
      rw (added.1, role_of) (ap (λ (r : String). some r) added.2)

  -- A user that was added without a password and without an error has the given role in the store.
  pub add_user-role :
      (bcrypt : Bcrypt) (env : Env) (user_id display_name pub_key role : String) (svc : AuthState m)
      → (add_user m bcrypt env user_id display_name "" pub_key role svc).2 ≡ none
      → role_of user_id (add_user m bcrypt env user_id display_name "" pub_key role svc).0.store
        ≡ some role
  unfolding add_user
  add_user-role bcrypt env user_id display_name pub_key role svc ok =
      elim (Bool-cases (user_id == "")) [
        | inl missing ↦ cc (rw missing at ok)
        | inr given ↦ rw given (
            ap (role_of user_id) (store-add_user_stored bcrypt env user_id pub_key role _ _)
            ∙ role_of-add env user_id display_name pub_key role svc
                (λ e. cc (given, (eq_iff user_id "").1 e)))
      ]
