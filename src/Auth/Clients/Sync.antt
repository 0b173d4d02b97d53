-- ===== src/Auth/Clients/Sync.antt =====
-- The server knows what the store holds, after each operation that applies its change.
use done_rest.Prelude.{
  String, ◌≡◌, inl, inr, refl, ap, ◌∙◌, Option, none, some, [], ◌∷◌, arith, Dict, lookup, insert,
  lookup-insert, lookup-remove, remove, Bool-cases, ◌/=◌, values, map, IsDistinct, Holds,
  Holds-head, Holds-tail, eq_iff, ◌==◌,
}
use done_rest.Errors.{Error}
use done_rest.Bus.Api.{ClientAuthInfo, MsgServer, clients_by_id}
use done_rest.Auth.Api.{AuthnEntry, Bcrypt}
use done_rest.Auth.Store.{
  client_auth_info, get_auth_client_list, AuthnFileStore, Io, Outcome,
  remove_client as store_remove,
}
use done_rest.Auth.Store.Saving.{entries-save}
use done_rest.Auth.Store.Validity.{
  IsValid, IsValidEntry, add-IsValid, set_password-IsValid, remove_client-IsValid,
}
use done_rest.Auth.Clients.{
  Env, AuthState, on_change, change_if_stored, add_user, add_user_applied, add_user_token,
  add_user_stored, remove_client, set_client_password,
}

-- The client of an entry, or the one known before.
abbrev pub known_or : Option ClientAuthInfo → Option AuthnEntry → Option ClientAuthInfo
known_or old none = old
known_or old (some e) = some (client_auth_info e)

clients_by_id-values :
    (acc : Dict ClientAuthInfo) (d : Dict AuthnEntry) (j : String)
    → IsDistinct d
    → Holds IsValidEntry d
    → lookup j (clients_by_id acc (map client_auth_info (values d)))
      ≡ known_or (lookup j acc) (lookup j d)
unfolding clients_by_id lookup client_auth_info
clients_by_id-values acc [] j u h = refl
clients_by_id-values acc ((k, e) ∷ d) j u h =
    let v = Holds-head IsValidEntry k e d h in
    clients_by_id-values (insert e.client_id (client_auth_info e) acc) d j u.1
      (Holds-tail IsValidEntry k e d u.0 h)
    ∙ ground (
      arith,
      v.keyed,
      u.0,
      lookup-insert e.client_id j (client_auth_info e) acc,
      eq_iff e.client_id j,
      eq_iff k j,
    )

module _ (m : MsgServer) where
  -- Under each ID the server authenticates the client that the store holds, and no other.
  abbrev pub IsSynced : AuthState m → Type 0
  IsSynced svc =
      (client_id : String)
      → m.known client_id svc.server ≡ known_or none (lookup client_id svc.store.entries)

  -- ApplyAuth with the list of a valid store.
  pub applied-known :
      (store : AuthnFileStore) (s : m.State)
      → IsValid store
      → (client_id : String) → (m.apply_auth (get_auth_client_list store) s).1 ≡ none
      → m.known client_id (m.apply_auth (get_auth_client_list store) s).0
        ≡ known_or none (lookup client_id store.entries)
  unfolding get_auth_client_list lookup
  applied-known store s v client_id ok =
      m.known-apply_auth (map client_auth_info (values store.entries)) s client_id ok
      ∙ clients_by_id-values [] store.entries client_id v.entries.distinct v.entries.valid

  pub on_change-IsSynced :
      (svc : AuthState m)
      → IsValid svc.store
      → (on_change m svc).1 ≡ none
      → IsSynced (on_change m svc).0
  unfolding on_change get_auth_client_list
  on_change-IsSynced svc v ok client_id = applied-known svc.store svc.server v client_id ok

  change_if_stored-IsSynced :
      (svc : AuthState m) (o : Outcome)
      → IsValid o.0
      → (change_if_stored m svc o).1 ≡ none
      → IsSynced (change_if_stored m svc o).0
  unfolding change_if_stored
  change_if_stored-IsSynced svc (store, some e) v ok = cc
  change_if_stored-IsSynced svc (store, none) v ok =
      on_change-IsSynced (record svc { store = store }) v ok

  add_user_applied-IsSynced :
      (token : String) (svc : AuthState m) (err : Option Error)
      → IsValid svc.store
      → (add_user_applied m token svc err).2 ≡ none
      → IsSynced (add_user_applied m token svc err).0
  unfolding add_user_applied
  add_user_applied-IsSynced token svc (some e) v ok = cc
  add_user_applied-IsSynced token svc none v ok = on_change-IsSynced svc v ok

  add_user_token-IsSynced :
      (env : Env) (user_id pub_key role : String) (svc : AuthState m) (err : Option Error)
      → IsValid svc.store
      → (add_user_token m env user_id pub_key role svc err).2 ≡ none
      → IsSynced (add_user_token m env user_id pub_key role svc err).0
  unfolding add_user_token
  add_user_token-IsSynced env user_id pub_key role svc err v ok =
      elim (Bool-cases (pub_key /= "")) [
        | inl keyed ↦ rw keyed (add_user_applied-IsSynced _ _ _ v (rw keyed at ok))
        | inr none_given ↦ rw none_given (add_user_applied-IsSynced _ svc _ v (rw none_given at ok))
      ]

  add_user_stored-IsSynced :
      (bcrypt : Bcrypt) (env : Env) (user_id password pub_key role : String) (svc : AuthState m)
      (err : Option Error)
      → IsValid svc.store
      → (add_user_stored m bcrypt env user_id password pub_key role svc err).2 ≡ none
      → IsSynced (add_user_stored m bcrypt env user_id password pub_key role svc err).0
  unfolding add_user_stored
  add_user_stored-IsSynced bcrypt env user_id password pub_key role svc (some e) v ok = cc
  add_user_stored-IsSynced bcrypt env user_id password pub_key role svc none v ok =
      elim (Bool-cases (password /= "")) [
        | inl given ↦ rw given (
            add_user_token-IsSynced env user_id pub_key role _ _
              (set_password-IsValid bcrypt env.io_second env.now env.salt user_id password svc.store
                v)
              (rw given at ok))
        | inr without ↦
            rw without
              (add_user_token-IsSynced env user_id pub_key role svc none v (rw without at ok))
      ]

-- When `AddUser` returns without an error, the server authenticates under each ID exactly the
-- client that the store holds then, with its hash, key and role; the store was valid before.
pub add_user-IsSynced :
    (m : MsgServer) (bcrypt : Bcrypt) (env : Env)
    (user_id display_name password pub_key role : String) (svc : AuthState m)
    → IsValid svc.store
    → (add_user m bcrypt env user_id display_name password pub_key role svc).2 ≡ none
    → IsSynced m (add_user m bcrypt env user_id display_name password pub_key role svc).0
unfolding add_user
add_user-IsSynced m bcrypt env user_id display_name password pub_key role svc v ok =
    elim (Bool-cases (user_id == "")) [
      | inl missing ↦ cc (rw missing at ok)
      | inr given ↦ rw given (
          add_user_stored-IsSynced m bcrypt env user_id password pub_key role _ _
            (add-IsValid env.io env.now user_id _ svc.store v) (rw given at ok))
    ]

store-change_if_stored :
    (m : MsgServer) (svc : AuthState m) (o : Outcome) → (change_if_stored m svc o).0.store ≡ o.0
unfolding change_if_stored on_change
store-change_if_stored m svc (store, some e) = refl
store-change_if_stored m svc (store, none) = refl

lookup-remove_client :
    (io : Io) (client_id : String) (s : AuthnFileStore)
    → lookup client_id (store_remove io client_id s).0.entries ≡ none
unfolding store_remove
lookup-remove_client io client_id s = ground (
  arith,
  entries-save io (record s { entries = remove client_id s.entries }),
  lookup-remove client_id client_id s.entries,
  eq_iff client_id client_id,
)

-- When `RemoveClient` returns without an error, from a valid store, the client is gone from the
-- store and the server no longer authenticates it, and under each ID the server authenticates
-- exactly the client that the store holds.
pub remove_client-IsSynced :
    (m : MsgServer) (env : Env) (client_id : String) (svc : AuthState m)
    → IsValid svc.store
    → (remove_client m env client_id svc).1 ≡ none
    → let after = (remove_client m env client_id svc).0 in
      (lookup client_id after.store.entries ≡ none)
      × (m.known client_id after.server ≡ none)
      × IsSynced m after
unfolding remove_client
remove_client-IsSynced m env client_id svc v ok =
    let o = store_remove env.io client_id svc.store in
    let synced =
      change_if_stored-IsSynced m svc o (remove_client-IsValid env.io client_id svc.store v) ok in
    let gone =
      ap (λ (x : AuthnFileStore). lookup client_id x.entries) (store-change_if_stored m svc o)
      ∙ lookup-remove_client env.io client_id svc.store in
    (gone, synced client_id ∙ ap (known_or none) gone, synced)

-- When `SetClientPassword` returns without an error, from a valid store, the server authenticates
-- under each ID exactly the client that the store holds, so with the new hash.
set_client_password-IsSynced :
    (m : MsgServer) (bcrypt : Bcrypt) (env : Env) (client_id password : String) (svc : AuthState m)
    → IsValid svc.store
    → (set_client_password m bcrypt env client_id password svc).1 ≡ none
    → IsSynced m (set_client_password m bcrypt env client_id password svc).0
unfolding set_client_password
set_client_password-IsSynced m bcrypt env client_id password svc v ok =
    change_if_stored-IsSynced m svc _
      (set_password-IsValid bcrypt env.io env.now env.salt client_id password svc.store v) ok
