-- ===== src/Bus/Nats/Tokens/Validation.antt =====
-- Which tokens and keys are accepted.
use done_rest.Prelude.{
  ℕ, String, ◌≡◌, ◌↔◌, inl, inr, refl, sym, ◌∙◌, none, some, arith, lookup, eq_iff, Option-cases,
  true,
}
use done_rest.Bus.Api.{ClientAuthInfo}
use done_rest.Bus.Nats.{NatsMsgServer, UserClaims, Library, make_permissions, get_client_auth}
use done_rest.Bus.Nats.Tokens.{
  check_nonce, client_of_claims, user_claims, TokenReader, verified, create_token, create_jwt_token,
  checked_encode, check_claims, validate_jwt_token, validate_nkey, validate_token,
}

-- A token's claims against the client on record and the server's own account.
pub record IsAccepted (claims : UserClaims) (client_id : String) (srv : NatsMsgServer)
    : Type 0 where
  pub info : ClientAuthInfo
  pub on_record : get_client_auth client_id srv ≡ some info
  pub keyed : claims.subject ≡ info.pub_key
  pub issued : claims.issuer ≡ srv.app_account_pub
  pub named : claims.name ≡ client_id

module _ (lib : Library) (reader : TokenReader lib) where
  check_claims-IsAccepted :
      (now : ℕ) (claims : UserClaims) (client_id signed_nonce nonce : String) (srv : NatsMsgServer)
      → (check_claims lib reader claims client_id signed_nonce nonce srv
            (client_of_claims lib reader now claims client_id srv)
          ≡ none)
        ↔ (IsAccepted claims client_id srv
            × (check_nonce lib reader claims.subject signed_nonce nonce ≡ none))
  unfolding check_claims client_of_claims get_client_auth
  check_claims-IsAccepted now claims client_id signed_nonce nonce srv = (
    λ h. elim (Option-cases (lookup client_id srv.auth_clients)) [
      | inl missing ↦ absurd (ground arith)
      | inr (info, found) ↦ (
        record {
          info = info;
          on_record = found;
          keyed = ground (arith, eq_iff claims.subject info.pub_key);
          issued =
              ground (
                arith,
                eq_iff claims.subject info.pub_key,
                eq_iff claims.issuer srv.app_account_pub,
              );
          named = ground (
            arith,
            eq_iff claims.subject info.pub_key,
            eq_iff claims.issuer srv.app_account_pub,
            eq_iff claims.name client_id,
          );
        },
        ground (arith, eq_iff claims.subject info.pub_key),
      )
    ],
    λ h.
        let a = h.0 in
        let found = a.on_record in
        ground (
          arith,
          found,
          h.1,
          a.keyed,
          a.issued,
          a.named,
          eq_iff claims.subject a.info.pub_key,
          eq_iff claims.issuer srv.app_account_pub,
          eq_iff claims.name client_id,
        ),
  )

  validate_jwt_token_cases :
      (now : ℕ) (client_id token signed_nonce nonce : String) (srv : NatsMsgServer)
      → (validate_jwt_token lib reader now client_id token signed_nonce nonce srv ≡ none) ↔ (
          (claims : UserClaims) × (reader.decode_user_claims token ≡ some claims)
          × IsAccepted claims client_id srv
          × (check_nonce lib reader claims.subject signed_nonce nonce ≡ none))
  unfolding validate_jwt_token
  validate_jwt_token_cases now client_id token signed_nonce nonce srv = (
    λ h. elim (Option-cases (reader.decode_user_claims token)) [
      | inl unread ↦ absurd (ground arith)
      | inr (claims, read) ↦
          let a =
            (check_claims-IsAccepted now claims client_id signed_nonce nonce srv).0
              (rw (read, validate_jwt_token) at h) in
          (claims, read, a.0, a.1)
    ],
    λ h.
        let (claims, read, accepted, fresh) = h in
        rw (read, validate_jwt_token)
          ((check_claims-IsAccepted now claims client_id signed_nonce nonce srv).1
            (accepted, fresh)),
  )

-- Whatever the errors and warnings are that the validation of the claims finds at one time and at
-- another, the answer for a token is the same: one that was accepted is accepted for ever after,
-- also when it has expired.
validate_jwt_token-ignores_expiry :
    (lib : Library) (reader : TokenReader lib) (now later : ℕ)
    (client_id token signed_nonce nonce : String) (srv : NatsMsgServer)
    → validate_jwt_token lib reader now client_id token signed_nonce nonce srv
      ≡ validate_jwt_token lib reader later client_id token signed_nonce nonce srv
unfolding validate_jwt_token client_of_claims
validate_jwt_token-ignores_expiry lib reader now later client_id token signed_nonce nonce srv =
    ground arith

-- A key is accepted for a client exactly when the signature of the nonce verifies with it, also
-- for an empty signature, and the key is the one on record for the client.
pub validate_nkey_lem :
    (lib : Library) (reader : TokenReader lib) (client_id pub_key signed_nonce nonce : String)
    (srv : NatsMsgServer)
    → (validate_nkey lib reader client_id pub_key signed_nonce nonce srv ≡ none) ↔ (
        (info : ClientAuthInfo) × (reader.verify pub_key nonce
            (reader.raw_url_decode signed_nonce).0
          ≡ verified)
        × (get_client_auth client_id srv ≡ some info)
        × (info.pub_key ≡ pub_key))
unfolding validate_nkey get_client_auth
validate_nkey_lem lib reader client_id pub_key signed_nonce nonce srv = (
  λ h. elim (Option-cases (lookup client_id srv.auth_clients)) [
    | inl missing ↦ absurd (ground arith)
    | inr (info, found) ↦ (
      info,
      ground (arith, eq_iff info.pub_key pub_key),
      found,
      ground (arith, eq_iff info.pub_key pub_key),
    )
  ],
  λ h. let (info, checked, found, same) = h in ground (arith, eq_iff info.pub_key pub_key),
)

kept-make_permissions :
    (lib : Library) (info : ClientAuthInfo) (srv : NatsMsgServer)
    → ((make_permissions lib info srv).0.auth_clients ≡ srv.auth_clients)
      × ((make_permissions lib info srv).0.app_account_pub ≡ srv.app_account_pub)
      × ((make_permissions lib info srv).0.callout ≡ srv.callout)
unfolding make_permissions
kept-make_permissions lib info srv = ground arith

encoded-create_jwt_token :
    (lib : Library) (now : ℕ) (info : ClientAuthInfo) (srv : NatsMsgServer)
    → (create_jwt_token lib now info srv).2 ≡ none
    → let made = make_permissions lib info srv in
      let claims = user_claims now info made.1 srv in
      (lib.encode srv.app_account_pub claims ≡ ((create_jwt_token lib now info srv).1, none))
      × ((create_jwt_token lib now info srv).0 ≡ made.0)
unfolding create_jwt_token checked_encode
encoded-create_jwt_token lib now info srv ok = (ground arith, ground arith)

-- A server with an AuthCallout accepts, at any time and without a signed nonce, each token that it
-- made for a client that is on record with the public key of the token's request, if the library
-- reads back the subject and the name of a token and the public key that it was signed with.
pub validate_token-create_token :
    (lib : Library) (reader : TokenReader lib) (now later : ℕ) (info : ClientAuthInfo)
    (nonce : String) (srv : NatsMsgServer) (known : ClientAuthInfo)
    → srv.callout ≡ true
    → get_client_auth info.client_id srv ≡ some known
    → known.pub_key ≡ info.pub_key
    → (create_token lib now info srv).2 ≡ none
    → let made = create_token lib now info srv in
      validate_token lib reader later info.client_id made.1 "" nonce made.0 ≡ none
unfolding create_token validate_token get_client_auth user_claims check_nonce
validate_token-create_token lib reader now later info nonce srv known callout found same ok =
    let made = create_jwt_token lib now info srv in
    let perms = (make_permissions lib info srv).1 in
    let claims = user_claims now info perms srv in
    let encoded = encoded-create_jwt_token lib now info srv (ground arith) in
    let kept = kept-make_permissions lib info srv in
    let read = reader.decode-encode srv.app_account_pub claims made.1 encoded.0 in
    let accepted =
      (validate_jwt_token_cases lib reader later info.client_id made.1 "" nonce made.0).1 (
        read.0,
        read.1,
        record {
          info = known;
          on_record = rw (encoded.1, kept.0) found;
          keyed = read.2 ∙ sym same;
          issued = rw (encoded.1, kept.1) read.3;
          named = read.4;
        },
        refl,
      ) in
    let called : made.0.callout ≡ true = rw (encoded.1, kept.2) callout in ground arith
