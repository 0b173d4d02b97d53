-- ===== src/Tests/Tokens.antt =====
-- A library that writes a token as its claims between dots, and reads it back.
use Prim.Native.String.{◌++◌ as append_text}
use done_rest.Transport.Split.{split}
use done_rest.Prelude.{
  true, Bool, Bool-cases, List, inl, inr, ap, sym, String, ◌≡◌, refl, Option, none, some, [], ◌∷◌,
  arith, lookup, ◌&&◌, ◌==◌, if◌then◌else◌, eq_iff,
}
use done_rest.Errors.{Error}
use done_rest.Bus.Api.{ClientAuthInfo}
use done_rest.Bus.Nats.{NatsMsgServer, UserClaims, Library, get_client_auth}
use done_rest.Bus.Nats.Tokens.{
  TokenReader, refused, verified, create_token, create_jwt_token, checked_encode, user_claims,
  validate_token,
}
use done_rest.Bus.Nats.Tokens.Validation.{validate_token-create_token}
use done_rest.Auth.Api.{client_type_user}
use done_rest.Auth.Roles.{client_role_manager}
use done_rest.Auth.Clients.{token_info}
use done_rest.Tests.Fixtures.{plain_library, nats}

abbrev mia : ClientAuthInfo
mia = token_info "mia" client_type_user "KM" client_role_manager

abbrev token_text : UserClaims → String → String
token_text claims account =
    append_text claims.subject (append_text "." (append_text account (append_text "." claims.name)))

abbrev claims_of : List String → UserClaims
claims_of (subject ∷ issuer ∷ name ∷ _) = record {
  subject = subject;
  name = name;
  client_type = client_type_user;
  issued_at = 0;
  expires = 100;
  issuer = issuer;
  audience = "hub";
  permissions = record { pub_allow = []; pub_deny = []; sub_allow = []; sub_deny = [] };
}
claims_of _ = record {
  subject = "";
  name = "";
  client_type = "";
  issued_at = 0;
  expires = 0;
  issuer = "";
  audience = "";
  permissions = record { pub_allow = []; pub_deny = []; sub_allow = []; sub_deny = [] };
}

abbrev decode : String → UserClaims
decode token = claims_of (split 46 token)

-- What would be read back otherwise, as of a name with a dot, is not encoded.
abbrev is_readable : String → UserClaims → Bool
is_readable account claims =
    let read = decode (token_text claims account) in
    read.subject == claims.subject && (read.issuer == account && read.name == claims.name)

abbrev signer : Library
signer = record plain_library {
  encode = λ account claims.
      if is_readable account claims
      then (token_text claims account, none)
      else ("", some (Error.external "key"));
}

all_equal :
    (a b c d e f : String) → (a == b && (c == d && e == f)) ≡ true → (a ≡ b) × (c ≡ d) × (e ≡ f)
all_equal a b c d e f h = (
  ground (arith, eq_iff a b),
  ground (arith, eq_iff a b, eq_iff c d),
  ground (arith, eq_iff a b, eq_iff c d, eq_iff e f),
)

decode-encode :
    (account : String) (claims : UserClaims) (token : String)
    → signer.encode account claims ≡ (token, none)
    → (read : UserClaims) × (some (decode token) ≡ some read)
      × (read.subject ≡ claims.subject)
      × (read.issuer ≡ account)
      × (read.name ≡ claims.name)
decode-encode account claims token h = elim (Bool-cases (is_readable account claims)) [
  | inr unreadable ↦ cc (ap (λ (r : String × Option Error). r.1) (rw unreadable at h))
  | inl readable ↦
      let read = decode (token_text claims account) in
      let same : token_text claims account ≡ token =
        ap (λ (r : String × Option Error). r.0) (rw readable at h) in
      let (subject, issuer, name) =
        all_equal read.subject claims.subject read.issuer account read.name claims.name readable in
      (read, ap (λ t. some (decode t)) (sym same), subject, issuer, name)
]

-- A nonce is signed by itself, and the token is expired after its time.
abbrev reader : TokenReader signer
reader = record {
  decode_user_claims = λ token. some (decode token);
  validate_at = λ now claims. (now, 0);
  raw_url_decode = λ signed. (signed, none);
  std_decode = λ signed. (signed, none);
  verify = λ key nonce signature. if nonce == signature then verified else refused;
  decode-encode = decode-encode;
}

abbrev server : NatsMsgServer
server = record nats { auth_clients = ("mia", mia) ∷ [] }

validate_token-create_token_example :
    let made = create_token signer 5 mia server in
    validate_token signer reader 9 "mia" made.1 "" "n" made.0 ≡ none
unfolding create_token create_jwt_token checked_encode user_claims get_client_auth lookup split
validate_token-create_token_example =
    validate_token-create_token signer reader 5 9 mia "n" server mia refl refl refl refl
