-- ===== src/Web.antt =====
-- done_mod/mod_web/web_session: the sessions of browsers, SessionManager.go with the session of
-- ClientSession.go. Hub connections and event channels are numbers. What a new session loads and
-- subscribes to, and the HTTP of its events, are left out.
pub mod Connections
use done_rest.Prelude.{
  ℕ, ◌+◌, ◌*◌, String, Bool, true, false, ◌⊎◌, inl, inr, Option, none, some, List, [], ◌∷◌, ◌++◌,
  Dict, lookup, insert, remove, ◌==◌, if◌then◌else◌,
}
use done_rest.Errors.{Error}

pub record ClientSession : Type 0 where
  pub session_id : String
  pub client_id : String
  pub remote_addr : String
  pub last_activity : ℕ
  pub hc : ℕ
  pub sse_clients : List ℕ

-- `hub_clients` is how many hub clients were connected for sessions, whose numbers are those below
-- it; `disconnected` are those that a session has disconnected, and `closed_channels` its closed
-- channels.
pub record SessionManager : Type 0 where
  pub sessions : Dict ClientSession
  pub token_kp : Option String
  pub hub_clients : ℕ
  pub disconnected : List ℕ
  pub closed_channels : List ℕ

-- What is known from a cookie.
pub record SessionClaims : Type 0 where
  pub id : String
  pub client_id : String
  pub auth_token : String

-- The cookie that is set.
pub record SessionCookie : Type 0 where
  pub session_id : String
  pub client_id : String
  pub auth_token : String
  pub max_age : ℕ

-- The answers of the auth service to a login: two tokens with their errors, and the public key of
-- the profile.
pub record Answers : Type 0 where
  pub first_token : String × Option Error
  pub profile_key : String ⊎ Error
  pub second_token : String × Option Error

unfoldable pub new_client_session : ℕ → String → String → ℕ → String → ClientSession
new_client_session now session_id client_id hc remote_addr = record {
  session_id = session_id;
  client_id = client_id;
  remote_addr = remote_addr;
  last_activity = now;
  hc = hc;
  sse_clients = [];
}

unfoldable pub add_sse_client : ℕ → ClientSession → ClientSession
add_sse_client c cs = record cs { sse_clients = cs.sse_clients ++ (c ∷ []) }

-- Close of the session, and its removal.
unfoldable pub close : String → SessionManager → SessionManager × Option Error
unfolding lookup remove
close session_id sm = elim (lookup session_id sm.sessions) [
  | none ↦ (sm, some Error.session_not_found)
  | some si ↦ (
    record sm {
      sessions = remove session_id sm.sessions;
      disconnected = si.hc ∷ sm.disconnected;
      closed_channels = si.sse_clients ++ sm.closed_channels;
    },
    none,
  )
]

unfoldable pub get_session :
    ℕ → String → SessionManager → SessionManager × Option ClientSession × Option Error
unfolding lookup insert
get_session now session_id sm =
    if session_id == ""
    then (sm, none, some Error.missing_session)
    else elim (lookup session_id sm.sessions) [
      | none ↦ (sm, none, some Error.session_not_found)
      | some cs ↦ (
        record sm { sessions = insert session_id (record cs { last_activity = now }) sm.sessions },
        some (record cs { last_activity = now }),
        none,
      )
    ]

unfoldable pub get_session_from_cookie :
    ℕ
    → SessionClaims ⊎ Error
    → SessionManager
    → SessionManager × Option ClientSession × Option SessionClaims × Option Error
unfolding get_session
get_session_from_cookie now (inr e) sm = (sm, none, none, some e)
get_session_from_cookie now (inl claims) sm =
    let (after, cs, err) = get_session now claims.id sm in (after, cs, some claims, err)

-- The session of the cookie, by its ID, is closed.
unfoldable pub close_existing : ℕ → String → SessionManager → SessionManager
unfolding get_session close
close_existing now session_id sm =
    let (after, cs, err) = get_session now session_id sm in
    elim cs [ none ↦ after | some existing ↦ (close session_id after).0 ]

-- The ID of the cookie, if it has one.
unfoldable pub cookie_id : SessionClaims ⊎ Error → String
cookie_id (inl claims) = claims.id
cookie_id (inr e) = ""

-- The token after the second try, by the profile's key, and whether the key is updated.
unfoldable pub retry_token : Answers → String × Bool × Option Error
retry_token answers = elim answers.profile_key [
  | inr e ↦ (answers.first_token.0, false, some e)
  | inl pub_key ↦ (answers.second_token.0, pub_key == "", answers.second_token.1)
]

unfoldable pub auth_token : Option String → Answers → String × Bool × Option Error
unfolding retry_token
auth_token token_kp answers = elim answers.first_token.1 [
  | none ↦ (answers.first_token.0, false, none)
  | some e ↦ elim token_kp [
    | none ↦ (answers.first_token.0, false, some e)
    | some kp ↦ retry_token answers
  ]
]

abbrev pub session_max_age : ℕ
session_max_age = 3600 * 24 * 14

-- The new session in the table, for the next hub client.
unfoldable pub add_session :
    ℕ → String → String → String → SessionManager → SessionManager × ClientSession
unfolding new_client_session insert
add_session now session_id client_id remote_addr sm =
    let cs = new_client_session now session_id client_id sm.hub_clients remote_addr in
    (
      record sm { sessions = insert session_id cs sm.sessions; hub_clients = sm.hub_clients + 1 },
      cs,
    )

-- A login of a new hub client, which gets the next number; `new_id` is the new UUID. The error of
-- the token is only logged; the last result is whether the key of the account is updated. The search, the close and the
-- addition of a session hold the mutex each by itself, so this is a login that no other one interrupts.
unfoldable pub activate_new_session :
    ℕ
    → SessionClaims ⊎ Error
    → String
    → String
    → String
    → Answers
    → SessionManager
    → SessionManager × ClientSession × SessionCookie × Bool
unfolding close_existing cookie_id add_session auth_token
activate_new_session now claims new_id client_id remote_addr answers sm =
    let session_id = if cookie_id claims == "" then new_id else cookie_id claims in
    let (after, cs) =
      add_session now session_id client_id remote_addr (close_existing now (cookie_id claims) sm) in
    let (token, updated, err) = auth_token sm.token_kp answers in
    (
      after,
      cs,
      record {
        session_id = session_id;
        client_id = client_id;
        auth_token = token;
        max_age = session_max_age;
      },
      updated,
    )
