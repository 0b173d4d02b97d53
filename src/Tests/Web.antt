-- ===== src/Tests/Web.antt =====
-- A browser that logs in, and again while its session is open, and logs out.
use done_rest.Prelude.{refl, arith, inl, inr, none, some, [], ◌∷◌, lookup, insert, remove, List}
use done_rest.Errors.{Error}
use done_rest.Web.{
  SessionManager, SessionClaims, add_session, Answers, close, get_session, close_existing,
  cookie_id, activate_new_session, new_client_session,
}
use done_rest.Web.Connections.{
  Use, closes, finds, adds, logs_in, use_sessions, run, IsKept, run-IsKept,
}

abbrev no_sessions : SessionManager
no_sessions = record {
  sessions = [];
  token_kp = none;
  hub_clients = 0;
  disconnected = [];
  closed_channels = [];
}

abbrev a_token : Answers
a_token = record {
  first_token = ("token", none);
  profile_key = inl "";
  second_token = ("", some Error.invalid_login);
}

abbrev of_first : SessionClaims
of_first = record { id = "u1"; client_id = "alice"; auth_token = "token" }

abbrev browsing : List Use
browsing =
    logs_in 1 (inr Error.invalid_token) "u1" "alice" "home" a_token
    ∷ finds 2 "u1"
    ∷ logs_in 3 (inl of_first) "u2" "alice" "home" a_token
    ∷ adds 4 "u3" "bob" "work"
    ∷ closes "u1"
    ∷ []

run-IsKept_example : IsKept (run browsing no_sessions)
unfolding use_sessions activate_new_session add_session close_existing get_session close cookie_id
    new_client_session lookup insert remove
run-IsKept_example =
    run-IsKept browsing no_sessions (refl, (tt, (refl, (refl, (tt, tt)))))
      (λ c below. absurd (omega arith))
