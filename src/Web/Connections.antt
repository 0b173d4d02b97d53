-- ===== src/Web/Connections.antt =====
-- That no connection of a session is lost, in done_mod/mod_web/web_session/SessionManager.go.
use done_rest.Prelude.{
  ℕ, ◌+◌, ◌≤◌, suc, String, true, false, ◌≡◌, ◌⊎◌, inl, inr, refl, ap, sym, subst, ◌∙◌, arith,
  Option, none, some, List, [], ◌∷◌, lookup, lookup-insert, lookup-insert_self, lookup-remove,
  insert, ◌==◌, if◌then◌else◌, eq_iff, eq_refl, Bool-cases, Option-cases,
}
use done_rest.Errors.{Error}
use done_rest.Web.{
  SessionManager, ClientSession, SessionClaims, add_session, Answers, close, get_session,
  close_existing, cookie_id, activate_new_session, new_client_session,
}

abbrev pub IsIn : ℕ → List ℕ → Type 0
IsIn c [] = ⊥
IsIn c (d ∷ ds) = (c ≡ d) ⊎ IsIn c ds

-- A connection is disconnected or that of a session.
abbrev pub IsHeld : SessionManager → ℕ → Type 0
IsHeld sm c =
    IsIn c sm.disconnected
    ⊎ ((id : String) × (s : ClientSession) × (lookup id sm.sessions ≡ some s) × (s.hc ≡ c))

-- Two names for one session have its connection.
hc_of_same :
    (sm : SessionManager) (id other : String) (si s : ClientSession) (c : ℕ)
    → id == other ≡ true
    → lookup id sm.sessions ≡ some si
    → lookup other sm.sessions ≡ some s
    → s.hc ≡ c
    → si.hc ≡ c
hc_of_same sm id other si s c own there at_other same =
    ap (λ o. elim o [ none ↦ c | some x ↦ x.hc ])
      (sym there ∙ ap (λ i. lookup i sm.sessions) ((eq_iff id other).0 own) ∙ at_other)
    ∙ same

close-IsHeld : (id : String) (sm : SessionManager) (c : ℕ) → IsHeld sm c → IsHeld (close id sm).0 c
unfolding close
close-IsHeld id sm c h = elim (Option-cases (lookup id sm.sessions)) [
  | inl nothing ↦ rw (close, nothing) h
  | inr (si, there) ↦
      rw (close, there)
        (elim h [
          | inl gone ↦ inl (inr gone)
          | inr (other, s, at_other, same) ↦ elim (Bool-cases (id == other)) [
            | inl own ↦ inl (inl (sym (hc_of_same sm id other si s c own there at_other same)))
            | inr others ↦
                inr (other, s, lookup-remove id other sm.sessions ∙ rw others at_other, same)
          ]
        ])
]

get_session-IsHeld :
    (now : ℕ) (id : String) (sm : SessionManager) (c : ℕ)
    → IsHeld sm c
    → IsHeld (get_session now id sm).0 c
unfolding get_session
get_session-IsHeld now id sm c h = elim (Bool-cases (id == "")) [
  | inl missing ↦ rw missing h
  | inr given ↦ elim (Option-cases (lookup id sm.sessions)) [
    | inl nothing ↦ rw (given, nothing) h
    | inr (cs, there) ↦
        rw (given, there)
          (elim h [
            | inl gone ↦ inl gone
            | inr (other, s, at_other, same) ↦ elim (Bool-cases (id == other)) [
              | inl own ↦ inr (
                id,
                record cs { last_activity = now },
                lookup-insert_self id (record cs { last_activity = now }) sm.sessions,
                hc_of_same sm id other cs s c own there at_other same,
              )
              | inr others ↦ inr (
                other,
                s,
                lookup-insert id other (record cs { last_activity = now }) sm.sessions
                    ∙ rw others at_other,
                same,
              )
            ]
          ])
  ]
]

close_existing-IsHeld :
    (now : ℕ) (id : String) (sm : SessionManager) (c : ℕ)
    → IsHeld sm c
    → IsHeld (close_existing now id sm) c
unfolding close_existing
close_existing-IsHeld now id sm c h = elim (Option-cases (get_session now id sm).1) [
  | inl nothing ↦ rw (close_existing, nothing) (get_session-IsHeld now id sm c h)
  | inr (cs, there) ↦
      rw (close_existing, there)
        (close-IsHeld id (get_session now id sm).0 c (get_session-IsHeld now id sm c h))
]

close_existing-hub_clients :
    (now : ℕ) (id : String) (sm : SessionManager)
    → (close_existing now id sm).hub_clients ≡ sm.hub_clients
unfolding close_existing get_session close
close_existing-hub_clients now id sm = ground arith

-- What follows the search of the session of the cookie.
close_found : String → SessionManager × Option ClientSession × Option Error → SessionManager
close_found id (after, none, err) = after
close_found id (after, some existing, err) = (close id after).0

close_existing_lem :
    (now : ℕ) (id : String) (sm : SessionManager)
    → close_existing now id sm ≡ close_found id (get_session now id sm)
unfolding close_existing close_found
close_existing_lem now id sm = elim (Option-cases (get_session now id sm).1) [
  | inl nothing ↦ rw (close_existing, close_found, nothing) refl
  | inr (cs, there) ↦ rw (close_existing, close_found, there) refl
]

lookup-close : (id : String) (sm : SessionManager) → lookup id (close id sm).0.sessions ≡ none
unfolding close
lookup-close id sm = elim (Option-cases (lookup id sm.sessions)) [
  | inl nothing ↦ rw (close, nothing) nothing
  | inr (cs, there) ↦ rw (close, there) (lookup-remove id id sm.sessions ∙ rw (eq_refl id) refl)
]

lookup-close_found :
    (now : ℕ) (id : String) (sm : SessionManager)
    → id == "" ≡ false
    → lookup id (close_found id (get_session now id sm)).sessions ≡ none
unfolding get_session close_found
lookup-close_found now id sm given = elim (Option-cases (lookup id sm.sessions)) [
  | inl nothing ↦ rw (given, nothing) nothing
  | inr (cs, there) ↦
      rw (given, there)
        (lookup-close id
          (record sm { sessions = insert id (record cs { last_activity = now }) sm.sessions }))
]

close_found_missing :
    (now : ℕ) (id : String) (sm : SessionManager)
    → id == "" ≡ true
    → close_found id (get_session now id sm) ≡ sm
unfolding get_session close_found
close_found_missing now id sm missing = rw missing refl

-- The ID of the new session is no key of the table.
lookup-close_existing :
    (now : ℕ) (id new_id : String) (sm : SessionManager)
    → lookup new_id sm.sessions ≡ none
    → lookup (if id == "" then new_id else id) (close_existing now id sm).sessions ≡ none
unfolding close_found
lookup-close_existing now id new_id sm fresh = elim (Bool-cases (id == "")) [
  | inl missing ↦ rw missing (
      ap (λ m. lookup new_id m.sessions) (close_existing_lem now id sm)
      ∙ ap (λ m. lookup new_id m.sessions) (close_found_missing now id sm missing)
      ∙ fresh)
  | inr given ↦ rw given (
      ap (λ m. lookup id m.sessions) (close_existing_lem now id sm)
      ∙ lookup-close_found now id sm given)
]

-- What comes to the session manager, in order: a close, a search, or the addition of a session, each
-- by itself or as a part of a login, and a login that nothing interrupts.
pub data Use : Type 0 where
  closes : String → Use
  finds : ℕ → String → Use
  adds : ℕ → String → String → String → Use
  logs_in : ℕ → SessionClaims ⊎ Error → String → String → String → Answers → Use

unfoldable pub use_sessions : Use → SessionManager → SessionManager
unfolding close get_session add_session activate_new_session
use_sessions (closes id) sm = (close id sm).0
use_sessions (finds now id) sm = (get_session now id sm).0
use_sessions (adds now session_id client_id remote_addr) sm =
    (add_session now session_id client_id remote_addr sm).0
use_sessions (logs_in now claims new_id client_id remote_addr answers) sm =
    (activate_new_session now claims new_id client_id remote_addr answers sm).0

unfoldable pub run : List Use → SessionManager → SessionManager
unfolding use_sessions
run [] sm = sm
run (u ∷ uses) sm = run uses (use_sessions u sm)

-- The ID of an added session, and the UUID of a login, name no session yet.
abbrev pub IsNew : Use → SessionManager → Type 0
IsNew (logs_in now claims new_id client_id remote_addr answers) sm =
    lookup new_id sm.sessions ≡ none
IsNew (adds now session_id client_id remote_addr) sm = lookup session_id sm.sessions ≡ none
IsNew _ sm = Unit

abbrev pub AreNew : List Use → SessionManager → Type 0
AreNew [] sm = Unit
AreNew (u ∷ uses) sm = IsNew u sm × AreNew uses (use_sessions u sm)

-- Every hub client of a session is disconnected or still that of a session.
abbrev pub IsKept : SessionManager → Type 0
IsKept sm = (c : ℕ) → suc c ≤ sm.hub_clients → IsHeld sm c

close-hub_clients :
    (id : String) (sm : SessionManager) → (close id sm).0.hub_clients ≡ sm.hub_clients
unfolding close
close-hub_clients id sm = ground arith

get_session-hub_clients :
    (now : ℕ) (id : String) (sm : SessionManager)
    → (get_session now id sm).0.hub_clients ≡ sm.hub_clients
unfolding get_session
get_session-hub_clients now id sm = ground arith

le_cases : (c n : ℕ) → suc c ≤ n + 1 → (c ≡ n) ⊎ (suc c ≤ n)
le_cases c n h = omega arith

-- A session is added under a new ID for the next hub client.
added-IsKept :
    (sm : SessionManager) (id : String) (cs : ClientSession)
    → lookup id sm.sessions ≡ none
    → cs.hc ≡ sm.hub_clients
    → IsKept sm
    → IsKept (record sm { sessions = insert id cs sm.sessions; hub_clients = sm.hub_clients + 1 })
added-IsKept sm id cs absent next kept c below = elim (le_cases c sm.hub_clients below) [
  | inl last ↦ inr (id, cs, lookup-insert_self id cs sm.sessions, next ∙ sym last)
  | inr earlier ↦ elim (kept c earlier) [
    | inl gone ↦ inl gone
    | inr (other, s, at_other, same) ↦ elim (Bool-cases (id == other)) [
      | inl own ↦
          let at_id : lookup id sm.sessions ≡ some s =
            ap (λ i. lookup i sm.sessions) ((eq_iff id other).0 own) ∙ at_other in
          cc
      | inr others ↦
          inr (other, s, lookup-insert id other cs sm.sessions ∙ rw others at_other, same)
    ]
  ]
]

use_sessions-IsKept :
    (u : Use) (sm : SessionManager) → IsNew u sm → IsKept sm → IsKept (use_sessions u sm)
unfolding use_sessions activate_new_session add_session new_client_session
use_sessions-IsKept (closes id) sm new kept c below =
    close-IsHeld id sm c (kept c (subst (λ n. suc c ≤ n) (close-hub_clients id sm) below))
use_sessions-IsKept (finds now id) sm new kept c below =
    get_session-IsHeld now id sm c
      (kept c (subst (λ n. suc c ≤ n) (get_session-hub_clients now id sm) below))
use_sessions-IsKept (adds now session_id client_id remote_addr) sm new kept c below =
    added-IsKept sm session_id
      (new_client_session now session_id client_id sm.hub_clients remote_addr) new refl kept c below
use_sessions-IsKept (logs_in now claims new_id client_id remote_addr answers) sm new kept c below =
    let id = cookie_id claims in
    let closed = close_existing now id sm in
    let session_id = if id == "" then new_id else id in
    added-IsKept closed session_id
      (new_client_session now session_id client_id closed.hub_clients remote_addr)
      (lookup-close_existing now id new_id sm new) refl
      (λ d earlier.
        close_existing-IsHeld now id sm d
          (kept d (subst (λ n. suc d ≤ n) (close_existing-hub_clients now id sm) earlier)))
      c below

-- Whatever uninterrupted logins, and searches, closes and additions of sessions, each by itself or as
-- the parts of other logins, come to a session manager in any order: each hub client that was
-- connected for a session is disconnected or still that of a session, if it was so before, the UUID
-- of each uninterrupted login and the ID of each other added session name no session at their time.
pub run-IsKept :
    (uses : List Use) (sm : SessionManager) → AreNew uses sm → IsKept sm → IsKept (run uses sm)
unfolding run
run-IsKept [] sm new kept = kept
run-IsKept (u ∷ uses) sm new kept =
    run-IsKept uses (use_sessions u sm) new.1 (use_sessions-IsKept u sm new.0 kept)

-- Where the additions of two logins with one session ID come in a row, as they do if both have
-- searched and closed the earlier session before: the hub client of the first, whose number no
-- connection had before, is neither disconnected nor that of any session.
add_session-add_session :
    (now later : ℕ) (id client_id other_client remote_addr other_addr : String)
    (sm : SessionManager)
    → ¬ IsHeld sm sm.hub_clients
    → let first = (add_session now id client_id remote_addr sm).0 in
      let both = (add_session later id other_client other_addr first).0 in
      (both.hub_clients ≡ sm.hub_clients + 2)
      × (lookup id both.sessions
          ≡ some (new_client_session later id other_client (sm.hub_clients + 1) other_addr))
      × (¬ IsHeld both sm.hub_clients)
unfolding add_session new_client_session
add_session-add_session now later id client_id other_client remote_addr other_addr sm free =
    let c = sm.hub_clients in
    let cs = new_client_session now id client_id c remote_addr in
    let ds = new_client_session later id other_client (c + 1) other_addr in
    let once = insert id cs sm.sessions in
    (
      omega arith,
      lookup-insert_self id ds once,
      λ h. elim h [
        | inl gone ↦ free (inl gone)
        | inr (other, s, at_other, same) ↦ elim (Bool-cases (id == other)) [
          | inl own ↦
              let next : c + 1 ≡ c =
                hc_of_same (record sm { sessions = insert id ds once }) id other ds s c own
                  (lookup-insert_self id ds once) at_other same in
              absurd (omega (arith, next))
          | inr others ↦ free (
              inr (
                other,
                s,
                sym (lookup-insert id other cs sm.sessions ∙ rw others refl)
                    ∙ sym (lookup-insert id other ds once ∙ rw others refl)
                    ∙ at_other,
                same,
              ))
        ]
      ],
    )
