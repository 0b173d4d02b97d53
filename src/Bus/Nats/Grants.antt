-- ===== src/Bus/Nats/Grants.antt =====
-- What the permissions of a client allow it to publish and subscribe to.
use Prim.Native.String.{◌++◌ as append_text}
use done_rest.Prelude.{
  String, ◌≢◌, ne→false, ◌≡◌, ◌⊎◌, inl, inr, refl, Option, none, some, arith, List, [], ◌∷◌, ◌++◌,
  All, All-append, lookup, Bool-cases, ◌==◌, if◌then◌else◌, ◌∙◌, sym, ap, insert, lookup-insert,
  eq_iff, Dict,
}
use mathlib.Core.List.{append-nil, append_assoc}
use done_rest.Bus.Api.{ClientAuthInfo, RolePermission}
use done_rest.Bus.Slices.{Slice}
use done_rest.Bus.Nats.{
  NatsMsgServer, Library, Permissions, make_permissions, role_permissions_for, apply_role,
  pub_subject, inbox_permissions, with_streams, denied_streams, stream_subjects, permit_roles,
  or_empty, set_service_permissions, service_permission,
}
use done_rest.Auth.Roles.{client_role_admin}
use done_rest.Transport.{message_type_event}
use done_rest.Transport.Subjects.{make_subject, join_five, or_default}

-- Either four texts and then the client's own ID, joined by dots, or an inbox, or one of the stream
-- subjects.
pub data MayPublish (client_id : String) : String → Type 0 where
  own :
      (msg_type agent_id thing_id name : String) {subject : String}
      → subject ≡ join_five msg_type agent_id thing_id name client_id
      → MayPublish client_id subject
  inbox : {subject : String} → subject ≡ "_INBOX.>" → MayPublish client_id subject
  info : {subject : String} → subject ≡ "$JS.API.INFO" → MayPublish client_id subject
  stream_info :
      {subject : String} → subject ≡ "$JS.API.STREAM.INFO.$events" → MayPublish client_id subject
  consumer :
      (command : String) {subject : String}
      → (command ≡ "CREATE.$events")
        ⊎ ((command ≡ "LIST.$events")
            ⊎ ((command ≡ "INFO.$events.>") ⊎ (command ≡ "MSG.NEXT.$events.>")))
      → subject ≡ append_text "$JS.API.CONSUMER." command
      → MayPublish client_id subject

make_subject_own :
    (msg_type agent_id thing_id name client_id : String)
    → client_id ≢ ""
    → make_subject msg_type agent_id thing_id name client_id
      ≡ join_five
          (or_default msg_type message_type_event)
          (or_default agent_id "*")
          (or_default thing_id "*")
          (or_default name "*")
          client_id
unfolding make_subject or_default
make_subject_own msg_type agent_id thing_id name client_id known =
    ap
      (join_five (or_default msg_type message_type_event) (or_default agent_id "*")
        (or_default thing_id "*") (or_default name "*"))
      (rw (ne→false client_id "" known) refl)

pub_subject-MayPublish :
    (c : ClientAuthInfo) (perm : RolePermission)
    → c.client_id ≢ ""
    → MayPublish c.client_id (pub_subject c perm)
unfolding pub_subject
pub_subject-MayPublish c perm known =
    own _ _ _ _ (make_subject_own perm.msg_type _ perm.thing_id perm.msg_name c.client_id known)

apply_role-MayPublish :
    (c : ClientAuthInfo) (perms : List RolePermission) (p : Permissions)
    → c.client_id ≢ ""
    → All (MayPublish c.client_id) p.pub_allow
    → All (MayPublish c.client_id) (apply_role c perms p).pub_allow
unfolding apply_role pub_subject
apply_role-MayPublish c [] p known h = h
apply_role-MayPublish c (perm ∷ rest) p known h =
    apply_role-MayPublish c rest _ known (elim (Bool-cases perm.allow_pub) [
      | inl publishes ↦ rw publishes (
          All-append (MayPublish c.client_id) p.pub_allow (pub_subject c perm ∷ []) h
            (pub_subject-MayPublish c perm known, tt))
      | inr silent ↦ rw silent h
    ])

stream_subjects-MayPublish : (client_id : String) → All (MayPublish client_id) stream_subjects
stream_subjects-MayPublish client_id = (
  stream_info refl,
  (
    consumer "CREATE.$events" (inl refl) refl,
    (
      consumer "LIST.$events" (inr (inl refl)) refl,
      (
        consumer "INFO.$events.>" (inr (inr (inl refl))) refl,
        (consumer "MSG.NEXT.$events.>" (inr (inr (inr refl))) refl, tt),
      ),
    ),
  ),
)

with_streams-MayPublish :
    (c : ClientAuthInfo) (p : Permissions)
    → All (MayPublish c.client_id) p.pub_allow
    → All (MayPublish c.client_id) (with_streams c p).pub_allow
unfolding with_streams
with_streams-MayPublish c p h = All-append (MayPublish c.client_id) p.pub_allow _ h (
    All-append (MayPublish c.client_id) stream_subjects _ (stream_subjects-MayPublish c.client_id)
      (elim (Bool-cases (c.role == client_role_admin)) [
        | inl admin ↦ rw admin (info refl, tt)
        | inr other ↦ rw other tt
      ]))

role_permissions_for-MayPublish :
    (lib : Library) (c : ClientAuthInfo) (srv : NatsMsgServer) (found : Option (Option Slice))
    → c.client_id ≢ ""
    → All (MayPublish c.client_id) (role_permissions_for lib c srv found).1.pub_allow
unfolding role_permissions_for inbox_permissions denied_streams
role_permissions_for-MayPublish lib c srv none known = (inbox refl, tt)
role_permissions_for-MayPublish lib c srv (some none) known = (inbox refl, tt)
role_permissions_for-MayPublish lib c srv (some (some slice)) known =
    with_streams-MayPublish c _ (apply_role-MayPublish c _ _ known (inbox refl, tt))

-- Whatever the permissions of the roles and of the services are, a client whose ID is not empty may
-- publish only on subjects of four texts and then its own ID, joined by dots, to inboxes, and on the
-- request subjects of the event stream.
pub make_permissions-MayPublish :
    (lib : Library) (c : ClientAuthInfo) (srv : NatsMsgServer)
    → c.client_id ≢ ""
    → All (MayPublish c.client_id) (make_permissions lib c srv).1.pub_allow
unfolding make_permissions
make_permissions-MayPublish lib c srv known =
    role_permissions_for-MayPublish lib c srv (lookup c.role srv.role_permissions) known

-- A role that is not in the map, or that has no permissions there, gets its inbox and nothing
-- else: it may publish to inboxes only and subscribe to its own inbox only.
make_permissions_powerless :
    (lib : Library) (c : ClientAuthInfo) (srv : NatsMsgServer)
    → (lookup c.role srv.role_permissions ≡ none) ⊎ (lookup c.role srv.role_permissions ≡ some none)
    → ((make_permissions lib c srv).1.pub_allow ≡ "_INBOX.>" ∷ [])
      × ((make_permissions lib c srv).1.sub_allow
          ≡ append_text "_INBOX." (append_text c.client_id ".>") ∷ [])
      × ((make_permissions lib c srv).0 ≡ srv)
unfolding make_permissions inbox_permissions denied_streams
make_permissions_powerless lib c srv (inl unknown) = (ground arith, ground arith, ground arith)
make_permissions_powerless lib c srv (inr empty) = (ground arith, ground arith, ground arith)

-- How often a role stands in a list of roles.
unfoldable pub times : String → List String → List RolePermission → List RolePermission
times role [] perms = []
times role (r ∷ rest) perms =
    let others = times role rest perms in if r == role then perms ++ others else others

or_empty-insert :
    (role r : String) (perms : List RolePermission) (d : Dict (List RolePermission))
    → or_empty (lookup role (insert r perms d))
      ≡ (if r == role then perms else or_empty (lookup role d))
unfolding or_empty
or_empty-insert role r perms d = ground (arith, lookup-insert r role perms d)

permit_roles_lem :
    (perm : RolePermission) (roles : List String) (role : String) (d : Dict (List RolePermission))
    → or_empty (lookup role (permit_roles perm roles d))
      ≡ or_empty (lookup role d) ++ times role roles (perm ∷ [])
unfolding permit_roles times
permit_roles_lem perm [] role d = sym (append-nil _)
permit_roles_lem perm (r ∷ rest) role d =
    let longer = or_empty (lookup r d) ++ perm ∷ [] in
    permit_roles_lem perm rest role (insert r longer d)
    ∙ ap (λ (x : List RolePermission). x ++ times role rest (perm ∷ []))
        (or_empty-insert role r longer d)
    ∙ elim (Bool-cases (r == role)) [
      | inl same ↦
          rw (same, (eq_iff r role).0 same) (append_assoc (or_empty (lookup role d)) (perm ∷ []) _)
      | inr other ↦ rw other
    ]

-- After `SetServicePermissions` every role has the permissions it had, followed by the permission
-- to publish requests to that service and capability as often as the role stands in the list; so
-- nothing changes for a role that is not listed.
set_service_permissions_roles :
    (service_id capability : String) (roles : List String) (srv : NatsMsgServer) (role : String)
    → or_empty
        (lookup role (set_service_permissions service_id capability roles srv).service_permissions)
      ≡ or_empty (lookup role srv.service_permissions)
        ++ times role roles (service_permission service_id capability ∷ [])
unfolding set_service_permissions
set_service_permissions_roles service_id capability roles srv role =
    permit_roles_lem (service_permission service_id capability) roles role srv.service_permissions
