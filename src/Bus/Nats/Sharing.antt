-- ===== src/Bus/Nats/Sharing.antt =====
-- Two roles whose slices share an array: ManageRolesAPI.go appends the permissions of one role to
-- those of another, and MakePermissions appends to the slices that it finds.
use done_rest.Prelude.{
  ℕ, suc, ◌<◌, ◌≡◌, Option, none, some, arith, [], ◌∷◌, lookup, leb, if◌then◌else◌,
}
use done_rest.Bus.Api.{ClientAuthInfo, RolePermission}
use done_rest.Bus.Slices.{Slice, append, write_cells_head}
use done_rest.Bus.Nats.{NatsMsgServer, Library, make_permissions, extended_role}

-- The n-th permission of a role, as the slice reads it.
abbrev pub permission_at : NatsMsgServer → Slice → ℕ → Option RolePermission
permission_at srv s n = if leb (suc n) s.len then some (srv.arrays.cell s.array n) else none

-- A role's slice has room for one more permission in an array that a longer slice of another role
-- shares, and services have set exactly one permission for the first role. Then making the
-- permissions of a client of the first role overwrites a permission of the other role.
pub make_permissions_overwrites :
    (lib : Library) (c : ClientAuthInfo) (srv : NatsMsgServer) (short long : Slice)
    (perm : RolePermission)
    → lookup c.role srv.role_permissions ≡ some (some short)
    → lookup c.role srv.service_permissions ≡ some (perm ∷ [])
    → short.len < short.cap
    → long.array ≡ short.array
    → short.len < long.len
    → permission_at (make_permissions lib c srv).0 long short.len ≡ some perm
unfolding make_permissions extended_role append
make_permissions_overwrites lib c srv short long perm role service room same longer =
    ground (arith, write_cells_head (srv.arrays.cell short.array) short.len perm [])
