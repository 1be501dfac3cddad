-- ===== src/Sdk/MockToken/Roles.antt =====
-- What `grantRole` and `revokeRole` change for `hasRole` (sdk/src/mockClient.ts).
use bc_forge.Common.{
  ◌≡◌, true, false, not, List, [], ◌∷◌, String, arith, eq_iff, inl, inr, keep, ◌===◌, Option-cases,
  if◌then◌else◌, ◌||◌,
}
use bc_forge.Common.Dict.{lookup, lookup-insert}
use bc_forge.Sdk.MockToken.{
  MockBcForgeClient, has_role, grant_role, revoke_role, holds, roles_of, delete_role,
}

holds-keep :
    (role r : String) (rs : List String)
    → holds r (keep (λ s. not (s === role)) rs) ≡ (if r === role then false else holds r rs)
holds-keep role r [] = ground arith
holds-keep role r (s ∷ rs) =
    ground (arith, eq_iff s role, eq_iff s r, eq_iff r role, holds-keep role r rs)

-- After `grantRole`, an address has a role exactly if it had it before, or the role and the address
-- are the ones of the call.
pub has_role-grant_role :
    (c : MockBcForgeClient) (role r a b : String)
    → has_role (grant_role c role a).0 r b
      ≡ (has_role c r b || (if a === b then role === r else false))
unfolding has_role grant_role
has_role-grant_role c role r a b = ground (
  arith,
  lookup-insert a b (if holds role (roles_of c a) then roles_of c a else role ∷ roles_of c a)
      c.roles,
  eq_iff a b,
  eq_iff role r,
)

-- After `revokeRole`, an address has a role exactly if it is the admin, or had the role before and
-- the role and the address are not the ones of the call.
pub has_role-revoke_role :
    (c : MockBcForgeClient) (role r a b : String)
    → has_role (revoke_role c role a).0 r b ≡ (
        if c.admin_address === b
        then true
        else if a === b
        then (if r === role then false else has_role c r b)
        else has_role c r b)
unfolding has_role revoke_role
has_role-revoke_role c role r a b = elim (Option-cases (lookup a c.roles)) [
  | inl e ↦ rw (e, delete_role) (ground (arith, eq_iff a b))
  | inr (rs, e) ↦
      let written = lookup-insert a b (keep (λ s. not (s === role)) rs) c.roles in
      rw (e, delete_role) (ground (arith, written, holds-keep role r rs, eq_iff a b))
]
