-- ===== src/Auth/Roles/Granted.antt =====
-- A user holds the permissions of the highest role that a claim grants, and no more.
use openclaw_enterprise.Common.{
  ◌≤◌, String, List, true, Option, some, get_or, lookup, includes, ◌≡◌, ◌⊎◌,
}
use openclaw_enterprise.Shared.Types.{BuiltInRole}
use openclaw_enterprise.Auth.Roles.{
  OidcClaims, RoleMappings, default_role_mappings, role_permissions, role_rank, derive_permissions,
}

-- A name among the claims that is mapped to the role.
abbrev pub Grants : RoleMappings → List String → BuiltInRole → Type 0
Grants mappings names role =
    (name : String) × (includes names name ≡ true) × (lookup name mappings ≡ some role)

-- A group or a role among the claims is mapped to the role.
abbrev pub IsGranted : OidcClaims → Option RoleMappings → BuiltInRole → Type 0
IsGranted claims custom_mappings role =
    let mappings = get_or custom_mappings default_role_mappings in
    Grants mappings claims.groups role ⊎ Grants mappings claims.roles role

-- What is to be shown of the roles that the claims collect.
abbrev IsHighest : (BuiltInRole → Type 0) → List BuiltInRole → BuiltInRole → Type 0
IsHighest granted roles role =
    (derive_permissions roles ≡ role_permissions role)
    × ((other : BuiltInRole) → granted other → role_rank other ≤ role_rank role)
    × (granted role ⊎ (role ≡ BuiltInRole.user))
