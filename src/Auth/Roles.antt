-- ===== src/Auth/Roles.antt =====
-- plugins/auth-enterprise/src/rbac/mapper.ts: from the claims of a token to roles and permissions.
pub mod Granted
use openclaw_enterprise.Common.{
  ℕ, String, List, [], ◌∷◌, ◌++◌, Bool, true, false, ◌||◌, ◌==◌, ltb, Option, some, none, get_or,
  lookup, if◌then◌else◌,
}
use openclaw_enterprise.Shared.Types.{
  BuiltInRole, enterprise_admin, org_admin, team_lead, EffectivePermissions, UserContext,
  enterprise, org, team,
}
use openclaw_enterprise.Shared.Types.{PolicyScope}

-- The claims of a token that the mapper reads.
pub record OidcClaims : Type 0 where
  pub sub : String
  pub email : String
  pub groups : List String
  pub roles : List String
  pub org_unit : String

-- A `Map` from the names of groups and roles.
abbrev pub RoleMappings : Type 0
RoleMappings = List (String × BuiltInRole)

-- `DEFAULT_ROLE_MAPPINGS`.
abbrev pub default_role_mappings : RoleMappings
default_role_mappings =
    ("enterprise-admins", enterprise_admin)
    ∷ ("org-admins", org_admin)
    ∷ ("team-leads", team_lead)
    ∷ ("users", BuiltInRole.user)
    ∷ ("enterprise_admin", enterprise_admin)
    ∷ ("org_admin", org_admin)
    ∷ ("team_lead", team_lead)
    ∷ ("user", BuiltInRole.user)
    ∷ []

-- `ROLE_PERMISSIONS`.
abbrev pub role_permissions : BuiltInRole → EffectivePermissions
role_permissions enterprise_admin = record {
  can_manage_policies = true;
  policy_scope = enterprise;
  can_query_audit = true;
  audit_scope = enterprise;
}
role_permissions org_admin = record {
  can_manage_policies = true;
  policy_scope = org;
  can_query_audit = true;
  audit_scope = org;
}
role_permissions team_lead = record {
  can_manage_policies = false;
  policy_scope = team;
  can_query_audit = true;
  audit_scope = team;
}
role_permissions BuiltInRole.user = record {
  can_manage_policies = false;
  policy_scope = PolicyScope.user;
  can_query_audit = false;
  audit_scope = PolicyScope.user;
}

-- `ROLE_HIERARCHY.indexOf(role)`.
abbrev pub role_rank : BuiltInRole → ℕ
role_rank BuiltInRole.user = 0
role_rank team_lead = 1
role_rank org_admin = 2
role_rank enterprise_admin = 3

abbrev pub higher : BuiltInRole → BuiltInRole → BuiltInRole
higher highest current = if ltb (role_rank highest) (role_rank current) then current else highest

-- `roles.reduce`, from the first role on.
unfoldable pub reduce : BuiltInRole → List BuiltInRole → BuiltInRole
reduce highest [] = highest
reduce highest (current ∷ roles) = reduce (higher highest current) roles

unfoldable pub highest_role : List BuiltInRole → BuiltInRole
unfolding reduce
highest_role [] = BuiltInRole.user
highest_role (role ∷ roles) = reduce role roles

abbrev pub role_eq : BuiltInRole → BuiltInRole → Bool
role_eq a b = role_rank a == role_rank b

-- `set.has(role)`; a set is the list of its members in the order of their insertion.
unfoldable pub has_role : List BuiltInRole → BuiltInRole → Bool
has_role [] role = false
has_role (r ∷ rs) role = role_eq r role || has_role rs role

-- `set.add(role)`.
abbrev pub add_role : List BuiltInRole → BuiltInRole → List BuiltInRole
add_role rs role = if has_role rs role then rs else rs ++ role ∷ []

abbrev pub add_mapped : List BuiltInRole → Option BuiltInRole → List BuiltInRole
add_mapped rs none = rs
add_mapped rs (some role) = add_role rs role

-- One of the two loops over names.
unfoldable pub collect : RoleMappings → List String → List BuiltInRole → List BuiltInRole
collect mappings [] matched = matched
collect mappings (name ∷ names) matched =
    collect mappings names (add_mapped matched (lookup name mappings))

abbrev pub or_user : List BuiltInRole → List BuiltInRole
or_user [] = BuiltInRole.user ∷ []
or_user (r ∷ rs) = r ∷ rs

unfoldable pub map_claims_to_roles : OidcClaims → Option RoleMappings → List BuiltInRole
map_claims_to_roles claims custom_mappings =
    let mappings = get_or custom_mappings default_role_mappings in
    or_user (collect mappings claims.roles (collect mappings claims.groups []))

unfoldable pub derive_permissions : List BuiltInRole → EffectivePermissions
derive_permissions roles = role_permissions (highest_role roles)

unfoldable pub build_user_context : OidcClaims → String → Option RoleMappings → UserContext
build_user_context claims tenant_id custom_mappings =
    let roles = map_claims_to_roles claims custom_mappings in
    record {
      user_id = claims.sub;
      email = claims.email;
      roles = roles;
      org_unit = claims.org_unit;
      tenant_id = tenant_id;
      effective_permissions = derive_permissions roles;
    }
