-- ===== src/Tests/AuthTests.antt =====
-- The role mapper's theorem on the claims of one user.
use openclaw_enterprise.Common.{[], ◌∷◌}
use openclaw_enterprise.Auth.Roles.{OidcClaims}

abbrev claims : OidcClaims
claims = record {
  sub = "u";
  email = "u@example.com";
  groups = "team-leads" ∷ "visitors" ∷ [];
  roles = "org_admin" ∷ [];
  org_unit = "sales";
}
