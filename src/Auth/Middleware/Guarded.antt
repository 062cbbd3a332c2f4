-- ===== src/Auth/Middleware/Guarded.antt =====
-- plugins/auth-enterprise/src/hooks.ts: no request goes on without a user that its token names.
use openclaw_enterprise.Common.{
  ℕ, ◌/◌, String, List, true, Option, none, some, lookup, ◌≡◌, ◌⊎◌, refl, Bool-cases, inl, inr,
}
use mathlib.Core.Path.{subst}
use openclaw_enterprise.Common.Text.{is_empty}
use openclaw_enterprise.Shared.Errors.{Result, ok, throw}
use openclaw_enterprise.Auth.Roles.{OidcClaims, build_user_context}
use openclaw_enterprise.Auth.Http.{HttpRequest}
use openclaw_enterprise.Auth.Keys.{Jwk, Fetched, Cache, fetch_jwks}
use openclaw_enterprise.Auth.Validator.{Runtime, validate_token}
use openclaw_enterprise.Auth.Validator.Checked.{IsSigned, IsClaimed, validate_token_checked}
use openclaw_enterprise.Auth.Middleware.{
  AuthMiddlewareConfig, proceed, should_bypass_auth, extract_bearer_token, attach, handle_token,
  handle, invalid_token,
}

-- The request that the hook lets on carries the user of a token that was checked, and is otherwise
-- the one that came.
pub data IsAuthenticated (r : Runtime) (fetched : String → Fetched) (now : ℕ)
    (config : AuthMiddlewareConfig) (cache : Cache) (request : HttpRequest)
    : HttpRequest → Type 0 where
  authenticated :
      (token : String) (claims : OidcClaims) (ks : List Jwk)
      → extract_bearer_token (lookup "authorization" request.headers) ≡ some token
      → (fetch_jwks fetched now config.oidc.jwks_endpoint cache).0 ≡ ok ks
      → IsSigned r token ks
      → IsClaimed r config.oidc (now / 1000) token claims
      → IsAuthenticated r fetched now config cache request (record request {
        user_context = some (build_user_context claims config.default_tenant_id none);
      })

attach-proceed :
    (config : AuthMiddlewareConfig) (request out : HttpRequest) (claims : Result OidcClaims)
    → attach config request claims ≡ proceed out
    → (c : OidcClaims) × (claims ≡ ok c)
      × (record request { user_context = some (build_user_context c config.default_tenant_id none) }
          ≡ out)
unfolding attach invalid_token
attach-proceed config request out (throw e) h = cc
attach-proceed config request out (ok c) h = (c, refl, cc)

handle_token-IsAuthenticated :
    (r : Runtime) (fetched : String → Fetched) (now : ℕ) (config : AuthMiddlewareConfig)
    (cache : Cache) (request out : HttpRequest) (token : Option String)
    → extract_bearer_token (lookup "authorization" request.headers) ≡ token
    → (handle_token r fetched now config request token cache).0 ≡ proceed out
    → IsAuthenticated r fetched now config cache request out
unfolding handle_token
handle_token-IsAuthenticated r fetched now config cache request out none e h = cc
handle_token-IsAuthenticated r fetched now config cache request out (some token) e h =
    elim (Bool-cases (is_empty token)) [
      | inl empty ↦ let h' = rw empty at h in cc
      | inr given ↦
          let h' = rw given at h in
          let (claims, valid, is) =
            attach-proceed config request out
              (validate_token r fetched now config.oidc token cache).0 h' in
          let ((ks, found, has_signature), has_claims) =
            validate_token_checked r fetched now config.oidc token cache claims valid in
          subst (IsAuthenticated r fetched now config cache request) is
            (authenticated token claims ks e found has_signature has_claims)
    ]

-- A request that the hook lets on is one to a path that needs no authentication, unchanged, or its
-- header has a token that one of the issuer's keys signed and whose issuer and times were checked, and
-- the user that is attached is the one that the token's claims give.
pub handle-IsAuthenticated :
    (r : Runtime) (fetched : String → Fetched) (now : ℕ) (config : AuthMiddlewareConfig)
    (cache : Cache) (request out : HttpRequest)
    → (handle r fetched now config request cache).0 ≡ proceed out
    → ((should_bypass_auth request.path config.additional_bypass_paths ≡ true) × (request ≡ out))
      ⊎ IsAuthenticated r fetched now config cache request out
unfolding handle
handle-IsAuthenticated r fetched now config cache request out h =
    elim (Bool-cases (should_bypass_auth request.path config.additional_bypass_paths)) [
      | inl open_ ↦ let h' = rw open_ at h in inl (open_, cc)
      | inr closed ↦
          let h' = rw closed at h in
          inr (
            handle_token-IsAuthenticated r fetched now config cache request out
              (extract_bearer_token (lookup "authorization" request.headers)) refl h')
    ]
