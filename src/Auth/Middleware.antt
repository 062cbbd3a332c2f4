-- ===== src/Auth/Middleware.antt =====
-- plugins/auth-enterprise/src/hooks.ts: the hook that every HTTP request goes through.
pub mod Guarded
use openclaw_enterprise.Common.{
  ℕ, String, List, [], ◌∷◌, Bool, true, Option, none, some, get_or, lookup, includes, if◌then◌else◌,
  str_eq,
}
use openclaw_enterprise.Common.Text.{is_empty, split, template}
use openclaw_enterprise.Shared.Errors.{EnterpriseError, Result, ok, throw}
use openclaw_enterprise.Shared.Messages.{message}
use openclaw_enterprise.Auth.Roles.{OidcClaims, build_user_context}
use openclaw_enterprise.Auth.Http.{HttpRequest, HttpResponse, refused}
use openclaw_enterprise.Auth.Keys.{Fetched, Cache}
use openclaw_enterprise.Auth.Validator.{OidcValidatorConfig, Runtime, validate_token}

-- `AUTH_BYPASS_PATHS`
abbrev pub auth_bypass_paths : List String
auth_bypass_paths =
    "/healthz" ∷ "/readyz" ∷ "/health" ∷ "/ready" ∷ "/api/v1/auth/callback" ∷ "/metrics" ∷ []

pub record AuthMiddlewareConfig : Type 0 where
  pub oidc : OidcValidatorConfig
  pub default_tenant_id : String
  pub additional_bypass_paths : Option (List String)

-- A request that goes on, or the response that ends it.
pub data HookResult : Type 0 where
  proceed : HttpRequest → HookResult
  respond : HttpResponse (Unit {0}) → HookResult

abbrev pub should_bypass_auth : String → Option (List String) → Bool
should_bypass_auth path additional =
    if includes auth_bypass_paths path then true else includes (get_or additional []) path

-- The parts of the header: two, of which the first is `Bearer`.
abbrev pub bearer_of : List String → Option String
bearer_of (scheme ∷ token ∷ []) = if str_eq scheme "Bearer" then some token else none
bearer_of _ = none

-- `extractBearerToken`
unfoldable pub extract_bearer_token : Option String → Option String
extract_bearer_token none = none
extract_bearer_token (some header) = if is_empty header then none else bearer_of (split b' ' header)

abbrev pub missing_token : HookResult
missing_token = respond (
    refused 401 (("WWW-Authenticate", "Bearer") ∷ []) (record {
      error = "missing_token";
      message = "Authorization header with Bearer token is required";
    }))

unfoldable pub invalid_token : EnterpriseError → HookResult
invalid_token error_ = respond (
    refused 401 (("WWW-Authenticate", "Bearer error=\"invalid_token\"") ∷ []) (record {
      error = "invalid_token";
      message = template ("Token validation failed: " ∷ message error_ ∷ []);
    }))

-- 4. and 5. What a request with a token comes to.
unfoldable pub attach : AuthMiddlewareConfig → HttpRequest → Result OidcClaims → HookResult
attach config request (throw error_) = invalid_token error_
attach config request (ok claims) = proceed (record request {
  user_context = some (build_user_context claims config.default_tenant_id none);
})

-- The hook behind the bypass, for the token of the request, if it has one.
unfoldable pub handle_token :
    Runtime
    → (String → Fetched)
    → ℕ
    → AuthMiddlewareConfig
    → HttpRequest
    → Option String
    → Cache
    → HookResult × Cache
handle_token r fetched now config request none cache = (missing_token, cache)
handle_token r fetched now config request (some token) cache =
    let (claims, cache') = validate_token r fetched now config.oidc token cache in
    if is_empty token then (missing_token, cache) else (attach config request claims, cache')

-- The handler of `createAuthMiddlewareHook`.
unfoldable pub handle :
    Runtime
    → (String → Fetched)
    → ℕ
    → AuthMiddlewareConfig
    → HttpRequest
    → Cache
    → HookResult × Cache
handle r fetched now config request cache =
    let checked =
      handle_token r fetched now config request
        (extract_bearer_token (lookup "authorization" request.headers)) cache in
    if should_bypass_auth request.path config.additional_bypass_paths
    then (proceed request, cache)
    else checked
