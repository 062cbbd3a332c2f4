-- ===== src/Tests/SessionTests.antt =====
-- The theorems on tokens, sessions and the administration routes, at one token and a few requests.
use openclaw_enterprise.Common.{
  ◌≤◌, pos, ◌+ℤ◌, String, List, [], ◌∷◌, true, false, none, some, lookup, insert, ◌≡◌, ◌⊎◌, refl,
  arith, str_eq, if◌then◌else◌,
}
use openclaw_enterprise.Shared.Types.{org_admin, UserContext}
use openclaw_enterprise.Shared.Errors.{ok}
use openclaw_enterprise.Shared.Json.{num, str, obj, Fields, field, end}
use openclaw_enterprise.Auth.Roles.{OidcClaims, build_user_context, has_role, role_permissions}
use openclaw_enterprise.Auth.Http.{HttpRequest}
use openclaw_enterprise.Auth.Keys.{Jwk, Fetched, keys, Cache, fetched_now, fetch_jwks}
use openclaw_enterprise.Auth.Validator.{
  OidcValidatorConfig, Runtime, standard, text_length, validate_token, verify_signature,
  parse_jwt_header, find_key, same_value, parse_jwt_payload, check_payload,
}
use openclaw_enterprise.Common.Text.{split, starts_with, trim, trim_end, trim_start, template}
use openclaw_enterprise.Auth.Keys.Cached.{fetch_jwks_kept}
use openclaw_enterprise.Auth.Middleware.{
  AuthMiddlewareConfig, should_bypass_auth, extract_bearer_token, attach, handle_token, handle,
}
use openclaw_enterprise.Auth.Middleware.Guarded.{IsAuthenticated, handle-IsAuthenticated}
use openclaw_enterprise.Auth.Sessions.{
  Session, AuthRoutesConfig, tokens, AuthState, named_in, find_cookie, answer_for, callback,
  with_tokens, open_session, userinfo, handle_userinfo,
}
use openclaw_enterprise.Auth.Sessions.Cookie.{HasCookie}
use openclaw_enterprise.Auth.Sessions.Lifetime.{
  AuthEvent, login, step, begin, then_, IsOpenedBy, handle_userinfo-IsOpenedBy,
}
use openclaw_enterprise.Auth.Admin.{ConnectorRecord, ConnectorStatus}
use openclaw_enterprise.Auth.Admin.Isolated.{Request, create, delete, apply_all, apply_all_isolated}

abbrev config : OidcValidatorConfig
config = record {
  issuer_url = "https://idp";
  jwks_endpoint = "https://idp/keys";
  audience = "openclaw";
  clock_skew_seconds = none;
}

abbrev key : Jwk
key = record { kid = some (str "k"); key = "" }

abbrev payload : Fields
payload = field "iss" (str "https://idp") (field "exp" (num (pos 500)) (field "sub" (str "u") end))

-- The parts of the token `h.p.s`.
abbrev runtime : Runtime
runtime = record {
  atob = λ text.
      if str_eq text "h===" then some "h" else if str_eq text "s===" then some "s" else some "p";
  parse_json = λ text.
      if str_eq text "h" then some (obj (field "kid" (str "k") end)) else some (obj payload);
  verify = λ k text signature. some (str_eq signature "s");
  text_of = λ v. elim v [ str s ↦ s | _ ↦ "" ];
  plus_other = λ v n. v;
  is_greater_other = λ v w. false;
}

abbrev fetched : String → Fetched
fetched endpoint = keys (key ∷ [])

abbrev empty_cache : Cache
empty_cache = record { jwks = none; expiry = 0 }

fetch_jwks_kept_example :
    fetch_jwks
      (λ endpoint. keys [])
      1000
      "https://other"
      (fetch_jwks fetched 5 "https://idp/keys" empty_cache).1
    ≡ (ok (key ∷ []), (fetch_jwks fetched 5 "https://idp/keys" empty_cache).1)
unfolding fetch_jwks fetched_now
fetch_jwks_kept_example =
    fetch_jwks_kept fetched (λ endpoint. keys []) 5 1000 "https://idp/keys" "https://other"
      empty_cache (key ∷ []) refl (omega arith)

abbrev hook : AuthMiddlewareConfig
hook = record { oidc = config; default_tenant_id = "t"; additional_bypass_paths = none }

abbrev request : HttpRequest
request = record {
  path = "/api/v1/tasks";
  headers = ("authorization", "Bearer h.p.s") ∷ [];
  body = none;
  user_context = none;
}

abbrev token_claims : OidcClaims
token_claims = record { sub = "u"; email = ""; groups = []; roles = []; org_unit = "" }

abbrev let_on : HttpRequest
let_on = record request { user_context = some (build_user_context token_claims "t" none) }

handle-IsAuthenticated_example :
    ((should_bypass_auth "/api/v1/tasks" none ≡ true) × (request ≡ let_on))
    ⊎ IsAuthenticated runtime fetched 400000 hook empty_cache request let_on
unfolding handle handle_token extract_bearer_token lookup split attach validate_token standard
    text_length template verify_signature parse_jwt_header fetch_jwks fetched_now find_key
    same_value parse_jwt_payload check_payload ◌+ℤ◌
handle-IsAuthenticated_example =
    handle-IsAuthenticated runtime fetched 400000 hook empty_cache request let_on refl

abbrev routes : AuthRoutesConfig
routes = record { oidc = config; default_tenant_id = "t"; session_ttl_seconds = some 60 }

abbrev first_state : AuthState
first_state = record { cache = empty_cache; sessions = [] }

abbrev logged_in : AuthEvent
logged_in = login fetched (λ code_. tokens (some "h.p.s")) 400000 "5f" (some "code")

handle_userinfo-IsOpenedBy_example :
    (id : String) × (s : Session) × HasCookie (("cookie", "a=1; session=5f") ∷ []) id
    × IsOpenedBy runtime routes first_state id s (logged_in ∷ [])
    × (s.user_context ≡ build_user_context token_claims "t" none)
    × (430000 ≤ s.expires_at)
unfolding handle_userinfo userinfo named_in lookup insert find_cookie split starts_with trim
    trim_end trim_start answer_for callback with_tokens open_session validate_token standard
    text_length template verify_signature parse_jwt_header fetch_jwks fetched_now find_key
    same_value parse_jwt_payload check_payload ◌+ℤ◌
handle_userinfo-IsOpenedBy_example =
    handle_userinfo-IsOpenedBy runtime routes first_state
      (step runtime routes logged_in first_state) (logged_in ∷ []) 430000
      (("cookie", "a=1; session=5f") ∷ []) 200 [] (build_user_context token_claims "t" none) refl
      (then_ logged_in begin) refl

abbrev admin_of : String → UserContext
admin_of tenant = record {
  user_id = "u";
  email = "";
  roles = org_admin ∷ [];
  org_unit = "";
  tenant_id = tenant;
  effective_permissions = role_permissions org_admin;
}

abbrev mine : ConnectorRecord
mine = record {
  id = "c1";
  type_ = "jira";
  tenant_id = "mine";
  credentials_secret_ref = "";
  config = end;
  status = ConnectorStatus.active;
  created_at = "";
}

abbrev requests : List Request
requests =
    delete "/api/v1/connectors/c1" (some (admin_of "other"))
    ∷ create "c2" "now"
        (record { type_ = some "gmail"; credentials_secret_ref = some "ref"; config = none })
        (some (admin_of "other"))
    ∷ []

apply_all_isolated_example : lookup "c1" (apply_all requests (("c1", mine) ∷ [])) ≡ some mine
unfolding lookup has_role
apply_all_isolated_example =
    apply_all_isolated "mine" "c1" requests (("c1", mine) ∷ []) mine refl refl
      (refl, (refl, refl, tt))
