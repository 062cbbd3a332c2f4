-- ===== src/Auth/Sessions.antt =====
-- plugins/auth-enterprise/src/routes.ts: the login callback, and the sessions that it opens.
pub mod Cookie
pub mod Lifetime
use openclaw_enterprise.Common.{
  ℕ, ◌+◌, ◌*◌, ltb, String, List, [], ◌∷◌, map, Option, none, some, get_or, lookup, insert, remove,
  if◌then◌else◌,
}
use openclaw_enterprise.Common.Text.{is_empty, split, trim, starts_with, template, decimal}
use openclaw_enterprise.Shared.Types.{UserContext, BuiltInRole}
use openclaw_enterprise.Shared.Errors.{Result, ok, throw}
use openclaw_enterprise.Shared.Messages.{message}
use openclaw_enterprise.Auth.Roles.{OidcClaims, build_user_context}
use openclaw_enterprise.Auth.Http.{HttpResponse, refused, answered}
use openclaw_enterprise.Auth.Keys.{Fetched, Cache}
use openclaw_enterprise.Auth.Validator.{OidcValidatorConfig, Runtime, validate_token}

pub record Session : Type 0 where
  pub user_context : UserContext
  pub expires_at : ℕ

-- `sessions`
abbrev pub Store : Type 0
Store = List (String × Session)

-- The fields that are read here. The others go into the request to the token endpoint.
pub record AuthRoutesConfig : Type 0 where
  pub oidc : OidcValidatorConfig
  pub default_tenant_id : String
  pub session_ttl_seconds : Option ℕ

-- How the exchange of a code ends: no answer, an answer that is not ok, or the tokens.
pub data TokenResponse : Type 0 where
  no_answer : (error_text : String) → TokenResponse
  bad_status : (status : ℕ) → TokenResponse
  tokens : (id_token : Option String) → TokenResponse

-- The user in the answer of the callback.
pub record Login : Type 0 where
  pub user_id : String
  pub email : String
  pub roles : List BuiltInRole
  pub org_unit : String

-- What the routes share.
pub record AuthState : Type 0 where
  pub cache : Cache
  pub sessions : Store

abbrev pub error_response : {A : Type 0} → ℕ → String → List String → HttpResponse A
error_response status error_ parts =
    refused status [] (record { error = error_; message = template parts })

-- `config.sessionTtlSeconds ?? 3600`
abbrev pub ttl : AuthRoutesConfig → ℕ
ttl config = get_or config.session_ttl_seconds 3600

abbrev pub login_of : UserContext → Login
login_of u = record { user_id = u.user_id; email = u.email; roles = u.roles; org_unit = u.org_unit }

-- The part of the callback behind the validation: the session is opened.
unfoldable pub open_session :
    AuthRoutesConfig → ℕ → String → Store → Result OidcClaims → HttpResponse Login × Store
open_session config now session_id sessions (throw error_) = (
  error_response 401 "invalid_token" ("Token validation failed: Error: " ∷ message error_ ∷ []),
  sessions,
)
open_session config now session_id sessions (ok claims) =
    let u = build_user_context claims config.default_tenant_id none in
    (
      answered 200
          ((
            "Set-Cookie",
            template (
                "session="
                ∷ session_id
                ∷ "; HttpOnly; Secure; SameSite=Strict; Max-Age="
                ∷ decimal (ttl config)
                ∷ []),
          )
            ∷ [])
          (login_of u),
      insert session_id (record { user_context = u; expires_at = now + ttl config * 1000 })
          sessions,
    )

-- The part behind the exchange of the code.
unfoldable pub with_tokens :
    Runtime
    → (String → Fetched)
    → ℕ
    → AuthRoutesConfig
    → String
    → AuthState
    → TokenResponse
    → HttpResponse Login × AuthState
with_tokens r fetched now config session_id st (no_answer error_text) = (
  error_response 502 "token_exchange_failed"
      ("Failed to contact token endpoint: " ∷ error_text ∷ []),
  st,
)
with_tokens r fetched now config session_id st (bad_status status) = (
  error_response 502 "token_exchange_failed" ("Token endpoint returned " ∷ decimal status ∷ []),
  st,
)
with_tokens r fetched now config session_id st (tokens none) =
    (error_response 502 "no_id_token" ("No id_token in token response" ∷ []), st)
with_tokens r fetched now config session_id st (tokens (some id_token)) =
    let (claims, cache') = validate_token r fetched now config.oidc id_token st.cache in
    let (response, sessions') = open_session config now session_id st.sessions claims in
    if is_empty id_token
    then (error_response 502 "no_id_token" ("No id_token in token response" ∷ []), st)
    else (response, record { cache = cache'; sessions = sessions' })

-- The handler of the callback route; `exchange` is the token endpoint, and `session_id` what
-- `generateSessionId` makes.
unfoldable pub callback :
    Runtime
    → (String → Fetched)
    → (String → TokenResponse)
    → ℕ
    → AuthRoutesConfig
    → String
    → Option String
    → AuthState
    → HttpResponse Login × AuthState
callback r fetched exchange now config session_id none st =
    (error_response 400 "missing_code" ("Authorization code is required" ∷ []), st)
callback r fetched exchange now config session_id (some code_) st =
    let exchanged = with_tokens r fetched now config session_id st (exchange code_) in
    if is_empty code_
    then (error_response 400 "missing_code" ("Authorization code is required" ∷ []), st)
    else exchanged

-- The first cookie that begins with `session=`.
unfoldable pub find_cookie : List String → Option String
find_cookie [] = none
find_cookie (c ∷ cookies) = if starts_with c "session=" then some c else find_cookie cookies

-- `parts[1]`
abbrev pub second : List String → Option String
second [] = none
second (a ∷ []) = none
second (a ∷ b ∷ rest) = some b

-- The session id that a request names, or the error that its header is answered with.
pub data Named : Type 0 where
  no_session : Named
  invalid_session : Named
  session_id : String → Named

abbrev pub id_of : Option String → Named
id_of none = invalid_session
id_of (some id) = if is_empty id then invalid_session else session_id id

unfoldable pub named_in : Option String → Named
named_in none = no_session
named_in (some header) =
    if is_empty header then no_session else (elim (find_cookie (map trim (split b';' header))) [
      | none ↦ no_session
      | some cookie ↦ id_of (second (split b'=' cookie))
    ])

-- The answer for a session id.
unfoldable pub answer_for : ℕ → String → Option Session → Store → HttpResponse UserContext × Store
answer_for now id none sessions =
    (error_response 401 "session_not_found" ("Session not found or expired" ∷ []), sessions)
answer_for now id (some session) sessions =
    if ltb session.expires_at now
    then (error_response 401 "session_expired" ("Session has expired" ∷ []), remove id sessions)
    else (answered 200 [] session.user_context, sessions)

-- The handler of the userinfo route, for what the request names.
unfoldable pub userinfo : ℕ → Named → Store → HttpResponse UserContext × Store
userinfo now no_session sessions =
    (error_response 401 "no_session" ("No session cookie present" ∷ []), sessions)
userinfo now invalid_session sessions =
    (error_response 401 "invalid_session" ("Invalid session cookie" ∷ []), sessions)
userinfo now (session_id id) sessions = answer_for now id (lookup id sessions) sessions

unfoldable pub handle_userinfo :
    ℕ → List (String × String) → Store → HttpResponse UserContext × Store
handle_userinfo now headers sessions = userinfo now (named_in (lookup "cookie" headers)) sessions

-- A session that was found, unless it has run out.
unfoldable pub unless_expired : ℕ → String → Option Session → Store → Option Session × Store
unless_expired now id none sessions = (none, sessions)
unless_expired now id (some session) sessions =
    if ltb session.expires_at now then (none, remove id sessions) else (some session, sessions)

-- `getSession`
unfoldable pub get_session : ℕ → String → Store → Option Session × Store
get_session now id sessions = unless_expired now id (lookup id sessions) sessions

-- `clearSessions`
abbrev pub clear_sessions : Store → Store
clear_sessions sessions = []
