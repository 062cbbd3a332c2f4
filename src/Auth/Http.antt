-- ===== src/Auth/Http.antt =====
-- plugins/auth-enterprise/src/routes.ts and hooks.ts: requests and responses.
use openclaw_enterprise.Common.{ℕ, String, List, Option}
use openclaw_enterprise.Shared.Types.{UserContext}
use openclaw_enterprise.Shared.Json.{Json}

-- `method` and `query` are not read.
pub record HttpRequest : Type 0 where
  pub path : String
  pub headers : List (String × String)
  pub body : Option Json
  pub user_context : Option UserContext

-- An error body: `error` and `message`.
pub record ErrorBody : Type 0 where
  pub error : String
  pub message : String

-- A response with its headers; a body is an error or what the route answers with.
pub data HttpResponse (A : Type 0) : Type 0 where
  refused : (status : ℕ) → List (String × String) → ErrorBody → HttpResponse A
  answered : (status : ℕ) → List (String × String) → A → HttpResponse A
