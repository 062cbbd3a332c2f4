-- ===== src/Auth/Keys.antt =====
-- plugins/auth-enterprise/src/oidc/validator.ts: the keys of the issuer, and the cache that holds them.
pub mod Cached
use openclaw_enterprise.Common.{
  ℕ, ◌+◌, ◌-◌, ◌/◌, ◌%◌, ◌==◌, ltb, ◌+ℤ◌, String, List, [], ◌∷◌, ◌&&◌, ◌||◌, Option, none, some,
  if◌then◌else◌,
}
use Prim.Native.String
use openclaw_enterprise.Common.Text.{template, decimal}
use openclaw_enterprise.Shared.Errors.{Result, ok, throw, plain, ◌>>=◌}
use openclaw_enterprise.Shared.Json.{Json}

-- `kid` as the endpoint gives it; the other fields of a key, which only the verification reads, are
-- one text.
pub record Jwk : Type 0 where
  pub kid : Option Json
  pub key : String

-- How a fetch of the keys ends.
pub data Fetched : Type 0 where
  unreachable : (message : String) → Fetched
  not_ok : (status : ℕ) → Fetched
  keys : List Jwk → Fetched

-- `jwksCache` and `jwksCacheExpiry`.
pub record Cache : Type 0 where
  pub jwks : Option (List Jwk)
  pub expiry : ℕ

abbrev pub jwks_cache_ttl_ms : ℕ
jwks_cache_ttl_ms = 3600000

-- `clearJWKSCache`
abbrev pub clear_jwks_cache : Cache
clear_jwks_cache = record { jwks = none; expiry = 0 }

-- `new Error(message)`
abbrev pub fail {ℓ} : {A : Type ℓ} → List String → Result A
fail parts = throw (plain (template parts))

abbrev pub or_fail {ℓ} : {A : Type ℓ} → Option A → String → Result A
or_fail none message = fail (message ∷ [])
or_fail (some a) message = ok a

-- A fetch that is made now.
unfoldable pub fetched_now : String → ℕ → Fetched → Cache → Result (List Jwk) × Cache
fetched_now endpoint now (unreachable message) cache = (fail (message ∷ []), cache)
fetched_now endpoint now (not_ok status) cache =
    (fail ("Failed to fetch JWKS from " ∷ endpoint ∷ ": " ∷ decimal status ∷ []), cache)
fetched_now endpoint now (keys ks) cache =
    (ok ks, record { jwks = some ks; expiry = now + jwks_cache_ttl_ms })

-- `fetchJWKS`; the endpoint is asked, and answers `fetched endpoint`, only where the cache is empty or
-- old.
unfoldable pub fetch_jwks : (String → Fetched) → ℕ → String → Cache → Result (List Jwk) × Cache
fetch_jwks fetched now endpoint cache = elim cache.jwks [
  | none ↦ fetched_now endpoint now (fetched endpoint) cache
  | some ks ↦
      if ltb now cache.expiry
      then (ok ks, cache)
      else fetched_now endpoint now (fetched endpoint) cache
]
