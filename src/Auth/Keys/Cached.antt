-- ===== src/Auth/Keys/Cached.antt =====
-- plugins/auth-enterprise/src/oidc/validator.ts: how long the keys of the issuer are kept.
use openclaw_enterprise.Common.{
  ℕ, ◌+◌, ◌<◌, ◌≤◌, ltb, lt→ltb, String, List, Option, none, some, ◌≡◌, arith, Bool-cases, inl, inr,
}
use openclaw_enterprise.Shared.Errors.{ok}
use openclaw_enterprise.Auth.Keys.{
  Jwk, Fetched, unreachable, not_ok, keys, Cache, jwks_cache_ttl_ms, fetched_now, fetch_jwks,
}

-- The cache holds these keys.
abbrev pub Keeps : List Jwk → Cache → Type 0
Keeps ks cache = cache.jwks ≡ some ks

fetched_now-Keeps :
    (endpoint : String) (now : ℕ) (f : Fetched) (cache : Cache) (ks : List Jwk)
    → (fetched_now endpoint now f cache).0 ≡ ok ks
    → Keeps ks (fetched_now endpoint now f cache).1
      × ((fetched_now endpoint now f cache).1.expiry ≤ now + jwks_cache_ttl_ms)
unfolding fetched_now
fetched_now-Keeps endpoint now (unreachable m) cache ks h = cc
fetched_now-Keeps endpoint now (not_ok n) cache ks h = cc
fetched_now-Keeps endpoint now (keys js) cache ks h = (cc, omega arith)

-- Keys that are not old are given without a question.
fetch_jwks-fresh :
    (fetched : String → Fetched) (now : ℕ) (endpoint : String) (jwks : Option (List Jwk))
    (expiry : ℕ) (ks : List Jwk)
    → jwks ≡ some ks
    → now < expiry
    → fetch_jwks fetched now endpoint (record { jwks = jwks; expiry = expiry })
      ≡ (ok ks, record { jwks = jwks; expiry = expiry })
unfolding fetch_jwks
fetch_jwks-fresh fetched now endpoint none expiry ks e h = cc
fetch_jwks-fresh fetched now endpoint (some js) expiry ks e h =
    let fresh = lt→ltb now expiry h in rw fresh cc

fetch_jwks-Keeps :
    (fetched : String → Fetched) (now : ℕ) (endpoint : String) (jwks : Option (List Jwk))
    (expiry : ℕ) (ks : List Jwk)
    → (fetch_jwks fetched now endpoint (record { jwks = jwks; expiry = expiry })).0 ≡ ok ks
    → Keeps ks (fetch_jwks fetched now endpoint (record { jwks = jwks; expiry = expiry })).1
unfolding fetch_jwks
fetch_jwks-Keeps fetched now endpoint none expiry ks h =
    (fetched_now-Keeps endpoint now (fetched endpoint) (record { jwks = none; expiry = expiry }) ks
      h).0
fetch_jwks-Keeps fetched now endpoint (some js) expiry ks h = elim (Bool-cases (ltb now expiry)) [
  | inl fresh ↦ let h' = rw fresh at h in rw fresh (ground (arith, h'))
  | inr old ↦
      let h' = rw old at h in
      rw old
        (fetched_now-Keeps endpoint now (fetched endpoint)
          (record { jwks = some js; expiry = expiry }) ks h').0
]

-- Once a request for keys succeeded, every request before the cache expires gives the same keys and
-- changes nothing, whichever endpoint it names and whatever that endpoint would answer.
pub fetch_jwks_kept :
    (fetched later : String → Fetched) (now then_ : ℕ) (endpoint other : String) (cache : Cache)
    (ks : List Jwk)
    → (fetch_jwks fetched now endpoint cache).0 ≡ ok ks
    → then_ < (fetch_jwks fetched now endpoint cache).1.expiry
    → fetch_jwks later then_ other (fetch_jwks fetched now endpoint cache).1
      ≡ (ok ks, (fetch_jwks fetched now endpoint cache).1)
fetch_jwks_kept fetched later now then_ endpoint other cache ks h soon =
    let after = (fetch_jwks fetched now endpoint cache).1 in
    fetch_jwks-fresh later then_ other after.jwks after.expiry ks
      (fetch_jwks-Keeps fetched now endpoint cache.jwks cache.expiry ks h) soon
