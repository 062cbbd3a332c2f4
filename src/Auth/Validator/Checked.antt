-- ===== src/Auth/Validator/Checked.antt =====
-- plugins/auth-enterprise/src/oidc/validator.ts: what a token that is accepted has been checked for.
use openclaw_enterprise.Common.{
  ℕ, zero, suc, ◌+◌, ◌/◌, pos, negsuc, ◌+ℤ◌, ◌≤ℤ◌, String, List, [], ◌∷◌, Bool, true, false, not,
  ◌&&◌, ◌||◌, Option, none, some, get_or, eq_iff, In, here, there, ◌≡◌, refl, ap, arith, Bool-cases,
  inl, inr,
}
use openclaw_enterprise.Common.Text.{is_empty, split, template}
use openclaw_enterprise.Shared.Errors.{Result, ok, throw, >>=-ok}
use openclaw_enterprise.Shared.Json.{
  Json, null, bool, num, non_finite, str, arr, obj, Fields, get_field,
}
use openclaw_enterprise.Auth.Roles.{OidcClaims}
use openclaw_enterprise.Auth.Keys.{Jwk, Fetched, Cache, or_fail, fetch_jwks}
use openclaw_enterprise.Auth.Validator.{
  OidcValidatorConfig, Runtime, padded, three, fields_of, parse_jwt_header, parse_jwt_payload,
  same_value, find_key, verified, verify_with, verify_header, kid_text, verify_signature, is_truthy,
  plus, is_greater, claims_of, is_from, has_expired, is_from_future, check_payload, read_claims,
  validate_token,
}

three-ok :
    (parts : List String) (p : String × String × String)
    → three parts ≡ ok p
    → parts ≡ p.0 ∷ p.1 ∷ p.2 ∷ []
three-ok (a ∷ b ∷ c ∷ []) (x, y, z) h = cc
three-ok [] p h = cc
three-ok (a ∷ []) p h = cc
three-ok (a ∷ b ∷ []) p h = cc
three-ok (a ∷ b ∷ c ∷ d ∷ ds) p h = cc

or_fail-ok :
    {A : Type 0} (o : Option A) (message : String) (a : A) → or_fail o message ≡ ok a → o ≡ some a
or_fail-ok none message a h = cc
or_fail-ok (some b) message a h = cc

module _ (r : Runtime) where
  verified-ok : (o : Option Bool) → verified r o ≡ ok tt → o ≡ some true
  verified-ok none h = cc
  verified-ok (some true) h = refl
  verified-ok (some false) h = cc

  find_key-In : (kid : Option Json) (ks : List Jwk) (k : Jwk) → find_key r kid ks ≡ some k → In k ks
  unfolding find_key
  find_key-In kid [] k h = cc
  find_key-In kid (j ∷ ks) k h = elim (Bool-cases (same_value r j.kid kid)) [
    | inl same ↦ let h' = rw same at h in here (ground (arith, h'))
    | inr other ↦ let h' = rw other at h in there (find_key-In kid ks k h')
  ]

  same_value-str :
      (o : Option Json) (s : String) → same_value r o (some (str s)) ≡ true → o ≡ some (str s)
  unfolding same_value
  same_value-str none s h = cc
  same_value-str (some null) s h = cc
  same_value-str (some (bool b)) s h = cc
  same_value-str (some (num n)) s h = cc
  same_value-str (some non_finite) s h = cc
  same_value-str (some (str t)) s h = ap (λ x. some (str x)) ((eq_iff t s).0 h)
  same_value-str (some (arr v)) s h = cc
  same_value-str (some (obj v)) s h = cc

  -- One of the keys verifies the signature over the first two parts of the token.
  pub data IsSigned (token : String) (ks : List Jwk) : Type 0 where
    signed :
        (head_ payload signature bytes : String) (k : Jwk)
        → split b'.' token ≡ head_ ∷ payload ∷ signature ∷ []
        → In k ks
        → r.atob (padded signature) ≡ some bytes
        → r.verify k (template (head_ ∷ "." ∷ payload ∷ [])) bytes ≡ some true
        → IsSigned token ks

  verify_with-IsSigned :
      (token : String) (kid : Option Json) (ks : List Jwk)
      → verify_with r token kid ks ≡ ok tt
      → IsSigned token ks
  verify_with-IsSigned token kid ks h =
      let missing = template ("No matching JWK found for kid: " ∷ kid_text r kid ∷ []) in
      let undecoded : String = "The string to be decoded is not correctly encoded." in
      let (k, found, h1) = >>=-ok (or_fail (find_key r kid ks) missing) _ h in
      let (p, parts, h2) = >>=-ok (three (split b'.' token)) _ h1 in
      let (bytes, decoded, h3) = >>=-ok (or_fail (r.atob (padded p.2)) undecoded) _ h2 in
      signed p.0 p.1 p.2 bytes k (three-ok (split b'.' token) p parts)
        (find_key-In kid ks k (or_fail-ok (find_key r kid ks) missing k found))
        (or_fail-ok (r.atob (padded p.2)) undecoded bytes decoded)
        (verified-ok (r.verify k (template (p.0 ∷ "." ∷ p.1 ∷ [])) bytes) h3)

  verify_header-IsSigned :
      (fetched : String → Fetched) (now : ℕ) (token endpoint : String) (cache : Cache)
      (header : Result Json)
      → (verify_header r fetched now token endpoint cache header).0 ≡ ok tt
      → (ks : List Jwk) × ((fetch_jwks fetched now endpoint cache).0 ≡ ok ks) × IsSigned token ks
  verify_header-IsSigned fetched now token endpoint cache (throw e) h = cc
  verify_header-IsSigned fetched now token endpoint cache (ok header) h =
      let (ks, found, h1) = >>=-ok (fetch_jwks fetched now endpoint cache).0 _ h in
      let (fields, _, h2) = >>=-ok (fields_of header) _ h1 in
      (ks, found, verify_with-IsSigned token (get_field "kid" fields) ks h2)

  verify_signature-IsSigned :
      (fetched : String → Fetched) (now : ℕ) (token endpoint : String) (cache : Cache)
      → (verify_signature r fetched now token endpoint cache).0 ≡ ok tt
      → (ks : List Jwk) × ((fetch_jwks fetched now endpoint cache).0 ≡ ok ks) × IsSigned token ks
  unfolding verify_signature
  verify_signature-IsSigned fetched now token endpoint cache h =
      verify_header-IsSigned fetched now token endpoint cache (parse_jwt_header r token) h

  -- The times of a token that is in use: a number is compared, what else JavaScript makes of it.
  abbrev pub IsUnexpired : ℕ → ℕ → Option Json → Type 0
  IsUnexpired now skew (some (num e)) = pos now ≤ℤ e +ℤ pos skew
  IsUnexpired now skew (some v) = is_greater r (num (pos now)) (plus r v skew) ≡ false
  IsUnexpired now skew none = ⊥

  abbrev pub IsIssued : ℕ → ℕ → Option Json → Type 0
  IsIssued now skew (some (num i)) = i ≤ℤ pos (now + skew)
  IsIssued now skew o =
      (is_truthy r o && is_greater r (get_or o null) (num (pos (now + skew)))) ≡ false

  unexpired :
      (now skew : ℕ) (exp : Option Json)
      → (not (is_truthy r exp) || is_greater r (num (pos now)) (plus r (get_or exp null) skew))
        ≡ false
      → IsUnexpired now skew exp
  unexpired now skew none h = cc
  unexpired now skew (some null) h = cc
  unexpired now skew (some (bool true)) h = h
  unexpired now skew (some (bool false)) h = cc
  unexpired now skew (some (num (pos zero))) h = cc
  unexpired now skew (some (num (pos (suc n)))) h = ground (arith, h)
  unexpired now skew (some (num (negsuc n))) h = ground (arith, h)
  unexpired now skew (some non_finite) h = h
  unexpired now skew (some (str s)) h = ground (arith, h)
  unexpired now skew (some (arr v)) h = h
  unexpired now skew (some (obj v)) h = h

  issued :
      (now skew : ℕ) (iat : Option Json)
      → (is_truthy r iat && is_greater r (get_or iat null) (num (pos (now + skew)))) ≡ false
      → IsIssued now skew iat
  issued now skew none h = h
  issued now skew (some null) h = h
  issued now skew (some (bool b)) h = h
  issued now skew (some (num (pos zero))) h = omega arith
  issued now skew (some (num (pos (suc n)))) h = ground (arith, h)
  issued now skew (some (num (negsuc n))) h = ground (arith, h)
  issued now skew (some non_finite) h = h
  issued now skew (some (str s)) h = h
  issued now skew (some (arr v)) h = h
  issued now skew (some (obj v)) h = h

  -- The payload of the token has the issuer and the times, and these claims.
  pub data IsClaimed (config : OidcValidatorConfig) (now : ℕ) (token : String) (claims : OidcClaims)
      : Type 0 where
    claimed :
        (payload : Json) (fields : Fields)
        → parse_jwt_payload r token ≡ ok payload
        → fields_of payload ≡ ok fields
        → get_field "iss" fields ≡ some (str config.issuer_url)
        → IsUnexpired now (get_or config.clock_skew_seconds 30) (get_field "exp" fields)
        → IsIssued now (get_or config.clock_skew_seconds 30) (get_field "iat" fields)
        → claims_of r fields ≡ claims
        → IsClaimed config now token claims

  check_payload-ok :
      (config : OidcValidatorConfig) (now : ℕ) (fields : Fields) (claims : OidcClaims)
      → check_payload r config now fields ≡ ok claims
      → (get_field "iss" fields ≡ some (str config.issuer_url))
        × IsUnexpired now (get_or config.clock_skew_seconds 30) (get_field "exp" fields)
        × IsIssued now (get_or config.clock_skew_seconds 30) (get_field "iat" fields)
        × (claims_of r fields ≡ claims)
  unfolding check_payload
  check_payload-ok config now fields claims h =
      let skew = get_or config.clock_skew_seconds 30 in
      elim (Bool-cases (is_from r config.issuer_url fields)) [
        | inr other ↦ let h' = rw other at h in cc
        | inl same ↦
            let h' = rw same at h in
            elim (Bool-cases (has_expired r now skew fields)) [
              | inl late ↦ let h2 = rw late at h' in cc
              | inr in_time ↦
                  let h2 = rw in_time at h' in
                  elim (Bool-cases (is_from_future r now skew fields)) [
                    | inl early ↦ let h3 = rw early at h2 in cc
                    | inr by_now ↦
                        let h3 = rw by_now at h2 in
                        (
                          same_value-str (get_field "iss" fields) config.issuer_url same,
                          unexpired now skew (get_field "exp" fields) in_time,
                          issued now skew (get_field "iat" fields) by_now,
                          cc,
                        )
                  ]
            ]
      ]

  read_claims-IsClaimed :
      (config : OidcValidatorConfig) (now_ms : ℕ) (token : String) (claims : OidcClaims)
      → read_claims r config now_ms token ≡ ok claims
      → IsClaimed config (now_ms / 1000) token claims
  read_claims-IsClaimed config now_ms token claims h =
      let (payload, parsed, h1) = >>=-ok (parse_jwt_payload r token) _ h in
      let (fields, read, h2) = >>=-ok (fields_of payload) _ h1 in
      let (issuer, unexpired_, issued_, same) =
        check_payload-ok config (now_ms / 1000) fields claims h2 in
      claimed payload fields parsed read issuer unexpired_ issued_ same

  -- A token is accepted only where one of the keys that the endpoint gave (now, or at most an hour
  -- before) verifies its signature, its issuer is the configured one, its expiry is not more than the
  -- tolerated skew ago and its time of issue not more than that ahead; the claims are its payload's.
  pub validate_token_checked :
      (fetched : String → Fetched) (now_ms : ℕ) (config : OidcValidatorConfig) (token : String)
      (cache : Cache) (claims : OidcClaims)
      → (validate_token r fetched now_ms config token cache).0 ≡ ok claims
      → ((ks : List Jwk) × ((fetch_jwks fetched now_ms config.jwks_endpoint cache).0 ≡ ok ks)
          × IsSigned token ks)
        × IsClaimed config (now_ms / 1000) token claims
  unfolding validate_token
  validate_token_checked fetched now_ms config token cache claims h =
      elim (Bool-cases (is_empty token)) [
        | inl empty ↦ let h' = rw empty at h in cc
        | inr given ↦
            let h' = rw given at h in
            let (done, signed_, h2) =
              >>=-ok (verify_signature r fetched now_ms token config.jwks_endpoint cache).0 _ h' in
            (
              verify_signature-IsSigned fetched now_ms token config.jwks_endpoint cache signed_,
              read_claims-IsClaimed config now_ms token claims h2,
            )
      ]
