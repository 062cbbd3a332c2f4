-- ===== src/Auth/Validator.antt =====
-- plugins/auth-enterprise/src/oidc/validator.ts: the check of a token against the keys of the issuer.
pub mod Checked
use openclaw_enterprise.Common.{
  ℕ, zero, suc, ◌+◌, ◌-◌, ◌/◌, ◌%◌, ◌==◌, ℤ, pos, ◌+ℤ◌, ltb_ℤ, String, List, [], ◌∷◌, Bool, true,
  false, not, ◌&&◌, ◌||◌, Option, none, some, get_or, if◌then◌else◌, str_eq,
}
use Prim.Native.Char.{code}
use Prim.Native.String
use openclaw_enterprise.Common.Text.{is_empty, split, template}
use openclaw_enterprise.Shared.Errors.{Result, ok, throw, ◌>>=◌}
use openclaw_enterprise.Shared.Json.{
  Json, null, bool, num, non_finite, str, arr, obj, Items, nil, cons, Fields, end, get_field,
}
use openclaw_enterprise.Auth.Roles.{OidcClaims}
use openclaw_enterprise.Auth.Keys.{Jwk, Fetched, Cache, fail, or_fail, fetch_jwks}

pub record OidcValidatorConfig : Type 0 where
  pub issuer_url : String
  pub jwks_endpoint : String
  pub audience : String
  pub clock_skew_seconds : Option ℕ

-- What the runtime does: `atob` and `JSON.parse`, `none` where they throw; the import of a key and
-- `crypto.subtle.verify`, likewise; `String(value)`; `value + number` and `a > b` where these are not
-- both numbers.
pub record Runtime : Type 0 where
  pub atob : String → Option String
  pub parse_json : String → Option Json
  pub verify : Jwk → (data_ signature : String) → Option Bool
  pub text_of : Json → String
  pub plus_other : Json → ℕ → Json
  pub is_greater_other : Json → Json → Bool

-- `token.split('.')`, where it has three parts.
abbrev pub three : List String → Result (String × String × String)
three (a ∷ b ∷ c ∷ []) = ok (a, b, c)
three _ = fail ("Invalid JWT: expected 3 parts" ∷ [])

-- The fields of what was parsed; a property of `null` throws, other values have none of the names.
abbrev pub fields_of : Json → Result Fields
fields_of null = fail ("Cannot read properties of null" ∷ [])
fields_of (obj fields) = ok fields
fields_of _ = ok end

-- `base64UrlDecode`: the alphabet of `atob`, and the padding.
unfoldable pub standard : String → String
standard String.[] = ""
standard (String.◌∷◌ c s) =
    String.◌∷◌ (if code c == b'-' then "+" else if code c == b'_' then "/" else c) (standard s)

unfoldable pub text_length : String → ℕ
text_length String.[] = 0
text_length (String.◌∷◌ c s) = suc (text_length s)

abbrev pub padding : ℕ → String
padding zero = ""
padding (suc zero) = "="
padding (suc (suc zero)) = "=="
padding _ = "==="

abbrev pub padded : String → String
padded input = template (standard input ∷ padding ((4 - text_length input % 4) % 4) ∷ [])

module _ (r : Runtime) where
  -- `parseJwtHeader` and `parseJwtPayload`: one part of a token.
  abbrev pub parse_part : String → Result Json
  parse_part part =
      or_fail (r.atob (padded part)) "The string to be decoded is not correctly encoded."
      >>= (λ text. or_fail (r.parse_json text) "Unexpected token in JSON")

  unfoldable pub parse_jwt_header : String → Result Json
  parse_jwt_header token = three (split b'.' token) >>= (λ parts. parse_part parts.0)

  unfoldable pub parse_jwt_payload : String → Result Json
  parse_jwt_payload token = three (split b'.' token) >>= (λ parts. parse_part parts.1)

  -- `a === b`, of values that were read from texts; two objects are never the same.
  unfoldable pub same_value : Option Json → Option Json → Bool
  same_value none none = true
  same_value (some null) (some null) = true
  same_value (some (bool a)) (some (bool b)) = (a && b) || (not a && not b)
  same_value (some (num a)) (some (num b)) = not (ltb_ℤ a b) && not (ltb_ℤ b a)
  same_value (some (str a)) (some (str b)) = str_eq a b
  same_value _ _ = false

  -- `jwks.keys.find((k) => k.kid === header.kid)`
  unfoldable pub find_key : Option Json → List Jwk → Option Jwk
  find_key kid [] = none
  find_key kid (k ∷ ks) = if same_value k.kid kid then some k else find_key kid ks

  abbrev pub kid_text : Option Json → String
  kid_text none = "undefined"
  kid_text (some v) = r.text_of v

  abbrev pub verified : Option Bool → Result (Unit {0})
  verified none = fail ("The key or the signature cannot be read." ∷ [])
  verified (some true) = ok tt
  verified (some false) = fail ("Invalid JWT signature" ∷ [])

  -- The part of `verifySignature` behind the fetch.
  abbrev pub verify_with : String → Option Json → List Jwk → Result (Unit {0})
  verify_with token kid ks =
      or_fail (find_key kid ks) (template ("No matching JWK found for kid: " ∷ kid_text kid ∷ []))
      >>= (λ key. three (split b'.' token) >>= (λ parts.
          or_fail (r.atob (padded parts.2)) "The string to be decoded is not correctly encoded."
          >>= (λ signature.
              verified (r.verify key (template (parts.0 ∷ "." ∷ parts.1 ∷ [])) signature))))

  -- `verifySignature` behind the parse of the header. The field `kid` of a header that is `null` is
  -- read only behind the fetch.
  abbrev pub verify_header :
      (String → Fetched) → ℕ → String → String → Cache → Result Json → Result (Unit {0}) × Cache
  verify_header fetched now token endpoint cache (throw error) = (throw error, cache)
  verify_header fetched now token endpoint cache (ok header) =
      let (found, cache') = fetch_jwks fetched now endpoint cache in
      (
        found >>= (λ ks.
            fields_of header >>= (λ fields. verify_with token (get_field "kid" fields) ks)),
        cache',
      )

  -- `verifySignature`
  unfoldable pub verify_signature :
      (String → Fetched) → ℕ → String → String → Cache → Result (Unit {0}) × Cache
  verify_signature fetched now token endpoint cache =
      verify_header fetched now token endpoint cache (parse_jwt_header token)

  -- `value + number` and `a > b`.
  abbrev pub plus : Json → ℕ → Json
  plus (num a) n = num (a +ℤ pos n)
  plus v n = r.plus_other v n

  abbrev pub is_greater : Json → Json → Bool
  is_greater (num a) (num b) = ltb_ℤ b a
  is_greater v w = r.is_greater_other v w

  -- A value that counts as true.
  abbrev pub is_truthy : Option Json → Bool
  is_truthy none = false
  is_truthy (some null) = false
  is_truthy (some (bool b)) = b
  is_truthy (some (num (pos zero))) = false
  is_truthy (some (num n)) = true
  is_truthy (some non_finite) = true
  is_truthy (some (str s)) = not (is_empty s)
  is_truthy (some (arr _)) = true
  is_truthy (some (obj _)) = true

  -- The texts of an array; the mapper reads no other items.
  abbrev pub texts : Items → List String
  texts nil = []
  texts (cons (str s) vs) = s ∷ texts vs
  texts (cons v vs) = texts vs

  abbrev pub text_list : Option Json → List String
  text_list (some (arr vs)) = texts vs
  text_list _ = []

  -- `String(payload[name] ?? '')`
  abbrev pub text_field : String → Fields → String
  text_field name payload = elim (get_field name payload) [
    | none ↦ ""
    | some null ↦ ""
    | some v ↦ r.text_of v
  ]

  -- 6. The claims.
  abbrev pub claims_of : Fields → OidcClaims
  claims_of payload = record {
    sub = text_field "sub" payload;
    email = text_field "email" payload;
    groups = text_list (get_field "groups" payload);
    roles = text_list (get_field "roles" payload);
    org_unit = text_field "org_unit" payload;
  }

  -- 3. to 5. The issuer and the times; `now` is in seconds.
  abbrev pub is_from : String → Fields → Bool
  is_from issuer_url payload = same_value (get_field "iss" payload) (some (str issuer_url))

  abbrev pub has_expired : ℕ → ℕ → Fields → Bool
  has_expired now skew payload =
      let exp = get_field "exp" payload in
      not (is_truthy exp) || is_greater (num (pos now)) (plus (get_or exp null) skew)

  abbrev pub is_from_future : ℕ → ℕ → Fields → Bool
  is_from_future now skew payload =
      let iat = get_field "iat" payload in
      is_truthy iat && is_greater (get_or iat null) (num (pos (now + skew)))

  unfoldable pub check_payload : OidcValidatorConfig → ℕ → Fields → Result OidcClaims
  check_payload config now payload =
      let skew = get_or config.clock_skew_seconds 30 in
      if is_from config.issuer_url payload
      then if has_expired now skew payload
        then fail ("Token has expired" ∷ [])
        else if is_from_future now skew payload
        then fail ("Token issued in the future" ∷ [])
        else ok (claims_of payload)
      else fail (
          "Invalid issuer: expected "
          ∷ config.issuer_url
          ∷ ", got "
          ∷ kid_text (get_field "iss" payload)
          ∷ [])

  -- What follows the check of the signature.
  abbrev pub read_claims : OidcValidatorConfig → ℕ → String → Result OidcClaims
  read_claims config now_ms token =
      parse_jwt_payload token
      >>= (λ payload. fields_of payload >>= (λ fields. check_payload config (now_ms / 1000) fields))

  -- `validateToken`; `now_ms` is `Date.now()`.
  unfoldable pub validate_token :
      (String → Fetched) → ℕ → OidcValidatorConfig → String → Cache → Result OidcClaims × Cache
  validate_token fetched now_ms config token cache =
      let (signed, cache') = verify_signature fetched now_ms token config.jwks_endpoint cache in
      if is_empty token
      then (fail ("Token is required" ∷ []), cache)
      else (signed >>= (λ _. read_claims config now_ms token), cache')
