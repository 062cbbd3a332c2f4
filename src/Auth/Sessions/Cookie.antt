-- ===== src/Auth/Sessions/Cookie.antt =====
-- plugins/auth-enterprise/src/routes.ts: the session that the cookies of a request name,
-- and the answer for it.
use openclaw_enterprise.Common.{
  ℕ, ◌≤◌, ltb, arith, refl, String, List, [], ◌∷◌, map, Option, none, some, lookup, In, here, there,
  Bool-cases, Option-cases, true, inl, inr, ◌≡◌,
}
use openclaw_enterprise.Shared.Types.{UserContext}
use openclaw_enterprise.Auth.Http.{answered}
use openclaw_enterprise.Common.Text.{is_empty, split, trim, starts_with}
use openclaw_enterprise.Auth.Sessions.{
  Session, Store, answer_for, userinfo, no_session, invalid_session, Named, session_id, find_cookie,
  second, id_of, named_in,
}

-- Among the cookies of the header is one that begins with `session=`, with this id behind its first
-- `=`, up to the next one.
abbrev pub HasCookie : List (String × String) → String → Type 0
HasCookie headers id =
    (header : String) × (cookie : String) × (lookup "cookie" headers ≡ some header)
    × In cookie (map trim (split b';' header))
    × (starts_with cookie "session=" ≡ true)
    × (second (split b'=' cookie) ≡ some id)

find_cookie-In :
    (cookies : List String) (cookie : String)
    → find_cookie cookies ≡ some cookie
    → In cookie cookies × (starts_with cookie "session=" ≡ true)
unfolding find_cookie
find_cookie-In [] cookie h = cc
find_cookie-In (c ∷ cookies) cookie h = elim (Bool-cases (starts_with c "session=")) [
  | inl begins ↦ let h' = rw begins at h in let is : cookie ≡ c = cc in (here is, rw is begins)
  | inr other ↦
      let h' = rw other at h in
      let (member, begins) = find_cookie-In cookies cookie h' in (there member, begins)
]

id_of-some : (o : Option String) (id : String) → id_of o ≡ session_id id → o ≡ some id
id_of-some none id h = cc
id_of-some (some j) id h = elim (Bool-cases (is_empty j)) [
  | inl empty ↦ let h' = rw empty at h in cc
  | inr given ↦ let h' = rw given at h in cc
]

pub named_in-HasCookie :
    (headers : List (String × String)) (o : Option String) (id : String)
    → lookup "cookie" headers ≡ o
    → named_in o ≡ session_id id
    → HasCookie headers id
unfolding named_in
named_in-HasCookie headers none id is h = cc
named_in-HasCookie headers (some header) id is h = elim (Bool-cases (is_empty header)) [
  | inl empty ↦ let h' = rw empty at h in cc
  | inr given ↦
      let h' = rw given at h in
      elim (Option-cases (find_cookie (map trim (split b';' header)))) [
        | inl absent ↦ let h'' = rw absent at h' in cc
        | inr (cookie, found) ↦
            let h'' = rw found at h' in
            let (member, begins) = find_cookie-In (map trim (split b';' header)) cookie found in
            (header, cookie, is, member, begins, id_of-some (second (split b'=' cookie)) id h'')
      ]
]

answer_for-answered :
    (now : ℕ) (id : String) (found : Option Session) (sessions : Store) (status : ℕ)
    (headers : List (String × String)) (u : UserContext)
    → (answer_for now id found sessions).0 ≡ answered status headers u
    → (s : Session) × (found ≡ some s) × (s.user_context ≡ u) × (now ≤ s.expires_at)
unfolding answer_for
answer_for-answered now id none sessions status headers u h = cc
answer_for-answered now id (some s) sessions status headers u h =
    elim (Bool-cases (ltb s.expires_at now)) [
      | inl old ↦ let h' = rw old at h in cc
      | inr fresh ↦ let h' = rw fresh at h in (s, refl, cc, ground (arith, fresh))
    ]

pub userinfo-answered :
    (now : ℕ) (named : Named) (sessions : Store) (status : ℕ) (headers : List (String × String))
    (u : UserContext)
    → (userinfo now named sessions).0 ≡ answered status headers u
    → (id : String) × (s : Session) × (named ≡ session_id id)
      × (lookup id sessions ≡ some s)
      × (s.user_context ≡ u)
      × (now ≤ s.expires_at)
unfolding userinfo
userinfo-answered now no_session sessions status headers u h = cc
userinfo-answered now invalid_session sessions status headers u h = cc
userinfo-answered now (session_id id) sessions status headers u h =
    let (s, found, is, fresh) =
      answer_for-answered now id (lookup id sessions) sessions status headers u h in
    (id, s, refl, found, is, fresh)
