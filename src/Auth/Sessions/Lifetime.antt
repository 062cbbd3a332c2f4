-- ===== src/Auth/Sessions/Lifetime.antt =====
-- plugins/auth-enterprise/src/routes.ts: sessions over any sequence of requests.
use openclaw_enterprise.Common.{
  ℕ, ◌+◌, ◌*◌, ◌≤◌, ltb, String, List, [], ◌∷◌, Option, none, some, lookup, remove, lookup-insert,
  lookup-remove, str_eq, ◌≡◌, ◌≢◌, eq_iff, refl, sym, ◌∙◌, Bool-cases, inl, inr,
}
use mathlib.Core.Path.{subst}
use openclaw_enterprise.Common.Text.{is_empty}
use openclaw_enterprise.Shared.Types.{UserContext}
use openclaw_enterprise.Shared.Errors.{Result, ok, throw}
use openclaw_enterprise.Auth.Roles.{OidcClaims, build_user_context}
use openclaw_enterprise.Auth.Http.{answered}
use openclaw_enterprise.Auth.Keys.{Fetched}
use openclaw_enterprise.Auth.Validator.{Runtime, validate_token}
use openclaw_enterprise.Auth.Sessions.Cookie.{HasCookie, named_in-HasCookie, userinfo-answered}
use openclaw_enterprise.Auth.Sessions.{
  Session, Store, AuthRoutesConfig, TokenResponse, no_answer, bad_status, tokens, AuthState, ttl,
  open_session, with_tokens, callback, Named, no_session, invalid_session, session_id, named_in,
  answer_for, userinfo, handle_userinfo, unless_expired, get_session, clear_sessions,
}

-- What may happen to the sessions.
pub data AuthEvent : Type 0 where
  login :
      (fetched : String → Fetched) (exchange : String → TokenResponse) (now : ℕ) (id : String)
      (code_ : Option String)
      → AuthEvent
  ask : (now : ℕ) (headers : List (String × String)) → AuthEvent
  get_by_id : (now : ℕ) (id : String) → AuthEvent
  clear : AuthEvent

module _ (r : Runtime) (config : AuthRoutesConfig) where
  abbrev pub step : AuthEvent → AuthState → AuthState
  step (login fetched exchange now id code_) st =
      (callback r fetched exchange now config id code_ st).1
  step (ask now headers) st = record st { sessions = (handle_userinfo now headers st.sessions).1 }
  step (get_by_id now id) st = record st { sessions = (get_session now id st.sessions).1 }
  step clear st = record st { sessions = clear_sessions st.sessions }

  -- The states that a sequence of events leads to, the last event first.
  pub data Reaches (start : AuthState) : List AuthEvent → AuthState → Type 0 where
    begin : Reaches start [] start
    then_ :
        {es : List AuthEvent} {st : AuthState} (e : AuthEvent)
        → Reaches start es st
        → Reaches start (e ∷ es) (step e st)

  -- The session under an id comes from a login with that id: the code was given and exchanged for a
  -- token, which was accepted with the keys that the state of that moment held; and the sessions were
  -- not cleared since.
  pub data IsOpenedBy (start : AuthState) (id : String) (s : Session)
      : List AuthEvent → Type 0 where
    opened_by :
        {es : List AuthEvent} {fetched : String → Fetched} {exchange : String → TokenResponse}
        {now : ℕ} (code_ token : String) (st : AuthState) (claims : OidcClaims)
        → Reaches start es st
        → exchange code_ ≡ tokens (some token)
        → (validate_token r fetched now config.oidc token st.cache).0 ≡ ok claims
        → s ≡ record {
          user_context = build_user_context claims config.default_tenant_id none;
          expires_at = now + ttl config * 1000;
        }
        → IsOpenedBy start id s (login fetched exchange now id (some code_) ∷ es)
    before :
        {e : AuthEvent} {es : List AuthEvent}
        → e ≢ clear
        → IsOpenedBy start id s es
        → IsOpenedBy start id s (e ∷ es)

  abbrev AllOpened : AuthState → List AuthEvent → Store → Type 0
  AllOpened start es sessions =
      (id : String) (s : Session) → lookup id sessions ≡ some s → IsOpenedBy start id s es

  later :
      (start : AuthState) (e : AuthEvent) (es : List AuthEvent) (sessions : Store)
      → e ≢ clear
      → AllOpened start es sessions
      → AllOpened start (e ∷ es) sessions
  later start e es sessions spared h id s found = before spared (h id s found)

  removed :
      (start : AuthState) (es : List AuthEvent) (id : String) (sessions : Store)
      → AllOpened start es sessions
      → AllOpened start es (remove id sessions)
  removed start es id sessions h j s found =
      let read = lookup-remove id j sessions in
      elim (Bool-cases (str_eq id j)) [
        | inl same ↦ let read' = rw same at read in cc
        | inr other ↦ let read' = rw other at read in h j s (sym read' ∙ found)
      ]

  open_session-AllOpened :
      (start : AuthState) (es : List AuthEvent) (fetched : String → Fetched)
      (exchange : String → TokenResponse) (now : ℕ) (id code_ token : String) (st : AuthState)
      (claims : Result OidcClaims)
      → Reaches start es st
      → exchange code_ ≡ tokens (some token)
      → (validate_token r fetched now config.oidc token st.cache).0 ≡ claims
      → AllOpened start es st.sessions
      → AllOpened start
          (login fetched exchange now id (some code_) ∷ es)
          (open_session config now id st.sessions claims).1
  unfolding open_session
  open_session-AllOpened start es fetched exchange now id code_ token st (throw e) run got valid h j
        s found =
      before (λ e. cc) (h j s found)
  open_session-AllOpened start es fetched exchange now id code_ token st (ok claims) run got valid h
        j s found =
      let new : Session = record {
        user_context = build_user_context claims config.default_tenant_id none;
        expires_at = now + ttl config * 1000;
      } in
      let read = lookup-insert id j new st.sessions in
      elim (Bool-cases (str_eq id j)) [
        | inl same ↦
            let read' = rw same at read in
            let is : s ≡ new = cc in
            subst (λ k. IsOpenedBy start k s (login fetched exchange now id (some code_) ∷ es))
              ((eq_iff id j).0 same) (opened_by code_ token st claims run got valid is)
        | inr other ↦ let read' = rw other at read in before (λ e. cc) (h j s (sym read' ∙ found))
      ]

  with_tokens-AllOpened :
      (start : AuthState) (es : List AuthEvent) (fetched : String → Fetched)
      (exchange : String → TokenResponse) (now : ℕ) (id code_ : String) (st : AuthState)
      (answer : TokenResponse)
      → Reaches start es st
      → exchange code_ ≡ answer
      → AllOpened start es st.sessions
      → AllOpened start
          (login fetched exchange now id (some code_) ∷ es)
          (with_tokens r fetched now config id st answer).1.sessions
  unfolding with_tokens
  with_tokens-AllOpened start es fetched exchange now id code_ st (no_answer text) run got h =
      later start (login fetched exchange now id (some code_)) es st.sessions (λ e. cc) h
  with_tokens-AllOpened start es fetched exchange now id code_ st (bad_status n) run got h =
      later start (login fetched exchange now id (some code_)) es st.sessions (λ e. cc) h
  with_tokens-AllOpened start es fetched exchange now id code_ st (tokens none) run got h =
      later start (login fetched exchange now id (some code_)) es st.sessions (λ e. cc) h
  with_tokens-AllOpened start es fetched exchange now id code_ st (tokens (some token)) run got h =
      elim (Bool-cases (is_empty token)) [
        | inl empty ↦
            rw empty
              (later start (login fetched exchange now id (some code_)) es st.sessions (λ e. cc) h)
        | inr given ↦ rw given (
            open_session-AllOpened start es fetched exchange now id code_ token st
              (validate_token r fetched now config.oidc token st.cache).0 run got refl h)
      ]

  callback-AllOpened :
      (start : AuthState) (es : List AuthEvent) (fetched : String → Fetched)
      (exchange : String → TokenResponse) (now : ℕ) (id : String) (code_ : Option String)
      (st : AuthState)
      → Reaches start es st
      → AllOpened start es st.sessions
      → AllOpened start
          (login fetched exchange now id code_ ∷ es)
          (callback r fetched exchange now config id code_ st).1.sessions
  unfolding callback
  callback-AllOpened start es fetched exchange now id none st run h =
      later start (login fetched exchange now id none) es st.sessions (λ e. cc) h
  callback-AllOpened start es fetched exchange now id (some code_) st run h =
      elim (Bool-cases (is_empty code_)) [
        | inl empty ↦
            rw empty
              (later start (login fetched exchange now id (some code_)) es st.sessions (λ e. cc) h)
        | inr given ↦ rw given (
            with_tokens-AllOpened start es fetched exchange now id code_ st (exchange code_) run
              refl h)
      ]

  answer_for-AllOpened :
      (start : AuthState) (es : List AuthEvent) (now : ℕ) (id : String) (found : Option Session)
      (sessions : Store)
      → AllOpened start es sessions
      → AllOpened start es (answer_for now id found sessions).1
  unfolding answer_for
  answer_for-AllOpened start es now id none sessions h = h
  answer_for-AllOpened start es now id (some s) sessions h =
      elim (Bool-cases (ltb s.expires_at now)) [
        | inl old ↦ rw old (removed start es id sessions h)
        | inr fresh ↦ rw fresh h
      ]

  userinfo-AllOpened :
      (start : AuthState) (es : List AuthEvent) (now : ℕ) (named : Named) (sessions : Store)
      → AllOpened start es sessions
      → AllOpened start es (userinfo now named sessions).1
  unfolding userinfo
  userinfo-AllOpened start es now no_session sessions h = h
  userinfo-AllOpened start es now invalid_session sessions h = h
  userinfo-AllOpened start es now (session_id id) sessions h =
      answer_for-AllOpened start es now id (lookup id sessions) sessions h

  unless_expired-AllOpened :
      (start : AuthState) (es : List AuthEvent) (now : ℕ) (id : String) (found : Option Session)
      (sessions : Store)
      → AllOpened start es sessions
      → AllOpened start es (unless_expired now id found sessions).1
  unfolding unless_expired
  unless_expired-AllOpened start es now id none sessions h = h
  unless_expired-AllOpened start es now id (some s) sessions h =
      elim (Bool-cases (ltb s.expires_at now)) [
        | inl old ↦ rw old (removed start es id sessions h)
        | inr fresh ↦ rw fresh h
      ]

  no_sessions : (start : AuthState) (es : List AuthEvent) → AllOpened start es []
  unfolding lookup
  no_sessions start es id s found = cc

  step-AllOpened :
      (start : AuthState) (es : List AuthEvent) (e : AuthEvent) (st : AuthState)
      → Reaches start es st
      → AllOpened start es st.sessions
      → AllOpened start (e ∷ es) (step e st).sessions
  step-AllOpened start es (login fetched exchange now id code_) st run h =
      callback-AllOpened start es fetched exchange now id code_ st run h
  step-AllOpened start es (ask now headers) st run h =
      unfold handle_userinfo in
      userinfo-AllOpened start (ask now headers ∷ es) now (named_in (lookup "cookie" headers))
        st.sessions (later start (ask now headers) es st.sessions (λ e. cc) h)
  step-AllOpened start es (get_by_id now id) st run h =
      unfold get_session in
      unless_expired-AllOpened start (get_by_id now id ∷ es) now id (lookup id st.sessions)
        st.sessions (later start (get_by_id now id) es st.sessions (λ e. cc) h)
  step-AllOpened start es clear st run h = no_sessions start (clear ∷ es)

  Reaches-AllOpened :
      (start st : AuthState) (es : List AuthEvent)
      → start.sessions ≡ []
      → Reaches start es st
      → AllOpened start es st.sessions
  Reaches-AllOpened start st es empty begin =
      subst (AllOpened start []) (sym empty) (no_sessions start [])
  Reaches-AllOpened start st es empty (then_ {es = fs} {st = before_} e run) =
      step-AllOpened start fs e before_ run (Reaches-AllOpened start before_ fs empty run)

  -- From a start without sessions, whatever logins, requests and deletions came before: where the
  -- userinfo route answers with a user, the request has a cookie that names a session id, and the user
  -- is that of a session which has not run out, and which a login before opened under this very id,
  -- with no clearing of the sessions since: the token that its code was exchanged for was accepted,
  -- with the keys that the state then held, and the session has that token's claims and the
  -- configured time.
  pub handle_userinfo-IsOpenedBy :
      (start st : AuthState) (es : List AuthEvent) (now : ℕ) (headers : List (String × String))
      (status : ℕ) (out : List (String × String)) (u : UserContext)
      → start.sessions ≡ []
      → Reaches start es st
      → (handle_userinfo now headers st.sessions).0 ≡ answered status out u
      → (id : String) × (s : Session) × HasCookie headers id
        × IsOpenedBy start id s es
        × (s.user_context ≡ u)
        × (now ≤ s.expires_at)
  unfolding handle_userinfo
  handle_userinfo-IsOpenedBy start st es now headers status out u empty run h =
      let (id, s, named, found, is, fresh) =
        userinfo-answered now (named_in (lookup "cookie" headers)) st.sessions status out u h in
      (
        id,
        s,
        named_in-HasCookie headers (lookup "cookie" headers) id refl named,
        Reaches-AllOpened start st es empty run id s found,
        is,
        fresh,
      )
