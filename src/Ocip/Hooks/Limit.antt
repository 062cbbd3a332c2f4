-- ===== src/Ocip/Hooks/Limit.antt =====
-- The limit of an exchange over any sequence of outgoing and incoming messages.
use openclaw_enterprise.Common.{
  ℕ, zero, suc, Option-cases, ◌+◌, ◌≤◌, ◌<◌, pos, ◌+ℤ◌, ◌≤ℤ◌, pos_part, neg_part, +ℤ_parts, String,
  List, [], ◌∷◌, some, false, ◌≡◌, refl, ◌∙◌, arith, lookup, lookup-insert, eq_refl, eq_iff,
  if◌then◌else◌, str_eq, Bool-cases, inl, inr,
}
use openclaw_enterprise.Shared.Types.{AgentIdentity}
use openclaw_enterprise.Shared.Errors.{Result, ok, throw}
use openclaw_enterprise.Ocip.Counter.{
  ExchangeState, Exchanges, next_round, advance, get_state, init_exchange, new_exchange,
}
use openclaw_enterprise.Ocip.Counter.Laws.{
  increment_round-tracked, lookup-increment_round, lookup-init_exchange,
}
use openclaw_enterprise.Ocip.Session.{GatewayMethods, SessionsSendContext, OcipState}
use openclaw_enterprise.Ocip.Hooks.{exchange_id_of, content_of, count_outgoing, handle_outgoing}
use openclaw_enterprise.Ocip.Hooks.Receive.{handle_incoming}
use openclaw_enterprise.Ocip.Hooks.Rounds.{handle_outgoing-exchanges, handle_outgoing-ok}
use openclaw_enterprise.Ocip.Hooks.Incoming.{handle_incoming-tracked}

-- What the host hands to the hook: `direction`, and the rest of the context.
pub data Event : Type 0 where
  outgoing incoming : SessionsSendContext → Event

-- One call of the registered handler, on its own context.
unfoldable pub on_event :
    GatewayMethods
    → AgentIdentity
    → (String → String)
    → String
    → OcipState
    → Event
    → Result (Unit {0}) × OcipState
on_event gateway local_agent lower tomorrow s (outgoing c) =
    handle_outgoing gateway local_agent tomorrow (record s { context = c })
on_event gateway local_agent lower tomorrow s (incoming c) =
    handle_incoming gateway local_agent lower (record s { context = c })

abbrev pub passed : Result (Unit {0}) → ℕ
passed (ok a) = 1
passed (throw e) = 0

-- 1 for an outgoing message of the exchange that passed, else 0.
abbrev pub passed_of : String → Event → Result (Unit {0}) → ℕ
passed_of id (outgoing c) r = if str_eq (exchange_id_of c) id then passed r else 0
passed_of id (incoming c) r = 0

-- How many outgoing messages of the exchange `id` pass in a sequence of events.
unfoldable pub count_passed :
    GatewayMethods
    → AgentIdentity
    → (String → String)
    → String
    → String
    → OcipState
    → List Event
    → ℕ
count_passed gateway local_agent lower tomorrow id s [] = 0
count_passed gateway local_agent lower tomorrow id s (event ∷ events) =
    let r = on_event gateway local_agent lower tomorrow s event in
    passed_of id event r.0 + count_passed gateway local_agent lower tomorrow id r.1 events

-- `n` more messages, where there are any, fit into what is left of the limit.
abbrev Fits : ℕ → ExchangeState → Type 0
Fits n state =
    0 < n
    → n + pos_part state.current_round + neg_part state.max_rounds
      ≤ pos_part state.max_rounds + neg_part state.current_round

module _ (gateway : GatewayMethods) (local_agent : AgentIdentity) (lower : String → String)
    (tomorrow : String) where
  count_outgoing-tracked :
      (c : SessionsSendContext) (exchanges : Exchanges) (state : ExchangeState)
      → lookup (exchange_id_of c) exchanges ≡ some state
      → count_outgoing local_agent c exchanges
        ≡ advance exchanges
            (exchange_id_of c)
            (next_round state local_agent.instance_id (content_of c))
  unfolding count_outgoing get_state
  count_outgoing-tracked c exchanges state e = rw e (
      increment_round-tracked exchanges (exchange_id_of c) local_agent.instance_id (content_of c)
        state e)

  -- A message that passes fits; the others change nothing that is counted.
  advance-ok :
      (exchanges : Exchanges) (id : String) (state next : ExchangeState) (sender summary : String)
      → (advance exchanges id (next_round state sender summary)).0 ≡ ok next
      → Fits 1 state
  unfolding next_round
  advance-ok exchanges id state next sender summary h =
      λ p. ground (arith, +ℤ_parts state.current_round (pos 1))

  Fits-of_next_round :
      (n : ℕ) (state : ExchangeState) (sender summary : String)
      → Fits n (next_round state sender summary)
      → Fits (0 + n) state
  unfolding next_round
  Fits-of_next_round n state sender summary h =
      λ p. let q = h (omega arith) in omega (arith, +ℤ_parts state.current_round (pos 1))

  Fits-suc :
      (n : ℕ) (state : ExchangeState) (sender summary : String)
      → Fits 1 state
      → Fits n (next_round state sender summary)
      → Fits (1 + n) state
  unfolding next_round
  Fits-suc zero state sender summary f h = λ p. f (omega arith)
  Fits-suc (suc n) state sender summary f h =
      λ p. let q = h (omega arith) in omega (arith, +ℤ_parts state.current_round (pos 1))

  -- The counter's part for one exchange leaves every other alone.
  count_outgoing-other :
      (c : SessionsSendContext) (exchanges : Exchanges) (id : String)
      → str_eq (exchange_id_of c) id ≡ false
      → lookup id (count_outgoing local_agent c exchanges).1 ≡ lookup id exchanges
  unfolding count_outgoing get_state
  count_outgoing-other c exchanges id other =
      let me = exchange_id_of c in
      let start = new_exchange me c.session_id c.message.max_rounds in
      let fresh = init_exchange exchanges me c.session_id c.message.max_rounds in
      elim (Option-cases (lookup me exchanges)) [
        | inl absent ↦
            let made = lookup-init_exchange exchanges me me c.session_id c.message.max_rounds in
            let made' : lookup me fresh ≡ some start = ground (arith, made, eq_refl me) in
            rw absent (
              lookup-increment_round fresh me id local_agent.instance_id (content_of c) start made'
              ∙ rw other (
                  lookup-init_exchange exchanges me id c.session_id c.message.max_rounds
                  ∙ rw other refl))
        | inr (state, present) ↦ rw present (
            lookup-increment_round exchanges me id local_agent.instance_id (content_of c) state
              present
            ∙ rw other refl)
      ]

  passes-Fits :
      (c : SessionsSendContext) (s : OcipState) (state : ExchangeState) (n : ℕ)
      → lookup (exchange_id_of c) s.exchanges ≡ some state
      → let r = handle_outgoing gateway local_agent tomorrow (record s { context = c }) in
        Fits n (next_round state local_agent.instance_id (content_of c))
        → Fits (passed r.0 + n) state
  passes-Fits c s state n e h =
      go (handle_outgoing gateway local_agent tomorrow (record s { context = c })).0 refl
    where
      go :
          (x : Result (Unit {0}))
          → (handle_outgoing gateway local_agent tomorrow (record s { context = c })).0 ≡ x
          → Fits (passed x + n) state
      go (throw x) eq = Fits-of_next_round n state local_agent.instance_id (content_of c) h
      go (ok a) eq =
          let (next, counted) =
            handle_outgoing-ok gateway local_agent tomorrow (record s { context = c }) eq in
          let advanced = rw (count_outgoing-tracked c s.exchanges state e) at counted in
          Fits-suc n state local_agent.instance_id (content_of c)
            (advance-ok s.exchanges (exchange_id_of c) state next local_agent.instance_id
              (content_of c) advanced)
            h

  -- What passes fits, by recursion on the events.
  count_passed-Fits :
      (id : String) (events : List Event) (s : OcipState) (state : ExchangeState)
      → lookup id s.exchanges ≡ some state
      → Fits (count_passed gateway local_agent lower tomorrow id s events) state
  unfolding count_passed on_event
  count_passed-Fits id [] s state e = λ p. absurd (omega arith)
  count_passed-Fits id (incoming c ∷ events) s state e =
      let s' = (handle_incoming gateway local_agent lower (record s { context = c })).1 in
      let ih =
        count_passed-Fits id events s' state (
          handle_incoming-tracked gateway local_agent lower (record s { context = c }) id state
            e) in
      λ p. let q = ih (omega arith) in omega arith
  count_passed-Fits id (outgoing c ∷ events) s state e =
      let s' = (handle_outgoing gateway local_agent tomorrow (record s { context = c })).1 in
      let kept =
        handle_outgoing-exchanges gateway local_agent tomorrow (record s { context = c }) in
      elim (Bool-cases (str_eq (exchange_id_of c) id)) [
        | inr other ↦
            let ih =
              count_passed-Fits id events s' state
                (rw kept (count_outgoing-other c s.exchanges id other ∙ e)) in
            rw other (λ p. let q = ih (omega arith) in omega arith)
        | inl same ↦
            let is = (eq_iff _ _).0 same in
            let at : lookup (exchange_id_of c) s.exchanges ≡ some state = rw is e in
            let next = next_round state local_agent.instance_id (content_of c) in
            let found : lookup id s'.exchanges ≡ some next = rw kept (
              rw (count_outgoing-tracked c s.exchanges state at)
                (lookup-insert (exchange_id_of c) id next s.exchanges ∙ rw same refl)) in
            rw same (passes-Fits c s state _ at (count_passed-Fits id events s' next found))
      ]

  -- Over any sequence of outgoing and incoming messages, whatever the gateway answers, where some
  -- outgoing message of a tracked exchange passes, the exchange's current round and the number of
  -- its outgoing messages that pass do not together exceed its limit.
  pub count_passed-limit :
      (id : String) (events : List Event) (s : OcipState) (state : ExchangeState)
      → lookup id s.exchanges ≡ some state
      → 0 < count_passed gateway local_agent lower tomorrow id s events
      → state.current_round +ℤ pos (count_passed gateway local_agent lower tomorrow id s events)
        ≤ℤ state.max_rounds
  count_passed-limit id events s state e some_pass =
      let n = count_passed gateway local_agent lower tomorrow id s events in
      let fits = count_passed-Fits id events s state e some_pass in
      omega (arith, +ℤ_parts state.current_round (pos n))
