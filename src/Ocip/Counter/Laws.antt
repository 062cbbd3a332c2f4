-- ===== src/Ocip/Counter/Laws.antt =====
-- The round limit: how many messages an exchange lets through.
use openclaw_enterprise.Common.{
  ℕ, ◌+◌, ◌≤◌, ℤ, pos, pos-+ℤ-one, String, List, [], ◌∷◌, Option, some, length, ◌≡◌, refl, ap, ◌∙◌,
  ◌<◌, arith, lookup, lookup-insert, eq_refl, if◌then◌else◌, str_eq,
}
use openclaw_enterprise.Shared.Errors.{exchange_round_limit, ok, throw}
use openclaw_enterprise.Ocip.Counter.{
  ExchangeState, Exchanges, new_exchange, init_exchange, next_round, advance, increment_round,
}

-- What an increment does to an exchange that is tracked, whether it throws or not.
pub increment_round-tracked :
    (exchanges : Exchanges) (id sender summary : String) (state : ExchangeState)
    → lookup id exchanges ≡ some state
    → increment_round exchanges id sender summary
      ≡ advance exchanges id (next_round state sender summary)
unfolding increment_round
increment_round-tracked exchanges id sender summary state e = rw e refl

pub lookup-increment_round :
    (exchanges : Exchanges) (id j sender summary : String) (state : ExchangeState)
    → lookup id exchanges ≡ some state
    → lookup j (increment_round exchanges id sender summary).1
      ≡ (if str_eq id j then some (next_round state sender summary) else lookup j exchanges)
lookup-increment_round exchanges id j sender summary state e =
    rw (increment_round-tracked exchanges id sender summary state e)
      (lookup-insert id j (next_round state sender summary) exchanges)

-- A run of increments of one exchange, throwing or not.
unfoldable pub increment_all : Exchanges → String → List (String × String) → Exchanges
increment_all exchanges id [] = exchanges
increment_all exchanges id ((sender, summary) ∷ messages) =
    increment_all (increment_round exchanges id sender summary).1 id messages

tracked-increment_all :
    (exchanges : Exchanges) (id : String) (messages : List (String × String))
    (state : ExchangeState) (k n : ℕ)
    → lookup id exchanges ≡ some state
    → state.current_round ≡ pos k
    → state.max_rounds ≡ pos n
    → (after : ExchangeState) × (lookup id (increment_all exchanges id messages) ≡ some after)
      × (after.current_round ≡ pos (k + length messages))
      × (after.max_rounds ≡ pos n)
unfolding increment_all
tracked-increment_all exchanges id [] state k n e at_round limit =
    (state, e, rw at_round (ground arith), limit)
tracked-increment_all exchanges id ((sender, summary) ∷ messages) state k n e at_round limit =
    let next = next_round state sender summary in
    let (after, found, round, max) =
      tracked-increment_all (increment_round exchanges id sender summary).1 id messages next (k + 1)
        n
        (ground (arith, lookup-increment_round exchanges id id sender summary state e, eq_refl id))
        (unfold next_round in rw at_round (pos-+ℤ-one k)) (unfold next_round in limit) in
    (after, found, ground arith, max)

next_round-round :
    (state : ExchangeState) (sender summary : String) (k : ℕ)
    → state.current_round ≡ pos k
    → (next_round state sender summary).current_round ≡ pos (k + 1)
unfolding next_round
next_round-round state sender summary k e = rw e (pos-+ℤ-one k)

next_round-max_rounds :
    (state : ExchangeState) (sender summary : String)
    → (next_round state sender summary).max_rounds ≡ state.max_rounds
unfolding next_round
next_round-max_rounds state sender summary = refl

advance-within :
    (exchanges : Exchanges) (id : String) (next : ExchangeState) (k n : ℕ)
    → next.current_round ≡ pos k
    → next.max_rounds ≡ pos n
    → k ≤ n
    → (advance exchanges id next).0 ≡ ok next
advance-within exchanges id next k n round max h = ground arith

advance-beyond :
    (exchanges : Exchanges) (id : String) (next : ExchangeState) (k n : ℕ)
    → next.current_round ≡ pos k
    → next.max_rounds ≡ pos n
    → n < k
    → (advance exchanges id next).0 ≡ throw (exchange_round_limit id (pos n))
advance-beyond exchanges id next k n round max h = ground arith

-- Of an exchange that starts with the limit `n`, the k-th increment succeeds exactly when k ≤ n:
-- the first `n` messages pass and every later one throws the limit error.
pub increment_round-limit :
    (exchanges : Exchanges) (id conversation_id sender summary : String)
    (messages : List (String × String)) (n : ℕ)
    → let before =
        increment_all (init_exchange exchanges id conversation_id (some (pos n))) id messages in
      ((length messages + 1 ≤ n)
        → (state : ExchangeState) × ((increment_round before id sender summary).0 ≡ ok state)
          × (state.current_round ≡ pos (length messages + 1)))
      × ((n ≤ length messages)
          → (increment_round before id sender summary).0 ≡ throw (exchange_round_limit id (pos n)))
increment_round-limit exchanges id conversation_id sender summary messages n =
    let start = init_exchange exchanges id conversation_id (some (pos n)) in
    let (after, found, round, max) =
      tracked-increment_all start id messages (new_exchange id conversation_id (some (pos n))) 0 n
        (unfold init_exchange in
          ground (
            arith,
            lookup-insert id id (new_exchange id conversation_id (some (pos n))) exchanges,
            eq_refl id,
          ))
        refl refl in
    let next = next_round after sender summary in
    let next_round_is =
      next_round-round after sender summary (length messages) (round ∙ ap pos (omega arith)) in
    let next_max : next.max_rounds ≡ pos n = next_round-max_rounds after sender summary ∙ max in
    rw (increment_round-tracked (increment_all start id messages) id sender summary after found) (
      (λ h. (
        next,
        advance-within start id next (length messages + 1) n next_round_is next_max h,
        next_round_is,
      )),
      (λ h.
          advance-beyond start id next (length messages + 1) n next_round_is next_max
            (omega arith)),
    )

pub lookup-init_exchange :
    (exchanges : Exchanges) (id j conversation_id : String) (max_rounds : Option ℤ)
    → lookup j (init_exchange exchanges id conversation_id max_rounds) ≡ (
        if str_eq id j
        then some (new_exchange id conversation_id max_rounds)
        else lookup j exchanges)
unfolding init_exchange
lookup-init_exchange exchanges id j conversation_id max_rounds =
    lookup-insert id j (new_exchange id conversation_id max_rounds) exchanges
