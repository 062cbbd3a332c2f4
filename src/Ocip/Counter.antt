-- ===== src/Ocip/Counter.antt =====
-- plugins/ocip-protocol/src/loop-prevention/counter.ts: the rounds of each exchange. The `Map` is a
-- dictionary that every operation takes and returns; the state that `getState` hands out is the
-- one in the map, so a caller's write to it is a write to the dictionary.
pub mod Laws
use openclaw_enterprise.Common.{
  ℤ, pos, ◌+ℤ◌, ltb_ℤ, String, List, [], ◌∷◌, ◌++◌, Option, some, none, map, get_or, lookup, insert,
  remove, if◌then◌else◌,
}
use openclaw_enterprise.Common.Text.{template, join, decimal_ℤ}
use openclaw_enterprise.Shared.Errors.{plain, exchange_round_limit, Result, ok, throw}
use openclaw_enterprise.Ocip.Envelope.{ocip_default_max_rounds}

pub record TranscriptEntry : Type 0 where
  pub round : ℤ
  pub sender : String
  pub summary : String

pub record ExchangeState : Type 0 where
  pub exchange_id : String
  pub conversation_id : String
  pub current_round : ℤ
  pub max_rounds : ℤ
  pub transcript : List TranscriptEntry

pub record EscalationPayload : Type 0 where
  pub exchange_id : String
  pub conversation_id : String
  pub current_round : ℤ
  pub max_rounds : ℤ
  pub conversation_summary : String
  pub reason : String

abbrev pub Exchanges : Type 0
Exchanges = List (String × ExchangeState)

abbrev pub new_exchange : String → String → Option ℤ → ExchangeState
new_exchange exchange_id conversation_id max_rounds = record {
  exchange_id = exchange_id;
  conversation_id = conversation_id;
  current_round = pos 0;
  max_rounds = get_or max_rounds ocip_default_max_rounds;
  transcript = [];
}

unfoldable pub init_exchange : Exchanges → String → String → Option ℤ → Exchanges
init_exchange exchanges exchange_id conversation_id max_rounds =
    insert exchange_id (new_exchange exchange_id conversation_id max_rounds) exchanges

-- The state behind one more message.
unfoldable pub next_round : ExchangeState → String → String → ExchangeState
next_round state sender summary =
    let round = state.current_round +ℤ pos 1 in
    record state {
      current_round = round;
      transcript =
          state.transcript ++ record { round = round; sender = sender; summary = summary } ∷ [];
    }

-- The count is kept also where the limit is passed and the call throws.
abbrev pub advance : Exchanges → String → ExchangeState → Result ExchangeState × Exchanges
advance exchanges exchange_id state = (
  (if ltb_ℤ state.max_rounds state.current_round
      then throw (exchange_round_limit exchange_id state.max_rounds)
      else ok state),
  insert exchange_id state exchanges,
)

abbrev increment_at :
    Exchanges → String → String → String → Option ExchangeState → Result ExchangeState × Exchanges
increment_at exchanges exchange_id sender summary none = (
  throw (
      plain
        (template ("Exchange \"" ∷ exchange_id ∷ "\" not found. Call initExchange first." ∷ []))),
  exchanges,
)
increment_at exchanges exchange_id sender summary (some state) =
    advance exchanges exchange_id (next_round state sender summary)

unfoldable pub increment_round :
    Exchanges → String → String → String → Result ExchangeState × Exchanges
increment_round exchanges exchange_id sender summary =
    increment_at exchanges exchange_id sender summary (lookup exchange_id exchanges)

abbrev transcript_line : TranscriptEntry → String
transcript_line e =
    template ("Round " ∷ decimal_ℤ e.round ∷ " (" ∷ e.sender ∷ "): " ∷ e.summary ∷ [])

abbrev pub escalation_of : ExchangeState → EscalationPayload
escalation_of state = record {
  exchange_id = state.exchange_id;
  conversation_id = state.conversation_id;
  current_round = state.current_round;
  max_rounds = state.max_rounds;
  conversation_summary = join "\n" (map transcript_line state.transcript);
  reason = template (
      "Exchange reached maximum round limit ("
      ∷ decimal_ℤ state.max_rounds
      ∷ "). Human review required."
      ∷ []);
}

abbrev escalation_at : String → Option ExchangeState → Result EscalationPayload
escalation_at exchange_id none =
    throw (plain (template ("Exchange \"" ∷ exchange_id ∷ "\" not found." ∷ [])))
escalation_at exchange_id (some state) = ok (escalation_of state)

unfoldable pub build_escalation : Exchanges → String → Result EscalationPayload
build_escalation exchanges exchange_id = escalation_at exchange_id (lookup exchange_id exchanges)

unfoldable pub get_state : Exchanges → String → Option ExchangeState
get_state exchanges exchange_id = lookup exchange_id exchanges

unfoldable pub remove_exchange : Exchanges → String → Exchanges
remove_exchange exchanges exchange_id = remove exchange_id exchanges
