-- ===== src/Ocip/Hooks.antt =====
-- plugins/ocip-protocol/src/hooks.ts: the hooks on `sessions_send`, here the one on an outgoing
-- message. A handler runs here without another in between: the source can switch to another message
-- only where it awaits the gateway, behind the counter's update.
pub mod Rounds
pub mod Receive
pub mod Incoming
pub mod Admitted
pub mod Limit
pub mod Audited
use openclaw_enterprise.Common.{
  ℤ, String, [], ◌∷◌, ◌++◌, Bool, true, false, Option, some, none, map, get_or, if◌then◌else◌,
}
use openclaw_enterprise.Shared.Types.{
  DataClassificationLevel, public, internal, ExchangeType, information_query, ExchangeOutcome,
  in_progress, escalated, AgentIdentity,
}
use openclaw_enterprise.Shared.Types
use openclaw_enterprise.Shared.Json.{obj, set_field}
use openclaw_enterprise.Shared.Errors.{EnterpriseError, exchange_round_limit, Result, ok, throw}
use openclaw_enterprise.Ocip.Session.{
  GatewayMethods, SessionsSendContext, OcipState, M, ◌>>=◌, ◌>>◌, raise, lift, log_exchange,
  log_data_withheld, set_message,
}
use openclaw_enterprise.Ocip.Envelope.{build, envelope_fields}
use openclaw_enterprise.Ocip.Counter.{
  ExchangeState, Exchanges, EscalationPayload, new_exchange, init_exchange, increment_round,
  build_escalation, get_state,
}
use openclaw_enterprise.Ocip.Filter.{FilterResult, filter}
use openclaw_enterprise.Ocip.Logger.{initiator, ExchangeLogParams}

-- What the outgoing hook reads of a message, with its defaults.
abbrev pub exchange_id_of : SessionsSendContext → String
exchange_id_of c = get_or c.message.exchange_id c.session_id

abbrev pub exchange_type_of : SessionsSendContext → ExchangeType
exchange_type_of c = get_or c.message.exchange_type information_query

abbrev pub classification_of : SessionsSendContext → DataClassificationLevel
classification_of c = get_or c.message.classification internal

abbrev pub content_of : SessionsSendContext → String
content_of c = get_or c.message.content ""

-- `getState`, and `initExchange` where there is none.
abbrev pub tracked : Exchanges → String → String → Option ℤ → Option ExchangeState → Exchanges
tracked exchanges id conversation_id max_rounds none =
    init_exchange exchanges id conversation_id max_rounds
tracked exchanges id conversation_id max_rounds (some state) = exchanges

-- The counter's part of the outgoing hook: the result and the map behind `incrementRound`.
unfoldable pub count_outgoing :
    AgentIdentity → SessionsSendContext → Exchanges → Result ExchangeState × Exchanges
count_outgoing local_agent c exchanges =
    let id = exchange_id_of c in
    increment_round
      (tracked exchanges id c.session_id c.message.max_rounds (get_state exchanges id)) id
      local_agent.instance_id (content_of c)

abbrev outgoing_log :
    AgentIdentity
    → SessionsSendContext
    → ExchangeState
    → ExchangeOutcome
    → String
    → Option String
    → FilterResult
    → ExchangeLogParams
outgoing_log local_agent c state outcome policy_applied reason filtered = record {
  exchange_id = exchange_id_of c;
  conversation_id = c.session_id;
  agent_id = local_agent.instance_id;
  user_id = c.user_id;
  tenant_id = c.tenant_id;
  role = initiator;
  exchange_type = exchange_type_of c;
  current_round = state.current_round;
  max_rounds = state.max_rounds;
  classification_level = classification_of c;
  counterparty_agent_id = get_or c.message.target_agent_id "unknown";
  counterparty_user_id = get_or c.message.target_user_id "unknown";
  data_shared =
      map (λ item. record { source = item.source; fields = item.fields }) filtered.allowed;
  data_withheld = filtered.withheld;
  policy_applied = policy_applied;
  outcome = outcome;
  escalation_reason = reason;
  transcript = state.transcript;
  channel = "sessions_send";
}

-- The branch that catches the limit error. `state` there is the state in the map.
escalate :
    GatewayMethods
    → AgentIdentity
    → EnterpriseError
    → EscalationPayload
    → ExchangeState
    → M (Unit {0})
escalate gateway local_agent error escalation state s =
    (do
      set_message (λ m. record m { ocip_escalation = some escalation })
      log_exchange gateway (
          outgoing_log local_agent s.context state escalated "ocip-loop-prevention"
            (some escalation.reason) (record { allowed = []; withheld = [] }))
      raise error)
      s

abbrev is_round_limit : EnterpriseError → Bool
is_round_limit (exchange_round_limit id n) = true
is_round_limit _ = false

-- The state in the map; the hook has put one there.
abbrev state_in_map : OcipState → ExchangeState
state_in_map s =
    let id = exchange_id_of s.context in
    get_or (get_state s.exchanges id)
      (new_exchange id s.context.session_id s.context.message.max_rounds)

-- The `catch` around `incrementRound`.
caught : GatewayMethods → AgentIdentity → EnterpriseError → M (Unit {0})
unfolding escalate
caught gateway local_agent error s =
    if is_round_limit error
    then (do
      escalation ← lift (build_escalation s.exchanges (exchange_id_of s.context))
      escalate gateway local_agent error escalation (state_in_map s))
        s
    else raise error s

-- The part of the outgoing hook behind the counter.
send : GatewayMethods → AgentIdentity → String → ExchangeState → M (Unit {0})
unfolding build
send gateway local_agent tomorrow state s =
    let c = s.context in
    let envelope = build tomorrow (record {
      source_agent = local_agent;
      conversation_id = c.session_id;
      exchange_type = exchange_type_of c;
      exchange_round = state.current_round;
      classification = classification_of c;
      max_rounds = some state.max_rounds;
      expires_at = none;
    }) in
    let filtered =
      filter (get_or c.data_items []) (get_or c.message.receiver_can_share (public ∷ internal ∷ []))
        (classification_of c) in
    (do
      log_data_withheld gateway c.tenant_id c.user_id (exchange_id_of c) filtered.withheld
          "ocip-classification-filter"
      set_message (λ m. record m {
        fields = set_field "ocip" (obj (envelope_fields envelope)) m.fields;
        filtered_data = some filtered.allowed;
      })
      log_exchange gateway
          (outgoing_log local_agent c state in_progress "ocip-protocol" none filtered))
      s

-- With the outcome of the counter's part.
sent : GatewayMethods → AgentIdentity → String → Result ExchangeState × Exchanges → M (Unit {0})
unfolding caught send
sent gateway local_agent tomorrow (ok state, exchanges) s =
    send gateway local_agent tomorrow state (record s { exchanges = exchanges })
sent gateway local_agent tomorrow (throw error, exchanges) s =
    caught gateway local_agent error (record s { exchanges = exchanges })

-- `tomorrow` is the text of the time 24 hours from now.
unfoldable pub handle_outgoing : GatewayMethods → AgentIdentity → String → M (Unit {0})
unfolding sent
handle_outgoing gateway local_agent tomorrow s =
    sent gateway local_agent tomorrow (count_outgoing local_agent s.context s.exchanges) s
