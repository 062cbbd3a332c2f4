-- ===== src/Ocip/Hooks/Receive.antt =====
-- plugins/ocip-protocol/src/hooks.ts: the hook on an incoming message of `sessions_send`.
use openclaw_enterprise.Common.{
  String, [], Bool, true, false, Option, some, none, get_or, insert, if◌then◌else◌,
}
use openclaw_enterprise.Shared.Types.{
  information_query, ExchangeOutcome, in_progress, AgentIdentity,
}
use openclaw_enterprise.Shared.Errors.{Result, ok}
use openclaw_enterprise.Ocip.Session.{
  GatewayMethods, SessionsSendContext, M, ◌>>=◌, ◌>>◌, return, lift, log_exchange, set_ocip,
}
use openclaw_enterprise.Ocip.Envelope.{OcipEnvelope}
use openclaw_enterprise.Ocip.Parser.{parse}
use openclaw_enterprise.Ocip.Commitment.{detect, enforce_commitment_policy}
use openclaw_enterprise.Ocip.Counter.{ExchangeState, Exchanges, new_exchange, get_state}
use openclaw_enterprise.Ocip.CrossOrg.{CrossOrgCheckResult, enforce}
use openclaw_enterprise.Ocip.Logger.{responder, ExchangeLogParams}
use openclaw_enterprise.Ocip.Hooks.{content_of}

abbrev pub incoming_log :
    AgentIdentity
    → SessionsSendContext
    → String
    → OcipEnvelope
    → CrossOrgCheckResult
    → ExchangeOutcome
    → Option String
    → ExchangeLogParams
incoming_log local_agent c id envelope checked outcome reason = record {
  exchange_id = id;
  conversation_id = envelope.conversation_id;
  agent_id = local_agent.instance_id;
  user_id = c.user_id;
  tenant_id = c.tenant_id;
  role = responder;
  exchange_type = information_query;
  current_round = envelope.exchange_round;
  max_rounds = envelope.max_rounds;
  classification_level = envelope.classification;
  counterparty_agent_id = envelope.source_agent.instance_id;
  counterparty_user_id = envelope.source_agent.user_id;
  data_shared = [];
  data_withheld = [];
  policy_applied = checked.policy_applied;
  outcome = outcome;
  escalation_reason = reason;
  transcript = [];
  channel = "sessions_send";
}

abbrev pub incoming_id : SessionsSendContext → OcipEnvelope → String
incoming_id c envelope = get_or c.message.exchange_id envelope.conversation_id

-- The state of an exchange that an incoming message is the first of.
abbrev pub first_incoming : String → OcipEnvelope → ExchangeState
first_incoming id envelope =
    record (new_exchange id envelope.conversation_id (some envelope.max_rounds)) {
      current_round = envelope.exchange_round;
    }

abbrev pub track_incoming : String → OcipEnvelope → Exchanges → Option ExchangeState → Exchanges
track_incoming id envelope exchanges none = insert id (first_incoming id envelope) exchanges
track_incoming id envelope exchanges (some state) = exchanges

-- `detect`, and `enforceCommitmentPolicy` where a human is required.
unfoldable pub commitment_gate :
    (String → String) → String → OcipEnvelope → String → Result (Unit {0})
commitment_gate lower id envelope content =
    if (detect lower envelope content).requires_human
    then enforce_commitment_policy lower id envelope content
    else ok tt

-- An exchange that the check of the organisations lets through.
unfoldable pub receive :
    GatewayMethods
    → AgentIdentity
    → (String → String)
    → OcipEnvelope
    → CrossOrgCheckResult
    → M (Unit {0})
receive gateway local_agent lower envelope checked s =
    let c = s.context in
    let id = incoming_id c envelope in
    (do
      lift (commitment_gate lower id envelope (content_of c))
      log_exchange gateway (incoming_log local_agent c id envelope checked in_progress none)
      set_ocip envelope)
      (record s { exchanges = track_incoming id envelope s.exchanges (get_state s.exchanges id) })

unfoldable pub check_and_receive :
    GatewayMethods → AgentIdentity → (String → String) → OcipEnvelope → M (Unit {0})
unfolding receive
check_and_receive gateway local_agent lower envelope s =
    let c = s.context in
    let id = incoming_id c envelope in
    (do
      checked ← lift (
          enforce gateway.policy_evaluate
            (record {
              tenant_id = envelope.source_agent.tenant_id;
              org_unit = envelope.source_agent.org_unit;
            })
            (record { tenant_id = local_agent.tenant_id; org_unit = local_agent.org_unit })
            c.user_id)
      (if checked.allowed
          then receive gateway local_agent lower envelope checked
          else log_exchange gateway (
              incoming_log local_agent c id envelope checked ExchangeOutcome.denied
                (some checked.reason))))
      s

abbrev pub incoming_of :
    GatewayMethods → AgentIdentity → (String → String) → Bool → Option OcipEnvelope → M (Unit {0})
incoming_of gateway local_agent lower true (some envelope) =
    check_and_receive gateway local_agent lower envelope
incoming_of gateway local_agent lower true none = return tt
incoming_of gateway local_agent lower false _ = return tt

-- A message that holds no envelope is a human's, and passes.
unfoldable pub handle_incoming : GatewayMethods → AgentIdentity → (String → String) → M (Unit {0})
unfolding check_and_receive
handle_incoming gateway local_agent lower s =
    let r = parse s.context.message.fields in
    incoming_of gateway local_agent lower r.is_ocip r.envelope s
