-- ===== src/Ocip/Logger.antt =====
-- plugins/ocip-protocol/src/exchange-log/logger.ts: the audit records of an exchange.
use openclaw_enterprise.Common.{
  ℤ, pos, String, List, [], ◌∷◌, Option, some, none, map, length, get_or,
}
use openclaw_enterprise.Common.Text.{template}
use openclaw_enterprise.Shared.Types.{
  DataClassificationLevel, internal, agent_exchange, AuditOutcome, success, pending_approval,
  PolicyResult, allow, deny, ExchangeType, information_query, commitment_request,
  meeting_scheduling, ExchangeOutcome, in_progress, resolved, escalated, expired,
}
use openclaw_enterprise.Shared.Json.{num, str, arr, Items, nil, cons}
use openclaw_enterprise.Shared.Policy.{AuditRecord}
use openclaw_enterprise.Ocip.Counter.{TranscriptEntry}
use openclaw_enterprise.Ocip.Filter.{WithheldRecord}

pub data Role : Type 0 where
  initiator responder : Role

pub record DataSharedRecord : Type 0 where
  pub source : String
  pub fields : List String

pub record ExchangeLogParams : Type 0 where
  pub exchange_id : String
  pub conversation_id : String
  pub agent_id : String
  pub user_id : String
  pub tenant_id : String
  pub role : Role
  pub exchange_type : ExchangeType
  pub current_round : ℤ
  pub max_rounds : ℤ
  pub classification_level : DataClassificationLevel
  pub counterparty_agent_id : String
  pub counterparty_user_id : String
  pub data_shared : List DataSharedRecord
  pub data_withheld : List WithheldRecord
  pub policy_applied : String
  pub outcome : ExchangeOutcome
  pub escalation_reason : Option String
  pub transcript : List TranscriptEntry
  pub channel : String

-- `exchangeDetails`.
pub record ExchangeDetails : Type 0 where
  pub data_shared : List DataSharedRecord
  pub data_withheld : List WithheldRecord
  pub transcript : List TranscriptEntry
  pub outcome : ExchangeOutcome
  pub escalation_reason : Option String

-- What the logger passes to `audit.log`.
pub record ExchangeAudit : Type 0 where
  pub entry : AuditRecord
  pub exchange_details : Option ExchangeDetails

abbrev role_name : Role → String
role_name initiator = "initiator"
role_name responder = "responder"

abbrev exchange_type_name : ExchangeType → String
exchange_type_name information_query = "information_query"
exchange_type_name commitment_request = "commitment_request"
exchange_type_name meeting_scheduling = "meeting_scheduling"

abbrev outcome_name : ExchangeOutcome → String
outcome_name in_progress = "in_progress"
outcome_name resolved = "resolved"
outcome_name escalated = "escalated"
outcome_name ExchangeOutcome.denied = "denied"
outcome_name expired = "expired"

abbrev pub result_of : ExchangeOutcome → PolicyResult
result_of ExchangeOutcome.denied = deny
result_of _ = allow

abbrev pub audit_outcome_of : ExchangeOutcome → AuditOutcome
audit_outcome_of ExchangeOutcome.denied = AuditOutcome.denied
audit_outcome_of escalated = pending_approval
audit_outcome_of _ = success

-- The record that `logExchange` writes.
unfoldable pub exchange_record : ExchangeLogParams → ExchangeAudit
exchange_record p = record {
  entry = record {
    tenant_id = p.tenant_id;
    user_id = p.user_id;
    action_type = agent_exchange;
    details =
        ("exchangeId", str p.exchange_id)
        ∷ ("conversationId", str p.conversation_id)
        ∷ ("role", str (role_name p.role))
        ∷ ("agentId", str p.agent_id)
        ∷ ("counterpartyAgentId", str p.counterparty_agent_id)
        ∷ ("counterpartyUserId", str p.counterparty_user_id)
        ∷ ("exchangeType", str (exchange_type_name p.exchange_type))
        ∷ ("currentRound", num p.current_round)
        ∷ ("maxRounds", num p.max_rounds)
        ∷ ("channel", str p.channel)
        ∷ [];
    data_accessed =
        map
          (λ ds. record {
            source = ds.source;
            classification = p.classification_level;
            purpose = template ("agent_exchange_" ∷ role_name p.role ∷ []);
          })
          p.data_shared;
    data_classification = p.classification_level;
    policy_applied = p.policy_applied;
    policy_result = result_of p.outcome;
    policy_reason =
        get_or p.escalation_reason (template ("Exchange " ∷ outcome_name p.outcome ∷ []));
    outcome = audit_outcome_of p.outcome;
  };
  exchange_details = some (record {
    data_shared = p.data_shared;
    data_withheld = p.data_withheld;
    transcript = p.transcript;
    outcome = p.outcome;
    escalation_reason = p.escalation_reason;
  });
}

abbrev reasons : List WithheldRecord → Items
reasons [] = nil
reasons (w ∷ ws) = cons (str w.reason) (reasons ws)

-- The record that `logDataWithheld` writes where something was withheld.
unfoldable pub withheld_record :
    String → String → String → List WithheldRecord → String → ExchangeAudit
withheld_record tenant_id user_id exchange_id withheld policy_applied = record {
  entry = record {
    tenant_id = tenant_id;
    user_id = user_id;
    action_type = agent_exchange;
    details =
        ("exchangeId", str exchange_id)
        ∷ ("event", str "data_withheld")
        ∷ ("withheldCount", num (pos (length withheld)))
        ∷ ("withheldReasons", arr (reasons withheld))
        ∷ [];
    data_accessed = [];
    data_classification = internal;
    policy_applied = policy_applied;
    policy_result = allow;
    policy_reason = "Data withheld per classification policy";
    outcome = success;
  };
  exchange_details = none;
}
