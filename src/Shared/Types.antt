-- ===== src/Shared/Types.antt =====
-- plugins/shared/src/types.ts: the string unions, as enumerations.
use openclaw_enterprise.Common.{String, List, Bool, ℤ}

pub data PolicyScope : Type 0 where
  enterprise org team user : PolicyScope

pub data PolicyDomain : Type 0 where
  models actions integrations agent_to_agent features data_domain audit : PolicyDomain

pub data PolicyStatus : Type 0 where
  active draft deprecated : PolicyStatus

pub data DataClassificationLevel : Type 0 where
  public internal confidential restricted : DataClassificationLevel

pub data ClassificationAssigner : Type 0 where
  connector_default ai_reclassification admin_override : ClassificationAssigner

pub data ActionAutonomyLevel : Type 0 where
  autonomous notify approve block : ActionAutonomyLevel

pub data ConnectorType : Type 0 where
  gmail gcal jira github gdrive : ConnectorType

pub data AuditActionType : Type 0 where
  tool_invocation data_access model_call policy_decision agent_exchange policy_change :
      AuditActionType

pub data AuditOutcome : Type 0 where
  success denied error pending_approval : AuditOutcome

pub data PolicyResult : Type 0 where
  allow deny require_approval : PolicyResult

pub data ExchangeType : Type 0 where
  information_query commitment_request meeting_scheduling : ExchangeType

pub data ExchangeOutcome : Type 0 where
  in_progress resolved escalated denied expired : ExchangeOutcome

pub data OcipMessageType : Type 0 where
  agent_generated agent_assisted human : OcipMessageType

pub data ReplyPolicy : Type 0 where
  agent_ok human_only no_reply_needed : ReplyPolicy

pub data BuiltInRole : Type 0 where
  enterprise_admin org_admin team_lead user : BuiltInRole

pub data MessageClassification : Type 0 where
  critical needs_response informational noise : MessageClassification

-- The fields of `Policy` that are read; the rest are texts that no code under study reads.
pub record Policy : Type 0 where
  pub id : String
  pub scope : PolicyScope
  pub scope_id : String
  pub domain : PolicyDomain
  pub content : String
  pub status : PolicyStatus

pub record AgentIdentity : Type 0 where
  pub instance_id : String
  pub user_id : String
  pub tenant_id : String
  pub org_unit : String
  pub can_receive_queries : Bool
  pub can_auto_respond : Bool
  pub can_make_commitments : Bool
  pub max_classification_shared : DataClassificationLevel
  pub supported_exchange_types : List ExchangeType
  pub max_rounds_accepted : ℤ

pub record EffectivePermissions : Type 0 where
  pub can_manage_policies : Bool
  pub policy_scope : PolicyScope
  pub can_query_audit : Bool
  pub audit_scope : PolicyScope

pub record UserContext : Type 0 where
  pub user_id : String
  pub email : String
  pub roles : List BuiltInRole
  pub org_unit : String
  pub tenant_id : String
  pub effective_permissions : EffectivePermissions

-- `connectorStatus` of the result of a read.
pub data ConnectorReadStatus : Type 0 where
  ok partial error : ConnectorReadStatus
