-- ===== src/Shared/Policy.antt =====
-- plugins/shared/src/types.ts and connector-base.ts: the contracts of the gateway methods
-- `policy.evaluate` and `audit.log`.
use openclaw_enterprise.Common.{String, List, Option, Bool}
use openclaw_enterprise.Shared.Types.{
  DataClassificationLevel, PolicyResult, AuditActionType, AuditOutcome,
}
use openclaw_enterprise.Shared.Json.{Json}

pub record PolicyEvaluateRequest : Type 0 where
  pub tenant_id : String
  pub user_id : String
  pub action : String
  pub data_classification : DataClassificationLevel
  pub channel : Option String
  pub target_system : Option String
  pub additional : List (String × Json)

pub record Constraints : Type 0 where
  pub max_classification : Option DataClassificationLevel
  pub allowed_transitions : Option (List String)
  pub disclosure_required : Option Bool

pub record PolicyEvaluateResponse : Type 0 where
  pub decision : PolicyResult
  pub policy_applied : String
  pub reason : String
  pub constraints : Constraints

pub record DataAccessRecord : Type 0 where
  pub source : String
  pub classification : DataClassificationLevel
  pub purpose : String

-- What a caller passes to `audit.log`; `details` stands for `actionDetail`.
pub record AuditRecord : Type 0 where
  pub tenant_id : String
  pub user_id : String
  pub action_type : AuditActionType
  pub details : List (String × Json)
  pub data_accessed : List DataAccessRecord
  pub data_classification : DataClassificationLevel
  pub policy_applied : String
  pub policy_result : PolicyResult
  pub policy_reason : String
  pub outcome : AuditOutcome
