-- ===== src/Connector.antt =====
-- plugins/shared/src/connector-base.ts: the policy check around a connector's reads and writes. The
-- gateway, the remote calls and `lower`, the runtime's `toLowerCase`, are parameters. The state is
-- the two fields of the class, the records passed to `audit.log`, and how often a remote call was
-- started. The subclasses' overrides of the two tests on errors are left out.
pub mod Read
pub mod Access
pub mod Revoked
pub mod Logged
use openclaw_enterprise.Common.{
  ℕ, ◌+◌, String, List, [], ◌∷◌, ◌++◌, Bool, true, false, ◌||◌, Option, some, none, get_or,
  if◌then◌else◌,
}
use openclaw_enterprise.Shared.Types.{
  ConnectorType, gmail, gcal, jira, github, gdrive, ConnectorReadStatus, DataClassificationLevel,
  PolicyResult, allow, deny, require_approval, AuditOutcome, success, tool_invocation,
}
use openclaw_enterprise.Shared.Json.{Json, Fields, obj, str, field, end}
use openclaw_enterprise.Shared.Policy.{PolicyEvaluateRequest, PolicyEvaluateResponse, AuditRecord}
use openclaw_enterprise.Shared.Errors.{
  EnterpriseError, connector_unavailable, Result, ok, throw, ◌>>=◌,
}
use openclaw_enterprise.Policy.Classify.{ClassifyRequest}

pub record Item : Type 0 where
  pub id : String
  pub source : String
  pub source_id : String
  pub title : String
  pub summary : String
  pub classification : DataClassificationLevel
  pub url : String
  pub metadata : Fields
  pub timestamp : String

pub record ConnectorReadResult : Type 0 where
  pub items : List Item
  pub connector_status : ConnectorReadStatus
  pub error_detail : Option String

pub record ConnectorWriteResult : Type 0 where
  pub is_success : Bool
  pub source_id : String
  pub action : String
  pub policy_applied : String
  pub audit_entry_id : String

-- The gateway's methods; of the answer of `policy.classify` the level, which alone is read. The
-- connector's type, tenant and user.
pub record Connector : Type 0 where
  pub policy_evaluate : PolicyEvaluateRequest → Result PolicyEvaluateResponse
  pub policy_classify : ClassifyRequest → Result DataClassificationLevel
  pub audit_log : AuditRecord → Result String
  pub lower : String → String
  pub connector_type : ConnectorType
  pub tenant_id : String
  pub user_id : String

pub record ConnectorState : Type 0 where
  pub disabled : Bool
  pub disable_reason : Option String
  pub log : List AuditRecord
  pub started : ℕ

-- A tool call: its name, its parameters, and the level of its data.
pub record ToolCall : Type 0 where
  pub tool_name : String
  pub params : List (String × Json)
  pub data_classification : DataClassificationLevel

abbrev type_name : ConnectorType → String
type_name gmail = "gmail"
type_name gcal = "gcal"
type_name jira = "jira"
type_name github = "github"
type_name gdrive = "gdrive"

abbrev params_json : List (String × Json) → Fields
params_json [] = end
params_json ((k, v) ∷ params) = field k v (params_json params)

abbrev pub access_request : Connector → ToolCall → PolicyEvaluateRequest
access_request k a = record {
  tenant_id = k.tenant_id;
  user_id = k.user_id;
  action = a.tool_name;
  data_classification = a.data_classification;
  channel = none;
  target_system = some (type_name k.connector_type);
  additional = a.params;
}

-- The call of `audit.log`: its answer, with the state.
abbrev audit : Connector → AuditRecord → ConnectorState → Result String × ConnectorState
audit k entry s = (k.audit_log entry, record s { log = s.log ++ entry ∷ [] })

-- The next step on the value and the state that a step left.
abbrev pub andthen :
    {A B : Type 0}
    → Result A × ConnectorState
    → (A → ConnectorState → Result B × ConnectorState)
    → Result B × ConnectorState
andthen (ok a, s) f = f a s
andthen (throw e, s) f = (throw e, s)

abbrev write_record :
    Connector
    → ToolCall
    → List (String × Json)
    → PolicyEvaluateResponse
    → PolicyResult
    → AuditOutcome
    → AuditRecord
write_record k a details p result outcome = record {
  tenant_id = k.tenant_id;
  user_id = k.user_id;
  action_type = tool_invocation;
  details = ("tool", str a.tool_name) ∷ ("params", obj (params_json a.params)) ∷ details;
  data_accessed = [];
  data_classification = a.data_classification;
  policy_applied = p.policy_applied;
  policy_result = result;
  policy_reason = p.reason;
  outcome = outcome;
}

abbrev write_result :
    ToolCall → PolicyEvaluateResponse → Bool → String → String → ConnectorWriteResult
write_result a p is_success source_id entry_id = record {
  is_success = is_success;
  source_id = source_id;
  action = a.tool_name;
  policy_applied = p.policy_applied;
  audit_entry_id = entry_id;
}

abbrev start : ConnectorState → ConnectorState
start s = record s { started = s.started + 1 }

abbrev wrote :
    Connector
    → ToolCall
    → PolicyEvaluateResponse
    → String
    → ConnectorState
    → Result ConnectorWriteResult × ConnectorState
wrote k a p source_id s =
    andthen (audit k (write_record k a (("sourceId", str source_id) ∷ []) p p.decision success) s)
      (λ entry t. (ok (write_result a p true source_id entry), t))

-- Behind the policy's decision. `perform_write` is the outcome of the remote call.
write_with :
    Connector
    → ToolCall
    → Result String
    → PolicyEvaluateResponse
    → PolicyResult
    → ConnectorState
    → Result ConnectorWriteResult × ConnectorState
write_with k a perform_write p deny s =
    andthen (audit k (write_record k a [] p deny AuditOutcome.denied) s)
      (λ entry t. (ok (write_result a p false "" entry), t))
write_with k a perform_write p allow s = andthen (perform_write, start s) (wrote k a p)
write_with k a perform_write p require_approval s = andthen (perform_write, start s) (wrote k a p)

abbrev unavailable : Connector → ConnectorState → EnterpriseError
unavailable k s =
    connector_unavailable (type_name k.connector_type) (get_or s.disable_reason "Disabled")

-- `ensureNotDisabled`.
abbrev pub ensure_not_disabled : Connector → ConnectorState → Result (Unit {0})
ensure_not_disabled k s = if s.disabled then throw (unavailable k s) else ok tt

-- `executeWrite`.
unfoldable pub execute_write :
    Connector
    → ToolCall
    → Result String
    → ConnectorState
    → Result ConnectorWriteResult × ConnectorState
unfolding write_with
execute_write k a perform_write s =
    andthen (ensure_not_disabled k s, s)
      (λ _ t.
        andthen (k.policy_evaluate (access_request k a), t)
          (λ p u. write_with k a perform_write p p.decision u))
