-- ===== src/AutoResponse/Responder.antt =====
-- plugins/auto-response/src/classifier/classifier.ts and responder/responder.ts: the class of an
-- incoming message and the draft of its answer. The gateway and the two models are parameters; the
-- state is the approval queue's, whose log the audit records go to.
use openclaw_enterprise.Common.{String, [], ◌∷◌, some, none}
use openclaw_enterprise.Common.Text.{template}
use openclaw_enterprise.Shared.Types.{
  MessageClassification, ActionAutonomyLevel, autonomous, notify, approve, block, PolicyResult,
  allow, deny, require_approval, internal, AuditOutcome, success, model_call, tool_invocation,
}
use openclaw_enterprise.Shared.Json.{Json, str}
use openclaw_enterprise.Shared.Policy.{PolicyEvaluateRequest, PolicyEvaluateResponse, AuditRecord}
use openclaw_enterprise.Shared.Errors.{Result, ok, throw}
use openclaw_enterprise.AutoResponse.Queue.{QueueState, AuditLog, noted, classification_name}

pub record IncomingMessageContext : Type 0 where
  pub message_id : String
  pub channel : String
  pub sender : String
  pub subject : String
  pub body : String
  pub tenant_id : String
  pub user_id : String

-- A classification; the confidence is a JSON number, which goes to the audit log only.
pub record ClassificationResult : Type 0 where
  pub classification : MessageClassification
  pub confidence : Json
  pub reasoning : String

-- The gateway's methods, and the two models as functions of the message.
pub record Services : Type 0 where
  pub policy_evaluate : PolicyEvaluateRequest → Result PolicyEvaluateResponse
  pub audit_log : AuditLog
  pub classify_model : IncomingMessageContext → Result ClassificationResult
  pub response_model : IncomingMessageContext → MessageClassification → Result String

-- The next step on the value and the state that a step left.
abbrev pub andthen :
    {A B : Type 0}
    → Result A × QueueState
    → (A → QueueState → Result B × QueueState)
    → Result B × QueueState
andthen (ok a, s) f = f a s
andthen (throw e, s) f = (throw e, s)

abbrev classify_record : IncomingMessageContext → ClassificationResult → AuditRecord
classify_record c r = record {
  tenant_id = c.tenant_id;
  user_id = c.user_id;
  action_type = model_call;
  details =
      ("tool", str "auto-response.classify")
      ∷ ("messageId", str c.message_id)
      ∷ ("channel", str c.channel)
      ∷ ("sender", str c.sender)
      ∷ ("classification", str (classification_name r.classification))
      ∷ ("confidence", r.confidence)
      ∷ [];
  data_accessed = [];
  data_classification = internal;
  policy_applied = "auto-response-classification";
  policy_result = allow;
  policy_reason = "Classification is a read-only operation";
  outcome = success;
}

unfoldable pub classify_at :
    Services
    → IncomingMessageContext
    → Result ClassificationResult
    → QueueState
    → Result ClassificationResult × QueueState
classify_at services c (throw e) s = (throw e, s)
classify_at services c (ok r) s = noted services.audit_log (classify_record c r) r s

-- `MessageClassifier.classify`.
unfoldable pub classify :
    Services → IncomingMessageContext → QueueState → Result ClassificationResult × QueueState
unfolding classify_at
classify services c s = classify_at services c (services.classify_model c) s

-- `mapPolicyDecisionToAutonomy`, on the three decisions.
abbrev pub map_policy_decision_to_autonomy : PolicyResult → ActionAutonomyLevel
map_policy_decision_to_autonomy allow = autonomous
map_policy_decision_to_autonomy require_approval = approve
map_policy_decision_to_autonomy deny = block

pub record GenerateResponseResult : Type 0 where
  pub response_body : String
  pub autonomy_level : ActionAutonomyLevel
  pub policy_applied : String
  pub policy_reason : String

abbrev pub ai_disclosure_label : String
ai_disclosure_label = "Sent by user's OpenClaw assistant"

abbrev pub response_request : IncomingMessageContext → MessageClassification → PolicyEvaluateRequest
response_request c classification = record {
  tenant_id = c.tenant_id;
  user_id = c.user_id;
  action = "auto-response.send";
  data_classification = internal;
  channel = some c.channel;
  target_system = none;
  additional =
      ("classification", str (classification_name classification))
      ∷ ("sender", str c.sender)
      ∷ ("messageId", str c.message_id)
      ∷ [];
}

abbrev autonomy_name : ActionAutonomyLevel → String
autonomy_name autonomous = "autonomous"
autonomy_name notify = "notify"
autonomy_name approve = "approve"
autonomy_name block = "block"

abbrev outcome_of : ActionAutonomyLevel → AuditOutcome
outcome_of block = AuditOutcome.denied
outcome_of _ = success

abbrev generate_record :
    IncomingMessageContext → MessageClassification → PolicyEvaluateResponse → AuditRecord
generate_record c classification p =
    let level = map_policy_decision_to_autonomy p.decision in
    record {
      tenant_id = c.tenant_id;
      user_id = c.user_id;
      action_type = tool_invocation;
      details =
          ("tool", str "auto-response.generate")
          ∷ ("messageId", str c.message_id)
          ∷ ("channel", str c.channel)
          ∷ ("classification", str (classification_name classification))
          ∷ ("autonomyLevel", str (autonomy_name level))
          ∷ [];
      data_accessed = [];
      data_classification = internal;
      policy_applied = p.policy_applied;
      policy_result = p.decision;
      policy_reason = p.reason;
      outcome = outcome_of level;
    }

-- The body behind the model's, with the label.
abbrev pub disclosed : String → String
disclosed body = template (body ∷ "\n\n---\n" ∷ ai_disclosure_label ∷ [])

unfoldable pub generate_with :
    Services
    → IncomingMessageContext
    → MessageClassification
    → PolicyEvaluateResponse
    → Result String
    → QueueState
    → Result GenerateResponseResult × QueueState
generate_with services c classification p (throw e) s = (throw e, s)
generate_with services c classification p (ok body) s =
    noted services.audit_log (generate_record c classification p)
      (record {
        response_body = disclosed body;
        autonomy_level = map_policy_decision_to_autonomy p.decision;
        policy_applied = p.policy_applied;
        policy_reason = p.reason;
      })
      s

unfoldable pub generate_at :
    Services
    → IncomingMessageContext
    → MessageClassification
    → Result PolicyEvaluateResponse
    → QueueState
    → Result GenerateResponseResult × QueueState
unfolding generate_with
generate_at services c classification (throw e) s = (throw e, s)
generate_at services c classification (ok p) s =
    generate_with services c classification p (services.response_model c classification) s

-- `ResponseGenerator.generate`.
unfoldable pub generate :
    Services
    → IncomingMessageContext
    → MessageClassification
    → QueueState
    → Result GenerateResponseResult × QueueState
unfolding generate_at
generate services c classification s =
    generate_at services c classification
      (services.policy_evaluate (response_request c classification)) s
