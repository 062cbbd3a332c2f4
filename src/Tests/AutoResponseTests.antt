-- ===== src/Tests/AutoResponseTests.antt =====
-- The theorems on automatic answers, on one message and one entry of the queue.
use openclaw_enterprise.Common.{◌≡◌, ◌≤◌, refl, String, List, [], ◌∷◌, some, none, lookup, ℕ}
use openclaw_enterprise.Shared.Types.{noise, allow, deny, autonomous, PolicyResult}
use openclaw_enterprise.Shared.Json.{null}
use openclaw_enterprise.Shared.Policy.{PolicyEvaluateResponse}
use openclaw_enterprise.Shared.Errors.{ok}
use openclaw_enterprise.AutoResponse.Queue.{NewResponse, QueueState, AuditLog, new_queue, enqueue}
use openclaw_enterprise.AutoResponse.Queue.Once.{
  Call, enqueuing, approving, rejecting, count_decided, count_decided-new_queue,
}
use openclaw_enterprise.AutoResponse.Responder.{
  IncomingMessageContext, ClassificationResult, Services, classify, classify_at, generate,
  generate_at, generate_with, disclosed,
}
use openclaw_enterprise.AutoResponse.Message.{
  AutoResponseResult, sent, default_scope_config, resolve_autonomy_level, process_message,
}
use openclaw_enterprise.AutoResponse.Message.Sent.{
  IsCleared, process_message-IsCleared, process_message-noise,
}

abbrev audit_log : AuditLog
audit_log entry = ok "id"

abbrev response : NewResponse
response = record {
  message_id = "m";
  channel = "email";
  sender = "x@example.com";
  subject = "s";
  original_body = "b";
  response_body = "r";
  classification = noise;
  policy_applied = "p";
  tenant_id = "t";
  user_id = "u";
}

abbrev calls : List Call
calls =
    enqueuing "now" response ∷ approving "approval-1" "t" "u" ∷ rejecting "approval-1" "t" "u" ∷ []

count_decided-new_queue_example : count_decided audit_log "approval-1" new_queue calls ≤ 1
count_decided-new_queue_example = count_decided-new_queue audit_log calls "approval-1"

abbrev time : String → ℕ
time s = 0

abbrev one_pending : QueueState
one_pending = (enqueue audit_log "now" response new_queue).1

abbrev message : IncomingMessageContext
message = record {
  message_id = "m";
  channel = "email";
  sender = "x@example.com";
  subject = "s";
  body = "b";
  tenant_id = "t";
  user_id = "u";
}

abbrev decided : PolicyResult → PolicyEvaluateResponse
decided decision = record {
  decision = decision;
  policy_applied = "p";
  reason = "r";
  constraints = record {
    max_classification = none;
    allowed_transitions = none;
    disclosure_required = none;
  };
}

abbrev classified : ClassificationResult
classified = record { classification = noise; confidence = null; reasoning = "bulk" }

abbrev services : PolicyResult → Services
services decision = record {
  policy_evaluate = λ request. ok (decided decision);
  audit_log = audit_log;
  classify_model = λ c. ok classified;
  response_model = λ c k. ok "hi";
}

abbrev answer_sent : AutoResponseResult
answer_sent = record {
  message_id = "m";
  classification = noise;
  autonomy_level = autonomous;
  action = sent;
  response_body = some (disclosed "hi");
  queue_entry_id = none;
}

abbrev state_sent : QueueState
state_sent = (process_message (services allow) default_scope_config "now" message new_queue).1

process_message-IsCleared_example :
    IsCleared (services allow) message default_scope_config answer_sent
unfolding process_message classify classify_at generate generate_at generate_with
    resolve_autonomy_level lookup
process_message-IsCleared_example =
    process_message-IsCleared (services allow) message default_scope_config "now" answer_sent
      new_queue state_sent refl refl

process_message-noise_example :
    (result : AutoResponseResult) × ((process_message
        (services deny)
        default_scope_config
        "now"
        message
        new_queue).0
      ≡ ok result)
    × (result.action ≡ sent)
    × (result.response_body ≡ some (disclosed "hi"))
process_message-noise_example =
    process_message-noise (services deny) message "now" new_queue classified (decided deny) "hi"
      (λ entry. "id") (λ entry. refl) refl refl refl refl refl
