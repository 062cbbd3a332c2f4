-- ===== src/Tests/ConnectorTests.antt =====
-- The theorems on connectors, on one read and one write.
use openclaw_enterprise.Common.{
  ◌≡◌, ◌↔◌, ◌+◌, ◌≤◌, refl, List, [], ◌∷◌, ◌++◌, true, false, none, All,
}
use openclaw_enterprise.Shared.Types.{ConnectorReadStatus, gmail, internal, confidential, allow}
use openclaw_enterprise.Shared.Levels.{classification_index}
use openclaw_enterprise.Shared.Json.{end}
use openclaw_enterprise.Shared.Policy.{PolicyEvaluateResponse, AuditRecord}
use openclaw_enterprise.Shared.Errors.{EnterpriseError, plain, ok, throw}
use openclaw_enterprise.Common.Text.{has_part}
use openclaw_enterprise.Shared.Messages.{message}
use openclaw_enterprise.Connector.{
  Item, ConnectorReadResult, Connector, ConnectorState, ToolCall, execute_write,
}
use openclaw_enterprise.Connector.Read.{execute_read, classify_items}
use openclaw_enterprise.Connector.Access.{IsPermitted, execute_write-started_iff}
use openclaw_enterprise.Connector.Revoked.{Operation, reading, writing, run, run-revoked}
use openclaw_enterprise.Connector.Logged.{execute_read-logged}

abbrev allowed : PolicyEvaluateResponse
allowed = record {
  decision = allow;
  policy_applied = "p";
  reason = "r";
  constraints = record {
    max_classification = none;
    allowed_transitions = none;
    disclosure_required = none;
  };
}

abbrev mail : Connector
mail = record {
  policy_evaluate = λ request. ok allowed;
  policy_classify = λ request. ok confidential;
  audit_log = λ entry. ok "id";
  lower = λ s. s;
  connector_type = gmail;
  tenant_id = "t";
  user_id = "u";
}

abbrev enabled : ConnectorState
enabled = record { disabled = false; disable_reason = none; log = []; started = 0 }

abbrev send_mail : ToolCall
send_mail = record { tool_name = "email_send"; params = []; data_classification = internal }

execute_write-started_iff_example :
    ((execute_write mail send_mail (ok "m") enabled).1.started ≡ enabled.started + 1)
    ↔ IsPermitted mail send_mail enabled
execute_write-started_iff_example = execute_write-started_iff mail send_mail (ok "m") enabled

abbrev one_mail : Item
one_mail = record {
  id = "1";
  source = "gmail";
  source_id = "1";
  title = "a";
  summary = "b";
  classification = internal;
  url = "c";
  metadata = end;
  timestamp = "d";
}

abbrev one_read : ConnectorReadResult
one_read = record {
  items = one_mail ∷ [];
  connector_status = ConnectorReadStatus.ok;
  error_detail = none;
}

abbrev later : List Operation
later = reading "email_read" [] (ok one_read) ∷ writing send_mail (ok "m") ∷ []

abbrev revoked : EnterpriseError
revoked = plain "invalid_grant"

run-revoked_example :
    ((execute_read mail "email_read" [] (throw revoked) enabled).1.disabled ≡ true)
    × (run mail (execute_read mail "email_read" [] (throw revoked) enabled).1 later
        ≡ (execute_read mail "email_read" [] (throw revoked) enabled).1)
unfolding message has_part
run-revoked_example =
    run-revoked mail "email_read" [] revoked allowed enabled later refl refl (λ e. cc e) refl

abbrev classified_mail : List Item
classified_mail = record one_mail { classification = confidential } ∷ []

execute_read-logged_example :
    (entry : AuditRecord) × (execute_read mail "email_read" [] (ok one_read) enabled ≡ (
      ok (record one_read { items = classified_mail }),
      record enabled { log = [] ++ entry ∷ []; started = 0 + 1 },
    ))
    × All
        (λ item.
          classification_index item.classification ≤ classification_index entry.data_classification)
        classified_mail
unfolding classify_items
execute_read-logged_example =
    execute_read-logged mail "email_read" [] one_read allowed classified_mail "id" enabled refl refl
      (λ e. cc e) refl refl
