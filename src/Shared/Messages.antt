-- ===== src/Shared/Messages.antt =====
-- plugins/shared/src/errors.ts: the message of each error.
use openclaw_enterprise.Common.{String, [], ◌∷◌, if◌then◌else◌}
use openclaw_enterprise.Common.Text.{template, is_empty, decimal_ℤ}
use openclaw_enterprise.Shared.Errors.{
  EnterpriseError, plain, policy_engine_unreachable, policy_denied, policy_approval_required,
  policy_hierarchy_violation, classification_violation, connector_unavailable, oauth_revocation,
  exchange_round_limit, commitment_requires_human, cross_enterprise_blocked, audit_write,
}

unfoldable pub message : EnterpriseError → String
message (plain text) = text
message (policy_engine_unreachable detail) = template (
    "Policy engine is unreachable. All actions denied (fail-closed)."
    ∷ (if is_empty detail then "" else template (" " ∷ detail ∷ []))
    ∷ [])
message (policy_denied action policy_applied reason) =
    template ("Action \"" ∷ action ∷ "\" denied by policy " ∷ policy_applied ∷ ": " ∷ reason ∷ [])
message (policy_approval_required action policy_applied reason) = template (
    "Action \"" ∷ action ∷ "\" requires approval per policy " ∷ policy_applied ∷ ": " ∷ reason ∷ [])
message (policy_hierarchy_violation child_scope parent_scope detail) = template (
    "Policy at scope \"" ∷ child_scope ∷ "\" cannot expand beyond parent scope \"" ∷ parent_scope
    ∷ "\": " ∷ detail ∷ [])
message (classification_violation data_classification allowed_maximum context) = template (
    "Data classified as \"" ∷ data_classification ∷ "\" exceeds allowed maximum \""
    ∷ allowed_maximum ∷ "\" for " ∷ context ∷ [])
message (connector_unavailable connector_type detail) =
    template ("Connector \"" ∷ connector_type ∷ "\" is unavailable: " ∷ detail ∷ [])
message (oauth_revocation connector_type) =
    template
      ("OAuth access revoked for connector \"" ∷ connector_type ∷ "\". Connector disabled." ∷ [])
message (exchange_round_limit exchange_id max_rounds) = template (
    "Exchange \""
    ∷ exchange_id
    ∷ "\" reached maximum round limit ("
    ∷ decimal_ℤ max_rounds
    ∷ "). Escalating to humans."
    ∷ [])
message (commitment_requires_human exchange_id) =
    template
      ("Exchange \"" ∷ exchange_id ∷ "\" requires a commitment. Human approval is mandatory." ∷ [])
message (cross_enterprise_blocked source_tenant_id target_tenant_id) = template (
    "Cross-enterprise exchanges are blocked. Source: " ∷ source_tenant_id ∷ ", Target: "
    ∷ target_tenant_id ∷ [])
message (audit_write detail) = template ("Failed to write audit entry: " ∷ detail ∷ [])
