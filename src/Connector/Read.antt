-- ===== src/Connector/Read.antt =====
-- plugins/shared/src/connector-base.ts: `executeRead`, with the classification of what is read and
-- the recovery from errors.
use openclaw_enterprise.Common.{
  String, List, [], ◌∷◌, Bool, true, ◌||◌, some, map, ltb, if◌then◌else◌, pos, length,
}
use openclaw_enterprise.Common.Text.{template, has_part}
use openclaw_enterprise.Shared.Types.{
  ConnectorType, ConnectorReadStatus, DataClassificationLevel, public, PolicyResult, allow, deny,
  require_approval, success, data_access,
}
use openclaw_enterprise.Shared.Levels.{classification_index, connector_default_classification}
use openclaw_enterprise.Shared.Json.{Json, obj, str, num}
use openclaw_enterprise.Shared.Policy.{PolicyEvaluateResponse, AuditRecord, DataAccessRecord}
use openclaw_enterprise.Shared.Errors.{EnterpriseError, oauth_revocation, Result, ok, throw, ◌>>=◌}
use openclaw_enterprise.Shared.Messages.{message}
use openclaw_enterprise.Connector.{
  Item, ConnectorReadResult, Connector, ConnectorState, ToolCall, type_name, params_json,
  access_request, audit, andthen, start, ensure_not_disabled,
}

-- The loop that classifies each item.
unfoldable pub classify_items : Connector → List Item → Result (List Item)
classify_items k [] = ok []
classify_items k (item ∷ items) = do
  level ← k.policy_classify (record {
    connector_type = k.connector_type;
    content_summary = item.summary;
    source_id = item.source_id;
  })
  classified ← classify_items k items
  ok (record item { classification = level } ∷ classified)

abbrev pub higher_level :
    DataClassificationLevel → DataClassificationLevel → DataClassificationLevel
higher_level highest level =
    if ltb (classification_index highest) (classification_index level) then level else highest

unfoldable pub highest_from : DataClassificationLevel → List Item → DataClassificationLevel
highest_from highest [] = highest
highest_from highest (item ∷ items) = highest_from (higher_level highest item.classification) items

-- `getHighestClassification`.
abbrev pub get_highest_classification : List Item → DataClassificationLevel
get_highest_classification items = highest_from public items

abbrev item_access : ConnectorType → Item → DataAccessRecord
item_access t item = record {
  source = template (type_name t ∷ ":" ∷ item.source_id ∷ []);
  classification = item.classification;
  purpose = "connector_read";
}

abbrev pub read_record : Connector → ToolCall → PolicyEvaluateResponse → List Item → AuditRecord
read_record k a p items = record {
  tenant_id = k.tenant_id;
  user_id = k.user_id;
  action_type = data_access;
  details =
      ("tool", str a.tool_name)
      ∷ ("params", obj (params_json a.params))
      ∷ ("itemCount", num (pos (length items)))
      ∷ [];
  data_accessed = map (item_access k.connector_type) items;
  data_classification = get_highest_classification items;
  policy_applied = p.policy_applied;
  policy_result = p.decision;
  policy_reason = p.reason;
  outcome = success;
}

-- What the `try` block does with what the remote call and `extract` gave.
abbrev pub read_items :
    Connector
    → ToolCall
    → PolicyEvaluateResponse
    → ConnectorReadResult
    → ConnectorState
    → Result ConnectorReadResult × ConnectorState
read_items k a p extracted s =
    andthen (classify_items k extracted.items, s)
      (λ items t.
        andthen (audit k (read_record k a p items) t)
          (λ entry u. (ok (record extracted { items = items }), u)))

-- `isOAuthRevocationError` and `isApiUnavailableError`.
abbrev pub is_oauth_revocation_error : Connector → EnterpriseError → Bool
is_oauth_revocation_error k error =
    let msg = k.lower (message error) in
    has_part msg "invalid_grant" || has_part msg "token revoked" || has_part msg "401"

abbrev is_api_unavailable_error : Connector → EnterpriseError → Bool
is_api_unavailable_error k error =
    let msg = k.lower (message error) in
    has_part msg "503" || has_part msg "econnrefused" || has_part msg "timeout"

abbrev failed_read : String → ConnectorReadResult
failed_read detail = record {
  items = [];
  connector_status = ConnectorReadStatus.error;
  error_detail = some detail;
}

-- The `catch` block.
abbrev pub recover :
    Connector
    → Result ConnectorReadResult × ConnectorState
    → Result ConnectorReadResult × ConnectorState
recover k (ok r, s) = (ok r, s)
recover k (throw error, s) =
    if is_oauth_revocation_error k error
    then (
      throw (oauth_revocation (type_name k.connector_type)),
      record s { disabled = true; disable_reason = some "OAuth access revoked" },
    )
    else if is_api_unavailable_error k error
    then (ok (failed_read (template (type_name k.connector_type ∷ " API unavailable" ∷ []))), s)
    else (throw error, s)

-- Behind the policy's decision. `fetched` is the outcome of the remote call and of `extract`.
unfoldable pub read_with :
    Connector
    → ToolCall
    → Result ConnectorReadResult
    → PolicyEvaluateResponse
    → PolicyResult
    → ConnectorState
    → Result ConnectorReadResult × ConnectorState
read_with k a fetched p deny s =
    (ok (failed_read (template ("Denied by policy: " ∷ p.reason ∷ []))), s)
read_with k a fetched p allow s = recover k (andthen (fetched, start s) (read_items k a p))
read_with k a fetched p require_approval s =
    recover k (andthen (fetched, start s) (read_items k a p))

-- `executeRead`, whose level is the connector's default.
unfoldable pub execute_read :
    Connector
    → String
    → List (String × Json)
    → Result ConnectorReadResult
    → ConnectorState
    → Result ConnectorReadResult × ConnectorState
unfolding read_with
execute_read k tool_name params fetched s =
    let a : ToolCall = record {
      tool_name = tool_name;
      params = params;
      data_classification = connector_default_classification k.connector_type;
    } in
    andthen (ensure_not_disabled k s, s)
      (λ _ t.
        andthen (k.policy_evaluate (access_request k a), t)
          (λ p u. read_with k a fetched p p.decision u))
