-- ===== src/Connector/Logged.antt =====
-- The level under which a connector logs what it read.
use openclaw_enterprise.Common.{
  ◌+◌, ◌≤◌, String, List, [], ◌∷◌, ◌++◌, false, ◌≡◌, ◌≢◌, refl, arith, All,
}
use openclaw_enterprise.Shared.Types.{
  DataClassificationLevel, public, PolicyResult, allow, deny, require_approval,
}
use openclaw_enterprise.Shared.Levels.{classification_index}
use openclaw_enterprise.Shared.Json.{Json}
use openclaw_enterprise.Shared.Policy.{PolicyEvaluateResponse, AuditRecord}
use openclaw_enterprise.Shared.Errors.{ok}
use openclaw_enterprise.Connector.{
  Item, ConnectorReadResult, Connector, ConnectorState, ToolCall, access_request,
  ensure_not_disabled,
}
use openclaw_enterprise.Connector.Read.{
  classify_items, highest_from, higher_level, read_record, read_with, execute_read,
}
use openclaw_enterprise.Connector.Access.{read_call}

highest_from-bound :
    (highest : DataClassificationLevel) (items : List Item)
    → (classification_index highest ≤ classification_index (highest_from highest items))
      × All
          (λ item.
            classification_index item.classification
            ≤ classification_index (highest_from highest items))
          items
unfolding highest_from
highest_from-bound highest [] = (omega arith, tt)
highest_from-bound highest (item ∷ items) =
    let (above, all) = highest_from-bound (higher_level highest item.classification) items in
    (ground arith, (ground arith, all))

module _ (k : Connector) where
  read_with-logged :
      (a : ToolCall) (extracted : ConnectorReadResult) (p : PolicyEvaluateResponse)
      (d : PolicyResult) (items : List Item) (id : String) (s : ConnectorState)
      → d ≢ deny
      → classify_items k extracted.items ≡ ok items
      → k.audit_log (read_record k a p items) ≡ ok id
      → read_with k a (ok extracted) p d s ≡ (
        ok (record extracted { items = items }),
        record s { log = s.log ++ read_record k a p items ∷ []; started = s.started + 1 },
      )
  unfolding read_with
  read_with-logged a extracted p deny items id s permitted classified audited =
      absurd (permitted refl)
  read_with-logged a extracted p allow items id s permitted classified audited =
      rw classified (rw audited refl)
  read_with-logged a extracted p require_approval items id s permitted classified audited =
      rw classified (rw audited refl)

  -- Where a permitted read gets items that the policy engine classifies, and the audit log takes
  -- the record, the read returns the classified items and has logged one record, whose
  -- classification is at or above that of every item.
  pub execute_read-logged :
      (tool_name : String) (params : List (String × Json)) (extracted : ConnectorReadResult)
      (p : PolicyEvaluateResponse) (items : List Item) (id : String) (s : ConnectorState)
      → s.disabled ≡ false
      → k.policy_evaluate (access_request k (read_call k tool_name params)) ≡ ok p
      → p.decision ≢ deny
      → classify_items k extracted.items ≡ ok items
      → k.audit_log (read_record k (read_call k tool_name params) p items) ≡ ok id
      → (entry : AuditRecord) × (execute_read k tool_name params (ok extracted) s ≡ (
        ok (record extracted { items = items }),
        record s { log = s.log ++ entry ∷ []; started = s.started + 1 },
      ))
        × All
            (λ item.
              classification_index item.classification
              ≤ classification_index entry.data_classification)
            items
  unfolding execute_read
  execute_read-logged tool_name params extracted p items id s on answered_ permitted classified
        audited =
      let a = read_call k tool_name params in
      let enabled : ensure_not_disabled k s ≡ ok tt = rw on refl in
      (
        read_record k a p items,
        rw enabled (
            rw answered_
              (read_with-logged a extracted p p.decision items id s permitted classified audited)),
        (highest_from-bound public items).1,
      )
