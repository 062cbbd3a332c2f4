-- ===== src/Connector/Access.antt =====
-- When a connector calls its remote service, and what it logs of a read.
use openclaw_enterprise.Common.{
  ◌+◌, String, List, false, ◌≡◌, ◌≢◌, ◌↔◌, ◌⊎◌, refl, sym, ◌∙◌, ap, arith, Bool-cases, inl, inr,
}
use openclaw_enterprise.Shared.Types.{PolicyResult, allow, deny, require_approval}
use openclaw_enterprise.Shared.Levels.{connector_default_classification}
use openclaw_enterprise.Shared.Json.{Json}
use openclaw_enterprise.Shared.Policy.{PolicyEvaluateResponse}
use openclaw_enterprise.Shared.Errors.{Result, ok, throw}
use openclaw_enterprise.Connector.{
  ConnectorReadResult, Connector, ConnectorState, ToolCall, access_request, andthen, wrote,
  write_with, ensure_not_disabled, execute_write, start,
}
use openclaw_enterprise.Connector.Read.{
  classify_items, read_items, recover, read_with, execute_read,
}

module _ (k : Connector) where
  -- The computation starts no remote call.
  abbrev Idle : {A : Type 0} → (ConnectorState → Result A × ConnectorState) → Type 0
  Idle m = (s : ConnectorState) → (m s).1.started ≡ s.started

  andthen-started :
      {A B : Type 0} (x : Result A) (s : ConnectorState)
      (f : A → ConnectorState → Result B × ConnectorState)
      → ((a : A) → Idle (f a))
      → (andthen (x, s) f).1.started ≡ s.started
  andthen-started (ok a) s f idle = idle a s
  andthen-started (throw e) s f idle = refl

  -- A remote call is started behind every decision but `deny`.
  write_with-started :
      (a : ToolCall) (w : Result String) (p : PolicyEvaluateResponse) (d : PolicyResult)
      (s : ConnectorState)
      → ((d ≢ deny) → (write_with k a w p d s).1.started ≡ s.started + 1)
        × ((d ≡ deny) → (write_with k a w p d s).1.started ≡ s.started)
  unfolding write_with
  write_with-started a w p deny s = (
    (λ h. absurd (h refl)),
    (λ h. andthen-started {A = String} (k.audit_log _) _ _ (λ entry t. refl)),
  )
  write_with-started a w p allow s = (
    (λ h.
        andthen-started w (start s) (wrote k a p)
          (λ id t. andthen-started {A = String} (k.audit_log _) _ _ (λ entry u. refl))),
    (λ h. cc),
  )
  write_with-started a w p require_approval s = (
    (λ h.
        andthen-started w (start s) (wrote k a p)
          (λ id t. andthen-started {A = String} (k.audit_log _) _ _ (λ entry u. refl))),
    (λ h. cc),
  )

  -- The connector is enabled, and the policy engine answers the call with another decision than
  -- `deny`.
  abbrev pub IsPermitted : ToolCall → ConnectorState → Type 0
  IsPermitted a s =
      (s.disabled ≡ false)
      × ((p : PolicyEvaluateResponse) × (k.policy_evaluate (access_request k a) ≡ ok p)
          × (p.decision ≢ deny))

  deny-cases : (d : PolicyResult) → (d ≡ deny) ⊎ (d ≢ deny)
  deny-cases deny = inl refl
  deny-cases allow = inr (λ h. cc)
  deny-cases require_approval = inr (λ h. cc)

  -- A step behind the two checks that starts a call exactly where the decision is not `deny`.
  guarded-started_iff :
      {A : Type 0} (a : ToolCall)
      (f : PolicyEvaluateResponse → ConnectorState → Result A × ConnectorState) (s : ConnectorState)
      → ((p : PolicyEvaluateResponse)
          → ((p.decision ≢ deny) → (f p s).1.started ≡ s.started + 1)
            × ((p.decision ≡ deny) → (f p s).1.started ≡ s.started))
      → ((andthen
            (ensure_not_disabled k s, s)
            (λ _ t. andthen (k.policy_evaluate (access_request k a), t) f)).1.started
          ≡ s.started + 1)
        ↔ IsPermitted a s
  guarded-started_iff {A} a f s step = elim (Bool-cases s.disabled) [
    | inl off ↦ rw off ((λ h. absurd (omega arith)), (λ h. cc (h.0)))
    | inr on ↦
        let enabled : ensure_not_disabled k s ≡ ok tt = rw on refl in
        rw enabled (by_policy on (k.policy_evaluate (access_request k a)))
  ]
    where
      by_policy :
          s.disabled ≡ false
          → (x : Result PolicyEvaluateResponse)
          → ((andthen (x, s) f).1.started ≡ s.started + 1) ↔ (
              (s.disabled ≡ false)
              × ((p : PolicyEvaluateResponse) × (x ≡ ok p) × (p.decision ≢ deny)))
      by_policy on (throw e) = ((λ h. absurd (omega arith)), (λ h. cc (h.1.1)))
      by_policy on (ok p) =
          let (runs, stays) = step p in
          (
            (λ h. elim (deny-cases p.decision) [
              | inl denied ↦ absurd (omega (arith, h, stays denied))
              | inr permitted ↦ (on, (p, refl, permitted))
            ]),
            (λ h.
                let (_, (q, same, permitted)) = h in
                let is : p ≡ q = cc same in
                runs (λ denied. permitted (ap (λ r. r.decision) (sym is) ∙ denied))),
          )

  -- A write starts the remote call exactly when the connector is enabled and the policy engine
  -- answers with another decision than `deny`: also where it answers `require_approval`.
  pub execute_write-started_iff :
      (a : ToolCall) (perform_write : Result String) (s : ConnectorState)
      → ((execute_write k a perform_write s).1.started ≡ s.started + 1) ↔ IsPermitted a s
  unfolding execute_write
  execute_write-started_iff a perform_write s =
      guarded-started_iff a (λ p u. write_with k a perform_write p p.decision u) s
        (λ p. write_with-started a perform_write p p.decision s)

  recover-started :
      (x : Result ConnectorReadResult) (s : ConnectorState)
      → (recover k (x, s)).1.started ≡ s.started
  recover-started (ok r) s = refl
  recover-started (throw error) s = ground arith

  read_items-Idle :
      (a : ToolCall) (p : PolicyEvaluateResponse) (r : ConnectorReadResult)
      → Idle (read_items k a p r)
  read_items-Idle a p r s =
      andthen-started (classify_items k r.items) s _
        (λ items t. andthen-started {A = String} (k.audit_log _) _ _ (λ entry u. refl))

  read_with-started :
      (a : ToolCall) (x : Result ConnectorReadResult) (p : PolicyEvaluateResponse)
      (d : PolicyResult) (s : ConnectorState)
      → ((d ≢ deny) → (read_with k a x p d s).1.started ≡ s.started + 1)
        × ((d ≡ deny) → (read_with k a x p d s).1.started ≡ s.started)
  unfolding read_with
  read_with-started a x p deny s = ((λ h. absurd (h refl)), (λ h. refl))
  read_with-started a x p allow s = (
    (λ h.
        let r = andthen (x, start s) (read_items k a p) in
        recover-started r.0 r.1
        ∙ andthen-started x (start s) (read_items k a p) (read_items-Idle a p)),
    (λ h. cc),
  )
  read_with-started a x p require_approval s = (
    (λ h.
        let r = andthen (x, start s) (read_items k a p) in
        recover-started r.0 r.1
        ∙ andthen-started x (start s) (read_items k a p) (read_items-Idle a p)),
    (λ h. cc),
  )

  abbrev pub read_call : String → List (String × Json) → ToolCall
  read_call tool_name params = record {
    tool_name = tool_name;
    params = params;
    data_classification = connector_default_classification k.connector_type;
  }

  -- A read starts the remote call exactly when the connector is enabled and the policy engine
  -- answers with another decision than `deny`, on the connector's default classification.
  pub execute_read-started_iff :
      (tool_name : String) (params : List (String × Json)) (fetched : Result ConnectorReadResult)
      (s : ConnectorState)
      → ((execute_read k tool_name params fetched s).1.started ≡ s.started + 1)
        ↔ IsPermitted (read_call tool_name params) s
  unfolding execute_read
  execute_read-started_iff tool_name params fetched s =
      let a = read_call tool_name params in
      guarded-started_iff a (λ p u. read_with k a fetched p p.decision u) s
        (λ p. read_with-started a fetched p p.decision s)
