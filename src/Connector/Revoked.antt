-- ===== src/Connector/Revoked.antt =====
-- What a connector does once its access is revoked, and the level of what it reads.
use openclaw_enterprise.Common.{String, List, [], ◌∷◌, true, false, ◌≡◌, ◌≢◌, refl, ◌∙◌, ap}
use openclaw_enterprise.Shared.Types.{PolicyResult, allow, deny, require_approval}
use openclaw_enterprise.Shared.Json.{Json}
use openclaw_enterprise.Shared.Policy.{PolicyEvaluateResponse}
use openclaw_enterprise.Shared.Errors.{EnterpriseError, Result, ok, throw}
use openclaw_enterprise.Connector.{
  ConnectorReadResult, Connector, ConnectorState, ToolCall, access_request, ensure_not_disabled,
  unavailable, execute_write,
}
use openclaw_enterprise.Connector.Read.{is_oauth_revocation_error, read_with, execute_read}
use openclaw_enterprise.Connector.Access.{read_call}

-- A call of the connector, with what the remote service would answer.
pub data Operation : Type 0 where
  reading :
      (tool_name : String) (params : List (String × Json)) (fetched : Result ConnectorReadResult)
      → Operation
  writing : (call : ToolCall) (perform_write : Result String) → Operation

-- The state behind a sequence of calls.
unfoldable pub run : Connector → ConnectorState → List Operation → ConnectorState
run k s [] = s
run k s (reading tool_name params fetched ∷ operations) =
    run k (execute_read k tool_name params fetched s).1 operations
run k s (writing call perform_write ∷ operations) =
    run k (execute_write k call perform_write s).1 operations

module _ (k : Connector) where
  execute_read-disabled :
      (tool_name : String) (params : List (String × Json)) (fetched : Result ConnectorReadResult)
      (s : ConnectorState)
      → s.disabled ≡ true
      → (execute_read k tool_name params fetched s).1 ≡ s
  unfolding execute_read
  execute_read-disabled tool_name params fetched s off =
      let blocked : ensure_not_disabled k s ≡ throw (unavailable k s) = rw off refl in
      rw blocked refl

  execute_write-disabled :
      (call : ToolCall) (perform_write : Result String) (s : ConnectorState)
      → s.disabled ≡ true
      → (execute_write k call perform_write s).1 ≡ s
  unfolding execute_write
  execute_write-disabled call perform_write s off =
      let blocked : ensure_not_disabled k s ≡ throw (unavailable k s) = rw off refl in
      rw blocked refl

  run-disabled :
      (s : ConnectorState) (operations : List Operation)
      → s.disabled ≡ true
      → run k s operations ≡ s
  unfolding run
  run-disabled s [] off = refl
  run-disabled s (reading tool_name params fetched ∷ operations) off =
      ap (λ t. run k t operations) (execute_read-disabled tool_name params fetched s off)
      ∙ run-disabled s operations off
  run-disabled s (writing call perform_write ∷ operations) off =
      ap (λ t. run k t operations) (execute_write-disabled call perform_write s off)
      ∙ run-disabled s operations off

  read_with-revoked :
      (a : ToolCall) (error : EnterpriseError) (p : PolicyEvaluateResponse) (d : PolicyResult)
      (s : ConnectorState)
      → d ≢ deny
      → is_oauth_revocation_error k error ≡ true
      → (read_with k a (throw error) p d s).1.disabled ≡ true
  unfolding read_with
  read_with-revoked a error p deny s permitted revoked = absurd (permitted refl)
  read_with-revoked a error p allow s permitted revoked = rw revoked refl
  read_with-revoked a error p require_approval s permitted revoked = rw revoked refl

  -- Where the remote service answers a permitted read of an enabled connector with an error of
  -- revoked access, any sequence of later calls leaves the state as it is: no remote call is
  -- started, nothing is logged, and the connector stays disabled.
  pub run-revoked :
      (tool_name : String) (params : List (String × Json)) (error : EnterpriseError)
      (p : PolicyEvaluateResponse) (s : ConnectorState) (operations : List Operation)
      → s.disabled ≡ false
      → k.policy_evaluate (access_request k (read_call k tool_name params)) ≡ ok p
      → p.decision ≢ deny
      → is_oauth_revocation_error k error ≡ true
      → let after = (execute_read k tool_name params (throw error) s).1 in
        (after.disabled ≡ true) × (run k after operations ≡ after)
  unfolding execute_read
  run-revoked tool_name params error p s operations on answered_ permitted revoked =
      (off, run-disabled (execute_read k tool_name params (throw error) s).1 operations off)
    where
      off : (execute_read k tool_name params (throw error) s).1.disabled ≡ true
      off =
          let enabled : ensure_not_disabled k s ≡ ok tt = rw on refl in
          rw enabled (
            rw answered_ (
              read_with-revoked (read_call k tool_name params) error p p.decision s permitted
                revoked))
