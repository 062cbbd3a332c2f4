-- ===== src/Policy/Evaluate.antt =====
-- plugins/policy-engine/src/evaluator/opa-client.ts, evaluator/evaluate.ts and hooks.ts: from the
-- answer of the OPA sidecar to the permission to run a tool. The HTTP call is a parameter.
use openclaw_enterprise.Common.{
  String, List, [], ◌∷◌, Bool, true, false, ◌||◌, Option, some, none, if◌then◌else◌, any, ◌≡◌, ◌↔◌,
  refl, arith,
}
use openclaw_enterprise.Common.Text.{template, starts_with, has_part}
use openclaw_enterprise.Shared.Types.{
  PolicyResult, allow, deny, require_approval, DataClassificationLevel,
}
use openclaw_enterprise.Shared.Json.{Json}
use openclaw_enterprise.Shared.Policy.{PolicyEvaluateRequest, PolicyEvaluateResponse, Constraints}
use openclaw_enterprise.Shared.Errors.{
  policy_engine_unreachable, policy_denied, policy_approval_required, Result, ok, throw, ◌>>=◌,
}

-- The answer of OPA, at the type that the source casts it to.
pub record OpaEvaluateResult : Type 0 where
  pub allowed : Bool
  pub approval_required : Bool
  pub reason : String
  pub constraints : Constraints

-- How the request ends: `fetch` or `json` throws, OPA answers with an error status, or with a body
-- that may hold a result.
pub data FetchOutcome : Type 0 where
  failed : (message : String) → FetchOutcome
  bad_status : (status : String) → FetchOutcome
  answered : Option OpaEvaluateResult → FetchOutcome

-- The call of OPA: the policy path and the input.
abbrev pub Fetch : Type 0
Fetch = String → PolicyEvaluateRequest → FetchOutcome

abbrev no_policy : OpaEvaluateResult
no_policy = record {
  allowed = false;
  approval_required = false;
  reason = "No matching policy found. Default: deny.";
  constraints = record {
    max_classification = none;
    allowed_transitions = none;
    disclosure_required = none;
  };
}

abbrev opa_result : FetchOutcome → Result OpaEvaluateResult
opa_result (failed message) = throw (policy_engine_unreachable message)
opa_result (bad_status status) =
    throw (policy_engine_unreachable (template ("OPA returned status " ∷ status ∷ [])))
opa_result (answered none) = ok no_policy
opa_result (answered (some result)) = ok result

-- `OpaClient.evaluate`. The input is the request under other field names.
unfoldable pub opa_evaluate : Fetch → String → PolicyEvaluateRequest → Result OpaEvaluateResult
opa_evaluate fetch policy_path input = opa_result (fetch policy_path input)

-- `DOMAIN_POLICY_PATHS`, in the order of its entries.
abbrev pub domain_policy_paths : List (String × String)
domain_policy_paths =
    ("tool_invocation", "openclaw/enterprise/actions")
    ∷ ("model_call", "openclaw/enterprise/models")
    ∷ ("connector_access", "openclaw/enterprise/integrations")
    ∷ ("agent_exchange", "openclaw/enterprise/agent_exchange")
    ∷ ("feature_access", "openclaw/enterprise/features")
    ∷ ("data_access", "openclaw/enterprise/data")
    ∷ []

abbrev find_path : String → List (String × String) → Option String
find_path action [] = none
find_path action ((prefix, path) ∷ paths) =
    if starts_with action prefix || has_part action prefix
    then some path
    else find_path action paths

abbrev connector_prefixes : List String
connector_prefixes = "email_" ∷ "calendar_" ∷ "jira_" ∷ "github_" ∷ "gdrive_" ∷ []

abbrev default_path : String → Option String → String
default_path action (some path) = path
default_path action none =
    if any (λ p. starts_with action p) connector_prefixes
    then "openclaw/enterprise/integrations"
    else "openclaw/enterprise/actions"

unfoldable pub resolve_policy_path : String → String
resolve_policy_path action = default_path action (find_path action domain_policy_paths)

abbrev pub decision_of : OpaEvaluateResult → PolicyResult
decision_of result =
    if result.approval_required then require_approval else if result.allowed then allow else deny

abbrev response_of : String → OpaEvaluateResult → PolicyEvaluateResponse
response_of path result = record {
  decision = decision_of result;
  policy_applied = path;
  reason = result.reason;
  constraints = result.constraints;
}

-- `PolicyEvaluator.evaluate`.
unfoldable pub evaluate : Fetch → PolicyEvaluateRequest → Result PolicyEvaluateResponse
evaluate fetch params =
    let path = resolve_policy_path params.action in
    opa_evaluate fetch path params >>= λ result. ok (response_of path result)

pub record ToolExecutionContext : Type 0 where
  pub tool_name : String
  pub tenant_id : String
  pub user_id : String
  pub data_classification : DataClassificationLevel
  pub channel : Option String
  pub target_system : Option String
  pub params : List (String × Json)

abbrev pub tool_request : ToolExecutionContext → PolicyEvaluateRequest
tool_request c = record {
  tenant_id = c.tenant_id;
  user_id = c.user_id;
  action = c.tool_name;
  data_classification = c.data_classification;
  channel = c.channel;
  target_system = c.target_system;
  additional = c.params;
}

abbrev permit : String → PolicyResult → PolicyEvaluateResponse → Result (Unit {0})
permit tool_name deny r = throw (policy_denied tool_name r.policy_applied r.reason)
permit tool_name require_approval r =
    throw (policy_approval_required tool_name r.policy_applied r.reason)
permit tool_name allow r = ok tt

-- `PolicyEnforcementHook.beforeToolExecute`: `ok` lets the tool run.
unfoldable pub before_tool_execute : Fetch → ToolExecutionContext → Result (Unit {0})
before_tool_execute fetch context =
    evaluate fetch (tool_request context) >>= λ r. permit context.tool_name r.decision r

run_tool : FetchOutcome → String → String → Result (Unit {0})
run_tool outcome path tool_name =
    ((opa_result outcome >>= λ result. ok (response_of path result)) >>= λ r.
    permit tool_name r.decision r)

run_tool-ok_iff :
    (outcome : FetchOutcome) (path tool_name : String)
    → (run_tool outcome path tool_name ≡ ok tt) ↔ (
        (result : OpaEvaluateResult) × (outcome ≡ answered (some result))
        × (result.approval_required ≡ false)
        × (result.allowed ≡ true))
unfolding run_tool
run_tool-ok_iff (failed message) path tool_name = ((λ h. cc), (λ h. cc (h.1)))
run_tool-ok_iff (bad_status status) path tool_name = ((λ h. cc), (λ h. cc (h.1)))
run_tool-ok_iff (answered none) path tool_name = ((λ h. cc), (λ h. cc (h.1)))
run_tool-ok_iff (answered (some result)) path tool_name =
    ((λ h. (result, refl, ground arith, ground arith)), (λ h. ground (arith, h.1, h.2, h.3)))

-- A tool may run exactly when OPA answers with a result that allows the tool and asks for no
-- approval. A failed call, an error status and an answer without a result all keep it from running.
pub before_tool_execute-ok_iff :
    (fetch : Fetch) (context : ToolExecutionContext)
    → (before_tool_execute fetch context ≡ ok tt) ↔ (
        (result : OpaEvaluateResult) × (fetch
            (resolve_policy_path context.tool_name)
            (tool_request context)
          ≡ answered (some result))
        × (result.approval_required ≡ false)
        × (result.allowed ≡ true))
unfolding before_tool_execute evaluate opa_evaluate run_tool
before_tool_execute-ok_iff fetch context =
    let path = resolve_policy_path context.tool_name in
    run_tool-ok_iff (fetch path (tool_request context)) path context.tool_name
