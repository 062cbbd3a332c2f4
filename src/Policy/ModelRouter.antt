-- ===== src/Policy/ModelRouter.antt =====
-- plugins/policy-engine/src/evaluator/model-router.ts: which model a call goes to. `lower` is
-- `String.prototype.toLowerCase` of the runtime, whose tables are Unicode's.
use openclaw_enterprise.Common.{
  String, List, [], ◌∷◌, insert, Bool, true, false, ◌&&◌, Option, some, none, if◌then◌else◌, any,
  ltb, ◌≡◌, refl, arith,
}
use openclaw_enterprise.Common.Text.{template, starts_with}
use openclaw_enterprise.Shared.Types.{
  DataClassificationLevel, confidential, restricted, PolicyResult, deny,
}
use openclaw_enterprise.Shared.Levels.{classification_index, level_name}
use openclaw_enterprise.Shared.Json.{Json, bool}
use openclaw_enterprise.Shared.Policy.{PolicyEvaluateRequest, PolicyEvaluateResponse}
use openclaw_enterprise.Shared.Errors.{Result, ok, ◌>>=◌}
use openclaw_enterprise.Policy.Evaluate.{Fetch, evaluate}

pub record ModelResolveContext : Type 0 where
  pub tenant_id : String
  pub user_id : String
  pub data_classification : DataClassificationLevel
  pub requested_model : String
  pub self_hosted_models : List String
  pub additional : List (String × Json)

pub record ModelRouteResult : Type 0 where
  pub resolved_model : String
  pub rerouted : Bool
  pub reason : String
  pub policy_applied : String

-- `EXTERNAL_BLOCKED_LEVELS.has(level)`.
abbrev pub is_blocked_level : DataClassificationLevel → Bool
is_blocked_level confidential = true
is_blocked_level restricted = true
is_blocked_level _ = false

abbrev pub external_model_prefixes : List String
external_model_prefixes = "gpt-" ∷ "claude-" ∷ "gemini-" ∷ "openai/" ∷ "anthropic/" ∷ "google/" ∷ []

abbrev pub default_self_hosted_model : String
default_self_hosted_model = "local-llm-default"

unfoldable pub is_external_model : (String → String) → String → Bool
is_external_model lower model_id =
    let lowered = lower model_id in
    any (λ prefix. starts_with lowered prefix) external_model_prefixes

-- The model to fall back to.
abbrev pub self_hosted : List String → String
self_hosted [] = default_self_hosted_model
self_hosted (model ∷ models) = model

abbrev pub is_deny : PolicyResult → Bool
is_deny deny = true
is_deny _ = false

-- `requestedIdx > maxIdx`, where the policy names a maximum.
abbrev pub exceeds_max : Option DataClassificationLevel → DataClassificationLevel → Bool
exceeds_max none level = false
exceeds_max (some most) level = ltb (classification_index most) (classification_index level)

abbrev max_name : Option DataClassificationLevel → String
max_name none = ""
max_name (some most) = level_name most

abbrev pub route_request : (String → String) → ModelResolveContext → PolicyEvaluateRequest
route_request lower context = record {
  tenant_id = context.tenant_id;
  user_id = context.user_id;
  action = "model_call";
  data_classification = context.data_classification;
  channel = none;
  target_system = some context.requested_model;
  additional =
      insert "is_external" (bool (is_external_model lower context.requested_model))
        context.additional;
}

abbrev pub keep : ModelResolveContext → PolicyEvaluateResponse → String → ModelRouteResult
keep context policy reason = record {
  resolved_model = context.requested_model;
  rerouted = false;
  reason = reason;
  policy_applied = policy.policy_applied;
}

abbrev pub reroute : ModelResolveContext → PolicyEvaluateResponse → String → ModelRouteResult
reroute context policy reason = record {
  resolved_model = self_hosted context.self_hosted_models;
  rerouted = true;
  reason = reason;
  policy_applied = policy.policy_applied;
}

-- The part of `route` behind the policy's answer.
unfoldable pub route_with :
    (String → String) → ModelResolveContext → PolicyEvaluateResponse → ModelRouteResult
route_with lower context policy =
    let external = is_external_model lower context.requested_model in
    let fallback = self_hosted context.self_hosted_models in
    if is_deny policy.decision
    then keep context policy (template ("Model call denied by policy: " ∷ policy.reason ∷ []))
    else if external && is_blocked_level context.data_classification
    then reroute context policy (
        template (
          "External model \""
          ∷ context.requested_model
          ∷ "\" blocked for "
          ∷ level_name context.data_classification
          ∷ " data. Rerouted to self-hosted model \""
          ∷ fallback
          ∷ "\"."
          ∷ []))
    else if external
        && exceeds_max policy.constraints.max_classification context.data_classification
    then reroute context policy (
        template (
          "Data classification \""
          ∷ level_name context.data_classification
          ∷ "\" exceeds max allowed \""
          ∷ max_name policy.constraints.max_classification
          ∷ "\" for external models. Rerouted to \""
          ∷ fallback
          ∷ "\"."
          ∷ []))
    else keep context policy "Model allowed by policy"

-- `ModelRouter.route`; the hook writes the fields of the result into its context.
unfoldable pub route : (String → String) → Fetch → ModelResolveContext → Result ModelRouteResult
route lower fetch context =
    evaluate fetch (route_request lower context) >>= λ policy. ok (route_with lower context policy)

-- A model call that the policy denies is not blocked: `route` answers with the model that was
-- requested, external or not and whatever the data, and reports that nothing was rerouted.
pub route-denied :
    (lower : String → String) (fetch : Fetch) (context : ModelResolveContext)
    (policy : PolicyEvaluateResponse)
    → evaluate fetch (route_request lower context) ≡ ok policy
    → policy.decision ≡ deny
    → (r : ModelRouteResult) × (route lower fetch context ≡ ok r)
      × (r.resolved_model ≡ context.requested_model)
      × (r.rerouted ≡ false)
unfolding route route_with
route-denied lower fetch context policy answered_ denied =
    (route_with lower context policy, rw answered_ refl, ground arith, ground arith)
