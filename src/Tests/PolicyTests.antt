-- ===== src/Tests/PolicyTests.antt =====
-- The policy engine's theorems on small policies and requests.
use openclaw_enterprise.Common.{
  ℕ, ◌≡◌, ◌↔◌, refl, String, [], ◌∷◌, Bool, true, false, some, none, All, lookup,
}
use openclaw_enterprise.Shared.Types.{
  PolicyScope, enterprise, org, team, user, models, Policy, active, internal, confidential, gmail,
  PolicyResult, DataClassificationLevel, restricted,
}
use openclaw_enterprise.Shared.Errors.{Result, ok}
use openclaw_enterprise.Shared.Policy.{PolicyEvaluateResponse, Constraints}
use openclaw_enterprise.Policy.Merge.{PolicyValue, num, str, arr, PolicyRecord, merge_restrictive}
use openclaw_enterprise.Policy.Merge.Laws.{Within, merge_restrictive-is_meet}
use openclaw_enterprise.Policy.Content.{parse_policy_content}
use openclaw_enterprise.Policy.Resolver.{
  ScopeChain, FetchPolicy, ResolvedPolicy, scope_policy, resolve,
}
use openclaw_enterprise.Policy.Resolver.Ceiling.{Bounds, contents, resolve-ceiling}
use openclaw_enterprise.Policy.Validator.{
  FindActive, accepted, validate, validate_against, record_errors, field_errors,
}
use openclaw_enterprise.Policy.Validator.Laws.{
  AllPermitted, validate-valid_iff, validate-merge_restrictive,
}
use openclaw_enterprise.Policy.Evaluate.{
  Fetch, OpaEvaluateResult, answered, ToolExecutionContext, tool_request, resolve_policy_path,
  before_tool_execute, before_tool_execute-ok_iff,
}
use openclaw_enterprise.Policy.ModelRouter.{ModelResolveContext}
use openclaw_enterprise.Policy.Classify.{ClassifyRequest, classify, IsRaised, classify-IsRaised}

abbrev policy_of : PolicyScope → String → Policy
policy_of scope content = record {
  id = content;
  scope = scope;
  scope_id = "s";
  domain = models;
  content = content;
  status = active;
}

abbrev chain : ScopeChain
chain = record { enterprise_id = "e"; org_id = some "o"; team_id = none; user_id = some "u" }

abbrev fetch : FetchPolicy
fetch enterprise id domain = ok (some (policy_of enterprise "max: 10"))
fetch org id domain = ok (some (policy_of org "max: 20"))
fetch team id domain = ok none
fetch user id domain = ok (some (policy_of user "max: 5\nnote: x"))

resolve-ceiling_example :
    (r : ResolvedPolicy) × (m : PolicyValue) × (resolve models chain fetch ≡ ok r)
    × (lookup "max" r.effective_policy ≡ some m)
    × Within (num 10) m
    × All
        (λ c. Bounds (lookup "max" c) m)
        (contents
          (some (policy_of org "max: 20") ∷ none ∷ some (policy_of user "max: 5\nnote: x") ∷ []))
unfolding scope_policy parse_policy_content lookup
resolve-ceiling_example =
    resolve-ceiling models chain fetch (policy_of enterprise "max: 10")
      (some (policy_of org "max: 20")) none (some (policy_of user "max: 5\nnote: x")) "max" (num 10)
      refl refl refl refl refl tt (tt, (tt, tt))

abbrev ceiling : PolicyRecord
ceiling = ("max", num 10) ∷ ("tools", arr ("a" ∷ "b" ∷ [])) ∷ []

abbrev below : PolicyRecord
below = ("max", num 20) ∷ ("tools", arr ("b" ∷ "c" ∷ [])) ∷ ("note", str "x") ∷ []

merge_restrictive-is_meet_example :
    (m : PolicyValue) × (lookup "tools" (merge_restrictive ceiling below) ≡ some m)
    × Within (arr ("a" ∷ "b" ∷ [])) m
    × Within (arr ("b" ∷ "c" ∷ [])) m
    × ((u : PolicyValue)
        → Within (arr ("a" ∷ "b" ∷ [])) u
        → Within (arr ("b" ∷ "c" ∷ [])) u
        → Within m u)
unfolding lookup
merge_restrictive-is_meet_example =
    merge_restrictive-is_meet ceiling below "tools" (arr ("a" ∷ "b" ∷ [])) (arr ("b" ∷ "c" ∷ []))
      (refl, (refl, (refl, tt))) refl refl tt

abbrev lifted : PolicyRecord
lifted = ("max", str "unlimited") ∷ []

abbrev find : FindActive
find scope = ok ("max: 10" ∷ [])

validate-valid_iff_example :
    (validate org "o" "max: 5" find ≡ ok accepted)
    ↔ AllPermitted (parse_policy_content "max: 10") (parse_policy_content "max: 5")
validate-valid_iff_example =
    validate-valid_iff org enterprise "o" "max: 5" find "max: 10" [] refl refl

validate-merge_restrictive_example :
    lookup "max"
      (merge_restrictive (parse_policy_content "max: 10") (parse_policy_content "max: 5"))
    ≡ some (num 5)
unfolding validate validate_against record_errors field_errors parse_policy_content lookup
validate-merge_restrictive_example =
    validate-merge_restrictive org enterprise "o" "max: 5" find "max: 10" [] "max" (num 5) refl refl
      refl refl

abbrev unconstrained : Constraints
unconstrained = record {
  max_classification = none;
  allowed_transitions = none;
  disclosure_required = none;
}

abbrev opa : Bool → Fetch
opa allowed path request = answered (
    some (record {
      allowed = allowed;
      approval_required = false;
      reason = "r";
      constraints = unconstrained;
    }))

abbrev send_mail : ToolExecutionContext
send_mail = record {
  tool_name = "email_send";
  tenant_id = "t";
  user_id = "u";
  data_classification = internal;
  channel = none;
  target_system = none;
  params = [];
}

before_tool_execute-ok_iff_example : (before_tool_execute (opa true) send_mail ≡ ok tt) ↔ (
    (result : OpaEvaluateResult) × (opa true
        (resolve_policy_path "email_send")
        (tool_request send_mail)
      ≡ answered (some result))
    × (result.approval_required ≡ false)
    × (result.allowed ≡ true))
before_tool_execute-ok_iff_example = before_tool_execute-ok_iff (opa true) send_mail

abbrev same : String → String
same s = s

abbrev model_call : ModelResolveContext
model_call = record {
  tenant_id = "t";
  user_id = "u";
  data_classification = confidential;
  requested_model = "gpt-4";
  self_hosted_models = "llama" ∷ [];
  additional = [];
}

abbrev answer : PolicyResult → PolicyEvaluateResponse
answer decision = record {
  decision = decision;
  policy_applied = "openclaw/enterprise/models";
  reason = "r";
  constraints = unconstrained;
}

abbrev mail : ClassifyRequest
mail = record { connector_type = gmail; content_summary = "salaries"; source_id = "m" }

abbrev ai : String → Result (DataClassificationLevel × ℕ)
ai summary = ok (restricted, 1)

classify-IsRaised_example : IsRaised 1 (some ai) mail internal (classify 1 (some ai) mail)
classify-IsRaised_example = classify-IsRaised 1 (some ai) mail

abbrev text : String
text = "max: 10\nmax: 20\n- a"
