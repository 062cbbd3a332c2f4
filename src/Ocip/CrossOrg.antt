-- ===== src/Ocip/CrossOrg.antt =====
-- plugins/ocip-protocol/src/classification/cross-org.ts: exchanges between organisational units.
-- The gateway's `policy.evaluate` is a parameter.
use openclaw_enterprise.Common.{
  String, [], ◌∷◌, Bool, true, false, not, ◌&&◌, none, if◌then◌else◌, str_eq, eq_iff, ◌≡◌, ◌≢◌, ◌⊎◌,
  inl, inr, Bool-cases, refl, arith,
}
use openclaw_enterprise.Shared.Types.{internal, PolicyResult, allow}
use openclaw_enterprise.Shared.Json.{str}
use openclaw_enterprise.Shared.Policy.{PolicyEvaluateRequest, PolicyEvaluateResponse}
use openclaw_enterprise.Shared.Errors.{cross_enterprise_blocked, Result, ok, throw, ◌>>=◌}

pub record AgentOrgInfo : Type 0 where
  pub tenant_id : String
  pub org_unit : String

pub record CrossOrgCheckResult : Type 0 where
  pub allowed : Bool
  pub reason : String
  pub policy_applied : String

abbrev pub PolicyEvaluate : Type 0
PolicyEvaluate = PolicyEvaluateRequest → Result PolicyEvaluateResponse

abbrev pub is_allow : PolicyResult → Bool
is_allow allow = true
is_allow _ = false

unfoldable pub cross_org_request : AgentOrgInfo → AgentOrgInfo → String → PolicyEvaluateRequest
cross_org_request source target user_id = record {
  tenant_id = source.tenant_id;
  user_id = user_id;
  action = "agent_exchange_cross_org";
  data_classification = internal;
  channel = none;
  target_system = none;
  additional = ("sourceOrgUnit", str source.org_unit) ∷ ("targetOrgUnit", str target.org_unit) ∷ [];
}

abbrev checked : PolicyEvaluateResponse → Result CrossOrgCheckResult
checked r =
    ok (record {
      allowed = is_allow r.decision;
      reason = r.reason;
      policy_applied = r.policy_applied;
    })

unfoldable pub enforce :
    PolicyEvaluate → AgentOrgInfo → AgentOrgInfo → String → Result CrossOrgCheckResult
enforce policy_evaluate source target user_id =
    if not (str_eq source.tenant_id target.tenant_id)
    then throw (cross_enterprise_blocked source.tenant_id target.tenant_id)
    else if str_eq source.org_unit target.org_unit
    then ok (record {
      allowed = true;
      reason = "Same org unit — no cross-org restrictions apply";
      policy_applied = "none";
    })
    else (policy_evaluate (cross_org_request source target user_id) >>= checked)

-- `CrossOrgPolicyChecker.isSameTenant` and `isSameOrgUnit`.
abbrev pub is_same_tenant : AgentOrgInfo → AgentOrgInfo → Bool
is_same_tenant source target = str_eq source.tenant_id target.tenant_id

abbrev pub is_same_org_unit : AgentOrgInfo → AgentOrgInfo → Bool
is_same_org_unit source target =
    str_eq source.tenant_id target.tenant_id && str_eq source.org_unit target.org_unit

-- Between two tenants every exchange is blocked, whatever the policy engine would say.
pub enforce-cross_tenant :
    (policy_evaluate : PolicyEvaluate) (source target : AgentOrgInfo) (user_id : String)
    → source.tenant_id ≢ target.tenant_id
    → enforce policy_evaluate source target user_id
      ≡ throw (cross_enterprise_blocked source.tenant_id target.tenant_id)
unfolding enforce
enforce-cross_tenant policy_evaluate source target user_id h =
    ground (arith, eq_iff source.tenant_id target.tenant_id)

allowed_response :
    (x : Result PolicyEvaluateResponse) (r : CrossOrgCheckResult)
    → (x >>= checked) ≡ ok r
    → r.allowed ≡ true
    → (response : PolicyEvaluateResponse) × (x ≡ ok response) × (response.decision ≡ allow)
allowed_response (ok response) r h a = (response, refl, ground arith)
allowed_response (throw e) r h a = cc

-- What an allowed exchange has established.
pub enforce-allowed :
    (policy_evaluate : PolicyEvaluate) (source target : AgentOrgInfo) (user_id : String)
    (r : CrossOrgCheckResult)
    → enforce policy_evaluate source target user_id ≡ ok r
    → r.allowed ≡ true
    → (source.tenant_id ≡ target.tenant_id)
      × ((source.org_unit ≡ target.org_unit)
          ⊎ ((response : PolicyEvaluateResponse) × (policy_evaluate
                  (cross_org_request source target user_id)
                ≡ ok response)
              × (response.decision ≡ allow)))
unfolding enforce
enforce-allowed policy_evaluate source target user_id r h a =
    elim (Bool-cases (str_eq source.tenant_id target.tenant_id)) [
      | inl same ↦ (
        (eq_iff _ _).0 same,
        elim (Bool-cases (str_eq source.org_unit target.org_unit)) [
          | inl unit ↦ inl ((eq_iff _ _).0 unit)
          | inr other ↦ inr (
              allowed_response (policy_evaluate (cross_org_request source target user_id)) r
                (rw other at (rw same at h)) a)
        ],
      )
      | inr other ↦ absurd (ground arith)
    ]
