-- ===== src/Shared/Errors.antt =====
-- plugins/shared/src/errors.ts: what the code throws, and computations that may throw.
use openclaw_enterprise.Common.{String, ℤ, ◌≡◌, refl}

-- One constructor for each error class, with the fields that its constructor takes; `plain` is
-- `new Error(message)`.
pub data EnterpriseError : Type 0 where
  plain : (message : String) → EnterpriseError
  policy_engine_unreachable : (detail : String) → EnterpriseError
  policy_denied : (action policy_applied reason : String) → EnterpriseError
  policy_approval_required : (action policy_applied reason : String) → EnterpriseError
  policy_hierarchy_violation : (child_scope parent_scope detail : String) → EnterpriseError
  classification_violation :
      (data_classification allowed_maximum context : String) → EnterpriseError
  connector_unavailable : (connector_type detail : String) → EnterpriseError
  oauth_revocation : (connector_type : String) → EnterpriseError
  exchange_round_limit : (exchange_id : String) (max_rounds : ℤ) → EnterpriseError
  commitment_requires_human : (exchange_id : String) → EnterpriseError
  cross_enterprise_blocked : (source_tenant_id target_tenant_id : String) → EnterpriseError
  audit_write : (detail : String) → EnterpriseError

pub data Result {ℓ} (A : Type ℓ) : Type ℓ where
  ok : A → Result A
  throw : EnterpriseError → Result A

module _ {ℓ κ} {A : Type ℓ} {B : Type κ} where
  infixl 5 ◌>>=◌
  -- `await` of what may throw, and the rest of the function.
  abbrev pub ◌>>=◌ : Result A → (A → Result B) → Result B
  ok value >>= rest = rest value
  throw error >>= rest = throw error

  -- Where the whole succeeds, its first part did, and the rest did on that part's value.
  pub >>=-ok :
      (first : Result A) (rest : A → Result B) {result : B}
      → (first >>= rest) ≡ ok result
      → (value : A) × (first ≡ ok value) × (rest value ≡ ok result)
  >>=-ok (throw error) rest h = cc
  >>=-ok (ok value) rest h = (value, refl, h)
