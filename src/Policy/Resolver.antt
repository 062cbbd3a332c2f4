-- ===== src/Policy/Resolver.antt =====
-- plugins/policy-engine/src/hierarchy/resolver.ts and resolve-method.ts: the effective policy of a
-- chain of scopes. The store of policies and the lookup of a user's scopes are parameters.
pub mod Ceiling
use openclaw_enterprise.Common.{String, List, [], ◌∷◌, ◌++◌, Option, none, some, if◌then◌else◌}
use openclaw_enterprise.Common.Text.{is_empty}
use openclaw_enterprise.Shared.Types.{
  PolicyScope, enterprise, org, team, user, PolicyDomain, Policy, PolicyStatus, active,
}
use openclaw_enterprise.Shared.Errors.{Result, ok, ◌>>=◌}
use openclaw_enterprise.Policy.Merge.{PolicyRecord, merge_restrictive}
use openclaw_enterprise.Policy.Content.{parse_policy_content}

pub record ScopeChain : Type 0 where
  pub enterprise_id : String
  pub org_id : Option String
  pub team_id : Option String
  pub user_id : Option String

pub record HierarchyEntry : Type 0 where
  pub scope : PolicyScope
  pub policy_id : Option String

pub record ResolvedPolicy : Type 0 where
  pub effective_policy : PolicyRecord
  pub hierarchy : List HierarchyEntry

-- `POLICY_SCOPE_HIERARCHY`.
abbrev pub policy_scope_hierarchy : List PolicyScope
policy_scope_hierarchy = enterprise ∷ org ∷ team ∷ user ∷ []

-- `scopeChain[scope]`.
abbrev pub scope_entry : ScopeChain → PolicyScope → Option String
scope_entry chain enterprise = some chain.enterprise_id
scope_entry chain org = chain.org_id
scope_entry chain team = chain.team_id
scope_entry chain user = chain.user_id

-- `if (!policy || policy.status !== 'active')`.
abbrev pub when_status : PolicyStatus → Policy → Option Policy
when_status active policy = some policy
when_status _ policy = none

abbrev pub when_active : Option Policy → Option Policy
when_active none = none
when_active (some policy) = when_status policy.status policy

-- The store; a failed fetch throws.
abbrev pub FetchPolicy : Type 0
FetchPolicy = PolicyScope → String → PolicyDomain → Result (Option Policy)

abbrev fetch_active :
    FetchPolicy → PolicyDomain → PolicyScope → Option String → Result (Option Policy)
fetch_active fetch domain scope none = ok none
fetch_active fetch domain scope (some id) =
    if is_empty id then ok none else (fetch scope id domain >>= λ p. ok (when_active p))

-- The active policy of one scope of the chain.
unfoldable pub scope_policy :
    FetchPolicy → PolicyDomain → ScopeChain → PolicyScope → Result (Option Policy)
scope_policy fetch domain chain scope = fetch_active fetch domain scope (scope_entry chain scope)

-- Enterprise is the base; a lower scope is merged into it.
abbrev pub combine : PolicyScope → PolicyRecord → PolicyRecord → PolicyRecord
combine enterprise effective parsed = parsed
combine _ effective parsed = merge_restrictive effective parsed

-- The part of a round behind the fetch.
unfoldable pub apply_policy : PolicyScope → Option Policy → ResolvedPolicy → ResolvedPolicy
apply_policy scope none r = record r {
  hierarchy = r.hierarchy ++ record { scope = scope; policy_id = none } ∷ [];
}
apply_policy scope (some policy) r = record {
  effective_policy = combine scope r.effective_policy (parse_policy_content policy.content);
  hierarchy = r.hierarchy ++ record { scope = scope; policy_id = some policy.id } ∷ [];
}

resolve_scopes :
    FetchPolicy
    → PolicyDomain
    → ScopeChain
    → ResolvedPolicy
    → List PolicyScope
    → Result ResolvedPolicy
resolve_scopes fetch domain chain r [] = ok r
resolve_scopes fetch domain chain r (scope ∷ scopes) =
    scope_policy fetch domain chain scope >>= λ p.
    resolve_scopes fetch domain chain (apply_policy scope p r) scopes

unfoldable pub resolve : PolicyDomain → ScopeChain → FetchPolicy → Result ResolvedPolicy
unfolding resolve_scopes
resolve domain chain fetch =
    resolve_scopes fetch domain chain (record { effective_policy = []; hierarchy = [] })
      policy_scope_hierarchy

-- `PolicyResolveMethod.handle`.
unfoldable pub handle_resolve :
    FetchPolicy
    → (String → String → Result ScopeChain)
    → String
    → String
    → PolicyDomain
    → Result ResolvedPolicy
unfolding resolve
handle_resolve fetch lookup_scope_chain tenant_id user_id domain =
    lookup_scope_chain tenant_id user_id >>= λ chain. resolve domain chain fetch
