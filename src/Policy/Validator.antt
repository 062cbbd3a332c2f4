-- ===== src/Policy/Validator.antt =====
-- plugins/policy-engine/src/hierarchy/validator.ts: a policy against the ceiling of its parent scope.
pub mod Laws
use openclaw_enterprise.Common.{
  ℕ, String, List, [], ◌∷◌, ◌++◌, Bool, true, false, not, ◌&&◌, Option, none, some, select,
  includes, lookup, if◌then◌else◌, ltb,
}
use openclaw_enterprise.Common.Text.{template, join, decimal}
use openclaw_enterprise.Shared.Types.{PolicyScope, enterprise, org, team, user}
use openclaw_enterprise.Shared.Levels.{index_of, classification_levels}
use openclaw_enterprise.Shared.Errors.{Result, ok, ◌>>=◌}
use openclaw_enterprise.Policy.Merge.{PolicyValue, bool, num, str, arr, PolicyRecord}
use openclaw_enterprise.Policy.Content.{parse_policy_content}

pub record ValidationResult : Type 0 where
  pub valid : Bool
  pub errors : List String

-- `PolicyLookup.findByFilter({ scope, status: 'active' })`: the contents that the store returns.
abbrev pub FindActive : Type 0
FindActive = PolicyScope → Result (List String)

abbrev scope_name : PolicyScope → String
scope_name enterprise = "enterprise"
scope_name org = "org"
scope_name team = "team"
scope_name user = "user"

-- `POLICY_SCOPE_HIERARCHY[scopeIdx - 1]`; no parent for the first.
abbrev pub parent_scope : PolicyScope → Option PolicyScope
parent_scope enterprise = none
parent_scope org = some enterprise
parent_scope team = some org
parent_scope user = some team

-- `${xs}` of an error that is raised only where the test holds.
abbrev when : Bool → String → List String
when true message = message ∷ []
when false message = []

abbrev is_nil : List String → Bool
is_nil [] = true
is_nil (x ∷ xs) = false

-- `childIdx > parentIdx` for two texts that are both levels.
abbrev pub exceeds : Option ℕ → Option ℕ → Bool
exceeds (some parent) (some child) = ltb parent child
exceeds _ _ = false

-- The body of the loop for a key that both hold: the errors that it pushes.
unfoldable pub field_errors :
    PolicyScope → PolicyScope → String → PolicyValue → PolicyValue → List String
field_errors scope parent key (arr p) (arr c) =
    let extra = select (λ v. not (includes p v)) c in
    when (not (is_nil extra)) (
      template (
        "Field \""
        ∷ key
        ∷ "\": values ["
        ∷ join ", " extra
        ∷ "] expand beyond "
        ∷ scope_name parent
        ∷ " scope. Allowed: ["
        ∷ join ", " p
        ∷ "]"
        ∷ []))
field_errors scope parent key (bool p) (bool c) = when (not p && c) (
    template (
      "Field \""
      ∷ key
      ∷ "\": cannot enable at "
      ∷ scope_name scope
      ∷ " scope when disabled at "
      ∷ scope_name parent
      ∷ " scope"
      ∷ []))
field_errors scope parent key (num p) (num c) = when (ltb p c) (
    template (
      "Field \""
      ∷ key
      ∷ "\": value "
      ∷ decimal c
      ∷ " exceeds "
      ∷ scope_name parent
      ∷ " limit of "
      ∷ decimal p
      ∷ []))
field_errors scope parent key (str p) (str c) =
    when (exceeds (index_of p classification_levels) (index_of c classification_levels)) (
      template (
        "Field \""
        ∷ key
        ∷ "\": classification \""
        ∷ c
        ∷ "\" is less restrictive than "
        ∷ scope_name parent
        ∷ " level \""
        ∷ p
        ∷ "\""
        ∷ []))
field_errors scope parent key _ _ = []

abbrev entry_errors :
    PolicyScope → PolicyScope → String → Option PolicyValue → PolicyValue → List String
entry_errors scope parent key none child = []
entry_errors scope parent key (some p) child = field_errors scope parent key p child

unfoldable pub record_errors : PolicyScope → PolicyScope → PolicyRecord → PolicyRecord → List String
record_errors scope parent held [] = []
record_errors scope parent held ((key, child) ∷ entries) =
    entry_errors scope parent key (lookup key held) child ++ record_errors scope parent held entries

abbrev pub accepted : ValidationResult
accepted = record { valid = true; errors = [] }

-- Against the first policy that the store returned.
unfoldable pub validate_against :
    PolicyScope → PolicyScope → String → List String → ValidationResult
validate_against scope parent content [] = accepted
validate_against scope parent content (held ∷ _) =
    let errors =
      record_errors scope parent (parse_policy_content held) (parse_policy_content content) in
    record { valid = is_nil errors; errors = errors }

abbrev validate_below :
    PolicyScope → Option PolicyScope → String → FindActive → Result ValidationResult
validate_below scope none content find = ok accepted
validate_below scope (some parent) content find =
    find parent >>= λ held. ok (validate_against scope parent content held)

-- `scopeId` is not read.
unfoldable pub validate : PolicyScope → String → String → FindActive → Result ValidationResult
validate scope scope_id content find = validate_below scope (parent_scope scope) content find
