-- ===== src/Policy/Validator/Laws.antt =====
-- When the validator accepts a policy, and how this agrees with the restrictive merge.
use openclaw_enterprise.Common.{
  ◌≡◌, ◌↔◌, refl, ap, String, List, [], ◌∷◌, ◌++◌, true, false, not, Option, none, some, select,
  includes, lookup, arith, eq_iff, eq_refl, str_eq, HasUniqueKeys, Option-cases, Bool-cases, inl,
  inr,
}
use mathlib.Core.Path.{subst₂}
use openclaw_enterprise.Shared.Types.{PolicyScope}
use openclaw_enterprise.Shared.Levels.{index_of, classification_levels}
use openclaw_enterprise.Shared.Errors.{ok}
use openclaw_enterprise.Policy.Merge.{
  PolicyValue, bool, num, str, arr, PolicyRecord, merge_value, merge_restrictive,
}
use openclaw_enterprise.Policy.Merge.Laws.{Within, lookup-merge_restrictive}
use openclaw_enterprise.Policy.Content.{parse_policy_content}
use openclaw_enterprise.Policy.Content.Laws.{parse_policy_content-HasUniqueKeys}
use openclaw_enterprise.Policy.Validator.{
  entry_errors, FindActive, parent_scope, is_nil, exceeds, field_errors, record_errors, accepted,
  validate_against, validate,
}

-- What the parent's value under a key allows the child to write there.
abbrev pub Permits : PolicyValue → PolicyValue → Type 0
Permits (str p) (str c) =
    exceeds (index_of p classification_levels) (index_of c classification_levels) ≡ false
Permits (bool p) (bool c) = Within (bool p) (bool c)
Permits (num p) (num c) = Within (num p) (num c)
Permits (arr p) (arr c) = Within (arr p) (arr c)
Permits _ _ = Unit

extra-eq-nil_iff :
    (p c : List String)
    → (select (λ v. not (includes p v)) c ≡ [])
      ↔ ((x : String) → includes c x ≡ true → includes p x ≡ true)
extra-eq-nil_iff p [] = ((λ e x h. cc), (λ h. refl))
extra-eq-nil_iff p (y ∷ c) =
    let (to, from) = extra-eq-nil_iff p c in
    (
      (λ e x h. ground (arith, to (ground arith) x, eq_iff y x)),
      (λ h. ground (arith, h y, eq_refl y, from (λ x i. h x (ground arith)))),
    )

field_errors-eq-nil_iff :
    (scope parent : PolicyScope) (key : String) (p c : PolicyValue)
    → (field_errors scope parent key p c ≡ []) ↔ Permits p c
unfolding field_errors
field_errors-eq-nil_iff scope parent key (str p) (str c) = ground arith
field_errors-eq-nil_iff scope parent key (bool p) (bool c) = ground arith
field_errors-eq-nil_iff scope parent key (num p) (num c) = ground arith
field_errors-eq-nil_iff scope parent key (arr p) (arr c) =
    let (to, from) = extra-eq-nil_iff p c in
    ((λ e. to (ground arith)), (λ h. ground (arith, from h)))
field_errors-eq-nil_iff scope parent key p c = ((λ e. tt), (λ h. refl))

append-eq-nil_iff : (xs ys : List String) → (xs ++ ys ≡ []) ↔ ((xs ≡ []) × (ys ≡ []))
append-eq-nil_iff [] ys = ground arith
append-eq-nil_iff (x ∷ xs) ys = ground arith

-- The parent allows every value of the child under its key.
abbrev pub AllPermitted : PolicyRecord → PolicyRecord → Type 0
AllPermitted held child =
    (k : String) (v w : PolicyValue)
    → lookup k held ≡ some v
    → lookup k child ≡ some w
    → Permits v w

abbrev PermitsAt : Option PolicyValue → PolicyValue → Type 0
PermitsAt none w = Unit
PermitsAt (some v) w = Permits v w

entry_errors-eq-nil_iff :
    (scope parent : PolicyScope) (key : String) (o : Option PolicyValue) (c : PolicyValue)
    → (entry_errors scope parent key o c ≡ []) ↔ PermitsAt o c
entry_errors-eq-nil_iff scope parent key none c = ((λ e. tt), (λ h. refl))
entry_errors-eq-nil_iff scope parent key (some p) c = field_errors-eq-nil_iff scope parent key p c

record_errors_sound :
    (scope parent : PolicyScope) (held child : PolicyRecord)
    → record_errors scope parent held child ≡ []
    → AllPermitted held child
unfolding record_errors lookup
record_errors_sound scope parent held [] e k v w at_held at_child = cc
record_errors_sound scope parent held ((j, c) ∷ child) e k v w at_held at_child =
    let (first, rest) =
      (append-eq-nil_iff (entry_errors scope parent j (lookup j held) c)
          (record_errors scope parent held child)).0
        e in
    let ih = record_errors_sound scope parent held child rest k v w at_held in
    elim (Bool-cases (str_eq j k)) [
      | inl same ↦
          let here = (entry_errors-eq-nil_iff scope parent j (lookup j held) c).0 first in
          let found : lookup j held ≡ some v = rw ((eq_iff j k).0 same) at_held in
          let written : c ≡ w = ground arith in subst₂ PermitsAt found written here
      | inr other ↦ ih (rw other at at_child)
    ]

AllPermitted-tail :
    (held child : PolicyRecord) (j : String) (c : PolicyValue)
    → lookup j child ≡ none
    → AllPermitted held ((j, c) ∷ child)
    → AllPermitted held child
unfolding lookup
AllPermitted-tail held child j c unique all k v w at_held at_child =
    all k v w at_held (ground (arith, eq_iff j k))

PermitsAt-of_AllPermitted :
    (held child : PolicyRecord) (j : String) (c : PolicyValue) (o : Option PolicyValue)
    → lookup j held ≡ o
    → AllPermitted held ((j, c) ∷ child)
    → PermitsAt o c
unfolding lookup
PermitsAt-of_AllPermitted held child j c none e all = tt
PermitsAt-of_AllPermitted held child j c (some v) e all = all j v c e (rw (eq_refl j) refl)

record_errors_complete :
    (scope parent : PolicyScope) (held child : PolicyRecord)
    → HasUniqueKeys child
    → AllPermitted held child
    → record_errors scope parent held child ≡ []
unfolding record_errors
record_errors_complete scope parent held [] u all = refl
record_errors_complete scope parent held ((j, c) ∷ child) (fresh, u) all =
    (append-eq-nil_iff _ _).1 (
      (entry_errors-eq-nil_iff scope parent j (lookup j held) c).1
          (PermitsAt-of_AllPermitted held child j c (lookup j held) refl all),
      record_errors_complete scope parent held child u (AllPermitted-tail held child j c fresh all),
    )

is_nil_iff : (xs : List String) → (is_nil xs ≡ true) ↔ (xs ≡ [])
is_nil_iff [] = ground arith
is_nil_iff (x ∷ xs) = ground arith

-- Below the enterprise scope, where the store returns at least one active policy of the parent
-- scope, `validate` accepts a content exactly when, under every key that the first returned policy
-- and the content both hold, the content's value is no higher a number, no switch turned back on,
-- no list with a new member, and no higher classification level.
pub validate-valid_iff :
    (scope parent : PolicyScope) (scope_id content : String) (find : FindActive) (held : String)
    (others : List String)
    → parent_scope scope ≡ some parent
    → find parent ≡ ok (held ∷ others)
    → (validate scope scope_id content find ≡ ok accepted)
      ↔ AllPermitted (parse_policy_content held) (parse_policy_content content)
unfolding validate validate_against
validate-valid_iff scope parent scope_id content find held others is_parent found =
    let p = parse_policy_content held in
    let c = parse_policy_content content in
    rw (is_parent, found)
      (
        (λ e. record_errors_sound scope parent p c (ground arith)),
        (λ all.
            rw
              (record_errors_complete scope parent p c (parse_policy_content-HasUniqueKeys content)
                all)
              refl),
      )

select_all :
    (p c : List String)
    → ((x : String) → includes c x ≡ true → includes p x ≡ true)
    → select (λ v. includes p v) c ≡ c
select_all p [] h = refl
select_all p (y ∷ c) h =
    rw (h y (ground (arith, eq_refl y)))
      (ap (λ r. y ∷ r) (select_all p c (λ x i. h x (ground arith))))

-- The merge leaves a permitted value as it is written.
merge_value_of_Permits : (v w : PolicyValue) → Permits v w → merge_value v w ≡ w
unfolding merge_value
merge_value_of_Permits (arr p) (arr c) h = ap arr (select_all p c h)
merge_value_of_Permits (bool p) (bool c) h = ground arith
merge_value_of_Permits (num p) (num c) h = ap num (omega arith)
merge_value_of_Permits v w h = refl

-- A content that `validate` accepts against the first active policy of the parent scope is
-- enforced as it is written: merging it into that policy keeps each of its values.
pub validate-merge_restrictive :
    (scope parent : PolicyScope) (scope_id content : String) (find : FindActive) (held : String)
    (others : List String) (k : String) (w : PolicyValue)
    → parent_scope scope ≡ some parent
    → find parent ≡ ok (held ∷ others)
    → validate scope scope_id content find ≡ ok accepted
    → lookup k (parse_policy_content content) ≡ some w
    → lookup k (merge_restrictive (parse_policy_content held) (parse_policy_content content))
      ≡ some w
validate-merge_restrictive scope parent scope_id content find held others k w is_parent found ok_
      at_child =
    let p = parse_policy_content held in
    let c = parse_policy_content content in
    let all =
      (validate-valid_iff scope parent scope_id content find held others is_parent found).0 ok_ in
    let merged_at = lookup-merge_restrictive p c k (parse_policy_content-HasUniqueKeys content) in
    elim (Option-cases (lookup k p)) [
      | inl absent ↦ ground (arith, merged_at)
      | inr (v, present) ↦
          ground (arith, merged_at, merge_value_of_Permits v w (all k v w present at_child))
    ]
