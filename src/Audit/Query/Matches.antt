-- ===== src/Audit/Query/Matches.antt =====
-- plugins/audit-enterprise/src/query/query-method.ts: which entries the conditions select.
use openclaw_enterprise.Common.{
  ℕ, zero, suc, ◌+◌, ◌≤◌, String, List, [], ◌∷◌, ◌++◌, length, length-append, Bool, true, false,
  ◌&&◌, ◌||◌, Option, none, some, get_or, All, All-append, Bool-cases, inl, inr, ◌≡◌, refl, ◌∙◌,
  arith,
}
use openclaw_enterprise.Common.Text.{is_empty}
use openclaw_enterprise.Audit.Query.{
  AuditQueryParams, Condition, WhereClause, add_condition, add_filter, add_filters, filter_list,
  tenant_only, where_of, no_filters,
}

-- The value of a placeholder: `$1` is the first.
abbrev pub nth : ℕ → List String → Option String
nth zero vs = none
nth (suc n) [] = none
nth (suc zero) (v ∷ vs) = some v
nth (suc (suc n)) (v ∷ vs) = nth (suc n) vs

module _ {E : Type 0} (test : String → E → String → Bool) (e : E) where
  abbrev compare_with_value : String → Option String → Bool
  compare_with_value column none = false
  compare_with_value column (some v) = test column e v

  -- An entry meets a condition where its column compares so with the placeholder's value.
  abbrev pub meets : List String → Condition → Bool
  meets vs c = compare_with_value c.0 (nth c.1 vs)

  abbrev pub meets_all : List String → List Condition → Bool
  meets_all vs [] = true
  meets_all vs (c ∷ cs) = meets vs c && meets_all vs cs

  -- What a filter asks of an entry: nothing where it is not set.
  abbrev pub passes : Option String → String → Bool
  passes none column = true
  passes (some v) column = is_empty v || test column e v

  abbrev pub passes_all : List (String × Option String) → Bool
  passes_all [] = true
  passes_all ((column, v) ∷ fs) = passes v column && passes_all fs

  -- What a query asks of an entry: its tenant, and each filter on its own column; an
  -- empty text is no filter.
  abbrev pub is_asked_for : AuditQueryParams → Bool
  is_asked_for p =
      let f = get_or p.filters no_filters in
      test "tenant_id = " e p.tenant_id
      && passes f.user_id "user_id = "
      && passes f.action_type "action_type = "
      && passes f.from "timestamp >= "
      && passes f.to "timestamp <= "
      && passes f.policy_result "policy_result = "
      && passes f.request_id "request_id = "

  nth_kept :
      (n : ℕ) (vs : List String) (v : String) → n ≤ length vs → nth n (vs ++ v ∷ []) ≡ nth n vs
  nth_kept zero vs v h = refl
  nth_kept (suc n) [] v h = absurd (omega (arith, h))
  nth_kept (suc zero) (w ∷ vs) v h = refl
  nth_kept (suc (suc n)) (w ∷ vs) v h = nth_kept (suc n) vs v (omega (arith, h))

  nth_last :
      (vs : List String) (v : String) (n : ℕ) → n ≡ length vs + 1 → nth n (vs ++ v ∷ []) ≡ some v
  nth_last vs v zero h = absurd (omega (arith, h))
  nth_last [] v (suc zero) h = refl
  nth_last [] v (suc (suc n)) h = absurd (omega (arith, h))
  nth_last (w ∷ vs) v (suc zero) h = absurd (omega (arith, h))
  nth_last (w ∷ vs) v (suc (suc n)) h = nth_last vs v (suc n) (omega (arith, h))

  -- The placeholders have values.
  abbrev AreBound : ℕ → List Condition → Type 0
  AreBound n cs = All (λ (c : Condition). c.1 ≤ n) cs

  meets_all_kept :
      (vs : List String) (v : String) (cs : List Condition)
      → AreBound (length vs) cs
      → meets_all (vs ++ v ∷ []) cs ≡ meets_all vs cs
  meets_all_kept vs v [] h = refl
  meets_all_kept vs v (c ∷ cs) h =
      let same = nth_kept c.1 vs v h.0 in
      let ih = meets_all_kept vs v cs h.1 in rw same (rw ih refl)

  meets_all-append :
      (vs : List String) (cs ds : List Condition)
      → meets_all vs (cs ++ ds) ≡ (meets_all vs cs && meets_all vs ds)
  meets_all-append vs [] ds = refl
  meets_all-append vs (c ∷ cs) ds = ground (arith, meets_all-append vs cs ds)

  more_values_bound : (m n : ℕ) (cs : List Condition) → m ≤ n → AreBound m cs → AreBound n cs
  more_values_bound m n [] h b = tt
  more_values_bound m n (c ∷ cs) h b = (omega (arith, h, b.0), more_values_bound m n cs h b.1)

  -- As many values as the next placeholder's number says, and all placeholders are bound.
  abbrev IsAligned : WhereClause → Type 0
  IsAligned w = (w.param_index ≡ length w.values + 1) × AreBound (length w.values) w.conditions

  add_condition-IsAligned :
      (column v : String) (w : WhereClause) → IsAligned w → IsAligned (add_condition column v w)
  add_condition-IsAligned column v w (next, bound) =
      let longer = length-append w.values (v ∷ []) in
      (
        omega (arith, next, longer),
        All-append _ w.conditions ((column, w.param_index) ∷ [])
            (more_values_bound (length w.values) (length (w.values ++ v ∷ [])) w.conditions
              (omega (arith, longer)) bound)
            (omega (arith, next, longer), tt),
      )

  add_condition-meets_all :
      (column v : String) (w : WhereClause)
      → IsAligned w
      → meets_all (add_condition column v w).values (add_condition column v w).conditions
        ≡ (meets_all w.values w.conditions && test column e v)
  add_condition-meets_all column v w (next, bound) =
      let vs = w.values ++ v ∷ [] in
      let split = meets_all-append vs w.conditions ((column, w.param_index) ∷ []) in
      let kept = meets_all_kept w.values v w.conditions bound in
      let last = nth_last w.values v w.param_index next in split ∙ rw kept (rw last (ground arith))

  add_filter-meets_all :
      (column : String) (v : Option String) (w : WhereClause)
      → IsAligned w
      → IsAligned (add_filter column v w)
        × (meets_all (add_filter column v w).values (add_filter column v w).conditions
            ≡ (meets_all w.values w.conditions && passes v column))
  add_filter-meets_all column none w h = (h, ground arith)
  add_filter-meets_all column (some v) w h = elim (Bool-cases (is_empty v)) [
    | inl empty ↦ rw empty (h, ground arith)
    | inr given ↦
        rw given (add_condition-IsAligned column v w h, add_condition-meets_all column v w h)
  ]

  add_filters-meets_all :
      (fs : List (String × Option String)) (w : WhereClause)
      → IsAligned w
      → IsAligned (add_filters fs w)
        × (meets_all (add_filters fs w).values (add_filters fs w).conditions
            ≡ (meets_all w.values w.conditions && passes_all fs))
  unfolding add_filters
  add_filters-meets_all [] w h = (h, ground arith)
  add_filters-meets_all ((column, v) ∷ fs) w h =
      let (aligned, one) = add_filter-meets_all column v w h in
      let (all_aligned, rest) = add_filters-meets_all fs (add_filter column v w) aligned in
      (all_aligned, ground (arith, one, rest))

  -- However the database compares a column with a value, an entry meets all conditions of a query,
  -- each with the value of its placeholder, exactly where it is the tenant's, and has the user, the
  -- action's type, the policy's result and the request that are asked for, and a time not before
  -- `from` and not after `to`, as far as these filters are set and not empty; and the two
  -- placeholders behind the conditions, of the limit and the offset, are the numbers after those of
  -- the values.
  pub where_of_selects :
      (p : AuditQueryParams)
      → (meets_all (where_of p).values (where_of p).conditions ≡ is_asked_for p)
        × ((where_of p).param_index ≡ length (where_of p).values + 1)
  where_of_selects p =
      let first : IsAligned (tenant_only p.tenant_id) = (refl, (omega arith, tt)) in
      let ((next, _), same) =
        add_filters-meets_all (filter_list (get_or p.filters no_filters)) (tenant_only p.tenant_id)
          first in
      (same ∙ ground arith, next)
