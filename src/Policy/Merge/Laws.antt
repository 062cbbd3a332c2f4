-- ===== src/Policy/Merge/Laws.antt =====
-- What the restrictive merge promises: key by key it is the meet of the two policies.
use openclaw_enterprise.Common.{
  ◌≤◌, ◌≡◌, refl, String, List, [], ◌∷◌, true, ◌&&◌, Option, none, some, arith, select, includes,
  lookup, insert, lookup-insert, eq_iff, HasUniqueKeys,
}
use openclaw_enterprise.Policy.Merge.{
  PolicyValue, bool, num, str, arr, PolicyRecord, merge_value, merge_entry, merge_entries,
  merge_restrictive,
}

-- What a key of the merge holds, from what the parent and the child hold.
abbrev pub merged : Option PolicyValue → Option PolicyValue → Option PolicyValue
merged parent none = parent
merged parent (some child) = some (merge_entry parent child)

lookup-merge_entries :
    (parent result child : PolicyRecord) (k : String)
    → HasUniqueKeys child
    → lookup k (merge_entries parent result child) ≡ elim (lookup k child) [
      | none ↦ lookup k result
      | some v ↦ some (merge_entry (lookup k parent) v)
    ]
unfolding merge_entries lookup
lookup-merge_entries parent result [] k u = refl
lookup-merge_entries parent result ((j, v) ∷ entries) k u =
    let ih =
      lookup-merge_entries parent (insert j (merge_entry (lookup j parent) v) result) entries k
        u.1 in
    ground (arith, ih, lookup-insert j k (merge_entry (lookup j parent) v) result, eq_iff j k)

-- The merge of two policies holds, under each key, the merge of what the two hold there.
pub lookup-merge_restrictive :
    (parent child : PolicyRecord) (k : String)
    → HasUniqueKeys child
    → lookup k (merge_restrictive parent child) ≡ merged (lookup k parent) (lookup k child)
unfolding merge_restrictive
lookup-merge_restrictive parent child k u =
    ground (arith, lookup-merge_entries parent parent child k u)

-- `Within v w`: the value `w` permits at most what `v` permits. Texts, and values of two kinds,
-- are not ordered.
abbrev pub Within : PolicyValue → PolicyValue → Type 0
Within (bool v) (bool w) = w ≡ true → v ≡ true
Within (num v) (num w) = w ≤ v
Within (arr v) (arr w) = (x : String) → includes w x ≡ true → includes v x ≡ true
Within _ _ = ⊥

includes-select :
    (v w : List String) (x : String)
    → includes (select (λ y. includes v y) w) x ≡ (includes w x && includes v x)
includes-select v [] x = refl
includes-select v (y ∷ w) x = ground (arith, includes-select v w x, eq_iff y x)

-- Two values of one kind that has an order.
abbrev pub IsOrdered : PolicyValue → PolicyValue → Type 0
IsOrdered (bool v) (bool w) = Unit
IsOrdered (num v) (num w) = Unit
IsOrdered (arr v) (arr w) = Unit
IsOrdered _ _ = ⊥

-- The merge of two values of one kind lies within both.
pub merge_value-Within :
    (parent child : PolicyValue)
    → IsOrdered parent child
    → Within parent (merge_value parent child) × Within child (merge_value parent child)
unfolding merge_value
merge_value-Within (bool p) (bool c) o = ground arith
merge_value-Within (num p) (num c) o = ground arith
merge_value-Within (arr p) (arr c) o =
    ((λ x h. ground (arith, includes-select p c x)), (λ x h. ground (arith, includes-select p c x)))
merge_value-Within p c o = absurd o

-- A value within both lies within their merge: nothing more than needed is taken away.
pub Within-merge_value :
    (u parent child : PolicyValue)
    → Within parent u
    → Within child u
    → Within (merge_value parent child) u
unfolding merge_value
Within-merge_value (bool u) (bool p) (bool c) h k = ground arith
Within-merge_value (num u) (num p) (num c) h k = omega arith
Within-merge_value (arr u) (arr p) (arr c) h k =
    λ x i. ground (arith, includes-select p c x, h x i, k x i)
Within-merge_value u p c h k = ground arith

pub Within-trans : (u v w : PolicyValue) → Within u v → Within v w → Within u w
Within-trans (bool u) (bool v) (bool w) h k = λ e. h (k e)
Within-trans (num u) (num v) (num w) h k = omega arith
Within-trans (arr u) (arr v) (arr w) h k = λ x i. h x (k x i)
Within-trans u v w h k = ground arith

-- Where the parent and the child hold values of one ordered kind under a key (two booleans, two
-- numbers or two lists), the merge holds their meet: a value within both that every other value
-- within both lies within. The child's keys are distinct, as those of an object are.
pub merge_restrictive-is_meet :
    (parent child : PolicyRecord) (k : String) (v w : PolicyValue)
    → HasUniqueKeys child
    → lookup k parent ≡ some v
    → lookup k child ≡ some w
    → IsOrdered v w
    → (m : PolicyValue) × (lookup k (merge_restrictive parent child) ≡ some m)
      × Within v m
      × Within w m
      × ((u : PolicyValue) → Within v u → Within w u → Within m u)
merge_restrictive-is_meet parent child k v w unique in_parent in_child o =
    let (below_v, below_w) = merge_value-Within v w o in
    (
      merge_value v w,
      ground (arith, lookup-merge_restrictive parent child k unique),
      below_v,
      below_w,
      λ u. Within-merge_value u v w,
    )

-- A key that only one of the two policies holds keeps its value.
pub merge_restrictive-alone :
    (parent child : PolicyRecord) (k : String)
    → HasUniqueKeys child
    → ((lookup k child ≡ none) → lookup k (merge_restrictive parent child) ≡ lookup k parent)
      × ((lookup k parent ≡ none) → lookup k (merge_restrictive parent child) ≡ lookup k child)
merge_restrictive-alone parent child k unique = (
  (λ e. ground (arith, lookup-merge_restrictive parent child k unique)),
  (λ e. ground (arith, lookup-merge_restrictive parent child k unique)),
)

abbrev pub IsMixed : PolicyValue → PolicyValue → Type 0
IsMixed (bool v) (bool w) = ⊥
IsMixed (num v) (num w) = ⊥
IsMixed (str v) (str w) = ⊥
IsMixed (arr v) (arr w) = ⊥
IsMixed _ _ = Unit

merge_value-IsMixed : (v w : PolicyValue) → IsMixed v w → merge_value v w ≡ w
unfolding merge_value
merge_value-IsMixed (bool v) (bool w) o = absurd o
merge_value-IsMixed (num v) (num w) o = absurd o
merge_value-IsMixed (str v) (str w) o = absurd o
merge_value-IsMixed (arr v) (arr w) o = absurd o
merge_value-IsMixed _ _ o = refl

-- Where the parent and the child hold values of two kinds under a key, the parent's value is
-- dropped and the child's stands as it is written: a child lifts the parent's limit, list or
-- switch by writing a value of another kind.
pub merge_restrictive-IsMixed :
    (parent child : PolicyRecord) (k : String) (v w : PolicyValue)
    → HasUniqueKeys child
    → lookup k parent ≡ some v
    → lookup k child ≡ some w
    → IsMixed v w
    → lookup k (merge_restrictive parent child) ≡ some w
merge_restrictive-IsMixed parent child k v w unique in_parent in_child mixed =
    ground (arith, lookup-merge_restrictive parent child k unique, merge_value-IsMixed v w mixed)
