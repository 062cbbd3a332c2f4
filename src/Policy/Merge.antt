-- ===== src/Policy/Merge.antt =====
-- plugins/policy-engine/src/hierarchy/resolver.ts: policy contents and `mergeRestrictive`.
pub mod Laws
use openclaw_enterprise.Common.{
  ℕ, String, List, [], ◌∷◌, Bool, ◌&&◌, Option, none, some, min, select, includes, lookup, insert,
}

-- What `parsePolicyContent` can store under a key.
pub data PolicyValue : Type 0 where
  bool : Bool → PolicyValue
  num : ℕ → PolicyValue
  str : String → PolicyValue
  arr : List String → PolicyValue

abbrev pub PolicyRecord : Type 0
PolicyRecord = List (String × PolicyValue)

-- One round of the loop, where the parent has the key.
unfoldable pub merge_value : PolicyValue → PolicyValue → PolicyValue
merge_value (arr parent) (arr child) = arr (select (λ v. includes parent v) child)
merge_value (bool parent) (bool child) = bool (parent && child)
merge_value (num parent) (num child) = num (min parent child)
merge_value parent child = child

-- The value written for a key of the child.
abbrev pub merge_entry : Option PolicyValue → PolicyValue → PolicyValue
merge_entry none child = child
merge_entry (some parent) child = merge_value parent child

merge_entries : PolicyRecord → PolicyRecord → PolicyRecord → PolicyRecord
merge_entries parent result [] = result
merge_entries parent result ((key, child) ∷ entries) =
    merge_entries parent (insert key (merge_entry (lookup key parent) child) result) entries

unfoldable pub merge_restrictive : PolicyRecord → PolicyRecord → PolicyRecord
unfolding merge_entries
merge_restrictive parent child = merge_entries parent parent child
