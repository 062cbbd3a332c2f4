-- ===== src/Policy/Resolver/Ceiling.antt =====
-- The enterprise policy is a ceiling: no lower scope expands what it permits.
use openclaw_enterprise.Common.{
  ◌≡◌, refl, String, List, [], ◌∷◌, Option, none, some, arith, lookup, All, HasUniqueKeys,
}
use openclaw_enterprise.Shared.Types.{enterprise, org, team, user, PolicyDomain, Policy}
use openclaw_enterprise.Shared.Errors.{ok}
use openclaw_enterprise.Policy.Merge.{
  PolicyValue, bool, num, arr, PolicyRecord, merge_value, merge_restrictive,
}
use openclaw_enterprise.Policy.Merge.Laws.{
  Within, IsOrdered, lookup-merge_restrictive, merge_value-Within, Within-trans,
}
use openclaw_enterprise.Policy.Content.{parse_policy_content}
use openclaw_enterprise.Policy.Content.Laws.{parse_policy_content-HasUniqueKeys}
use openclaw_enterprise.Policy.Resolver.{
  ScopeChain, FetchPolicy, ResolvedPolicy, scope_policy, apply_policy, resolve,
}

-- The contents of the policies that are there.
abbrev pub contents : List (Option Policy) → List PolicyRecord
contents [] = []
contents (none ∷ ps) = contents ps
contents (some p ∷ ps) = parse_policy_content p.content ∷ contents ps

merge_all : PolicyRecord → List PolicyRecord → PolicyRecord
merge_all base [] = base
merge_all base (c ∷ cs) = merge_all (merge_restrictive base c) cs

-- What a scope holds under a key is of the kind of `v`, or is not there.
abbrev pub Fits : PolicyValue → Option PolicyValue → Type 0
Fits v none = Unit
Fits v (some w) = IsOrdered v w

-- What a scope holds under a key permits at least what `m` permits.
abbrev pub Bounds : Option PolicyValue → PolicyValue → Type 0
Bounds none m = Unit
Bounds (some w) m = Within w m

Within-refl : (v : PolicyValue) → IsOrdered v v → Within v v
Within-refl (bool v) o = λ e. e
Within-refl (num v) o = omega arith
Within-refl (arr v) o = λ x e. e
Within-refl v o = absurd o

-- The merge has the kind of its first part.
IsOrdered-merge_value :
    (v w x : PolicyValue) → IsOrdered v w → IsOrdered v x → IsOrdered (merge_value v w) x
unfolding merge_value
IsOrdered-merge_value (bool v) (bool w) (bool x) o p = tt
IsOrdered-merge_value (num v) (num w) (num x) o p = tt
IsOrdered-merge_value (arr v) (arr w) (arr x) o p = tt
IsOrdered-merge_value v w x o p = ground arith

Fits-merge_value :
    (v w : PolicyValue) (o : Option PolicyValue)
    → IsOrdered v w
    → Fits v o
    → Fits (merge_value v w) o
Fits-merge_value v w none h k = tt
Fits-merge_value v w (some x) h k = IsOrdered-merge_value v w x h k

merge_opt : PolicyValue → Option PolicyValue → PolicyValue
merge_opt v none = v
merge_opt v (some w) = merge_value v w

lookup-merge_opt :
    (base c : PolicyRecord) (k : String) (v : PolicyValue) (o : Option PolicyValue)
    → HasUniqueKeys c
    → lookup k base ≡ some v
    → lookup k c ≡ o
    → lookup k (merge_restrictive base c) ≡ some (merge_opt v o)
unfolding merge_opt
lookup-merge_opt base c k v none u e f = ground (arith, lookup-merge_restrictive base c k u)
lookup-merge_opt base c k v (some w) u e f = ground (arith, lookup-merge_restrictive base c k u)

All-Fits-merge_opt :
    (k : String) (v : PolicyValue) (o : Option PolicyValue) (cs : List PolicyRecord)
    → Fits v o
    → All (λ c. Fits v (lookup k c)) cs
    → All (λ c. Fits (merge_opt v o) (lookup k c)) cs
unfolding merge_opt
All-Fits-merge_opt k v none cs f h = h
All-Fits-merge_opt k v (some w) [] f h = tt
All-Fits-merge_opt k v (some w) (c ∷ cs) f (h, hs) =
    (Fits-merge_value v w (lookup k c) f h, All-Fits-merge_opt k v (some w) cs f hs)

-- `merge_opt` lies within its first part, and within the second where that is there.
Within-merge_opt :
    (v : PolicyValue) (o : Option PolicyValue) (m : PolicyValue)
    → Fits v o
    → Within (merge_opt v o) m
    → Within v m × Bounds o m
unfolding merge_opt
Within-merge_opt v none m f h = (h, tt)
Within-merge_opt v (some w) m f h =
    let (below_v, below_w) = merge_value-Within v w f in
    (Within-trans v (merge_value v w) m below_v h, Within-trans w (merge_value v w) m below_w h)

merge_opt-IsOrdered :
    (v : PolicyValue) (o : Option PolicyValue)
    → IsOrdered v v
    → Fits v o
    → IsOrdered (merge_opt v o) (merge_opt v o)
unfolding merge_opt merge_value
merge_opt-IsOrdered v none h f = h
merge_opt-IsOrdered (bool v) (some (bool w)) h f = tt
merge_opt-IsOrdered (num v) (some (num w)) h f = tt
merge_opt-IsOrdered (arr v) (some (arr w)) h f = tt
merge_opt-IsOrdered v (some w) h f = absurd f

abbrev AllUnique : List PolicyRecord → Type 0
AllUnique cs = All (λ c. HasUniqueKeys c) cs

merge_all-ceiling :
    (base : PolicyRecord) (cs : List PolicyRecord) (k : String) (v : PolicyValue)
    → AllUnique cs
    → IsOrdered v v
    → lookup k base ≡ some v
    → All (λ c. Fits v (lookup k c)) cs
    → (m : PolicyValue) × (lookup k (merge_all base cs) ≡ some m)
      × Within v m
      × All (λ c. Bounds (lookup k c) m) cs
unfolding merge_all
merge_all-ceiling base [] k v us o e fs = (v, e, Within-refl v o, tt)
merge_all-ceiling base (c ∷ cs) k v (u, us) o e (f, fs) =
    let (m, found, below, bounds) =
      merge_all-ceiling (merge_restrictive base c) cs k (merge_opt v (lookup k c)) us
        (merge_opt-IsOrdered v (lookup k c) o f) (lookup-merge_opt base c k v (lookup k c) u e refl)
        (All-Fits-merge_opt k v (lookup k c) cs f fs) in
    let (below_v, bound) = Within-merge_opt v (lookup k c) m f below in
    (m, found, below_v, (bound, bounds))

contents-AllUnique : (ps : List (Option Policy)) → AllUnique (contents ps)
contents-AllUnique [] = tt
contents-AllUnique (none ∷ ps) = contents-AllUnique ps
contents-AllUnique (some p ∷ ps) =
    (parse_policy_content-HasUniqueKeys p.content, contents-AllUnique ps)

-- The state behind the four rounds.
abbrev resolved : Policy → Option Policy → Option Policy → Option Policy → ResolvedPolicy
resolved e o t u = apply_policy user u (
    apply_policy team t (
      apply_policy org o
        (apply_policy enterprise (some e) (record { effective_policy = []; hierarchy = [] }))))

resolved_effective :
    (e : Policy) (o t u : Option Policy)
    → (resolved e o t u).effective_policy
      ≡ merge_all (parse_policy_content e.content) (contents (o ∷ t ∷ u ∷ []))
unfolding apply_policy merge_all
resolved_effective e none none none = refl
resolved_effective e none none (some u) = refl
resolved_effective e none (some t) none = refl
resolved_effective e none (some t) (some u) = refl
resolved_effective e (some o) none none = refl
resolved_effective e (some o) none (some u) = refl
resolved_effective e (some o) (some t) none = refl
resolved_effective e (some o) (some t) (some u) = refl

-- Where every fetch succeeds and the enterprise has an active policy that holds a switch, a number
-- or a list under a key, and each lower active policy holds a value of that kind there or none,
-- `resolve` succeeds and the effective policy holds a value there that lies within the
-- enterprise's and within every lower scope's.
pub resolve-ceiling :
    (domain : PolicyDomain) (chain : ScopeChain) (fetch : FetchPolicy) (e : Policy)
    (o t u : Option Policy) (k : String) (v : PolicyValue)
    → scope_policy fetch domain chain enterprise ≡ ok (some e)
    → scope_policy fetch domain chain org ≡ ok o
    → scope_policy fetch domain chain team ≡ ok t
    → scope_policy fetch domain chain user ≡ ok u
    → lookup k (parse_policy_content e.content) ≡ some v
    → IsOrdered v v
    → All (λ c. Fits v (lookup k c)) (contents (o ∷ t ∷ u ∷ []))
    → (r : ResolvedPolicy) × (m : PolicyValue) × (resolve domain chain fetch ≡ ok r)
      × (lookup k r.effective_policy ≡ some m)
      × Within v m
      × All (λ c. Bounds (lookup k c) m) (contents (o ∷ t ∷ u ∷ []))
unfolding resolve
resolve-ceiling domain chain fetch e o t u k v he ho ht hu at_k kind fits =
    let cs = contents (o ∷ t ∷ u ∷ []) in
    let (m, found, below, bounds) =
      merge_all-ceiling (parse_policy_content e.content) cs k v
        (contents-AllUnique (o ∷ t ∷ u ∷ [])) kind at_k fits in
    (
      resolved e o t u,
      m,
      rw (he, ho, ht, hu) refl,
      rw (resolved_effective e o t u) found,
      below,
      bounds,
    )

abbrev id_of : Option Policy → Option String
id_of none = none
id_of (some p) = some p.id

resolved_hierarchy :
    (e : Policy) (o t u : Option Policy)
    → (resolved e o t u).hierarchy
      ≡ record { scope = enterprise; policy_id = some e.id }
        ∷ record { scope = org; policy_id = id_of o }
        ∷ record { scope = team; policy_id = id_of t }
        ∷ record { scope = user; policy_id = id_of u }
        ∷ []
unfolding apply_policy
resolved_hierarchy e none none none = refl
resolved_hierarchy e none none (some u) = refl
resolved_hierarchy e none (some t) none = refl
resolved_hierarchy e none (some t) (some u) = refl
resolved_hierarchy e (some o) none none = refl
resolved_hierarchy e (some o) none (some u) = refl
resolved_hierarchy e (some o) (some t) none = refl
resolved_hierarchy e (some o) (some t) (some u) = refl
