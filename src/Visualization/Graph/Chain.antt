-- ===== src/Visualization/Graph/Chain.antt =====
-- The critical path length of plugins/visualization/src/graphs/dependency.ts against chains of tasks
-- that block each other.
use openclaw_enterprise.Common.{
  ℕ, zero, suc, ◌+◌, pos, negsuc, ◌+ℤ◌, String, List, [], ◌∷◌, ◌++◌, Bool, true, false, some, none,
  get_or, lookup, insert, lookup-insert, ◌≡◌, ◌⊎◌, refl, sym, ◌∙◌, ap, ltb, eq_iff, str_eq,
  if◌then◌else◌, Bool-cases, Option-cases, List-cases, inl, inr, All, All-append, In, here, there,
}
use mathlib.Core.Path.{subst}
use openclaw_enterprise.Shared.Tasks.{Task}
use openclaw_enterprise.Visualization.Graph.{
  Walk, is_zero, visit, visit_all, round, walk, fuel_for, degrees, start_walk, enqueue_roots,
  compute_critical_path_length,
}
use openclaw_enterprise.Visualization.Graph.Blocking.{IsTask, Blocks, AreBlocks, degrees-AreBlocks}
use openclaw_enterprise.Visualization.Graph.Rounds.{start_walk_ends}

-- A chain of so many tasks, each blocking the next, that ends with this one.
pub data Chain (tasks : List Task) : ℕ → String → Type 0 where
  alone : {v : String} → IsTask tasks v → Chain tasks 1 v
  longer : {n : ℕ} {u v : String} → Chain tasks n u → Blocks tasks u v → Chain tasks (n + 1) v

-- Distances and the longest path so far are lengths of chains, and the queue holds tasks.
abbrev IsSound : List Task → Walk → Type 0
IsSound tasks w =
    ((k : String) (n : ℕ) → lookup k w.dist ≡ some n → Chain tasks n k)
    × All (IsTask tasks) w.queue
    × ((k : String) × Chain tasks w.max_path k)

insert-Chain :
    (tasks : List Task) (k : String) (n : ℕ) (d : List (String × ℕ))
    → Chain tasks n k
    → ((j : String) (m : ℕ) → lookup j d ≡ some m → Chain tasks m j)
    → (j : String) (m : ℕ) → lookup j (insert k n d) ≡ some m
    → Chain tasks m j
insert-Chain tasks k n d c h j m e =
    let written = lookup-insert k j n d in
    elim (Bool-cases (str_eq k j)) [
      | inl same ↦
          let written' = rw same at written in
          let is : n ≡ m = cc in
          subst (λ x. Chain tasks x j) is (subst (Chain tasks n) ((eq_iff k j).0 same) c)
      | inr other ↦ let written' = rw other at written in h j m (sym written' ∙ e)
    ]

Chain-IsTask : {tasks : List Task} {n : ℕ} {k : String} → Chain tasks n k → IsTask tasks k
Chain-IsTask (alone member) = member
Chain-IsTask (longer c (t, _, _, _, member)) = member

enqueue_when :
    (tasks : List Task) (test : Bool) (k : String) (queue : List String)
    → IsTask tasks k
    → All (IsTask tasks) queue
    → All (IsTask tasks) (if test then queue ++ k ∷ [] else queue)
enqueue_when tasks true k queue member h = All-append (IsTask tasks) queue (k ∷ []) h (member, tt)
enqueue_when tasks false k queue member h = h

longest_when :
    (tasks : List Task) (test : Bool) (n m : ℕ) (k : String)
    → Chain tasks n k
    → (j : String) × Chain tasks m j
    → (j : String) × Chain tasks (if test then n else m) j
longest_when tasks true n m k c h = (k, c)
longest_when tasks false n m k c h = h

dist_when :
    (tasks : List Task) (test : Bool) (n : ℕ) (k : String) (d : List (String × ℕ))
    → Chain tasks n k
    → ((j : String) (m : ℕ) → lookup j d ≡ some m → Chain tasks m j)
    → (j : String) (m : ℕ) → lookup j (if test then insert k n d else d) ≡ some m
    → Chain tasks m j
dist_when tasks true n k d c h = insert-Chain tasks k n d c h
dist_when tasks false n k d c h = h

visit-IsSound :
    (tasks : List Task) (n : ℕ) (k : String) (w : Walk)
    → Chain tasks n k
    → IsSound tasks w
    → IsSound tasks (visit n k w)
unfolding visit
visit-IsSound tasks n k w c (dists, queued, longest) =
    let new_in_degree = get_or (lookup k w.in_degree) (pos 1) +ℤ negsuc 0 in
    (
      dist_when tasks (ltb (get_or (lookup k w.dist) 1) n) n k w.dist c dists,
      enqueue_when tasks (is_zero new_in_degree) k w.queue (Chain-IsTask c) queued,
      longest_when tasks (ltb w.max_path n) n w.max_path k c longest,
    )

visit_all-IsSound :
    (tasks : List Task) (n : ℕ) (u : String) (names : List String) (w : Walk)
    → Chain tasks n u
    → All (Blocks tasks u) names
    → IsSound tasks w
    → IsSound tasks (visit_all (n + 1) names w)
unfolding visit_all
visit_all-IsSound tasks n u [] w c h s = s
visit_all-IsSound tasks n u (v ∷ names) w c h s =
    visit_all-IsSound tasks n u names (visit (n + 1) v w) c h.1
      (visit-IsSound tasks (n + 1) v w (longer c h.0) s)

-- A queued task has a chain as long as its distance.
dist-Chain :
    (tasks : List Task) (k : String) (d : List (String × ℕ))
    → IsTask tasks k
    → ((j : String) (m : ℕ) → lookup j d ≡ some m → Chain tasks m j)
    → Chain tasks (get_or (lookup k d) 1) k
dist-Chain tasks k d member h = elim (Option-cases (lookup k d)) [
  | inl absent ↦ rw absent (alone member)
  | inr (m, found) ↦ rw found (h k m found)
]

walk-IsSound :
    (tasks : List Task) (fuel : ℕ) (adj : List (String × List String)) (w end : Walk)
    → AreBlocks tasks adj
    → IsSound tasks w
    → walk fuel adj w ≡ some end
    → IsSound tasks end
unfolding walk
walk-IsSound tasks zero adj w end h s e = cc
walk-IsSound tasks (suc fuel) adj w end h s e = elim (List-cases w.queue) [
  | inl empty ↦ let e' = rw empty at e in let is : w ≡ end = cc in subst (IsSound tasks) is s
  | inr (k, rest, shape) ↦
      let e' = rw shape at e in
      let popped = record w { queue = rest } in
      let (dists, queued, longest) = s in
      let (member, queued') = subst (All (IsTask tasks)) shape queued in
      let next =
        visit_all-IsSound tasks (get_or (lookup k w.dist) 1) k (get_or (lookup k adj) []) popped
          (dist-Chain tasks k w.dist member dists) (h k) (dists, queued', longest) in
      walk-IsSound tasks fuel adj (round adj k popped) end h next e'
]

enqueue_roots-IsSound :
    (tasks rest : List Task) (w : Walk)
    → ((t : Task) → In t rest → In t tasks)
    → IsSound tasks w
    → IsSound tasks (enqueue_roots rest w)
unfolding enqueue_roots
enqueue_roots-IsSound tasks [] w within s = s
enqueue_roots-IsSound tasks (t ∷ rest) w within (dists, queued, longest) =
    let test = is_zero (get_or (lookup t.id w.in_degree) (pos 0)) in
    let member : IsTask tasks t.id = (t, within t (here refl), refl) in
    enqueue_roots-IsSound tasks rest
      (record w {
        dist = insert t.id 1 w.dist;
        queue = if test then w.queue ++ t.id ∷ [] else w.queue;
      })
      (λ x m. within x (there m))
      (
        insert-Chain tasks t.id 1 w.dist (alone member) dists,
        enqueue_when tasks test t.id w.queue member queued,
        longest,
      )

no_dist : (tasks : List Task) (k : String) (n : ℕ) → lookup k [] ≡ some n → Chain tasks n k
unfolding lookup
no_dist tasks k n e = cc

-- The critical path length of a list that is not empty is the number of tasks of a chain in which
-- each task names the next one as blocked by it; that of the empty list is 0.
pub compute_critical_path_length-Chain :
    (tasks : List Task) (longest : ℕ)
    → compute_critical_path_length tasks ≡ some longest
    → ((tasks ≡ []) × (longest ≡ 0)) ⊎ ((k : String) × Chain tasks longest k)
unfolding compute_critical_path_length
compute_critical_path_length-Chain [] longest e = inl (refl, cc)
compute_critical_path_length-Chain (task ∷ rest) longest e =
    let tasks : List Task = task ∷ rest in
    let w = start_walk tasks in
    let first : Walk = record {
      dist = [];
      in_degree = (degrees tasks).in_degree;
      queue = [];
      max_path = 1;
    } in
    let started =
      enqueue_roots-IsSound tasks tasks first (λ t m. m)
        (no_dist tasks, tt, (task.id, alone (task, here refl, refl))) in
    let (end, ended) = start_walk_ends tasks in
    let (k, c) =
      (walk-IsSound tasks (fuel_for w) (degrees tasks).adj w end (degrees-AreBlocks tasks) started
        ended).2 in
    let found : compute_critical_path_length tasks ≡ some end.max_path =
      ap (λ o. elim o [ none ↦ none | some reached ↦ some reached.max_path ]) ended in
    let is : end.max_path ≡ longest = cc in inr (k, subst (λ n. Chain tasks n k) is c)
