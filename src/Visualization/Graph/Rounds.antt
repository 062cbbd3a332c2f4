-- ===== src/Visualization/Graph/Rounds.antt =====
-- plugins/visualization/src/graphs/dependency.ts: the traversal ends, since a round takes one task
-- from the queue, and a task is put there only when its in-degree falls from 1 to 0.
use openclaw_enterprise.Common.{
  ℕ, zero, suc, ◌+◌, ◌≤◌, ◌<◌, ℤ, pos, negsuc, ◌+ℤ◌, String, List, [], ◌∷◌, true, some, none,
  get_or, lookup, insert, lookup-insert, length, length-append, ◌≡◌, refl, ◌∙◌, ap, arith, str_eq,
  if◌then◌else◌, Bool-cases, Option-cases, List-cases, inl, inr,
}
use openclaw_enterprise.Shared.Tasks.{Task}
use openclaw_enterprise.Visualization.Graph.{
  Walk, is_some, is_zero, visit, visit_all, round, walk, fuel_for, degrees, start_walk,
  compute_critical_path_length,
}
use openclaw_enterprise.Visualization.Graph.Closed.{AreKnown, IsClosed, start_walk-IsClosed}

abbrev positive : ℤ → ℕ
positive (pos zero) = 0
positive (pos (suc n)) = 1
positive (negsuc n) = 0

-- How many entries are above 0.
abbrev count_positive : List (String × ℤ) → ℕ
count_positive [] = 0
count_positive ((k, v) ∷ d) = positive v + count_positive d

positive-le-one : (v : ℤ) → positive v ≤ 1
positive-le-one (pos zero) = omega arith
positive-le-one (pos (suc n)) = omega arith
positive-le-one (negsuc n) = omega arith

count_positive-le-length : (d : List (String × ℤ)) → count_positive d ≤ length d
count_positive-le-length [] = omega arith
count_positive-le-length ((k, v) ∷ d) = omega (arith, count_positive-le-length d, positive-le-one v)

count_positive-insert :
    (k : String) (v w : ℤ) (d : List (String × ℤ))
    → lookup k d ≡ some v
    → count_positive (insert k w d) + positive v ≡ count_positive d + positive w
unfolding lookup insert
count_positive-insert k v w [] e = cc
count_positive-insert k v w ((j, x) ∷ d) e = elim (Bool-cases (str_eq j k)) [
  | inl same ↦ let is : x ≡ v = let e' = rw same at e in cc e' in rw same (rw is (omega arith))
  | inr other ↦
      let ih = count_positive-insert k v w d (rw other at e) in rw other (omega (arith, ih))
]

pos-less-one : (k : ℕ) → pos (suc k) +ℤ negsuc 0 ≡ pos k
unfolding ◌+ℤ◌
pos-less-one k = ground arith

negsuc-less-one : (k : ℕ) → negsuc k +ℤ negsuc 0 ≡ negsuc (suc k)
unfolding ◌+ℤ◌
negsuc-less-one k = ground arith

zero_less_one : pos 0 +ℤ negsuc 0 ≡ negsuc 0
unfolding ◌+ℤ◌
zero_less_one = refl

-- Taking 1 off reaches 0 exactly where one entry less is above 0.
less_one :
    (v : ℤ) → positive v ≡ positive (v +ℤ negsuc 0) + (if is_zero (v +ℤ negsuc 0) then 1 else 0)
less_one (pos zero) = rw zero_less_one refl
less_one (pos (suc zero)) = rw (pos-less-one 0) refl
less_one (pos (suc (suc n))) = rw (pos-less-one (suc n)) refl
less_one (negsuc n) = rw (negsuc-less-one n) refl

-- What the rounds that are left cannot exceed.
abbrev size : Walk → ℕ
size w = length w.queue + count_positive w.in_degree

visit-size :
    (new_dist : ℕ) (n : String) (w : Walk)
    → is_some (lookup n w.in_degree) ≡ true
    → size (visit new_dist n w) ≡ size w
unfolding visit
visit-size new_dist n w known = elim (Option-cases (lookup n w.in_degree)) [
  | inl absent ↦ let no_ = rw absent at known in cc
  | inr (v, found) ↦
      let counted = count_positive-insert n v (v +ℤ negsuc 0) w.in_degree found in
      let step = less_one v in
      elim (Bool-cases (is_zero (v +ℤ negsuc 0))) [
        | inl done ↦
            let step' = rw done at step in
            rw found (rw done (omega (arith, counted, step', length-append w.queue (n ∷ []))))
        | inr left ↦
            let step' = rw left at step in rw found (rw left (omega (arith, counted, step')))
      ]
]

-- Reading an in-degree that is there gives one after a visit too.
visit-known :
    (new_dist : ℕ) (n k : String) (w : Walk)
    → is_some (lookup k w.in_degree) ≡ true
    → is_some (lookup k (visit new_dist n w).in_degree) ≡ true
unfolding visit
visit-known new_dist n k w known =
    let new_in_degree = get_or (lookup n w.in_degree) (pos 1) +ℤ negsuc 0 in
    let written = lookup-insert n k new_in_degree w.in_degree in ground (arith, known, written)

visit-AreKnown :
    (new_dist : ℕ) (n : String) (names : List String) (w : Walk)
    → AreKnown names w.in_degree
    → AreKnown names (visit new_dist n w).in_degree
visit-AreKnown new_dist n [] w h = tt
visit-AreKnown new_dist n (k ∷ names) w h =
    (visit-known new_dist n k w h.0, visit-AreKnown new_dist n names w h.1)

visit_all-AreKnown :
    (new_dist : ℕ) (neighbors names : List String) (w : Walk)
    → AreKnown names w.in_degree
    → AreKnown names (visit_all new_dist neighbors w).in_degree
unfolding visit_all
visit_all-AreKnown new_dist [] names w h = h
visit_all-AreKnown new_dist (n ∷ neighbors) names w h =
    visit_all-AreKnown new_dist neighbors names (visit new_dist n w)
      (visit-AreKnown new_dist n names w h)

visit_all-size :
    (new_dist : ℕ) (neighbors : List String) (w : Walk)
    → AreKnown neighbors w.in_degree
    → size (visit_all new_dist neighbors w) ≡ size w
unfolding visit_all
visit_all-size new_dist [] w h = refl
visit_all-size new_dist (n ∷ neighbors) w h =
    visit_all-size new_dist neighbors (visit new_dist n w)
      (visit-AreKnown new_dist n neighbors w h.1)
    ∙ visit-size new_dist n w h.0

-- With more fuel than the size, the traversal ends.
walk_ends :
    (fuel : ℕ) (adj : List (String × List String)) (w : Walk)
    → IsClosed adj w.in_degree
    → size w < fuel
    → (end : Walk) × (walk fuel adj w ≡ some end)
unfolding walk
walk_ends zero adj w h bound = absurd (omega (arith, bound))
walk_ends (suc fuel) adj w h bound = elim (List-cases w.queue) [
  | inl empty ↦ (w, rw empty refl)
  | inr (k, rest, shape) ↦
      let popped = record w { queue = rest } in
      let new_dist = get_or (lookup k w.dist) 1 + 1 in
      let (end, ended) =
        walk_ends fuel adj (round adj k popped)
          (λ j.
            visit_all-AreKnown new_dist (get_or (lookup k adj) []) (get_or (lookup j adj) []) popped
              (h j))
          (omega (
            arith,
            bound,
            visit_all-size new_dist (get_or (lookup k adj) []) popped (h k),
            ap length shape,
          )) in
      (end, rw shape ended)
]

-- `fuel_for` is more than the size.
size-lt-fuel_for : (w : Walk) → size w < fuel_for w
size-lt-fuel_for w = omega (arith, count_positive-le-length w.in_degree)

-- The traversal that `generate` starts ends within the fuel that the model gives it.
pub start_walk_ends :
    (tasks : List Task)
    → (end : Walk) × (walk (fuel_for (start_walk tasks)) (degrees tasks).adj (start_walk tasks)
        ≡ some end)
start_walk_ends tasks =
    let w = start_walk tasks in
    walk_ends (fuel_for w) (degrees tasks).adj w (start_walk-IsClosed tasks) (size-lt-fuel_for w)

-- For any list of tasks, also where they block each other in a circle, share an id or name tasks
-- that are not in the list, the traversal for the critical path empties its queue and gives a length.
pub compute_critical_path_length_ends :
    (tasks : List Task) → (longest : ℕ) × (compute_critical_path_length tasks ≡ some longest)
unfolding compute_critical_path_length
compute_critical_path_length_ends [] = (0, refl)
compute_critical_path_length_ends (task ∷ tasks) =
    let (end, ended) = start_walk_ends (task ∷ tasks) in
    (end.max_path, ap (λ o. elim o [ none ↦ none | some reached ↦ some reached.max_path ]) ended)
