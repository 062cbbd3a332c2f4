-- ===== src/TaskIntelligence/Scorer/Order.antt =====
-- plugins/task-intelligence/src/scoring/scorer.ts: the order of the scored tasks.
use openclaw_enterprise.Common.{
  ℕ, ◌≤◌, ℤ, List, [], ◌∷◌, map, leb, arith, ◌≡◌, refl, ◌∙◌, Bool, All, count, Bool-cases, inl, inr,
}
use openclaw_enterprise.TaskIntelligence.Scanner.{DiscoveredTask}
use openclaw_enterprise.TaskIntelligence.Scorer.{Clock, Scored, score, place, sort, score_batch}

-- No score is below one that follows.
abbrev pub IsRanked : List Scored → Type 0
IsRanked [] = Unit
IsRanked (s ∷ ss) = All (λ t. t.1 ≤ s.1) ss × IsRanked ss

count-place :
    (test : Scored → Bool) (s : Scored) (ss : List Scored)
    → count test (place s ss) ≡ count test (s ∷ ss)
unfolding place
count-place test s [] = refl
count-place test s (t ∷ ts) = ground (arith, count-place test s ts)

count-sort : (test : Scored → Bool) (ss : List Scored) → count test (sort ss) ≡ count test ss
unfolding sort
count-sort test [] = refl
count-sort test (s ∷ ss) = omega (arith, count-sort test ss, count-place test s (sort ss))

All-place :
    (P : Scored → Type 0) (s : Scored) (ss : List Scored) → P s → All P ss → All P (place s ss)
unfolding place
All-place P s [] p h = (p, tt)
All-place P s (t ∷ ts) p h = elim (Bool-cases (leb t.1 s.1)) [
  | inl first ↦ rw first (p, h)
  | inr later ↦ rw later (h.0, All-place P s ts p h.1)
]

All-le : (m n : ℕ) (ss : List Scored) → m ≤ n → All (λ t. t.1 ≤ m) ss → All (λ t. t.1 ≤ n) ss
All-le m n [] h k = tt
All-le m n (s ∷ ss) h k = (omega (arith, h, k.0), All-le m n ss h k.1)

place-IsRanked : (s : Scored) (ss : List Scored) → IsRanked ss → IsRanked (place s ss)
unfolding place
place-IsRanked s [] h = (tt, tt)
place-IsRanked s (t ∷ ts) h = elim (Bool-cases (leb t.1 s.1)) [
  | inl first ↦
      let below : t.1 ≤ s.1 = ground (arith, first) in
      rw first ((below, All-le t.1 s.1 ts below h.0), h)
  | inr later ↦
      let below : s.1 ≤ t.1 = ground (arith, later) in
      rw later (All-place (λ u. u.1 ≤ t.1) s ts below h.0, place-IsRanked s ts h.1)
]

sort-IsRanked : (ss : List Scored) → IsRanked (sort ss)
unfolding sort
sort-IsRanked [] = tt
sort-IsRanked (s ∷ ss) = place-IsRanked s (sort ss) (sort-IsRanked ss)

sort-All : (P : Scored → Type 0) (ss : List Scored) → All P ss → All P (sort ss)
unfolding sort
sort-All P [] h = tt
sort-All P (s ∷ ss) h = All-place P s (sort ss) h.0 (sort-All P ss h.1)

scores_of :
    (clock : Clock) (now : ℤ) (tasks : List DiscoveredTask)
    → All
        (λ (s : Scored). s.1 ≡ score clock now s.0)
        (map (λ task. (task, score clock now task)) tasks)
scores_of clock now [] = tt
scores_of clock now (task ∷ tasks) = (refl, scores_of clock now tasks)

count-map :
    (test : DiscoveredTask → Bool) (clock : Clock) (now : ℤ) (tasks : List DiscoveredTask)
    → count (λ (s : Scored). test s.0) (map (λ task. (task, score clock now task)) tasks)
      ≡ count test tasks
count-map test clock now [] = refl
count-map test clock now (task ∷ tasks) = omega (arith, count-map test clock now tasks)

-- A scored batch goes from the highest score to the lowest, holds with each task its own score, and
-- holds the tasks that were given: as many of them pass any test.
pub score_batch-IsRanked :
    (clock : Clock) (now : ℤ) (tasks : List DiscoveredTask) (test : DiscoveredTask → Bool)
    → IsRanked (score_batch clock now tasks)
      × All (λ (s : Scored). s.1 ≡ score clock now s.0) (score_batch clock now tasks)
      × (count (λ (s : Scored). test s.0) (score_batch clock now tasks) ≡ count test tasks)
unfolding score_batch
score_batch-IsRanked clock now tasks test =
    let scored = map (λ task. (task, score clock now task)) tasks in
    (
      sort-IsRanked scored,
      sort-All (λ (s : Scored). s.1 ≡ score clock now s.0) scored (scores_of clock now tasks),
      count-sort (λ (s : Scored). test s.0) scored ∙ count-map test clock now tasks,
    )
