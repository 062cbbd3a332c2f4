-- ===== src/TaskIntelligence/Correlator/Partition.antt =====
-- plugins/task-intelligence/src/correlation/correlator.ts: the groups split the tasks.
use openclaw_enterprise.Common.{
  ℕ, suc, ◌+◌, ◌≤◌, ◌<◌, List, [], ◌∷◌, ◌++◌, Bool, true, false, ◌==◌, if◌then◌else◌, count,
  count-append, Bool-cases, inl, inr, ◌≡◌, refl, ◌∙◌, ap, arith,
}
use openclaw_enterprise.TaskIntelligence.Scanner.{DiscoveredTask}
use openclaw_enterprise.TaskIntelligence.Correlator.{
  Confidences, CorrelatedTaskGroup, has, numbered, Grouping, compare_with, merge_in, relate, gather,
  new_group, group_all, correlate,
}

-- The tasks of a group that no other group may hold.
abbrev pub members : {N : Type 0} → CorrelatedTaskGroup N → List DiscoveredTask
members g = g.primary ∷ g.merged

abbrev pub members_of_all : {N : Type 0} → List (CorrelatedTaskGroup N) → List DiscoveredTask
members_of_all [] = []
members_of_all (g ∷ gs) = members g ++ members_of_all gs

-- How many tasks that are not assigned pass a test.
abbrev left : (DiscoveredTask → Bool) → List ℕ → List (ℕ × DiscoveredTask) → ℕ
left test assigned [] = 0
left test assigned ((i, task) ∷ rest) =
    (if has assigned i then 0 else if test task then 1 else 0) + left test assigned rest

-- Every place is at least this one, and they grow.
abbrev Ascend : ℕ → List (ℕ × DiscoveredTask) → Type 0
Ascend i [] = Unit
Ascend i ((j, task) ∷ rest) = (i ≤ j) × Ascend (suc j) rest

-- A place before the tasks changes nothing when it is assigned.
left_before :
    (test : DiscoveredTask → Bool) (i j : ℕ) (assigned : List ℕ) (rest : List (ℕ × DiscoveredTask))
    → j < i
    → Ascend i rest
    → left test (j ∷ assigned) rest ≡ left test assigned rest
left_before test i j assigned [] h a = refl
left_before test i j assigned ((k, task) ∷ rest) h a =
    let before : j < suc k = omega (arith, h, a.0) in
    let ih = left_before test (suc k) j assigned rest before a.1 in
    let differs : (j == k) ≡ false = ground (arith, h, a) in rw differs (omega (arith, ih))

module _ {N : Type 0} (c : Confidences N) where
  -- One task of the inner loop.
  abbrev next : DiscoveredTask → ℕ → DiscoveredTask → Grouping c → Grouping c
  next first j task g = if has g.assigned j then g else compare_with c first j task g

  next-primary :
      (first : DiscoveredTask) (j : ℕ) (task : DiscoveredTask) (g : Grouping c)
      → (next first j task g).group.primary ≡ g.group.primary
  next-primary first j task g = ground arith

  gather-primary :
      (first : DiscoveredTask) (rest : List (ℕ × DiscoveredTask)) (g : Grouping c)
      → (gather c first rest g).group.primary ≡ g.group.primary
  unfolding gather
  gather-primary first [] g = refl
  gather-primary first ((j, task) ∷ rest) g =
      gather-primary first rest (next first j task g) ∙ next-primary first j task g

  -- A place that was passed is assigned or not as before.
  next-has :
      (first : DiscoveredTask) (k j : ℕ) (task : DiscoveredTask) (g : Grouping c)
      → k < j
      → has (next first j task g).assigned k ≡ has g.assigned k
  next-has first k j task g h =
      let differs : (j == k) ≡ false = ground (arith, h) in ground (arith, differs)

  gather-has :
      (first : DiscoveredTask) (k i : ℕ) (rest : List (ℕ × DiscoveredTask)) (g : Grouping c)
      → k < i
      → Ascend i rest
      → has (gather c first rest g).assigned k ≡ has g.assigned k
  unfolding gather
  gather-has first k i [] g h a = refl
  gather-has first k i ((j, task) ∷ rest) g h a =
      let before : k < j = omega (arith, h, a.0) in
      gather-has first k (suc j) rest (next first j task g) (omega (arith, before)) a.1
      ∙ next-has first k j task g before

  -- The tasks that pass a test and are merged or not assigned.
  abbrev total : (DiscoveredTask → Bool) → Grouping c → List (ℕ × DiscoveredTask) → ℕ
  total test g rest = count test g.group.merged + left test g.assigned rest

  merge_in-left :
      (test : DiscoveredTask → Bool) (j : ℕ) (task : DiscoveredTask)
      (rest : List (ℕ × DiscoveredTask)) (confidence : N) (g : Grouping c)
      → Ascend (suc j) rest
      → has g.assigned j ≡ false
      → total test (merge_in c j task confidence g) ((j, task) ∷ rest)
        ≡ total test g ((j, task) ∷ rest)
  merge_in-left test j task rest confidence g a free =
      let longer = count-append test g.group.merged (task ∷ []) in
      let same = left_before test (suc j) j g.assigned rest (omega arith) a in
      let itself : (j == j) ≡ true = ground arith in
      rw itself (rw free (omega (arith, longer, same)))

  compare_with-left :
      (test : DiscoveredTask → Bool) (first : DiscoveredTask) (j : ℕ) (task : DiscoveredTask)
      (rest : List (ℕ × DiscoveredTask)) (g : Grouping c)
      → Ascend (suc j) rest
      → has g.assigned j ≡ false
      → total test (compare_with c first j task g) ((j, task) ∷ rest)
        ≡ total test g ((j, task) ∷ rest)
  compare_with-left test first j task rest g a free =
      let confidence = c.compute_confidence first task in
      elim (Bool-cases (c.at_least confidence c.auto_merge_threshold)) [
        | inl merge ↦
            let is : compare_with c first j task g ≡ merge_in c j task confidence g =
              rw merge refl in
            ap (λ (x : Grouping c). total test x ((j, task) ∷ rest)) is
            ∙ merge_in-left test j task rest confidence g a free
        | inr apart ↦ elim (Bool-cases (c.at_least confidence c.possibly_related_threshold)) [
          | inl near ↦
              let is : compare_with c first j task g ≡ relate c task g = rw apart (rw near refl) in
              ap (λ (x : Grouping c). total test x ((j, task) ∷ rest)) is
          | inr far ↦
              let is : compare_with c first j task g ≡ g = rw apart (rw far refl) in
              ap (λ (x : Grouping c). total test x ((j, task) ∷ rest)) is
        ]
      ]

  next-left :
      (test : DiscoveredTask → Bool) (first : DiscoveredTask) (j : ℕ) (task : DiscoveredTask)
      (rest : List (ℕ × DiscoveredTask)) (g : Grouping c)
      → Ascend (suc j) rest
      → total test (next first j task g) ((j, task) ∷ rest) ≡ total test g ((j, task) ∷ rest)
  next-left test first j task rest g a = elim (Bool-cases (has g.assigned j)) [
    | inl taken ↦
        let is : next first j task g ≡ g = rw taken refl in
        ap (λ (x : Grouping c). total test x ((j, task) ∷ rest)) is
    | inr free ↦
        let is : next first j task g ≡ compare_with c first j task g = rw free refl in
        ap (λ (x : Grouping c). total test x ((j, task) ∷ rest)) is
        ∙ compare_with-left test first j task rest g a free
  ]

  -- What the inner loop takes is merged, and the rest is left.
  gather-left :
      (test : DiscoveredTask → Bool) (first : DiscoveredTask) (i : ℕ)
      (rest : List (ℕ × DiscoveredTask)) (g : Grouping c)
      → Ascend i rest
      → count test (gather c first rest g).group.merged
          + left test (gather c first rest g).assigned rest
        ≡ count test g.group.merged + left test g.assigned rest
  unfolding gather
  gather-left test first i [] g a = refl
  gather-left test first i ((j, task) ∷ rest) g a =
      let ih = gather-left test first (suc j) rest (next first j task g) a.1 in
      let kept = gather-has first j (suc j) rest (next first j task g) (omega arith) a.1 in
      let step = next-left test first j task rest g a.1 in rw kept (omega (arith, ih, step))

  group_all-count :
      (test : DiscoveredTask → Bool) (i : ℕ) (rest : List (ℕ × DiscoveredTask)) (assigned : List ℕ)
      → Ascend i rest
      → count test (members_of_all (group_all c rest assigned)) ≡ left test assigned rest
  unfolding group_all
  group_all-count test i [] assigned a = refl
  group_all-count test i ((j, task) ∷ rest) assigned a =
      let g0 : Grouping c = record { group = new_group c task; assigned = j ∷ assigned } in
      let g = gather c task rest g0 in
      let skipped = group_all-count test (suc j) rest assigned a.1 in
      let others = group_all-count test (suc j) rest g.assigned a.1 in
      let taken = gather-left test task (suc j) rest g0 a.1 in
      let same = left_before test (suc j) j assigned rest (omega arith) a.1 in
      let first = gather-primary task rest g0 in
      let split =
        count-append test (members g.group) (members_of_all (group_all c rest g.assigned)) in
      elim (Bool-cases (has assigned j)) [
        | inl done ↦ rw done (omega (arith, skipped))
        | inr free ↦
            let head : ◌≡◌ {A = ℕ} (if test g.group.primary then 1 else 0)
                (if test task then 1 else 0) =
              rw first refl in
            rw free (omega (arith, split, others, taken, same, head))
      ]

numbered-Ascend : (i : ℕ) (tasks : List DiscoveredTask) → Ascend i (numbered i tasks)
unfolding numbered
numbered-Ascend i [] = tt
numbered-Ascend i (task ∷ tasks) = (omega arith, numbered-Ascend (suc i) tasks)

left-numbered :
    (test : DiscoveredTask → Bool) (i : ℕ) (tasks : List DiscoveredTask)
    → left test [] (numbered i tasks) ≡ count test tasks
unfolding numbered
left-numbered test i [] = refl
left-numbered test i (task ∷ tasks) = omega (arith, left-numbered test (suc i) tasks)

-- The groups split the tasks: each task is the primary one or a merged one of exactly one group. As
-- many primary and merged tasks pass any test as tasks that were given, whatever the confidences are.
pub correlate-count :
    {N : Type 0} (c : Confidences N) (test : DiscoveredTask → Bool) (tasks : List DiscoveredTask)
    → count test (members_of_all (correlate c tasks)) ≡ count test tasks
unfolding correlate
correlate-count c test tasks =
    group_all-count c test 0 (numbered 0 tasks) [] (numbered-Ascend 0 tasks)
    ∙ left-numbered test 0 tasks
