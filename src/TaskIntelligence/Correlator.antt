-- ===== src/TaskIntelligence/Correlator.antt =====
-- plugins/task-intelligence/src/correlation/correlator.ts: the same work found in several systems.
-- The confidences are JavaScript's floating point numbers: a type with the operations that are used.
pub mod Partition
use openclaw_enterprise.Common.{ℕ, suc, List, [], ◌∷◌, ◌++◌, Bool, false, ◌||◌, ◌==◌, if◌then◌else◌}
use openclaw_enterprise.TaskIntelligence.Scanner.{DiscoveredTask}

-- `numbers`: the comparison `a >= b`, `Math.min`, the literals, and `computeConfidence`.
pub record Confidences (N : Type 0) : Type 0 where
  pub at_least : N → N → Bool
  pub lower : N → N → N
  pub one : N
  pub auto_merge_threshold : N
  pub possibly_related_threshold : N
  pub compute_confidence : DiscoveredTask → DiscoveredTask → N

pub record CorrelatedTaskGroup (N : Type 0) : Type 0 where
  pub primary : DiscoveredTask
  pub merged : List DiscoveredTask
  pub possibly_related : List DiscoveredTask
  pub confidence : N

-- `assigned.has(i)`
abbrev pub has : List ℕ → ℕ → Bool
has [] i = false
has (j ∷ js) i = (j == i) || has js i

-- The tasks with their places, from a place on.
unfoldable pub numbered : ℕ → List DiscoveredTask → List (ℕ × DiscoveredTask)
numbered i [] = []
numbered i (task ∷ tasks) = (i, task) ∷ numbered (suc i) tasks

module _ {N : Type 0} (c : Confidences N) where
  -- The group and the places that are assigned.
  pub record Grouping : Type 0 where
    pub group : CorrelatedTaskGroup N
    pub assigned : List ℕ

  abbrev pub merge_in : ℕ → DiscoveredTask → N → Grouping → Grouping
  merge_in j task confidence g = record {
    group = record g.group {
      merged = g.group.merged ++ task ∷ [];
      confidence = c.lower g.group.confidence confidence;
    };
    assigned = j ∷ g.assigned;
  }

  abbrev pub relate : DiscoveredTask → Grouping → Grouping
  relate task g = record g {
    group = record g.group { possibly_related = g.group.possibly_related ++ task ∷ [] };
  }

  -- The body of the inner loop, for a place that is not assigned.
  abbrev pub compare_with : DiscoveredTask → ℕ → DiscoveredTask → Grouping → Grouping
  compare_with first j task g =
      let confidence = c.compute_confidence first task in
      if c.at_least confidence c.auto_merge_threshold
      then merge_in j task confidence g
      else if c.at_least confidence c.possibly_related_threshold
      then relate task g
      else g

  -- The inner loop.
  unfoldable pub gather : DiscoveredTask → List (ℕ × DiscoveredTask) → Grouping → Grouping
  gather first [] g = g
  gather first ((j, task) ∷ rest) g =
      gather first rest (if has g.assigned j then g else compare_with first j task g)

  abbrev pub new_group : DiscoveredTask → CorrelatedTaskGroup N
  new_group task = record { primary = task; merged = []; possibly_related = []; confidence = c.one }

  -- The outer loop.
  unfoldable pub group_all : List (ℕ × DiscoveredTask) → List ℕ → List (CorrelatedTaskGroup N)
  group_all [] assigned = []
  group_all ((i, task) ∷ rest) assigned =
      let g = gather task rest (record { group = new_group task; assigned = i ∷ assigned }) in
      let skipped = group_all rest assigned in
      let others = group_all rest g.assigned in if has assigned i then skipped else g.group ∷ others

  -- `correlate`
  unfoldable pub correlate : List DiscoveredTask → List (CorrelatedTaskGroup N)
  correlate tasks = group_all (numbered 0 tasks) []
