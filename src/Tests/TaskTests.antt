-- ===== src/Tests/TaskTests.antt =====
-- The theorems on tasks and on their graph, at a few tasks.
use openclaw_enterprise.Common.{
  ℕ, ◌≤◌, leb, ℤ, pos, ◌+ℤ◌, String, List, [], ◌∷◌, map, select, length, count, false, not, Option,
  none, some, ◌≡◌, refl, arith, str_eq, eq_iff, All, if◌then◌else◌,
}
use openclaw_enterprise.Shared.Types.{internal}
use openclaw_enterprise.Shared.Tasks.{Task, TaskStatus}
use openclaw_enterprise.Visualization.Graph.{
  DependencyGraphData, compute_critical_path_length, generate,
}
use openclaw_enterprise.Visualization.Graph.Rounds.{compute_critical_path_length_ends}
use openclaw_enterprise.Visualization.Graph.Links.{links_to, generate_counts}
use openclaw_enterprise.TaskIntelligence.Scanner.{DiscoveredTask}
use openclaw_enterprise.TaskIntelligence.Scorer.{Clock, Scored, score, score_batch}
use openclaw_enterprise.TaskIntelligence.Scorer.Bounds.{score_mono, sooner, unset, both_known}
use openclaw_enterprise.TaskIntelligence.Scorer.Order.{IsRanked, score_batch-IsRanked}
use openclaw_enterprise.TaskIntelligence.Correlator.{Confidences, correlate}
use openclaw_enterprise.TaskIntelligence.Correlator.Partition.{members_of_all, correlate-count}
use openclaw_enterprise.TaskIntelligence.Retention.{
  TaskRecord, TaskStore, archive_completed, delete_all, is_due, is_older, process_retention,
  is_long_archived, is_stale,
}
use openclaw_enterprise.TaskIntelligence.Retention.Steps.{Steps, process_retention-Steps}
use openclaw_enterprise.TaskIntelligence.Retention.Done.{
  StoreLaws, archive_test, process_retention_done,
}

abbrev task : String → List String → Task
task id blocks = record {
  id = id;
  title = id;
  priority_score = 70;
  status = TaskStatus.active;
  sources = [];
  deadline = none;
  urgency_signals = record {
    sender_seniority = none;
    follow_up_count = 0;
    sla_timer = none;
    blocking_relationships = blocks;
  };
  classification = internal;
}

-- a blocks b, b blocks c; d and e block each other.
abbrev five : List Task
five =
    task "a" ("b" ∷ [])
    ∷ task "b" ("c" ∷ "gone" ∷ [])
    ∷ task "c" []
    ∷ task "d" ("e" ∷ [])
    ∷ task "e" ("d" ∷ [])
    ∷ []

compute_critical_path_length_ends_example :
    (longest : ℕ) × (compute_critical_path_length five ≡ some longest)
compute_critical_path_length_ends_example = compute_critical_path_length_ends five

generate_counts_example :
    (data_ : DependencyGraphData) × (generate "now" five ≡ some data_)
    × All (λ n. n.blocked_by_count ≡ links_to n.id data_.links) data_.nodes
    × (data_.total_tasks ≡ length data_.nodes)
    × (data_.total_dependencies ≡ length data_.links)
    × (map (λ n. n.id) data_.nodes ≡ map (λ t. t.id) five)
generate_counts_example = generate_counts "now" five

abbrev found : String → Option String → ℕ → DiscoveredTask
found title deadline follow_ups = record {
  title = title;
  description = "";
  source = record { system = "jira"; id = title; url = "" };
  classification = internal;
  deadline = deadline;
  urgency_signals = record {
    sender_seniority = some 4;
    follow_up_count = follow_ups;
    sla_timer = none;
    blocking_relationships = [];
  };
  discovered_at = "";
}

abbrev clock : Clock
clock text = if str_eq text "soon" then some (pos 1000) else some (pos 900000000)

score_mono_example :
    score clock (pos 0) (found "x" (some "late") 1)
    ≤ score clock (pos 0) (found "y" (some "soon") 2)
score_mono_example =
    score_mono clock (pos 0) (found "x" (some "late") 1) (found "y" (some "soon") 2)
      (sooner {s = pos 1000} {t = pos 900000000} refl refl refl (omega arith)) (unset refl)
      (both_known (omega arith)) (omega arith) (omega arith)

abbrev two : List DiscoveredTask
two = found "x" (some "late") 1 ∷ found "y" (some "soon") 2 ∷ []

score_batch-IsRanked_example :
    IsRanked (score_batch clock (pos 0) two)
    × All (λ (s : Scored). s.1 ≡ score clock (pos 0) s.0) (score_batch clock (pos 0) two)
    × (count (λ (s : Scored). str_eq s.0.title "y") (score_batch clock (pos 0) two)
        ≡ count (λ t. str_eq t.title "y") two)
score_batch-IsRanked_example = score_batch-IsRanked clock (pos 0) two (λ t. str_eq t.title "y")

-- Confidences in tenths.
abbrev tenths : Confidences ℕ
tenths = record {
  at_least = λ a b. leb b a;
  lower = λ a b. if leb a b then a else b;
  one = 10;
  auto_merge_threshold = 8;
  possibly_related_threshold = 5;
  compute_confidence = λ a b. if str_eq a.title b.title then 9 else 6;
}

abbrev three_found : List DiscoveredTask
three_found = found "x" none 1 ∷ found "y" none 2 ∷ found "x" none 3 ∷ []

correlate-count_example :
    count (λ t. str_eq t.title "x") (members_of_all (correlate tenths three_found))
    ≡ count (λ t. str_eq t.title "x") three_found
correlate-count_example = correlate-count tenths (λ t. str_eq t.title "x") three_found

abbrev kept : String → Option String → TaskRecord
kept status completed = record {
  id = status;
  status = status;
  completed_at = completed;
  archived_at = some "old";
  discovered_at = "new";
}

-- A store that is the list of its tasks.
abbrev move : String → String → TaskRecord → TaskRecord
move id status t =
    if str_eq t.id id then record t { status = status; archived_at = some "now" } else t

abbrev list_store : TaskStore (List TaskRecord)
list_store = record {
  find_by_status = λ status ts. select (λ t. str_eq t.status status) ts;
  update_status = λ id status fields ts. map (move id status) ts;
  delete = λ id ts. select (λ t. not (str_eq t.id id)) ts;
}

select-delete :
    (status id : String) (ts : List TaskRecord)
    → select (λ t. str_eq t.status status) (select (λ t. not (str_eq t.id id)) ts)
      ≡ select (λ t. not (str_eq t.id id)) (select (λ t. str_eq t.status status) ts)
select-delete status id [] = refl
select-delete status id (t ∷ ts) = ground (arith, select-delete status id ts)

select-move :
    (status id : String) (ts : List TaskRecord)
    → str_eq status "archived" ≡ false
    → select (λ t. str_eq t.status status) (map (move id "archived") ts)
      ≡ select (λ t. not (str_eq t.id id)) (select (λ t. str_eq t.status status) ts)
select-move status id [] h = refl
select-move status id (t ∷ ts) h =
    ground (arith, select-move status id ts h, eq_iff "archived" status, eq_iff status "archived")

abbrev list_store_laws : StoreLaws list_store
list_store_laws = record {
  find-delete = λ status id ts. select-delete status id ts;
  find-archive = λ status id fields ts h. select-move status id ts h;
}

abbrev some_tasks : List TaskRecord
some_tasks = kept "completed" (some "old") ∷ kept "archived" none ∷ kept "active" none ∷ []

abbrev times : String → Option ℤ
times text = if str_eq text "old" then some (pos 0) else some (pos 8000000000)

process_retention-Steps_example :
    Steps list_store times
      (pos 8000000000)
      (λ n. pos 8000000000)
      1
      1
      some_tasks
      (process_retention list_store times (pos 8000000000) (λ n. pos 8000000000) some_tasks).0
unfolding process_retention archive_completed delete_all is_due is_older ◌+ℤ◌
process_retention-Steps_example =
    process_retention-Steps list_store times (pos 8000000000) (λ n. pos 8000000000) some_tasks

process_retention_done_example :
    All
      (λ t.
        archive_test list_store list_store_laws times (pos 8000000000) (λ n. pos 8000000000) t
        ≡ false)
      (list_store.find_by_status "completed"
        (process_retention list_store times (pos 8000000000) (λ n. pos 8000000000) some_tasks).0)
    × All
        (λ t. is_long_archived list_store times (pos 8000000000) (λ n. pos 8000000000) t ≡ false)
        (list_store.find_by_status "archived"
          (process_retention list_store times (pos 8000000000) (λ n. pos 8000000000) some_tasks).0)
    × All
        (λ t. is_stale list_store times (pos 8000000000) (λ n. pos 8000000000) t ≡ false)
        (list_store.find_by_status "active"
          (process_retention list_store times (pos 8000000000) (λ n. pos 8000000000) some_tasks).0)
    × All
        (λ t. is_stale list_store times (pos 8000000000) (λ n. pos 8000000000) t ≡ false)
        (list_store.find_by_status "discovered"
          (process_retention list_store times (pos 8000000000) (λ n. pos 8000000000) some_tasks).0)
process_retention_done_example =
    process_retention_done list_store list_store_laws times (pos 8000000000) (λ n. pos 8000000000)
      some_tasks
