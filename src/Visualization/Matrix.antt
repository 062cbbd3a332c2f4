-- ===== src/Visualization/Matrix.antt =====
-- plugins/visualization/src/matrix/eisenhower.ts: tasks by urgency and importance.
pub mod Counts
pub mod Quadrants
use openclaw_enterprise.Common.{
  ℕ, ◌+◌, ◌*◌, ◌/◌, min, ◌==◌, leb, ℤ, String, List, [], ◌∷◌, ◌++◌, map, length, not, ◌&&◌, Option,
  none, some, if◌then◌else◌,
}
use openclaw_enterprise.Shared.Types.{
  DataClassificationLevel, public, internal, confidential, restricted,
}
use openclaw_enterprise.Shared.Tasks.{TaskStatus, Task}
use openclaw_enterprise.TaskIntelligence.Scorer.{is_blank, within_hours, Clock, milliseconds}

pub data EisenhowerQuadrant : Type 0 where
  do_first schedule delegate eliminate : EisenhowerQuadrant

pub record PlottedTask : Type 0 where
  pub id : String
  pub title : String
  pub status : TaskStatus
  pub priority_score : ℕ
  pub urgency : ℕ
  pub importance : ℕ
  pub quadrant : EisenhowerQuadrant
  pub deadline : Option String
  pub classification : DataClassificationLevel

pub record QuadrantLists : Type 0 where
  pub do_first : List PlottedTask
  pub schedule : List PlottedTask
  pub delegate : List PlottedTask
  pub eliminate : List PlottedTask

pub record QuadrantCounts : Type 0 where
  pub do_first : ℕ
  pub schedule : ℕ
  pub delegate : ℕ
  pub eliminate : ℕ

pub record EisenhowerMatrixData : Type 0 where
  pub tasks : List PlottedTask
  pub quadrants : QuadrantLists
  pub total_tasks : ℕ
  pub quadrant_counts : QuadrantCounts
  pub generated_at : String

abbrev pub urgency_threshold : ℕ
urgency_threshold = 50

abbrev pub importance_threshold : ℕ
importance_threshold = 50

-- `scoreDeadlineUrgency`, for a time that is given.
abbrev pub deadline_urgency : ℤ → Option ℤ → ℕ
deadline_urgency now t =
    if within_hours now t 0
    then 40
    else if within_hours now t 4
    then 36
    else if within_hours now t 24
    then 28
    else if within_hours now t 72
    then 20
    else if within_hours now t 168
    then 12
    else 5

abbrev pub score_deadline_urgency : Clock → ℤ → Option String → ℕ
score_deadline_urgency clock now deadline =
    if is_blank deadline then 5 else deadline_urgency now (milliseconds clock deadline)

abbrev pub score_follow_up_urgency : ℕ → ℕ
score_follow_up_urgency count =
    if count == 0
    then 0
    else if count == 1
    then 8
    else if count == 2
    then 15
    else if leb count 4
    then 22
    else 30

-- `scoreSlaUrgency`, for a time that is given.
abbrev pub sla_urgency : ℤ → Option ℤ → ℕ
sla_urgency now t =
    if within_hours now t 0
    then 30
    else if within_hours now t 1
    then 26
    else if within_hours now t 4
    then 20
    else if within_hours now t 24
    then 12
    else 5

abbrev pub score_sla_urgency : Clock → ℤ → Option String → ℕ
score_sla_urgency clock now sla_timer =
    if is_blank sla_timer then 0 else sla_urgency now (milliseconds clock sla_timer)

-- `Math.round(n * 3.5)` rounds a half up.
abbrev pub score_seniority_importance : Option ℕ → ℕ
score_seniority_importance none = 10
score_seniority_importance (some seniority) = min 35 ((seniority * 7 + 1) / 2)

abbrev pub blocking_importance : ℕ → ℕ
blocking_importance count =
    if count == 0 then 0 else if count == 1 then 15 else if leb count 3 then 25 else 35

abbrev pub score_blocking_importance : List String → ℕ
score_blocking_importance relationships = blocking_importance (length relationships)

abbrev pub score_classification_importance : DataClassificationLevel → ℕ
score_classification_importance restricted = 30
score_classification_importance confidential = 22
score_classification_importance internal = 12
score_classification_importance public = 5

abbrev pub urgency_points : Clock → ℤ → Task → ℕ
urgency_points clock now task =
    score_deadline_urgency clock now task.deadline
    + score_follow_up_urgency task.urgency_signals.follow_up_count
    + score_sla_urgency clock now task.urgency_signals.sla_timer

unfoldable pub compute_urgency : Clock → ℤ → Task → ℕ
compute_urgency clock now task = min 100 (urgency_points clock now task)

abbrev pub importance_points : Task → ℕ
importance_points task =
    score_seniority_importance task.urgency_signals.sender_seniority
    + score_blocking_importance task.urgency_signals.blocking_relationships
    + score_classification_importance task.classification

unfoldable pub compute_importance : Task → ℕ
compute_importance task = min 100 (importance_points task)

abbrev pub assign_quadrant : ℕ → ℕ → EisenhowerQuadrant
assign_quadrant urgency importance =
    let is_urgent = leb urgency_threshold urgency in
    let is_important = leb importance_threshold importance in
    if is_urgent && is_important
    then EisenhowerQuadrant.do_first
    else if not is_urgent && is_important
    then EisenhowerQuadrant.schedule
    else if is_urgent && not is_important
    then EisenhowerQuadrant.delegate
    else EisenhowerQuadrant.eliminate

abbrev pub plot_task : Clock → ℤ → Task → PlottedTask
plot_task clock now task = record {
  id = task.id;
  title = task.title;
  status = task.status;
  priority_score = task.priority_score;
  urgency = compute_urgency clock now task;
  importance = compute_importance task;
  quadrant = assign_quadrant (compute_urgency clock now task) (compute_importance task);
  deadline = task.deadline;
  classification = task.classification;
}

-- `quadrants[task.quadrant].push(task)`
abbrev pub put : PlottedTask → EisenhowerQuadrant → QuadrantLists → QuadrantLists
put t EisenhowerQuadrant.do_first q = record q { do_first = q.do_first ++ t ∷ [] }
put t EisenhowerQuadrant.schedule q = record q { schedule = q.schedule ++ t ∷ [] }
put t EisenhowerQuadrant.delegate q = record q { delegate = q.delegate ++ t ∷ [] }
put t EisenhowerQuadrant.eliminate q = record q { eliminate = q.eliminate ++ t ∷ [] }

unfoldable pub put_all : List PlottedTask → QuadrantLists → QuadrantLists
put_all [] q = q
put_all (t ∷ ts) q = put_all ts (put t t.quadrant q)

-- `sort((a, b) => b.priorityScore - a.priorityScore)`, which is stable.
unfoldable pub place_task : PlottedTask → List PlottedTask → List PlottedTask
place_task t [] = t ∷ []
place_task t (u ∷ us) =
    let later = place_task t us in
    if leb u.priority_score t.priority_score then t ∷ u ∷ us else u ∷ later

unfoldable pub sort_tasks : List PlottedTask → List PlottedTask
sort_tasks [] = []
sort_tasks (t ∷ ts) = place_task t (sort_tasks ts)

abbrev pub sort_quadrants : QuadrantLists → QuadrantLists
sort_quadrants q = record {
  do_first = sort_tasks q.do_first;
  schedule = sort_tasks q.schedule;
  delegate = sort_tasks q.delegate;
  eliminate = sort_tasks q.eliminate;
}

abbrev pub no_tasks : QuadrantLists
no_tasks = record { do_first = []; schedule = []; delegate = []; eliminate = [] }

-- `generate`; `text` is the text of the current time.
unfoldable pub generate : Clock → ℤ → String → List Task → EisenhowerMatrixData
generate clock now text tasks =
    let plotted = map (plot_task clock now) tasks in
    let quadrants = sort_quadrants (put_all plotted no_tasks) in
    record {
      tasks = plotted;
      quadrants = quadrants;
      total_tasks = length plotted;
      quadrant_counts = record {
        do_first = length quadrants.do_first;
        schedule = length quadrants.schedule;
        delegate = length quadrants.delegate;
        eliminate = length quadrants.eliminate;
      };
      generated_at = text;
    }
