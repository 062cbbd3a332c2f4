-- ===== src/Visualization/Matrix/Quadrants.antt =====
-- plugins/visualization/src/matrix/eisenhower.ts: the tasks of the quadrants.
use openclaw_enterprise.Common.{◌+◌, ◌≤◌, ◌<◌, min, ℤ, List, [], ◌∷◌, All, ◌≡◌}
use openclaw_enterprise.Shared.Tasks.{Task}
use openclaw_enterprise.TaskIntelligence.Scorer.{Clock}
use openclaw_enterprise.Visualization.Matrix.{
  EisenhowerQuadrant, PlottedTask, QuadrantLists, score_deadline_urgency, score_follow_up_urgency,
  score_sla_urgency, score_seniority_importance, score_blocking_importance,
  score_classification_importance,
}

-- What the quadrants are, by urgency and importance.
abbrev pub Belongs : EisenhowerQuadrant → PlottedTask → Type 0
Belongs EisenhowerQuadrant.do_first t = (50 ≤ t.urgency) × (50 ≤ t.importance)
Belongs EisenhowerQuadrant.schedule t = (t.urgency < 50) × (50 ≤ t.importance)
Belongs EisenhowerQuadrant.delegate t = (50 ≤ t.urgency) × (t.importance < 50)
Belongs EisenhowerQuadrant.eliminate t = (t.urgency < 50) × (t.importance < 50)

-- Every task of a list belongs to a quadrant.
abbrev AreIn : EisenhowerQuadrant → List PlottedTask → Type 0
AreIn k ts = All (Belongs k) ts

-- No priority is below one that follows.
abbrev IsDescending : List PlottedTask → Type 0
IsDescending [] = Unit
IsDescending (t ∷ ts) = All (λ u. u.priority_score ≤ t.priority_score) ts × IsDescending ts

abbrev Belong : QuadrantLists → Type 0
Belong q =
    AreIn EisenhowerQuadrant.do_first q.do_first
    × AreIn EisenhowerQuadrant.schedule q.schedule
    × AreIn EisenhowerQuadrant.delegate q.delegate
    × AreIn EisenhowerQuadrant.eliminate q.eliminate

-- Every list holds tasks of its quadrant, from the highest priority to the lowest.
abbrev pub AreSorted : QuadrantLists → Type 0
AreSorted q =
    Belong q
    × IsDescending q.do_first
    × IsDescending q.schedule
    × IsDescending q.delegate
    × IsDescending q.eliminate

-- The tasks with their scores, in order.
abbrev pub ArePlots : Clock → ℤ → List Task → List PlottedTask → Type 0
ArePlots clock now [] [] = Unit
ArePlots clock now (task ∷ tasks) (t ∷ ts) =
    (t.id ≡ task.id)
    × (t.priority_score ≡ task.priority_score)
    × (t.urgency
        ≡ min 100 (
            score_deadline_urgency clock now task.deadline
            + score_follow_up_urgency task.urgency_signals.follow_up_count
            + score_sla_urgency clock now task.urgency_signals.sla_timer))
    × (t.importance
        ≡ min 100 (
            score_seniority_importance task.urgency_signals.sender_seniority
            + score_blocking_importance task.urgency_signals.blocking_relationships
            + score_classification_importance task.classification))
    × ArePlots clock now tasks ts
ArePlots clock now _ _ = ⊥
