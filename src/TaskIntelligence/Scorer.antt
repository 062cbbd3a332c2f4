-- ===== src/TaskIntelligence/Scorer.antt =====
-- plugins/task-intelligence/src/scoring/scorer.ts: the priority of a task from its urgency signals.
pub mod Bounds
pub mod Order
use openclaw_enterprise.Common.{
  ℕ, ◌+◌, ◌*◌, ◌/◌, min, ℤ, pos, ◌+ℤ◌, ltb_ℤ, String, List, [], ◌∷◌, length, Option, none, some,
  leb, ◌==◌, if◌then◌else◌, map, Bool, true, false,
}
use openclaw_enterprise.Common.Text.{is_empty}
use openclaw_enterprise.TaskIntelligence.Scanner.{DiscoveredTask}

-- Text that is not there, or empty.
abbrev pub is_blank : Option String → Bool
is_blank none = true
is_blank (some text) = is_empty text

-- A time lies before `now` and so many hours; `none` is `NaN`, which is below nothing.
abbrev pub within_hours : ℤ → Option ℤ → ℕ → Bool
within_hours now none hours = false
within_hours now (some t) hours = ltb_ℤ t (now +ℤ pos (hours * 3600000))

-- The milliseconds of a text that gives a time: `new Date(text).getTime()`.
abbrev pub Clock : Type 0
Clock = String → Option ℤ

abbrev pub milliseconds : Clock → Option String → Option ℤ
milliseconds clock none = none
milliseconds clock (some text) = clock text

-- `scoreDeadline`
abbrev pub deadline_points : ℤ → Option ℤ → ℕ
deadline_points now t =
    if within_hours now t 0
    then 30
    else if within_hours now t 4
    then 28
    else if within_hours now t 24
    then 22
    else if within_hours now t 72
    then 15
    else if within_hours now t 168
    then 10
    else 5

abbrev pub score_deadline : Clock → ℤ → Option String → ℕ
score_deadline clock now deadline =
    if is_blank deadline then 5 else deadline_points now (milliseconds clock deadline)

-- `scoreSeniority`; `Math.round(n * 1.5)` rounds a half up.
abbrev pub score_seniority : Option ℕ → ℕ
score_seniority none = 5
score_seniority (some seniority) = min 15 ((seniority * 3 + 1) / 2)

-- `scoreFollowUps`
abbrev pub score_follow_ups : ℕ → ℕ
score_follow_ups count =
    if count == 0
    then 0
    else if count == 1
    then 5
    else if count == 2
    then 10
    else if leb count 4
    then 15
    else 20

-- `scoreSla`
abbrev pub sla_points : ℤ → Option ℤ → ℕ
sla_points now t =
    if within_hours now t 0
    then 20
    else if within_hours now t 1
    then 18
    else if within_hours now t 4
    then 14
    else if within_hours now t 24
    then 8
    else 3

abbrev pub score_sla : Clock → ℤ → Option String → ℕ
score_sla clock now sla_timer =
    if is_blank sla_timer then 0 else sla_points now (milliseconds clock sla_timer)

-- `scoreBlocking`
abbrev pub blocking_points : ℕ → ℕ
blocking_points count =
    if count == 0 then 0 else if count == 1 then 8 else if leb count 3 then 12 else 15

abbrev pub score_blocking : List String → ℕ
score_blocking relationships = blocking_points (length relationships)

-- The sum before it is bounded.
abbrev pub points : Clock → ℤ → DiscoveredTask → ℕ
points clock now task =
    score_deadline clock now task.deadline
    + score_seniority task.urgency_signals.sender_seniority
    + score_follow_ups task.urgency_signals.follow_up_count
    + score_sla clock now task.urgency_signals.sla_timer
    + score_blocking task.urgency_signals.blocking_relationships

-- `score`. The sum is a natural number: rounding keeps it, and it is not below 0.
unfoldable pub score : Clock → ℤ → DiscoveredTask → ℕ
score clock now task = min 100 (points clock now task)

abbrev pub Scored : Type 0
Scored = DiscoveredTask × ℕ

-- `sort((a, b) => b.score - a.score)`, which is stable: an element goes before the first one of a
-- lower score that stood behind it.
unfoldable pub place : Scored → List Scored → List Scored
place s [] = s ∷ []
place s (t ∷ ts) = if leb t.1 s.1 then s ∷ t ∷ ts else t ∷ place s ts

unfoldable pub sort : List Scored → List Scored
sort [] = []
sort (s ∷ ss) = place s (sort ss)

-- `scoreBatch`
unfoldable pub score_batch : Clock → ℤ → List DiscoveredTask → List Scored
score_batch clock now tasks = sort (map (λ task. (task, score clock now task)) tasks)
