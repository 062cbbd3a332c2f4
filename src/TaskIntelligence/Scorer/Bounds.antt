-- ===== src/TaskIntelligence/Scorer/Bounds.antt =====
-- plugins/task-intelligence/src/scoring/scorer.ts: the bounds of a score, and what makes it grow.
use openclaw_enterprise.Common.{
  ℕ, ◌≤◌, ℤ, ◌≤ℤ◌, Option, none, some, length, arith, ◌≡◌, if◌then◌else◌, String, Bool, true, false,
}
use openclaw_enterprise.TaskIntelligence.Scanner.{DiscoveredTask}
use openclaw_enterprise.TaskIntelligence.Scorer.{
  Clock, score_deadline, score_seniority, score_follow_ups, score_sla, points, score,
  deadline_points, sla_points, blocking_points, milliseconds, is_blank, within_hours,
}

deadline_points-bound : (now : ℤ) (t : Option ℤ) → deadline_points now t ≤ 30
deadline_points-bound now t = ground arith

sla_points-bound : (now : ℤ) (t : Option ℤ) → sla_points now t ≤ 20
sla_points-bound now t = ground arith

if_bound : (b : Bool) (x y bound : ℕ) → x ≤ bound → y ≤ bound → (if b then x else y) ≤ bound
if_bound b x y bound h k = ground arith

seniority_bound : (s : Option ℕ) → score_seniority s ≤ 15
seniority_bound none = omega arith
seniority_bound (some n) = omega arith

follow_ups_bound : (n : ℕ) → score_follow_ups n ≤ 20
follow_ups_bound n = ground arith

blocking_bound : (n : ℕ) → blocking_points n ≤ 15
blocking_bound n = ground arith

-- The parts of a score add up to at most 100, so that the score of any task is their sum: the bounds
-- that the code puts on it cut nothing off.
pub score-points :
    (clock : Clock) (now : ℤ) (task : DiscoveredTask)
    → (score clock now task ≡ points clock now task) × (score clock now task ≤ 100)
unfolding score
score-points clock now task =
    let d =
      if_bound (is_blank task.deadline) 5 (deadline_points now (milliseconds clock task.deadline))
        30 (omega arith) (deadline_points-bound now (milliseconds clock task.deadline)) in
    let s =
      if_bound (is_blank task.urgency_signals.sla_timer) 0
        (sla_points now (milliseconds clock task.urgency_signals.sla_timer)) 20 (omega arith)
        (sla_points-bound now (milliseconds clock task.urgency_signals.sla_timer)) in
    let n = seniority_bound task.urgency_signals.sender_seniority in
    let f = follow_ups_bound task.urgency_signals.follow_up_count in
    let b = blocking_bound (length task.urgency_signals.blocking_relationships) in
    (omega (arith, d, s, n, f, b), omega arith)

-- An earlier time lies within as many hours.
within_hours_mono :
    (now s t : ℤ) (hours : ℕ)
    → s ≤ℤ t
    → within_hours now (some t) hours ≡ true
    → within_hours now (some s) hours ≡ true
within_hours_mono now s t hours h e = ground arith

deadline_points_mono :
    (now s t : ℤ) → s ≤ℤ t → deadline_points now (some t) ≤ deadline_points now (some s)
deadline_points_mono now s t h = ground (
  arith,
  within_hours_mono now s t 0 h,
  within_hours_mono now s t 4 h,
  within_hours_mono now s t 24 h,
  within_hours_mono now s t 72 h,
  within_hours_mono now s t 168 h,
)

sla_points_mono : (now s t : ℤ) → s ≤ℤ t → sla_points now (some t) ≤ sla_points now (some s)
sla_points_mono now s t h = ground (
  arith,
  within_hours_mono now s t 0 h,
  within_hours_mono now s t 1 h,
  within_hours_mono now s t 4 h,
  within_hours_mono now s t 24 h,
)

deadline_points_least : (now : ℤ) (t : Option ℤ) → 5 ≤ deadline_points now t
deadline_points_least now t = ground arith

-- The second text gives a time that is not later than the first one's, or the first gives none.
pub data IsNoLater (clock : Clock) : Option String → Option String → Type 0 where
  unset : {a b : Option String} → is_blank a ≡ true → IsNoLater clock a b
  sooner :
      {a b : Option String} {s t : ℤ}
      → is_blank b ≡ false
      → milliseconds clock a ≡ some t
      → milliseconds clock b ≡ some s
      → s ≤ℤ t
      → IsNoLater clock a b

-- The second sender is at least as senior, both both_known or both unknown.
pub data IsAsSenior : Option ℕ → Option ℕ → Type 0 where
  unknown : IsAsSenior none none
  both_known : {m n : ℕ} → m ≤ n → IsAsSenior (some m) (some n)

score_deadline_mono :
    (clock : Clock) (now : ℤ) (a b : Option String)
    → IsNoLater clock a b
    → score_deadline clock now a ≤ score_deadline clock now b
score_deadline_mono clock now a b (unset blank) =
    rw blank (ground (arith, deadline_points_least now (milliseconds clock b)))
score_deadline_mono clock now a b (sooner {s} {t} given late soon h) =
    let mono = deadline_points_mono now s t h in
    let least = deadline_points_least now (some s) in
    rw given (
      rw soon (
        rw late (
          if_bound (is_blank a) 5 (deadline_points now (some t)) (deadline_points now (some s))
            least mono)))

score_sla_mono :
    (clock : Clock) (now : ℤ) (a b : Option String)
    → IsNoLater clock a b
    → score_sla clock now a ≤ score_sla clock now b
score_sla_mono clock now a b (unset blank) = rw blank (omega arith)
score_sla_mono clock now a b (sooner {s} {t} given late soon h) =
    let mono = sla_points_mono now s t h in
    rw given (
      rw soon (
        rw late (
          if_bound (is_blank a) 0 (sla_points now (some t)) (sla_points now (some s)) (omega arith)
            mono)))

seniority_mono : (a b : Option ℕ) → IsAsSenior a b → score_seniority a ≤ score_seniority b
seniority_mono none none unknown = omega arith
seniority_mono none (some n) h = elim h [ ]
seniority_mono (some m) none h = elim h [ ]
seniority_mono (some m) (some n) (both_known h) = omega (arith, h)

follow_ups_mono : (m n : ℕ) → m ≤ n → score_follow_ups m ≤ score_follow_ups n
follow_ups_mono m n h = ground arith

blocking_mono : (m n : ℕ) → m ≤ n → blocking_points m ≤ blocking_points n
blocking_mono m n h = ground arith

-- A task whose deadline and SLA are not later than another's, whose sender is at least as senior and
-- that has at least as many follow-ups and blocks at least as many others scores at least as high.
pub score_mono :
    (clock : Clock) (now : ℤ) (a b : DiscoveredTask)
    → IsNoLater clock a.deadline b.deadline
    → IsNoLater clock a.urgency_signals.sla_timer b.urgency_signals.sla_timer
    → IsAsSenior a.urgency_signals.sender_seniority b.urgency_signals.sender_seniority
    → a.urgency_signals.follow_up_count ≤ b.urgency_signals.follow_up_count
    → length a.urgency_signals.blocking_relationships
      ≤ length b.urgency_signals.blocking_relationships
    → score clock now a ≤ score clock now b
unfolding score
score_mono clock now a b deadline sla senior follow_ups blocking =
    let d = score_deadline_mono clock now a.deadline b.deadline deadline in
    let s = score_sla_mono clock now a.urgency_signals.sla_timer b.urgency_signals.sla_timer sla in
    let n =
      seniority_mono a.urgency_signals.sender_seniority b.urgency_signals.sender_seniority senior in
    let f =
      follow_ups_mono a.urgency_signals.follow_up_count b.urgency_signals.follow_up_count
        follow_ups in
    let k =
      blocking_mono (length a.urgency_signals.blocking_relationships)
        (length b.urgency_signals.blocking_relationships) blocking in
    omega (arith, d, s, n, f, k)
