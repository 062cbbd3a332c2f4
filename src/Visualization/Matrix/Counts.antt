-- ===== src/Visualization/Matrix/Counts.antt =====
-- plugins/visualization/src/matrix/eisenhower.ts: how many tasks of the quadrants pass a test.
use openclaw_enterprise.Common.{
  ℕ, ◌+◌, List, [], ◌∷◌, count, count-append, Bool, if◌then◌else◌, ◌≡◌, refl, arith,
}
use openclaw_enterprise.Visualization.Matrix.{
  EisenhowerQuadrant, PlottedTask, QuadrantLists, put, put_all, place_task, sort_tasks,
}

count-place_task :
    (test : PlottedTask → Bool) (t : PlottedTask) (ts : List PlottedTask)
    → count test (place_task t ts) ≡ count test (t ∷ ts)
unfolding place_task
count-place_task test t [] = refl
count-place_task test t (u ∷ us) = ground (arith, count-place_task test t us)

pub count-sort_tasks :
    (test : PlottedTask → Bool) (ts : List PlottedTask) → count test (sort_tasks ts) ≡ count test ts
unfolding sort_tasks
count-sort_tasks test [] = refl
count-sort_tasks test (t ∷ ts) =
    omega (arith, count-sort_tasks test ts, count-place_task test t (sort_tasks ts))

-- How many tasks of the four lists pass a test.
abbrev pub count_quadrants : (PlottedTask → Bool) → QuadrantLists → ℕ
count_quadrants test q =
    count test q.do_first + count test q.schedule + count test q.delegate + count test q.eliminate

count-put :
    (test : PlottedTask → Bool) (t : PlottedTask) (k : EisenhowerQuadrant) (q : QuadrantLists)
    → count_quadrants test (put t k q) ≡ (if test t then 1 else 0) + count_quadrants test q
count-put test t EisenhowerQuadrant.do_first q =
    omega (arith, count-append test q.do_first (t ∷ []))
count-put test t EisenhowerQuadrant.schedule q =
    omega (arith, count-append test q.schedule (t ∷ []))
count-put test t EisenhowerQuadrant.delegate q =
    omega (arith, count-append test q.delegate (t ∷ []))
count-put test t EisenhowerQuadrant.eliminate q =
    omega (arith, count-append test q.eliminate (t ∷ []))

pub count-put_all :
    (test : PlottedTask → Bool) (ts : List PlottedTask) (q : QuadrantLists)
    → count_quadrants test (put_all ts q) ≡ count test ts + count_quadrants test q
unfolding put_all
count-put_all test [] q = omega arith
count-put_all test (t ∷ ts) q =
    omega (arith, count-put_all test ts (put t t.quadrant q), count-put test t t.quadrant q)
