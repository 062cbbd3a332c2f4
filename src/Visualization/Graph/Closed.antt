-- ===== src/Visualization/Graph/Closed.antt =====
-- plugins/visualization/src/graphs/dependency.ts: every task that the adjacency lists name has an
-- in-degree.
use openclaw_enterprise.Common.{
  ℤ, pos, ◌+ℤ◌, String, List, [], ◌∷◌, ◌++◌, true, get_or, lookup, insert, lookup-insert, ◌≡◌, refl,
  sym, arith, eq_refl, str_eq, if◌then◌else◌, Bool-cases, inl, inr, All, All-append,
}
use mathlib.Core.Path.{subst}
use openclaw_enterprise.Shared.Tasks.{Task}
use openclaw_enterprise.Visualization.Graph.{
  Walk, Degrees, is_some, is_zero, degrees, ids_of, add_edge, add_edges_of, add_edges,
  start_degrees, start_walk, enqueue_roots,
}

-- Every task that an adjacency list names has an in-degree.
abbrev pub AreKnown : List String → List (String × ℤ) → Type 0
AreKnown names in_degree = All (λ k. is_some (lookup k in_degree) ≡ true) names

-- The tasks that the adjacency lists name have an in-degree.
abbrev pub IsClosed : List (String × List String) → List (String × ℤ) → Type 0
IsClosed adj in_degree = (k : String) → AreKnown (get_or (lookup k adj) []) in_degree

-- Writing an in-degree forgets none.
insert-AreKnown :
    (k : String) (v : ℤ) (d : List (String × ℤ)) (names : List String)
    → AreKnown names d
    → AreKnown names (insert k v d)
insert-AreKnown k v d [] h = tt
insert-AreKnown k v d (n ∷ names) h =
    let written = lookup-insert k n v d in
    let known = h.0 in (ground (arith, known, written), insert-AreKnown k v d names h.1)

-- So does writing an adjacency list whose tasks have an in-degree.
insert-IsClosed :
    (id k : String) (v : ℤ) (names : List String) (adj : List (String × List String))
    (d : List (String × ℤ))
    → AreKnown names (insert k v d)
    → IsClosed adj d
    → IsClosed (insert id names adj) (insert k v d)
insert-IsClosed id k v names adj d known h j =
    let written = lookup-insert id j names adj in
    elim (Bool-cases (str_eq id j)) [
      | inl same ↦ rw written (rw same known)
      | inr other ↦ rw written (rw other (insert-AreKnown k v d (get_or (lookup j adj) []) (h j)))
    ]

start_degrees-IsClosed :
    (tasks : List Task) (g : Degrees)
    → IsClosed g.adj g.in_degree
    → IsClosed (start_degrees tasks g).adj (start_degrees tasks g).in_degree
unfolding start_degrees
start_degrees-IsClosed [] g h = h
start_degrees-IsClosed (task ∷ tasks) g h =
    start_degrees-IsClosed tasks
      (record { adj = insert task.id [] g.adj; in_degree = insert task.id (pos 0) g.in_degree })
      (insert-IsClosed task.id task.id (pos 0) [] g.adj g.in_degree tt h)

add_edge-IsClosed :
    (ids : List (String × Task)) (id blocked : String) (g : Degrees)
    → IsClosed g.adj g.in_degree
    → IsClosed (add_edge ids id blocked g).adj (add_edge ids id blocked g).in_degree
add_edge-IsClosed ids id blocked g h = elim (Bool-cases (is_some (lookup blocked ids))) [
  | inl there_ ↦
      let v = get_or (lookup blocked g.in_degree) (pos 0) +ℤ pos 1 in
      let old = get_or (lookup id g.adj) [] in
      let written = lookup-insert blocked blocked v g.in_degree in
      let itself = eq_refl blocked in
      let known : is_some (lookup blocked (insert blocked v g.in_degree)) ≡ true =
        rw written (rw itself refl) in
      rw there_ (
        insert-IsClosed id blocked v (old ++ blocked ∷ []) g.adj g.in_degree
          (All-append (λ n. is_some (lookup n (insert blocked v g.in_degree)) ≡ true) old
            (blocked ∷ []) (insert-AreKnown blocked v g.in_degree old (h id)) (known, tt))
          h)
  | inr missing ↦ rw missing h
]

add_edges_of-IsClosed :
    (ids : List (String × Task)) (id : String) (blocked : List String) (g : Degrees)
    → IsClosed g.adj g.in_degree
    → IsClosed (add_edges_of ids id blocked g).adj (add_edges_of ids id blocked g).in_degree
unfolding add_edges_of
add_edges_of-IsClosed ids id [] g h = h
add_edges_of-IsClosed ids id (b ∷ blocked) g h =
    add_edges_of-IsClosed ids id blocked (add_edge ids id b g) (add_edge-IsClosed ids id b g h)

add_edges-IsClosed :
    (ids : List (String × Task)) (tasks : List Task) (g : Degrees)
    → IsClosed g.adj g.in_degree
    → IsClosed (add_edges ids tasks g).adj (add_edges ids tasks g).in_degree
unfolding add_edges
add_edges-IsClosed ids [] g h = h
add_edges-IsClosed ids (task ∷ tasks) g h =
    let blocked = task.urgency_signals.blocking_relationships in
    add_edges-IsClosed ids tasks (add_edges_of ids task.id blocked g)
      (add_edges_of-IsClosed ids task.id blocked g h)

no_degrees-IsClosed : IsClosed [] []
unfolding lookup
no_degrees-IsClosed k = tt

degrees-IsClosed : (tasks : List Task) → IsClosed (degrees tasks).adj (degrees tasks).in_degree
degrees-IsClosed tasks =
    let none_yet : Degrees = record { adj = []; in_degree = [] } in
    add_edges-IsClosed (ids_of tasks) tasks (start_degrees tasks none_yet)
      (start_degrees-IsClosed tasks none_yet no_degrees-IsClosed)

-- The first loop of the traversal writes no in-degree.
enqueue_roots-in_degree :
    (tasks : List Task) (w : Walk) → (enqueue_roots tasks w).in_degree ≡ w.in_degree
unfolding enqueue_roots
enqueue_roots-in_degree [] w = refl
enqueue_roots-in_degree (task ∷ tasks) w = enqueue_roots-in_degree tasks (record w {
  dist = insert task.id 1 w.dist;
  queue =
      if is_zero (get_or (lookup task.id w.in_degree) (pos 0))
      then w.queue ++ task.id ∷ []
      else w.queue;
})

pub start_walk-IsClosed :
    (tasks : List Task) → IsClosed (degrees tasks).adj (start_walk tasks).in_degree
start_walk-IsClosed tasks =
    let kept =
      enqueue_roots-in_degree tasks
        (record { dist = []; in_degree = (degrees tasks).in_degree; queue = []; max_path = 1 }) in
    subst (IsClosed (degrees tasks).adj) (sym kept) (degrees-IsClosed tasks)
