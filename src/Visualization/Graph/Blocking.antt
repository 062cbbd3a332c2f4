-- ===== src/Visualization/Graph/Blocking.antt =====
-- plugins/visualization/src/graphs/dependency.ts: the adjacency lists hold what the tasks say they
-- block.
use openclaw_enterprise.Common.{
  pos, String, List, [], ◌∷◌, ◌++◌, true, some, get_or, lookup, insert, lookup-insert, ◌≡◌, refl,
  sym, ◌∙◌, eq_iff, str_eq, Bool-cases, Option-cases, inl, inr, All, All-append, In, here, there,
}
use mathlib.Core.Path.{subst}
use openclaw_enterprise.Shared.Tasks.{Task}
use openclaw_enterprise.Visualization.Graph.{
  Degrees, is_some, degrees, ids_of, task_map, add_edge, add_edges_of, add_edges, start_degrees,
}

-- One of the tasks has this id.
abbrev pub IsTask : List Task → String → Type 0
IsTask tasks k = (t : Task) × In t tasks × (t.id ≡ k)

-- One of the tasks with id `u` says that it blocks `v`, the id of one of the tasks.
abbrev pub Blocks : List Task → String → String → Type 0
Blocks tasks u v =
    (t : Task) × In t tasks
    × (t.id ≡ u)
    × In v t.urgency_signals.blocking_relationships
    × IsTask tasks v

-- `taskMap` holds tasks of the list under their ids.
abbrev Holds : List Task → List (String × Task) → Type 0
Holds tasks d = (k : String) (t : Task) → lookup k d ≡ some t → In t tasks × (t.id ≡ k)

insert-Holds :
    (tasks : List Task) (d : List (String × Task)) (t : Task)
    → In t tasks
    → Holds tasks d
    → Holds tasks (insert t.id t d)
insert-Holds tasks d t member h k s e =
    let written = lookup-insert t.id k t d in
    elim (Bool-cases (str_eq t.id k)) [
      | inl same ↦
          let written' = rw same at written in
          let is : t ≡ s = cc in
          subst (λ x. In x tasks × (x.id ≡ k)) is (member, (eq_iff t.id k).0 same)
      | inr other ↦ let written' = rw other at written in h k s (sym written' ∙ e)
    ]

task_map-Holds :
    (tasks rest : List Task) (d : List (String × Task))
    → ((t : Task) → In t rest → In t tasks)
    → Holds tasks d
    → Holds tasks (task_map rest d)
unfolding task_map
task_map-Holds tasks [] d within h = h
task_map-Holds tasks (t ∷ rest) d within h =
    task_map-Holds tasks rest (insert t.id t d) (λ s m. within s (there m))
      (insert-Holds tasks d t (within t (here refl)) h)

no_tasks-Holds : (tasks : List Task) → Holds tasks []
unfolding lookup
no_tasks-Holds tasks k t e = cc

ids_of-IsTask :
    (tasks : List Task) (k : String) → is_some (lookup k (ids_of tasks)) ≡ true → IsTask tasks k
ids_of-IsTask tasks k known = elim (Option-cases (lookup k (ids_of tasks))) [
  | inl absent ↦ let none_ = rw absent at known in cc
  | inr (t, found) ↦
      let (member, same) =
        task_map-Holds tasks tasks [] (λ s m. m) (no_tasks-Holds tasks) k t found in
      (t, member, same)
]

-- Every entry of the adjacency lists is a task that its key blocks.
abbrev pub AreBlocks : List Task → List (String × List String) → Type 0
AreBlocks tasks adj = (u : String) → All (Blocks tasks u) (get_or (lookup u adj) [])

insert-AreBlocks :
    (tasks : List Task) (id : String) (names : List String) (adj : List (String × List String))
    → All (Blocks tasks id) names
    → AreBlocks tasks adj
    → AreBlocks tasks (insert id names adj)
insert-AreBlocks tasks id names adj new h u =
    let written = lookup-insert id u names adj in
    elim (Bool-cases (str_eq id u)) [
      | inl same ↦
          rw written (rw same (subst (λ k. All (Blocks tasks k) names) ((eq_iff id u).0 same) new))
      | inr other ↦ rw written (rw other (h u))
    ]

start_degrees-AreBlocks :
    (tasks rest : List Task) (g : Degrees)
    → AreBlocks tasks g.adj
    → AreBlocks tasks (start_degrees rest g).adj
unfolding start_degrees
start_degrees-AreBlocks tasks [] g h = h
start_degrees-AreBlocks tasks (t ∷ rest) g h =
    start_degrees-AreBlocks tasks rest
      (record { adj = insert t.id [] g.adj; in_degree = insert t.id (pos 0) g.in_degree })
      (insert-AreBlocks tasks t.id [] g.adj tt h)

add_edges_of-AreBlocks :
    (tasks : List Task) (t : Task) (blocked : List String) (g : Degrees)
    → In t tasks
    → ((v : String) → In v blocked → In v t.urgency_signals.blocking_relationships)
    → AreBlocks tasks g.adj
    → AreBlocks tasks (add_edges_of (ids_of tasks) t.id blocked g).adj
unfolding add_edges_of
add_edges_of-AreBlocks tasks t [] g member within h = h
add_edges_of-AreBlocks tasks t (b ∷ blocked) g member within h =
    add_edges_of-AreBlocks tasks t blocked (add_edge (ids_of tasks) t.id b g) member
      (λ v m. within v (there m))
      (elim (Bool-cases (is_some (lookup b (ids_of tasks)))) [
        | inl known ↦
            let old = get_or (lookup t.id g.adj) [] in
            let edge : Blocks tasks t.id b =
              (t, member, refl, within b (here refl), ids_of-IsTask tasks b known) in
            rw known (
              insert-AreBlocks tasks t.id (old ++ b ∷ []) g.adj
                (All-append (Blocks tasks t.id) old (b ∷ []) (h t.id) (edge, tt)) h)
        | inr missing ↦ rw missing h
      ])

add_edges-AreBlocks :
    (tasks rest : List Task) (g : Degrees)
    → ((t : Task) → In t rest → In t tasks)
    → AreBlocks tasks g.adj
    → AreBlocks tasks (add_edges (ids_of tasks) rest g).adj
unfolding add_edges
add_edges-AreBlocks tasks [] g within h = h
add_edges-AreBlocks tasks (t ∷ rest) g within h =
    let blocked = t.urgency_signals.blocking_relationships in
    add_edges-AreBlocks tasks rest (add_edges_of (ids_of tasks) t.id blocked g)
      (λ s m. within s (there m))
      (add_edges_of-AreBlocks tasks t blocked g (within t (here refl)) (λ v m. m) h)

no_edges-AreBlocks : (tasks : List Task) → AreBlocks tasks []
unfolding lookup
no_edges-AreBlocks tasks u = tt

pub degrees-AreBlocks : (tasks : List Task) → AreBlocks tasks (degrees tasks).adj
degrees-AreBlocks tasks =
    let none_yet : Degrees = record { adj = []; in_degree = [] } in
    add_edges-AreBlocks tasks tasks (start_degrees tasks none_yet) (λ t m. m)
      (start_degrees-AreBlocks tasks tasks none_yet (no_edges-AreBlocks tasks))
