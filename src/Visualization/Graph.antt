-- ===== src/Visualization/Graph.antt =====
-- plugins/visualization/src/graphs/dependency.ts: the graph of the tasks that block each other, and
-- its longest chain. A `Map` is a dictionary; the queue is a list that is read at its front.
pub mod Closed
pub mod Rounds
pub mod Blocking
pub mod Chain
pub mod Links
use openclaw_enterprise.Common.{
  ℕ, zero, suc, ◌+◌, ℤ, pos, negsuc, ◌+ℤ◌, String, List, [], ◌∷◌, ◌++◌, Bool, true, false, Option,
  some, none, map, get_or, lookup, insert, length, leb, ltb, if◌then◌else◌,
}
use openclaw_enterprise.Shared.Types.{DataClassificationLevel}
use openclaw_enterprise.Shared.Tasks.{TaskStatus, Task}

pub data Group : Type 0 where
  critical high medium low : Group

pub record GraphNode : Type 0 where
  pub id : String
  pub title : String
  pub status : TaskStatus
  pub priority_score : ℕ
  pub deadline : Option String
  pub classification : DataClassificationLevel
  pub blocking_count : ℕ
  pub blocked_by_count : ℕ
  pub group : Group

-- `type` is always `blocks`.
pub record GraphLink : Type 0 where
  pub source : String
  pub target : String

pub record DependencyGraphData : Type 0 where
  pub nodes : List GraphNode
  pub links : List GraphLink
  pub total_tasks : ℕ
  pub total_dependencies : ℕ
  pub critical_path_length : ℕ
  pub generated_at : String

abbrev pub is_some {ℓ} : {A : Type ℓ} → Option A → Bool
is_some none = false
is_some (some a) = true

-- `taskMap`: the last task of each id.
unfoldable pub task_map : List Task → List (String × Task) → List (String × Task)
task_map [] d = d
task_map (task ∷ tasks) d = task_map tasks (insert task.id task d)

abbrev pub ids_of : List Task → List (String × Task)
ids_of tasks = task_map tasks []

-- The three variables of the loop that builds the links.
pub record Linking : Type 0 where
  pub blocked_by_counts : List (String × ℕ)
  pub blocking_counts : List (String × ℕ)
  pub links : List GraphLink

-- A link is made only to a task that is there.
abbrev pub add_link : List (String × Task) → String → String → Linking → Linking
add_link ids task_id blocked_id l =
    if is_some (lookup blocked_id ids)
    then record l {
      links = l.links ++ record { source = task_id; target = blocked_id } ∷ [];
      blocked_by_counts =
          insert blocked_id (get_or (lookup blocked_id l.blocked_by_counts) 0 + 1)
            l.blocked_by_counts;
    }
    else l

unfoldable pub add_links : List (String × Task) → String → List String → Linking → Linking
add_links ids task_id [] l = l
add_links ids task_id (blocked_id ∷ blocked_ids) l =
    add_links ids task_id blocked_ids (add_link ids task_id blocked_id l)

unfoldable pub link_tasks : List (String × Task) → List Task → Linking → Linking
link_tasks ids [] l = l
link_tasks ids (task ∷ tasks) l =
    let blocked_ids = task.urgency_signals.blocking_relationships in
    link_tasks ids tasks (
      add_links ids task.id blocked_ids
        (record l { blocking_counts = insert task.id (length blocked_ids) l.blocking_counts }))

abbrev pub no_links : Linking
no_links = record { blocked_by_counts = []; blocking_counts = []; links = [] }

-- `assignGroup`.
abbrev pub assign_group : ℕ → Group
assign_group score =
    if leb 80 score
    then critical
    else if leb 60 score
    then high
    else if leb 30 score
    then medium
    else low

abbrev pub node_of : Linking → Task → GraphNode
node_of l task = record {
  id = task.id;
  title = task.title;
  status = task.status;
  priority_score = task.priority_score;
  deadline = task.deadline;
  classification = task.classification;
  blocking_count = get_or (lookup task.id l.blocking_counts) 0;
  blocked_by_count = get_or (lookup task.id l.blocked_by_counts) 0;
  group = assign_group task.priority_score;
}

-- The adjacency lists and the in-degrees. An in-degree falls below 0 where two tasks share an id.
pub record Degrees : Type 0 where
  pub adj : List (String × List String)
  pub in_degree : List (String × ℤ)

unfoldable pub start_degrees : List Task → Degrees → Degrees
start_degrees [] g = g
start_degrees (task ∷ tasks) g =
    start_degrees tasks
      (record { adj = insert task.id [] g.adj; in_degree = insert task.id (pos 0) g.in_degree })

abbrev pub add_edge : List (String × Task) → String → String → Degrees → Degrees
add_edge ids task_id blocked_id g =
    if is_some (lookup blocked_id ids)
    then record {
      adj = insert task_id (get_or (lookup task_id g.adj) [] ++ blocked_id ∷ []) g.adj;
      in_degree =
          insert blocked_id (get_or (lookup blocked_id g.in_degree) (pos 0) +ℤ pos 1) g.in_degree;
    }
    else g

unfoldable pub add_edges_of : List (String × Task) → String → List String → Degrees → Degrees
add_edges_of ids task_id [] g = g
add_edges_of ids task_id (blocked_id ∷ blocked_ids) g =
    add_edges_of ids task_id blocked_ids (add_edge ids task_id blocked_id g)

unfoldable pub add_edges : List (String × Task) → List Task → Degrees → Degrees
add_edges ids [] g = g
add_edges ids (task ∷ tasks) g =
    add_edges ids tasks (add_edges_of ids task.id task.urgency_signals.blocking_relationships g)

abbrev pub degrees : List Task → Degrees
degrees tasks =
    add_edges (ids_of tasks) tasks (start_degrees tasks (record { adj = []; in_degree = [] }))

-- The variables of the traversal.
pub record Walk : Type 0 where
  pub dist : List (String × ℕ)
  pub in_degree : List (String × ℤ)
  pub queue : List String
  pub max_path : ℕ

abbrev pub is_zero : ℤ → Bool
is_zero (pos zero) = true
is_zero _ = false

-- The first loop: each task is at distance 1, and those that nothing blocks are queued.
unfoldable pub enqueue_roots : List Task → Walk → Walk
enqueue_roots [] w = w
enqueue_roots (task ∷ tasks) w = enqueue_roots tasks (record w {
  dist = insert task.id 1 w.dist;
  queue =
      if is_zero (get_or (lookup task.id w.in_degree) (pos 0))
      then w.queue ++ task.id ∷ []
      else w.queue;
})

-- One neighbor of a task at distance `new_dist - 1`.
unfoldable pub visit : ℕ → String → Walk → Walk
visit new_dist neighbor w =
    let new_in_degree = get_or (lookup neighbor w.in_degree) (pos 1) +ℤ negsuc 0 in
    record {
      dist =
          if ltb (get_or (lookup neighbor w.dist) 1) new_dist
          then insert neighbor new_dist w.dist
          else w.dist;
      max_path = if ltb w.max_path new_dist then new_dist else w.max_path;
      in_degree = insert neighbor new_in_degree w.in_degree;
      queue = if is_zero new_in_degree then w.queue ++ neighbor ∷ [] else w.queue;
    }

unfoldable pub visit_all : ℕ → List String → Walk → Walk
visit_all new_dist [] w = w
visit_all new_dist (neighbor ∷ neighbors) w =
    visit_all new_dist neighbors (visit new_dist neighbor w)

-- The body of the traversal. Every task has a distance.
abbrev pub round : List (String × List String) → String → Walk → Walk
round adj current w =
    visit_all (get_or (lookup current w.dist) 1 + 1) (get_or (lookup current adj) []) w

-- `queue.shift()`, and the body; `none` where the queue is empty.
abbrev pub next_round : List (String × List String) → List String → Walk → Option Walk
next_round adj [] w = none
next_round adj (current ∷ queue) w = some (round adj current (record w { queue = queue }))

-- The traversal on fuel; `none` where the fuel runs out before the queue is empty.
unfoldable pub walk : ℕ → List (String × List String) → Walk → Option Walk
walk zero adj w = none
walk (suc fuel) adj w = elim (next_round adj w.queue w) [
  | none ↦ some w
  | some next ↦ walk fuel adj next
]

abbrev pub start_walk : List Task → Walk
start_walk tasks =
    enqueue_roots tasks
      (record { dist = []; in_degree = (degrees tasks).in_degree; queue = []; max_path = 1 })

-- Rounds that are enough for any tasks.
abbrev pub fuel_for : Walk → ℕ
fuel_for w = suc (length w.queue + length w.in_degree)

-- `computeCriticalPathLength`; `none` is a traversal that does not end.
unfoldable pub compute_critical_path_length : List Task → Option ℕ
compute_critical_path_length [] = some 0
compute_critical_path_length (task ∷ tasks) =
    let w = start_walk (task ∷ tasks) in
    elim (walk (fuel_for w) (degrees (task ∷ tasks)).adj w) [
      | none ↦ none
      | some end ↦ some end.max_path
    ]

-- What `generate` returns where the critical path is so long.
abbrev pub graph_of : String → List Task → ℕ → DependencyGraphData
graph_of now tasks longest =
    let l = link_tasks (ids_of tasks) tasks no_links in
    record {
      nodes = map (node_of l) tasks;
      links = l.links;
      total_tasks = length (map (node_of l) tasks);
      total_dependencies = length l.links;
      critical_path_length = longest;
      generated_at = now;
    }

-- `generate`; `now` is the text of the current time.
unfoldable pub generate : String → List Task → Option DependencyGraphData
generate now tasks = elim (compute_critical_path_length tasks) [
  | none ↦ none
  | some longest ↦ some (graph_of now tasks longest)
]
