-- ===== src/Visualization/Graph/Links.antt =====
-- plugins/visualization/src/graphs/dependency.ts: the counts of the nodes against the links.
use openclaw_enterprise.Common.{
  ℕ, ◌+◌, String, List, [], ◌∷◌, ◌++◌, map, some, none, get_or, lookup, insert, lookup-insert,
  length, ◌≡◌, refl, ap, arith, eq_iff, str_eq, if◌then◌else◌, Bool-cases, inl, inr, All,
}
use mathlib.Core.Path.{subst}
use openclaw_enterprise.Shared.Tasks.{Task}
use openclaw_enterprise.Visualization.Graph.{
  GraphLink, DependencyGraphData, Linking, is_some, ids_of, add_link, add_links, link_tasks,
  no_links, node_of, generate, graph_of,
}
use openclaw_enterprise.Visualization.Graph.Rounds.{compute_critical_path_length_ends}

-- How many links go to a task.
abbrev pub links_to : String → List GraphLink → ℕ
links_to k [] = 0
links_to k (l ∷ links) = (if str_eq l.target k then 1 else 0) + links_to k links

links_to-append :
    (k : String) (xs ys : List GraphLink) → links_to k (xs ++ ys) ≡ links_to k xs + links_to k ys
links_to-append k [] ys = omega arith
links_to-append k (x ∷ xs) ys = omega (arith, links_to-append k xs ys)

-- The counts are those of the links so far.
abbrev IsCounted : Linking → Type 0
IsCounted l = (k : String) → get_or (lookup k l.blocked_by_counts) 0 ≡ links_to k l.links

add_link-IsCounted :
    (ids : List (String × Task)) (id blocked : String) (l : Linking)
    → IsCounted l
    → IsCounted (add_link ids id blocked l)
add_link-IsCounted ids id blocked l h k = elim (Bool-cases (is_some (lookup blocked ids))) [
  | inl known ↦
      let old = get_or (lookup blocked l.blocked_by_counts) 0 in
      let written = lookup-insert blocked k (old + 1) l.blocked_by_counts in
      let link : GraphLink = record { source = id; target = blocked } in
      let longer = links_to-append k l.links (link ∷ []) in
      let before = h k in
      let before' = h blocked in
      elim (Bool-cases (str_eq blocked k)) [
        | inl same ↦
            let is = (eq_iff blocked k).0 same in
            let at_k =
              subst (λ j. get_or (lookup j l.blocked_by_counts) 0 ≡ links_to j l.links) is
                before' in
            let longer' = rw same at longer in
            let same_old = ap (λ j. get_or (lookup j l.blocked_by_counts) 0) is in
            rw known (rw written (rw same (omega (arith, longer', before', before, same_old))))
        | inr other ↦
            let longer' = rw other at longer in
            rw known (rw written (rw other (omega (arith, longer', before))))
      ]
  | inr missing ↦ rw missing (h k)
]

add_links-IsCounted :
    (ids : List (String × Task)) (id : String) (blocked : List String) (l : Linking)
    → IsCounted l
    → IsCounted (add_links ids id blocked l)
unfolding add_links
add_links-IsCounted ids id [] l h = h
add_links-IsCounted ids id (b ∷ blocked) l h =
    add_links-IsCounted ids id blocked (add_link ids id b l) (add_link-IsCounted ids id b l h)

link_tasks-IsCounted :
    (ids : List (String × Task)) (tasks : List Task) (l : Linking)
    → IsCounted l
    → IsCounted (link_tasks ids tasks l)
unfolding link_tasks
link_tasks-IsCounted ids [] l h = h
link_tasks-IsCounted ids (task ∷ tasks) l h =
    let blocked = task.urgency_signals.blocking_relationships in
    let noted = record l { blocking_counts = insert task.id (length blocked) l.blocking_counts } in
    link_tasks-IsCounted ids tasks (add_links ids task.id blocked noted)
      (add_links-IsCounted ids task.id blocked noted h)

no_links-IsCounted : IsCounted no_links
unfolding lookup
no_links-IsCounted k = refl

-- The nodes made from counted links.
nodes-IsCounted :
    (l : Linking) (tasks : List Task)
    → IsCounted l
    → All (λ n. n.blocked_by_count ≡ links_to n.id l.links) (map (node_of l) tasks)
nodes-IsCounted l [] h = tt
nodes-IsCounted l (task ∷ tasks) h = (h task.id, nodes-IsCounted l tasks h)

-- The nodes keep the ids and their order.
map-node_of :
    (l : Linking) (tasks : List Task)
    → map (λ n. n.id) (map (node_of l) tasks) ≡ map (λ t. t.id) tasks
map-node_of l [] = refl
map-node_of l (task ∷ tasks) = ap (λ ids. task.id ∷ ids) (map-node_of l tasks)

-- For any tasks, `generate` returns a graph; in it `blockedByCount` of every node is the number of links
-- that go to it, the two totals are the numbers of nodes and of links, and there is a node for each
-- task, in the same order.
pub generate_counts :
    (now : String) (tasks : List Task)
    → (data_ : DependencyGraphData) × (generate now tasks ≡ some data_)
      × All (λ n. n.blocked_by_count ≡ links_to n.id data_.links) data_.nodes
      × (data_.total_tasks ≡ length data_.nodes)
      × (data_.total_dependencies ≡ length data_.links)
      × (map (λ n. n.id) data_.nodes ≡ map (λ t. t.id) tasks)
unfolding generate
generate_counts now tasks =
    let (longest, found) = compute_critical_path_length_ends tasks in
    let l = link_tasks (ids_of tasks) tasks no_links in
    let returned : generate now tasks ≡ some (graph_of now tasks longest) =
      ap (λ o. elim o [ none ↦ none | some n ↦ some (graph_of now tasks n) ]) found in
    (
      graph_of now tasks longest,
      returned,
      nodes-IsCounted l tasks
          (link_tasks-IsCounted (ids_of tasks) tasks no_links no_links-IsCounted),
      refl,
      refl,
      map-node_of l tasks,
    )
