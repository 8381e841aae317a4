-- ===== src/EntryGraph/Sort.antt =====
-- EntryGraph::TopologicalSort. std::priority_queue is a list, of which the greatest element is taken.
use ift_encoder.Prelude.{
  ℕ, zero, suc, ◌-◌, Bool, List, [], ◌∷◌, ◌++◌, Option, none, some, ltb, ◌==◌, if◌then◌else◌,
  length, get_or, set,
}
use ift_encoder.IntSet.Defs.{HbSet}
use ift_encoder.Condition.Defs.{ActivationCondition}
use ift_encoder.EntryGraph.Coverage.{Containers}
use ift_encoder.EntryGraph.Nodes.{EntryNode, EntryGraph, find_condition, node_at}

pub data SortResult : Type 0 where
  sorted_nodes : List ℕ → SortResult
  top_level_underflow edge_count_underflow cycle_detected sort_out_of_fuel : SortResult

-- The greatest element of a queue, by the comparison, and the others.
unfoldable pub pop_top : (ℕ → ℕ → Bool) → ℕ → List ℕ → ℕ × List ℕ
pop_top before x [] = (x, [])
pop_top before x (y ∷ ys) =
    let (top, rest) = pop_top before y ys in
    if before top x then (x, top ∷ rest) else (top, x ∷ rest)

-- The indices, from `i` on, of the counts that are 0.
unfoldable pub zero_counts : ℕ → List ℕ → List ℕ
zero_counts i [] = []
zero_counts i (n ∷ counts) =
    let rest = zero_counts (suc i) counts in if n == 0 then i ∷ rest else rest

-- The loop over the children of a node: the counts and the queue.
unfoldable pub visit_children : List ℕ → List ℕ → List ℕ → Option (List ℕ × List ℕ)
visit_children [] counts queue = some (counts, queue)
visit_children (child ∷ children) counts queue =
    let n = get_or counts child 0 in
    let rest =
      visit_children children (set counts child (n - 1))
        (if n - 1 == 0 then child ∷ queue else queue) in
    if n == 0 then none else rest

module _ (hb : HbSet) (box : Containers) where
  -- NodeComparator
  unfoldable pub node_before : List (EntryNode hb box) → ℕ → ℕ → Bool
  unfolding node_at
  node_before nodes a b =
      let node_a = node_at hb box nodes a in
      let node_b = node_at hb box nodes b in
      if node_a.condition_index == node_b.condition_index
      then ltb a b
      else ltb node_a.condition_index node_b.condition_index

  -- The first loop: an edge for each condition of patch_mappings is taken away.
  unfoldable pub remove_top_level :
      List (ActivationCondition hb × List ℕ) → EntryGraph hb box → List ℕ → Option (List ℕ)
  unfolding find_condition
  remove_top_level [] g counts = some counts
  remove_top_level (mapping ∷ mappings) g counts =
      elim (find_condition hb box mapping.0 g.condition_to_node_id) [
        | none ↦ remove_top_level mappings g counts
        | some id ↦
            let n = get_or counts id 0 in
            let rest = remove_top_level mappings g (set counts id (n - 1)) in
            if n == 0 then none else rest
      ]

  -- Kahn's algorithm. A round takes a node out of the queue, and each node is queued once.
  unfoldable pub sort_loop : ℕ → List (EntryNode hb box) → List ℕ → List ℕ → List ℕ → SortResult
  unfolding node_before node_at pop_top visit_children
  sort_loop zero nodes counts queue sorted = sort_out_of_fuel
  sort_loop (suc fuel) nodes counts [] sorted = sorted_nodes sorted
  sort_loop (suc fuel) nodes counts (x ∷ queue) sorted =
      let (id, rest) = pop_top (node_before nodes) x queue in
      elim (visit_children (hb.values (node_at hb box nodes id).children_ids) counts rest) [
        | none ↦ edge_count_underflow
        | some (counts', queue') ↦ sort_loop fuel nodes counts' queue' (sorted ++ id ∷ [])
      ]

  -- The comparison of sizes behind the loop.
  unfoldable pub check_size : List (EntryNode hb box) → SortResult → SortResult
  check_size nodes (sorted_nodes sorted) =
      if length sorted == length nodes then sorted_nodes sorted else cycle_detected
  check_size nodes top_level_underflow = top_level_underflow
  check_size nodes edge_count_underflow = edge_count_underflow
  check_size nodes cycle_detected = cycle_detected
  check_size nodes sort_out_of_fuel = sort_out_of_fuel

  unfoldable pub topological_sort : EntryGraph hb box → SortResult
  unfolding remove_top_level zero_counts sort_loop check_size
  topological_sort g = elim (remove_top_level g.patch_mappings g g.incoming_edge_count) [
    | none ↦ top_level_underflow
    | some counts ↦
        check_size g.nodes
          (sort_loop (suc (length counts)) g.nodes counts (zero_counts 0 counts) [])
  ]
