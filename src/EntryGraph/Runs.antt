-- ===== src/EntryGraph/Runs.antt =====
-- Runs of the graph over sets as sorted lists, and the theorems at concrete inputs.
use ift_encoder.Prelude.{
  ℕ, ◌≡◌, refl, Bool, true, false, List, [], ◌∷◌, Option, none, some, All, length, arith,
  if◌then◌else◌, ◌==◌,
}
use ift_encoder.IntSet.Defs.{mem}
use ift_encoder.IntSet.SortedList.{insert, insert_all, SortedList, sorted_lists, subset, same}
use ift_encoder.IntSet.Defs.{less}
use ift_encoder.GlyphConditions.Defs.{triggering_segments, union_triggers, min_of}
use ift_encoder.Condition.Defs.{
  exclusive_segment, singleton, is_unitary, unitary, is_purely_disjunctive, ActivationCondition,
  blank, composite_condition, or_segments, simplify, insert_by, sort_by, unmarked, drop_redundant,
  find_redundant, no_marks, mark, smaller, set_less,
}
use ift_encoder.Condition.Ordering.{same_list}
use ift_encoder.EntryGraph.Coverage.{
  codepoints, features, design_space, Containers, Coverage, Request, all_empty,
}
use ift_encoder.EntryGraph.Nodes.{
  EntryGraph, Outcome, done, failed, node_at, condition_equal, same_groups, normalize,
  add_part_only, new_part, create_node, new_node, add_edge, put_node, put_condition_id,
  insert_child, insert_children, put_mode, extend_chain, chain_children, add_children_to_node, bind,
  find_condition, find_key, with_part, with_entry,
}
use ift_encoder.EntryGraph.Sort.{
  SortResult, sorted_nodes, cycle_detected, topological_sort, remove_top_level, zero_counts,
  sort_loop, check_size, pop_top, visit_children, node_before,
}
use ift_encoder.EntryGraph.Sorted.{Sorts, topological_sort-Sorts}
use ift_encoder.EntryGraph.Mapped.{same_list_refl}
use ift_encoder.EntryGraph.Groups.{Filled, KnownSegment}
use ift_encoder.EntryGraph.Build.{
  create_graph, add_conditions, add_mapping, new_graph, put_patches, reuse_node, add_unitary,
  add_compound, start_node, add_each, add_mixed, add_part_child, segment_at, sole_kind,
  child_conditions, mode_of, exclusive_all, or_all,
}
use ift_encoder.EntryGraph.Steps.{Yields}
use ift_encoder.EntryGraph.Lookup.{Distinct}
use ift_encoder.EntryGraph.Create.{Implements, create_graph-Implements}

abbrev is_nil : List ℕ → Bool
is_nil [] = true
is_nil (x ∷ xs) = false

mem-same_list : (x : ℕ) (xs ys : List ℕ) → same_list xs ys ≡ true → mem x xs ≡ mem x ys
unfolding same_list
mem-same_list x [] [] e = refl
mem-same_list x [] (z ∷ ys) e = cc
mem-same_list x (y ∷ xs) [] e = cc
mem-same_list x (y ∷ xs) (z ∷ ys) e = ground (arith, mem-same_list x xs ys)

-- The sets of an entry as lists.
abbrev lists : Containers
lists = record {
  Value = λ k. List ℕ;
  no_value = λ k. [];
  is_empty = λ k. is_nil;
  equal = λ k. same_list;
  is_empty_no_value = λ k. refl;
  equal_refl = λ k. same_list_refl;
}

-- A client asks for one value.
abbrev asks : ℕ → Request lists
asks x = record { meets = λ k v. mem x v; meets_equal = λ k v w e. mem-same_list x v w e }

-- The codepoint of a segment is its number, and the segment 2 has a feature.
abbrev coverage_of : ℕ → Coverage lists
coverage_of x codepoints = x ∷ []
coverage_of x features = if x == 2 then 7 ∷ [] else []
coverage_of x design_space = []

abbrev segment_map : ℕ → Option (Coverage lists)
segment_map x = some (coverage_of x)

abbrev segments_1_2 : SortedList
segments_1_2 = (1 ∷ 2 ∷ [], omega arith)

abbrev segments_3 : SortedList
segments_3 = (3 ∷ [], omega arith)

-- (s1 OR s2) AND s3, and s1 OR s2
abbrev conditions : List (ActivationCondition sorted_lists)
conditions =
    composite_condition sorted_lists (segments_1_2 ∷ segments_3 ∷ []) 4 false
    ∷ or_segments sorted_lists segments_1_2 5 false
    ∷ []

known : (x : ℕ) → KnownSegment sorted_lists lists segment_map x
unfolding all_empty
known x = (coverage_of x, refl, refl)

conditions-Filled : All (Filled sorted_lists lists segment_map) conditions
unfolding composite_condition blank or_segments simplify insert_by sort_by unmarked drop_redundant
    find_redundant no_marks mark smaller set_less less subset
conditions-Filled = (
  (omega arith, (((1, refl), λ x h. known x), (((3, refl), λ x h. known x), tt))),
  ((omega arith, (((1, refl), λ x h. known x), tt)), tt),
)

conditions-Distinct : Distinct sorted_lists lists conditions
unfolding composite_condition blank or_segments simplify insert_by sort_by unmarked drop_redundant
    find_redundant no_marks mark smaller set_less less subset normalize condition_equal same_groups
    same
conditions-Distinct = ((refl, tt), (tt, tt))

create_graph-Implements_example :
    Yields sorted_lists lists
      (create_graph sorted_lists lists segment_map conditions)
      (λ u g. All (Implements sorted_lists lists (asks 2) segment_map g) conditions)
create_graph-Implements_example =
    create_graph-Implements sorted_lists lists (asks 2) segment_map conditions conditions-Filled
      conditions-Distinct

-- The numbers of nodes and of entries in the map, and the children of the first node.
sizes : Outcome sorted_lists lists Unit → Option (ℕ × ℕ × List ℕ)
sizes (done u g) = some (
  length g.nodes,
  length g.condition_to_node_id,
  (node_at sorted_lists lists g.nodes 0).children_ids.0,
)
sizes (failed e g) = none

created : Option (ℕ × ℕ × List ℕ)
unfolding sizes
created = sizes (create_graph sorted_lists lists segment_map conditions)

abbrev graph_of : Outcome sorted_lists lists Unit → EntryGraph sorted_lists lists
graph_of (done u g) = g
graph_of (failed e g) = g

abbrev graph : EntryGraph sorted_lists lists
graph = graph_of (create_graph sorted_lists lists segment_map conditions)

topological_sort-Sorts_example :
    Sorts sorted_lists lists graph (topological_sort sorted_lists lists graph)
topological_sort-Sorts_example = topological_sort-Sorts sorted_lists lists graph

abbrev sorted : SortResult
sorted = topological_sort sorted_lists lists graph

-- Two segments with the same codepoint.
abbrev alike : ℕ → Option (Coverage lists)
alike x = some (coverage_of 1)

abbrev sorted_alike : SortResult
sorted_alike = topological_sort sorted_lists lists (
    graph_of
      (create_graph sorted_lists lists alike (or_segments sorted_lists segments_1_2 5 false ∷ [])))

sorted_alike-run : sorted_alike ≡ cycle_detected
unfolding create_graph add_conditions add_mapping new_graph put_patches reuse_node add_unitary
    add_compound start_node add_each add_mixed add_part_child add_part_only new_part create_node
    new_node node_at add_edge put_node put_condition_id insert_child insert_children put_mode
    extend_chain chain_children add_children_to_node segment_at sole_kind child_conditions mode_of
    exclusive_all or_all bind normalize find_condition find_key condition_equal same_groups
    same_list with_part with_entry composite_condition or_segments exclusive_segment blank singleton
    simplify is_unitary unitary is_purely_disjunctive triggering_segments union_triggers min_of
    insert insert_all same topological_sort remove_top_level zero_counts sort_loop check_size
    pop_top visit_children node_before subset
sorted_alike-run = refl

sorted-run : sorted ≡ sorted_nodes (0 ∷ 1 ∷ 6 ∷ 3 ∷ 5 ∷ 4 ∷ 2 ∷ [])
unfolding create_graph add_conditions add_mapping new_graph put_patches reuse_node add_unitary
    add_compound start_node add_each add_mixed add_part_child add_part_only new_part create_node
    new_node node_at add_edge put_node put_condition_id insert_child insert_children put_mode
    extend_chain chain_children add_children_to_node segment_at sole_kind child_conditions mode_of
    exclusive_all or_all bind normalize find_condition find_key condition_equal same_groups
    same_list with_part with_entry composite_condition or_segments exclusive_segment blank singleton
    simplify is_unitary unitary is_purely_disjunctive triggering_segments union_triggers min_of
    insert insert_all same topological_sort remove_top_level zero_counts sort_loop check_size
    pop_top visit_children node_before sort_by insert_by drop_redundant find_redundant unmarked
    no_marks mark smaller set_less less subset
sorted-run = refl
