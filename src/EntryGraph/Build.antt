-- ===== src/EntryGraph/Build.antt =====
-- EntryGraph::AddMapping and EntryGraph::Create.
use ift_encoder.Prelude.{
  ℕ, zero, suc, ◌%◌, ◌^◌, Bool, true, false, not, ◌&&◌, List, [], ◌∷◌, Option, none, some,
  if◌then◌else◌,
}
use ift_encoder.IntSet.Defs.{HbSet}
use ift_encoder.Condition.Defs.{
  ActivationCondition, exclusive_segment, or_segments, is_unitary, is_purely_disjunctive,
}
use ift_encoder.GlyphConditions.Defs.{triggering_segments, min_of}
use ift_encoder.EntryGraph.Coverage.{Kind, codepoints, features, design_space, Containers, Coverage}
use ift_encoder.EntryGraph.Nodes.{
  ChildMode, mode_and, mode_or, missing_segment, out_of_fuel, conflicting_patch_mappings,
  EntryGraph, Outcome, done, failed, bind, normalize, find_condition, node_at, add_edge, put_node,
  create_node, add_part_only, put_condition_id, insert_child, put_mode, add_children_to_node,
}

module _ (hb : HbSet) (box : Containers) where
  open hb use {Set, values}
  open box use {is_empty}

  -- `segments.at(segment)`
  unfoldable pub segment_at :
      (ℕ → Option (Coverage box)) → ℕ → EntryGraph hb box → Outcome hb box (Coverage box)
  segment_at segments s g = elim (segments s) [
    | none ↦ failed missing_segment g
    | some segment ↦ done segment g
  ]

  -- The kind of the only set of a segment that is not empty.
  unfoldable pub sole_kind : Coverage box → Option Kind
  sole_kind s =
      let no_codepoints = is_empty codepoints (s codepoints) in
      let no_features = is_empty features (s features) in
      let no_design_space = is_empty design_space (s design_space) in
      if not no_codepoints && no_features && no_design_space
      then some codepoints
      else if no_codepoints && not no_features && no_design_space
      then some features
      else if no_codepoints && no_features && not no_design_space
      then some design_space
      else none

  -- The node for a condition that has none, and its entry in the map.
  unfoldable pub start_node : ActivationCondition hb → ℕ → EntryGraph hb box → Outcome hb box ℕ
  unfolding create_node add_edge put_condition_id bind
  start_node c index g =
      bind hb box (create_node hb box index g)
        (λ id g'. done id (put_condition_id hb box c id (add_edge hb box id g')))

  -- A child for the set of one kind, when it is not empty.
  unfoldable pub add_part_child :
      (k : Kind) → Coverage box → ℕ → ℕ → EntryGraph hb box → Outcome hb box Unit
  unfolding add_part_only insert_child bind
  add_part_child k s id index g =
      if is_empty k (s k)
      then done tt g
      else bind hb box (add_part_only hb box k (s k) index g)
          (λ child g'. done tt (insert_child hb box id child g'))

  -- A segment with sets of several kinds: a disjunction of their nodes.
  unfoldable pub add_mixed : Coverage box → ℕ → ℕ → EntryGraph hb box → Outcome hb box ℕ
  unfolding add_part_child put_mode bind
  add_mixed s id index g = bind hb box (add_part_child codepoints s id index g) (λ _ g1.
      bind hb box (add_part_child features s id index g1) (λ _ g2.
        bind hb box (add_part_child design_space s id index g2)
          (λ _ g3. done id (put_mode hb box id mode_or g3))))

  -- The part of AddMapping for a unitary condition.
  unfoldable pub add_unitary :
      (ℕ → Option (Coverage box))
      → ActivationCondition hb
      → ℕ
      → EntryGraph hb box
      → Outcome hb box ℕ
  unfolding segment_at sole_kind add_part_only put_condition_id start_node add_mixed bind
  add_unitary segments c index g =
      bind hb box (segment_at segments (min_of hb (triggering_segments hb c)) g) (λ s g'.
        elim (sole_kind s) [
          | some k ↦
              bind hb box (add_part_only hb box k (s k) index g')
                (λ id g2. done id (put_condition_id hb box c id g2))
          | none ↦ bind hb box (start_node c index g') (λ id g2. add_mixed s id index g2)
        ])

  -- The loops over segments and groups: `add` is the recursive call.
  unfoldable pub add_each :
      (ActivationCondition hb → EntryGraph hb box → Outcome hb box ℕ)
      → List (ActivationCondition hb)
      → EntryGraph hb box
      → Outcome hb box (List ℕ)
  unfolding bind
  add_each again [] g = done [] g
  add_each again (c ∷ cs) g =
      bind hb box (again c g)
        (λ id g1. bind hb box (add_each again cs g1) (λ ids g2. done (id ∷ ids) g2))

  unfoldable pub exclusive_all : List ℕ → List (ActivationCondition hb)
  exclusive_all [] = []
  exclusive_all (s ∷ ss) = exclusive_segment hb s 0 ∷ exclusive_all ss

  unfoldable pub or_all : List Set → List (ActivationCondition hb)
  or_all [] = []
  or_all (c ∷ cs) = or_segments hb c 0 false ∷ or_all cs

  -- The conditions that a condition's node has children for, when it is not unitary.
  unfoldable pub child_conditions : ActivationCondition hb → List (ActivationCondition hb)
  unfolding exclusive_all or_all
  child_conditions c =
      if is_purely_disjunctive hb c
      then elim c.conditions [ [] ↦ [] | group ∷ _ ↦ exclusive_all (values group) ]
      else or_all c.conditions

  unfoldable pub mode_of : ActivationCondition hb → ChildMode
  mode_of c = if is_purely_disjunctive hb c then mode_or else mode_and

  -- The part of AddMapping for the other conditions.
  unfoldable pub add_compound :
      (ActivationCondition hb → EntryGraph hb box → Outcome hb box ℕ)
      → ActivationCondition hb
      → ℕ
      → EntryGraph hb box
      → Outcome hb box ℕ
  unfolding start_node put_mode child_conditions mode_of add_each add_children_to_node bind
  add_compound again c index g = bind hb box (start_node c index g) (λ id g1.
      bind hb box (add_each again (child_conditions c) (put_mode hb box id (mode_of c) g1))
        (λ children g2.
          bind hb box (add_children_to_node hb box id (mode_of c) children g2)
            (λ _ g3. done id g3)))

  -- What AddMapping does with a node that the condition has: the top level's index counts.
  unfoldable pub reuse_node : Bool → ℕ → ℕ → EntryGraph hb box → EntryGraph hb box
  unfolding put_node node_at add_edge
  reuse_node root index id g =
      let node = node_at hb box g.nodes id in
      add_edge hb box id
        (if root then put_node hb box id (record node { condition_index = index }) g else g)

  -- AddMapping. A composite condition calls it for its groups, and a group for its segments, so that
  -- three rounds are enough.
  unfoldable pub add_mapping :
      ℕ
      → (ℕ → Option (Coverage box))
      → ℕ
      → Bool
      → ActivationCondition hb
      → EntryGraph hb box
      → Outcome hb box ℕ
  unfolding normalize find_condition reuse_node add_unitary add_compound
  add_mapping zero segments index root c g = failed out_of_fuel g
  add_mapping (suc fuel) segments index root c g =
      let normalized = normalize hb box c in
      elim (find_condition hb box normalized g.condition_to_node_id) [
        | some id ↦ done id (reuse_node root index id g)
        | none ↦
            if is_unitary hb normalized
            then add_unitary segments normalized index g
            else add_compound (add_mapping fuel segments index false) normalized index g
      ]

  unfoldable pub new_graph : EntryGraph hb box
  new_graph = record {
    patch_mappings = [];
    patch_encodings = [];
    nodes = [];
    incoming_edge_count = [];
    condition_to_node_id = [];
    part_to_node_id = λ k. [];
  }

  -- What the loop of Create does behind the call of AddMapping.
  unfoldable pub put_patches : ActivationCondition hb → EntryGraph hb box → Outcome hb box Unit
  unfolding find_condition normalize
  put_patches c g =
      let normalized = normalize hb box c in
      elim (find_condition hb box normalized g.patch_mappings) [
        | some _ ↦ failed conflicting_patch_mappings g
        | none ↦
            let mapped = record g {
              patch_mappings = (normalized, c.activated ∷ c.prefetches) ∷ g.patch_mappings;
            } in
            elim (find_condition hb box normalized g.patch_encodings) [
              | some _ ↦ failed conflicting_patch_mappings mapped
              | none ↦
                  done tt (record mapped {
                    patch_encodings = (normalized, c.encoding) ∷ g.patch_encodings;
                  })
            ]
      ]

  -- The loop of Create, from the condition with the number `i`, which is a uint32_t.
  unfoldable pub add_conditions :
      (ℕ → Option (Coverage box))
      → ℕ
      → List (ActivationCondition hb)
      → EntryGraph hb box
      → Outcome hb box Unit
  unfolding add_mapping put_patches bind
  add_conditions segments i [] g = done tt g
  add_conditions segments i (c ∷ cs) g =
      bind hb box (add_mapping 3 segments (i % 2 ^ 32) true c g)
        (λ _ g1. bind hb box (put_patches c g1) (λ _ g2. add_conditions segments (suc i) cs g2))

  unfoldable pub create_graph :
      (ℕ → Option (Coverage box)) → List (ActivationCondition hb) → Outcome hb box Unit
  unfolding add_conditions new_graph
  create_graph segments conditions = add_conditions segments 0 conditions new_graph
