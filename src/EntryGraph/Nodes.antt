-- ===== src/EntryGraph/Nodes.antt =====
-- The class EntryGraph and the operations that build it. An operation of the class takes the graph
-- and returns the graph as it leaves it, with a value or an error. `segments` is the hash map of the
-- segments; `segments.at` of a segment that it lacks is the error missing_segment. In the equality
-- of conditions the shortcut by two cached hashes is left out: they differ only for unequal
-- conditions.
use ift_encoder.Prelude.{
  ℕ, zero, suc, ◌+◌, ◌-◌, ◌%◌, ◌^◌, Bool, true, false, not, ◌&&◌, List, [], ◌∷◌, ◌++◌, Option, none,
  some, ltb, ◌==◌, if◌then◌else◌, length, get_or, set, take, drop,
}
use ift_encoder.IntSet.Defs.{HbSet}
use ift_encoder.Condition.Defs.{ActivationCondition, PatchEncoding, composite_condition}
use ift_encoder.Condition.Ordering.{same_list, encoding_value, differ}
use ift_encoder.EntryGraph.Coverage.{
  Kind, codepoints, features, design_space, Containers, Coverage, no_coverage,
}

pub data ChildMode : Type 0 where
  mode_none mode_and mode_or : ChildMode

pub data Failure : Type 0 where
  node_id_overflow conflicting_patch_mappings missing_segment out_of_fuel : Failure

module _ (hb : HbSet) (box : Containers) where
  open hb use {Set, empty, values, add, is_equal}
  open box use {Value, is_empty, equal}

  -- `coverage` is and_codepoints, and_features and and_design_space.
  pub record EntryNode : Type 0 where
    pub coverage : Coverage box
    pub child_mode : ChildMode
    pub children_ids : Set
    pub condition_index : ℕ

  pub record EntryGraph : Type 0 where
    pub patch_mappings : List (ActivationCondition hb × List ℕ)
    pub patch_encodings : List (ActivationCondition hb × PatchEncoding)
    pub nodes : List EntryNode
    pub incoming_edge_count : List ℕ
    pub condition_to_node_id : List (ActivationCondition hb × ℕ)
    -- codepoints_to_node_id, features_to_node_id and design_space_to_node_id
    pub part_to_node_id : (k : Kind) → List (Value k × ℕ)

  pub data Outcome (A : Type 0) : Type 0 where
    done : A → EntryGraph → Outcome A
    failed : Failure → EntryGraph → Outcome A

  -- The macro TRY.
  unfoldable pub bind : {A B : Type 0} → Outcome A → (A → EntryGraph → Outcome B) → Outcome B
  bind (done a g) next = next a g
  bind (failed e g) next = failed e g

  unfoldable pub same_groups : List Set → List Set → Bool
  same_groups [] [] = true
  same_groups (c ∷ cs) (d ∷ ds) = is_equal c d && same_groups cs ds
  same_groups _ _ = false

  -- ActivationCondition::operator==
  unfoldable pub condition_equal : ActivationCondition hb → ActivationCondition hb → Bool
  unfolding same_groups same_list
  condition_equal a b =
      same_groups a.conditions b.conditions
      && same_list (a.activated ∷ a.prefetches) (b.activated ∷ b.prefetches)
      && not (differ a.is_fallback b.is_fallback)
      && not (differ a.is_exclusive b.is_exclusive)
      && (encoding_value a.encoding == encoding_value b.encoding)

  unfoldable pub normalize : ActivationCondition hb → ActivationCondition hb
  normalize c = composite_condition hb c.conditions 0 false

  -- The find of a hash map: its entries, and the equality of its keys.
  unfoldable pub find_key : {K V : Type 0} → (K → K → Bool) → K → List (K × V) → Option V
  find_key same key [] = none
  find_key same key (entry ∷ entries) =
      let rest = find_key same key entries in if same key entry.0 then some entry.1 else rest

  unfoldable pub find_condition :
      {V : Type 0} → ActivationCondition hb → List (ActivationCondition hb × V) → Option V
  unfolding find_key
  find_condition = find_key condition_equal

  unfoldable pub new_node : ℕ → EntryNode
  new_node index = record {
    coverage = no_coverage box;
    child_mode = mode_none;
    children_ids = empty;
    condition_index = index;
  }

  unfoldable pub node_at : List EntryNode → ℕ → EntryNode
  unfolding new_node
  node_at nodes id = get_or nodes id (new_node 0)

  -- `incoming_edge_count[id]++`
  unfoldable pub add_edge : ℕ → EntryGraph → EntryGraph
  add_edge id g = record g {
    incoming_edge_count =
        set g.incoming_edge_count id ((get_or g.incoming_edge_count id 0 + 1) % 2 ^ 32);
  }

  unfoldable pub put_node : ℕ → EntryNode → EntryGraph → EntryGraph
  put_node id node g = record g { nodes = set g.nodes id node }

  unfoldable pub create_node : ℕ → EntryGraph → Outcome ℕ
  unfolding new_node
  create_node index g =
      if ltb (2 ^ 32 - 1) (length g.nodes)
      then failed node_id_overflow g
      else done (length g.nodes) (record g {
        nodes = g.nodes ++ new_node index ∷ [];
        incoming_edge_count = g.incoming_edge_count ++ 0 ∷ [];
      })

  -- A coverage with one set.
  unfoldable pub with_part : (k : Kind) → Value k → Coverage box → Coverage box
  with_part codepoints v s codepoints = v
  with_part codepoints v s features = s features
  with_part codepoints v s design_space = s design_space
  with_part features v s codepoints = s codepoints
  with_part features v s features = v
  with_part features v s design_space = s design_space
  with_part design_space v s codepoints = s codepoints
  with_part design_space v s features = s features
  with_part design_space v s design_space = v

  -- A new entry in the map for the sets of one kind.
  unfoldable pub with_entry :
      (k : Kind) → Value k × ℕ → ((j : Kind) → List (Value j × ℕ)) → (j : Kind) → List (Value j × ℕ)
  with_entry codepoints e m codepoints = e ∷ m codepoints
  with_entry codepoints e m features = m features
  with_entry codepoints e m design_space = m design_space
  with_entry features e m codepoints = m codepoints
  with_entry features e m features = e ∷ m features
  with_entry features e m design_space = m design_space
  with_entry design_space e m codepoints = m codepoints
  with_entry design_space e m features = m features
  with_entry design_space e m design_space = e ∷ m design_space

  -- What AddCodepointsOnly, AddFeaturesOnly and AddDesignSpaceOnly do when the set is new.
  unfoldable pub new_part : (k : Kind) → Value k → ℕ → EntryGraph → Outcome ℕ
  unfolding create_node add_edge with_entry with_part put_node node_at bind
  new_part k v index g = bind (create_node index g) (λ id g'.
      let counted = add_edge id g' in
      let node = node_at counted.nodes id in
      done id (
        put_node id (record node { coverage = with_part k v node.coverage })
          (record counted { part_to_node_id = with_entry k (v, id) counted.part_to_node_id })))

  -- AddCodepointsOnly, AddFeaturesOnly and AddDesignSpaceOnly.
  unfoldable pub add_part_only : (k : Kind) → Value k → ℕ → EntryGraph → Outcome ℕ
  unfolding new_part add_edge find_key
  add_part_only k v index g = elim (find_key (equal k) v (g.part_to_node_id k)) [
    | some id ↦ done id (add_edge id g)
    | none ↦ new_part k v index g
  ]

  -- `condition_to_node_id[normalized] = node_id`, where the map has no such key.
  unfoldable pub put_condition_id : ActivationCondition hb → ℕ → EntryGraph → EntryGraph
  put_condition_id c id g = record g { condition_to_node_id = (c, id) ∷ g.condition_to_node_id }

  -- `nodes[node_id].children_ids.insert(child)`
  unfoldable pub insert_child : ℕ → ℕ → EntryGraph → EntryGraph
  unfolding put_node node_at
  insert_child id child g =
      let node = node_at g.nodes id in
      put_node id (record node { children_ids = add node.children_ids child }) g

  unfoldable pub insert_children : ℕ → List ℕ → EntryGraph → EntryGraph
  unfolding insert_child
  insert_children id [] g = g
  insert_children id (child ∷ children) g = insert_children id children (insert_child id child g)

  -- `nodes[node_id].child_mode = mode`
  unfoldable pub put_mode : ℕ → ChildMode → EntryGraph → EntryGraph
  unfolding put_node node_at
  put_mode id mode g =
      let node = node_at g.nodes id in put_node id (record node { child_mode = mode }) g

  -- What the body of the loop of AddChildrenToNode does behind the insertions: the next node, and
  -- its place in the current one.
  unfoldable pub extend_chain : ℕ → ChildMode → EntryGraph → Outcome ℕ
  unfolding create_node put_mode add_edge insert_child node_at bind
  extend_chain id mode g =
      bind (create_node (node_at g.nodes id).condition_index g)
        (λ next g'. done next (insert_child id next (add_edge next (put_mode next mode g'))))

  -- The loop of AddChildrenToNode, and the insertions behind it. Each round takes 126 of more than
  -- 127 children, so that the number of children is enough fuel.
  unfoldable pub chain_children : ℕ → ℕ → ChildMode → List ℕ → EntryGraph → Outcome Unit
  unfolding insert_children extend_chain bind
  chain_children zero id mode children g = failed out_of_fuel g
  chain_children (suc fuel) id mode children g =
      let more : ℕ → EntryGraph → Outcome Unit =
        λ next g'. chain_children fuel next mode (drop 126 children) g' in
      if ltb 127 (length children)
      then bind (extend_chain id mode (insert_children id (take 126 children) g)) more
      else done tt (insert_children id children g)

  unfoldable pub add_children_to_node : ℕ → ChildMode → List ℕ → EntryGraph → Outcome Unit
  unfolding chain_children
  add_children_to_node id mode children g =
      chain_children (suc (length children)) id mode children g
