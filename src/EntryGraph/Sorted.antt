-- ===== src/EntryGraph/Sorted.antt =====
-- The order of the nodes that TopologicalSort returns.
use ift_encoder.Prelude.{
  ℕ, zero, suc, ◌+◌, ◌-◌, ◌<◌, ◌≡◌, refl, sym, ap, ◌∙◌, Bool, true, false, not, ltb, List, [], ◌∷◌,
  ◌++◌, Option, none, some, ◌==◌, ==_iff, length, get_or, set, All, length-set, arith, Bool-cases,
  Option-cases, inl, inr,
}
use mathlib.Core.Path.{subst}
use ift_encoder.IntSet.Defs.{HbSet, mem}
use ift_encoder.Condition.Defs.{ActivationCondition}
use ift_encoder.EntryGraph.Coverage.{Containers}
use ift_encoder.EntryGraph.Nodes.{EntryNode, EntryGraph, node_at, find_condition}
use ift_encoder.EntryGraph.Sort.{
  SortResult, sorted_nodes, top_level_underflow, edge_count_underflow, cycle_detected,
  sort_out_of_fuel, pop_top, zero_counts, visit_children, node_before, remove_top_level, sort_loop,
  check_size, topological_sort,
}
use ift_encoder.EntryGraph.Counts.{
  positives, length-zero_counts, IsZero, All-map, All-append, NoRepeat, not_zero-mem, Visited,
  IfSome, visit_children-Visited,
}
use ift_encoder.EntryGraph.Queue.{
  pop_top-All, length-pop_top, NoRepeat-pop_top, NoRepeat-append, apart-append,
  zero_counts-NoRepeat, zero_counts-ltb, not_zero-ltb, no_values, zero_counts-IsZero,
}

some_eq : {xs ys : List ℕ} → some xs ≡ some ys → xs ≡ ys
some_eq e = cc

module _ (hb : HbSet) (box : Containers) where
  -- No node stands behind one of its children, or is its own child.
  abbrev pub Ordered : List (EntryNode hb box) → List ℕ → Type 0
  Ordered nodes [] = Unit
  Ordered nodes (x ∷ xs) =
      All (λ y. hb.has (node_at hb box nodes y).children_ids x ≡ false) (x ∷ xs) × Ordered nodes xs

  Ordered-append :
      (nodes : List (EntryNode hb box)) (xs : List ℕ) (y : ℕ)
      → Ordered nodes xs
      → All (λ x. hb.has (node_at hb box nodes y).children_ids x ≡ false) (xs ++ y ∷ [])
      → Ordered nodes (xs ++ y ∷ [])
  Ordered-append nodes [] y o (p, all) = ((p, tt), tt)
  Ordered-append nodes (x ∷ xs) y ((q, later), o) (p, all) =
      ((q, All-append _ xs y later p), Ordered-append nodes xs y o all)

  -- The ids differ, are below `m`, and are in order.
  abbrev pub Arranged : List (EntryNode hb box) → ℕ → List ℕ → Type 0
  Arranged nodes m xs = Ordered nodes xs × NoRepeat xs × All (λ x. ltb x m ≡ true) xs

  -- A sorting ends, with an error or with as many ids as there are nodes.
  abbrev pub Sorts : EntryGraph hb box → SortResult → Type 0
  Sorts g (sorted_nodes xs) =
      Arranged g.nodes (length g.incoming_edge_count) xs × (length xs ≡ length g.nodes)
  Sorts g top_level_underflow = Unit
  Sorts g edge_count_underflow = Unit
  Sorts g cycle_detected = Unit
  Sorts g sort_out_of_fuel = ⊥

  abbrev InOrder : List (EntryNode hb box) → ℕ → SortResult → Type 0
  InOrder nodes m (sorted_nodes xs) = Arranged nodes m xs
  InOrder nodes m top_level_underflow = Unit
  InOrder nodes m edge_count_underflow = Unit
  InOrder nodes m cycle_detected = Unit
  InOrder nodes m sort_out_of_fuel = ⊥

  -- The invariant of the loop.
  record Progress (m : ℕ) (counts queue sorted : List ℕ) : Type 0 where
    size : length counts ≡ m
    queue_zero : All (IsZero counts) queue
    sorted_zero : All (IsZero counts) sorted
    queue_once : NoRepeat queue
    sorted_once : NoRepeat sorted
    apart : All (λ x. not (mem x sorted) ≡ true) queue
    queue_in : All (λ x. ltb x m ≡ true) queue
    sorted_in : All (λ x. ltb x m ≡ true) sorted

  -- A round of the loop keeps the invariant.
  round-Progress :
      (before : ℕ → ℕ → Bool) (m x : ℕ) (children counts queue sorted counts' queue' : List ℕ)
      → Progress m counts (x ∷ queue) sorted
      → Visited children counts (pop_top before x queue).1 counts' queue'
      → Progress m counts' queue' (sorted ++ (pop_top before x queue).0 ∷ [])
  round-Progress before m x children counts queue sorted counts' queue' p v =
      let id = (pop_top before x queue).0 in
      let rest = (pop_top before x queue).1 in
      let zeros = pop_top-All before (IsZero counts) x queue p.queue_zero.0 p.queue_zero.1 in
      let apart = pop_top-All before (λ x. not (mem x sorted) ≡ true) x queue p.apart.0 p.apart.1 in
      let small = pop_top-All before (λ x. ltb x m ≡ true) x queue p.queue_in.0 p.queue_in.1 in
      let once = NoRepeat-pop_top before x queue p.queue_once in
      let done = All-append (IsZero counts) sorted id p.sorted_zero zeros.0 in
      let last : mem id sorted ≡ false = ground (arith, apart.0) in
      record {
        size = v.as_long ∙ p.size;
        queue_zero = v.queued;
        sorted_zero = All-map (IsZero counts) (IsZero counts') v.stays (sorted ++ id ∷ []) done;
        queue_once = v.once once.1;
        sorted_once = NoRepeat-append sorted id p.sorted_once last;
        apart =
            v.pushed (λ y. not (mem y (sorted ++ id ∷ [])))
              (λ y h. ap not (not_zero-mem counts (sorted ++ id ∷ []) y h done))
              (apart-append sorted rest id apart.1 once.0);
        queue_in =
            v.pushed (λ y. ltb y m)
              (λ y h. subst (λ k. ltb y k ≡ true) p.size (not_zero-ltb counts y h)) small.1;
        sorted_in = All-append (λ y. ltb y m ≡ true) sorted id p.sorted_in small.0;
      }

  next_round :
      (fuel m : ℕ) (nodes : List (EntryNode hb box)) (sorted : List ℕ)
      → (P : List ℕ → List ℕ → Type 0) (o : Option (List ℕ × List ℕ)) → IfSome o P
      → ((counts queue : List ℕ)
          → P counts queue
          → InOrder nodes m (sort_loop hb box fuel nodes counts queue sorted))
      → InOrder nodes m (elim o [
        | none ↦ edge_count_underflow
        | some (counts, queue) ↦ sort_loop hb box fuel nodes counts queue sorted
      ])
  next_round fuel m nodes sorted P none h f = tt
  next_round fuel m nodes sorted P (some (counts, queue)) h f = f counts queue h

  sort_loop-InOrder :
      (fuel m : ℕ) (nodes : List (EntryNode hb box)) (counts queue sorted : List ℕ)
      → positives counts + length queue < fuel
      → Progress m counts queue sorted
      → Ordered nodes sorted
      → InOrder nodes m (sort_loop hb box fuel nodes counts queue sorted)
  unfolding sort_loop
  sort_loop-InOrder zero m nodes counts queue sorted enough p o = absurd (omega arith)
  sort_loop-InOrder (suc fuel) m nodes counts [] sorted enough p o = (o, p.sorted_once, p.sorted_in)
  sort_loop-InOrder (suc fuel) m nodes counts (x ∷ queue) sorted enough p o =
      let before = node_before hb box nodes in
      let id = (pop_top before x queue).0 in
      let rest = (pop_top before x queue).1 in
      let children = hb.values (node_at hb box nodes id).children_ids in
      let zeros = pop_top-All before (IsZero counts) x queue p.queue_zero.0 p.queue_zero.1 in
      next_round fuel m nodes (sorted ++ id ∷ []) (Visited children counts rest)
        (visit_children children counts rest) (visit_children-Visited children counts rest zeros.1)
        (λ counts' queue' v.
          sort_loop-InOrder fuel m nodes counts' queue' (sorted ++ id ∷ [])
            (omega (arith, v.measure, length-pop_top before x queue, enough))
            (round-Progress before m x children counts queue sorted counts' queue' p v)
            (Ordered-append nodes sorted id o (
              All-map (IsZero counts) _
                (λ y z. hb.has_values (node_at hb box nodes id).children_ids y ∙ v.no_child y z)
                (sorted ++ id ∷ []) (All-append (IsZero counts) sorted id p.sorted_zero zeros.0))))

  check_size-Sorts :
      (g : EntryGraph hb box) (result : SortResult)
      → InOrder g.nodes (length g.incoming_edge_count) result
      → Sorts g (check_size hb box g.nodes result)
  unfolding check_size
  check_size-Sorts g (sorted_nodes xs) o = elim (Bool-cases (length xs == length g.nodes)) [
    | inl e ↦ rw (e, Sorts) (o, (==_iff (length xs) (length g.nodes)).0 e)
    | inr e ↦ rw (e, Sorts) tt
  ]
  check_size-Sorts g top_level_underflow o = tt
  check_size-Sorts g edge_count_underflow o = tt
  check_size-Sorts g cycle_detected o = tt
  check_size-Sorts g sort_out_of_fuel o = o

  length-remove_top_level :
      (mappings : List (ActivationCondition hb × List ℕ)) (g : EntryGraph hb box)
      → (counts counts' : List ℕ) → remove_top_level hb box mappings g counts ≡ some counts'
      → length counts' ≡ length counts
  unfolding remove_top_level
  length-remove_top_level [] g counts counts' e = ap length (sym (some_eq e))
  length-remove_top_level (mapping ∷ mappings) g counts counts' e =
      elim (Option-cases (find_condition hb box mapping.0 g.condition_to_node_id)) [
        | inl h ↦ length-remove_top_level mappings g counts counts' (rw (h, remove_top_level) at e)
        | inr (id, h) ↦ elim (Bool-cases (get_or counts id 0 == 0)) [
          | inl z ↦ cc (rw (z, remove_top_level) at (rw (h, remove_top_level) at e))
          | inr z ↦
              length-remove_top_level mappings g (set counts id (get_or counts id 0 - 1)) counts'
                (rw (z, remove_top_level) at (rw (h, remove_top_level) at e))
              ∙ length-set counts id (get_or counts id 0 - 1)
        ]
      ]

  -- TopologicalSort ends for every graph: with an error, or with as many different ids as there are
  -- nodes, of nodes that have an edge count. No node in it stands behind one of its children, and
  -- none is its own child.
  pub topological_sort-Sorts : (g : EntryGraph hb box) → Sorts g (topological_sort hb box g)
  unfolding topological_sort
  topological_sort-Sorts g =
      elim (Option-cases (remove_top_level hb box g.patch_mappings g g.incoming_edge_count)) [
        | inl e ↦ rw (e, Sorts) tt
        | inr (counts, e) ↦
            let size = length-remove_top_level g.patch_mappings g g.incoming_edge_count counts e in
            let start = zero_counts 0 counts in
            let m = length g.incoming_edge_count in
            rw (e, Sorts)
              (check_size-Sorts g (sort_loop hb box (suc (length counts)) g.nodes counts start []) (
                sort_loop-InOrder (suc (length counts)) m g.nodes counts start []
                  (omega (arith, length-zero_counts 0 counts))
                  (record {
                    size = size;
                    queue_zero = zero_counts-IsZero 0 [] counts refl;
                    sorted_zero = tt;
                    queue_once = zero_counts-NoRepeat 0 counts;
                    sorted_once = tt;
                    apart = no_values start;
                    queue_in = zero_counts-ltb 0 m counts (omega (arith, size));
                    sorted_in = tt;
                  })
                  tt))
      ]
