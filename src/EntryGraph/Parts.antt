-- ===== src/EntryGraph/Parts.antt =====
-- The nodes for single sets: AddCodepointsOnly, AddFeaturesOnly and AddDesignSpaceOnly.
use ift_encoder.Prelude.{
  In, ℕ, ◌<◌, ◌≤◌, ◌≡◌, ◌⊎◌, refl, sym, ap, ◌∙◌, Bool, true, false, List, [], ◌∷◌, Option, some,
  length, arith, Bool-cases, Option-cases, inl, inr,
}
use mathlib.Core.Path.{subst}
use ift_encoder.IntSet.Defs.{HbSet}
use ift_encoder.EntryGraph.Coverage.{
  Kind, codepoints, features, design_space, Containers, Coverage, no_coverage, Request, meets_entry,
  all_empty,
}
use ift_encoder.EntryGraph.Nodes.{
  EntryNode, EntryGraph, find_key, new_node, node_at, add_edge, put_node, create_node, with_part,
  with_entry, new_part, add_part_only,
}
use ift_encoder.EntryGraph.Meaning.{Means, leaf}
use ift_encoder.EntryGraph.Steps.{Yields, Yields-bind, Means-lt, Step, Step-others, Exempt}
use ift_encoder.EntryGraph.Building.{add_edge-Touched}
use ift_encoder.EntryGraph.Writes.{
  Created, create_node-Yields, Touched, Touched-trans, put_node-Touched, node_at-put_node,
  length-put_node,
}

-- What a find gives is the value of an entry with an equal key.
pub find_key-In :
    (hb : HbSet) (box : Containers) (K V : Type 0) (same : K → K → Bool) (key : K)
    (entries : List (K × V)) (v : V)
    → find_key hb box same key entries ≡ some v
    → (key' : K) × In (key', v) entries × (same key key' ≡ true)
unfolding find_key
find_key-In hb box K V same key [] v e = cc
find_key-In hb box K V same key ((k, w) ∷ entries) v e = elim (Bool-cases (same key k)) [
  | inl h ↦ (k, inl (ap (λ x. (k, x)) (some_value (rw (h, find_key) at e))), h)
  | inr h ↦
      let (key', i, s) = find_key-In hb box K V same key entries v (rw (h, find_key) at e) in
      (key', inr i, s)
]
  where
    some_value : some w ≡ some v → v ≡ w
    some_value q = cc

module _ (hb : HbSet) (box : Containers) (r : Request box) where
  open box use {Value, is_empty, is_empty_no_value}

  meets_entry-with_part :
      (k : Kind) (v : Value k)
      → is_empty k v ≡ false
      → meets_entry box r (with_part hb box k v (no_coverage box)) ≡ r.meets k v
  unfolding meets_entry with_part
  meets_entry-with_part codepoints v e =
      rw (e, is_empty_no_value features, is_empty_no_value design_space) (ground arith)
  meets_entry-with_part features v e =
      rw (e, is_empty_no_value codepoints, is_empty_no_value design_space) (ground arith)
  meets_entry-with_part design_space v e =
      rw (e, is_empty_no_value codepoints, is_empty_no_value features) (ground arith)

  all_empty-with_part :
      (k : Kind) (v : Value k)
      → is_empty k v ≡ false
      → all_empty box (with_part hb box k v (no_coverage box)) ≡ false
  unfolding all_empty with_part
  all_empty-with_part codepoints v e = rw e refl
  all_empty-with_part features v e = rw e (ground arith)
  all_empty-with_part design_space v e = rw e (ground arith)

  -- The entries of the maps are those from before, and one for the new set.
  In-with_entry :
      (k : Kind) (v : Value k) (id : ℕ) (m : (j : Kind) → List (Value j × ℕ))
      → (j : Kind) (w : Value j) (x : ℕ) → In (w, x) (with_entry hb box k (v, id) m j)
      → In (w, x) (m j) ⊎ ((x ≡ id) × (r.meets j w ≡ r.meets k v))
  unfolding with_entry
  In-with_entry codepoints v id m codepoints w x (inl e) = inr (
    ap (λ (t : Value codepoints × ℕ). t.1) e,
    ap (λ (t : Value codepoints × ℕ). r.meets codepoints t.0) e,
  )
  In-with_entry codepoints v id m codepoints w x (inr i) = inl i
  In-with_entry codepoints v id m features w x i = inl i
  In-with_entry codepoints v id m design_space w x i = inl i
  In-with_entry features v id m codepoints w x i = inl i
  In-with_entry features v id m features w x (inl e) = inr (
    ap (λ (t : Value features × ℕ). t.1) e,
    ap (λ (t : Value features × ℕ). r.meets features t.0) e,
  )
  In-with_entry features v id m features w x (inr i) = inl i
  In-with_entry features v id m design_space w x i = inl i
  In-with_entry design_space v id m codepoints w x i = inl i
  In-with_entry design_space v id m features w x i = inl i
  In-with_entry design_space v id m design_space w x (inl e) = inr (
    ap (λ (t : Value design_space × ℕ). t.1) e,
    ap (λ (t : Value design_space × ℕ). r.meets design_space t.0) e,
  )
  In-with_entry design_space v id m design_space w x (inr i) = inl i

  module _ (segments : ℕ → Option (Coverage box)) (exempt : Exempt hb box r segments) where
    -- The nodes in the maps for single sets match when the request meets the set.
    abbrev pub PartsHold : EntryGraph hb box → Type 0
    PartsHold g =
        (k : Kind) (v : Value k) (id : ℕ)
        → In (v, id) (g.part_to_node_id k)
        → Means hb box r g.nodes id (r.meets k v)

    pub PartsHold-Step :
        (b : ℕ) (g h : EntryGraph hb box)
        → Step hb box r segments exempt b g h
        → PartsHold g
        → PartsHold h
    PartsHold-Step b g h s p k v id i = elim (s.added_parts k v id i) [
      | inl j ↦ s.kept id _ (p k v id j)
      | inr m ↦ m
    ]

    -- A change of a node that is not there yet.
    pub Step-fresh :
        (n : ℕ) (g h : EntryGraph hb box)
        → length g.nodes ≤ n
        → Touched hb box n g h
        → Step hb box r segments exempt (length g.nodes) g h
    Step-fresh n g h le t =
        Step-others hb box r segments exempt (length g.nodes) n g h t.others t.maps
          (λ b m. omega (arith, Means-lt hb box r segments g.nodes n b m)) le (omega arith) t.grown

    -- The node `id` matches when the request meets the set.
    pub record PartAdded (k : Kind) (v : Value k) (g : EntryGraph hb box) (id : ℕ)
        (h : EntryGraph hb box) : Type 0 where
      pub step : Step hb box r segments exempt (length g.nodes) g h
      pub means : Means hb box r h.nodes id (r.meets k v)

    new_part-Yields :
        (k : Kind) (v : Value k) (index : ℕ) (g : EntryGraph hb box)
        → is_empty k v ≡ false
        → Yields hb box (new_part hb box k v index g) (PartAdded k v g)
    unfolding new_part add_edge put_node new_node
    new_part-Yields k v index g filled =
        Yields-bind hb box (create_node hb box index g) _ (Created hb box index g) (PartAdded k v g)
          (create_node-Yields hb box index g)
          (λ id g1 c.
            let counted = add_edge hb box id g1 in
            let node = node_at hb box counted.nodes id in
            let filled_node : EntryNode hb box = record node {
              coverage = with_part hb box k v node.coverage;
            } in
            let h = put_node hb box id filled_node counted in
            let t =
              Touched-trans hb box id g counted h
                (Touched-trans hb box id g g1 counted c.touched (add_edge-Touched hb box id id g1))
                (put_node-Touched hb box id filled_node counted) in
            let s = Step-fresh id g h (omega (arith, c.fresh)) t in
            let l : id < length g1.nodes = omega (arith, c.fresh, c.one_more) in
            let same : node_at hb box h.nodes id ≡ filled_node =
              node_at-put_node hb box id filled_node counted l in
            let cover : (node_at hb box h.nodes id).coverage
                ≡ with_part hb box k v (no_coverage box) =
              ap (λ (x : EntryNode hb box). x.coverage) same
              ∙ ap (λ (x : EntryNode hb box). with_part hb box k v x.coverage) c.blank in
            let means : Means hb box r h.nodes id (r.meets k v) =
              leaf id (r.meets k v)
                (omega (arith, length-put_node hb box id filled_node counted, l))
                (ap (λ (x : EntryNode hb box). x.child_mode) same
                  ∙ ap (λ (x : EntryNode hb box). x.child_mode) c.blank)
                (λ x.
                  ap (λ (t : EntryNode hb box). hb.has t.children_ids x) same
                  ∙ ap (λ (t : EntryNode hb box). hb.has t.children_ids x) c.blank
                  ∙ hb.has_empty x)
                (ap (all_empty box) cover ∙ all_empty-with_part k v filled)
                (sym (ap (meets_entry box r) cover ∙ meets_entry-with_part k v filled)) in
            record {
              step = record {
                below = s.below;
                grown = s.grown;
                kept = s.kept;
                mappings = s.mappings;
                encodings = s.encodings;
                known = s.known;
                added = s.added;
                added_parts = λ j w x i.
                    elim (In-with_entry k v id counted.part_to_node_id j w x i) [
                      | inl q ↦ s.added_parts j w x q
                      | inr (e, q) ↦ inr (
                          subst (λ y. Means hb box r h.nodes y (r.meets j w)) (sym e)
                            (subst (Means hb box r h.nodes id) (sym q) means))
                    ];
              };
              means = means;
            })

    pub add_part_only-Yields :
        (k : Kind) (v : Value k) (index : ℕ) (g : EntryGraph hb box)
        → is_empty k v ≡ false
        → PartsHold g
        → Yields hb box (add_part_only hb box k v index g) (PartAdded k v g)
    unfolding add_part_only
    add_part_only-Yields k v index g filled parts =
        elim (Option-cases (find_key hb box (box.equal k) v (g.part_to_node_id k))) [
          | inl e ↦ rw (e, Yields) (new_part-Yields k v index g filled)
          | inr (id, e) ↦
              rw (e, Yields)
                (let (v', i, s) =
                    find_key-In hb box (Value k) ℕ (box.equal k) v (g.part_to_node_id k) id e in
                  let step =
                    Step-fresh (length g.nodes) g (add_edge hb box id g) (omega arith)
                      (add_edge-Touched hb box (length g.nodes) id g) in
                  record {
                    step = step;
                    means =
                        subst (Means hb box r _ id) (sym (r.meets_equal k v v' s))
                          (step.kept id _ (parts k v' id i));
                  })
        ]
