-- ===== src/EntryGraph/Writes.antt =====
-- CreateNode, and the writes of single nodes.
use ift_encoder.Prelude.{
  ℕ, suc, ◌-◌, ◌^◌, ◌<◌, ◌≤◌, ◌≡◌, refl, sym, ◌∙◌, true, [], ◌∷◌, length, arith, Bool-cases, inl,
  inr, ltb, ltb→lt, if-true, if-false, length-set, get_or-set_same, get_or-set_other, get_or-append,
  get_or-append_left, length-append,
}
use mathlib.Core.Path.{subst}
use ift_encoder.IntSet.Defs.{HbSet}
use ift_encoder.EntryGraph.Coverage.{
  codepoints, features, design_space, Containers, no_coverage, Request, meets_entry, all_empty,
}
use ift_encoder.EntryGraph.Nodes.{EntryNode, EntryGraph, new_node, node_at, put_node, create_node}
use ift_encoder.EntryGraph.Meaning.{Same, Same-refl, Same-trans}
use ift_encoder.EntryGraph.Steps.{Yields, SameMaps, Others}

module _ (hb : HbSet) (box : Containers) where
  open hb use {Set, has, empty, add, has_empty, has_add}

  pub SameMaps-refl : (g : EntryGraph hb box) → SameMaps hb box g g
  SameMaps-refl g = record {
    same_mappings = refl;
    same_encodings = refl;
    same_conditions = refl;
    same_parts = refl;
  }

  pub SameMaps-trans :
      (f g h : EntryGraph hb box) → SameMaps hb box f g → SameMaps hb box g h → SameMaps hb box f h
  SameMaps-trans f g h s t = record {
    same_mappings = t.same_mappings ∙ s.same_mappings;
    same_encodings = t.same_encodings ∙ s.same_encodings;
    same_conditions = t.same_conditions ∙ s.same_conditions;
    same_parts = t.same_parts ∙ s.same_parts;
  }

  pub meets_entry-no_coverage : (r : Request box) → meets_entry box r (no_coverage box) ≡ true
  unfolding meets_entry
  meets_entry-no_coverage r =
      rw
        (
          box.is_empty_no_value codepoints,
          box.is_empty_no_value features,
          box.is_empty_no_value design_space,
        )
        refl

  pub all_empty-no_coverage : all_empty box (no_coverage box) ≡ true
  unfolding all_empty
  all_empty-no_coverage =
      rw
        (
          box.is_empty_no_value codepoints,
          box.is_empty_no_value features,
          box.is_empty_no_value design_space,
        )
        refl

  -- Only the node `n` changes, and nodes may be added.
  pub record Touched (n : ℕ) (g h : EntryGraph hb box) : Type 0 where
    pub others : Others hb box n g h
    pub maps : SameMaps hb box g h
    pub grown : length g.nodes ≤ length h.nodes

  pub Touched-trans :
      (n : ℕ) (f g h : EntryGraph hb box) → Touched n f g → Touched n g h → Touched n f h
  Touched-trans n f g h s t = record {
    others = λ id l d.
        let (l1, e1) = s.others id l d in
        let (l2, e2) = t.others id l1 d in (l2, Same-trans hb box _ _ _ e1 e2);
    maps = SameMaps-trans f g h s.maps t.maps;
    grown = omega (arith, s.grown, t.grown);
  }

  -- What a new node does.
  pub record Created (index : ℕ) (g : EntryGraph hb box) (id : ℕ) (h : EntryGraph hb box)
      : Type 0 where
    pub fresh : id ≡ length g.nodes
    pub one_more : length h.nodes ≡ suc (length g.nodes)
    pub blank : node_at hb box h.nodes id ≡ new_node hb box index
    pub touched : Touched id g h

  pub create_node-Yields :
      (index : ℕ) (g : EntryGraph hb box)
      → Yields hb box (create_node hb box index g) (Created index g)
  unfolding create_node node_at
  create_node-Yields index g = elim (Bool-cases (ltb (2 ^ 32 - 1) (length g.nodes))) [
    | inl e ↦
        subst (λ o. Yields hb box o (Created index g)) (sym (if-true _ _ e))
          (omega (arith, ltb→lt (2 ^ 32 - 1) (length g.nodes) e))
    | inr e ↦
        subst (λ o. Yields hb box o (Created index g)) (sym (if-false _ _ e))
          record {
            fresh = refl;
            one_more = omega (arith, length-append g.nodes (new_node hb box index ∷ []));
            blank = get_or-append g.nodes (new_node hb box index ∷ []) (new_node hb box 0);
            touched = record {
              others = λ id l d. (
                omega (arith, length-append g.nodes (new_node hb box index ∷ [])),
                subst (Same hb box (node_at hb box g.nodes id))
                    (sym (
                      get_or-append_left g.nodes (new_node hb box index ∷ []) id (new_node hb box 0)
                        l))
                    (Same-refl hb box _),
              );
              maps = record {
                same_mappings = refl;
                same_encodings = refl;
                same_conditions = refl;
                same_parts = refl;
              };
              grown = omega (arith, length-append g.nodes (new_node hb box index ∷ []));
            };
          }
  ]

  pub put_node-Touched :
      (id : ℕ) (node : EntryNode hb box) (g : EntryGraph hb box)
      → Touched id g (put_node hb box id node g)
  unfolding put_node node_at
  put_node-Touched id node g = record {
    others = λ j l d. (
      omega (arith, length-set g.nodes id node),
      subst (Same hb box (node_at hb box g.nodes j))
          (sym (get_or-set_other g.nodes id j node (new_node hb box 0) (λ e. d (sym e))))
          (Same-refl hb box _),
    );
    maps = record {
      same_mappings = refl;
      same_encodings = refl;
      same_conditions = refl;
      same_parts = refl;
    };
    grown = omega (arith, length-set g.nodes id node);
  }

  pub node_at-put_node :
      (id : ℕ) (node : EntryNode hb box) (g : EntryGraph hb box)
      → id < length g.nodes
      → node_at hb box (put_node hb box id node g).nodes id ≡ node
  unfolding put_node node_at
  node_at-put_node id node g l = get_or-set_same g.nodes id node (new_node hb box 0) l

  pub length-put_node :
      (id : ℕ) (node : EntryNode hb box) (g : EntryGraph hb box)
      → length (put_node hb box id node g).nodes ≡ length g.nodes
  unfolding put_node
  length-put_node id node g = length-set g.nodes id node
