-- ===== src/EntryGraph/Building.antt =====
-- The nodes that are being built, with the children that they have so far.
use ift_encoder.Prelude.{
  ℕ, ◌<◌, ◌≤◌, ◌≡◌, ◌≢◌, refl, sym, ap, ◌∙◌, ◌||◌, List, [], ◌∷◌, length, arith, ◌==◌,
}
use ift_encoder.IntSet.Defs.{HbSet, mem}
use ift_encoder.EntryGraph.Coverage.{Containers, no_coverage}
use ift_encoder.EntryGraph.Nodes.{
  ChildMode, mode_none, EntryNode, EntryGraph, new_node, node_at, add_edge, put_node, insert_child,
  insert_children, put_mode,
}
use ift_encoder.EntryGraph.Meaning.{Same, Same-refl}
use ift_encoder.EntryGraph.Writes.{
  SameMaps-refl, Touched, Touched-trans, Created, put_node-Touched, node_at-put_node,
  length-put_node,
}

-- The order in which children are inserted does not matter.
pushed : List ℕ → List ℕ → List ℕ
pushed [] ids = ids
pushed (c ∷ cs) ids = pushed cs (c ∷ ids)

mem-pushed : (x : ℕ) (cs ids : List ℕ) → mem x (pushed cs ids) ≡ (mem x cs || mem x ids)
unfolding pushed
mem-pushed x [] ids = refl
mem-pushed x (c ∷ cs) ids = mem-pushed x cs (c ∷ ids) ∙ ground arith

module _ (hb : HbSet) (box : Containers) where
  open hb use {Set, has, empty, add, has_empty, has_add}

  -- The node `n` has the mode `m`, the children `ids` and no sets of its own.
  pub record Building (g : EntryGraph hb box) (n : ℕ) (m : ChildMode) (ids : List ℕ) : Type 0 where
    pub in_range : n < length g.nodes
    pub mode : (node_at hb box g.nodes n).child_mode ≡ m
    pub plain : (node_at hb box g.nodes n).coverage ≡ no_coverage box
    pub children : (x : ℕ) → has (node_at hb box g.nodes n).children_ids x ≡ mem x ids

  pub Building-same :
      (g h : EntryGraph hb box) (n : ℕ) (m : ChildMode) (ids : List ℕ)
      → Building g n m ids
      → n < length h.nodes
      → Same hb box (node_at hb box g.nodes n) (node_at hb box h.nodes n)
      → Building h n m ids
  Building-same g h n m ids b l s = record {
    in_range = l;
    mode = sym s.same_mode ∙ b.mode;
    plain = sym s.same_coverage ∙ b.plain;
    children = λ x. ap (λ t. has t x) (sym s.same_children) ∙ b.children x;
  }

  pub put_node-Building :
      (g : EntryGraph hb box) (n : ℕ) (node : EntryNode hb box) (m : ChildMode) (ids : List ℕ)
      → n < length g.nodes
      → node.child_mode ≡ m
      → node.coverage ≡ no_coverage box
      → ((x : ℕ) → has node.children_ids x ≡ mem x ids)
      → Building (put_node hb box n node g) n m ids
  put_node-Building g n node m ids l mode plain children =
      let same = node_at-put_node hb box n node g l in
      record {
        in_range = omega (arith, length-put_node hb box n node g, l);
        mode = ap (λ (t : EntryNode hb box). t.child_mode) same ∙ mode;
        plain = ap (λ (t : EntryNode hb box). t.coverage) same ∙ plain;
        children = λ x. ap (λ (t : EntryNode hb box). has t.children_ids x) same ∙ children x;
      }

  pub put_mode-Building :
      (g : EntryGraph hb box) (n : ℕ) (m m' : ChildMode) (ids : List ℕ)
      → Building g n m ids
      → Building (put_mode hb box n m' g) n m' ids × Touched hb box n g (put_mode hb box n m' g)
  unfolding put_mode
  put_mode-Building g n m m' ids b = (
    put_node-Building g n _ m' ids b.in_range refl b.plain b.children,
    put_node-Touched hb box n _ g,
  )

  pub insert_child-Building :
      (g : EntryGraph hb box) (n c : ℕ) (m : ChildMode) (ids : List ℕ)
      → Building g n m ids
      → Building (insert_child hb box n c g) n m (c ∷ ids)
        × Touched hb box n g (insert_child hb box n c g)
  unfolding insert_child
  insert_child-Building g n c m ids b = (
    put_node-Building g n _ m (c ∷ ids) b.in_range b.mode b.plain
        (λ x. has_add _ c x ∙ ap (λ t. x == c || t) (b.children x)),
    put_node-Touched hb box n _ g,
  )

  pub Touched-refl : (n : ℕ) (g : EntryGraph hb box) → Touched hb box n g g
  Touched-refl n g = record {
    others = λ id l d. (l, Same-refl hb box _);
    maps = SameMaps-refl hb box g;
    grown = omega arith;
  }

  insert_children-children :
      (cs ids : List ℕ) (g : EntryGraph hb box) (n : ℕ) (m : ChildMode)
      → Building g n m ids
      → Building (insert_children hb box n cs g) n m (pushed cs ids)
        × Touched hb box n g (insert_children hb box n cs g)
  unfolding insert_children pushed
  insert_children-children [] ids g n m b = (b, Touched-refl n g)
  insert_children-children (c ∷ cs) ids g n m b =
      let (b1, t1) = insert_child-Building g n c m ids b in
      let (b2, t2) = insert_children-children cs (c ∷ ids) (insert_child hb box n c g) n m b1 in
      (b2, Touched-trans hb box n _ _ _ t1 t2)

  pub insert_children-Building :
      (g : EntryGraph hb box) (n : ℕ) (m : ChildMode) (cs : List ℕ)
      → Building g n m []
      → Building (insert_children hb box n cs g) n m cs
        × Touched hb box n g (insert_children hb box n cs g)
  insert_children-Building g n m cs b =
      let (b', t) = insert_children-children cs [] g n m b in
      (
        record {
          in_range = b'.in_range;
          mode = b'.mode;
          plain = b'.plain;
          children = λ x. b'.children x ∙ mem-pushed x cs [] ∙ ground arith;
        },
        t,
      )

  pub add_edge-Touched :
      (n : ℕ) (id : ℕ) (g : EntryGraph hb box) → Touched hb box n g (add_edge hb box id g)
  unfolding add_edge
  add_edge-Touched n id g = record {
    others = λ j l d. (l, Same-refl hb box _);
    maps = record {
      same_mappings = refl;
      same_encodings = refl;
      same_conditions = refl;
      same_parts = refl;
    };
    grown = omega arith;
  }

  pub add_edge-Building :
      (id : ℕ) (g : EntryGraph hb box) (n : ℕ) (m : ChildMode) (ids : List ℕ)
      → Building g n m ids
      → Building (add_edge hb box id g) n m ids
  unfolding add_edge
  add_edge-Building id g n m ids b = record {
    in_range = b.in_range;
    mode = b.mode;
    plain = b.plain;
    children = b.children;
  }

  -- Another node that is being built.
  pub Building-Touched :
      (g h : EntryGraph hb box) (n k : ℕ) (m : ChildMode) (ids : List ℕ)
      → Building g n m ids
      → n ≢ k
      → Touched hb box k g h
      → Building h n m ids
  Building-Touched g h n k m ids b d t =
      let (l, s) = t.others n b.in_range d in Building-same g h n m ids b l s

  -- A change of a new node changes none of the nodes that were there.
  pub Touched-fresh :
      (n k : ℕ) (g h : EntryGraph hb box)
      → length g.nodes ≤ k
      → Touched hb box k g h
      → Touched hb box n g h
  Touched-fresh n k g h le t = record {
    others = λ id l d. t.others id l (λ e. omega (arith, e));
    maps = t.maps;
    grown = t.grown;
  }

  pub Created-Building :
      (index : ℕ) (g : EntryGraph hb box) (id : ℕ) (h : EntryGraph hb box)
      → Created hb box index g id h
      → Building h id mode_none []
  unfolding new_node
  Created-Building index g id h c = record {
    in_range = omega (arith, c.fresh, c.one_more);
    mode = ap (λ (t : EntryNode hb box). t.child_mode) c.blank;
    plain = ap (λ (t : EntryNode hb box). t.coverage) c.blank;
    children = λ x. ap (λ (t : EntryNode hb box). has t.children_ids x) c.blank ∙ has_empty x;
  }
