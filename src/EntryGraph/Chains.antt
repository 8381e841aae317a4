-- ===== src/EntryGraph/Chains.antt =====
-- AddChildrenToNode: the children in chunks, each in a node of its own.
use ift_encoder.Prelude.{
  ℕ, zero, suc, ◌<◌, ◌≤◌, ◌≡◌, ◌≢◌, sym, ap, ◌∙◌, Bool, true, List, [], ◌∷◌, Option, length, arith,
  Bool-cases, inl, inr, ltb, ltb→lt, if-true, if-false, take, drop, take-append-drop, length-drop,
}
use mathlib.Core.Path.{subst}
use ift_encoder.IntSet.Defs.{HbSet}
use ift_encoder.EntryGraph.Coverage.{Containers, Coverage, Request, meets_entry}
use ift_encoder.EntryGraph.Nodes.{
  ChildMode, mode_none, EntryNode, EntryGraph, node_at, add_edge, create_node, insert_child,
  insert_children, put_mode, extend_chain, chain_children, add_children_to_node,
}
use ift_encoder.EntryGraph.Meaning.{is_branch, Means, Same-trans}
use ift_encoder.EntryGraph.Children.{join, join-front, MeanAll, MeanAll-kept, Means-join}
use ift_encoder.EntryGraph.Steps.{
  Yields, Yields-bind, Yields-map, Pending-childless, Step-others, nothing,
}
use ift_encoder.EntryGraph.Building.{
  Building, Building-Touched, Created-Building, Touched-fresh, put_mode-Building, add_edge-Building,
  add_edge-Touched, insert_child-Building, insert_children-Building,
}
use ift_encoder.EntryGraph.Writes.{
  Created, Touched, Touched-trans, SameMaps-trans, create_node-Yields, meets_entry-no_coverage,
}

module _ (hb : HbSet) (box : Containers) where
  -- The node `n` got the new node `next` as a child.
  record Extended (n : ℕ) (m : ChildMode) (ids : List ℕ) (g : EntryGraph hb box) (next : ℕ)
      (h : EntryGraph hb box) : Type 0 where
    fresh : next ≡ length g.nodes
    parent : Building hb box h n m (next ∷ ids)
    child : Building hb box h next m []
    touched : Touched hb box n g h

  extend_chain-Yields :
      (n : ℕ) (m : ChildMode) (ids : List ℕ) (g : EntryGraph hb box)
      → Building hb box g n m ids
      → Yields hb box (extend_chain hb box n m g) (Extended n m ids g)
  unfolding extend_chain
  extend_chain-Yields n m ids g b =
      let index = (node_at hb box g.nodes n).condition_index in
      Yields-bind hb box (create_node hb box index g) _ (Created hb box index g)
        (Extended n m ids g) (create_node-Yields hb box index g)
        (λ next g1 c.
          let apart : n ≢ next = λ e. omega (arith, c.fresh, e, b.in_range) in
          let p1 = Building-Touched hb box g g1 n next m ids b apart c.touched in
          let (c2, t2) =
            put_mode-Building hb box g1 next mode_none m []
              (Created-Building hb box index g next g1 c) in
          let g2 = put_mode hb box next m g1 in
          let p2 = Building-Touched hb box g1 g2 n next m ids p1 apart t2 in
          let g3 = add_edge hb box next g2 in
          let p3 = add_edge-Building hb box next g2 n m ids p2 in
          let c3 = add_edge-Building hb box next g2 next m [] c2 in
          let (p4, t4) = insert_child-Building hb box g3 n next m ids p3 in
          let g4 = insert_child hb box n next g3 in
          record {
            fresh = c.fresh;
            parent = p4;
            child = Building-Touched hb box g3 g4 next n m [] c3 (λ e. apart (sym e)) t4;
            touched =
                Touched-trans hb box n g g3 g4
                  (Touched-fresh hb box n next g g3 (omega (arith, c.fresh)) (
                    Touched-trans hb box next g g2 g3
                      (Touched-trans hb box next g g1 g2 c.touched t2)
                      (add_edge-Touched hb box next next g2)))
                  t4;
          })

  Touched-then :
      (n k : ℕ) (f g h : EntryGraph hb box)
      → Touched hb box n f g
      → Touched hb box k g h
      → length f.nodes ≤ k
      → Touched hb box n f h
  Touched-then n k f g h s t le = record {
    others = λ id l d.
        let (l1, e1) = s.others id l d in
        let (l2, e2) = t.others id l1 (λ e. omega (arith, e)) in
        (l2, Same-trans hb box _ _ _ e1 e2);
    maps = SameMaps-trans hb box f g h s.maps t.maps;
    grown = omega (arith, s.grown, t.grown);
  }

  module _ (r : Request box) (segments : ℕ → Option (Coverage box)) where
    pub Means-joined :
        (g : EntryGraph hb box) (n : ℕ) (m : ChildMode) (ids : List ℕ) (bs : List Bool)
        → 0 < length ids
        → Building hb box g n m ids
        → is_branch m ≡ true
        → MeanAll hb box r g.nodes ids bs
        → Means hb box r g.nodes n (join m bs)
    Means-joined g n m [] bs some_id b branch h = absurd (omega arith)
    Means-joined g n m (c ∷ ids) bs some_id b branch h =
        Means-join hb box r g.nodes n m c ids bs b.in_range b.mode branch
          (ap (meets_entry box r) b.plain ∙ meets_entry-no_coverage hb box r) b.children h

    -- What has a meaning keeps it while a node that has none changes.
    pub kept_over :
        (n : ℕ) (m : ChildMode) (g h : EntryGraph hb box)
        → Building hb box g n m []
        → is_branch m ≡ true
        → Touched hb box n g h
        → (id : ℕ) (v : Bool) → Means hb box r g.nodes id v
        → Means hb box r h.nodes id v
    kept_over n m g h b branch t =
        (Step-others hb box r segments (nothing hb box r segments) 0 n g h t.others t.maps
          (Pending-childless hb box r segments g n (ap is_branch b.mode ∙ branch)
            (λ c. b.children c))
          (omega arith) (omega arith) t.grown).kept

    MeanAll-split :
        (k : ℕ) (nodes : List (EntryNode hb box)) (ids : List ℕ) (bs : List Bool)
        → MeanAll hb box r nodes ids bs
        → MeanAll hb box r nodes (take k ids) (take k bs)
          × MeanAll hb box r nodes (drop k ids) (drop k bs)
    MeanAll-split zero nodes ids bs h = (tt, h)
    MeanAll-split (suc k) nodes [] [] h = (tt, tt)
    MeanAll-split (suc k) nodes [] (b ∷ bs) h = absurd h
    MeanAll-split (suc k) nodes (id ∷ ids) [] h = absurd h
    MeanAll-split (suc k) nodes (id ∷ ids) (b ∷ bs) h =
        let (front, back) = MeanAll-split k nodes ids bs h.1 in ((h.0, front), back)

    pub record Chained (n : ℕ) (m : ChildMode) (bs : List Bool) (g : EntryGraph hb box)
        (u : Unit {0}) (h : EntryGraph hb box) : Type 0 where
      pub touched : Touched hb box n g h
      pub means : Means hb box r h.nodes n (join m bs)

    chain_children-Yields :
        (fuel n : ℕ) (m : ChildMode) (ids : List ℕ) (bs : List Bool) (g : EntryGraph hb box)
        → length ids < fuel
        → 0 < length ids
        → is_branch m ≡ true
        → Building hb box g n m []
        → MeanAll hb box r g.nodes ids bs
        → Yields hb box (chain_children hb box fuel n m ids g) (Chained n m bs g)
    unfolding chain_children
    chain_children-Yields zero n m ids bs g enough some_id branch b h = absurd (omega arith)
    chain_children-Yields (suc fuel) n m ids bs g enough some_id branch b h =
        elim (Bool-cases (ltb 127 (length ids))) [
          | inl e ↦
              subst (λ o. Yields hb box o (Chained n m bs g)) (sym (if-true _ _ e))
                (let first = take 126 ids in
                  let (b1, t1) = insert_children-Building hb box g n m first b in
                  let g1 = insert_children hb box n first g in
                  let (front, back) = MeanAll-split 126 g.nodes ids bs h in
                  Yields-bind hb box (extend_chain hb box n m g1) _ (Extended n m first g1)
                    (Chained n m bs g) (extend_chain-Yields n m first g1 b1)
                    (λ next g2 x.
                      let t2 = Touched-trans hb box n g g1 g2 t1 x.touched in
                      let later : length g.nodes ≤ next = omega (arith, x.fresh, t1.grown) in
                      Yields-map hb box (chain_children hb box fuel next m (drop 126 ids) g2)
                        (Chained next m (drop 126 bs) g2) (Chained n m bs g)
                        (chain_children-Yields fuel next m (drop 126 ids) (drop 126 bs) g2
                          (omega (arith, length-drop 126 ids, ltb→lt 127 (length ids) e))
                          (omega (arith, length-drop 126 ids, ltb→lt 127 (length ids) e)) branch
                          x.child
                          (MeanAll-kept hb box r g.nodes g2.nodes (drop 126 ids) (drop 126 bs)
                            (kept_over n m g g2 b branch t2) back))
                        (λ u g3 y.
                          let t3 = Touched-then n next g g2 g3 t2 y.touched later in
                          let apart : n ≢ next = λ q. omega (arith, later, q, b.in_range) in
                          let parent =
                            Building-Touched hb box g2 g3 n next m (next ∷ first) x.parent apart
                              y.touched in
                          record {
                            touched = t3;
                            means =
                                subst (Means hb box r g3.nodes n)
                                  (join-front m (take 126 bs) (drop 126 bs)
                                    ∙ ap (join m) (take-append-drop 126 bs))
                                  (Means-joined g3 n m (next ∷ first)
                                    (join m (drop 126 bs) ∷ take 126 bs) (omega arith) parent branch
                                    (
                                      y.means,
                                      MeanAll-kept hb box r g.nodes g3.nodes first (take 126 bs)
                                          (kept_over n m g g3 b branch t3) front,
                                    ));
                          })))
          | inr e ↦
              subst (λ o. Yields hb box o (Chained n m bs g)) (sym (if-false _ _ e))
                (let (b1, t1) = insert_children-Building hb box g n m ids b in
                  record {
                    touched = t1;
                    means =
                        Means-joined _ n m ids bs some_id b1 branch (
                          MeanAll-kept hb box r g.nodes _ ids bs (kept_over n m g _ b branch t1) h);
                  })
        ]

    pub add_children_to_node-Yields :
        (n : ℕ) (m : ChildMode) (ids : List ℕ) (bs : List Bool) (g : EntryGraph hb box)
        → 0 < length ids
        → is_branch m ≡ true
        → Building hb box g n m []
        → MeanAll hb box r g.nodes ids bs
        → Yields hb box (add_children_to_node hb box n m ids g) (Chained n m bs g)
    unfolding add_children_to_node
    add_children_to_node-Yields n m ids bs g some_id branch b h =
        chain_children-Yields (suc (length ids)) n m ids bs g (omega arith) some_id branch b h
