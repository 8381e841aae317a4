-- ===== src/EntryGraph/Unitary.antt =====
-- The nodes for single segments.
use ift_encoder.Prelude.{
  ℕ, ◌≡◌, refl, sym, ap, ◌∙◌, Bool, true, false, List, [], ◌∷◌, Option, some, length, arith, inl,
  inr, Bool-cases, Option-cases,
}
use mathlib.Core.Path.{subst}
use ift_encoder.IntSet.Defs.{HbSet}
use ift_encoder.Condition.Defs.{ActivationCondition, is_unitary}
use ift_encoder.GlyphConditions.Defs.{triggering_segments, min_of}
use ift_encoder.GlyphConditions.Triggers.{any_has}
use ift_encoder.EntryGraph.Coverage.{
  Kind, codepoints, features, design_space, Containers, Coverage, Request, meets_segment, all_empty,
}
use ift_encoder.EntryGraph.Nodes.{
  mode_none, mode_or, EntryGraph, add_part_only, insert_child, put_mode, put_condition_id,
}
use ift_encoder.EntryGraph.Build.{
  segment_at, sole_kind, add_part_child, add_mixed, add_unitary, start_node,
}
use ift_encoder.EntryGraph.Meaning.{Means, is_branch}
use ift_encoder.EntryGraph.Children.{MeanAll, MeanAll-kept, MeanAll-length}
use ift_encoder.EntryGraph.Steps.{
  Yields, Yields-bind, Yields-map, active, Step, Step-trans, Step-others, nothing, Pending,
  Pending-plain, Holds,
}
use ift_encoder.EntryGraph.Building.{
  Building, Building-same, Touched-refl, insert_child-Building, put_mode-Building,
}
use ift_encoder.EntryGraph.Writes.{all_empty-no_coverage}
use ift_encoder.EntryGraph.Chains.{Means-joined}
use ift_encoder.EntryGraph.Parts.{PartsHold, PartsHold-Step, PartAdded, add_part_only-Yields}
use ift_encoder.EntryGraph.Mapped.{
  only, Step-weaken, Step-complete, Step-entry, Mapped, Started, start_node-Yields,
  condition_equal_refl,
}
use ift_encoder.EntryGraph.Segments.{
  unitary-activates, sole_kind-lem, part_values, all_parts, join-all_parts, all_parts-nonempty,
}

module _ (hb : HbSet) (box : Containers) (r : Request box) where
  open box use {is_empty}

  module _ (segments : ℕ → Option (Coverage box)) where
    -- Every segment of the condition is in the map, and has a set that is not empty.
    abbrev pub Known : ActivationCondition hb → Type 0
    Known c =
        (x : ℕ)
        → any_has hb c.conditions x ≡ true
        → (s : Coverage box) × (segments x ≡ some s) × (all_empty box s ≡ false)

    -- A node for a segment, with the children for some of its sets.
    record Mixing (n : ℕ) (bs : List Bool) (g : EntryGraph hb box) (h : EntryGraph hb box)
        : Type 0 where
      step : Step hb box r segments (nothing hb box r segments) n g h
      ids : List ℕ
      building : Building hb box h n mode_none ids
      mean : MeanAll hb box r h.nodes ids bs

    pub Pending-mode_none :
        (g : EntryGraph hb box) (n : ℕ) (ids : List ℕ)
        → Building hb box g n mode_none ids
        → Pending hb box r segments n g
    Pending-mode_none g n ids b =
        Pending-plain hb box r segments g n b.mode
          (ap (all_empty box) b.plain ∙ all_empty-no_coverage hb box)

    add_part_child-Yields :
        (k : Kind) (s : Coverage box) (n index : ℕ) (bs : List Bool)
        → (f g : EntryGraph hb box) → Mixing n bs f g
        → PartsHold hb box r segments (nothing hb box r segments) g
        → Yields hb box (add_part_child hb box k s n index g) (λ u h.
          Mixing n (part_values hb box r k s bs) f h
          × PartsHold hb box r segments (nothing hb box r segments) h)
    unfolding add_part_child part_values
    add_part_child-Yields k s n index bs f g m parts = elim (Bool-cases (is_empty k (s k))) [
      | inl e ↦ rw (e, Yields) (m, parts)
      | inr e ↦
          rw (e, Yields)
            (Yields-bind hb box (add_part_only hb box k (s k) index g) _
              (PartAdded hb box r segments (nothing hb box r segments) k (s k) g) _
              (add_part_only-Yields hb box r segments (nothing hb box r segments) k (s k) index g e
                parts)
              (λ child g1 a.
                let (l, same) = a.step.below n m.building.in_range in
                let b1 = Building-same hb box g g1 n mode_none m.ids m.building l same in
                let (b2, t) = insert_child-Building hb box g1 n child mode_none m.ids b1 in
                let g2 = insert_child hb box n child g1 in
                let s2 =
                  Step-others hb box r segments (nothing hb box r segments) n n g1 g2 t.others
                    t.maps (Pending-mode_none g1 n m.ids b1) (omega arith) (omega (arith, l))
                    t.grown in
                let s1 =
                  Step-trans hb box r segments (nothing hb box r segments) n (length g.nodes) f g g1
                    (omega (arith, m.building.in_range)) m.step a.step in
                (
                  record {
                    step =
                        Step-trans hb box r segments (nothing hb box r segments) n n f g1 g2
                          (omega arith) s1 s2;
                    ids = child ∷ m.ids;
                    building = b2;
                    mean = (
                      s2.kept child _ a.means,
                      MeanAll-kept hb box r g.nodes g2.nodes m.ids bs
                          (λ id v q. s2.kept id v (a.step.kept id v q)) m.mean,
                    );
                  },
                  PartsHold-Step hb box r segments (nothing hb box r segments) n g1 g2 s2 (
                      PartsHold-Step hb box r segments (nothing hb box r segments) _ g g1 a.step
                        parts),
                )))
    ]

    record MixedAdded (s : Coverage box) (n : ℕ) (g : EntryGraph hb box) (id : ℕ)
        (h : EntryGraph hb box) : Type 0 where
      same_id : id ≡ n
      step : Step hb box r segments (nothing hb box r segments) n g h
      means : Means hb box r h.nodes n (meets_segment box r s)

    add_mixed-Yields :
        (s : Coverage box) (n index : ℕ) (g : EntryGraph hb box)
        → all_empty box s ≡ false
        → Building hb box g n mode_none []
        → PartsHold hb box r segments (nothing hb box r segments) g
        → Yields hb box (add_mixed hb box s n index g) (MixedAdded s n g)
    unfolding add_mixed all_parts is_branch
    add_mixed-Yields s n index g filled b parts =
        let still = Touched-refl hb box n g in
        let m0 : Mixing n [] g g = record {
          step =
              Step-others hb box r segments (nothing hb box r segments) n n g g still.others
                still.maps (Pending-mode_none g n [] b) (omega arith) (omega (arith, b.in_range))
                still.grown;
          ids = [];
          building = b;
          mean = tt;
        } in
        Yields-bind hb box (add_part_child hb box codepoints s n index g) _ _ (MixedAdded s n g)
          (add_part_child-Yields codepoints s n index [] g g m0 parts)
          (λ _ g1 (m1, p1).
            Yields-bind hb box (add_part_child hb box features s n index g1) _ _ (MixedAdded s n g)
              (add_part_child-Yields features s n index _ g g1 m1 p1)
              (λ _ g2 (m2, p2).
                Yields-bind hb box (add_part_child hb box design_space s n index g2) _ _
                  (MixedAdded s n g) (add_part_child-Yields design_space s n index _ g g2 m2 p2)
                  (λ _ g3 (m, p).
                    let (b4, t) =
                      put_mode-Building hb box g3 n mode_none mode_or m.ids m.building in
                    let g4 = put_mode hb box n mode_or g3 in
                    let s4 =
                      Step-others hb box r segments (nothing hb box r segments) n n g3 g4 t.others
                        t.maps (Pending-mode_none g3 n m.ids m.building) (omega arith)
                        (omega (arith, m.building.in_range)) t.grown in
                    record {
                      same_id = refl;
                      step =
                          Step-trans hb box r segments (nothing hb box r segments) n n g g3 g4
                            (omega arith) m.step s4;
                      means = subst (Means hb box r g4.nodes n) (join-all_parts hb box r s) (
                          Means-joined hb box r segments g4 n mode_or m.ids (all_parts hb box r s)
                            (omega (
                              arith,
                              all_parts-nonempty hb box r s filled,
                              MeanAll-length hb box r g3.nodes m.ids (all_parts hb box r s) m.mean,
                            ))
                            b4 refl
                            (MeanAll-kept hb box r g3.nodes g4.nodes m.ids (all_parts hb box r s)
                              s4.kept m.mean));
                    })))

    active-segment :
        (x : ℕ) (s : Coverage box)
        → segments x ≡ some s
        → active hb box r segments x ≡ meets_segment box r s
    unfolding active
    active-segment x s e = rw (e, active) refl

    pub add_unitary-Yields :
        (c : ActivationCondition hb) (index : ℕ) (g : EntryGraph hb box)
        → is_unitary hb c ≡ true
        → Known c
        → PartsHold hb box r segments (nothing hb box r segments) g
        → Yields hb box (add_unitary hb box segments c index g) (Mapped hb box r segments c g)
    unfolding add_unitary segment_at put_condition_id
    add_unitary-Yields c index g unit known parts =
        let x = min_of hb (triggering_segments hb c) in
        let (found, value) = unitary-activates hb (active hb box r segments) c unit in
        let (s, e, filled) = known x found in
        let activation = value ∙ active-segment x s e in
        rw (e, Yields)
          (elim (Option-cases (sole_kind hb box s)) [
            | inr (k, q) ↦
                rw (q, Yields)
                  (let (one, met) = sole_kind-lem hb box r s k q in
                    Yields-bind hb box (add_part_only hb box k (s k) index g) _
                      (PartAdded hb box r segments (nothing hb box r segments) k (s k) g)
                      (Mapped hb box r segments c g)
                      (add_part_only-Yields hb box r segments (nothing hb box r segments) k (s k)
                        index g one parts)
                      (λ id g2 a.
                        let holds : Holds hb box r segments c id g2 =
                          subst (Means hb box r g2.nodes id) (sym (activation ∙ met)) a.means in
                        record {
                          step =
                              Step-complete hb box r segments c id (length g.nodes) g
                                (put_condition_id hb box c id g2)
                                (Step-entry hb box r segments c id (length g.nodes) g g2 (
                                  Step-weaken hb box r segments (only hb box r segments c id)
                                    (length g.nodes) g g2 a.step))
                                holds;
                          holds = holds;
                          listed = (c, id, inl refl, condition_equal_refl hb box c);
                        }))
            | inl q ↦
                rw (q, Yields)
                  (Yields-bind hb box (start_node hb box c index g) _
                    (Started hb box r segments c g) (Mapped hb box r segments c g)
                    (start_node-Yields hb box r segments c index g)
                    (λ id g2 st.
                      Yields-map hb box (add_mixed hb box s id index g2) (MixedAdded s id g2)
                        (Mapped hb box r segments c g)
                        (add_mixed-Yields s id index g2 filled st.building (
                          PartsHold-Step hb box r segments (only hb box r segments c id)
                            (length g.nodes) g g2 st.step parts))
                        (λ id' h m.
                          let holds : Holds hb box r segments c id h =
                            subst (Means hb box r h.nodes id) (sym activation) m.means in
                          subst (λ j. Mapped hb box r segments c g j h) (sym m.same_id)
                            record {
                              step =
                                  Step-complete hb box r segments c id (length g.nodes) g h
                                    (Step-trans hb box r segments (only hb box r segments c id)
                                      (length g.nodes) id g g2 h (omega (arith, st.fresh)) st.step
                                      (Step-weaken hb box r segments (only hb box r segments c id)
                                        id g2 h m.step))
                                    holds;
                              holds = holds;
                              listed = (
                                c,
                                id,
                                m.step.known c id st.own_entry,
                                condition_equal_refl hb box c,
                              );
                            })))
          ])
