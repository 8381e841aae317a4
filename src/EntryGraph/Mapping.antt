-- ===== src/EntryGraph/Mapping.antt =====
-- EntryGraph::AddMapping.
use ift_encoder.Prelude.{
  ℕ, zero, suc, ◌≤◌, sym, Bool, false, Option, arith, inl, inr, Bool-cases, Option-cases, if-true,
  if-false,
}
use mathlib.Core.Path.{subst}
use ift_encoder.IntSet.Defs.{HbSet}
use ift_encoder.Condition.Defs.{ActivationCondition, is_unitary}
use ift_encoder.EntryGraph.Coverage.{Containers, Coverage, Request}
use ift_encoder.EntryGraph.Nodes.{EntryGraph, normalize, condition_equal, find_condition}
use ift_encoder.EntryGraph.Build.{child_conditions, add_mapping}
use ift_encoder.EntryGraph.Steps.{Yields, nothing}
use ift_encoder.EntryGraph.Parts.{PartsHold, find_key-In}
use ift_encoder.EntryGraph.Mapped.{level, Mapped, CondsHold}
use ift_encoder.EntryGraph.Unitary.{add_unitary-Yields}
use ift_encoder.EntryGraph.Compound.{add_compound-Yields}
use ift_encoder.EntryGraph.Groups.{Filled, KnownSegment-group}
use ift_encoder.EntryGraph.Splits.{level-positive, reuse_node-Mapped, All-map, Splits-compound}

module _ (hb : HbSet) (box : Containers) (r : Request box)
    (segments : ℕ → Option (Coverage box)) where
  -- AddMapping gives the condition a node that matches when it activates, if three rounds or the
  -- condition's level are left.
  pub add_mapping-Yields :
      (fuel index : ℕ) (root : Bool) (c : ActivationCondition hb) (g : EntryGraph hb box)
      → level hb (normalize hb box c) ≤ fuel
      → Filled hb box segments (normalize hb box c)
      → CondsHold hb box r segments (level hb (normalize hb box c)) g
      → PartsHold hb box r segments (nothing hb box r segments) g
      → Yields hb box
          (add_mapping hb box fuel segments index root c g)
          (Mapped hb box r segments (normalize hb box c) g)
  unfolding add_mapping find_condition
  add_mapping-Yields zero index root c g le filled conds parts =
      absurd (omega (arith, le, level-positive hb box r segments (normalize hb box c)))
  add_mapping-Yields (suc fuel) index root c g le filled conds parts =
      let n = normalize hb box c in
      elim (Option-cases (find_condition hb box n g.condition_to_node_id)) [
        | inr (id, e) ↦
            rw (e, Yields)
              (let (c', i, s) =
                  find_key-In hb box (ActivationCondition hb) ℕ (condition_equal hb box) n
                    g.condition_to_node_id id e in
                reuse_node-Mapped hb box r segments root index id n c' g i s conds)
        | inl e ↦
            rw (e, Yields)
              (elim (Bool-cases (is_unitary hb n)) [
                | inl u ↦
                    subst (λ o. Yields hb box o (Mapped hb box r segments n g))
                      (sym (if-true _ _ u))
                      (add_unitary-Yields hb box r segments n index g u
                        (KnownSegment-group hb box segments n.conditions filled.1) parts)
                | inr u ↦
                    subst (λ o. Yields hb box o (Mapped hb box r segments n g))
                      (sym (if-false _ _ u))
                      (let x = Splits-compound hb box r segments n u filled in
                        add_compound-Yields hb box r segments
                          (add_mapping hb box fuel segments index false) x.lower index n g
                          x.is_lower x.some_child x.value x.branch
                          (All-map hb box r segments _ _
                            (λ d (f, l) h conds' parts'.
                              add_mapping-Yields fuel index false d h
                                (omega (arith, l, x.is_lower, le)) f
                                (λ c' id i k. conds' c' id i (omega (arith, k, l))) parts')
                            (child_conditions hb box n) x.children)
                          (λ c' id i k. conds c' id i (omega (arith, k, x.is_lower))) parts)
              ])
      ]
