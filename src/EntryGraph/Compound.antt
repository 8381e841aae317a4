-- ===== src/EntryGraph/Compound.antt =====
-- The nodes for disjunctions and for conjunctions of groups.
use ift_encoder.Prelude.{
  ℕ, suc, ◌<◌, ◌≡◌, refl, ap, ◌∙◌, Bool, true, List, [], ◌∷◌, map, Option, length, All, arith,
}
use mathlib.Core.Path.{subst}
use ift_encoder.IntSet.Defs.{HbSet}
use ift_encoder.Condition.Defs.{ActivationCondition}
use ift_encoder.Condition.Semantics.{activates}
use ift_encoder.EntryGraph.Coverage.{Containers, Coverage, Request}
use ift_encoder.EntryGraph.Nodes.{
  mode_none, EntryGraph, Outcome, normalize, put_mode, add_children_to_node,
}
use ift_encoder.EntryGraph.Build.{start_node, add_each, child_conditions, mode_of, add_compound}
use ift_encoder.EntryGraph.Meaning.{Means, is_branch}
use ift_encoder.EntryGraph.Children.{join, MeanAll, MeanAll-length}
use ift_encoder.EntryGraph.Steps.{
  Yields, Yields-bind, active, Step, Step-trans, Step-others, nothing, Pending-childless, Holds,
}
use ift_encoder.EntryGraph.Building.{Building-same, Touched-refl, put_mode-Building}
use ift_encoder.EntryGraph.Chains.{Chained, add_children_to_node-Yields}
use ift_encoder.EntryGraph.Parts.{PartsHold, PartsHold-Step, Step-fresh}
use ift_encoder.EntryGraph.Mapped.{
  level, only, Step-weaken, Step-complete, Mapped, Started, start_node-Yields, condition_equal_refl,
  CondsHold, CondsHold-Step,
}
use ift_encoder.EntryGraph.Unitary.{Pending-mode_none}

module _ (hb : HbSet) (box : Containers) (r : Request box)
    (segments : ℕ → Option (Coverage box)) where
  -- The recursive call gives the condition a node, in a graph where the conditions up to a level
  -- have theirs.
  abbrev pub Maps :
      (ActivationCondition hb → EntryGraph hb box → Outcome hb box ℕ)
      → ℕ
      → ActivationCondition hb
      → Type 0
  Maps again l c =
      (g : EntryGraph hb box)
      → CondsHold hb box r segments l g
      → PartsHold hb box r segments (nothing hb box r segments) g
      → Yields hb box (again c g) (Mapped hb box r segments (normalize hb box c) g)

  abbrev pub values_of : List (ActivationCondition hb) → List Bool
  values_of cs = map (λ c. activates hb (active hb box r segments) (normalize hb box c)) cs

  length-values_of : (cs : List (ActivationCondition hb)) → length (values_of cs) ≡ length cs
  length-values_of [] = refl
  length-values_of (c ∷ cs) = ap suc (length-values_of cs)

  record EachMapped (cs : List (ActivationCondition hb)) (g : EntryGraph hb box) (ids : List ℕ)
      (h : EntryGraph hb box) : Type 0 where
    step : Step hb box r segments (nothing hb box r segments) (length g.nodes) g h
    mean : MeanAll hb box r h.nodes ids (values_of cs)

  add_each-Yields :
      (again : ActivationCondition hb → EntryGraph hb box → Outcome hb box ℕ) (l : ℕ)
      → (cs : List (ActivationCondition hb)) (g : EntryGraph hb box) → All (Maps again l) cs
      → CondsHold hb box r segments l g
      → PartsHold hb box r segments (nothing hb box r segments) g
      → Yields hb box (add_each hb box again cs g) (EachMapped cs g)
  unfolding add_each
  add_each-Yields again l [] g all conds parts =
      let same = Touched-refl hb box (length g.nodes) g in
      record {
        step =
            Step-fresh hb box r segments (nothing hb box r segments) (length g.nodes) g g
              (omega arith) same;
        mean = tt;
      }
  add_each-Yields again l (c ∷ cs) g all conds parts =
      Yields-bind hb box (again c g) _ (Mapped hb box r segments (normalize hb box c) g)
        (EachMapped (c ∷ cs) g) (all.0 g conds parts)
        (λ id g1 m.
          Yields-bind hb box (add_each hb box again cs g1) _ (EachMapped cs g1)
            (EachMapped (c ∷ cs) g)
            (add_each-Yields again l cs g1 all.1
              (CondsHold-Step hb box r segments (nothing hb box r segments) l _ g g1 m.step
                (λ c id e k. e) conds)
              (PartsHold-Step hb box r segments (nothing hb box r segments) _ g g1 m.step parts))
            (λ ids g2 e. record {
              step =
                  Step-trans hb box r segments (nothing hb box r segments) (length g.nodes)
                    (length g1.nodes) g g1 g2 m.step.grown m.step e.step;
              mean = (e.step.kept id _ m.holds, e.mean);
            }))

  -- The node of a condition that activates when its child conditions do, all or some.
  pub add_compound-Yields :
      (again : ActivationCondition hb → EntryGraph hb box → Outcome hb box ℕ) (l index : ℕ)
      → (c : ActivationCondition hb) (g : EntryGraph hb box) → l < level hb c
      → 0 < length (child_conditions hb box c)
      → join (mode_of hb box c) (values_of (child_conditions hb box c))
        ≡ activates hb (active hb box r segments) c
      → is_branch (mode_of hb box c) ≡ true
      → All (Maps again l) (child_conditions hb box c)
      → CondsHold hb box r segments l g
      → PartsHold hb box r segments (nothing hb box r segments) g
      → Yields hb box (add_compound hb box again c index g) (Mapped hb box r segments c g)
  unfolding add_compound
  add_compound-Yields again l index c g lower some_child value branch all conds parts =
      let m = mode_of hb box c in
      let cs = child_conditions hb box c in
      Yields-bind hb box (start_node hb box c index g) _ (Started hb box r segments c g)
        (Mapped hb box r segments c g) (start_node-Yields hb box r segments c index g)
        (λ id g1 st.
          let (b2, t2) = put_mode-Building hb box g1 id mode_none m [] st.building in
          let g2 = put_mode hb box id m g1 in
          let s2 =
            Step-others hb box r segments (only hb box r segments c id) (length g.nodes) id g1 g2
              t2.others t2.maps (Pending-mode_none hb box r segments g1 id [] st.building)
              (omega (arith, st.fresh)) st.step.grown t2.grown in
          let s02 =
            Step-trans hb box r segments (only hb box r segments c id) (length g.nodes)
              (length g.nodes) g g1 g2 (omega arith) st.step s2 in
          Yields-bind hb box (add_each hb box again cs g2) _ (EachMapped cs g2)
            (Mapped hb box r segments c g)
            (add_each-Yields again l cs g2 all
              (CondsHold-Step hb box r segments (only hb box r segments c id) l _ g g2 s02
                (λ c' id' (e, q) le. omega (arith, le, lower, ap (level hb) e)) conds)
              (PartsHold-Step hb box r segments (only hb box r segments c id) _ g g2 s02 parts))
            (λ children g3 e.
              let (l3, same3) = e.step.below id b2.in_range in
              let b3 = Building-same hb box g2 g3 id m [] b2 l3 same3 in
              let s03 =
                Step-trans hb box r segments (only hb box r segments c id) (length g.nodes)
                  (length g2.nodes) g g2 g3 s02.grown s02
                  (Step-weaken hb box r segments (only hb box r segments c id) (length g2.nodes) g2
                    g3 e.step) in
              Yields-bind hb box (add_children_to_node hb box id m children g3) _
                (Chained hb box r segments id m (values_of cs) g3) (Mapped hb box r segments c g)
                (add_children_to_node-Yields hb box r segments id m children (values_of cs) g3
                  (omega (
                    arith,
                    some_child,
                    length-values_of cs,
                    MeanAll-length hb box r g3.nodes children (values_of cs) e.mean,
                  ))
                  branch b3 e.mean)
                (λ u g4 x.
                  let s34 =
                    Step-others hb box r segments (only hb box r segments c id) (length g.nodes) id
                      g3 g4 x.touched.others x.touched.maps
                      (Pending-childless hb box r segments g3 id (ap is_branch b3.mode ∙ branch)
                        (λ y. b3.children y))
                      (omega (arith, st.fresh)) (omega (arith, s03.grown)) x.touched.grown in
                  let s04 =
                    Step-trans hb box r segments (only hb box r segments c id) (length g.nodes)
                      (length g.nodes) g g3 g4 (omega arith) s03 s34 in
                  let holds : Holds hb box r segments c id g4 =
                    subst (Means hb box r g4.nodes id) value x.means in
                  record {
                    step = Step-complete hb box r segments c id (length g.nodes) g g4 s04 holds;
                    holds = holds;
                    listed = (
                      c,
                      id,
                      s34.known c id (e.step.known c id (s2.known c id st.own_entry)),
                      condition_equal_refl hb box c,
                    );
                  })))
