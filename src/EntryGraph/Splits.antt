-- ===== src/EntryGraph/Splits.antt =====
-- The nodes that conditions have already, and the conditions of children.
use ift_encoder.Prelude.{
  In, ℕ, ◌<◌, ◌≤◌, ◌≡◌, refl, sym, ap, ◌∙◌, Bool, true, false, List, [], ◌∷◌, Option, length, All,
  arith, inl, inr, Bool-cases, ◌==◌, ==_iff,
}
use mathlib.Core.Path.{subst}
use ift_encoder.IntSet.Defs.{HbSet, mem}
use ift_encoder.IntSet.Laws.{hits}
use ift_encoder.Condition.Defs.{
  ActivationCondition, exclusive_segment, or_segments, is_unitary, is_purely_disjunctive,
}
use ift_encoder.Condition.Semantics.{activates, all_hit}
use ift_encoder.EntryGraph.Coverage.{Containers, Coverage, Request}
use ift_encoder.EntryGraph.Nodes.{
  ChildMode, mode_and, mode_or, EntryNode, EntryGraph, normalize, condition_equal, node_at,
  add_edge, put_node,
}
use ift_encoder.EntryGraph.Build.{exclusive_all, or_all, child_conditions, mode_of, reuse_node}
use ift_encoder.EntryGraph.Meaning.{is_branch, Means, Same}
use ift_encoder.EntryGraph.Children.{join}
use ift_encoder.EntryGraph.Steps.{active, nothing, Holds, Means-lt}
use ift_encoder.EntryGraph.Building.{add_edge-Touched}
use ift_encoder.EntryGraph.Writes.{
  Touched, Touched-trans, put_node-Touched, node_at-put_node, length-put_node,
}
use ift_encoder.EntryGraph.Parts.{Step-fresh}
use ift_encoder.EntryGraph.Mapped.{level, Mapped, CondsHold}
use ift_encoder.EntryGraph.Equal.{condition_equal-activates, condition_equal-level}
use ift_encoder.EntryGraph.Groups.{
  KnownGroup, Filled, level-exclusive, Filled-exclusive, level-or, Filled-or, values_at,
  join-exclusive_all, join-or_all,
}

module _ (hb : HbSet) (box : Containers) (r : Request box)
    (segments : ℕ → Option (Coverage box)) where
  pub level-positive : (c : ActivationCondition hb) → 1 ≤ level hb c
  unfolding level
  level-positive c = ground arith

  -- The index of a node does not matter for what it matches.
  put_index-Touched :
      (id index : ℕ) (g : EntryGraph hb box)
      → id < length g.nodes
      → Touched hb box
          (length g.nodes)
          g
          (put_node hb box id (record (node_at hb box g.nodes id) { condition_index = index }) g)
  put_index-Touched id index g l =
      let node : EntryNode hb box = record (node_at hb box g.nodes id) {
        condition_index = index;
      } in
      let t = put_node-Touched hb box id node g in
      let own : Same hb box (node_at hb box g.nodes id) node = record {
        same_coverage = refl;
        same_mode = refl;
        same_children = refl;
      } in
      record {
        others = λ j le d. elim (Bool-cases (j == id)) [
          | inl e ↦ (
            omega (arith, length-put_node hb box id node g),
            subst
                (λ x.
                  Same hb box (node_at hb box g.nodes x)
                    (node_at hb box (put_node hb box id node g).nodes x))
                (sym ((==_iff j id).0 e))
                (subst (Same hb box (node_at hb box g.nodes id))
                  (sym (node_at-put_node hb box id node g l)) own),
          )
          | inr e ↦ t.others j le (λ q. ground (arith, q))
        ];
        maps = t.maps;
        grown = t.grown;
      }

  reuse_node-Touched :
      (root : Bool) (index id : ℕ) (g : EntryGraph hb box)
      → id < length g.nodes
      → Touched hb box (length g.nodes) g (reuse_node hb box root index id g)
  unfolding reuse_node
  reuse_node-Touched false index id g l = add_edge-Touched hb box (length g.nodes) id g
  reuse_node-Touched true index id g l =
      let indexed =
        put_node hb box id (record (node_at hb box g.nodes id) { condition_index = index }) g in
      Touched-trans hb box (length g.nodes) g indexed (add_edge hb box id indexed)
        (put_index-Touched id index g l) (add_edge-Touched hb box (length g.nodes) id indexed)

  -- The node of a condition that has one already.
  pub reuse_node-Mapped :
      (root : Bool) (index id : ℕ) (c c' : ActivationCondition hb) (g : EntryGraph hb box)
      → In (c', id) g.condition_to_node_id
      → condition_equal hb box c c' ≡ true
      → CondsHold hb box r segments (level hb c) g
      → Mapped hb box r segments c g id (reuse_node hb box root index id g)
  unfolding reuse_node
  reuse_node-Mapped root index id c c' g i e conds =
      let holds : Holds hb box r segments c id g =
        subst (λ b. Means hb box r g.nodes id b)
          (sym (condition_equal-activates hb box (active hb box r segments) c c' e))
          (conds c' id i (omega (arith, condition_equal-level hb box c c' e))) in
      let t = reuse_node-Touched root index id g (Means-lt hb box r segments g.nodes id _ holds) in
      let step =
        Step-fresh hb box r segments (nothing hb box r segments) (length g.nodes) g
          (reuse_node hb box root index id g) (omega arith) t in
      record { step = step; holds = step.kept id _ holds; listed = (c', id, step.known c' id i, e) }

  All-exclusive_all :
      (P : ActivationCondition hb → Type 0) (xs : List ℕ)
      → ((x : ℕ) → mem x xs ≡ true → P (exclusive_segment hb x 0))
      → All P (exclusive_all hb box xs)
  unfolding exclusive_all
  All-exclusive_all P [] h = tt
  All-exclusive_all P (x ∷ xs) h =
      (h x (ground arith), All-exclusive_all P xs (λ y m. h y (ground arith)))

  All-or_all :
      (P : ActivationCondition hb → Type 0) (cs : List hb.Set)
      → All (KnownGroup hb box segments) cs
      → ((c : hb.Set) → KnownGroup hb box segments c → P (or_segments hb c 0 false))
      → All P (or_all hb box cs)
  unfolding or_all
  All-or_all P [] all h = tt
  All-or_all P (c ∷ cs) (k, all) h = (h c k, All-or_all P cs all h)

  pub All-map :
      (P Q : ActivationCondition hb → Type 0)
      → ((c : ActivationCondition hb) → P c → Q c)
      → (cs : List (ActivationCondition hb)) → All P cs
      → All Q cs
  All-map P Q f [] all = tt
  All-map P Q f (c ∷ cs) (p, all) = (f c p, All-map P Q f cs all)

  -- What add_compound needs: the mode `m` and the child conditions `ds` of the condition.
  pub record Splits (m : ChildMode) (ds : List (ActivationCondition hb))
      (c : ActivationCondition hb) : Type 0 where
    pub lower : ℕ
    pub is_lower : lower < level hb c
    pub some_child : 0 < length ds
    pub value :
        join m (values_at hb box segments (active hb box r segments) ds)
        ≡ activates hb (active hb box r segments) c
    pub branch : is_branch m ≡ true
    pub children :
        All
          (λ d.
            Filled hb box segments (normalize hb box d) × (level hb (normalize hb box d) ≤ lower))
          ds

  some_segment :
      (c : hb.Set) (x : ℕ) → hb.has c x ≡ true → 0 < length (exclusive_all hb box (hb.values c))
  unfolding exclusive_all
  some_segment c x h = some_length (hb.values c) (sym (hb.has_values c x) ∙ h)
    where
      some_length : (xs : List ℕ) → mem x xs ≡ true → 0 < length (exclusive_all hb box xs)
      some_length [] m = cc
      some_length (y ∷ ys) m = omega arith

  some_group : (cs : List hb.Set) → 0 < length cs → 0 < length (or_all hb box cs)
  unfolding or_all
  some_group [] h = absurd (omega arith)
  some_group (c ∷ cs) h = omega arith

  Splits-segments :
      (c : ActivationCondition hb) (g : hb.Set)
      → is_unitary hb c ≡ false
      → is_purely_disjunctive hb c ≡ true
      → KnownGroup hb box segments g
      → activates hb (active hb box r segments) c ≡ hits hb (active hb box r segments) g
      → Splits mode_or (exclusive_all hb box (hb.values g)) c
  unfolding is_branch level hits
  Splits-segments c g u d k v = record {
    lower = 1;
    is_lower = ground arith;
    some_child = let (x, h) = k.0 in some_segment g x h;
    value = join-exclusive_all hb box segments (active hb box r segments) (hb.values g) ∙ sym v;
    branch = refl;
    children = All-exclusive_all _ (hb.values g) (λ x m. (
      Filled-exclusive hb box segments x (k.1 x (hb.has_values g x ∙ m)),
      omega (arith, level-exclusive hb box segments x),
    ));
  }

  Splits-groups :
      (c : ActivationCondition hb)
      → is_unitary hb c ≡ false
      → is_purely_disjunctive hb c ≡ false
      → Filled hb box segments c
      → Splits mode_and (or_all hb box c.conditions) c
  unfolding is_branch level activates
  Splits-groups c u d filled = record {
    lower = 2;
    is_lower = ground arith;
    some_child = some_group c.conditions filled.0;
    value = join-or_all hb box segments (active hb box r segments) c.conditions;
    branch = refl;
    children =
        All-or_all _ c.conditions filled.1
          (λ g k. (Filled-or hb box segments g k, level-or hb box segments g));
  }

  pub Splits-compound :
      (c : ActivationCondition hb)
      → is_unitary hb c ≡ false
      → Filled hb box segments c
      → Splits (mode_of hb box c) (child_conditions hb box c) c
  unfolding mode_of child_conditions activates all_hit is_purely_disjunctive
  Splits-compound c u filled = elim (Bool-cases (is_purely_disjunctive hb c)) [
    | inr d ↦ rw d (Splits-groups c u d filled)
    | inl d ↦ rw d (of_groups c.conditions refl d filled.1)
  ]
    where
      of_groups :
          (cs : List hb.Set)
          → c.conditions ≡ cs
          → is_purely_disjunctive hb c ≡ true
          → All (KnownGroup hb box segments) cs
          → Splits mode_or (elim cs [ [] ↦ [] | g ∷ _ ↦ exclusive_all hb box (hb.values g) ]) c
      of_groups [] e d all = absurd (ground (arith, ap (λ (gs : List hb.Set). length gs) e))
      of_groups (g ∷ []) e d all =
          Splits-segments c g u d all.0
            (ap (all_hit hb (active hb box r segments)) e ∙ ground arith)
      of_groups (g ∷ h ∷ gs) e d all =
          absurd (ground (arith, ap (λ (gs : List hb.Set). length gs) e))
