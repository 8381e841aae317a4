-- ===== src/EntryGraph/Mapped.antt =====
-- The map from conditions to nodes, while the node of a condition is being built and behind that.
use ift_encoder.Prelude.{
  In, ℕ, ◌≤◌, ◌≡◌, refl, sym, ap, Bool, true, false, List, [], ◌∷◌, Option, length, arith, inl, inr,
  if◌then◌else◌, ◌==◌,
}
use mathlib.Core.Path.{subst}
use ift_encoder.IntSet.Defs.{HbSet}
use ift_encoder.Condition.Defs.{
  ActivationCondition, PatchEncoding, is_unitary, is_purely_disjunctive,
}
use ift_encoder.Condition.Ordering.{same_list, encoding_value, differ}
use ift_encoder.EntryGraph.Coverage.{Containers, Coverage, Request}
use ift_encoder.EntryGraph.Nodes.{
  mode_none, EntryGraph, same_groups, condition_equal, create_node, add_edge, put_condition_id,
}
use ift_encoder.EntryGraph.Build.{start_node}
use ift_encoder.EntryGraph.Steps.{Yields, Yields-bind, Step, Exempt, nothing, Holds}
use ift_encoder.EntryGraph.Building.{
  Building, Created-Building, add_edge-Touched, add_edge-Building,
}
use ift_encoder.EntryGraph.Writes.{Created, create_node-Yields, Touched-trans}
use ift_encoder.EntryGraph.Parts.{Step-fresh}

pub same_list_refl : (xs : List ℕ) → same_list xs xs ≡ true
unfolding same_list
same_list_refl [] = refl
same_list_refl (x ∷ xs) = ground (arith, same_list_refl xs)

module _ (hb : HbSet) where
  -- A condition's node has nodes of lower levels as children: those of segments have the level 1, and
  -- those of disjunctions 2.
  unfoldable pub level : ActivationCondition hb → ℕ
  level c = if is_unitary hb c then 1 else if is_purely_disjunctive hb c then 2 else 3

module _ (hb : HbSet) (box : Containers) where
  same_groups_refl : (cs : List hb.Set) → same_groups hb box cs cs ≡ true
  unfolding same_groups
  same_groups_refl [] = refl
  same_groups_refl (c ∷ cs) =
      ground (arith, same_groups_refl cs, (hb.is_equal_iff c c).1 (λ x. refl))

  differ_self : (b : Bool) → differ b b ≡ false
  differ_self true = refl
  differ_self false = refl

  encoding_self : (e : PatchEncoding) → (encoding_value e == encoding_value e) ≡ true
  encoding_self e = ground arith

  pub condition_equal_refl : (c : ActivationCondition hb) → condition_equal hb box c c ≡ true
  unfolding condition_equal
  condition_equal_refl c =
      rw
        (
          same_groups_refl c.conditions,
          same_list_refl c.prefetches,
          differ_self c.is_fallback,
          differ_self c.is_exclusive,
          encoding_self c.encoding,
        )
        (ground arith)

  module _ (r : Request box) (segments : ℕ → Option (Coverage box)) where
    -- The nodes of the conditions up to a level match when the condition activates.
    abbrev pub CondsHold : ℕ → EntryGraph hb box → Type 0
    CondsHold l g =
        (c : ActivationCondition hb) (id : ℕ)
        → In (c, id) g.condition_to_node_id
        → level hb c ≤ l
        → Holds hb box r segments c id g

    pub CondsHold-Step :
        (exempt : Exempt hb box r segments) (l b : ℕ) (g h : EntryGraph hb box)
        → Step hb box r segments exempt b g h
        → ((c : ActivationCondition hb) (id : ℕ) → exempt c id → level hb c ≤ l → ⊥)
        → CondsHold l g
        → CondsHold l h
    CondsHold-Step exempt l b g h s none_exempt conds c id i le = elim (s.added c id i) [
      | inl j ↦ s.kept id _ (conds c id j le)
      | inr (inl m) ↦ m
      | inr (inr e) ↦ absurd (none_exempt c id e le)
    ]

    -- The entry of the condition whose node is being built.
    abbrev pub only : ActivationCondition hb → ℕ → Exempt hb box r segments
    only c n c' id = (c' ≡ c) × (id ≡ n)

    pub Step-weaken :
        (exempt : Exempt hb box r segments) (b : ℕ) (g h : EntryGraph hb box)
        → Step hb box r segments (nothing hb box r segments) b g h
        → Step hb box r segments exempt b g h
    Step-weaken exempt b g h s = record {
      below = s.below;
      grown = s.grown;
      kept = s.kept;
      mappings = s.mappings;
      encodings = s.encodings;
      known = s.known;
      added = λ c id i. elim (s.added c id i) [
        | inl j ↦ inl j
        | inr (inl m) ↦ inr (inl m)
        | inr (inr e) ↦ absurd e
      ];
      added_parts = s.added_parts;
    }

    -- The node is complete.
    pub Step-complete :
        (c : ActivationCondition hb) (n b : ℕ) (g h : EntryGraph hb box)
        → Step hb box r segments (only c n) b g h
        → Holds hb box r segments c n h
        → Step hb box r segments (nothing hb box r segments) b g h
    Step-complete c n b g h s holds = record {
      below = s.below;
      grown = s.grown;
      kept = s.kept;
      mappings = s.mappings;
      encodings = s.encodings;
      known = s.known;
      added = λ c' id i. elim (s.added c' id i) [
        | inl j ↦ inl j
        | inr (inl m) ↦ inr (inl m)
        | inr (inr (e, q)) ↦ inr (
            inl (
              subst (λ x. Holds hb box r segments x id h) (sym e)
                (subst (λ x. Holds hb box r segments c x h) (sym q) holds)))
      ];
      added_parts = s.added_parts;
    }

    -- A new entry of the map.
    pub Step-entry :
        (c : ActivationCondition hb) (n b : ℕ) (g h : EntryGraph hb box)
        → Step hb box r segments (only c n) b g h
        → Step hb box r segments (only c n) b g (put_condition_id hb box c n h)
    unfolding put_condition_id
    Step-entry c n b g h s = record {
      below = s.below;
      grown = s.grown;
      kept = s.kept;
      mappings = s.mappings;
      encodings = s.encodings;
      known = λ c' id i. inr (s.known c' id i);
      added = λ c' id i. elim i [
        | inl e ↦ inr (
            inr (
              ap (λ (t : ActivationCondition hb × ℕ). t.0) e,
              ap (λ (t : ActivationCondition hb × ℕ). t.1) e,
            ))
        | inr j ↦ s.added c' id j
      ];
      added_parts = s.added_parts;
    }

    -- What AddMapping does: a node that matches when the condition activates.
    pub record Mapped (c : ActivationCondition hb) (g : EntryGraph hb box) (id : ℕ)
        (h : EntryGraph hb box) : Type 0 where
      pub step : Step hb box r segments (nothing hb box r segments) (length g.nodes) g h
      pub holds : Holds hb box r segments c id h
      pub listed :
          (c' : ActivationCondition hb) × (id' : ℕ) × In (c', id') h.condition_to_node_id
          × (condition_equal hb box c c' ≡ true)

    pub record Started (c : ActivationCondition hb) (g : EntryGraph hb box) (id : ℕ)
        (h : EntryGraph hb box) : Type 0 where
      pub fresh : id ≡ length g.nodes
      pub step : Step hb box r segments (only c id) (length g.nodes) g h
      pub building : Building hb box h id mode_none []
      pub own_entry : In (c, id) h.condition_to_node_id

    pub start_node-Yields :
        (c : ActivationCondition hb) (index : ℕ) (g : EntryGraph hb box)
        → Yields hb box (start_node hb box c index g) (Started c g)
    unfolding start_node put_condition_id
    start_node-Yields c index g =
        Yields-bind hb box (create_node hb box index g) _ (Created hb box index g) (Started c g)
          (create_node-Yields hb box index g)
          (λ id g1 m.
            let g2 = add_edge hb box id g1 in
            let t = Touched-trans hb box id g g1 g2 m.touched (add_edge-Touched hb box id id g1) in
            let b =
              add_edge-Building hb box id g1 id mode_none []
                (Created-Building hb box index g id g1 m) in
            record {
              fresh = m.fresh;
              step =
                  Step-entry c id (length g.nodes) g g2
                    (Step-fresh hb box r segments (only c id) id g g2 (omega (arith, m.fresh)) t);
              building = record {
                in_range = b.in_range;
                mode = b.mode;
                plain = b.plain;
                children = b.children;
              };
              own_entry = inl refl;
            })
