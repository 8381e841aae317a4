-- ===== src/EntryGraph/Segments.antt =====
-- The segment of a unitary condition, and the kinds of its sets.
use ift_encoder.Prelude.{
  ℕ, ◌<◌, ◌≡◌, sym, ap, ◌∙◌, Bool, true, false, List, [], ◌∷◌, none, some, length, arith,
  if◌then◌else◌, ==_iff,
}
use ift_encoder.IntSet.Defs.{HbSet, mem}
use ift_encoder.Condition.Defs.{ActivationCondition, is_unitary, unitary}
use ift_encoder.Condition.Semantics.{activates, all_hit}
use ift_encoder.Condition.Groups.{hits_single}
use ift_encoder.GlyphConditions.Defs.{triggering_segments, min_of}
use ift_encoder.GlyphConditions.Triggers.{
  any_has, has-triggering_segments, mem-first_or_zero, first_or_zero,
}
use ift_encoder.EntryGraph.Coverage.{
  Kind, codepoints, features, design_space, Containers, Coverage, Request, meets_segment, all_empty,
}
use ift_encoder.EntryGraph.Nodes.{mode_or}
use ift_encoder.EntryGraph.Build.{sole_kind}
use ift_encoder.EntryGraph.Meaning.{deciding}
use ift_encoder.EntryGraph.Children.{join}

module _ (hb : HbSet) where
  -- A set with a member has its minimum.
  has-min_of_member : (s : hb.Set) (x : ℕ) → hb.has s x ≡ true → hb.has s (min_of hb s) ≡ true
  unfolding min_of
  has-min_of_member s x h =
      hb.has_values s (min_of hb s)
      ∙ ap (λ o. mem (elim o [ none ↦ 0 | some y ↦ y ]) (hb.values s)) (hb.get_min_lem s)
      ∙ mem-first (hb.values s) (sym (hb.has_values s x) ∙ h)
    where
      mem-first : (xs : List ℕ) → mem x xs ≡ true → mem (first_or_zero hb xs) xs ≡ true
      mem-first [] m = cc
      mem-first (y ∷ ys) m = ground arith

  has_some : (s : hb.Set) → hb.population s ≡ 1 → (x : ℕ) × (hb.has s x ≡ true)
  has_some s e = (
    first_or_zero hb (hb.values s),
    hb.has_values s _ ∙ mem-first_or_zero hb (hb.values s) (sym (hb.population_lem s) ∙ e),
  )

  -- The segment of a unitary condition decides whether it activates.
  pub unitary-activates :
      (f : ℕ → Bool) (c : ActivationCondition hb)
      → is_unitary hb c ≡ true
      → (any_has hb c.conditions (min_of hb (triggering_segments hb c)) ≡ true)
        × (activates hb f c ≡ f (min_of hb (triggering_segments hb c)))
  unfolding is_unitary activates all_hit unitary
  unitary-activates f c h = groups c.conditions h member
    where
      s : ℕ
      s = min_of hb (triggering_segments hb c)

      member : (x : ℕ) → any_has hb c.conditions x ≡ true → any_has hb c.conditions s ≡ true
      member x m =
          sym (has-triggering_segments hb c s)
          ∙ has-min_of_member (triggering_segments hb c) x (has-triggering_segments hb c x ∙ m)

      groups :
          (cs : List hb.Set)
          → unitary hb cs ≡ true
          → ((x : ℕ) → any_has hb cs x ≡ true → any_has hb cs s ≡ true)
          → (any_has hb cs s ≡ true) × (all_hit hb f cs ≡ f s)
      groups [] u m = cc
      groups (d ∷ e ∷ ds) u m = cc
      groups (d ∷ []) u m =
          let one = (==_iff (hb.population d) 1).0 u in
          let (x, k) = has_some d one in
          let found = m x (ground arith) in
          (found, ground (arith, hits_single hb f d s (ground (arith, one)) (ground arith)))

  module _ (box : Containers) (r : Request box) where
    open box use {is_empty}

    pub sole_kind-lem :
        (s : Coverage box) (k : Kind)
        → sole_kind hb box s ≡ some k
        → (is_empty k (s k) ≡ false) × (meets_segment box r s ≡ r.meets k (s k))
    unfolding sole_kind meets_segment
    sole_kind-lem s codepoints h = ground arith
    sole_kind-lem s features h = ground arith
    sole_kind-lem s design_space h = ground arith

    -- The values of the children for single sets.
    unfoldable pub part_values : Kind → Coverage box → List Bool → List Bool
    part_values k s bs = if is_empty k (s k) then bs else r.meets k (s k) ∷ bs

    unfoldable pub all_parts : Coverage box → List Bool
    unfolding part_values
    all_parts s = part_values design_space s (part_values features s (part_values codepoints s []))

    pub join-all_parts : (s : Coverage box) → join mode_or (all_parts s) ≡ meets_segment box r s
    unfolding all_parts part_values join deciding meets_segment
    join-all_parts s = ground arith

    pub all_parts-nonempty : (s : Coverage box) → all_empty box s ≡ false → 0 < length (all_parts s)
    unfolding all_parts part_values all_empty
    all_parts-nonempty s h = ground arith
