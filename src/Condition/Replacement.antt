-- ===== src/Condition/Replacement.antt =====
-- The meaning of ActivationCondition::ReplaceSegments and RemoveIntersectingSubgroups.
use ift_encoder.Prelude.{
  In, ℕ, ◌≡◌, refl, sym, ◌∙◌, Bool, true, false, ◌&&◌, List, [], ◌∷◌, arith, Bool-cases, inl, inr,
  ◌⊎◌, ◌↔◌, if◌then◌else◌,
}
use mathlib.Core.Path.{subst}
use ift_encoder.IntSet.{HbSet, intersects}
use ift_encoder.IntSet.Laws.{hits}
use ift_encoder.Condition.Defs.{
  ActivationCondition, singleton, no_disjunction, is_purely_conjunctive,
}
use ift_encoder.Condition.Rewrite.{
  Scan, scan, insert_sorted, with_base, replace_in, replace_segments, any_intersects,
  condition_intersects, without, remove_intersecting_subgroups,
}
use ift_encoder.Condition.Semantics.{all_hit, activates, all_hit-simplify}
use ift_encoder.Condition.Groups.{
  redirected, hits-singleton, hits_single, hits-redirected_miss, hits-redirected_single,
  hits-replaced,
}

module _ (hb : HbSet) (active : ℕ → Bool) where
  open hb use {Set, has, population}

  all_hit-insert_sorted :
      (c : Set) (cs : List Set)
      → all_hit hb active (insert_sorted hb c cs) ≡ (hits hb active c && all_hit hb active cs)
  unfolding insert_sorted all_hit
  all_hit-insert_sorted c [] = refl
  all_hit-insert_sorted c (d ∷ ds) = ground (arith, all_hit-insert_sorted c ds)

  module _ (base : ℕ) (segments : Set) where
    abbrev moved : ℕ → Bool
    moved = redirected hb active base segments

    -- A kept group that has the base segment is that segment alone.
    base_kept :
        (cs : List Set)
        → no_disjunction hb cs ≡ true
        → (scan hb base segments cs).base_present ≡ true
        → all_hit hb active (scan hb base segments cs).kept ≡ true
        → active base ≡ true
    unfolding scan all_hit no_disjunction
    base_kept [] n p h = cc
    base_kept (c ∷ cs) n p h = ground (arith, base_kept cs, hits_single hb active c base)

    all_hit-scan :
        (cs : List Set)
        → no_disjunction hb cs ≡ true
        → all_hit hb moved cs ≡ (
            all_hit hb active (scan hb base segments cs).kept
            && (if (scan hb base segments cs).has_replace then active base else true))
    unfolding scan all_hit no_disjunction
    all_hit-scan [] n = refl
    all_hit-scan (c ∷ cs) n = ground (
      arith,
      all_hit-scan cs,
      hits-redirected_miss hb active base segments c,
      hits-redirected_single hb active base segments c,
    )

    all_hit-with_base :
        (s : Scan hb)
        → (s.base_present ≡ true → all_hit hb active s.kept ≡ true → active base ≡ true)
        → all_hit hb active (with_base hb base s)
          ≡ (all_hit hb active s.kept && (if s.has_replace then active base else true))
    unfolding with_base
    all_hit-with_base s present =
        ground
          (arith, all_hit-insert_sorted (singleton hb base) s.kept, hits-singleton hb active base)

    all_hit-replace_in :
        (cs : List Set) → all_hit hb active (replace_in hb base segments cs) ≡ all_hit hb moved cs
    unfolding replace_in all_hit
    all_hit-replace_in [] = refl
    all_hit-replace_in (c ∷ cs) = ground (
      arith,
      all_hit-replace_in cs,
      hits-redirected_miss hb active base segments c,
      hits-replaced hb active base segments c,
    )

    no_disjunction_of :
        (c : ActivationCondition hb)
        → is_purely_conjunctive hb c ≡ true
        → no_disjunction hb c.conditions ≡ true
    unfolding is_purely_conjunctive
    no_disjunction_of c h = ground arith

    -- On both paths of ReplaceSegments the new condition activates exactly when the old one does
    -- with each of the segments read as the base segment.
    pub activates-replace_segments :
        (c : ActivationCondition hb)
        → activates hb active (replace_segments hb c base segments) ≡ activates hb moved c
    unfolding replace_segments activates
    activates-replace_segments c = elim (Bool-cases (is_purely_conjunctive hb c)) [
      | inl e ↦
          let n = no_disjunction_of c e in
          rw e (
            all_hit-with_base (scan hb base segments c.conditions) (base_kept c.conditions n)
            ∙ sym (all_hit-scan c.conditions n))
      | inr e ↦ rw e (all_hit-simplify hb active _ ∙ all_hit-replace_in c.conditions)
    ]

  without-misses :
      (segments : Set) (cs : List Set) → any_intersects hb (without hb segments cs) segments ≡ false
  unfolding without any_intersects
  without-misses segments [] = refl
  without-misses segments (c ∷ cs) = ground (arith, without-misses segments cs)

  without-keeps :
      (segments : Set) (cs : List Set) (d : Set)
      → In d cs
      → intersects hb d segments ≡ false
      → In d (without hb segments cs)
  unfolding without
  without-keeps segments [] d found misses = absurd found
  without-keeps segments (c ∷ cs) d (inl same) misses = rw (← same, misses, In) (inl refl)
  without-keeps segments (c ∷ cs) d (inr later) misses =
      elim (Bool-cases (intersects hb c segments)) [
        | inl e ↦ rw e (without-keeps segments cs d later misses)
        | inr e ↦ rw (e, In) (inr (without-keeps segments cs d later misses))
      ]

  without-from :
      (segments : Set) (cs : List Set) (d : Set)
      → In d (without hb segments cs)
      → In d cs × (intersects hb d segments ≡ false)
  unfolding without
  without-from segments [] d h = absurd h
  without-from segments (c ∷ cs) d h = elim (Bool-cases (intersects hb c segments)) [
    | inl e ↦ let (found, misses) = without-from segments cs d (rw e at h) in (inr found, misses)
    | inr e ↦ elim (kept e h) [
      | inl same ↦ (inl same, rw same e)
      | inr later ↦ let (found, misses) = without-from segments cs d later in (inr found, misses)
    ]
  ]
    where
      kept :
          intersects hb c segments ≡ false
          → In d (
              if intersects hb c segments
              then without hb segments cs
              else c ∷ without hb segments cs)
          → (d ≡ c) ⊎ In d (without hb segments cs)
      kept e g =
          subst (λ b. In d (if b then without hb segments cs else c ∷ without hb segments cs)) e g

  without-hit :
      (segments : Set) (cs : List Set)
      → all_hit hb active cs ≡ true
      → all_hit hb active (without hb segments cs) ≡ true
  unfolding without all_hit
  without-hit segments [] h = refl
  without-hit segments (c ∷ cs) h = ground (arith, without-hit segments cs)

  -- The groups that RemoveIntersectingSubgroups leaves are exactly the groups of the condition that do
  -- not intersect the segments, so that the new condition does not intersect them, and it activates
  -- whenever the old one does.
  pub remove_intersecting_subgroups_lem :
      (c : ActivationCondition hb) (segments : Set)
      → ((d : Set)
          → In d (remove_intersecting_subgroups hb c segments).conditions
            ↔ (In d c.conditions × (intersects hb d segments ≡ false)))
        × (condition_intersects hb (remove_intersecting_subgroups hb c segments) segments ≡ false)
        × (activates hb active c ≡ true
            → activates hb active (remove_intersecting_subgroups hb c segments) ≡ true)
  unfolding remove_intersecting_subgroups condition_intersects activates
  remove_intersecting_subgroups_lem c segments = (
    λ d. (
      without-from segments c.conditions d,
      λ (found, misses). without-keeps segments c.conditions d found misses,
    ),
    without-misses segments c.conditions,
    without-hit segments c.conditions,
  )
