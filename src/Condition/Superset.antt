-- ===== src/Condition/Superset.antt =====
-- When the result of ActivationCondition::NonCompositeSuperset activates.
use ift_encoder.Prelude.{
  ℕ, ◌≡◌, refl, sym, ap, ◌∙◌, Bool, true, not, ◌||◌, List, [], ◌∷◌, map, Option, none, some, arith,
  Bool-cases, inl, inr, ◌==◌, ==_iff,
}
use ift_encoder.IntSet.{HbSet, mem, first}
use ift_encoder.IntSet.Laws.{hits}
use ift_encoder.Condition.Defs.{
  ActivationCondition, singleton, is_purely_conjunctive, is_purely_disjunctive, is_always_true,
}
use ift_encoder.Condition.Rewrite.{
  Pick, pick_step, pick_all, superset_groups, non_composite_superset, insert_min, keep_better,
  is_better, kept_group,
}
use ift_encoder.Condition.Semantics.{all_hit, activates}
use ift_encoder.Condition.Groups.{hits-singleton, hits_single}

module _ (hb : HbSet) (active : ℕ → Bool) where
  open hb use {Set, has, population, values, empty, add, get_min, is_empty}
  open hb use {has_values, has_add, has_empty, population_lem, get_min_lem, values_ascending}

  -- What has been gathered is active.
  record IsActive (p : Pick hb) : Type 0 where
    segments : (x : ℕ) → has p.conjunctive x ≡ true → active x ≡ true
    group : (g : Set) → p.keep ≡ some g → hits hb active g ≡ true

  first-mem : (xs : List ℕ) (m : ℕ) → first xs ≡ some m → mem m xs ≡ true
  first-mem [] m e = cc
  first-mem (x ∷ xs) m e = ground arith

  min_active :
      (g : Set) (m : ℕ)
      → (population g == 1) ≡ true
      → get_min g ≡ some m
      → hits hb active g ≡ true
      → active m ≡ true
  min_active g m one e h =
      sym (
        hits_single hb active g m (ground arith)
          (has_values g m ∙ first-mem (values g) m (sym (get_min_lem g) ∙ e)))
      ∙ h

  insert_min-IsActive :
      (o : Option ℕ) (p : Pick hb)
      → ((m : ℕ) → o ≡ some m → active m ≡ true)
      → IsActive p
      → IsActive (insert_min hb o p)
  unfolding insert_min
  insert_min-IsActive none p h v = v
  insert_min-IsActive (some m) p h v = record {
    segments = λ x k. elim (Bool-cases (x == m)) [
      | inl e ↦ ap active ((==_iff x m).0 e) ∙ h m refl
      | inr e ↦ v.segments x (ground (arith, has_add p.conjunctive m x))
    ];
    group = v.group;
  }

  some-injective : {a b : Set} → some a ≡ some b → a ≡ b
  some-injective e = cc

  keep_better-IsActive :
      (o : Option ℕ) (g : Set) (p : Pick hb)
      → hits hb active g ≡ true
      → IsActive p
      → IsActive (keep_better hb o g p)
  unfolding keep_better
  keep_better-IsActive none g p h v = v
  keep_better-IsActive (some m) g p h v = elim (Bool-cases (is_better hb m g p.highest_s p.keep)) [
    | inl e ↦ rw e (record {
      segments = v.segments;
      group = λ d k. ap (hits hb active) (some-injective (sym k)) ∙ h;
    })
    | inr e ↦ rw e v
  ]

  pick_step-IsActive :
      (p : Pick hb) (g : Set) → hits hb active g ≡ true → IsActive p → IsActive (pick_step hb p g)
  unfolding pick_step
  pick_step-IsActive p g h v = elim (Bool-cases (population g == 1)) [
    | inl one ↦ rw one (insert_min-IsActive (get_min g) p (λ m e. min_active g m one e h) v)
    | inr more ↦ elim (Bool-cases (not (is_empty p.conjunctive) || is_empty g)) [
      | inl e ↦ rw (more, e) v
      | inr e ↦ rw (more, e) (keep_better-IsActive (get_min g) g p h v)
    ]
  ]

  pick_all-IsActive :
      (cs : List Set) (p : Pick hb)
      → all_hit hb active cs ≡ true
      → IsActive p
      → IsActive (pick_all hb p cs)
  unfolding pick_all all_hit
  pick_all-IsActive [] p h v = v
  pick_all-IsActive (c ∷ cs) p h v =
      pick_all-IsActive cs (pick_step hb p c) (ground arith)
        (pick_step-IsActive p c (ground arith) v)

  all_hit-singletons :
      (xs : List ℕ)
      → ((x : ℕ) → mem x xs ≡ true → active x ≡ true)
      → all_hit hb active (map (singleton hb) xs) ≡ true
  unfolding all_hit
  all_hit-singletons [] h = refl
  all_hit-singletons (x ∷ xs) h = ground (
    arith,
    hits-singleton hb active x,
    h x (ground arith),
    all_hit-singletons xs (λ y m. h y (ground (arith, m))),
  )

  all_hit-kept_group :
      (o : Option Set)
      → ((g : Set) → o ≡ some g → hits hb active g ≡ true)
      → all_hit hb active (kept_group hb o) ≡ true
  unfolding kept_group all_hit
  all_hit-kept_group none h = refl
  all_hit-kept_group (some g) h = ground (arith, h g refl)

  superset_groups-hit : (p : Pick hb) → IsActive p → all_hit hb active (superset_groups hb p) ≡ true
  unfolding superset_groups
  superset_groups-hit p v = elim (Bool-cases (not (is_empty p.conjunctive))) [
    | inl e ↦ rw e (
        all_hit-singletons (values p.conjunctive)
          (λ x m. v.segments x (has_values p.conjunctive x ∙ m)))
    | inr e ↦ rw e (all_hit-kept_group p.keep v.group)
  ]

  -- NonCompositeSuperset activates whenever the condition it is taken of does.
  pub non_composite_superset-activates :
      (c : ActivationCondition hb)
      → activates hb active c ≡ true
      → activates hb active (non_composite_superset hb c) ≡ true
  unfolding non_composite_superset activates
  non_composite_superset-activates c h =
      elim (Bool-cases
        (is_purely_conjunctive hb c || is_purely_disjunctive hb c || is_always_true hb c)) [
          | inl e ↦ rw e h
          | inr e ↦ rw e (
              superset_groups-hit _ (
                pick_all-IsActive c.conditions _ h
                  (record { segments = λ x m. cc (m, has_empty x); group = λ g k. cc })))
        ]
