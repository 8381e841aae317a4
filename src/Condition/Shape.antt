-- ===== src/Condition/Shape.antt =====
-- The shape of what ActivationCondition::NonCompositeSuperset returns.
use ift_encoder.Prelude.{
  ℕ, ◌≤◌, ◌⊎◌, ◌≡◌, refl, Bool, true, false, not, ◌||◌, List, [], ◌∷◌, map, Option, none, some,
  arith, Bool-cases, inl, inr, length, ltb, ==_iff,
}
use ift_encoder.IntSet.{HbSet, mem, Ascending}
use ift_encoder.Condition.Defs.{
  ActivationCondition, singleton, no_disjunction, is_purely_conjunctive, is_purely_disjunctive,
  is_always_true,
}
use ift_encoder.Condition.Rewrite.{
  Pick, pick_all, superset_groups, non_composite_superset, kept_group,
}

-- A condition is all conjunction, or all disjunction, or always true.
abbrev pub is_simple : (hb : HbSet) → ActivationCondition hb → Bool
is_simple hb c = is_purely_conjunctive hb c || is_purely_disjunctive hb c || is_always_true hb c

module _ (hb : HbSet) where
  open hb use {Set, has, population, values, empty, add, is_empty}
  open hb use {has_values, has_add, has_empty, population_lem, values_ascending}

  -- A list in ascending order whose members are all `x` has no second element.
  one_member :
      (x lo : ℕ) (xs : List ℕ)
      → Ascending lo xs
      → ((y : ℕ) → mem y xs ≡ true → y ≡ x)
      → length xs ≤ 1
  one_member x lo [] a h = omega arith
  one_member x lo (y ∷ []) a h = omega arith
  one_member x lo (y ∷ z ∷ xs) a h = absurd (omega (arith, h y (ground arith), h z (ground arith)))

  pub population-singleton : (x : ℕ) → ltb 1 (population (singleton hb x)) ≡ false
  unfolding singleton
  population-singleton x =
      let s = add empty x in
      let few =
        one_member x 0 (values s) (values_ascending s) (λ y m.
          (==_iff y x).0 (ground (arith, has_values s y, has_add empty x y, has_empty y))) in
      ground (arith, population_lem s)

  no_disjunction-singletons : (xs : List ℕ) → no_disjunction hb (map (singleton hb) xs) ≡ true
  unfolding no_disjunction
  no_disjunction-singletons [] = refl
  no_disjunction-singletons (x ∷ xs) =
      ground (arith, population-singleton x, no_disjunction-singletons xs)

  Short : List Set → Type 0
  Short groups = (no_disjunction hb groups ≡ true) ⊎ (length groups ≤ 1)

  superset_groups-Short : (p : Pick hb) → Short (superset_groups hb p)
  unfolding superset_groups Short kept_group
  superset_groups-Short p = elim (Bool-cases (not (is_empty p.conjunctive))) [
    | inl e ↦ rw e (inl (no_disjunction-singletons (values p.conjunctive)))
    | inr e ↦ rw e (inr (kept_short p.keep))
  ]
    where
      kept_short : (o : Option Set) → length (kept_group hb o) ≤ 1
      kept_short none = omega arith
      kept_short (some g) = omega arith

  Short-is_simple : (c : ActivationCondition hb) → Short c.conditions → is_simple hb c ≡ true
  unfolding Short is_purely_conjunctive is_purely_disjunctive is_always_true
  Short-is_simple c (inl h) = ground arith
  Short-is_simple c (inr h) = ground arith

  -- NonCompositeSuperset is all conjunction, or a single group, or always true.
  pub non_composite_superset-is_simple :
      (c : ActivationCondition hb) → is_simple hb (non_composite_superset hb c) ≡ true
  unfolding non_composite_superset
  non_composite_superset-is_simple c = elim (Bool-cases (is_simple hb c)) [
    | inl e ↦ rw e e
    | inr e ↦ rw e (
        let start : Pick hb = record { conjunctive = empty; highest_s = 0; keep = none } in
        Short-is_simple _ (superset_groups-Short (pick_all hb start c.conditions)))
  ]
