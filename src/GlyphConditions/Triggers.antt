-- ===== src/GlyphConditions/Triggers.antt =====
-- The segments of conditions, and of what is left of a condition without some segments.
use ift_encoder.Prelude.{
  ℕ, ◌≡◌, refl, ap, sym, ◌∙◌, Bool, true, false, not, ◌&&◌, ◌||◌, List, [], ◌∷◌, none, some, ◌==◌,
  leb, length, Bool-cases, inl, inr, &&-true, ==_iff, arith,
}
use ift_encoder.IntSet.Defs.{HbSet, first, mem}
use ift_encoder.Condition.Defs.{
  ActivationCondition, make_true, exclusive_segment, or_segments, composite_condition, singleton,
  simplify, insert_by, sort_by, unmarked, drop_redundant, find_redundant, no_marks, smaller,
  set_less,
}
use ift_encoder.GlyphConditions.Defs.{
  union_triggers, triggering_segments, subtract_groups, min_of, condition_of_groups,
  remove_segments,
}

either_without : (a b r : Bool) → ((a && not b) || r) ≡ true → (r ≡ true → b ≡ false) → b ≡ false
either_without a false r h k = refl
either_without true true r h k = k h
either_without false true r h k = k h

module _ (hb : HbSet) where
  open hb use {
    Set, empty, has, add, union, subtract, values, population, has_values, has_empty, has_add,
    has_union, has_subtract, population_lem, get_min_lem, is_empty,
  }

  abbrev pub any_has : List Set → ℕ → Bool
  any_has [] x = false
  any_has (c ∷ cs) x = has c x || any_has cs x

  has-union_triggers :
      (cs : List Set) (out : Set) (x : ℕ)
      → has (union_triggers hb cs out) x ≡ (has out x || any_has cs x)
  unfolding union_triggers
  has-union_triggers [] out x = ground arith
  has-union_triggers (c ∷ cs) out x =
      has-union_triggers cs (union out c) x ∙ rw (has_union out c x) (ground arith)

  pub has-triggering_segments :
      (c : ActivationCondition hb) (x : ℕ)
      → has (triggering_segments hb c) x ≡ any_has c.conditions x
  unfolding triggering_segments
  has-triggering_segments c x = has-union_triggers c.conditions empty x ∙ rw (has_empty x) refl

  any_has-insert_by :
      (before : Set → Set → Bool) (c : Set) (cs : List Set) (x : ℕ)
      → any_has (insert_by hb before c cs) x ≡ (has c x || any_has cs x)
  unfolding insert_by
  any_has-insert_by before c [] x = refl
  any_has-insert_by before c (d ∷ ds) x = elim (Bool-cases (before d c)) [
    | inl e ↦ rw (e, insert_by, any_has-insert_by before c ds x) (ground arith)
    | inr e ↦ rw (e, insert_by) refl
  ]

  any_has-sort_by :
      (before : Set → Set → Bool) (cs : List Set) (x : ℕ)
      → any_has (sort_by hb before cs) x ≡ any_has cs x
  unfolding sort_by
  any_has-sort_by before [] x = refl
  any_has-sort_by before (c ∷ cs) x =
      any_has-insert_by before c (sort_by hb before cs) x
      ∙ ap (λ b. has c x || b) (any_has-sort_by before cs x)

  any_has-unmarked :
      (cs : List Set) (rs : List Bool) (x : ℕ)
      → any_has (unmarked hb cs rs) x ≡ true
      → any_has cs x ≡ true
  unfolding unmarked
  any_has-unmarked [] rs x h = h
  any_has-unmarked (c ∷ cs) [] x h = absurd (ground (arith, h))
  any_has-unmarked (c ∷ cs) (true ∷ rs) x h = ground (arith, any_has-unmarked cs rs x h)
  any_has-unmarked (c ∷ cs) (false ∷ rs) x h = elim (Bool-cases (has c x)) [
    | inl e ↦ rw e refl
    | inr e ↦ rw e (any_has-unmarked cs rs x (rw e at h))
  ]

  pub any_has-simplify :
      (cs : List Set) (x : ℕ) → any_has (simplify hb cs) x ≡ true → any_has cs x ≡ true
  unfolding simplify drop_redundant
  any_has-simplify cs x h = elim (Bool-cases (leb (length cs) 1)) [
    | inl e ↦ rw (e, simplify) at h
    | inr e ↦
        let sorted = sort_by hb (smaller hb) cs in
        let kept = drop_redundant hb sorted in
        let below : any_has kept x ≡ true =
          sym (any_has-sort_by (set_less hb) kept x) ∙ (rw (e, simplify) at h) in
        sym (any_has-sort_by (smaller hb) cs x)
        ∙ any_has-unmarked sorted (find_redundant hb sorted (no_marks hb sorted)) x below
  ]

  pub any_has-subtract_groups :
      (cs : List Set) (segments : Set) (x : ℕ)
      → any_has (subtract_groups hb cs segments) x ≡ true
      → any_has cs x ≡ true
  unfolding subtract_groups
  any_has-subtract_groups [] segments x h = h
  any_has-subtract_groups (c ∷ cs) segments x h =
      elim (Bool-cases (is_empty (subtract c segments))) [
        | inl e ↦
            let rest = any_has-subtract_groups cs segments x (rw (e, subtract_groups) at h) in
            ground (arith, rest)
        | inr e ↦ elim (Bool-cases (has c x)) [
          | inl f ↦ rw f refl
          | inr f ↦ rw f (
              any_has-subtract_groups cs segments x
                (rw (has_subtract c segments x, f) at (rw (e, subtract_groups) at h)))
        ]
      ]

  abbrev pub first_or_zero : List ℕ → ℕ
  first_or_zero xs = elim (first xs) [ none ↦ 0 | some x ↦ x ]

  pub mem-first_or_zero : (xs : List ℕ) → length xs ≡ 1 → mem (first_or_zero xs) xs ≡ true
  mem-first_or_zero [] h = absurd (ground (arith, h))
  mem-first_or_zero (y ∷ ys) h = ground arith

  pub has-min_of : (c : Set) → population c ≡ 1 → has c (min_of hb c) ≡ true
  unfolding min_of
  has-min_of c h =
      has_values c (min_of hb c)
      ∙ ap (λ o. mem (elim o [ none ↦ 0 | some x ↦ x ]) (values c)) (get_min_lem c)
      ∙ mem-first_or_zero (values c) (sym (population_lem c) ∙ h)

  -- The condition for the groups that are left has no other segments than these groups.
  any_has-condition_of_groups :
      (was_disjunctive : Bool) (groups : List Set) (x : ℕ)
      → any_has (condition_of_groups hb was_disjunctive groups).conditions x ≡ true
      → any_has groups x ≡ true
  unfolding condition_of_groups make_true exclusive_segment or_segments composite_condition
      singleton
  any_has-condition_of_groups was [] x h = h
  any_has-condition_of_groups true (g ∷ gs) x h = ground (arith, h)
  any_has-condition_of_groups false (g ∷ gs) x h =
      elim (Bool-cases (length gs == 0 && population g == 1)) [
        | inl e ↦
            let one : population g ≡ 1 =
              (==_iff (population g) 1).0 (&&-true (length gs == 0) (population g == 1) e).1 in
            let own = has-min_of g one in
            let single : (has (singleton hb (min_of hb g)) x || false) ≡ true =
              rw (e, condition_of_groups) at h in
            let same : (x == min_of hb g) ≡ true = ground (
              arith,
              sym (ap (λ b. b || false) (has_add empty (min_of hb g) x)) ∙ single,
              has_empty x,
            ) in
            ground (arith, sym (ap (has g) ((==_iff x (min_of hb g)).0 same)), own)
        | inr e ↦ any_has-simplify (g ∷ gs) x (rw (e, condition_of_groups) at h)
      ]

  -- The new condition has no other segments than the old one.
  pub remove_segments-subset :
      (c : ActivationCondition hb) (segments : Set) (x : ℕ)
      → has (triggering_segments hb (remove_segments hb c segments).0) x ≡ true
      → has (triggering_segments hb c) x ≡ true
  unfolding remove_segments
  remove_segments-subset c segments x h =
      let (c', removed) = remove_segments hb c segments in
      has-triggering_segments c x
      ∙ any_has-subtract_groups c.conditions segments x (
          any_has-condition_of_groups _ (subtract_groups hb c.conditions segments) x
            (sym (has-triggering_segments c' x) ∙ h))

  pub has-removed :
      (c : ActivationCondition hb) (segments : Set) (x : ℕ)
      → has (remove_segments hb c segments).1 x ≡ (
          has (triggering_segments hb c) x
          && not (has (triggering_segments hb (remove_segments hb c segments).0) x))
  unfolding remove_segments
  has-removed c segments x = has_subtract (triggering_segments hb c) _ x

  any_has-without :
      (cs : List Set) (segments : Set) (x : ℕ)
      → any_has (subtract_groups hb cs segments) x ≡ true
      → has segments x ≡ false
  unfolding subtract_groups
  any_has-without [] segments x h = absurd (ground (arith, h))
  any_has-without (c ∷ cs) segments x h = elim (Bool-cases (is_empty (subtract c segments))) [
    | inl e ↦ any_has-without cs segments x (rw (e, subtract_groups) at h)
    | inr e ↦
        either_without (has c x) (has segments x) (any_has (subtract_groups hb cs segments) x)
          (rw (has_subtract c segments x) at (rw (e, subtract_groups) at h))
          (any_has-without cs segments x)
  ]

  -- The new condition has none of the segments.
  pub remove_segments-without :
      (c : ActivationCondition hb) (segments : Set) (x : ℕ)
      → has (triggering_segments hb (remove_segments hb c segments).0) x ≡ true
      → has segments x ≡ false
  unfolding remove_segments
  remove_segments-without c segments x h =
      let (c', removed) = remove_segments hb c segments in
      any_has-without c.conditions segments x (
        any_has-condition_of_groups _ (subtract_groups hb c.conditions segments) x
          (sym (has-triggering_segments c' x) ∙ h))
