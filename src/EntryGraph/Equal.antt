-- ===== src/EntryGraph/Equal.antt =====
-- Conditions that are equal: they activate together, and have the same number of groups and segments.
use ift_encoder.Prelude.{
  ℕ, suc, ◌≤◌, ◌<◌, ◌≡◌, refl, sym, ap, ◌∙◌, Bool, true, false, List, [], ◌∷◌, length, arith,
  Bool-cases, inl, inr, ◌==◌, ==_iff, &&-true,
}
use ift_encoder.IntSet.Defs.{HbSet, mem, Ascending}
use ift_encoder.IntSet.Laws.{hits_cong}
use ift_encoder.Condition.Defs.{ActivationCondition, is_unitary, unitary, is_purely_disjunctive}
use ift_encoder.Condition.Semantics.{activates, all_hit}
use ift_encoder.Condition.Ordering.{same_list, differ}
use ift_encoder.EntryGraph.Coverage.{Containers}
use ift_encoder.EntryGraph.Nodes.{same_groups, condition_equal}
use ift_encoder.EntryGraph.Mapped.{level}

mem-above : (lo x : ℕ) (xs : List ℕ) → Ascending lo xs → mem x xs ≡ true → lo ≤ x
mem-above lo x [] a m = cc
mem-above lo x (y ∷ ys) (le, a) m = elim (Bool-cases (x == y)) [
  | inl e ↦ omega (arith, (==_iff x y).0 e)
  | inr e ↦ omega (arith, mem-above (suc y) x ys a (rw e at m))
]

below_start : (lo x : ℕ) (xs : List ℕ) → Ascending lo xs → x < lo → mem x xs ≡ false
below_start lo x xs a l = elim (Bool-cases (mem x xs)) [
  | inl e ↦ absurd (omega (arith, mem-above lo x xs a e))
  | inr e ↦ e
]

-- Lists in ascending order with the same members are as long.
same_length :
    (lo lo' : ℕ) (xs ys : List ℕ)
    → Ascending lo xs
    → Ascending lo' ys
    → ((z : ℕ) → mem z xs ≡ mem z ys)
    → length xs ≡ length ys
same_length lo lo' [] [] a b h = refl
same_length lo lo' [] (y ∷ ys) a b h = absurd (ground (arith, h y))
same_length lo lo' (x ∷ xs) [] a b h = absurd (ground (arith, h x))
same_length lo lo' (x ∷ xs) (y ∷ ys) (la, a) (lb, b) h =
    let up : y ≤ x = mem-above y x (y ∷ ys) (omega arith, b) (sym (h x) ∙ ground arith) in
    let down : x ≤ y = mem-above x y (x ∷ xs) (omega arith, a) (h y ∙ ground arith) in
    let same : x ≡ y = omega (arith, up, down) in
    ap suc (
      same_length (suc x) (suc y) xs ys a b (λ z. elim (Bool-cases (z == x)) [
        | inl e ↦
            let q = (==_iff z x).0 e in
            below_start (suc x) z xs a (omega (arith, q))
            ∙ sym (below_start (suc y) z ys b (omega (arith, q, same)))
        | inr e ↦ ground (arith, h z, same)
      ]))

module _ (hb : HbSet) (box : Containers) where
  open hb use {Set, population, is_equal, is_equal_iff, population_lem, values, values_ascending}
  open hb use {has_values}

  population_cong : (c d : Set) → is_equal c d ≡ true → population c ≡ population d
  population_cong c d e =
      population_lem c
      ∙ same_length 0 0 (values c) (values d) (values_ascending c) (values_ascending d)
          (λ z. sym (has_values c z) ∙ (is_equal_iff c d).0 e z ∙ has_values d z)
      ∙ sym (population_lem d)

  same_groups-length : (cs ds : List Set) → same_groups hb box cs ds ≡ true → length cs ≡ length ds
  unfolding same_groups
  same_groups-length [] [] h = refl
  same_groups-length [] (d ∷ ds) h = cc
  same_groups-length (c ∷ cs) [] h = cc
  same_groups-length (c ∷ cs) (d ∷ ds) h =
      ap suc (same_groups-length cs ds (&&-true (is_equal c d) (same_groups hb box cs ds) h).1)

  same_groups-all_hit :
      (f : ℕ → Bool) (cs ds : List Set)
      → same_groups hb box cs ds ≡ true
      → all_hit hb f cs ≡ all_hit hb f ds
  unfolding same_groups all_hit
  same_groups-all_hit f [] [] h = refl
  same_groups-all_hit f [] (d ∷ ds) h = cc
  same_groups-all_hit f (c ∷ cs) [] h = cc
  same_groups-all_hit f (c ∷ cs) (d ∷ ds) h =
      let (e, rest) = &&-true (is_equal c d) (same_groups hb box cs ds) h in
      ground (arith, hits_cong hb f c d ((is_equal_iff c d).0 e), same_groups-all_hit f cs ds rest)

  same_groups-unitary :
      (cs ds : List Set) → same_groups hb box cs ds ≡ true → unitary hb cs ≡ unitary hb ds
  unfolding same_groups unitary
  same_groups-unitary [] [] h = refl
  same_groups-unitary [] (d ∷ ds) h = cc
  same_groups-unitary (c ∷ cs) [] h = cc
  same_groups-unitary (c ∷ []) (d ∷ []) h =
      ap (λ n. n == 1) (population_cong c d (&&-true (is_equal c d) true h).0)
  same_groups-unitary (c ∷ []) (d ∷ e ∷ ds) h = absurd (ground (arith, h))
  same_groups-unitary (c ∷ e ∷ cs) (d ∷ []) h = absurd (ground (arith, h))
  same_groups-unitary (c ∷ x ∷ cs) (d ∷ y ∷ ds) h = refl

  equal_groups :
      (a b : ActivationCondition hb)
      → condition_equal hb box a b ≡ true
      → same_groups hb box a.conditions b.conditions ≡ true
  unfolding condition_equal
  equal_groups a b h = elim (Bool-cases (same_groups hb box a.conditions b.conditions)) [
    | inl e ↦ e
    | inr e ↦ absurd (ground (arith, (rw e at h)))
  ]

  pub condition_equal-activates :
      (f : ℕ → Bool) (a b : ActivationCondition hb)
      → condition_equal hb box a b ≡ true
      → activates hb f a ≡ activates hb f b
  unfolding activates
  condition_equal-activates f a b h =
      same_groups-all_hit f a.conditions b.conditions (equal_groups a b h)

  pub condition_equal-level :
      (a b : ActivationCondition hb) → condition_equal hb box a b ≡ true → level hb a ≡ level hb b
  unfolding level is_unitary is_purely_disjunctive
  condition_equal-level a b h =
      rw
        (
          same_groups-unitary a.conditions b.conditions (equal_groups a b h),
          same_groups-length a.conditions b.conditions (equal_groups a b h),
        )
        refl

  same_groups_symm :
      (cs ds : List Set) → same_groups hb box cs ds ≡ true → same_groups hb box ds cs ≡ true
  unfolding same_groups
  same_groups_symm [] [] h = refl
  same_groups_symm [] (d ∷ ds) h = cc
  same_groups_symm (c ∷ cs) [] h = cc
  same_groups_symm (c ∷ cs) (d ∷ ds) h =
      let (e, rest) = &&-true (is_equal c d) (same_groups hb box cs ds) h in
      let back : is_equal d c ≡ true = (is_equal_iff d c).1 (λ x. sym ((is_equal_iff c d).0 e x)) in
      ground (arith, back, same_groups_symm cs ds rest)

  same_list_symm : (xs ys : List ℕ) → same_list xs ys ≡ true → same_list ys xs ≡ true
  unfolding same_list
  same_list_symm [] [] h = refl
  same_list_symm [] (y ∷ ys) h = cc
  same_list_symm (x ∷ xs) [] h = cc
  same_list_symm (x ∷ xs) (y ∷ ys) h = ground (arith, same_list_symm xs ys)

  differ_symm : (a b : Bool) → differ a b ≡ differ b a
  differ_symm true true = refl
  differ_symm true false = refl
  differ_symm false true = refl
  differ_symm false false = refl

  pub condition_equal_symm :
      (a b : ActivationCondition hb)
      → condition_equal hb box a b ≡ true
      → condition_equal hb box b a ≡ true
  unfolding condition_equal
  condition_equal_symm a b h =
      let groups = same_groups_symm a.conditions b.conditions in
      let vectors = same_list_symm (a.activated ∷ a.prefetches) (b.activated ∷ b.prefetches) in
      ground (
        arith,
        h,
        groups,
        vectors,
        differ_symm a.is_fallback b.is_fallback,
        differ_symm a.is_exclusive b.is_exclusive,
      )
