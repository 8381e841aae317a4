-- ===== src/EntryGraph/Groups.antt =====
-- The groups of a normalized condition, and the conditions for its children.
use ift_encoder.Prelude.{
  ℕ, suc, ◌<◌, ◌≤◌, ◌≡◌, refl, sym, ◌∙◌, Bool, true, false, List, [], ◌∷◌, map, Option, some,
  length, leb, All, arith, inl, inr, Bool-cases, ◌==◌, ==_iff, if-true, if-false,
}
use mathlib.Core.Path.{subst}
use ift_encoder.IntSet.Defs.{HbSet, mem}
use ift_encoder.IntSet.Laws.{hits, any_active}
use ift_encoder.Condition.Defs.{
  ActivationCondition, blank, singleton, exclusive_segment, or_segments, composite_condition,
  simplify, insert_by, sort_by, unmarked, drop_redundant, find_redundant, no_marks, smaller,
  set_less, is_unitary, unitary, is_purely_disjunctive,
}
use ift_encoder.Condition.Semantics.{activates, all_hit}
use ift_encoder.Condition.Groups.{hits-singleton}
use ift_encoder.Condition.Shape.{population-singleton}
use ift_encoder.GlyphConditions.Triggers.{any_has}
use ift_encoder.EntryGraph.Coverage.{Containers, Coverage, all_empty}
use ift_encoder.EntryGraph.Nodes.{mode_and, mode_or, normalize}
use ift_encoder.EntryGraph.Build.{exclusive_all, or_all}
use ift_encoder.EntryGraph.Meaning.{deciding}
use ift_encoder.EntryGraph.Children.{join}
use ift_encoder.EntryGraph.Mapped.{level}

-- What holds of all groups of a condition holds of all groups of the simplified one.
module _ (hb : HbSet) (P : hb.Set → Type 0) where
  All-insert_by :
      (before : hb.Set → hb.Set → Bool) (c : hb.Set) (cs : List hb.Set)
      → P c
      → All P cs
      → All P (insert_by hb before c cs)
  unfolding insert_by
  All-insert_by before c [] p all = (p, tt)
  All-insert_by before c (d ∷ ds) p (q, all) = elim (Bool-cases (before d c)) [
    | inl e ↦ rw (e, All) (q, All-insert_by before c ds p all)
    | inr e ↦ rw (e, All) (p, (q, all))
  ]

  All-sort_by :
      (before : hb.Set → hb.Set → Bool) (cs : List hb.Set) → All P cs → All P (sort_by hb before cs)
  unfolding sort_by
  All-sort_by before [] all = tt
  All-sort_by before (c ∷ cs) (p, all) =
      All-insert_by before c (sort_by hb before cs) p (All-sort_by before cs all)

  All-unmarked : (cs : List hb.Set) (rs : List Bool) → All P cs → All P (unmarked hb cs rs)
  unfolding unmarked
  All-unmarked [] rs all = tt
  All-unmarked (c ∷ cs) [] all = tt
  All-unmarked (c ∷ cs) (true ∷ rs) (p, all) = All-unmarked cs rs all
  All-unmarked (c ∷ cs) (false ∷ rs) (p, all) = (p, All-unmarked cs rs all)

  pub All-simplify : (cs : List hb.Set) → All P cs → All P (simplify hb cs)
  unfolding simplify drop_redundant
  All-simplify cs all = elim (Bool-cases (leb (length cs) 1)) [
    | inl e ↦ subst (All P) (sym (if-true _ _ e)) all
    | inr e ↦
        let sorted = sort_by hb (smaller hb) cs in
        subst (All P) (sym (if-false _ _ e)) (
          All-sort_by (set_less hb) (drop_redundant hb sorted) (
            All-unmarked sorted (find_redundant hb sorted (no_marks hb sorted))
              (All-sort_by (smaller hb) cs all)))
  ]

module _ (hb : HbSet) where
  length-insert_by :
      (before : hb.Set → hb.Set → Bool) (c : hb.Set) (cs : List hb.Set)
      → length (insert_by hb before c cs) ≡ suc (length cs)
  unfolding insert_by
  length-insert_by before c [] = refl
  length-insert_by before c (d ∷ ds) = elim (Bool-cases (before d c)) [
    | inl e ↦ rw (e, insert_by) (omega (arith, length-insert_by before c ds))
    | inr e ↦ rw (e, insert_by) refl
  ]

  length-sort_by :
      (before : hb.Set → hb.Set → Bool) (cs : List hb.Set)
      → length (sort_by hb before cs) ≡ length cs
  unfolding sort_by
  length-sort_by before [] = refl
  length-sort_by before (c ∷ cs) =
      omega (arith, length-insert_by before c (sort_by hb before cs), length-sort_by before cs)

  some_kept : (cs : List hb.Set) → 0 < length cs → 0 < length (drop_redundant hb cs)
  unfolding drop_redundant find_redundant unmarked no_marks
  some_kept [] h = absurd (omega arith)
  some_kept (c ∷ cs) h = omega arith

  -- A condition with groups has groups when it is simplified.
  pub some_group-simplify : (cs : List hb.Set) → 0 < length cs → 0 < length (simplify hb cs)
  unfolding simplify
  some_group-simplify cs h = elim (Bool-cases (leb (length cs) 1)) [
    | inl e ↦ subst (λ (ds : List hb.Set). 0 < length ds) (sym (if-true _ _ e)) h
    | inr e ↦
        let sorted = sort_by hb (smaller hb) cs in
        subst (λ (ds : List hb.Set). 0 < length ds) (sym (if-false _ _ e))
          (omega (
            arith,
            length-sort_by (set_less hb) (drop_redundant hb sorted),
            some_kept sorted (omega (arith, length-sort_by (smaller hb) cs)),
          ))
  ]

module _ (hb : HbSet) (box : Containers) (segments : ℕ → Option (Coverage box)) where
  -- The segment is in the map, and has a set that is not empty.
  abbrev pub KnownSegment : ℕ → Type 0
  KnownSegment x = (s : Coverage box) × (segments x ≡ some s) × (all_empty box s ≡ false)

  -- The group has a segment, and its segments are known.
  abbrev pub KnownGroup : hb.Set → Type 0
  KnownGroup c = ((x : ℕ) × (hb.has c x ≡ true)) × ((x : ℕ) → hb.has c x ≡ true → KnownSegment x)

  -- The condition has a group, and its groups have segments, which are known.
  abbrev pub Filled : ActivationCondition hb → Type 0
  Filled c = (0 < length c.conditions) × All KnownGroup c.conditions

  pub Filled-normalize : (c : ActivationCondition hb) → Filled c → Filled (normalize hb box c)
  unfolding normalize composite_condition
  Filled-normalize c (some_group, all) =
      (some_group-simplify hb c.conditions some_group, All-simplify hb KnownGroup c.conditions all)

  pub KnownSegment-group :
      (cs : List hb.Set) → All KnownGroup cs → (x : ℕ) → any_has hb cs x ≡ true → KnownSegment x
  KnownSegment-group [] all x h = cc
  KnownSegment-group (c ∷ cs) (k, all) x h = elim (Bool-cases (hb.has c x)) [
    | inl e ↦ k.1 x e
    | inr e ↦ KnownSegment-group cs all x (rw e at h)
  ]

  singleton_unitary : (x : ℕ) → (hb.population (singleton hb x) == 1) ≡ true
  unfolding singleton
  singleton_unitary x =
      let few = population-singleton hb x in
      let s = hb.add hb.empty x in
      let found : mem x (hb.values s) ≡ true =
        sym (hb.has_values s x) ∙ hb.has_add hb.empty x x ∙ ground arith in
      ground (arith, few, hb.population_lem s, some_length (hb.values s) found)
    where
      some_length : (xs : List ℕ) → mem x xs ≡ true → 0 < length xs
      some_length [] m = cc
      some_length (y ∷ ys) m = omega arith

  pub level-exclusive : (x : ℕ) → level hb (normalize hb box (exclusive_segment hb x 0)) ≡ 1
  unfolding level normalize composite_condition exclusive_segment blank simplify is_unitary unitary
  level-exclusive x = rw (singleton_unitary x) refl

  pub Filled-exclusive :
      (x : ℕ) → KnownSegment x → Filled (normalize hb box (exclusive_segment hb x 0))
  unfolding normalize composite_condition exclusive_segment blank simplify singleton
  Filled-exclusive x k = (
    omega arith,
    (
      (
        (x, ground (arith, hb.has_add hb.empty x x)),
        λ y h.
            let same : (y == x) ≡ true =
              ground (arith, sym (hb.has_add hb.empty x y) ∙ h, hb.has_empty y) in
            subst KnownSegment (sym ((==_iff y x).0 same)) k,
      ),
      tt,
    ),
  )

  pub level-or : (c : hb.Set) → level hb (normalize hb box (or_segments hb c 0 false)) ≤ 2
  unfolding level normalize composite_condition or_segments blank simplify is_unitary unitary
      is_purely_disjunctive
  level-or c = ground arith

  pub Filled-or : (c : hb.Set) → KnownGroup c → Filled (normalize hb box (or_segments hb c 0 false))
  unfolding normalize composite_condition or_segments blank simplify
  Filled-or c k = (omega arith, (k, tt))

  pub activates-exclusive :
      (f : ℕ → Bool) (x : ℕ) → activates hb f (normalize hb box (exclusive_segment hb x 0)) ≡ f x
  unfolding activates all_hit normalize composite_condition exclusive_segment blank simplify
  activates-exclusive f x = ground (arith, hits-singleton hb f x)

  pub activates-or :
      (f : ℕ → Bool) (c : hb.Set)
      → activates hb f (normalize hb box (or_segments hb c 0 false)) ≡ hits hb f c
  unfolding activates all_hit normalize composite_condition or_segments blank simplify
  activates-or f c = ground arith

  -- The values of the child conditions.
  abbrev pub values_at : (ℕ → Bool) → List (ActivationCondition hb) → List Bool
  values_at f cs = map (λ c. activates hb f (normalize hb box c)) cs

  pub join-exclusive_all :
      (f : ℕ → Bool) (xs : List ℕ)
      → join mode_or (values_at f (exclusive_all hb box xs)) ≡ any_active hb f xs
  unfolding join deciding exclusive_all any_active
  join-exclusive_all f [] = refl
  join-exclusive_all f (x ∷ xs) = ground (arith, activates-exclusive f x, join-exclusive_all f xs)

  pub join-or_all :
      (f : ℕ → Bool) (cs : List hb.Set)
      → join mode_and (values_at f (or_all hb box cs)) ≡ all_hit hb f cs
  unfolding join deciding or_all all_hit
  join-or_all f [] = refl
  join-or_all f (c ∷ cs) = ground (arith, activates-or f c, join-or_all f cs)
