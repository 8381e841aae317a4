-- ===== src/Condition/Semantics.antt =====
-- When a condition activates, and the meaning of the operations.
use ift_encoder.Prelude.{
  ℕ, ◌≡◌, refl, ◌∙◌, Bool, true, false, ◌&&◌, List, [], ◌∷◌, ◌++◌, leb, length, arith, Bool-cases,
  inl, inr,
}
use ift_encoder.IntSet.{HbSet}
use ift_encoder.IntSet.Laws.{hits, hits_mono}
use ift_encoder.Condition.Defs.{
  ActivationCondition, insert_by, sort_by, mark, find_redundant, unmarked, no_marks, drop_redundant,
  simplify, and_condition, smaller, set_less, composite_condition,
}

module _ (hb : HbSet) (active : ℕ → Bool) where
  open hb use {Set, is_subset}

  -- Every group has an active segment.
  unfoldable pub all_hit : List Set → Bool
  all_hit [] = true
  all_hit (c ∷ cs) = hits hb active c && all_hit cs

  -- Whether the condition activates for the segments that are active.
  unfoldable pub activates : ActivationCondition hb → Bool
  unfolding all_hit
  activates c = all_hit c.conditions

  pub all_hit-append : (cs ds : List Set) → all_hit (cs ++ ds) ≡ (all_hit cs && all_hit ds)
  unfolding all_hit
  all_hit-append [] ds = refl
  all_hit-append (c ∷ cs) ds = ground (arith, all_hit-append cs ds)

  all_hit-insert_by :
      (before : Set → Set → Bool) (c : Set) (cs : List Set)
      → all_hit (insert_by hb before c cs) ≡ (hits hb active c && all_hit cs)
  unfolding all_hit insert_by
  all_hit-insert_by before c [] = refl
  all_hit-insert_by before c (d ∷ ds) = ground (arith, all_hit-insert_by before c ds)

  all_hit-sort_by :
      (before : Set → Set → Bool) (cs : List Set) → all_hit (sort_by hb before cs) ≡ all_hit cs
  unfolding all_hit sort_by
  all_hit-sort_by before [] = refl
  all_hit-sort_by before (c ∷ cs) =
      ground (arith, all_hit-insert_by before c (sort_by hb before cs), all_hit-sort_by before cs)

  -- Where `given` holds, every marked group is hit.
  abbrev Implied : Bool → List Set → List Bool → Type 0
  Implied given (c ∷ cs) (r ∷ rs) =
      (r ≡ true → given ≡ true → hits hb active c ≡ true) × Implied given cs rs
  Implied given [] [] = Unit
  Implied given _ _ = ⊥

  mark-Implied :
      (given : Bool) (c : Set) (ds : List Set) (rs : List Bool)
      → Implied given ds rs
      → Implied (given && hits hb active c) ds (mark hb c ds rs)
  unfolding mark
  mark-Implied given c [] [] h = tt
  mark-Implied given c [] (r ∷ rs) h = absurd h
  mark-Implied given c (d ∷ ds) [] h = absurd h
  mark-Implied given c (d ∷ ds) (r ∷ rs) h = (
    (λ m g. elim (Bool-cases r) [
      | inl e ↦ h.0 e (ground arith)
      | inr e ↦ hits_mono hb active c d (rw e at m) (ground arith)
    ]),
    mark-Implied given c ds rs h.1,
  )

  unmarked-Implied :
      (given : Bool) (cs : List Set) (rs : List Bool)
      → Implied given cs rs
      → (given && all_hit (unmarked hb cs (find_redundant hb cs rs))) ≡ (given && all_hit cs)
  unfolding unmarked find_redundant all_hit
  unmarked-Implied given [] [] h = refl
  unmarked-Implied given [] (r ∷ rs) h = absurd h
  unmarked-Implied given (c ∷ cs) [] h = absurd h
  unmarked-Implied given (c ∷ cs) (true ∷ rs) h =
      ground (arith, unmarked-Implied given cs rs h.1, h.0 refl)
  unmarked-Implied given (c ∷ cs) (false ∷ rs) h = ground (
    arith,
    unmarked-Implied (given && hits hb active c) cs (mark hb c cs rs)
        (mark-Implied given c cs rs h.1),
  )

  no_marks-Implied : (cs : List Set) → Implied true cs (no_marks hb cs)
  unfolding no_marks
  no_marks-Implied [] = tt
  no_marks-Implied (c ∷ cs) = ((λ e. cc), no_marks-Implied cs)

  pub all_hit-drop_redundant : (cs : List Set) → all_hit (drop_redundant hb cs) ≡ all_hit cs
  unfolding drop_redundant
  all_hit-drop_redundant cs = unmarked-Implied true cs (no_marks hb cs) (no_marks-Implied cs)

  -- Simplify keeps the meaning of the groups.
  pub all_hit-simplify : (cs : List Set) → all_hit (simplify hb cs) ≡ all_hit cs
  unfolding simplify
  all_hit-simplify cs = elim (Bool-cases (leb (length cs) 1)) [
    | inl e ↦ rw e
    | inr e ↦ rw e (
        all_hit-sort_by (set_less hb) _
        ∙ all_hit-drop_redundant (sort_by hb (smaller hb) cs)
        ∙ all_hit-sort_by (smaller hb) cs)
  ]

  -- And activates exactly when both conditions do.
  pub activates-and_condition :
      (a b : ActivationCondition hb)
      → activates (and_condition hb a b) ≡ (activates a && activates b)
  unfolding activates and_condition
  activates-and_condition a b =
      all_hit-simplify (a.conditions ++ b.conditions) ∙ all_hit-append a.conditions b.conditions

  -- A composite condition activates exactly when each of its groups has an active segment.
  pub activates-composite_condition :
      (groups : List Set) (patch : ℕ) (fallback : Bool)
      → activates (composite_condition hb groups patch fallback) ≡ all_hit groups
  unfolding activates composite_condition
  activates-composite_condition groups patch fallback = all_hit-simplify groups
