-- ===== src/Condition/Disjunction.antt =====
-- The meaning of ActivationCondition::Or.
use ift_encoder.Prelude.{ℕ, ◌≡◌, refl, ap, ◌∙◌, Bool, false, ◌&&◌, ◌||◌, List, [], ◌∷◌, arith}
use ift_encoder.IntSet.{HbSet}
use ift_encoder.IntSet.Laws.{hits, hits-union, hits_of_values, less_antisymm}
use ift_encoder.Condition.Defs.{ActivationCondition, set_less}
use ift_encoder.Condition.Combine.{Split, split, unions, cross, join_split, or_condition}
use ift_encoder.Condition.Semantics.{all_hit, activates, all_hit-append, all_hit-simplify}

module _ (hb : HbSet) (active : ℕ → Bool) where
  open hb use {Set, values}

  -- Neither group precedes the other, so they have the same values.
  hits_incomparable :
      (a b : Set)
      → set_less hb a b ≡ false
      → set_less hb b a ≡ false
      → hits hb active a ≡ hits hb active b
  unfolding set_less
  hits_incomparable a b h k = hits_of_values hb active a b (less_antisymm (values a) (values b) h k)

  all_hit-split_a :
      (as' bs : List Set)
      → all_hit hb active as' ≡ (
          all_hit hb active (split hb as' bs).shared
          && all_hit hb active (split hb as' bs).a_unique)
  unfolding split all_hit
  all_hit-split_a [] bs = refl
  all_hit-split_a (a ∷ as') [] = refl
  all_hit-split_a (a ∷ as') (b ∷ bs) =
      ground
        (arith, all_hit-split_a as' (b ∷ bs), all_hit-split_a (a ∷ as') bs, all_hit-split_a as' bs)

  all_hit-split_b :
      (as' bs : List Set)
      → all_hit hb active bs ≡ (
          all_hit hb active (split hb as' bs).shared
          && all_hit hb active (split hb as' bs).b_unique)
  unfolding split all_hit
  all_hit-split_b [] bs = refl
  all_hit-split_b (a ∷ as') [] = refl
  all_hit-split_b (a ∷ as') (b ∷ bs) = ground (
    arith,
    hits_incomparable a b,
    all_hit-split_b as' (b ∷ bs),
    all_hit-split_b (a ∷ as') bs,
    all_hit-split_b as' bs,
  )

  all_hit-unions :
      (a : Set) (bs : List Set)
      → all_hit hb active (unions hb a bs) ≡ (hits hb active a || all_hit hb active bs)
  unfolding unions all_hit
  all_hit-unions a [] = ground arith
  all_hit-unions a (b ∷ bs) = ground (arith, all_hit-unions a bs, hits-union hb active a b)

  all_hit-cross :
      (as' bs : List Set)
      → all_hit hb active (cross hb as' bs) ≡ (all_hit hb active as' || all_hit hb active bs)
  unfolding cross all_hit
  all_hit-cross [] bs = refl
  all_hit-cross (a ∷ as') bs = ground (
    arith,
    all_hit-append hb active (unions hb a bs) (cross hb as' bs),
    all_hit-unions a bs,
    all_hit-cross as' bs,
  )

  all_hit-join_split :
      (as' bs : List Set) (s : Split hb)
      → s.a_unique ≡ as'
      → s.b_unique ≡ bs
      → all_hit hb active (join_split hb as' bs s)
        ≡ (all_hit hb active s.shared && (all_hit hb active as' || all_hit hb active bs))
  unfolding join_split all_hit
  all_hit-join_split [] bs s p q = ground arith
  all_hit-join_split (a ∷ as') [] s p q = ground arith
  all_hit-join_split (a ∷ as') (b ∷ bs) s p q =
      all_hit-simplify hb active _
      ∙ all_hit-append hb active s.shared _
      ∙ ap (◌&&◌ (all_hit hb active s.shared)) (all_hit-cross s.a_unique s.b_unique ∙ rw (p, q))

  -- Or activates exactly when one of the conditions does.
  pub activates-or_condition :
      (a b : ActivationCondition hb)
      → activates hb active (or_condition hb a b) ≡ (activates hb active a || activates hb active b)
  unfolding activates or_condition
  activates-or_condition a b =
      let s = split hb a.conditions b.conditions in
      ground (
        arith,
        all_hit-join_split s.a_unique s.b_unique s refl refl,
        all_hit-split_a a.conditions b.conditions,
        all_hit-split_b a.conditions b.conditions,
      )
