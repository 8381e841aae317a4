-- ===== src/Condition/Groups.antt =====
-- Facts about single groups of a condition: singletons, small groups, and groups whose segments are
-- redirected to another one.
use ift_encoder.Prelude.{
  ℕ, ◌≤◌, ◌≡◌, sym, ap, ◌∙◌, Bool, true, false, List, [], ◌∷◌, arith, Bool-cases, inl, inr, ◌==◌,
  ==_iff, if◌then◌else◌, length, ltb,
}
use ift_encoder.IntSet.{HbSet, mem, intersects}
use ift_encoder.IntSet.Laws.{hits, hits-found, hits-finds, intersects_iff, any_active, bool_eq}
use ift_encoder.Condition.Defs.{singleton}

module _ (hb : HbSet) where
  open hb use {Set, empty, values, has, add, subtract, has_add, has_empty, has_subtract, population}
  open hb use {population_lem, has_values}

  -- Only what holds of a set's members counts.
  pub hits_agree :
      (f g : ℕ → Bool) (s : Set)
      → ((x : ℕ) → has s x ≡ true → f x ≡ g x)
      → hits hb f s ≡ hits hb g s
  hits_agree f g s same =
      bool_eq hb f (hits hb f s) (hits hb g s)
        (λ h. let (x, m, k) = hits-found hb f s h in hits-finds hb g s x m (sym (same x m) ∙ k))
        (λ h. let (x, m, k) = hits-found hb g s h in hits-finds hb f s x m (same x m ∙ k))

  pub hits-singleton : (active : ℕ → Bool) (x : ℕ) → hits hb active (singleton hb x) ≡ active x
  unfolding singleton
  hits-singleton active x =
      bool_eq hb active (hits hb active (add empty x)) (active x)
        (λ h.
          let (y, m, k) = hits-found hb active (add empty x) h in
          let same : (y == x) ≡ true = ground (arith, has_add empty x y, has_empty y) in
          ap active (sym ((==_iff y x).0 same)) ∙ k)
        (λ h. hits-finds hb active (add empty x) x (ground (arith, has_add empty x x)) h)

  any_active_single :
      (active : ℕ → Bool) (xs : List ℕ) (y : ℕ)
      → length xs ≤ 1
      → mem y xs ≡ true
      → any_active hb active xs ≡ active y
  unfolding any_active
  any_active_single active [] y h m = cc
  any_active_single active (x ∷ []) y h m =
      let same : (y == x) ≡ true = ground arith in ground (arith, ap active ((==_iff y x).0 same))
  any_active_single active (x ∷ z ∷ xs) y h m = absurd (omega arith)

  -- A group of one segment is hit when that segment is active.
  pub hits_single :
      (active : ℕ → Bool) (s : Set) (y : ℕ)
      → ltb 1 (population s) ≡ false
      → has s y ≡ true
      → hits hb active s ≡ active y
  unfolding hits
  hits_single active s y h m =
      any_active_single active (values s) y (ground (arith, population_lem s))
        (sym (has_values s y) ∙ m)

  -- The segments that stand for others: each of `segments` is read as `base`.
  module _ (active : ℕ → Bool) (base : ℕ) (segments : Set) where
    unfoldable pub redirected : ℕ → Bool
    redirected x = if has segments x then active base else active x

    pub hits-redirected_miss :
        (c : Set) → intersects hb c segments ≡ false → hits hb active c ≡ hits hb redirected c
    unfolding redirected
    hits-redirected_miss c h = hits_agree active redirected c λ x m.
        elim (Bool-cases (has segments x)) [
          | inl e ↦ cc (h, (intersects_iff hb c segments).1 (x, m, e))
          | inr e ↦ rw e
        ]

    pub hits-redirected_single :
        (c : Set)
        → ltb 1 (population c) ≡ false
        → intersects hb c segments ≡ true
        → hits hb redirected c ≡ active base
    unfolding redirected
    hits-redirected_single c h i =
        let (y, m, k) = (intersects_iff hb c segments).0 i in hits_single redirected c y h m ∙ rw k

    pub hits-replaced :
        (c : Set)
        → intersects hb c segments ≡ true
        → hits hb active (add (subtract c segments) base) ≡ hits hb redirected c
    unfolding redirected
    hits-replaced c i =
        bool_eq hb active (hits hb active (add (subtract c segments) base)) (hits hb redirected c)
          (λ h.
            let (x, m, k) = hits-found hb active (add (subtract c segments) base) h in
            elim (Bool-cases (x == base)) [
              | inl e ↦
                  let (y, n, l) = (intersects_iff hb c segments).0 i in
                  hits-finds hb redirected c y n (rw l (ap active (sym ((==_iff x base).0 e)) ∙ k))
              | inr e ↦
                  hits-finds hb redirected c x
                    (ground
                      (arith, has_add (subtract c segments) base x, has_subtract c segments x))
                    (ground
                      (arith, has_add (subtract c segments) base x, has_subtract c segments x))
            ])
          (λ h.
            let (x, m, k) = hits-found hb redirected c h in
            elim (Bool-cases (has segments x)) [
              | inl e ↦
                  hits-finds hb active (add (subtract c segments) base) base
                    (ground (arith, has_add (subtract c segments) base base)) (ground arith)
              | inr e ↦
                  hits-finds hb active (add (subtract c segments) base) x
                    (ground
                      (arith, has_add (subtract c segments) base x, has_subtract c segments x))
                    (ground arith)
            ])
