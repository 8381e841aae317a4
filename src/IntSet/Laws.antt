-- ===== src/IntSet/Laws.antt =====
-- Facts about the members of IntSet.
use ift_encoder.Prelude.{
  ℕ, ◌≡◌, ◌↔◌, refl, sym, ap, ◌∙◌, Bool, true, false, ◌||◌, List, [], ◌∷◌, ltb, ◌==◌, arith, ==_iff,
  Bool-cases, inl, inr,
}
use ift_encoder.IntSet.Defs.{HbSet, mem, less, intersects, find_in}

-- Two iterations of which neither comes first are the same.
pub less_antisymm : (xs ys : List ℕ) → less xs ys ≡ false → less ys xs ≡ false → xs ≡ ys
unfolding less
less_antisymm [] [] h k = refl
less_antisymm [] (y ∷ ys) h k = cc
less_antisymm (x ∷ xs) [] h k = cc
less_antisymm (x ∷ xs) (y ∷ ys) h k = ground (arith, less_antisymm xs ys)

module _ (hb : HbSet) where
  open hb use {Set, values, has, has_values, population}

  abbrev pub Meets : Set → Set → Type 0
  Meets a b = (x : ℕ) × (has a x ≡ true) × (has b x ≡ true)

  find_in-found :
      (xs : List ℕ) (b : Set)
      → find_in hb xs b ≡ true
      → (x : ℕ) × (mem x xs ≡ true) × (has b x ≡ true)
  unfolding find_in
  find_in-found [] b h = cc
  find_in-found (x ∷ xs) b h = elim (Bool-cases (has b x)) [
    | inl e ↦ (x, ground arith, e)
    | inr e ↦ let (y, m, k) = find_in-found xs b (rw e at h) in (y, ground arith, k)
  ]

  find_in-finds :
      (xs : List ℕ) (b : Set) (x : ℕ) → mem x xs ≡ true → has b x ≡ true → find_in hb xs b ≡ true
  unfolding find_in
  find_in-finds [] b x m h = cc
  find_in-finds (y ∷ xs) b x m h = elim (Bool-cases (x == y)) [
    | inl e ↦ ground (arith, h, ap (λ (t : ℕ). has b t) ((==_iff x y).0 e))
    | inr e ↦ ground (arith, find_in-finds xs b x (rw e at m) h)
  ]

  -- IntSet::intersects says exactly whether the two sets share a value.
  pub intersects_iff : (a b : Set) → (intersects hb a b ≡ true) ↔ Meets a b
  unfolding intersects
  intersects_iff a b = elim (Bool-cases (ltb (population b) (population a))) [
    | inl e ↦ rw e (
      (λ h. let (x, m, k) = find_in-found (values b) a h in (x, k, has_values b x ∙ m)),
      λ (x, k, l). find_in-finds (values b) a x (sym (has_values b x) ∙ l) k,
    )
    | inr e ↦ rw e (
      (λ h. let (x, m, k) = find_in-found (values a) b h in (x, has_values a x ∙ m, k)),
      λ (x, k, l). find_in-finds (values a) b x (sym (has_values a x) ∙ k) l,
    )
  ]

-- Whether some value of a set is active. A condition asks this of each of its groups.
module _ (hb : HbSet) (active : ℕ → Bool) where
  open hb use {Set, values, has, has_values, union, has_union, is_subset, is_subset_iff}

  unfoldable pub any_active : List ℕ → Bool
  any_active [] = false
  any_active (x ∷ xs) = active x || any_active xs

  unfoldable pub hits : Set → Bool
  hits s = any_active (values s)

  any_active-found :
      (xs : List ℕ) → any_active xs ≡ true → (x : ℕ) × (mem x xs ≡ true) × (active x ≡ true)
  unfolding any_active
  any_active-found [] h = cc
  any_active-found (x ∷ xs) h = elim (Bool-cases (active x)) [
    | inl e ↦ (x, ground arith, e)
    | inr e ↦ let (y, m, k) = any_active-found xs (rw e at h) in (y, ground arith, k)
  ]

  any_active-finds :
      (xs : List ℕ) (x : ℕ) → mem x xs ≡ true → active x ≡ true → any_active xs ≡ true
  unfolding any_active
  any_active-finds [] x m h = cc
  any_active-finds (y ∷ xs) x m h = elim (Bool-cases (x == y)) [
    | inl e ↦ ground (arith, h, ap (λ (t : ℕ). active t) ((==_iff x y).0 e))
    | inr e ↦ ground (arith, any_active-finds xs x (rw e at m) h)
  ]

  pub hits-found : (s : Set) → hits s ≡ true → (x : ℕ) × (has s x ≡ true) × (active x ≡ true)
  unfolding hits
  hits-found s h = let (x, m, k) = any_active-found (values s) h in (x, has_values s x ∙ m, k)

  pub hits-finds : (s : Set) (x : ℕ) → has s x ≡ true → active x ≡ true → hits s ≡ true
  unfolding hits
  hits-finds s x m k = any_active-finds (values s) x (sym (has_values s x) ∙ m) k

  pub hits_mono : (s t : Set) → is_subset s t ≡ true → hits s ≡ true → hits t ≡ true
  hits_mono s t sub h =
      let (x, m, k) = hits-found s h in hits-finds t x ((is_subset_iff s t).0 sub x m) k

  pub bool_eq : (a b : Bool) → (a ≡ true → b ≡ true) → (b ≡ true → a ≡ true) → a ≡ b
  bool_eq true true f g = refl
  bool_eq true false f g = sym (f refl)
  bool_eq false true f g = g refl
  bool_eq false false f g = refl

  -- Sets with the same members are hit together.
  pub hits_cong : (s t : Set) → ((x : ℕ) → has s x ≡ has t x) → hits s ≡ hits t
  hits_cong s t same =
      bool_eq (hits s) (hits t)
        (λ h. let (x, m, k) = hits-found s h in hits-finds t x (sym (same x) ∙ m) k)
        (λ h. let (x, m, k) = hits-found t h in hits-finds s x (same x ∙ m) k)

  pub hits-union : (s t : Set) → hits (union s t) ≡ (hits s || hits t)
  hits-union s t =
      bool_eq (hits (union s t)) (hits s || hits t)
        (λ h.
          let (x, m, k) = hits-found (union s t) h in
          elim (Bool-cases (has s x)) [
            | inl e ↦ ground (arith, hits-finds s x e k)
            | inr e ↦ ground (arith, hits-finds t x (ground (arith, has_union s t x)) k)
          ])
        (λ h. elim (Bool-cases (hits s)) [
          | inl e ↦
              let (x, m, k) = hits-found s e in
              hits-finds (union s t) x (ground (arith, has_union s t x)) k
          | inr e ↦
              let (x, m, k) = hits-found t (rw e at h) in
              hits-finds (union s t) x (ground (arith, has_union s t x)) k
        ])

  -- Sets that iterate alike are hit together.
  pub hits_of_values : (s t : Set) → values s ≡ values t → hits s ≡ hits t
  unfolding hits
  hits_of_values s t e = ap any_active e
