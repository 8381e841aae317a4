-- ===== src/GlyphPartition/Sets.antt =====
-- Union of a whole set of glyphs.
use ift_encoder.Prelude.{
  ℕ, ◌<◌, ◌≡◌, refl, ap, ◌∙◌, List, [], ◌∷◌, some, ◌⊎◌, inl, inr, ◌↔◌, arith, All, lt→leb-false,
  if-false,
}
use ift_encoder.IntSet.Defs.{HbSet}
use ift_encoder.GlyphPartition.Defs.{
  ok, GlyphPartition, size, bind, union_pair, union_rest, union_values, union_set,
}
use ift_encoder.GlyphPartition.Roots.{Ranked}
use ift_encoder.GlyphPartition.Same.{Same, Same-symm, Same-trans, Same-refl}
use ift_encoder.GlyphPartition.Union.{Merged, union_pair-Merged}

-- The glyph is in the set of one of the glyphs.
abbrev pub Touches : List ℕ → List ℕ → ℕ → Type 0
Touches parent [] a = ⊥
Touches parent (g ∷ gs) a = Same parent a g ⊎ Touches parent gs a

module _ (hb : HbSet) where
  open hb use {Set, values}

  -- The sets of `p`, but for those that the glyphs touch, which are one.
  pub record Collected (p q : GlyphPartition hb) (gs : List ℕ) : Type 0 where
    pub ranked : Ranked q.rank q.parent
    pub size_kept : size hb q ≡ size hb p
    pub collected :
        (a b : ℕ)
        → a < size hb p
        → b < size hb p
        → Same q.parent a b ↔ (Same p.parent a b ⊎ (Touches p.parent gs a × Touches p.parent gs b))

  module _ (p q : GlyphPartition hb) (first g : ℕ) (m : Merged hb p q first g)
      (w : Ranked p.rank p.parent) (lf : first < size hb p) (lg : g < size hb p) (a : ℕ)
      (la : a < size hb p) where
    lower :
        (xs : List ℕ)
        → All (λ x. x < size hb p) xs
        → Touches q.parent xs a
        → Same p.parent a first ⊎ Same p.parent a g ⊎ Touches p.parent xs a
    lower [] low t = absurd t
    lower (x ∷ xs) low (inl s) = elim ((m.merged a x la low.0).0 s) [
      | inl k ↦ inr (inr (inl k))
      | inr (inl (k, l)) ↦ inl k
      | inr (inr (k, l)) ↦ inr (inl k)
    ]
    lower (x ∷ xs) low (inr t) = elim (lower xs low.1 t) [
      | inl k ↦ inl k
      | inr (inl k) ↦ inr (inl k)
      | inr (inr k) ↦ inr (inr (inr k))
    ]

    raise :
        (xs : List ℕ) → All (λ x. x < size hb p) xs → Touches p.parent xs a → Touches q.parent xs a
    raise [] low t = t
    raise (x ∷ xs) low (inl s) = inl ((m.merged a x la low.0).1 (inl s))
    raise (x ∷ xs) low (inr t) = inr (raise xs low.1 t)

    raise_first :
        (xs : List ℕ)
        → All (λ x. x < size hb p) xs
        → Touches p.parent (first ∷ g ∷ xs) a
        → Touches q.parent (first ∷ xs) a
    raise_first xs low (inl s) = inl ((m.merged a first la lf).1 (inl s))
    raise_first xs low (inr (inl s)) =
        inl ((m.merged a first la lf).1 (inr (inr (s, Same-refl w first lf))))
    raise_first xs low (inr (inr t)) = inr (raise xs low t)

    lower_first :
        (xs : List ℕ)
        → All (λ x. x < size hb p) xs
        → Touches q.parent (first ∷ xs) a
        → Touches p.parent (first ∷ g ∷ xs) a
    lower_first xs low t = elim (lower (first ∷ xs) (lf, low) t) [
      | inl s ↦ inl s
      | inr (inl s) ↦ inr (inl s)
      | inr (inr (inl s)) ↦ inl s
      | inr (inr (inr u)) ↦ inr (inr u)
    ]

  union_rest-cons :
      (p q : GlyphPartition hb) (first g : ℕ) (gs : List ℕ)
      → g < size hb p
      → union_pair hb p first g ≡ some (ok tt, q)
      → union_rest hb p first (g ∷ gs) ≡ union_rest hb q first gs
  unfolding union_rest bind
  union_rest-cons p q first g gs low goes =
      if-false _ _ (lt→leb-false (size hb p) g low)
      ∙ (ap (λ r. bind hb r (λ done q'. union_rest hb q' first gs)) goes)

  union_rest-Collected :
      (p : GlyphPartition hb) (first : ℕ) (gs : List ℕ)
      → Ranked p.rank p.parent
      → first < size hb p
      → All (λ x. x < size hb p) gs
      → (q : GlyphPartition hb) × (union_rest hb p first gs ≡ some (ok tt, q))
        × Collected p q (first ∷ gs)
  unfolding union_rest
  union_rest-Collected p first [] w lf low = (
    p,
    refl,
    record {
      ranked = w;
      size_kept = refl;
      collected = λ a b la lb. (
        (λ s. inl s),
        (λ t. elim t [
          | inl s ↦ s
          | inr (inl s, inl u) ↦ Same-trans s (Same-symm u)
          | inr (inl s, inr none) ↦ absurd none
          | inr (inr none, u) ↦ absurd none
        ]),
      );
    },
  )
  union_rest-Collected p first (g ∷ gs) w lf low =
      let (q, goes, m) = union_pair-Merged hb p first g w lf low.0 in
      let (r, goes', c) =
        union_rest-Collected q first gs m.ranked (omega (arith, m.size_kept))
          (rw m.size_kept low.1) in
      (
        r,
        union_rest-cons p q first g gs low.0 goes ∙ goes',
        record {
          ranked = c.ranked;
          size_kept = c.size_kept ∙ m.size_kept;
          collected = λ a b la lb.
              let inner =
                c.collected a b (omega (arith, m.size_kept)) (omega (arith, m.size_kept)) in
              (
                (λ s. elim (inner.0 s) [
                  | inl t ↦ elim ((m.merged a b la lb).0 t) [
                    | inl u ↦ inl u
                    | inr (inl (u, v)) ↦ inr (inl u, inr (inl v))
                    | inr (inr (u, v)) ↦ inr (inr (inl u), inl v)
                  ]
                  | inr (t, u) ↦ inr (
                    lower_first p q first g m w lf low.0 a la gs low.1 t,
                    lower_first p q first g m w lf low.0 b lb gs low.1 u,
                  )
                ]),
                (λ t. elim t [
                  | inl s ↦ inner.1 (inl ((m.merged a b la lb).1 (inl s)))
                  | inr (u, v) ↦ inner.1 (
                      inr (
                        raise_first p q first g m w lf low.0 a la gs low.1 u,
                        raise_first p q first g m w lf low.0 b lb gs low.1 v,
                      ))
                ]),
              );
        },
      )

  union_values-Collected :
      (p : GlyphPartition hb) (gs : List ℕ)
      → Ranked p.rank p.parent
      → All (λ x. x < size hb p) gs
      → (q : GlyphPartition hb) × (union_values hb p gs ≡ some (ok tt, q)) × Collected p q gs
  unfolding union_values
  union_values-Collected p [] w low = (
    p,
    refl,
    record {
      ranked = w;
      size_kept = refl;
      collected =
          λ a b la lb. ((λ s. inl s), (λ t. elim t [ inl s ↦ s | inr (none, u) ↦ absurd none ]));
    },
  )
  union_values-Collected p (first ∷ gs) w low =
      rw (lt→leb-false (size hb p) first low.0) (union_rest-Collected p first gs w low.0 low.1)

  -- Union with a set of glyphs of the partition succeeds, keeps the order of ranks along the parents,
  -- and makes one set of all the sets that the glyphs touch: two glyphs are in one set afterwards
  -- exactly if they were before, or both were in the set of one of the glyphs.
  pub union_set-Collected :
      (p : GlyphPartition hb) (glyphs : Set)
      → Ranked p.rank p.parent
      → All (λ x. x < size hb p) (values glyphs)
      → (q : GlyphPartition hb) × (union_set hb p glyphs ≡ some (ok tt, q))
        × Collected p q (values glyphs)
  unfolding union_set
  union_set-Collected p glyphs w low = union_values-Collected p (values glyphs) w low
