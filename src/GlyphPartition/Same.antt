-- ===== src/GlyphPartition/Same.antt =====
-- Two glyphs in one set: the equivalence that the parents stand for, and what joining two sets does
-- to it.
use mathlib.Core.Path.{subst}
use ift_encoder.Prelude.{ℕ, ◌+◌, ◌<◌, ◌≡◌, sym, ap, ◌∙◌, List, ◌⊎◌, inl, inr, ◌↔◌, length, arith}
use ift_encoder.GlyphPartition.Defs.{at}
use ift_encoder.GlyphPartition.Roots.{Root, Root-unique, Ranked, moved_root}
use ift_encoder.GlyphPartition.Find.{above-length, find-Finds}

abbrev pub Same : List ℕ → ℕ → ℕ → Type 0
Same parent a b = (r : ℕ) × Root parent a r × Root parent b r

pub Same-symm : {parent : List ℕ} {a b : ℕ} → Same parent a b → Same parent b a
Same-symm (r, h, k) = (r, k, h)

pub Same-trans : {parent : List ℕ} {a b c : ℕ} → Same parent a b → Same parent b c → Same parent a c
Same-trans {parent} {a} {b} {c} (r, h, k) (s, l, m) =
    (r, h, subst (λ t. Root parent c t) (Root-unique l k) m)

pub Root-exists :
    {rank parent : List ℕ}
    → Ranked rank parent
    → (g : ℕ) → g < length parent
    → (r : ℕ) × Root parent g r
Root-exists {rank} {parent} w g bound =
    let (r, parent', goes, found, kept) =
      find-Finds (length parent + 1) rank parent g w bound
        (omega (arith, above-length rank (at rank g), w.same_size)) in
    (r, found)

pub Same-refl :
    {rank parent : List ℕ} → Ranked rank parent → (g : ℕ) → g < length parent → Same parent g g
Same-refl w g bound = let (r, h) = Root-exists w g bound in (r, h, h)

-- The new parents have the same roots, so they stand for the same sets.
pub Same-kept :
    {rank parent parent' : List ℕ} {a b : ℕ}
    → Ranked rank parent
    → ((h s : ℕ) → Root parent h s → Root parent' h s)
    → a < length parent
    → b < length parent
    → Same parent' a b ↔ Same parent a b
Same-kept {rank} {parent} {parent'} {a} {b} w kept la lb =
    let (r, h) = Root-exists w a la in
    let (s, k) = Root-exists w b lb in
    (
      (λ (t, l, m).
          let same : r ≡ s = Root-unique (kept a r h) l ∙ Root-unique m (kept b s k) in
          (r, h, subst (λ x. Root parent b x) (sym same) k)),
      λ (t, l, m). (t, kept a t l, kept b t m),
    )

-- In one set, once the sets of `g` and `k` are one.
abbrev pub Joined : List ℕ → ℕ → ℕ → ℕ → ℕ → Type 0
Joined parent g k a b =
    Same parent a b ⊎ (Same parent a g × Same parent b k) ⊎ (Same parent a k × Same parent b g)

moved_root-eq :
    (lose win s t : ℕ)
    → moved_root lose win s ≡ moved_root lose win t
    → (s ≡ t) ⊎ ((s ≡ lose) × (t ≡ win)) ⊎ ((s ≡ win) × (t ≡ lose))
moved_root-eq lose win s t h = ground arith

module _ {rank parent parent' : List ℕ} {g k lose win : ℕ} (w : Ranked rank parent)
    (moves : (h s : ℕ) → Root parent h s → Root parent' h (moved_root lose win s))
    (g_root : Root parent g lose) (k_root : Root parent k win) where
  at_lose : moved_root lose win lose ≡ win
  at_lose = ground arith

  at_win : moved_root lose win win ≡ win
  at_win = ground arith

  to_win : (a : ℕ) → Same parent a g ⊎ Same parent a k → Root parent' a win
  to_win a (inl (r, h, l)) =
      subst (λ t. Root parent' a t) (ap (moved_root lose win) (Root-unique l g_root) ∙ at_lose)
        (moves a r h)
  to_win a (inr (r, h, l)) =
      subst (λ t. Root parent' a t) (ap (moved_root lose win) (Root-unique l k_root) ∙ at_win)
        (moves a r h)

  -- Linking the roots of two glyphs joins their sets.
  pub Same-link :
      (a b : ℕ) → a < length parent → b < length parent → Same parent' a b ↔ Joined parent g k a b
  Same-link a b la lb =
      let (r, h) = Root-exists w a la in
      let (s, l) = Root-exists w b lb in
      (
        (λ (t, m, n).
            elim (moved_root-eq lose win r s
              (Root-unique (moves a r h) m ∙ Root-unique n (moves b s l))) [
                | inl e ↦ inl (r, h, subst (λ x. Root parent b x) (sym e) l)
                | inr (inl (e, f)) ↦ inr (
                    inl (
                      (r, h, subst (λ x. Root parent g x) (sym e) g_root),
                      (s, l, subst (λ x. Root parent k x) (sym f) k_root),
                    ))
                | inr (inr (e, f)) ↦ inr (
                    inr (
                      (r, h, subst (λ x. Root parent k x) (sym e) k_root),
                      (s, l, subst (λ x. Root parent g x) (sym f) g_root),
                    ))
              ]),
        λ joined. elim joined [
          | inl (t, m, n) ↦ (moved_root lose win t, moves a t m, moves b t n)
          | inr (inl (m, n)) ↦ (win, to_win a (inl m), to_win b (inr n))
          | inr (inr (m, n)) ↦ (win, to_win a (inr m), to_win b (inl n))
        ],
      )
