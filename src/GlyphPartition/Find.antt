-- ===== src/GlyphPartition/Find.antt =====
-- Find: the root that it gives, and what it does to the paths.
use mathlib.Core.Path.{subst}
use native.Mathlib.Numerals.{add-one}
use ift_encoder.Prelude.{
  ℕ, zero, suc, ◌+◌, ◌≤◌, ◌<◌, ◌≡◌, ◌≢◌, refl, sym, ◌∙◌, List, [], ◌∷◌, Option, some, inl, inr,
  ◌==◌, ltb, leb, true, if◌then◌else◌, length, set, arith, Bool-cases, lt→leb-false, ==_iff,
  length-set,
}
use ift_encoder.GlyphPartition.Defs.{StatusOr, ok, err, out_of_bounds, at, find}
use ift_encoder.GlyphPartition.Roots.{
  Root, here, step, Ranked, Root-bound, Root-rank, Root-compress, at_set,
}

-- The entries above a rank: they get fewer on the way to the root.
abbrev above : List ℕ → ℕ → ℕ
above [] r = 0
above (x ∷ xs) r = if ltb r x then suc (above xs r) else above xs r

pub above-length : (rank : List ℕ) (r : ℕ) → above rank r ≤ length rank
above-length [] r = omega arith
above-length (x ∷ xs) r = ground (arith, above-length xs r)

above_antitone : (rank : List ℕ) (r s : ℕ) → r ≤ s → above rank s ≤ above rank r
above_antitone [] r s h = omega arith
above_antitone (x ∷ xs) r s h = ground (arith, above_antitone xs r s h)

above_decreases :
    (rank : List ℕ) (i r : ℕ)
    → i < length rank
    → r < at rank i
    → suc (above rank (at rank i)) ≤ above rank r
above_decreases [] i r h less = absurd (omega arith)
above_decreases (x ∷ xs) zero r h less = ground (arith, above_antitone xs r x)
above_decreases (x ∷ xs) (suc i) r h less =
    ground (arith, above_decreases xs i r (omega arith) less)

-- What a call of Find leaves: the same roots on paths of the same kind.
pub record Compressed (rank parent parent' : List ℕ) : Type 0 where
  pub ranked : Ranked rank parent'
  pub size_kept : length parent' ≡ length parent
  pub roots_kept : {h s : ℕ} → Root parent h s → Root parent' h s

pub Compressed-refl : {rank parent : List ℕ} → Ranked rank parent → Compressed rank parent parent
Compressed-refl w = record { ranked = w; size_kept = refl; roots_kept = λ k. k }

pub Compressed-trans :
    {rank parent parent' parent'' : List ℕ}
    → Compressed rank parent parent'
    → Compressed rank parent' parent''
    → Compressed rank parent parent''
Compressed-trans c d = record {
  ranked = d.ranked;
  size_kept = d.size_kept ∙ c.size_kept;
  roots_kept = λ k. d.roots_kept (c.roots_kept k);
}

set-Compressed :
    {rank parent : List ℕ} {g r : ℕ}
    → Ranked rank parent
    → Root parent g r
    → g < length parent
    → Compressed rank parent (set parent g r)
set-Compressed {rank} {parent} {g} {r} w found bound = record {
  ranked = record {
    same_size = w.same_size ∙ sym (length-set parent g r);
    in_bounds = λ h small.
        at_set parent g r h (λ x. x < length (set parent g r)) bound
          (λ e. omega (arith, Root-bound w found bound, length-set parent g r))
          (λ n.
            omega
              (arith, w.in_bounds h (omega (arith, length-set parent g r)), length-set parent g r));
    rank_grows = λ h small.
        at_set parent g r h (λ x. x ≢ h → at rank h < at rank x) bound
          (λ e moved. elim (Root-rank w found bound) [
            | inl top ↦ absurd (moved (top ∙ e))
            | inr less ↦ subst (λ k. at rank k < at rank r) e less
          ])
          (λ n. w.rank_grows h (omega (arith, length-set parent g r)));
  };
  size_kept = length-set parent g r;
  roots_kept = λ k. Root-compress found bound k;
}

abbrev pub Finds : List ℕ → List ℕ → ℕ → Option (StatusOr ℕ × List ℕ) → Type 0
Finds rank parent g result =
    (r : ℕ) × (parent' : List ℕ) × (result ≡ some (ok r, parent'))
    × Root parent g r
    × Compressed rank parent parent'

pub find-out :
    (fuel : ℕ) (parent : List ℕ) (g : ℕ)
    → leb (length parent) g ≡ true
    → find (fuel + 1) parent g ≡ some (err (out_of_bounds g), parent)
unfolding find
find-out fuel parent g e = rw (add-one fuel, find, e) refl

pub find-Finds :
    (fuel : ℕ) (rank parent : List ℕ) (g : ℕ)
    → Ranked rank parent
    → g < length parent
    → above rank (at rank g) < fuel
    → Finds rank parent g (find fuel parent g)
unfolding find
find-Finds zero rank parent g w bound enough = absurd (omega arith)
find-Finds (suc fuel) rank parent g w bound enough = elim (Bool-cases (at parent g == g)) [
  | inl e ↦
      rw (lt→leb-false (length parent) g bound, e, find)
        (
          g,
          parent,
          refl,
          here ((==_iff (at parent g) g).0 e),
          record { ranked = w; size_kept = refl; roots_kept = λ k. k },
        )
  | inr e ↦
      let moved : at parent g ≢ g = λ same. ground arith in
      let less = w.rank_grows g bound moved in
      let (r, parent', goes, found, kept) =
        find-Finds fuel rank parent (at parent g) w (w.in_bounds g bound) (
          omega (
            arith,
            above_decreases rank (at parent g) (at rank g)
                (omega (arith, w.in_bounds g bound, w.same_size)) less,
          )) in
      let bound' : g < length parent' = omega (arith, kept.size_kept) in
      let own = kept.roots_kept (step moved found) in
      let last = set-Compressed kept.ranked own bound' in
      rw (lt→leb-false (length parent) g bound, e, goes, find)
        (
          r,
          set parent' g r,
          refl,
          step moved found,
          record {
            ranked = last.ranked;
            size_kept = last.size_kept ∙ kept.size_kept;
            roots_kept = λ k. last.roots_kept (kept.roots_kept k);
          },
        )
]
