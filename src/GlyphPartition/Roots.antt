-- ===== src/GlyphPartition/Roots.antt =====
-- The root above a glyph, as a relation on the vector of parents, and how it changes.
use mathlib.Core.Path.{subst}
use ift_encoder.Prelude.{
  ℕ, ◌<◌, ◌≡◌, ◌≢◌, refl, sym, ap, ◌∙◌, List, ◌⊎◌, inl, inr, ◌==◌, if◌then◌else◌, length, set,
  arith, Bool-cases, ==_iff, get_or-set_same, get_or-set_other,
}
use ift_encoder.GlyphPartition.Defs.{at}

-- Following the parents from the glyph ends at the root.
pub data Root (parent : List ℕ) : ℕ → ℕ → Type 0 where
  here : {g : ℕ} → at parent g ≡ g → Root parent g g
  step : {g r : ℕ} → at parent g ≢ g → Root parent (at parent g) r → Root parent g r

pub Root-top : {parent : List ℕ} {g r : ℕ} → Root parent g r → at parent r ≡ r
Root-top (here e) = e
Root-top (step n h) = Root-top h

pub Root-unique : {parent : List ℕ} {g r s : ℕ} → Root parent g r → Root parent g s → r ≡ s
Root-unique (here e) (here f) = refl
Root-unique (here e) (step n h) = absurd (n e)
Root-unique (step n h) (here f) = absurd (n f)
Root-unique (step n h) (step m k) = Root-unique h k

-- Parents are glyphs, and ranks grow on the way to the root.
pub record Ranked (rank parent : List ℕ) : Type 0 where
  pub same_size : length rank ≡ length parent
  pub in_bounds : (g : ℕ) → g < length parent → at parent g < length parent
  pub rank_grows : (g : ℕ) → g < length parent → at parent g ≢ g → at rank g < at rank (at parent g)

pub Root-bound :
    {rank parent : List ℕ} {g r : ℕ}
    → Ranked rank parent
    → Root parent g r
    → g < length parent
    → r < length parent
Root-bound w (here e) h = h
Root-bound w (step n k) h = Root-bound w k (w.in_bounds _ h)

pub Root-rank :
    {rank parent : List ℕ} {g r : ℕ}
    → Ranked rank parent
    → Root parent g r
    → g < length parent
    → (r ≡ g) ⊎ (at rank g < at rank r)
Root-rank w (here e) h = inl refl
Root-rank {rank} {parent} {g} {r} w (step n k) h = elim (Root-rank w k (w.in_bounds g h)) [
  | inl e ↦ inr (rw e (w.rank_grows g h n))
  | inr l ↦ inr (omega (arith, l, w.rank_grows g h n))
]

pub Root-own : {parent : List ℕ} {g r : ℕ} → at parent g ≡ g → Root parent g r → r ≡ g
Root-own e k = Root-unique k (here e)

pub ℕ-cases : (a b : ℕ) → (a ≡ b) ⊎ (a ≢ b)
ℕ-cases a b = elim (Bool-cases (a == b)) [
  | inl e ↦ inl ((==_iff a b).0 e)
  | inr e ↦ inr (λ same. ground arith)
]

-- A glyph whose path is compressed keeps its root, and so do all others.
module _ {parent : List ℕ} {g r : ℕ} (found : Root parent g r) (bound : g < length parent) where
  compressed_own : at (set parent g r) g ≡ r
  compressed_own = get_or-set_same parent g r 0 bound

  compressed_other : (h : ℕ) → g ≢ h → at (set parent g r) h ≡ at parent h
  compressed_other h n = get_or-set_other parent g h r 0 n

  pub Root-compress : {h s : ℕ} → Root parent h s → Root (set parent g r) h s
  Root-compress {h} (here e) = elim (ℕ-cases g h) [
    | inl same ↦
        here (
          subst (λ x. at (set parent g r) x ≡ x) same (compressed_own ∙ Root-own (rw same e) found))
    | inr other ↦ here (compressed_other h other ∙ e)
  ]
  Root-compress {h} {s} (step n k) = elim (ℕ-cases g h) [
    | inl same ↦
        let same_root : s ≡ r = Root-unique (step n k) (subst (λ x. Root parent x r) same found) in
        let moved : r ≢ g = λ e. n (subst (λ x. at parent x ≡ x) (e ∙ same) (Root-top found)) in
        let top : Root (set parent g r) r r =
          here (compressed_other r (λ e. moved (sym e)) ∙ Root-top found) in
        let own : Root (set parent g r) g r =
          step (λ e. moved (sym compressed_own ∙ e))
            (subst (λ x. Root (set parent g r) x r) (sym compressed_own) top) in
        subst (λ x. Root (set parent g r) x s) same
          (subst (λ t. Root (set parent g r) g t) (sym same_root) own)
    | inr other ↦
        step (λ e. n (sym (compressed_other h other) ∙ e))
          (subst (λ x. Root (set parent g r) x s) (sym (compressed_other h other))
            (Root-compress k))
  ]

-- The root of a glyph once the root `lose` has got the parent `win`.
abbrev pub moved_root : ℕ → ℕ → ℕ → ℕ
moved_root lose win s = if s == lose then win else s

module _ (parent : List ℕ) (lose win : ℕ) (lose_root : at parent lose ≡ lose)
    (win_root : at parent win ≡ win) (apart : lose ≢ win) (bound : lose < length parent) where
  linked_other : (h : ℕ) → lose ≢ h → at (set parent lose win) h ≡ at parent h
  linked_other h n = get_or-set_other parent lose h win 0 n

  win_top : Root (set parent lose win) win win
  win_top = here (linked_other win apart ∙ win_root)

  lose_below : Root (set parent lose win) lose win
  lose_below =
      let above : at (set parent lose win) lose ≡ win = get_or-set_same parent lose win 0 bound in
      step (λ e. apart (sym e ∙ above))
        (subst (λ x. Root (set parent lose win) x win) (sym above) win_top)

  pub Root-link : {h s : ℕ} → Root parent h s → Root (set parent lose win) h (moved_root lose win s)
  Root-link {h} (here e) = elim (Bool-cases (h == lose)) [
    | inl same ↦
        rw same
          (subst (λ x. Root (set parent lose win) x win) (sym ((==_iff h lose).0 same)) lose_below)
    | inr other ↦ rw other (here (linked_other h (λ e. ground arith) ∙ e))
  ]
  Root-link {h} {s} (step n k) =
      let other : lose ≢ h = λ e. n (subst (λ x. at parent x ≡ x) e lose_root) in
      step (λ e. n (sym (linked_other h other) ∙ e))
        (subst (λ x. Root (set parent lose win) x (moved_root lose win s))
          (sym (linked_other h other)) (Root-link k))

-- Reads behind a write, with the cases of the index.
pub at_set :
    (xs : List ℕ) (g v h : ℕ) (P : ℕ → Type 0)
    → g < length xs
    → (g ≡ h → P v)
    → (g ≢ h → P (at xs h))
    → P (at (set xs g v) h)
at_set xs g v h P bound same other = elim (ℕ-cases g h) [
  | inl e ↦ subst P (sym (get_or-set_same xs g v 0 bound) ∙ ap (at (set xs g v)) e) (same e)
  | inr n ↦ subst P (sym (get_or-set_other xs g h v 0 n)) (other n)
]
