-- ===== src/GlyphPartition/WellFormed.antt =====
-- The operations of the partition and its well-formed states.
use mathlib.Core.Path.{subst}
use ift_encoder.Prelude.{
  ℕ, ◌<◌, ◌≡◌, refl, sym, ap, ◌∙◌, Bool, true, false, List, [], some, inl, inr, ◌↔◌, leb,
  if◌then◌else◌, arith, Bool-cases, lt→leb-false, leb-false→lt, if-false, if-true,
}
use ift_encoder.IntSet.Defs.{HbSet}
use ift_encoder.GlyphPartition.Defs.{
  StatusOr, ok, err, out_of_bounds, GlyphPartition, Run, size, bind, find_glyph, set_of, several,
  rebuild_cache, ensure_cache, glyphs_for,
}
use ift_encoder.Condition.Defs.{sort_by, set_less}
use ift_encoder.GlyphPartition.Roots.{Root, Root-unique, Ranked}
use ift_encoder.GlyphPartition.Find.{Compressed, find-out}
use ift_encoder.GlyphPartition.Same.{Same, Same-kept}
use ift_encoder.GlyphPartition.Union.{find_glyph-Finds}
use ift_encoder.GlyphPartition.Cache.{Filled, Sound, Filled-kept, fill_cache-Filled}

module _ (hb : HbSet) where
  open hb use {Set, has, values, empty, has_empty}

  pub record WellFormed (p : GlyphPartition hb) : Type 0 where
    pub ranked : Ranked p.rank p.parent
    pub sound : Sound hb p

  -- The partition `q` has the sets of `p` and a cache that is right.
  pub record Refreshed (p q : GlyphPartition hb) : Type 0 where
    pub ranked : Ranked q.rank q.parent
    pub size_kept : size hb q ≡ size hb p
    pub roots_kept : {h s : ℕ} → Root p.parent h s → Root q.parent h s
    pub filled : Filled hb q.parent q.rep_to_set (size hb q)

  Filled-empty : (parent : List ℕ) → Filled hb parent [] 0
  unfolding set_of
  Filled-empty parent r x =
      ((λ h. absurd (ground (arith, has_empty x))), (λ h. absurd (omega (arith, h.0))))

  pub rebuild_cache-Refreshed :
      (p : GlyphPartition hb)
      → Ranked p.rank p.parent
      → (q : GlyphPartition hb) × (rebuild_cache hb p ≡ some (ok tt, q)) × Refreshed p q
  unfolding rebuild_cache bind
  rebuild_cache-Refreshed p w =
      let (parent, sets, goes, kept, filled) =
        fill_cache-Filled hb (size hb p) 0 (record p { rep_to_set = [] }) w (omega arith)
          (Filled-empty p.parent) in
      (
        record p {
          parent = parent;
          rep_to_set = sets;
          non_identity_groups = sort_by hb (set_less hb) (several hb sets);
          cache_valid = true;
        },
        ap
            (λ m. bind hb m (λ done q. some (
              ok tt,
              record q {
                non_identity_groups = sort_by hb (set_less hb) (several hb q.rep_to_set);
                cache_valid = true;
              },
            )))
            goes,
        record {
          ranked = kept.ranked;
          size_kept = kept.size_kept;
          roots_kept = λ k. kept.roots_kept k;
          filled = subst (λ n. Filled hb parent sets n) (sym kept.size_kept) filled;
        },
      )

  pub ensure_cache-Refreshed :
      (p : GlyphPartition hb)
      → WellFormed p
      → (q : GlyphPartition hb) × (ensure_cache hb p ≡ some (ok tt, q)) × Refreshed p q
  unfolding ensure_cache
  ensure_cache-Refreshed p w = elim (Bool-cases p.cache_valid) [
    | inl e ↦ (
      p,
      if-true _ _ e,
      record { ranked = w.ranked; size_kept = refl; roots_kept = λ k. k; filled = w.sound e },
    )
    | inr e ↦
        let (q, goes, fresh) = rebuild_cache-Refreshed p w.ranked in
        (q, if-false _ _ e ∙ goes, fresh)
  ]

  pub Refreshed-WellFormed : (p q : GlyphPartition hb) → Refreshed p q → WellFormed q
  Refreshed-WellFormed p q fresh = record { ranked = fresh.ranked; sound = λ e. fresh.filled }

  -- What Find leaves, in the state of the partition.
  pub Compressed-WellFormed :
      (p : GlyphPartition hb) (parent : List ℕ)
      → WellFormed p
      → Compressed p.rank p.parent parent
      → WellFormed (record p { parent = parent })
  Compressed-WellFormed p parent w kept = record {
    ranked = kept.ranked;
    sound = λ e.
        subst (λ n. Filled hb parent p.rep_to_set n) (sym kept.size_kept)
          (Filled-kept hb p.rep_to_set w.ranked kept (omega arith) (w.sound e));
  }

  cached_iff :
      (p q : GlyphPartition hb) (g rep : ℕ)
      → Ranked p.rank p.parent
      → Refreshed p q
      → g < size hb p
      → Root q.parent g rep
      → (x : ℕ)
      → (has (set_of hb q.rep_to_set rep) x ≡ true) ↔ ((x < size hb p) × Same p.parent x g)
  cached_iff p q g rep w fresh bound found x = (
    (λ h.
        let (l, k) = (fresh.filled rep x).0 h in
        let low : x < size hb p = omega (arith, fresh.size_kept) in
        (low, (Same-kept w (λ a b m. fresh.roots_kept m) low bound).0 (rep, k, found))),
    (λ (low, same).
        let (r, k, m) = (Same-kept w (λ a b m. fresh.roots_kept m) low bound).1 same in
        (fresh.filled rep x).1
          (omega (arith, fresh.size_kept), subst (λ t. Root q.parent x t) (Root-unique m found) k)),
  )

  -- GlyphsFor, for a glyph of a well-formed partition, succeeds, and the set that it returns has
  -- exactly the glyphs of the partition that are in one set with the glyph. The partition is
  -- well-formed behind it.
  pub glyphs_for-Same :
      (p : GlyphPartition hb) (g : ℕ)
      → WellFormed p
      → g < size hb p
      → (s : Set) × (q : GlyphPartition hb) × (glyphs_for hb p g ≡ some (ok s, q))
        × ((x : ℕ) → (has s x ≡ true) ↔ ((x < size hb p) × Same p.parent x g))
        × WellFormed q
  unfolding glyphs_for bind
  glyphs_for-Same p g w bound =
      let (q, goes, fresh) = ensure_cache-Refreshed p w in
      let (rep, parent, goes', found, kept) =
        find_glyph-Finds hb q g fresh.ranked (omega (arith, fresh.size_kept)) in
      (
        set_of hb q.rep_to_set rep,
        record q { parent = parent },
        if-false _ _ (lt→leb-false (size hb p) g bound)
            ∙ ap
                (λ m. bind hb m (λ done q'.
                  bind hb (find_glyph hb q' g) (λ r t. some (ok (set_of hb t.rep_to_set r), t))))
                goes
            ∙ ap (λ m. bind hb m (λ r t. some (ok (set_of hb t.rep_to_set r), t))) goes',
        (λ x. cached_iff p q g rep w.ranked fresh bound found x),
        Compressed-WellFormed q parent (Refreshed-WellFormed p q fresh) kept,
      )

  -- The operation ends, with a status and a well-formed partition.
  abbrev pub Keeps : {A : Type 0} → Run hb A → Type 0
  Keeps {A} m =
      (status : StatusOr A) × (q : GlyphPartition hb) × (m ≡ some (status, q)) × WellFormed q

  pub keeps :
      {A : Type 0} (status : StatusOr A) (q : GlyphPartition hb)
      → WellFormed q
      → Keeps (some (status, q))
  keeps status q w = (status, q, refl, w)

  pub bind-Keeps :
      {A B : Type 0} (m : Run hb A) (next : A → GlyphPartition hb → Run hb B)
      → Keeps m
      → ((a : A) (q : GlyphPartition hb) → m ≡ some (ok a, q) → WellFormed q → Keeps (next a q))
      → Keeps (bind hb m next)
  unfolding bind
  bind-Keeps m next (ok a, q, e, w) go = rw (e, bind) (go a q e w)
  bind-Keeps m next (err x, q, e, w) go = rw (e, bind) (keeps (err x) q w)

  pub if-Keeps :
      {A : Type 0} (b : Bool) (m n : Run hb A)
      → Keeps m
      → (b ≡ false → Keeps n)
      → Keeps (if b then m else n)
  if-Keeps true m n k l = k
  if-Keeps false m n k l = l refl

  find_glyph-out :
      (p : GlyphPartition hb) (g : ℕ)
      → leb (size hb p) g ≡ true
      → find_glyph hb p g ≡ some (err (out_of_bounds g), p)
  unfolding find_glyph
  find_glyph-out p g e = rw (find-out (size hb p) p.parent g e, find_glyph) refl

  pub find_glyph-Keeps : (p : GlyphPartition hb) (g : ℕ) → WellFormed p → Keeps (find_glyph hb p g)
  find_glyph-Keeps p g w = elim (Bool-cases (leb (size hb p) g)) [
    | inl e ↦ (err (out_of_bounds g), p, find_glyph-out p g e, w)
    | inr e ↦
        let (r, parent, goes, found, kept) =
          find_glyph-Finds hb p g w.ranked (leb-false→lt _ _ e) in
        (ok r, record p { parent = parent }, goes, Compressed-WellFormed p parent w kept)
  ]
