-- ===== src/GlyphPartition/Cache.antt =====
-- RebuildCache, GlyphsFor and operator=: the sets that the partition caches.
use mathlib.Core.Path.{subst}
use ift_encoder.Prelude.{
  ℕ, zero, suc, ◌+◌, ◌≤◌, ◌<◌, ◌≡◌, refl, sym, ap, ◌∙◌, true, false, ◌||◌, List, [], ◌∷◌, some, inl,
  inr, ◌↔◌, ◌==◌, if◌then◌else◌, length, arith, Bool-cases, ==_iff,
}
use ift_encoder.IntSet.Defs.{HbSet}
use ift_encoder.GlyphPartition.Defs.{ok, GlyphPartition, size, bind, set_of, insert_at, fill_cache}
use ift_encoder.GlyphPartition.Roots.{Root, Root-unique, Ranked, ℕ-cases}
use ift_encoder.GlyphPartition.Find.{Compressed, Compressed-refl, Compressed-trans}
use ift_encoder.GlyphPartition.Same.{Root-exists}
use ift_encoder.GlyphPartition.Union.{find_glyph-Finds}

module _ (hb : HbSet) where
  open hb use {Set, has, add, empty, has_add, has_empty}

  -- The cached set of a root has the glyphs below `upto` whose root it is.
  abbrev pub Filled : List ℕ → List (ℕ × Set) → ℕ → Type 0
  Filled parent sets upto =
      (r x : ℕ) → (has (set_of hb sets r) x ≡ true) ↔ ((x < upto) × Root parent x r)

  -- A cache that is marked as valid is the cache of the parents.
  abbrev pub Sound : GlyphPartition hb → Type 0
  Sound p = p.cache_valid ≡ true → Filled p.parent p.rep_to_set (size hb p)

  has-insert_at :
      (sets : List (ℕ × Set)) (rep g r x : ℕ)
      → has (set_of hb (insert_at hb sets rep g) r) x
        ≡ (if rep == r then x == g || has (set_of hb sets r) x else has (set_of hb sets r) x)
  unfolding insert_at set_of
  has-insert_at [] rep g r x = elim (Bool-cases (rep == r)) [
    | inl e ↦ rw (e, has_add empty g x) refl
    | inr e ↦ rw e refl
  ]
  has-insert_at ((k, s) ∷ sets) rep g r x = elim (Bool-cases (k == rep)) [
    | inl e ↦ elim (Bool-cases (k == r)) [
      | inl f ↦
          let m : (rep == r) ≡ true = ground arith in
          rw (e, f, m, insert_at, set_of) (has_add s g x)
      | inr f ↦ let m : (rep == r) ≡ false = ground arith in rw (e, f, m, insert_at, set_of) refl
    ]
    | inr e ↦ elim (Bool-cases (k == r)) [
      | inl f ↦ let m : (rep == r) ≡ false = ground arith in rw (e, f, m, insert_at, set_of) refl
      | inr f ↦ rw (e, f, insert_at, set_of) (has-insert_at sets rep g r x)
    ]
  ]

  -- One turn of the loop, for a glyph whose root is `rep`.
  Filled-insert_at :
      (parent : List ℕ) (sets : List (ℕ × Set)) (rep g : ℕ)
      → Root parent g rep
      → Filled parent sets g
      → Filled parent (insert_at hb sets rep g) (suc g)
  Filled-insert_at parent sets rep g found filled r x = elim (Bool-cases (rep == r)) [
    | inl e ↦
        let own = subst (λ t. Root parent g t) ((==_iff rep r).0 e) found in
        elim (Bool-cases (x == g)) [
          | inl f ↦
              let at_g : x ≡ g = (==_iff x g).0 f in
              rw (has-insert_at sets rep g r x, e, f)
                ((λ h. (omega arith, subst (λ t. Root parent t r) (sym at_g) own)), (λ h. refl))
          | inr f ↦
              rw (has-insert_at sets rep g r x, e, f)
                (
                  (λ h. let (l, k) = (filled r x).0 h in (omega arith, k)),
                  (λ h. (filled r x).1 (ground (arith, h.0), h.1)),
                )
        ]
    | inr e ↦
        rw (has-insert_at sets rep g r x, e)
          (
            (λ h. let (l, k) = (filled r x).0 h in (omega arith, k)),
            (λ h. (filled r x).1 (elim (ℕ-cases x g) [
              | inl f ↦
                  absurd (ground (arith, Root-unique (subst (λ t. Root parent t r) f h.1) found))
              | inr f ↦ (omega (arith, h.0), h.1)
            ])),
          )
  ]

  -- Compressing paths keeps the cache right.
  pub Filled-kept :
      {rank parent parent' : List ℕ} (sets : List (ℕ × Set)) {upto : ℕ}
      → Ranked rank parent
      → Compressed rank parent parent'
      → upto ≤ length parent
      → Filled parent sets upto
      → Filled parent' sets upto
  Filled-kept {rank} {parent} {parent'} sets w kept low filled r x = (
    (λ h. let (l, k) = (filled r x).0 h in (l, kept.roots_kept k)),
    (λ (l, k).
        let (s, m) = Root-exists w x (omega arith) in
        (filled r x).1 (l, subst (λ t. Root parent x t) (Root-unique (kept.roots_kept m) k) m)),
  )

  pub fill_cache-Filled :
      (left glyph : ℕ) (p : GlyphPartition hb)
      → Ranked p.rank p.parent
      → glyph + left ≡ size hb p
      → Filled p.parent p.rep_to_set glyph
      → (parent' : List ℕ) × (sets' : List (ℕ × Set)) × (fill_cache hb left glyph p
          ≡ some (ok tt, record p { parent = parent'; rep_to_set = sets' }))
        × Compressed p.rank p.parent parent'
        × Filled parent' sets' (size hb p)
  unfolding fill_cache bind
  fill_cache-Filled zero glyph p w all filled = (
    p.parent,
    p.rep_to_set,
    refl,
    Compressed-refl w,
    subst (λ n. Filled p.parent p.rep_to_set n) (omega (arith, all)) filled,
  )
  fill_cache-Filled (suc left) glyph p w all filled =
      let (rep, parent', goes, found, kept) = find_glyph-Finds hb p glyph w (omega (arith, all)) in
      let sets = insert_at hb p.rep_to_set rep glyph in
      let (parent'', sets'', goes', kept', filled') =
        fill_cache-Filled left (glyph + 1) (record p { parent = parent'; rep_to_set = sets })
          kept.ranked (omega (arith, all, kept.size_kept))
          (subst (λ n. Filled parent' sets n) (omega arith)
            (Filled-insert_at parent' p.rep_to_set rep glyph (kept.roots_kept found)
              (Filled-kept p.rep_to_set w kept (omega (arith, all)) filled))) in
      (
        parent'',
        sets'',
        ap
              (λ m. bind hb m (λ rep' q.
                fill_cache hb left (glyph + 1)
                  (record q { rep_to_set = insert_at hb q.rep_to_set rep' glyph })))
              goes
            ∙ goes',
        Compressed-trans kept kept',
        subst (λ n. Filled parent'' sets'' n) kept.size_kept filled',
      )
