-- ===== src/GlyphPartition/Operations.antt =====
-- Each operation of the partition, on well-formed states and any arguments.
use ift_encoder.Prelude.{
  ℕ, ◌<◌, ◌≡◌, refl, false, List, [], ◌∷◌, inl, inr, ◌==◌, ltb, arith, Bool-cases, leb-false→lt,
}
use ift_encoder.IntSet.Defs.{HbSet}
use ift_encoder.GlyphPartition.Defs.{
  ok, err, out_of_bounds, GlyphPartition, size, find_glyph, set_of, ensure_cache, glyphs_for,
  union_roots, union_pair, union_found, union_rest, union_values, union_set, non_identity_groups_of,
  union_groups, link, at,
}
use ift_encoder.GlyphPartition.Roots.{Root}
use ift_encoder.GlyphPartition.Union.{find_glyph-Finds, union_roots-Merged, union_found-union_roots}
use ift_encoder.GlyphPartition.WellFormed.{
  WellFormed, Keeps, keeps, bind-Keeps, if-Keeps, find_glyph-Keeps, Compressed-WellFormed,
  ensure_cache-Refreshed, Refreshed-WellFormed,
}

module _ (hb : HbSet) where
  open hb use {Set, values}

  link-invalid : (p : GlyphPartition hb) (r1 r2 : ℕ) → (link hb p r1 r2).cache_valid ≡ false
  unfolding link
  link-invalid p r1 r2 = elim (Bool-cases (ltb (at p.rank r1) (at p.rank r2))) [
    | inl e ↦ rw (e, link) refl
    | inr e ↦ elim (Bool-cases (ltb (at p.rank r2) (at p.rank r1))) [
      | inl f ↦ rw (e, f, link) refl
      | inr f ↦ rw (e, f, link) refl
    ]
  ]

  union_roots-WellFormed :
      (p : GlyphPartition hb) (g k r1 r2 : ℕ)
      → WellFormed hb p
      → g < size hb p
      → k < size hb p
      → Root p.parent g r1
      → Root p.parent k r2
      → WellFormed hb (union_roots hb p r1 r2)
  unfolding union_roots
  union_roots-WellFormed p g k r1 r2 w lg lk found1 found2 = elim (Bool-cases (r1 == r2)) [
    | inl e ↦ rw (e, union_roots) w
    | inr e ↦
        let m =
          union_roots-Merged hb p p g k r1 r2 w.ranked (λ h s x. x) w.ranked refl lg lk found1
            found2 in
        record {
          ranked = m.ranked;
          sound = rw (e, union_roots) (λ valid. absurd (ground (arith, link-invalid p r1 r2)));
        }
  ]

  union_found-Keeps :
      (p : GlyphPartition hb) (g k : ℕ)
      → WellFormed hb p
      → g < size hb p
      → k < size hb p
      → Keeps hb (union_found hb p g k)
  union_found-Keeps p g k w lg lk =
      let (r1, parent1, goes1, found1, kept1) = find_glyph-Finds hb p g w.ranked lg in
      let q1 : GlyphPartition hb = record p { parent = parent1 } in
      let (r2, parent2, goes2, found2, kept2) =
        find_glyph-Finds hb q1 k kept1.ranked (omega (arith, kept1.size_kept)) in
      let q2 : GlyphPartition hb = record p { parent = parent2 } in
      (
        ok tt,
        union_roots hb q2 r1 r2,
        union_found-union_roots hb p q1 q2 g k r1 r2 goes1 goes2,
        union_roots-WellFormed q2 g k r1 r2
            (Compressed-WellFormed hb q1 parent2 (Compressed-WellFormed hb p parent1 w kept1) kept2)
            (omega (arith, kept1.size_kept, kept2.size_kept))
            (omega (arith, kept1.size_kept, kept2.size_kept))
            (kept2.roots_kept (kept1.roots_kept found1)) (kept2.roots_kept found2),
      )

  pub union_pair-Keeps :
      (p : GlyphPartition hb) (g k : ℕ) → WellFormed hb p → Keeps hb (union_pair hb p g k)
  unfolding union_pair
  union_pair-Keeps p g k w = if-Keeps hb _ _ _ (keeps hb (err (out_of_bounds g)) p w) (λ lg.
      if-Keeps hb _ _ _ (keeps hb (err (out_of_bounds k)) p w)
        (λ lk. union_found-Keeps p g k w (leb-false→lt _ _ lg) (leb-false→lt _ _ lk)))

  union_rest-Keeps :
      (p : GlyphPartition hb) (first : ℕ) (gids : List ℕ)
      → WellFormed hb p
      → Keeps hb (union_rest hb p first gids)
  unfolding union_rest
  union_rest-Keeps p first [] w = keeps hb (ok tt) p w
  union_rest-Keeps p first (g ∷ gids) w =
      if-Keeps hb _ _ _ (keeps hb (err (out_of_bounds g)) p w) (λ low.
        bind-Keeps hb (union_pair hb p first g) _ (union_pair-Keeps p first g w)
          (λ done q goes v. union_rest-Keeps q first gids v))

  union_values-Keeps :
      (p : GlyphPartition hb) (gids : List ℕ) → WellFormed hb p → Keeps hb (union_values hb p gids)
  unfolding union_values
  union_values-Keeps p [] w = keeps hb (ok tt) p w
  union_values-Keeps p (g ∷ gids) w =
      if-Keeps hb _ _ _ (keeps hb (err (out_of_bounds g)) p w) (λ low. union_rest-Keeps p g gids w)

  pub union_set-Keeps :
      (p : GlyphPartition hb) (glyphs : Set) → WellFormed hb p → Keeps hb (union_set hb p glyphs)
  unfolding union_set
  union_set-Keeps p glyphs w = union_values-Keeps p (values glyphs) w

  ensure_cache-Keeps : (p : GlyphPartition hb) → WellFormed hb p → Keeps hb (ensure_cache hb p)
  ensure_cache-Keeps p w =
      let (q, goes, fresh) = ensure_cache-Refreshed hb p w in
      (ok tt, q, goes, Refreshed-WellFormed hb p q fresh)

  pub glyphs_for-Keeps :
      (p : GlyphPartition hb) (g : ℕ) → WellFormed hb p → Keeps hb (glyphs_for hb p g)
  unfolding glyphs_for
  glyphs_for-Keeps p g w = if-Keeps hb _ _ _ (keeps hb (err (out_of_bounds g)) p w) (λ low.
      bind-Keeps hb (ensure_cache hb p) _ (ensure_cache-Keeps p w) (λ done q goes v.
        bind-Keeps hb (find_glyph hb q g) _ (find_glyph-Keeps hb q g v)
          (λ rep r goes' u. keeps hb (ok (set_of hb r.rep_to_set rep)) r u)))

  pub non_identity_groups_of-Keeps :
      (p : GlyphPartition hb) → WellFormed hb p → Keeps hb (non_identity_groups_of hb p)
  unfolding non_identity_groups_of
  non_identity_groups_of-Keeps p w =
      bind-Keeps hb (ensure_cache hb p) _ (ensure_cache-Keeps p w)
        (λ done q goes v. keeps hb (ok q.non_identity_groups) q v)

  pub union_groups-Keeps :
      (p : GlyphPartition hb) (groups : List Set)
      → WellFormed hb p
      → Keeps hb (union_groups hb p groups)
  unfolding union_groups
  union_groups-Keeps p [] w = keeps hb (ok tt) p w
  union_groups-Keeps p (group ∷ groups) w =
      bind-Keeps hb (union_set hb p group) _ (union_set-Keeps p group w)
        (λ done q goes v. union_groups-Keeps q groups v)
