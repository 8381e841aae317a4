-- ===== src/GlyphPartition/Union.antt =====
-- Union of two glyphs and of a set of glyphs: which glyphs are in one set afterwards.
use mathlib.Core.Path.{subst}
use ift_encoder.Prelude.{
  ℕ, ◌+◌, ◌≤◌, ◌<◌, ◌≡◌, ◌≢◌, refl, sym, ap, ◌∙◌, List, some, inl, inr, ◌↔◌, ◌==◌, ltb, length, set,
  arith, Bool-cases, ==_iff, ltb→lt, ltb-false→le, lt→leb-false, if-false, length-set,
  get_or-set_same, get_or-set_other,
}
use ift_encoder.IntSet.Defs.{HbSet}
use ift_encoder.GlyphPartition.Defs.{
  ok, at, GlyphPartition, bind, size, find_glyph, link, union_roots, union_found, union_pair,
}
use ift_encoder.GlyphPartition.Roots.{
  Root, Root-top, Ranked, Root-bound, Root-link, at_set, ℕ-cases,
}
use ift_encoder.GlyphPartition.Find.{Compressed, above-length, find-Finds}
use ift_encoder.GlyphPartition.Same.{Same, Same-symm, Same-trans, Same-kept, Joined, Same-link}

Ranked-link :
    {rank rank' parent : List ℕ} (lose win : ℕ)
    → Ranked rank parent
    → lose < length parent
    → win < length parent
    → at parent win ≡ win
    → length rank' ≡ length rank
    → ((h : ℕ) → h ≢ win → at rank' h ≡ at rank h)
    → at rank win ≤ at rank' win
    → at rank' lose < at rank' win
    → Ranked rank' (set parent lose win)
Ranked-link {rank} {rank'} {parent} lose win w ll lw top len kept grown less = record {
  same_size = len ∙ w.same_size ∙ sym (length-set parent lose win);
  in_bounds = λ h small.
      at_set parent lose win h (λ x. x < length (set parent lose win)) ll
        (λ e. omega (arith, length-set parent lose win))
        (λ n. omega (
          arith,
          w.in_bounds h (omega (arith, length-set parent lose win)),
          length-set parent lose win,
        ));
  rank_grows = λ h small.
      at_set parent lose win h (λ x. x ≢ h → at rank' h < at rank' x) ll
        (λ e moved. subst (λ k. at rank' k < at rank' win) e less)
        (λ n moved.
          let not_win : h ≢ win = λ e. moved (ap (at parent) e ∙ top ∙ sym e) in
          let before = w.rank_grows h (omega (arith, length-set parent lose win)) moved in
          elim (ℕ-cases (at parent h) win) [
            | inl e ↦ rw e (omega (arith, kept h not_win, rw e at before))
            | inr m ↦ omega (arith, kept h not_win, kept (at parent h) m, before)
          ]);
}

module _ (hb : HbSet) where
  -- A partition with the sets of another, but for those of two glyphs, which are one.
  pub record Merged (p q : GlyphPartition hb) (g k : ℕ) : Type 0 where
    pub ranked : Ranked q.rank q.parent
    pub size_kept : size hb q ≡ size hb p
    pub merged :
        (a b : ℕ) → a < size hb p → b < size hb p → Same q.parent a b ↔ Joined p.parent g k a b

  module _ (p : GlyphPartition hb) (g k r1 r2 : ℕ) (w : Ranked p.rank p.parent)
      (l1 : r1 < size hb p) (l2 : r2 < size hb p) (g_root : Root p.parent g r1)
      (k_root : Root p.parent k r2) (apart : r1 ≢ r2) where
    swap : (a b : ℕ) → Joined p.parent k g a b ↔ Joined p.parent g k a b
    swap a b = (
      (λ j. elim j [ inl x ↦ inl x | inr (inl x) ↦ inr (inr x) | inr (inr x) ↦ inr (inl x) ]),
      (λ j. elim j [ inl x ↦ inl x | inr (inl x) ↦ inr (inr x) | inr (inr x) ↦ inr (inl x) ]),
    )

    first_below :
        (a b : ℕ)
        → a < size hb p
        → b < size hb p
        → Same (set p.parent r1 r2) a b ↔ Joined p.parent g k a b
    first_below a b la lb =
        Same-link w
          (λ h s k. Root-link p.parent r1 r2 (Root-top g_root) (Root-top k_root) apart l1 k) g_root
          k_root a b la lb

    second_below :
        (a b : ℕ)
        → a < size hb p
        → b < size hb p
        → Same (set p.parent r2 r1) a b ↔ Joined p.parent g k a b
    second_below a b la lb =
        let linked =
          Same-link w
            (λ h s k.
              Root-link p.parent r2 r1 (Root-top k_root) (Root-top g_root) (λ e. apart (sym e)) l2
                k)
            k_root g_root a b la lb in
        ((λ s. (swap a b).0 (linked.0 s)), (λ j. linked.1 ((swap a b).1 j)))

    link-Merged : Merged p (link hb p r1 r2) g k
    unfolding link
    link-Merged = elim (Bool-cases (ltb (at p.rank r1) (at p.rank r2))) [
      | inl e ↦
          rw (e, link)
            (record {
              ranked =
                  Ranked-link r1 r2 w l1 l2 (Root-top k_root) refl (λ h n. refl) (omega arith)
                    (ltb→lt _ _ e);
              size_kept = length-set p.parent r1 r2;
              merged = first_below;
            })
      | inr e ↦ elim (Bool-cases (ltb (at p.rank r2) (at p.rank r1))) [
        | inl f ↦
            rw (e, f, link)
              (record {
                ranked =
                    Ranked-link r2 r1 w l2 l1 (Root-top g_root) refl (λ h n. refl) (omega arith)
                      (ltb→lt _ _ f);
                size_kept = length-set p.parent r2 r1;
                merged = second_below;
              })
        | inr f ↦
            let l : r1 < length p.rank = omega (arith, l1, w.same_size) in
            let raised = get_or-set_same p.rank r1 (at p.rank r1 + 1) 0 l in
            let other = get_or-set_other p.rank r1 r2 (at p.rank r1 + 1) 0 apart in
            rw (e, f, link)
              (record {
                ranked =
                    Ranked-link r2 r1 w l2 l1 (Root-top g_root)
                      (length-set p.rank r1 (at p.rank r1 + 1))
                      (λ h n. get_or-set_other p.rank r1 h (at p.rank r1 + 1) 0 (λ m. n (sym m)))
                      (omega (arith, raised))
                      (rw (raised, other) (omega (arith, ltb-false→le _ _ e)));
                size_kept = length-set p.parent r2 r1;
                merged = second_below;
              })
      ]
    ]

  Joined-kept :
      {rank parent parent' : List ℕ} {g k a b : ℕ}
      → Ranked rank parent
      → ((h s : ℕ) → Root parent h s → Root parent' h s)
      → g < length parent
      → k < length parent
      → a < length parent
      → b < length parent
      → Joined parent' g k a b ↔ Joined parent g k a b
  Joined-kept w kept lg lk la lb = (
    (λ j. elim j [
      | inl x ↦ inl ((Same-kept w kept la lb).0 x)
      | inr (inl (x, y)) ↦ inr (inl ((Same-kept w kept la lg).0 x, (Same-kept w kept lb lk).0 y))
      | inr (inr (x, y)) ↦ inr (inr ((Same-kept w kept la lk).0 x, (Same-kept w kept lb lg).0 y))
    ]),
    (λ j. elim j [
      | inl x ↦ inl ((Same-kept w kept la lb).1 x)
      | inr (inl (x, y)) ↦ inr (inl ((Same-kept w kept la lg).1 x, (Same-kept w kept lb lk).1 y))
      | inr (inr (x, y)) ↦ inr (inr ((Same-kept w kept la lk).1 x, (Same-kept w kept lb lg).1 y))
    ]),
  )

  Joined-Same :
      {parent : List ℕ} {g k a b : ℕ} → Same parent g k → Joined parent g k a b → Same parent a b
  Joined-Same gk (inl x) = x
  Joined-Same gk (inr (inl (x, y))) = Same-trans x (Same-trans gk (Same-symm y))
  Joined-Same gk (inr (inr (x, y))) = Same-trans x (Same-trans (Same-symm gk) (Same-symm y))

  pub find_glyph-Finds :
      (p : GlyphPartition hb) (g : ℕ)
      → Ranked p.rank p.parent
      → g < size hb p
      → (r : ℕ) × (parent' : List ℕ) × (find_glyph hb p g
          ≡ some (ok r, record p { parent = parent' }))
        × Root p.parent g r
        × Compressed p.rank p.parent parent'
  unfolding find_glyph
  find_glyph-Finds p g w bound =
      let (r, parent', goes, found, kept) =
        find-Finds (size hb p + 1) p.rank p.parent g w bound
          (omega (arith, above-length p.rank (at p.rank g), w.same_size)) in
      rw (goes, find_glyph) (r, parent', refl, found, kept)

  -- The sets of `p`, for parents that have the same roots and two glyphs whose roots are joined.
  module _ (p q : GlyphPartition hb) (g k r1 r2 : ℕ) (w : Ranked p.rank p.parent)
      (kept : (h s : ℕ) → Root p.parent h s → Root q.parent h s) (ranked : Ranked q.rank q.parent)
      (same_size : size hb q ≡ size hb p) (lg : g < size hb p) (lk : k < size hb p)
      (g_root : Root q.parent g r1) (k_root : Root q.parent k r2) where
    pub union_roots-Merged : Merged p (union_roots hb q r1 r2) g k
    unfolding union_roots
    union_roots-Merged = elim (Bool-cases (r1 == r2)) [
      | inl e ↦
          let one : Same q.parent g k =
            (r1, g_root, subst (λ t. Root q.parent k t) (sym ((==_iff r1 r2).0 e)) k_root) in
          rw (e, union_roots)
            (record {
              ranked = ranked;
              size_kept = same_size;
              merged = λ a b la lb. (
                (λ s. inl ((Same-kept w kept la lb).0 s)),
                (λ j. (Same-kept w kept la lb).1 (Joined-Same ((Same-kept w kept lg lk).0 one) j)),
              );
            })
      | inr e ↦
          let m =
            link-Merged q g k r1 r2 ranked (Root-bound ranked g_root (omega (arith, same_size)))
              (Root-bound ranked k_root (omega (arith, same_size))) g_root k_root
              (λ same. ground arith) in
          rw (e, union_roots)
            (record {
              ranked = m.ranked;
              size_kept = m.size_kept ∙ same_size;
              merged = λ a b la lb.
                  let linked = m.merged a b (omega (arith, same_size)) (omega (arith, same_size)) in
                  let back = Joined-kept {g = g} {k = k} w kept lg lk la lb in
                  ((λ s. back.0 (linked.0 s)), (λ j. linked.1 (back.1 j)));
            })
    ]

  pub union_found-union_roots :
      (p q r : GlyphPartition hb) (g k r1 r2 : ℕ)
      → find_glyph hb p g ≡ some (ok r1, q)
      → find_glyph hb q k ≡ some (ok r2, r)
      → union_found hb p g k ≡ some (ok tt, union_roots hb r r1 r2)
  unfolding union_found bind
  union_found-union_roots p q r g k r1 r2 e f =
      ap
        (λ x.
          bind hb x
            (λ a s. bind hb (find_glyph hb s k) (λ b t. some (ok tt, union_roots hb t a b))))
        e
      ∙ ap (λ x. bind hb x (λ b t. some (ok tt, union_roots hb t r1 b))) f

  pub union_pair-Merged :
      (p : GlyphPartition hb) (g k : ℕ)
      → Ranked p.rank p.parent
      → g < size hb p
      → k < size hb p
      → (q : GlyphPartition hb) × (union_pair hb p g k ≡ some (ok tt, q)) × Merged p q g k
  unfolding union_pair
  union_pair-Merged p g k w lg lk =
      let (r1, parent1, goes1, found1, kept1) = find_glyph-Finds p g w lg in
      let q1 : GlyphPartition hb = record p { parent = parent1 } in
      let (r2, parent2, goes2, found2, kept2) =
        find_glyph-Finds q1 k kept1.ranked (omega (arith, kept1.size_kept)) in
      let q2 : GlyphPartition hb = record p { parent = parent2 } in
      (
        union_roots hb q2 r1 r2,
        if-false _ _ (lt→leb-false (size hb p) g lg)
            ∙ if-false _ _ (lt→leb-false (size hb p) k lk)
            ∙ union_found-union_roots p q1 q2 g k r1 r2 goes1 goes2,
        union_roots-Merged p q2 g k r1 r2 w (λ h s x. kept2.roots_kept (kept1.roots_kept x))
            kept2.ranked (kept2.size_kept ∙ kept1.size_kept) lg lk
            (kept2.roots_kept (kept1.roots_kept found1)) (kept2.roots_kept found2),
      )
