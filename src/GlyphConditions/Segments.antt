-- ===== src/GlyphConditions/Segments.antt =====
-- InvalidateGlyphInformation for segments, which clears the index first.
use mathlib.Core.Path.{subst}
use ift_encoder.Prelude.{
  ℕ, zero, suc, ltb, ltb→lt, ltb-false→le, &&-true, ◌≤◌, ◌<◌, ◌≡◌, ◌≢◌, refl, ap, sym, ◌∙◌, Bool,
  true, false, not, ◌&&◌, ◌||◌, List, [], ◌∷◌, ◌==◌, length, get_or, Bool-cases, if-true, inl, inr,
  ==_iff, length-set, arith, All,
}
use ift_encoder.IntSet.Defs.{HbSet, mem}
use ift_encoder.Condition.Defs.{ActivationCondition, make_true}
use ift_encoder.GlyphConditions.Defs.{
  GlyphConditionSet, triggering_segments, condition_for, put_condition, put_glyphs, erase_from,
  remove_segments, remove_segments_from_glyph, remove_from_glyphs, clear_segments,
  invalidate_segments,
}
use ift_encoder.GlyphConditions.Triggers.{
  has-triggering_segments, remove_segments-subset, remove_segments-without, has-removed,
}
use ift_encoder.GlyphConditions.Synced.{
  indexed, triggers, Synced, count, indexed-put_condition, triggers-put_same, triggers-put_other,
  triggers_of_conditions, indexed-erase_from, erase_from-conditions,
}

lessened_without :
    (a b r n w d : Bool)
    → a ≡ b
    → r ≡ (b && not n)
    → (n ≡ true → b ≡ true)
    → d ≡ true
    → ((a && not w) && not (r && d)) ≡ (n && not w)
lessened_without a b r n w d same removed subset e = ground (arith, same, removed, subset, e)

clean_and : (a b : Bool) → (a ≡ true → b ≡ false) → (a && not b) ≡ a
clean_and true b h = rw (h refl) refl
clean_and false b h = refl

module _ (hb : HbSet) where
  open hb use {
    Set, empty, has, union, subtract, values, has_values, has_empty, has_union, has_subtract,
  }

  put_count :
      (st : GlyphConditionSet hb) (gid : ℕ) (c : ActivationCondition hb)
      → count hb (put_condition hb st gid c) ≡ count hb st
  unfolding put_condition
  put_count st gid c = length-set st.gid_conditions gid c

  module _ (segments : Set) where
    -- The index lacks the segments.
    abbrev Without : GlyphConditionSet hb → Type 0
    Without st = (s g : ℕ) → indexed hb st s g ≡ (triggers hb st s g && not (has segments s))

    -- The condition of the glyph has none of the segments.
    abbrev Clean : GlyphConditionSet hb → ℕ → Type 0
    Clean st g = (s : ℕ) → triggers hb st s g ≡ true → has segments s ≡ false

    record Step (st : GlyphConditionSet hb) (gid : ℕ) (st' : GlyphConditionSet hb) : Type 0 where
      count_kept : count hb st' ≡ count hb st
      without : Without st → Without st'
      cleaned : Clean st' gid
      kept : (g s : ℕ) → gid ≢ g → triggers hb st' s g ≡ triggers hb st s g

    remove_segments_from_glyph-Step :
        (st : GlyphConditionSet hb) (gid : ℕ)
        → gid < count hb st
        → Step st gid (remove_segments_from_glyph hb st gid segments)
    unfolding remove_segments_from_glyph
    remove_segments_from_glyph-Step st gid low =
        let c = condition_for hb st gid in
        let c' = (remove_segments hb c segments).0 in
        let removed = (remove_segments hb c segments).1 in
        let put = put_condition hb st gid c' in
        let done = erase_from hb put gid (values removed) in
        let conditions : (s g : ℕ) → triggers hb done s g ≡ triggers hb put s g = λ s g.
          triggers_of_conditions hb done put s g
            (erase_from-conditions hb put gid (values removed)) in
        record {
          count_kept =
              ap length (erase_from-conditions hb put gid (values removed)) ∙ put_count st gid c';
          without = λ w s g.
              let index : indexed hb done s g ≡ (
                  (triggers hb st s g && not (has segments s)) && not (has removed s && g == gid)) =
                indexed-erase_from hb put gid (values removed) s g
                ∙ rw (indexed-put_condition hb st gid c' s g, sym (has_values removed s), w s g)
                    refl in
              elim (Bool-cases (g == gid)) [
                | inl e ↦
                    let same = (==_iff g gid).0 e in
                    index
                    ∙ lessened_without (triggers hb st s g) (has (triggering_segments hb c) s)
                        (has removed s) (has (triggering_segments hb c') s) (has segments s)
                        (g == gid) (ap (triggers hb st s) same) (has-removed hb c segments s)
                        (remove_segments-subset hb c segments s) e
                    ∙ ap (λ b. b && not (has segments s))
                        (sym (
                          conditions s g
                          ∙ ap (triggers hb put s) same
                          ∙ triggers-put_same hb st gid c' s low))
                | inr e ↦
                    index
                    ∙ rw e (ground arith)
                    ∙ ap (λ b. b && not (has segments s))
                        (sym (
                          conditions s g
                          ∙ triggers-put_other hb st gid g c' s (λ same. ground (arith, e))))
              ];
          cleaned = λ s h.
              remove_segments-without hb c segments s
                (sym (conditions s gid ∙ triggers-put_same hb st gid c' s low) ∙ h);
          kept = λ g s other. conditions s g ∙ triggers-put_other hb st gid g c' s other;
        }

    record Swept (st : GlyphConditionSet hb) (gids : List ℕ) (st' : GlyphConditionSet hb)
        : Type 0 where
      count_kept : count hb st' ≡ count hb st
      without : Without st → Without st'
      cleaned : (g : ℕ) → mem g gids ≡ true → Clean st' g
      stays_clean : (g : ℕ) → Clean st g → Clean st' g

    remove_from_glyphs-Swept :
        (st : GlyphConditionSet hb) (gids : List ℕ)
        → All (λ g. g < count hb st) gids
        → Swept st gids (remove_from_glyphs hb st gids segments)
    unfolding remove_from_glyphs
    remove_from_glyphs-Swept st [] low = record {
      count_kept = refl;
      without = λ w. w;
      cleaned = λ g h. absurd (ground (arith, h));
      stays_clean = λ g c. c;
    }
    remove_from_glyphs-Swept st (gid ∷ gids) low =
        let one = remove_segments_from_glyph-Step st gid low.0 in
        let rest =
          remove_from_glyphs-Swept (remove_segments_from_glyph hb st gid segments) gids
            (rw one.count_kept low.1) in
        record {
          count_kept = rest.count_kept ∙ one.count_kept;
          without = λ w. rest.without (one.without w);
          cleaned = λ g h. elim (Bool-cases (g == gid)) [
            | inl e ↦ rest.stays_clean g (
                subst (Clean (remove_segments_from_glyph hb st gid segments))
                  (sym ((==_iff g gid).0 e)) one.cleaned)
            | inr e ↦ rest.cleaned g (rw e at h)
          ];
          stays_clean = λ g c. rest.stays_clean g (elim (Bool-cases (g == gid)) [
            | inl e ↦
                subst (Clean (remove_segments_from_glyph hb st gid segments))
                  (sym ((==_iff g gid).0 e)) one.cleaned
            | inr e ↦ (λ s h. c s (sym (one.kept g s (λ same. ground (arith, e))) ∙ h))
          ]);
        }

  -- The index is cleared for the values, and what it had is touched.
  record Emptied (st : GlyphConditionSet hb) (ss : List ℕ) (before : Set)
      (st' : GlyphConditionSet hb) (after : Set) : Type 0 where
    conditions_kept : st'.gid_conditions ≡ st.gid_conditions
    emptied : (s g : ℕ) → indexed hb st' s g ≡ (indexed hb st s g && not (mem s ss))
    grows : (g : ℕ) → has before g ≡ true → has after g ≡ true
    touches : (s g : ℕ) → mem s ss ≡ true → indexed hb st s g ≡ true → has after g ≡ true
    bounded :
        (n : ℕ)
        → ((g : ℕ) → has before g ≡ true → g < n)
        → ((s g : ℕ) → indexed hb st s g ≡ true → g < n)
        → (g : ℕ) → has after g ≡ true
        → g < n

  indexed-put_empty :
      (st : GlyphConditionSet hb) (t s g : ℕ)
      → indexed hb (put_glyphs hb st t empty) s g ≡ (indexed hb st s g && not (s == t))
  unfolding put_glyphs
  indexed-put_empty st t s g = elim (Bool-cases (s == t)) [
    | inl e ↦
        ap (λ c. has c g) (if-true empty (st.segment_to_gid_conditions s) e)
        ∙ has_empty g
        ∙ rw e (ground arith)
    | inr e ↦ rw e (ground arith)
  ]

  put_glyphs-conditions :
      (st : GlyphConditionSet hb) (t : ℕ) (glyphs : Set)
      → (put_glyphs hb st t glyphs).gid_conditions ≡ st.gid_conditions
  unfolding put_glyphs
  put_glyphs-conditions st t glyphs = refl

  clear_segments-Emptied :
      (st : GlyphConditionSet hb) (ss : List ℕ) (before : Set)
      → Emptied st ss before (clear_segments hb st ss before).0 (clear_segments hb st ss before).1
  unfolding clear_segments
  clear_segments-Emptied st [] before = record {
    conditions_kept = refl;
    emptied = λ s g. ground arith;
    grows = λ g h. h;
    touches = λ s g h k. absurd (ground (arith, h));
    bounded = λ n below all g h. below g h;
  }
  clear_segments-Emptied st (t ∷ ss) before =
      let put = put_glyphs hb st t empty in
      let now = union before (st.segment_to_gid_conditions t) in
      let rest = clear_segments-Emptied put ss now in
      record {
        conditions_kept = rest.conditions_kept ∙ put_glyphs-conditions st t empty;
        emptied = λ s g. rest.emptied s g ∙ rw (indexed-put_empty st t s g) (ground arith);
        grows = λ g h. rest.grows g (has_union before _ g ∙ rw h refl);
        touches = λ s g h k. elim (Bool-cases (s == t)) [
          | inl e ↦ rest.grows g (
              has_union before (st.segment_to_gid_conditions t) g
              ∙ ap (λ b. has before g || b)
                  (sym (ap (λ x. indexed hb st x g) ((==_iff s t).0 e)) ∙ k)
              ∙ ground arith)
          | inr e ↦ rest.touches s g (rw e at h) (indexed-put_empty st t s g ∙ rw (k, e) refl)
        ];
        bounded = λ n below all g h.
            rest.bounded n
              (λ x in_now. elim (Bool-cases (has before x)) [
                | inl e ↦ below x e
                | inr e ↦
                    all t x
                      (rw e at (sym (has_union before (st.segment_to_gid_conditions t) x) ∙ in_now))
              ])
              (λ s x in_put.
                all s x
                  (&&-true (indexed hb st s x) (not (s == t))
                    (sym (indexed-put_empty st t s x) ∙ in_put)).0)
              g h;
      }

  All-mem : (n : ℕ) (xs : List ℕ) → ((x : ℕ) → mem x xs ≡ true → x < n) → All (λ x. x < n) xs
  All-mem n [] h = tt
  All-mem n (x ∷ xs) h = (h x (ground arith), All-mem n xs (λ y m. h y (ground (arith, m))))

  get_or-past :
      (xs : List (ActivationCondition hb)) (i : ℕ) (d : ActivationCondition hb)
      → length xs ≤ i
      → get_or xs i d ≡ d
  get_or-past [] i d h = refl
  get_or-past (x ∷ xs) zero d h = absurd (omega arith)
  get_or-past (x ∷ xs) (suc i) d h = get_or-past xs i d (omega arith)

  out_of_range :
      (st : GlyphConditionSet hb) (s g : ℕ) → count hb st ≤ g → triggers hb st s g ≡ false
  unfolding condition_for make_true
  out_of_range st s g far =
      ap (λ c. has (triggering_segments hb c) s)
        (get_or-past st.gid_conditions g (make_true hb 0) far)
      ∙ has-triggering_segments hb (make_true hb 0) s

  triggers-bound :
      (st : GlyphConditionSet hb) (s g : ℕ) → triggers hb st s g ≡ true → g < count hb st
  triggers-bound st s g h = elim (Bool-cases (ltb g (count hb st))) [
    | inl e ↦ ltb→lt g (count hb st) e
    | inr e ↦ absurd (ground (arith, h, out_of_range st s g (ltb-false→le g (count hb st) e)))
  ]

  pub invalidate_segments-Synced :
      (st : GlyphConditionSet hb) (segments : Set)
      → Synced hb st
      → Synced hb (invalidate_segments hb st segments)
        × (count hb (invalidate_segments hb st segments) ≡ count hb st)
  unfolding invalidate_segments
  invalidate_segments-Synced st segments synced =
      let st' = (clear_segments hb st (values segments) empty).0 in
      let touched = (clear_segments hb st (values segments) empty).1 in
      let c = clear_segments-Emptied st (values segments) empty in
      let same : (s g : ℕ) → triggers hb st' s g ≡ triggers hb st s g =
        λ s g. triggers_of_conditions hb st' st s g c.conditions_kept in
      let low : All (λ g. g < count hb st') (values touched) =
        All-mem (count hb st') (values touched) (λ g m. rw c.conditions_kept (
          c.bounded (count hb st) (λ x h. absurd (ground (arith, h, has_empty x)))
            (λ s x h. triggers-bound st s x (sym (synced s x) ∙ h)) g
            (has_values touched g ∙ m))) in
      let swept = remove_from_glyphs-Swept segments st' (values touched) low in
      let without : (s g : ℕ) → indexed hb st' s g ≡ (triggers hb st' s g && not (has segments s)) =
        λ s g. c.emptied s g ∙ rw (synced s g, same s g, has_values segments s) refl in
      (
        (λ s g.
            swept.without without s g
            ∙ clean_and (triggers hb (remove_from_glyphs hb st' (values touched) segments) s g)
                (has segments s)
                (elim (Bool-cases (has touched g)) [
                  | inl e ↦ swept.cleaned g (sym (has_values touched g) ∙ e) s
                  | inr e ↦
                      swept.stays_clean g
                        (λ t h. elim (Bool-cases (has segments t)) [
                          | inr f ↦ f
                          | inl f ↦ absurd (
                              ground (
                                arith,
                                e,
                                c.touches t g (sym (has_values segments t) ∙ f)
                                    (synced t g ∙ sym (same t g) ∙ h),
                              ))
                        ])
                        s
                ])),
        swept.count_kept ∙ ap length c.conditions_kept,
      )
