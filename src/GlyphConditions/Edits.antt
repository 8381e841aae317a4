-- ===== src/GlyphConditions/Edits.antt =====
-- InvalidateGlyphInformation, and operations in a row.
use ift_encoder.Prelude.{
  ℕ, ◌<◌, ◌≡◌, refl, ap, sym, ◌∙◌, Bool, true, false, not, ◌&&◌, ◌||◌, List, [], ◌∷◌, ◌==◌, length,
  Bool-cases, if-true, inl, inr, ==_iff, length-set, length-replicate, get_or-replicate, arith, All,
}
use ift_encoder.IntSet.Defs.{HbSet, mem}
use ift_encoder.Condition.Defs.{ActivationCondition, make_true}
use ift_encoder.GlyphConditions.Defs.{
  GlyphConditionSet, create, triggering_segments, condition_for, put_condition, put_glyphs,
  erase_from, set_condition, clear_conditions, subtract_glyphs, invalidate_glyphs,
  invalidate_glyph_segments, invalidate_segments,
}
use ift_encoder.GlyphConditions.Segments.{invalidate_segments-Synced}
use ift_encoder.GlyphConditions.Triggers.{has-triggering_segments}
use ift_encoder.GlyphConditions.Synced.{
  indexed, triggers, Synced, count, indexed-put_condition, triggers-put_same, triggers-put_other,
  triggers_of_conditions, set_condition-Synced, remove_from_glyphs-Synced, erase_from-conditions,
  insert_into-conditions,
}

both_cleared : (a b c d : Bool) → ((a && not (b && d)) && not (c && d)) ≡ (a && not ((b || c) && d))
both_cleared a b c d = ground arith

agree : (a t b : Bool) → (a ≡ true → b ≡ true → t ≡ true) → (a && not (t && b)) ≡ (a && not b)
agree true true true h = refl
agree true false true h = sym (h refl refl)
agree true t false h = ground arith
agree false t b h = refl

module _ (hb : HbSet) where
  open hb use {
    Set, empty, has, union, subtract, values, has_values, has_empty, has_union, has_subtract,
  }

  subtract_glyphs-conditions :
      (st : GlyphConditionSet hb) (ss : List ℕ) (glyphs : Set)
      → (subtract_glyphs hb st ss glyphs).gid_conditions ≡ st.gid_conditions
  unfolding subtract_glyphs put_glyphs
  subtract_glyphs-conditions st [] glyphs = refl
  subtract_glyphs-conditions st (s ∷ ss) glyphs =
      subtract_glyphs-conditions
        (put_glyphs hb st s (subtract (st.segment_to_gid_conditions s) glyphs)) ss glyphs

  indexed-put_glyphs :
      (st : GlyphConditionSet hb) (t : ℕ) (glyphs : Set) (s g : ℕ)
      → indexed hb (put_glyphs hb st t (subtract (st.segment_to_gid_conditions t) glyphs)) s g
        ≡ (indexed hb st s g && not (s == t && has glyphs g))
  unfolding put_glyphs
  indexed-put_glyphs st t glyphs s g = elim (Bool-cases (s == t)) [
    | inl e ↦
        ap (λ c. has c g)
          (if-true (subtract (st.segment_to_gid_conditions t) glyphs)
            (st.segment_to_gid_conditions s) e)
        ∙ has_subtract (st.segment_to_gid_conditions t) glyphs g
        ∙ ap (λ k. indexed hb st k g && not (has glyphs g)) (sym ((==_iff s t).0 e))
        ∙ rw e refl
    | inr e ↦ rw e (ground arith)
  ]

  indexed-subtract_glyphs :
      (st : GlyphConditionSet hb) (ss : List ℕ) (glyphs : Set) (s g : ℕ)
      → indexed hb (subtract_glyphs hb st ss glyphs) s g
        ≡ (indexed hb st s g && not (mem s ss && has glyphs g))
  unfolding subtract_glyphs
  indexed-subtract_glyphs st [] glyphs s g = ground arith
  indexed-subtract_glyphs st (t ∷ ss) glyphs s g =
      indexed-subtract_glyphs
        (put_glyphs hb st t (subtract (st.segment_to_gid_conditions t) glyphs)) ss glyphs s g
      ∙ rw (indexed-put_glyphs st t glyphs s g)
          (both_cleared (indexed hb st s g) (s == t) (mem s ss) (has glyphs g))

  triggers_of_true : (s : ℕ) → has (triggering_segments hb (make_true hb 0)) s ≡ false
  unfolding make_true
  triggers_of_true s = has-triggering_segments hb (make_true hb 0) s

  -- The conditions of the glyphs are cleared, and what triggered them is touched.
  record Cleared (st : GlyphConditionSet hb) (gids : List ℕ) (before : Set)
      (st' : GlyphConditionSet hb) (after : Set) : Type 0 where
    count_kept : count hb st' ≡ count hb st
    index_kept : (s g : ℕ) → indexed hb st' s g ≡ indexed hb st s g
    cleared : (s g : ℕ) → triggers hb st' s g ≡ (triggers hb st s g && not (mem g gids))
    grows : (s : ℕ) → has before s ≡ true → has after s ≡ true
    touches : (s g : ℕ) → mem g gids ≡ true → triggers hb st s g ≡ true → has after s ≡ true

  triggers-cleared :
      (st : GlyphConditionSet hb) (gid s g : ℕ)
      → gid < count hb st
      → triggers hb (put_condition hb st gid (make_true hb 0)) s g
        ≡ (triggers hb st s g && not (g == gid))
  triggers-cleared st gid s g low = elim (Bool-cases (g == gid)) [
    | inl e ↦
        ap (triggers hb (put_condition hb st gid (make_true hb 0)) s) ((==_iff g gid).0 e)
        ∙ triggers-put_same hb st gid (make_true hb 0) s low
        ∙ triggers_of_true s
        ∙ rw e (ground arith)
    | inr e ↦
        triggers-put_other hb st gid g (make_true hb 0) s (λ same. ground (arith, e))
        ∙ rw e (ground arith)
  ]

  put_condition-count :
      (st : GlyphConditionSet hb) (gid : ℕ) (c : ActivationCondition hb)
      → count hb (put_condition hb st gid c) ≡ count hb st
  unfolding put_condition
  put_condition-count st gid c = length-set st.gid_conditions gid c

  clear_conditions-Cleared :
      (st : GlyphConditionSet hb) (gids : List ℕ) (before : Set)
      → All (λ g. g < count hb st) gids
      → Cleared st gids before
          (clear_conditions hb st gids before).0
          (clear_conditions hb st gids before).1
  unfolding clear_conditions
  clear_conditions-Cleared st [] before low = record {
    count_kept = refl;
    index_kept = λ s g. refl;
    cleared = λ s g. ground arith;
    grows = λ s h. h;
    touches = λ s g h k. absurd (ground (arith, h));
  }
  clear_conditions-Cleared st (gid ∷ gids) before low =
      let put = put_condition hb st gid (make_true hb 0) in
      let now = union before (triggering_segments hb (condition_for hb st gid)) in
      let same = put_condition-count st gid (make_true hb 0) in
      let rest = clear_conditions-Cleared put gids now (rw same low.1) in
      record {
        count_kept = rest.count_kept ∙ same;
        index_kept =
            λ s g. rest.index_kept s g ∙ indexed-put_condition hb st gid (make_true hb 0) s g;
        cleared = λ s g. rest.cleared s g ∙ rw (triggers-cleared st gid s g low.0) (ground arith);
        grows = λ s h. rest.grows s (has_union before _ s ∙ rw h refl);
        touches = λ s g h k. elim (Bool-cases (g == gid)) [
          | inl e ↦ rest.grows s (
              has_union before (triggering_segments hb (condition_for hb st gid)) s
              ∙ ap (λ b. has before s || b) (sym (ap (triggers hb st s) ((==_iff g gid).0 e)) ∙ k)
              ∙ ground arith)
          | inr e ↦
              rest.touches s g (rw e at h) (triggers-cleared st gid s g low.0 ∙ rw (k, e) refl)
        ];
      }

  invalidate_glyphs-Synced :
      (st : GlyphConditionSet hb) (glyphs : Set)
      → All (λ g. g < count hb st) (values glyphs)
      → Synced hb st
      → Synced hb (invalidate_glyphs hb st glyphs)
        × (count hb (invalidate_glyphs hb st glyphs) ≡ count hb st)
  unfolding invalidate_glyphs
  invalidate_glyphs-Synced st glyphs low synced =
      let st' = (clear_conditions hb st (values glyphs) empty).0 in
      let touched = (clear_conditions hb st (values glyphs) empty).1 in
      let c = clear_conditions-Cleared st (values glyphs) empty low in
      (
        (λ s g.
            indexed-subtract_glyphs st' (values touched) glyphs s g
            ∙ rw (c.index_kept s g, synced s g, sym (has_values touched s))
                (agree (triggers hb st s g) (has touched s) (has glyphs g)
                  (λ a b. c.touches s g (sym (has_values glyphs g) ∙ b) a))
            ∙ ap (λ b. triggers hb st s g && not b) (has_values glyphs g)
            ∙ sym (c.cleared s g)
            ∙ sym (
                triggers_of_conditions hb (subtract_glyphs hb st' (values touched) glyphs) st' s g
                  (subtract_glyphs-conditions st' (values touched) glyphs))),
        ap length (subtract_glyphs-conditions st' (values touched) glyphs) ∙ c.count_kept,
      )

  set_condition-count :
      (st : GlyphConditionSet hb) (gid : ℕ) (c : ActivationCondition hb)
      → count hb (set_condition hb st gid c) ≡ count hb st
  unfolding set_condition
  set_condition-count st gid c =
      let old = values (triggering_segments hb (condition_for hb st gid)) in
      let erased = erase_from hb st gid old in
      ap length (
        insert_into-conditions hb (put_condition hb erased gid c) gid
          (values (triggering_segments hb c)))
      ∙ put_condition-count erased gid c
      ∙ ap length (erase_from-conditions hb st gid old)

  -- Calls of SetCondition and of InvalidateGlyphInformation for glyphs, for glyphs and segments, and for
  -- segments.
  pub data Edit : Type 0 where
    sets : ℕ → ActivationCondition hb → Edit
    invalidates : Set → Edit
    removes : Set → Set → Edit
    removes_all : Set → Edit

  unfoldable pub apply_edit : GlyphConditionSet hb → Edit → GlyphConditionSet hb
  apply_edit st (sets gid c) = set_condition hb st gid c
  apply_edit st (invalidates glyphs) = invalidate_glyphs hb st glyphs
  apply_edit st (removes glyphs segments) = invalidate_glyph_segments hb st glyphs segments
  apply_edit st (removes_all segments) = invalidate_segments hb st segments

  unfoldable pub apply_edits : GlyphConditionSet hb → List Edit → GlyphConditionSet hb
  unfolding apply_edit
  apply_edits st [] = st
  apply_edits st (e ∷ edits) = apply_edits (apply_edit st e) edits

  -- The glyphs of the edit are below the number of glyphs.
  abbrev pub Within : ℕ → Edit → Type 0
  Within n (sets gid c) = gid < n
  Within n (invalidates glyphs) = All (λ g. g < n) (values glyphs)
  Within n (removes glyphs segments) = All (λ g. g < n) (values glyphs)
  Within n (removes_all segments) = Unit

  apply_edit-Synced :
      (st : GlyphConditionSet hb) (e : Edit)
      → Within (count hb st) e
      → Synced hb st
      → Synced hb (apply_edit st e) × (count hb (apply_edit st e) ≡ count hb st)
  unfolding apply_edit invalidate_glyph_segments
  apply_edit-Synced st (sets gid c) low synced =
      (set_condition-Synced hb st gid c low synced, set_condition-count st gid c)
  apply_edit-Synced st (invalidates glyphs) low synced =
      invalidate_glyphs-Synced st glyphs low synced
  apply_edit-Synced st (removes glyphs segments) low synced =
      remove_from_glyphs-Synced hb st (values glyphs) segments low synced
  apply_edit-Synced st (removes_all segments) low synced =
      invalidate_segments-Synced hb st segments synced

  apply_edits-kept :
      (st : GlyphConditionSet hb) (edits : List Edit)
      → All (Within (count hb st)) edits
      → Synced hb st
      → Synced hb (apply_edits st edits)
  unfolding apply_edits
  apply_edits-kept st [] low synced = synced
  apply_edits-kept st (e ∷ edits) low synced =
      let (synced', same) = apply_edit-Synced st e low.0 synced in
      apply_edits-kept (apply_edit st e) edits (rw same low.1) synced'

  create-count : (n : ℕ) → count hb (create hb n) ≡ n
  unfolding create
  create-count n = length-replicate n (make_true hb 0)

  create-Synced : (n : ℕ) → Synced hb (create hb n)
  unfolding create condition_for
  create-Synced n s g =
      has_empty g
      ∙ sym (
          ap (λ c. has (triggering_segments hb c) s) (get_or-replicate n g (make_true hb 0))
          ∙ triggers_of_true s)

  -- From the constructor on, any calls of SetCondition and of the three forms of
  -- InvalidateGlyphInformation keep the index in step with the conditions: it has a glyph under a
  -- segment exactly if the condition of the glyph has the segment. The glyphs of the calls are
  -- below the number of glyphs.
  pub apply_edits-Synced :
      (num_glyphs : ℕ) (edits : List Edit)
      → All (Within num_glyphs) edits
      → Synced hb (apply_edits (create hb num_glyphs) edits)
  apply_edits-Synced n edits low =
      apply_edits-kept (create hb n) edits (rw (create-count n) low) (create-Synced n)
