-- ===== src/GlyphConditions/Defs.antt =====
-- The classes GlyphConditions, whose only field is a condition, and GlyphConditionSet. The index is a
-- function, which gives the empty set for a segment that the hash map does not have. IntSet::erase
-- is written as the subtraction of a set of one value.
use ift_encoder.Prelude.{
  ℕ, Bool, false, not, ◌&&◌, List, [], ◌∷◌, none, some, ◌==◌, if◌then◌else◌, length, get_or, set,
  replicate,
}
use ift_encoder.IntSet.Defs.{HbSet}
use ift_encoder.Condition.Defs.{
  ActivationCondition, make_true, exclusive_segment, or_segments, composite_condition,
  and_condition, singleton, is_always_true, is_purely_disjunctive,
}
use ift_encoder.Condition.Combine.{or_condition}

module _ (hb : HbSet) where
  open hb use {Set, empty, values, add, union, subtract, population, get_min, is_empty}

  -- The loop of TriggeringSegments.
  unfoldable pub union_triggers : List Set → Set → Set
  union_triggers [] out = out
  union_triggers (segments ∷ groups) out = union_triggers groups (union out segments)

  unfoldable pub triggering_segments : ActivationCondition hb → Set
  unfolding union_triggers
  triggering_segments c = union_triggers c.conditions empty

  -- The loop of RemoveSegments over the groups.
  unfoldable pub subtract_groups : List Set → Set → List Set
  subtract_groups [] segments = []
  subtract_groups (sub_group ∷ groups) segments =
      if is_empty (subtract sub_group segments)
      then subtract_groups groups segments
      else subtract sub_group segments ∷ subtract_groups groups segments

  -- `*set.min()`
  unfoldable pub min_of : Set → ℕ
  min_of s = elim (get_min s) [ none ↦ 0 | some x ↦ x ]

  -- The condition that RemoveSegments chooses for the groups that are left.
  unfoldable pub condition_of_groups : Bool → List Set → ActivationCondition hb
  unfolding min_of
  condition_of_groups was_disjunctive [] = make_true hb 0
  condition_of_groups was_disjunctive (group ∷ groups) =
      if not was_disjunctive && (length groups == 0 && population group == 1)
      then exclusive_segment hb (min_of group) 0
      else if was_disjunctive
      then or_segments hb group 0 false
      else composite_condition hb (group ∷ groups) 0 false

  -- GlyphConditions::RemoveSegments: the new condition and the segments that it has lost.
  unfoldable pub remove_segments : ActivationCondition hb → Set → ActivationCondition hb × Set
  unfolding subtract_groups condition_of_groups triggering_segments
  remove_segments c segments =
      let c' =
        condition_of_groups (is_purely_disjunctive hb c) (subtract_groups c.conditions segments) in
      (c', subtract (triggering_segments c) (triggering_segments c'))

  pub record GlyphConditionSet : Type 0 where
    pub gid_conditions : List (ActivationCondition hb)
    pub segment_to_gid_conditions : ℕ → Set

  unfoldable pub create : ℕ → GlyphConditionSet
  create num_glyphs = record {
    gid_conditions = replicate num_glyphs (make_true hb 0);
    segment_to_gid_conditions = λ segment. empty;
  }

  unfoldable pub condition_for : GlyphConditionSet → ℕ → ActivationCondition hb
  condition_for st gid = get_or st.gid_conditions gid (make_true hb 0)

  -- An assignment to the condition of a glyph.
  unfoldable pub put_condition : GlyphConditionSet → ℕ → ActivationCondition hb → GlyphConditionSet
  put_condition st gid c = record st { gid_conditions = set st.gid_conditions gid c }

  -- An assignment to the glyphs of a segment.
  unfoldable pub put_glyphs : GlyphConditionSet → ℕ → Set → GlyphConditionSet
  put_glyphs st segment glyphs = record st {
    segment_to_gid_conditions =
        λ s. if s == segment then glyphs else st.segment_to_gid_conditions s;
  }

  unfoldable pub insert_glyph : GlyphConditionSet → ℕ → ℕ → GlyphConditionSet
  unfolding put_glyphs
  insert_glyph st gid segment =
      put_glyphs st segment (add (st.segment_to_gid_conditions segment) gid)

  unfoldable pub erase_glyph : GlyphConditionSet → ℕ → ℕ → GlyphConditionSet
  unfolding put_glyphs
  erase_glyph st gid segment =
      put_glyphs st segment (subtract (st.segment_to_gid_conditions segment) (singleton hb gid))

  unfoldable pub add_and_condition : GlyphConditionSet → ℕ → ℕ → GlyphConditionSet
  unfolding insert_glyph put_condition condition_for
  add_and_condition st gid segment =
      let condition = condition_for st gid in
      let exclusive = exclusive_segment hb segment 0 in
      insert_glyph
        (put_condition st gid
          (if is_always_true hb condition then exclusive else and_condition hb condition exclusive))
        gid segment

  unfoldable pub add_or_condition : GlyphConditionSet → ℕ → ℕ → GlyphConditionSet
  unfolding insert_glyph put_condition condition_for
  add_or_condition st gid segment =
      let condition = condition_for st gid in
      let single = or_segments hb (singleton hb segment) 0 false in
      insert_glyph
        (put_condition st gid
          (if is_always_true hb condition then single else or_condition hb condition single))
        gid segment

  unfoldable pub erase_from : GlyphConditionSet → ℕ → List ℕ → GlyphConditionSet
  unfolding erase_glyph
  erase_from st gid [] = st
  erase_from st gid (s ∷ segments) = erase_from (erase_glyph st gid s) gid segments

  unfoldable pub insert_into : GlyphConditionSet → ℕ → List ℕ → GlyphConditionSet
  unfolding insert_glyph
  insert_into st gid [] = st
  insert_into st gid (s ∷ segments) = insert_into (insert_glyph st gid s) gid segments

  unfoldable pub set_condition : GlyphConditionSet → ℕ → ActivationCondition hb → GlyphConditionSet
  unfolding erase_from insert_into put_condition condition_for triggering_segments
  set_condition st gid condition =
      let erased = erase_from st gid (values (triggering_segments (condition_for st gid))) in
      insert_into (put_condition erased gid condition) gid (values (triggering_segments condition))

  -- The first loop of InvalidateGlyphInformation for glyphs, with the segments that it touches.
  unfoldable pub clear_conditions : GlyphConditionSet → List ℕ → Set → GlyphConditionSet × Set
  unfolding put_condition condition_for triggering_segments
  clear_conditions st [] touched = (st, touched)
  clear_conditions st (gid ∷ gids) touched =
      clear_conditions (put_condition st gid (make_true hb 0)) gids
        (union touched (triggering_segments (condition_for st gid)))

  unfoldable pub subtract_glyphs : GlyphConditionSet → List ℕ → Set → GlyphConditionSet
  unfolding put_glyphs
  subtract_glyphs st [] glyphs = st
  subtract_glyphs st (s ∷ segments) glyphs =
      subtract_glyphs (put_glyphs st s (subtract (st.segment_to_gid_conditions s) glyphs)) segments
        glyphs

  unfoldable pub invalidate_glyphs : GlyphConditionSet → Set → GlyphConditionSet
  unfolding clear_conditions subtract_glyphs
  invalidate_glyphs st glyphs =
      let (cleared, touched) = clear_conditions st (values glyphs) empty in
      subtract_glyphs cleared (values touched) glyphs

  unfoldable pub remove_segments_from_glyph : GlyphConditionSet → ℕ → Set → GlyphConditionSet
  unfolding remove_segments erase_from put_condition condition_for
  remove_segments_from_glyph st gid segments =
      let (condition, removed) = remove_segments (condition_for st gid) segments in
      erase_from (put_condition st gid condition) gid (values removed)

  unfoldable pub remove_from_glyphs : GlyphConditionSet → List ℕ → Set → GlyphConditionSet
  unfolding remove_segments_from_glyph
  remove_from_glyphs st [] segments = st
  remove_from_glyphs st (gid ∷ gids) segments =
      remove_from_glyphs (remove_segments_from_glyph st gid segments) gids segments

  -- InvalidateGlyphInformation for glyphs and segments.
  unfoldable pub invalidate_glyph_segments : GlyphConditionSet → Set → Set → GlyphConditionSet
  unfolding remove_from_glyphs
  invalidate_glyph_segments st glyphs segments = remove_from_glyphs st (values glyphs) segments

  -- The first loop of InvalidateGlyphInformation for segments, with the glyphs that it touches.
  unfoldable pub clear_segments : GlyphConditionSet → List ℕ → Set → GlyphConditionSet × Set
  unfolding put_glyphs
  clear_segments st [] touched = (st, touched)
  clear_segments st (s ∷ segments) touched =
      clear_segments (put_glyphs st s empty) segments
        (union touched (st.segment_to_gid_conditions s))

  unfoldable pub invalidate_segments : GlyphConditionSet → Set → GlyphConditionSet
  unfolding clear_segments remove_from_glyphs
  invalidate_segments st segments =
      let (cleared, touched) = clear_segments st (values segments) empty in
      remove_from_glyphs cleared (values touched) segments
