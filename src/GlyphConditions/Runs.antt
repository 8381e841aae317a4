-- ===== src/GlyphConditions/Runs.antt =====
-- Runs of the condition set over sets as sorted lists, and the theorems at concrete inputs.
use ift_encoder.Prelude.{◌≡◌, refl, true, false, List, [], ◌∷◌, arith}
use ift_encoder.IntSet.SortedList.{SortedList, sorted_lists, insert, insert_all, select, subset}
use ift_encoder.Condition.Defs.{
  or_segments, and_segments, make_true, is_purely_disjunctive, is_always_true, set_less, singleton,
  simplify, and_condition, exclusive_segment,
}
use ift_encoder.Condition.Combine.{or_condition, cross}
use ift_encoder.IntSet.Defs.{less}
use ift_encoder.GlyphConditions.Defs.{
  GlyphConditionSet, create, invalidate_segments, set_condition, add_and_condition,
  add_or_condition, condition_for, triggering_segments, invalidate_glyphs,
  invalidate_glyph_segments,
}
use ift_encoder.GlyphConditions.Synced.{Synced, indexed, triggers}
use ift_encoder.GlyphConditions.Edits.{
  Edit, sets, invalidates, removes, removes_all, apply_edits, apply_edits-Synced,
}

abbrev segments_1_2 : SortedList
segments_1_2 = (1 ∷ 2 ∷ [], omega arith)

abbrev segments_2 : SortedList
segments_2 = (2 ∷ [], omega arith)

abbrev glyph_0 : SortedList
glyph_0 = (0 ∷ [], omega arith)

abbrev edits : List (Edit sorted_lists)
edits =
    sets 0 (or_segments sorted_lists segments_1_2 0 false)
    ∷ sets 1 (and_segments sorted_lists segments_1_2 0)
    ∷ removes glyph_0 segments_2
    ∷ invalidates glyph_0
    ∷ removes_all segments_2
    ∷ []

abbrev edited : GlyphConditionSet sorted_lists
edited = apply_edits sorted_lists (create sorted_lists 3) edits

apply_edits-Synced_example : Synced sorted_lists edited
apply_edits-Synced_example =
    apply_edits-Synced sorted_lists 3 edits
      (omega arith, (omega arith, ((omega arith, tt), ((omega arith, tt), (tt, tt)))))

edits-run : indexed sorted_lists edited 1 1 ≡ true
unfolding apply_edits create insert insert_all invalidate_glyphs invalidate_glyph_segments
    invalidate_segments exclusive_segment select set_condition and_segments or_segments make_true
    is_purely_disjunctive
edits-run = refl

-- The condition (s1 OR s2), then s1: the condition is s1, and the index still has the glyph under s2.
abbrev absorbed : GlyphConditionSet sorted_lists
absorbed =
    add_and_condition sorted_lists
      (add_or_condition sorted_lists (add_or_condition sorted_lists (create sorted_lists 1) 0 1) 0
        2)
      0 1

absorbed-indexed : indexed sorted_lists absorbed 2 0 ≡ true
unfolding add_and_condition add_or_condition create insert insert_all
absorbed-indexed = refl

absorbed-triggers : triggers sorted_lists absorbed 2 0 ≡ false
unfolding add_and_condition add_or_condition create condition_for triggering_segments insert
    insert_all is_always_true make_true or_segments or_condition set_less less singleton simplify
    cross and_condition exclusive_segment subset
absorbed-triggers = refl
