-- ===== src/Condition/Runs.antt =====
-- Runs of the conditions' operations over sets as sorted lists, and the theorems at concrete inputs.
use ift_encoder.Prelude.{
  In, ◌↔◌, ℕ, ◌≡◌, refl, Bool, true, false, ◌&&◌, ◌||◌, [], ◌∷◌, map, arith, ◌==◌,
}
use ift_encoder.IntSet.{less}
use ift_encoder.IntSet.Laws.{hits, any_active}
use ift_encoder.IntSet.SortedList.{SortedList, sorted_lists, insert, insert_all, subset}
use ift_encoder.Condition.Defs.{
  ActivationCondition, composite_condition, or_segments, and_segments, and_condition, set_less,
  simplify, sort_by,
}
use ift_encoder.Condition.Combine.{or_condition, cross}
use ift_encoder.IntSet.{HbSet, intersects}
use ift_encoder.Condition.Rewrite.{
  replace_segments, remove_intersecting_subgroups, condition_intersects, non_composite_superset,
}
use ift_encoder.Condition.Semantics.{
  all_hit, activates, activates-and_condition, activates-composite_condition,
}
use ift_encoder.Condition.Disjunction.{activates-or_condition}
use ift_encoder.Condition.Groups.{redirected}
use ift_encoder.Condition.Replacement.{
  activates-replace_segments, remove_intersecting_subgroups_lem,
}
use ift_encoder.Condition.Superset.{non_composite_superset-activates}
use ift_encoder.Condition.Ordering.{condition_less, key, condition_less-key}
use ift_encoder.Condition.Shape.{is_simple, non_composite_superset-is_simple}

abbrev set_1_2 : SortedList
set_1_2 = (1 ∷ 2 ∷ [], omega arith)

abbrev set_2_3 : SortedList
set_2_3 = (2 ∷ 3 ∷ [], omega arith)

abbrev set_2 : SortedList
set_2 = (2 ∷ [], omega arith)

-- (s1 OR s2) AND (s2 OR s3)
abbrev mixed : ActivationCondition sorted_lists
mixed = composite_condition sorted_lists (set_2_3 ∷ set_1_2 ∷ []) 7 false

abbrev either : ActivationCondition sorted_lists
either = or_segments sorted_lists set_1_2 5 false

abbrev only_two : ℕ → Bool
only_two x = x == 2

activates-and_condition_example :
    activates sorted_lists only_two (and_condition sorted_lists mixed either)
    ≡ (activates sorted_lists only_two mixed && activates sorted_lists only_two either)
activates-and_condition_example = activates-and_condition sorted_lists only_two mixed either

activates-or_condition_example :
    activates sorted_lists only_two (or_condition sorted_lists mixed either)
    ≡ (activates sorted_lists only_two mixed || activates sorted_lists only_two either)
activates-or_condition_example = activates-or_condition sorted_lists only_two mixed either

activates-composite_condition_example :
    activates sorted_lists only_two mixed ≡ all_hit sorted_lists only_two (set_2_3 ∷ set_1_2 ∷ [])
activates-composite_condition_example =
    activates-composite_condition sorted_lists only_two (set_2_3 ∷ set_1_2 ∷ []) 7 false

activates-replace_segments_example :
    activates sorted_lists only_two (replace_segments sorted_lists mixed 1 set_2_3)
    ≡ activates sorted_lists (redirected sorted_lists only_two 1 set_2_3) mixed
activates-replace_segments_example =
    activates-replace_segments sorted_lists only_two 1 set_2_3 mixed

remove_intersecting_subgroups_lem_example :
    ((d : HbSet.Set sorted_lists)
      → In d (remove_intersecting_subgroups sorted_lists mixed set_2).conditions
        ↔ (In d mixed.conditions × (intersects sorted_lists d set_2 ≡ false)))
    × (condition_intersects sorted_lists
          (remove_intersecting_subgroups sorted_lists mixed set_2)
          set_2
        ≡ false)
    × (activates sorted_lists only_two mixed ≡ true
        → activates sorted_lists only_two (remove_intersecting_subgroups sorted_lists mixed set_2)
          ≡ true)
remove_intersecting_subgroups_lem_example =
    remove_intersecting_subgroups_lem sorted_lists only_two mixed set_2

mixed-activates : activates sorted_lists only_two mixed ≡ true
unfolding all_hit hits any_active
mixed-activates =
    activates-composite_condition sorted_lists only_two (set_2_3 ∷ set_1_2 ∷ []) 7 false

-- (s1 AND s2) OR (s2 AND s3) is s2 AND (s1 OR s3).
or_of_ands :
    map
      (λ s. s.0)
      (or_condition sorted_lists
        (and_segments sorted_lists set_1_2 1)
        (and_segments sorted_lists set_2_3 1)).conditions
    ≡ (1 ∷ 3 ∷ []) ∷ (2 ∷ []) ∷ []
unfolding or_condition and_segments set_less less insert insert_all simplify sort_by subset cross
or_of_ands = refl

non_composite_superset-activates_example :
    activates sorted_lists only_two (non_composite_superset sorted_lists mixed) ≡ true
non_composite_superset-activates_example =
    non_composite_superset-activates sorted_lists only_two mixed mixed-activates

non_composite_superset-is_simple_example :
    is_simple sorted_lists (non_composite_superset sorted_lists mixed) ≡ true
non_composite_superset-is_simple_example = non_composite_superset-is_simple sorted_lists mixed

condition_less-key_example :
    condition_less sorted_lists either mixed
    ≡ less (key sorted_lists either) (key sorted_lists mixed)
condition_less-key_example = condition_less-key sorted_lists either mixed

-- One group comes before two.
condition_less-run : condition_less sorted_lists either mixed ≡ true
unfolding condition_less or_segments composite_condition simplify subset
condition_less-run = refl
