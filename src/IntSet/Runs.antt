-- ===== src/IntSet/Runs.antt =====
-- The intersection test on two sorted lists.
use ift_encoder.Prelude.{◌≡◌, ◌↔◌, [], ◌∷◌, true, arith}
use ift_encoder.IntSet.Defs.{intersects}
use ift_encoder.IntSet.Laws.{Meets, intersects_iff}
use ift_encoder.IntSet.SortedList.{SortedList, sorted_lists}

abbrev evens : SortedList
evens = (2 ∷ 4 ∷ 8 ∷ [], omega arith)

abbrev fourth : SortedList
fourth = (4 ∷ [], omega arith)

intersects_iff_example :
    (intersects sorted_lists evens fourth ≡ true) ↔ Meets sorted_lists evens fourth
intersects_iff_example = intersects_iff sorted_lists evens fourth
