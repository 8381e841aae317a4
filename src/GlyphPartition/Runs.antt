-- ===== src/GlyphPartition/Runs.antt =====
-- Runs of the partition's operations over sets as sorted lists, and the theorems at concrete inputs.
use ift_encoder.Prelude.{ℕ, ◌<◌, ◌≡◌, refl, ◌↔◌, true, false, List, [], ◌∷◌, some, none, arith}
use ift_encoder.IntSet.SortedList.{SortedList, sorted_lists, insert}
use ift_encoder.IntSet.Defs.{mem}
use ift_encoder.GlyphPartition.Defs.{
  StatusOr, ok, err, out_of_bounds, GlyphPartition, Run, size, create, assign, union_set,
  glyphs_for,
}
use ift_encoder.GlyphPartition.Roots.{Root}
use ift_encoder.GlyphPartition.Same.{Same}
use ift_encoder.GlyphPartition.Sets.{Collected, union_set-Collected}
use ift_encoder.GlyphPartition.WellFormed.{WellFormed, glyphs_for-Same}
use ift_encoder.GlyphPartition.Reachable.{
  Reachable, created, united_set, listed, Reachable-WellFormed, create-WellFormed, assign-stale,
}

abbrev glyphs_1_3 : SortedList
glyphs_1_3 = (1 ∷ 3 ∷ [], omega arith)

abbrev fresh : GlyphPartition sorted_lists
fresh = create sorted_lists 4

-- The glyphs 1 and 3 are joined.
abbrev joined : GlyphPartition sorted_lists
joined = record {
  rank = 0 ∷ 1 ∷ 0 ∷ 0 ∷ [];
  parent = 0 ∷ 1 ∷ 2 ∷ 1 ∷ [];
  cache_valid = false;
  rep_to_set = [];
  non_identity_groups = [];
}

union_set-run : union_set sorted_lists fresh glyphs_1_3 ≡ some (ok tt, joined)
unfolding union_set create
union_set-run = refl

union_set-out :
    union_set sorted_lists fresh (9 ∷ [], omega arith) ≡ some (err (out_of_bounds 9), fresh)
unfolding union_set create
union_set-out = refl

abbrev state_of : {A : Type 0} → Run sorted_lists A → GlyphPartition sorted_lists
state_of none = joined
state_of (some (status, q)) = q

abbrev status_of : Run sorted_lists SortedList → StatusOr SortedList
status_of none = ok glyphs_1_3
status_of (some (status, q)) = status

-- The values of the set that a call returns.
abbrev answer : Run sorted_lists SortedList → List ℕ
answer (some (ok s, q)) = s.0
answer _ = []

-- The state behind a call of GlyphsFor.
abbrev cached : GlyphPartition sorted_lists
cached = state_of (glyphs_for sorted_lists joined 3)

glyphs_for-run : answer (glyphs_for sorted_lists joined 3) ≡ 1 ∷ 3 ∷ []
unfolding glyphs_for insert
glyphs_for-run = refl

cached-run :
    glyphs_for sorted_lists joined 3 ≡ some (status_of (glyphs_for sorted_lists joined 3), cached)
unfolding glyphs_for
cached-run = refl

joined-Reachable : Reachable sorted_lists joined
joined-Reachable = united_set fresh joined glyphs_1_3 (ok tt) (created 4) union_set-run

cached-Reachable : Reachable sorted_lists cached
cached-Reachable =
    listed joined cached 3 (status_of (glyphs_for sorted_lists joined 3)) joined-Reachable
      cached-run

fresh-WellFormed : WellFormed sorted_lists fresh
fresh-WellFormed = create-WellFormed sorted_lists 4

fresh-size : size sorted_lists fresh ≡ 4
unfolding create
fresh-size = refl

union_set-Collected_example :
    (q : GlyphPartition sorted_lists) × (union_set sorted_lists fresh glyphs_1_3 ≡ some (ok tt, q))
    × Collected sorted_lists fresh q (1 ∷ 3 ∷ [])
union_set-Collected_example =
    union_set-Collected sorted_lists fresh glyphs_1_3 fresh-WellFormed.ranked
      (omega (arith, fresh-size), (omega (arith, fresh-size), tt))

glyphs_for-Same_example :
    (s : SortedList) × (q : GlyphPartition sorted_lists) × (glyphs_for sorted_lists joined 3
      ≡ some (ok s, q))
    × ((x : ℕ) → (mem x s.0 ≡ true) ↔ ((x < 4) × Same joined.parent x 3))
    × WellFormed sorted_lists q
glyphs_for-Same_example =
    glyphs_for-Same sorted_lists joined 3 (Reachable-WellFormed sorted_lists joined-Reachable)
      (omega arith)

Reachable-WellFormed_example : WellFormed sorted_lists cached
Reachable-WellFormed_example = Reachable-WellFormed sorted_lists cached-Reachable

-- The glyphs 1 and 3 are joined and cached; then the partition is overwritten by one without joined
-- glyphs.
stale-run : answer (glyphs_for sorted_lists (assign sorted_lists cached fresh) 1) ≡ 1 ∷ 3 ∷ []
unfolding glyphs_for assign create insert
stale-run = refl

right-run : answer (glyphs_for sorted_lists fresh 1) ≡ 1 ∷ []
unfolding glyphs_for create insert
right-run = refl

cached_valid : cached.cache_valid ≡ true
unfolding glyphs_for
cached_valid = refl

assign-stale_example :
    (rep : ℕ) × (s : SortedList) × (q : GlyphPartition sorted_lists) × Root fresh.parent 1 rep
    × (glyphs_for sorted_lists (assign sorted_lists cached fresh) 1 ≡ some (ok s, q))
    × ((x : ℕ) → (mem x s.0 ≡ true) ↔ ((x < size sorted_lists cached) × Root cached.parent x rep))
assign-stale_example =
    assign-stale sorted_lists cached fresh 1 (Reachable-WellFormed sorted_lists cached-Reachable)
      fresh-WellFormed cached_valid (omega (arith, fresh-size))
