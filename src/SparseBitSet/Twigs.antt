-- ===== src/SparseBitSet/Twigs.antt =====
-- FindFilledTwigs and FindFilledNodes. An unordered_map from twigs to levels is an association list.
use Prim.Native.Nat.{bit_and, bit_or}
use ift_encoder.Prelude.{
  ℕ, zero, suc, ◌+◌, ◌-◌, ◌%◌, ◌^◌, ◌&&◌, ◌||◌, List, [], ◌∷◌, Option, none, some, ◌==◌, ltb,
  if◌then◌else◌, length,
}
use ift_encoder.Prelude.Bits.{shr, shl}
use ift_encoder.BitBuffer.BranchFactor.{
  BranchFactor, node_size, node_size_log2, twig_size, twig_size_log2,
}

abbrev pub u32 : ℕ → ℕ
u32 x = x % 2 ^ 32

-- kBFNodeSizeBitMask and kBFTwigSizeBitMask
abbrev pub node_size_bit_mask : BranchFactor → ℕ
node_size_bit_mask bf = node_size bf - 1

abbrev pub twig_size_bit_mask : BranchFactor → ℕ
twig_size_bit_mask bf = twig_size bf - 1

-- The loop over the codepoints, with the run that ends at `prev_cp`.
unfoldable pub scan_twigs : BranchFactor → ℕ → ℕ → List ℕ → List ℕ
scan_twigs bf prev_cp seq_len [] = []
scan_twigs bf prev_cp seq_len (cp ∷ cps) =
    let run = if cp == u32 (prev_cp + 1) then seq_len + 1 else 1 in
    let last_value_in_twig = bit_and cp (twig_size_bit_mask bf) == twig_size_bit_mask bf in
    let after_twig = scan_twigs bf cp 0 cps in
    let in_twig = scan_twigs bf cp run cps in
    if last_value_in_twig
    then (if run == twig_size bf then shr cp (twig_size_log2 bf) ∷ after_twig else after_twig)
    else in_twig

unfoldable pub find_filled_twigs : List ℕ → BranchFactor → List ℕ
unfolding scan_twigs
find_filled_twigs codepoints bf = scan_twigs bf (2 ^ 32 - 2) 0 codepoints

abbrev pub Levels : Type 0
Levels = List (ℕ × ℕ)

unfoldable pub level_of : Levels → ℕ → Option ℕ
level_of [] twig = none
level_of ((t, level) ∷ levels) twig = if t == twig then some level else level_of levels twig

unfoldable pub put_level : Levels → ℕ → ℕ → Levels
put_level [] twig level = (twig, level) ∷ []
put_level ((t, l) ∷ levels) twig level =
    let rest = put_level levels twig level in
    if t == twig then (t, level) ∷ levels else (t, l) ∷ rest

-- `filled_levels[twig]`: a missing key is 0.
unfoldable pub level_at : Levels → ℕ → ℕ
unfolding level_of
level_at levels twig = elim (level_of levels twig) [ none ↦ 0 | some level ↦ level ]

-- All the twigs start at the level of the twigs.
unfoldable pub start_levels : ℕ → List ℕ → Levels → Levels
unfolding put_level
start_levels level [] levels = levels
start_levels level (twig ∷ twigs) levels = start_levels level twigs (put_level levels twig level)

-- The innermost loop: `count` twigs from `twig` on. `none` stands for the access to `find(i)` when the
-- map has no such key, which is undefined.
unfoldable pub lower_range : ℕ → ℕ → ℕ → Levels → Option Levels
unfolding level_of put_level
lower_range zero twig layer levels = some levels
lower_range (suc count) twig layer levels = elim (level_of levels twig) [
  | none ↦ none
  | some level ↦ lower_range count (twig + 1) layer (put_level levels twig layer)
]

pub record Merging : Type 0 where
  pub levels : Levels
  pub prev_twig : ℕ
  pub seq_len : ℕ
  pub num_merged_nodes : ℕ

-- One round of the loop over the twigs. The node size is that of the layer, in twigs.
unfoldable pub merge_twig : ℕ → ℕ → ℕ → ℕ → Merging → Option Merging
unfolding level_at lower_range
merge_twig layer size mask twig m =
    let filled_level = level_at m.levels twig in
    let target_level = layer + 1 in
    let run =
      if twig == u32 (m.prev_twig + 1) && filled_level == target_level
      then m.seq_len + 1
      else if filled_level == target_level
      then 1
      else 0 in
    if bit_and twig mask == mask
    then (if run == size
        then elim (lower_range size (twig + 1 - size) layer m.levels) [
          | none ↦ none
          | some levels ↦ some (record {
            levels = levels;
            prev_twig = twig;
            seq_len = 0;
            num_merged_nodes = m.num_merged_nodes + 1;
          })
        ]
        else some (record m { prev_twig = twig; seq_len = 0 }))
    else some (record m { prev_twig = twig; seq_len = run })

unfoldable pub merge_twigs : ℕ → ℕ → ℕ → List ℕ → Merging → Option Merging
unfolding merge_twig
merge_twigs layer size mask [] m = some m
merge_twigs layer size mask (twig ∷ twigs) m = elim (merge_twig layer size mask twig m) [
  | none ↦ none
  | some m' ↦ merge_twigs layer size mask twigs m'
]

-- The loop over the layers, with one more than the layer that is next.
unfoldable pub merge_layers : BranchFactor → ℕ → ℕ → ℕ → List ℕ → Levels → Option Levels
unfolding merge_twigs
merge_layers bf zero size mask twigs levels = some levels
merge_layers bf (suc layer) size mask twigs levels =
    elim (merge_twigs layer size mask twigs
      (record { levels = levels; prev_twig = 2 ^ 32 - 2; seq_len = 0; num_merged_nodes = 0 })) [
        | none ↦ none
        | some m ↦
            let rest =
              merge_layers bf layer (shl size (node_size_log2 bf))
                (bit_or (shl mask (node_size_log2 bf)) (node_size_bit_mask bf)) twigs m.levels in
            if ltb m.num_merged_nodes (node_size bf) then some m.levels else rest
      ]

unfoldable pub find_filled_nodes : BranchFactor → ℕ → List ℕ → Option Levels
unfolding start_levels merge_layers
find_filled_nodes bf tree_height twigs =
    if ltb tree_height 2 || length twigs == 0
    then some []
    else merge_layers bf (tree_height - 2) (node_size bf) (node_size_bit_mask bf) twigs
        (start_levels (tree_height - 2) twigs [])
