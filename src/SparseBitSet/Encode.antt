-- ===== src/SparseBitSet/Encode.antt =====
-- EncodeSet and SparseBitSet::Encode with a given branch factor. The set is the list of its values, in
-- ascending order. `none` stands for an exception or an access out of range.
use ift_encoder.Prelude.{
  ℕ, zero, suc, ◌-◌, ◌^◌, Bool, true, false, ◌&&◌, List, [], ◌∷◌, Option, none, some, ◌==◌, ltb,
  if◌then◌else◌, length, get_or,
}
use ift_encoder.BitBuffer.BranchFactor.{BranchFactor, bf2, bf4, bf8, bf32, max_depth}
use ift_encoder.BitBuffer.Output.{BitOutputBuffer, create, to_string}
use ift_encoder.SparseBitSet.Depth.{tree_depth_for, tree_depth_for_values}
use ift_encoder.SparseBitSet.Twigs.{Levels, find_filled_twigs, find_filled_nodes}
use ift_encoder.SparseBitSet.Layers.{encode_layer}

-- The loop over the layers, with the number of layers that are left.
unfoldable pub encode_layers :
    ℕ → List ℕ → ℕ → BranchFactor → Levels → List ℕ → BitOutputBuffer → Option BitOutputBuffer
unfolding encode_layer
encode_layers zero codepoints tree_height bf filled_levels node_bases bit_buffer = some bit_buffer
encode_layers (suc left) codepoints tree_height bf filled_levels node_bases bit_buffer =
    elim (encode_layer codepoints (tree_height - suc left) tree_height bf filled_levels node_bases
      [] bit_buffer) [
        | none ↦ none
        | some (state, context) ↦
            let rest =
              encode_layers left codepoints tree_height bf filled_levels context.next_node_bases
                context.bit_buffer in
            if length context.next_node_bases == 0 then some context.bit_buffer else rest
      ]

unfoldable pub encode_set : List ℕ → BranchFactor → List ℕ → Option (List ℕ)
unfolding encode_layers tree_depth_for_values find_filled_nodes create
encode_set [] bf filled_twigs = some (0 ∷ [])
encode_set (cp ∷ cps) bf filled_twigs =
    let tree_height = tree_depth_for_values (cp ∷ cps) bf in
    elim (find_filled_nodes bf tree_height filled_twigs) [
      | none ↦ none
      | some filled_levels ↦
          elim (encode_layers tree_height (cp ∷ cps) tree_height bf filled_levels (0 ∷ [])
            (create bf tree_height)) [ none ↦ none | some bit_buffer ↦ some (to_string bit_buffer) ]
    ]

-- `set.max().value_or(HB_SET_VALUE_INVALID)`
unfoldable pub max_or_invalid : List ℕ → ℕ
max_or_invalid [] = 2 ^ 32 - 1
max_or_invalid (cp ∷ cps) = get_or (cp ∷ cps) (length cps) 0

abbrev is_bf2 : BranchFactor → Bool
is_bf2 bf2 = true
is_bf2 bf4 = false
is_bf2 bf8 = false
is_bf2 bf32 = false

-- A tree that would be too deep for two children a node gets four.
unfoldable pub upgraded : ℕ → BranchFactor → BranchFactor
unfolding tree_depth_for
upgraded max_value bf =
    if ltb (max_depth bf) (tree_depth_for max_value bf) && is_bf2 bf then bf4 else bf

unfoldable pub encode : List ℕ → BranchFactor → Option (List ℕ)
unfolding encode_set upgraded max_or_invalid find_filled_twigs
encode [] bf = some (0 ∷ [])
encode (cp ∷ cps) bf =
    let bf' = upgraded (max_or_invalid (cp ∷ cps)) bf in
    encode_set (cp ∷ cps) bf' (find_filled_twigs (cp ∷ cps) bf')
