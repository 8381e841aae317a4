-- ===== src/SparseBitSet/Runs.antt =====
-- Sets that are encoded and decoded again.
use ift_encoder.Prelude.{ℕ, zero, suc, ◌+◌, ◌≡◌, refl, All, List, [], ◌∷◌, ◌++◌, some, arith}
use ift_encoder.BitBuffer.BranchFactor.{bf2, bf8}
use ift_encoder.SparseBitSet.Decode.{DecodeResult, decoded, decode, decode_level, decode_node}
use ift_encoder.BitBuffer.Input.{decode_branch_factor, decode_depth}
use ift_encoder.BitBuffer.Output.{create, encode_first_byte, update_last}
use ift_encoder.SparseBitSet.Depth.{
  depth_loop, values_per_bit_log2, tree_depth_for, tree_depth_for_lem, IsDepthOf,
}
use ift_encoder.SparseBitSet.Layers.{EncodeState, EncodeContext, encode_layer}
use ift_encoder.SparseBitSet.Nodes.{bases_of, encode_layer-takes}
use ift_encoder.SparseBitSet.Encode.{encode}
use ift_encoder.IntSet.Defs.{mem}
use ift_encoder.SparseBitSet.FilledTwigs.{Filled, find_filled_twigs-Filled}
use ift_encoder.SparseBitSet.Twigs.{find_filled_twigs}

abbrev collect : List ℕ → DecodeResult (List ℕ × List ℕ)
collect bytes = decode (List ℕ) (λ a b out. out ++ a ∷ b ∷ []) (λ vs out. out ++ vs) bytes []

abbrev range : ℕ → ℕ → List ℕ
range a zero = []
range a (suc n) = a ∷ range (a + 1) n

abbrev few : List ℕ
few = 2 ∷ 33 ∷ 323 ∷ []

few_encoded : encode few bf8 ≡ some (14 ∷ 33 ∷ 17 ∷ 1 ∷ 4 ∷ 2 ∷ 8 ∷ [])
unfolding encode depth_loop values_per_bit_log2 encode_first_byte
few_encoded = refl

few_decoded : collect (14 ∷ 33 ∷ 17 ∷ 1 ∷ 4 ∷ 2 ∷ 8 ∷ 9 ∷ []) ≡ decoded (9 ∷ [], few)
unfolding decode decode_branch_factor decode_depth decode_level decode_node
few_decoded = refl

-- A filled node.
filled_encoded : encode (range 16 8) bf2 ≡ some (20 ∷ 6 ∷ [])
unfolding encode depth_loop values_per_bit_log2 encode_first_byte update_last
filled_encoded = refl

filled_decoded : collect (20 ∷ 6 ∷ []) ≡ decoded ([], 16 ∷ 23 ∷ [])
unfolding decode decode_branch_factor decode_depth decode_level decode_node
filled_decoded = refl

tree_depth_for_lem_example : IsDepthOf bf8 323 (tree_depth_for 323 bf8)
tree_depth_for_lem_example = tree_depth_for_lem 323 bf8 (omega arith)

-- The second of three layers has a node for 2 and 33 and one for 323.
encode_layer-takes_example :
    (e : EncodeContext) × (encode_layer few 1 3 bf8 [] (0 ∷ 320 ∷ []) [] (create bf8 3)
      ≡ some (EncodeState.end, e))
    × (e.next_node_base ≡ 2)
unfolding bases_of values_per_bit_log2
encode_layer-takes_example =
    encode_layer-takes 2 (33 ∷ 323 ∷ []) 1 3 bf8 (0 ∷ 320 ∷ []) [] (create bf8 3) refl

-- The queue of the root layer.
root_base : bases_of 512 0 few ≡ 0 ∷ []
unfolding bases_of
root_base = refl

find_filled_twigs-Filled_example :
    All (Filled (λ v. mem v (range 3 9)) bf2) (find_filled_twigs (range 3 9) bf2)
find_filled_twigs-Filled_example =
    find_filled_twigs-Filled (range 3 9) bf2 (omega arith) (omega arith)

twigs_found : find_filled_twigs (range 3 9) bf2 ≡ 1 ∷ 2 ∷ []
unfolding find_filled_twigs
twigs_found = refl
