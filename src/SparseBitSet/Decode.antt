-- ===== src/SparseBitSet/Decode.antt =====
-- SparseBitSet::Decode. The set that is filled is an IntSet, whose two range operations, which are
-- harfbuzz's, are parameters.
use ift_encoder.Prelude.{
  ℕ, zero, suc, ◌+◌, ◌-◌, ◌*◌, ◌%◌, ◌^◌, Bool, List, [], ◌∷◌, ◌++◌, Option, none, some, ◌==◌, ltb,
  if◌then◌else◌, length,
}
use Prim.Native.Nat.{bit_or}
use ift_encoder.Prelude.Bits.{shr, shl}
use ift_encoder.BitBuffer.BranchFactor.{BranchFactor, node_size, node_size_log2, max_depth}
use ift_encoder.BitBuffer.Input.{BitInputBuffer, open_buffer, read, remaining}

abbrev u32 : ℕ → ℕ
u32 x = x % 2 ^ 32

pub data DecodeError : Type 0 where
  too_deep : DecodeError
  out_of_bits : DecodeError

pub data DecodeResult {ℓ} (A : Type ℓ) : Type ℓ where
  decoded : A → DecodeResult A
  failed : DecodeError → DecodeResult A

-- The indices of the bits that are set, `count` of them from `bit_index` on.
unfoldable pub set_bits : ℕ → ℕ → ℕ → List ℕ
set_bits zero bit_index bits = []
set_bits (suc count) bit_index bits =
    let rest = set_bits count (bit_index + 1) bits in
    if shr bits bit_index % 2 == 1 then bit_index ∷ rest else rest

-- What a set bit of a node adds to the pending values, on the last level.
unfoldable pub leaf_values : ℕ → List ℕ → List ℕ
leaf_values node_base [] = []
leaf_values node_base (b ∷ bs) = bit_or node_base b ∷ leaf_values node_base bs

-- The same for the next level's nodes, above.
unfoldable pub child_bases : BranchFactor → ℕ → List ℕ → List ℕ
child_bases bf node_base [] = []
child_bases bf node_base (b ∷ bs) =
    u32 (shl (bit_or node_base b) (node_size_log2 bf)) ∷ child_bases bf node_base bs

module _ {ℓ} (Set : Type ℓ) (insert_range : ℕ → ℕ → Set → Set)
    (insert_sorted_array : List ℕ → Set → Set) where
  pub record Decoding : Type ℓ where
    pub bits : BitInputBuffer
    pub out : Set
    pub next_level_node_bases : List ℕ
    pub pending_codepoints : List ℕ

  -- One round of the inner loop, for the node's bits that were read.
  unfoldable pub decode_node : BranchFactor → Bool → ℕ → ℕ → ℕ → ℕ → Decoding → Decoding
  unfolding set_bits leaf_values child_bases
  decode_node bf last_level leaf_node_size node_base_factor node_base current_node_bits d =
      let leaf_node_base = u32 (node_base * node_base_factor) in
      let children = set_bits (node_size bf) 0 current_node_bits in
      if current_node_bits == 0
      then record d {
        out = insert_range leaf_node_base (u32 (leaf_node_base + leaf_node_size - 1)) d.out;
      }
      else if last_level
      then record d { pending_codepoints = d.pending_codepoints ++ leaf_values node_base children }
      else record d {
        next_level_node_bases = d.next_level_node_bases ++ child_bases bf node_base children;
      }

  unfoldable pub decode_level : BranchFactor → Bool → ℕ → ℕ → List ℕ → Decoding → Option Decoding
  unfolding read
  decode_level bf last_level leaf_node_size node_base_factor [] d = some d
  decode_level bf last_level leaf_node_size node_base_factor (node_base ∷ node_bases) d =
      elim (read d.bits) [
        | none ↦ none
        | some (current_node_bits, bits) ↦
            decode_level bf last_level leaf_node_size node_base_factor node_bases (
              decode_node bf last_level leaf_node_size node_base_factor node_base current_node_bits
                (record d { bits = bits }))
      ]

  -- The outer loop, with the number of levels that are left.
  unfoldable pub decode_levels : BranchFactor → ℕ → ℕ → ℕ → List ℕ → Decoding → Option Decoding
  decode_levels bf zero leaf_node_size node_base_factor node_bases d = some d
  decode_levels bf (suc levels) leaf_node_size node_base_factor node_bases d =
      elim (decode_level bf (levels == 0) leaf_node_size node_base_factor node_bases d) [
        | none ↦ none
        | some d' ↦
            decode_levels bf levels (shr leaf_node_size (node_size_log2 bf))
              (shr node_base_factor (node_size_log2 bf)) d'.next_level_node_bases
              (record d' { next_level_node_bases = [] })
      ]

  -- The bytes behind the set, and the set.
  unfoldable pub decode : List ℕ → Set → DecodeResult (List ℕ × Set)
  unfolding decode_levels open_buffer remaining
  decode [] out = decoded ([], out)
  decode (byte ∷ bytes) out =
      let bits = open_buffer (byte ∷ bytes) in
      let bf = bits.branch_factor in
      let leaf_node_size = 2 ^ (node_size_log2 bf * bits.depth) in
      let start : Decoding = record {
        bits = bits;
        out = out;
        next_level_node_bases = [];
        pending_codepoints = [];
      } in
      if ltb (max_depth bf) bits.depth
      then failed too_deep
      else elim (decode_levels bf bits.depth leaf_node_size (shr leaf_node_size (node_size_log2 bf))
          (0 ∷ []) start) [
            | none ↦ failed out_of_bits
            | some d ↦ decoded (
              remaining d.bits,
              if length d.pending_codepoints == 0
                  then d.out
                  else insert_sorted_array d.pending_codepoints d.out,
            )
          ]
