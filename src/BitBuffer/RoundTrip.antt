-- ===== src/BitBuffer/RoundTrip.antt =====
-- BitOutputBuffer and BitInputBuffer, one after the other.
use ift_encoder.Prelude.{
  ℕ, suc, ap, ◌+◌, ◌*◌, ◌^◌, ◌<◌, ◌≡◌, refl, List, [], ◌∷◌, ◌++◌, map, suc, length, some, arith,
}
use ift_encoder.Prelude.Bits.{bit_or-shl, low_bits}
use ift_encoder.BitBuffer.BranchFactor.{BranchFactor, bf2, bf4, bf8, bf32}
use ift_encoder.BitBuffer.Output.{
  create, append_all, to_string, encode_first_byte, branch_factor_code,
}
use ift_encoder.BitBuffer.Input.{
  open_buffer, read_all, remaining, decode_branch_factor, decode_depth, BitInputBuffer,
  branch_factor_of_code,
}
use ift_encoder.BitBuffer.Nodes.{node_bits}
use ift_encoder.BitBuffer.Writes.{append_all-Padded}
use ift_encoder.BitBuffer.Reads.{read_all-open_buffer}

first_byte :
    (bf : BranchFactor) (depth : ℕ)
    → depth < 32
    → encode_first_byte bf depth ≡ branch_factor_code bf + depth * 4
unfolding encode_first_byte
first_byte bf2 depth h = rw (bit_or-shl 2 0 depth (omega arith)) (omega arith)
first_byte bf4 depth h = rw (bit_or-shl 2 1 depth (omega arith)) (omega arith)
first_byte bf8 depth h = rw (bit_or-shl 2 2 depth (omega arith)) (omega arith)
first_byte bf32 depth h = rw (bit_or-shl 2 3 depth (omega arith)) (omega arith)

low_code :
    (bf : BranchFactor) (depth : ℕ)
    → low_bits (branch_factor_code bf + depth * 4) 2 ≡ branch_factor_code bf
unfolding branch_factor_code
low_code bf2 depth = omega arith
low_code bf4 depth = omega arith
low_code bf8 depth = omega arith
low_code bf32 depth = omega arith

code_round_trip : (bf : BranchFactor) → branch_factor_of_code (branch_factor_code bf) ≡ bf
unfolding branch_factor_of_code branch_factor_code
code_round_trip bf2 = refl
code_round_trip bf4 = refl
code_round_trip bf8 = refl
code_round_trip bf32 = refl

code-lt : (bf : BranchFactor) → branch_factor_code bf < 4
unfolding branch_factor_code
code-lt bf2 = omega arith
code-lt bf4 = omega arith
code-lt bf8 = omega arith
code-lt bf32 = omega arith

-- The first byte carries the branch factor, and every depth that fits its five bits.
pub decode-encode_first_byte :
    (bf : BranchFactor) (depth : ℕ) (rest : List ℕ)
    → depth < 32
    → (decode_branch_factor (encode_first_byte bf depth ∷ rest) ≡ bf)
      × (decode_depth (encode_first_byte bf depth ∷ rest) ≡ depth)
unfolding decode_branch_factor decode_depth
decode-encode_first_byte bf depth rest h =
    rw (first_byte bf depth h)
      (rw (low_code bf depth) (code_round_trip bf), omega (arith, code-lt bf))

length-map : (f : ℕ → ℕ) (xs : List ℕ) → length (map f xs) ≡ length xs
length-map f [] = refl
length-map f (x ∷ xs) = ap suc (length-map f xs)

-- At a depth that fits the first byte, a reader that is opened on what the writer left, with any
-- bytes behind it and fewer than 2 ^ 32 bytes in all, finds the branch factor and the depth, reads back the low bits of each value in
-- order, and is left with exactly the bytes behind.
pub read_all-append_all :
    (bf : BranchFactor) (depth : ℕ) (vs tail : List ℕ)
    → depth < 32
    → length (to_string (append_all (create bf depth) vs) ++ tail) < 2 ^ 32
    → let input = open_buffer (to_string (append_all (create bf depth) vs) ++ tail) in
      (i : BitInputBuffer) × (read_all (length vs) input ≡ some (map (node_bits bf) vs, i))
      × (remaining i ≡ tail)
      × (input.branch_factor ≡ bf)
      × (input.depth ≡ depth)
unfolding open_buffer
read_all-append_all bf depth vs tail h short =
    let (body, e, (pad, whole, holds, zero_pad, few)) = append_all-Padded bf depth vs in
    let first = encode_first_byte bf depth in
    let (i, r, left) =
      read_all-open_buffer first bf body tail (map (node_bits bf) vs) pad
        (decode-encode_first_byte bf depth [] h).0 whole holds few (rw e at short) in
    (
      i,
      rw (e, ← length-map (node_bits bf) vs) r,
      left,
      rw e (decode-encode_first_byte bf depth (body ++ tail) h).0,
      rw e (decode-encode_first_byte bf depth (body ++ tail) h).1,
    )
