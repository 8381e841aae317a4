-- ===== src/BitBuffer/Runs.antt =====
-- Concrete runs of the bit buffers, and the theorems at concrete inputs.
use ift_encoder.Prelude.{length, ◌<◌, ◌^◌, ℕ, ◌≡◌, refl, List, [], ◌∷◌, ◌++◌, some, arith}
use ift_encoder.BitBuffer.BranchFactor.{bf2, bf4, bf8, bf32}
use ift_encoder.BitBuffer.Output.{
  create, append, append_all, to_string, encode_first_byte, update_last,
}
use ift_encoder.BitBuffer.Input.{
  BitInputBuffer, open_buffer, read_all, remaining, decode_branch_factor, decode_depth,
}
use ift_encoder.BitBuffer.Writes.{append_all-Padded, Padded}
use ift_encoder.BitBuffer.RoundTrip.{decode-encode_first_byte, read_all-append_all}

-- The first bytes of bit_buffer_test.cc: five nibbles at depth 1.
nibbles_written : to_string (append_all (create bf4 1) (14 ∷ 1 ∷ 15 ∷ [])) ≡ 5 ∷ 30 ∷ 15 ∷ []
unfolding create append_all append encode_first_byte update_last
nibbles_written = refl

pairs_written : to_string (append_all (create bf2 3) (1 ∷ 2 ∷ 3 ∷ 0 ∷ 7 ∷ [])) ≡ 12 ∷ 57 ∷ 3 ∷ []
unfolding create append_all append encode_first_byte update_last
pairs_written = refl

decode-encode_first_byte_example :
    (decode_branch_factor (encode_first_byte bf8 11 ∷ []) ≡ bf8)
    × (decode_depth (encode_first_byte bf8 11 ∷ []) ≡ 11)
decode-encode_first_byte_example = decode-encode_first_byte bf8 11 [] (omega arith)

append_all-Padded_example :
    (body : List ℕ) × (to_string (append_all (create bf2 3) (1 ∷ 2 ∷ 7 ∷ []))
      ≡ encode_first_byte bf2 3 ∷ body)
    × Padded bf2 (1 ∷ 2 ∷ 3 ∷ []) body
append_all-Padded_example = append_all-Padded bf2 3 (1 ∷ 2 ∷ 7 ∷ [])

bytes_bounded :
    length (to_string (append_all (create bf32 7) (0xdeadbeef ∷ 5 ∷ [])) ++ 9 ∷ []) < 2 ^ 32
unfolding create append_all append encode_first_byte
bytes_bounded = omega arith

read_all-append_all_example :
    let input =
      open_buffer (to_string (append_all (create bf32 7) (0xdeadbeef ∷ 5 ∷ [])) ++ 9 ∷ []) in
    (i : BitInputBuffer) × (read_all 2 input ≡ some (0xdeadbeef ∷ 5 ∷ [], i))
    × (remaining i ≡ 9 ∷ [])
    × (input.branch_factor ≡ bf32)
    × (input.depth ≡ 7)
read_all-append_all_example =
    read_all-append_all bf32 7 (0xdeadbeef ∷ 5 ∷ []) (9 ∷ []) (omega arith) bytes_bounded
