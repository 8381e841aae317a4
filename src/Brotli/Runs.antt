-- ===== src/Brotli/Runs.antt =====
-- Concrete runs of the brotli writer, and the theorems at concrete inputs.
use ift_encoder.Prelude.{
  ℕ, ◌+◌, ◌-◌, ◌^◌, ◌≤◌, ◌<◌, ◌≡◌, refl, List, [], ◌∷◌, ◌++◌, some, true, false, arith, replicate,
}
use ift_encoder.Prelude.Bits.{shl}
use ift_encoder.Brotli.BitBuffer.{
  empty, append_number, append_prefix_code, append_loop, make_space, put_bits, or_last,
  pad_to_end_of_byte,
}
use ift_encoder.Brotli.Bits.{bits_of}
use ift_encoder.Brotli.Appends.{Holds, empty-Holds, append_number-Holds, pad_to_end_of_byte-Holds}
use ift_encoder.Brotli.Reversal.{append_prefix_code-Holds}
use ift_encoder.Brotli.Stream.{
  BrotliStream, create, add_mlen, window_bits_for, insert_uncompressed, window_code, end_stream,
  u32,
}
use ift_encoder.Brotli.CopyCode.{to_copy_code, copy_code_loop, Denotes, to_copy_code-Denotes}
use ift_encoder.Brotli.Dictionary.{insert_from_dictionary, insert_from_dictionary-Copied}
use ift_encoder.Brotli.StreamLaws.{window_bits_for_lem, insert_uncompressed-Inserted, Inserted}
use ift_encoder.Brotli.Header.{
  read_window_bits, read_window_bits-window_code, add_mlen-Holds, header_bits, IsBlockHeader,
}

-- A code of distances that writes them as they are.
abbrev plain_code : ℕ → ℕ → ℕ × ℕ
plain_code distance postfix_bits = (distance, 0)

abbrev plain_width : ℕ → ℕ
plain_width postfix_bits = 6 + postfix_bits

insert_from_dictionary-Copied_example :
    (t : BrotliStream) × (insert_from_dictionary plain_code plain_width 2
        (create 22 20000000 0)
        100
        16777217
      ≡ some (true, t))
    × (t.uncompressed_size ≡ u32 16777217)
unfolding create
insert_from_dictionary-Copied_example =
    insert_from_dictionary-Copied plain_code plain_width 2 (create 22 20000000 0) 100 16777217
      (omega arith) (omega arith) (omega arith)

-- One byte is refused.
single_byte :
    insert_from_dictionary plain_code plain_width 1 (create 22 0 0) 0 1
    ≡ some (false, create 22 0 0)
unfolding insert_from_dictionary
single_byte = refl

-- brotli_bit_buffer_test.cc: numbers across byte bounds.
numbers_written :
    (append_number (append_number empty 0b101 3) 0b1100110011 10).buffer ≡ 0b10011101 ∷ 0b11001 ∷ []
unfolding append_number append_loop make_space put_bits or_last empty
numbers_written = refl

-- The empty stream of brotli_stream_test.cc: an empty last meta-block.
ended : (end_stream (create 22 0 0)).buffer.buffer ≡ 3 ∷ []
unfolding end_stream pad_to_end_of_byte create append_number append_loop make_space put_bits or_last
    empty
ended = refl

copy_code_of_100 : to_copy_code 100 ≡ record { code = 16; num_extra_bits = 5; extra_bits = 30 }
unfolding to_copy_code copy_code_loop
copy_code_of_100 = refl

three_bits : Holds (append_number empty 5 3) (1 ∷ 0 ∷ 1 ∷ [])
unfolding bits_of
three_bits = append_number-Holds empty [] 5 3 empty-Holds

append_number-Holds_example : Holds (append_number empty 5 3) (1 ∷ 0 ∷ 1 ∷ [])
unfolding bits_of
append_number-Holds_example = append_number-Holds empty [] 5 3 empty-Holds

append_prefix_code-Holds_example : Holds (append_prefix_code empty 6 3) (1 ∷ 1 ∷ 0 ∷ [])
unfolding bits_of
append_prefix_code-Holds_example =
    append_prefix_code-Holds empty [] 6 3 (omega arith) (omega arith) empty-Holds

pad_to_end_of_byte-Holds_example :
    (n : ℕ) × (n < 8)
    × Holds (pad_to_end_of_byte (append_number empty 5 3)) ((1 ∷ 0 ∷ 1 ∷ []) ++ replicate n 0)
pad_to_end_of_byte-Holds_example =
    pad_to_end_of_byte-Holds (append_number empty 5 3) (1 ∷ 0 ∷ 1 ∷ []) three_bits

to_copy_code-Denotes_example : Denotes (to_copy_code 100) 100
to_copy_code-Denotes_example = to_copy_code-Denotes 100 (omega arith) (omega arith)

window_bits_for_lem_example :
    (10 ≤ window_bits_for 500 600)
    × (window_bits_for 500 600 ≤ 24)
    × ((k : ℕ) → 10 ≤ k → k < window_bits_for 500 600 → shl 1 k - 16 ≤ u32 1100)
    × (u32 1100 < 2 ^ 24 - 16 → u32 1100 < shl 1 (window_bits_for 500 600) - 16)
window_bits_for_lem_example = window_bits_for_lem 500 600

insert_uncompressed-Inserted_example :
    (t : BrotliStream) × (insert_uncompressed 1 (create 22 0 0) (7 ∷ 8 ∷ 9 ∷ []) ≡ some t)
    × Inserted (create 22 0 0) 3 t
insert_uncompressed-Inserted_example =
    insert_uncompressed-Inserted 1 (create 22 0 0) (7 ∷ 8 ∷ 9 ∷ []) (omega arith) (omega arith)
      (omega arith)

read_window_bits-window_code_example :
    read_window_bits (bits_of (window_code 22).1 (window_code 22).0 ++ 1 ∷ []) ≡ some (22, 1 ∷ [])
read_window_bits-window_code_example =
    read_window_bits-window_code 22 (1 ∷ []) (omega arith) (omega arith)

add_mlen-Holds_example :
    (t : BrotliStream) × (bits : List ℕ) × (add_mlen (create 22 0 0) 70000 ≡ some t)
    × Holds t.buffer (([] ++ header_bits (create 22 0 0)) ++ bits)
    × IsBlockHeader bits 70000
unfolding create
add_mlen-Holds_example =
    add_mlen-Holds (create 22 0 0) [] 70000 (omega arith) (omega arith) empty-Holds
