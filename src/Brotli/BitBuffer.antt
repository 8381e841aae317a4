-- ===== src/Brotli/BitBuffer.antt =====
-- brotli/brotli_bit_buffer.{h,cc}: class BrotliBitBuffer.
use Prim.Native.Nat.{bit_or}
use ift_encoder.Prelude.{
  ℕ, zero, suc, ◌+◌, ◌-◌, ◌%◌, ◌^◌, min, Bool, List, [], ◌∷◌, ◌++◌, ◌==◌, ltb, if◌then◌else◌,
  get_or,
}
use ift_encoder.Prelude.Bits.{shr, shl, low_bits}

-- `bit_index` is the next bit of the last byte, and 8 when that byte is full or there is none.
pub record BrotliBitBuffer : Type 0 where
  pub buffer : List ℕ
  pub bit_index : ℕ

unfoldable pub empty : BrotliBitBuffer
empty = record { buffer = []; bit_index = 8 }

-- `buffer_[buffer_.size() - 1] |= mask`
unfoldable pub or_last : List ℕ → ℕ → List ℕ
or_last [] mask = []
or_last (b ∷ []) mask = bit_or b mask ∷ []
or_last (b ∷ c ∷ bs) mask = b ∷ or_last (c ∷ bs) mask

-- The if at the head of the loop's body.
unfoldable pub make_space : BrotliBitBuffer → BrotliBitBuffer
make_space b = if b.bit_index == 8 then record { buffer = b.buffer ++ 0 ∷ []; bit_index = 0 } else b

-- The rest of the body: `n` bits go to the last byte.
unfoldable pub put_bits : BrotliBitBuffer → ℕ → ℕ → BrotliBitBuffer
unfolding or_last
put_bits b bits n = record {
  buffer = or_last b.buffer (low_bits (shl bits b.bit_index % 2 ^ 32 % 256) (n + b.bit_index));
  bit_index = b.bit_index + n;
}

-- The while loop, with `left` for count - written. A round writes one bit at least.
unfoldable pub append_loop : ℕ → BrotliBitBuffer → ℕ → ℕ → BrotliBitBuffer
append_loop zero b bits left = b
append_loop (suc fuel) b bits left =
    let s = make_space b in
    let n = min (8 - s.bit_index) left in
    let rest = append_loop fuel (put_bits s bits n) (shr bits n) (left - n) in
    if ltb 0 left then rest else b

-- BrotliBitBuffer::append_number
unfoldable pub append_number : BrotliBitBuffer → ℕ → ℕ → BrotliBitBuffer
append_number b bits count = append_loop (min 32 count) b bits (min 32 count)

abbrev lookup : List ℕ
lookup =
    0x0 ∷ 0x8 ∷ 0x4 ∷ 0xc ∷ 0x2 ∷ 0xa ∷ 0x6 ∷ 0xe ∷ 0x1 ∷ 0x9 ∷ 0x5 ∷ 0xd ∷ 0x3 ∷ 0xb ∷ 0x7 ∷ 0xf
    ∷ []

-- The free function `reverse` on a uint8_t.
unfoldable pub reverse : ℕ → ℕ
reverse value =
    bit_or (shl (get_or lookup (low_bits value 4) 0) 4 % 256) (get_or lookup (shr value 4) 0)

-- BrotliBitBuffer::append_prefix_code
unfoldable pub append_prefix_code : BrotliBitBuffer → ℕ → ℕ → BrotliBitBuffer
unfolding reverse append_number
append_prefix_code b bits count =
    append_number b (shr (reverse bits) (8 - min 8 count)) (min 8 count)

unfoldable pub append_raw : BrotliBitBuffer → List ℕ → BrotliBitBuffer
append_raw b bytes = record b { buffer = b.buffer ++ bytes }

unfoldable pub pad_to_end_of_byte : BrotliBitBuffer → BrotliBitBuffer
pad_to_end_of_byte b = record b { bit_index = 8 }

unfoldable pub is_byte_aligned : BrotliBitBuffer → Bool
is_byte_aligned b = b.bit_index == 8
