-- ===== src/BitBuffer/Output.antt =====
-- ift/common/bit_output_buffer.{h,cc}: class BitOutputBuffer.
use Prim.Native.Nat.{bit_or}
use ift_encoder.Prelude.{
  ℕ, ◌+◌, ◌*◌, ◌%◌, Bool, true, false, List, [], ◌∷◌, ◌++◌, ◌==◌, if◌then◌else◌,
}
use ift_encoder.Prelude.Bits.{shr, shl, low_bits}
use ift_encoder.BitBuffer.BranchFactor.{BranchFactor, bf2, bf4, bf8, bf32}

pub record BitOutputBuffer : Type 0 where
  pub branch_factor : BranchFactor
  pub buffer : List ℕ
  pub current_pair : ℕ
  pub first_nibble : Bool

-- `(unsigned char)x`
abbrev pub to_byte : ℕ → ℕ
to_byte x = x % 256

-- `buffer[buffer.size() - 1] = f(buffer[buffer.size() - 1])`; the constructor leaves one byte at least.
unfoldable pub update_last : (ℕ → ℕ) → List ℕ → List ℕ
update_last f [] = []
update_last f (b ∷ []) = f b ∷ []
update_last f (b ∷ c ∷ bs) = b ∷ update_last f (c ∷ bs)

unfoldable pub branch_factor_code : BranchFactor → ℕ
branch_factor_code bf2 = 0
branch_factor_code bf4 = 1
branch_factor_code bf8 = 2
branch_factor_code bf32 = 3

-- `result |= depth << 2` on a uint8_t.
unfoldable pub encode_first_byte : BranchFactor → ℕ → ℕ
unfolding branch_factor_code
encode_first_byte bf depth = to_byte (bit_or (branch_factor_code bf) (shl depth 2))

-- BitOutputBuffer::BitOutputBuffer
unfoldable pub create : BranchFactor → ℕ → BitOutputBuffer
create bf depth = record {
  branch_factor = bf;
  buffer = encode_first_byte bf depth ∷ [];
  current_pair = 0;
  first_nibble = true;
}

-- The case BF2 of append: two bits a call, four calls a byte.
append_pair : BitOutputBuffer → ℕ → BitOutputBuffer
append_pair o bits =
    if o.current_pair == 0
    then record o {
      buffer = o.buffer ++ low_bits (to_byte bits) 2 ∷ [];
      current_pair = o.current_pair + 1;
    }
    else (let two_bits = to_byte (shl (low_bits bits 2) (2 * o.current_pair)) in
        record o {
          buffer = update_last (λ b. bit_or b two_bits) o.buffer;
          current_pair = if o.current_pair + 1 == 4 then 0 else o.current_pair + 1;
        })

-- The case BF4: four bits a call, the low nibble first.
append_nibble : BitOutputBuffer → ℕ → BitOutputBuffer
append_nibble o bits =
    if o.first_nibble
    then record o { buffer = o.buffer ++ low_bits (to_byte bits) 4 ∷ []; first_nibble = false }
    else record o {
      buffer =
          update_last (λ b. to_byte (bit_or (low_bits b 4) (shl (low_bits (to_byte bits) 4) 4)))
            o.buffer;
      first_nibble = true;
    }

-- The case BF32: four bytes a call, the lowest first.
append_word : BitOutputBuffer → ℕ → BitOutputBuffer
append_word o bits = record o {
  buffer =
      o.buffer
      ++ (to_byte bits
          ∷ to_byte (shr bits 8)
          ∷ to_byte (shr (shr bits 8) 8)
          ∷ to_byte (shr (shr (shr bits 8) 8) 8)
          ∷ []);
}

append_as : BranchFactor → BitOutputBuffer → ℕ → BitOutputBuffer
unfolding append_pair append_nibble append_word
append_as bf2 o bits = append_pair o bits
append_as bf4 o bits = append_nibble o bits
append_as bf8 o bits = record o { buffer = o.buffer ++ to_byte bits ∷ [] }
append_as bf32 o bits = append_word o bits

-- BitOutputBuffer::append
unfoldable pub append : BitOutputBuffer → ℕ → BitOutputBuffer
unfolding append_as
append o bits = append_as o.branch_factor o bits

-- BitOutputBuffer::to_string
abbrev pub to_string : BitOutputBuffer → List ℕ
to_string o = o.buffer

-- A sequence of calls of append.
unfoldable pub append_all : BitOutputBuffer → List ℕ → BitOutputBuffer
append_all o [] = o
append_all o (bits ∷ rest) = append_all (append o bits) rest
