-- ===== src/BitBuffer/Input.antt =====
-- ift/common/bit_input_buffer.{h,cc}: class BitInputBuffer.
-- `current_byte` is a uint32_t, whose sums wrap.
use Prim.Native.Nat.{bit_or}
use ift_encoder.Prelude.{
  ℕ, zero, suc, ◌+◌, ◌*◌, ◌%◌, ◌^◌, Bool, true, false, not, List, [], ◌∷◌, Option, none, some, ◌==◌,
  ltb, leb, if◌then◌else◌, length, get_or, drop,
}
use ift_encoder.Prelude.Bits.{shr, shl, low_bits}
use ift_encoder.BitBuffer.BranchFactor.{BranchFactor, bf2, bf4, bf8, bf32}

pub record BitInputBuffer : Type 0 where
  pub branch_factor : BranchFactor
  pub depth : ℕ
  pub bits : List ℕ
  pub current_byte : ℕ
  pub current_pair : ℕ
  pub first_nibble : Bool

-- The switch on `first_byte & 0b11`.
unfoldable pub branch_factor_of_code : ℕ → BranchFactor
branch_factor_of_code zero = bf2
branch_factor_of_code (suc zero) = bf4
branch_factor_of_code (suc (suc zero)) = bf8
branch_factor_of_code (suc (suc (suc n))) = bf32

unfoldable pub decode_branch_factor : List ℕ → BranchFactor
unfolding branch_factor_of_code
decode_branch_factor [] = bf2
decode_branch_factor (first_byte ∷ rest) = branch_factor_of_code (low_bits first_byte 2)

-- `(first_byte & 0b01111100u) >> 2`: bits 2 to 6.
unfoldable pub decode_depth : List ℕ → ℕ
decode_depth [] = 0
decode_depth (first_byte ∷ rest) = low_bits (shr first_byte 2) 5

-- BitInputBuffer::BitInputBuffer
unfoldable pub open_buffer : List ℕ → BitInputBuffer
open_buffer bits = record {
  branch_factor = decode_branch_factor bits;
  depth = decode_depth bits;
  bits = bits;
  current_byte = 1;
  current_pair = 0;
  first_nibble = true;
}

remaining_as : BranchFactor → BitInputBuffer → List ℕ
remaining_as bf2 i =
    drop ((i.current_byte + (if ltb 0 i.current_pair then 1 else 0)) % 2 ^ 32) i.bits
remaining_as bf4 i = drop ((i.current_byte + (if not i.first_nibble then 1 else 0)) % 2 ^ 32) i.bits
remaining_as bf8 i = drop i.current_byte i.bits
remaining_as bf32 i = drop i.current_byte i.bits

-- BitInputBuffer::Remaining
unfoldable pub remaining : BitInputBuffer → List ℕ
unfolding remaining_as
remaining i = remaining_as i.branch_factor i

-- `bits[i]`, which the tests before it keep in range.
abbrev byte_at : BitInputBuffer → ℕ → ℕ
byte_at i n = get_or i.bits n 0

-- The bytes are signed chars, but a shift by at most 6 leaves the two bits that are kept.
read_pair : BitInputBuffer → Option (ℕ × BitInputBuffer)
read_pair i =
    if leb (length i.bits) i.current_byte
    then none
    else some (
      low_bits (shr (byte_at i i.current_byte) (2 * i.current_pair)) 2,
      if i.current_pair + 1 == 4
          then record i { current_byte = (i.current_byte + 1) % 2 ^ 32; current_pair = 0 }
          else record i { current_pair = i.current_pair + 1 },
    )

read_nibble : BitInputBuffer → Option (ℕ × BitInputBuffer)
read_nibble i =
    if leb (length i.bits) i.current_byte
    then none
    else if i.first_nibble
    then some (low_bits (byte_at i i.current_byte) 4, record i { first_nibble = false })
    else some (
      shr (byte_at i i.current_byte) 4,
      record i { current_byte = (i.current_byte + 1) % 2 ^ 32; first_nibble = true },
    )

read_byte : BitInputBuffer → Option (ℕ × BitInputBuffer)
read_byte i =
    if leb (length i.bits) i.current_byte
    then none
    else some (byte_at i i.current_byte, record i { current_byte = (i.current_byte + 1) % 2 ^ 32 })

read_word : BitInputBuffer → Option (ℕ × BitInputBuffer)
read_word i =
    if leb (length i.bits) ((i.current_byte + 3) % 2 ^ 32)
    then none
    else some (
      bit_or
          (bit_or
            (bit_or (shl (byte_at i ((i.current_byte + 3) % 2 ^ 32)) 24)
              (shl (byte_at i ((i.current_byte + 2) % 2 ^ 32)) 16))
            (shl (byte_at i ((i.current_byte + 1) % 2 ^ 32)) 8))
          (byte_at i i.current_byte),
      record i { current_byte = (i.current_byte + 4) % 2 ^ 32 },
    )

read_as : BranchFactor → BitInputBuffer → Option (ℕ × BitInputBuffer)
unfolding read_pair read_nibble read_byte read_word
read_as bf2 i = read_pair i
read_as bf4 i = read_nibble i
read_as bf8 i = read_byte i
read_as bf32 i = read_word i

-- BitInputBuffer::read, with a non-null `out`; `none` is the result false.
unfoldable pub read : BitInputBuffer → Option (ℕ × BitInputBuffer)
unfolding read_as
read i = read_as i.branch_factor i

-- A number of calls of read; `none` if one of them fails.
unfoldable pub read_all : ℕ → BitInputBuffer → Option (List ℕ × BitInputBuffer)
read_all zero i = some ([], i)
read_all (suc n) i = elim (read i) [
  | none ↦ none
  | some (v, i') ↦ elim (read_all n i') [ none ↦ none | some (vs, i'') ↦ some (v ∷ vs, i'') ]
]
