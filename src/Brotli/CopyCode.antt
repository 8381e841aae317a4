-- ===== src/Brotli/CopyCode.antt =====
-- brotli/brotli_stream.cc: the codes of copy lengths, against RFC 7932, section 5.
use ift_encoder.Prelude.{
  ℕ, zero, suc, ◌+◌, ◌-◌, ◌^◌, ◌≤◌, ◌<◌, ◌≡◌, refl, Bool, true, ◌||◌, List, [], ◌∷◌, ◌==◌, leb,
  ==_iff, if◌then◌else◌, get_or, arith, Bool-cases, inl, inr,
}
use Prim.Native.Nat.{bit_or}
use ift_encoder.Prelude.Tables.{holds_below, holds_below-at}
use ift_encoder.Prelude.Bits.{shl}

-- code_to_extra_bits
abbrev pub code_to_extra_bits : List ℕ
code_to_extra_bits =
    0 ∷ 0 ∷ 0 ∷ 0 ∷ 0 ∷ 0 ∷ 0 ∷ 0 ∷ 1 ∷ 1 ∷ 2 ∷ 2 ∷ 3 ∷ 3 ∷ 4 ∷ 4 ∷ 5 ∷ 5 ∷ 6 ∷ 7 ∷ 8 ∷ 9 ∷ 10 ∷ 24
    ∷ []

abbrev pub extra_bits_of : ℕ → ℕ
extra_bits_of code = get_or code_to_extra_bits code 0

-- A code, the number of its extra bits, and their value.
pub record CopyCode : Type 0 where
  pub code : ℕ
  pub num_extra_bits : ℕ
  pub extra_bits : ℕ

-- The do loop of to_copy_code, with the rounds that are left before code 23 ends it.
unfoldable pub copy_code_loop : ℕ → ℕ → ℕ → ℕ → ℕ → CopyCode
copy_code_loop zero length code max_length prev_max_length = record {
  code = code;
  num_extra_bits = extra_bits_of code;
  extra_bits = length - prev_max_length - 1;
}
copy_code_loop (suc rounds) length code max_length prev_max_length =
    let rest =
      copy_code_loop rounds length (code + 1) (max_length + shl 1 (extra_bits_of (code + 1)))
        max_length in
    if leb length max_length || code == 23
    then record {
      code = code;
      num_extra_bits = extra_bits_of code;
      extra_bits = length - prev_max_length - 1;
    }
    else rest

-- to_copy_code
unfoldable pub to_copy_code : ℕ → CopyCode
to_copy_code length = copy_code_loop 23 length 0 2 1

-- The code of an insert length of 0 with a copy length, over the results of to_copy_code.
unfoldable pub insert_and_copy_code : ℕ → ℕ
unfolding to_copy_code
insert_and_copy_code copy_length =
    let copy_code = (to_copy_code copy_length).code in
    if leb copy_code 7
    then bit_or 128 copy_code
    else if leb copy_code 15
    then bit_or 192 (copy_code - 8)
    else bit_or 384 (copy_code - 16)

-- num_of_postfix_bits
unfoldable pub num_of_postfix_bits : ℕ → ℕ
num_of_postfix_bits distance =
    if leb distance 67108860
    then 0
    else if leb distance 134217720
    then 1
    else if leb distance 268435440
    then 2
    else 3

-- The first copy length of each code in the table of RFC 7932.
abbrev pub copy_base : ℕ → ℕ
copy_base code =
    get_or
      (2 ∷ 3 ∷ 4 ∷ 5 ∷ 6 ∷ 7 ∷ 8 ∷ 9 ∷ 10 ∷ 12 ∷ 14 ∷ 18 ∷ 22 ∷ 30 ∷ 38 ∷ 54 ∷ 70 ∷ 102 ∷ 134 ∷ 198
        ∷ 326 ∷ 582 ∷ 1094 ∷ 2118 ∷ [])
      code 0

-- What the decoder of RFC 7932 makes of a code with its extra bits is the copy length.
abbrev pub Denotes : CopyCode → ℕ → Type 0
Denotes c length =
    (c.code < 24)
    × (c.num_extra_bits ≡ extra_bits_of c.code)
    × (copy_base c.code + c.extra_bits ≡ length)
    × (c.extra_bits < 2 ^ c.num_extra_bits)

-- The ranges of the codes follow on one another.
ranges : ℕ → Bool
ranges code = copy_base code + shl 1 (extra_bits_of code) == copy_base (code + 1)

ranges_table : holds_below 23 ranges ≡ true
unfolding holds_below ranges
ranges_table = refl

next_base : (code : ℕ) → code < 23 → copy_base (code + 1) ≡ copy_base code + 2 ^ extra_bits_of code
unfolding ranges
next_base code h = omega (arith, (==_iff _ _).0 (holds_below-at 23 ranges code ranges_table h))

found_code :
    (length code prev_max_length : ℕ)
    → code < 24
    → prev_max_length + 1 ≡ copy_base code
    → copy_base code ≤ length
    → length < copy_base code + 2 ^ extra_bits_of code
    → Denotes
        (record {
          code = code;
          num_extra_bits = extra_bits_of code;
          extra_bits = length - prev_max_length - 1;
        })
        length
found_code length code prev h base low high = (h, refl, omega arith, omega arith)

copy_code_loop-Denotes :
    (rounds length code max_length prev_max_length : ℕ)
    → rounds + code ≡ 23
    → prev_max_length + 1 ≡ copy_base code
    → max_length + 1 ≡ copy_base code + 2 ^ extra_bits_of code
    → copy_base code ≤ length
    → length < 2118 + 2 ^ 24
    → Denotes (copy_code_loop rounds length code max_length prev_max_length) length
unfolding copy_code_loop
copy_code_loop-Denotes zero length code max_length prev r base top low high =
    let last : code ≡ 23 = omega arith in
    found_code length code prev (omega arith) base low (rw last high)
copy_code_loop-Denotes (suc rounds) length code max_length prev r base top low high =
    elim (Bool-cases (leb length max_length || code == 23)) [
      | inl e ↦ rw e (found_code length code prev (omega arith) base low (ground arith))
      | inr e ↦ rw e (
          copy_code_loop-Denotes rounds length (code + 1)
            (max_length + shl 1 (extra_bits_of (code + 1))) max_length (omega arith)
            (omega (arith, next_base code (omega arith)))
            (omega (arith, next_base code (omega arith)))
            (ground (arith, next_base code (omega arith))) high)
    ]

-- For every copy length from 2 to the largest that code 23 reaches, to_copy_code gives a code of the
-- table, with as many extra bits as the table has for it; the extra bits fit their number, and
-- the first length of the code plus the extra bits is the copy length.
pub to_copy_code-Denotes :
    (length : ℕ) → 2 ≤ length → length < 2118 + 2 ^ 24 → Denotes (to_copy_code length) length
unfolding to_copy_code
to_copy_code-Denotes length low high =
    copy_code_loop-Denotes 23 length 0 2 1 (omega arith) (omega arith) (omega arith) low high
