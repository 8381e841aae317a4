-- ===== src/Brotli/Dictionary.antt =====
-- brotli/brotli_stream.cc: copies from the dictionary. PrefixEncodeCopyDistance of the brotli library
-- and the width of the distance codes, which the source computes with logarithms of doubles, are
-- parameters.
use ift_encoder.Prelude.{
  ℕ, zero, suc, ◌+◌, ◌-◌, ◌*◌, ◌/◌, ◌%◌, ◌^◌, ◌≤◌, ◌<◌, ◌≡◌, refl, ap, ◌∙◌, min, Bool, true, false,
  Option, none, some, ◌==◌, leb, if◌then◌else◌, Bool-cases, inl, inr, arith,
}
use ift_encoder.Brotli.Stream.{
  BrotliStream, u32, write, add_mlen, add_prefix_tree, max_metablock_size,
}
use ift_encoder.Brotli.StreamLaws.{add_mlen_fits, add_mlen_too_long}
use ift_encoder.Brotli.CopyCode.{to_copy_code, insert_and_copy_code, num_of_postfix_bits}

-- The code of a distance, the number of its extra bits, and their value.
pub record DistanceCode : Type 0 where
  pub distance_code : ℕ
  pub num_extra_bits : ℕ
  pub extra_bits : ℕ

u32_sums : (a b c n : ℕ) → b + c ≡ n → u32 (u32 (a + b) + c) ≡ u32 (a + n)
u32_sums a b c n e = omega (arith, e)

-- PrefixEncodeCopyDistance without direct codes, of a distance and a number of postfix bits: the
-- composite of 16 bits and the extra bits.
module _ (prefix_encode_copy_distance : ℕ → ℕ → ℕ × ℕ) (distance_code_width : ℕ → ℕ) where
  unfoldable pub to_distance_code : ℕ → ℕ → DistanceCode
  to_distance_code distance postfix_bits =
      let (composite_distance, extra_bits) =
        prefix_encode_copy_distance (u32 (distance + 15)) postfix_bits in
      record {
        distance_code = composite_distance % 2 ^ 10;
        num_extra_bits = composite_distance / 2 ^ 10 % 2 ^ 6;
        extra_bits = extra_bits;
      }

  -- The backwards distance to the region in the dictionary that starts at the offset.
  unfoldable pub distance_to : BrotliStream → ℕ → ℕ
  distance_to s offset =
      u32 (u32 (s.dictionary_size + min s.window_size s.uncompressed_size) + 2 ^ 32 - offset)

  -- The meta-block behind its length.
  unfoldable pub copy_block : BrotliStream → ℕ → ℕ → BrotliStream
  unfolding to_distance_code write add_prefix_tree
  copy_block s distance length =
      let postfix_bits = num_of_postfix_bits distance in
      let copy = to_copy_code length in
      let code = to_distance_code distance postfix_bits in
      let blocks = write (write (write (write s 0 1) 0 1) 0 1) 0 1 in
      let distances = write (write blocks postfix_bits 2) 0 4 in
      let literals = write (write (write distances 0 2) 0 1) 0 1 in
      let lengths =
        add_prefix_tree (add_prefix_tree literals 0 8) (insert_and_copy_code length) 10 in
      let codes = add_prefix_tree lengths code.distance_code (distance_code_width postfix_bits) in
      let command = write codes copy.extra_bits copy.num_extra_bits in
      let done = write command code.extra_bits code.num_extra_bits in
      record done { uncompressed_size = u32 (done.uncompressed_size + length) }

  -- What is left of a length for the second part, which is no single byte.
  unfoldable pub remainder_of : ℕ → ℕ
  remainder_of length =
      if leb (length - max_metablock_size) 1 then 2 else length - max_metablock_size

  -- BrotliStream::insert_from_dictionary, on fuel; `none` means that the fuel ran out.
  unfoldable pub insert_from_dictionary : ℕ → BrotliStream → ℕ → ℕ → Option (Bool × BrotliStream)
  unfolding distance_to copy_block remainder_of
  insert_from_dictionary zero s offset length = none
  insert_from_dictionary (suc fuel) s offset length =
      let remainder = remainder_of length in
      let first = insert_from_dictionary fuel s offset (length - remainder) in
      let split : Option (Bool × BrotliStream) = elim first [
        | none ↦ none
        | some (false, t) ↦ some (false, t)
        | some (true, t) ↦
            insert_from_dictionary fuel t (u32 (offset + (length - remainder))) remainder
      ] in
      if length == 0
      then some (true, s)
      else if length == 1
      then some (false, s)
      else elim (add_mlen s length) [
        | some t ↦ some (true, copy_block t (distance_to s offset) length)
        | none ↦ split
      ]

  copy_block_size :
      (s : BrotliStream) (distance length : ℕ)
      → (copy_block s distance length).uncompressed_size ≡ u32 (s.uncompressed_size + length)
  unfolding copy_block write add_prefix_tree
  copy_block_size s distance length = refl

  -- With one unit of fuel for each 2 ^ 24 bytes or part of that, a copy of 2 or more and fewer than
  -- 2 ^ 32 bytes from the dictionary ends with the result true; it adds their number to the
  -- uncompressed size, modulo 2 ^ 32.
  pub insert_from_dictionary-Copied :
      (fuel : ℕ) (s : BrotliStream) (offset length : ℕ)
      → length ≤ fuel * max_metablock_size
      → 2 ≤ length
      → length < 2 ^ 32
      → (t : BrotliStream) × (insert_from_dictionary fuel s offset length ≡ some (true, t))
        × (t.uncompressed_size ≡ u32 (s.uncompressed_size + length))
  unfolding insert_from_dictionary remainder_of
  insert_from_dictionary-Copied zero s offset length h two small = absurd (omega arith)
  insert_from_dictionary-Copied (suc fuel) s offset length h two small =
      let not_zero : (length == 0) ≡ false = ground arith in
      let not_one : (length == 1) ≡ false = ground arith in
      elim (Bool-cases (leb length max_metablock_size)) [
        | inl fits ↦
            let (t, e, k) = add_mlen_fits s length (ground (arith, fits)) in
            (
              copy_block t (distance_to s offset) length,
              rw (not_zero, not_one, e, insert_from_dictionary) refl,
              copy_block_size t (distance_to s offset) length ∙ ap (λ n. u32 (n + length)) k,
            )
        | inr more ↦
            let long : max_metablock_size < length = ground (arith, more) in
            let remainder = remainder_of length in
            let small_remainder : remainder ≤ fuel * max_metablock_size = ground (arith, h, long) in
            let first_length : length - remainder ≤ fuel * max_metablock_size =
              ground (arith, h, long) in
            let (t, e, k) =
              insert_from_dictionary-Copied fuel s offset (length - remainder) first_length
                (ground (arith, long)) (omega (arith, small)) in
            let (u, f, l) =
              insert_from_dictionary-Copied fuel t (u32 (offset + (length - remainder))) remainder
                small_remainder (ground arith) (ground (arith, small)) in
            (
              u,
              rw (not_zero, not_one, add_mlen_too_long s length long, e, insert_from_dictionary) f,
              l
                  ∙ ap (λ n. u32 (n + remainder)) k
                  ∙ u32_sums s.uncompressed_size (length - remainder) remainder length
                      (ground (arith, long)),
            )
      ]
