-- ===== src/FontDiff/Range.antt =====
-- brotli/table_range.h: the parts of a table that are not yet committed to its stream.
use ift_encoder.Prelude.{
  ℕ, zero, suc, ◌+◌, ◌-◌, ◌%◌, ◌^◌, Bool, ◌||◌, List, none, some, ◌==◌, ltb, if◌then◌else◌, length,
}
use ift_encoder.FontDiff.Streams.{Streams, span}

-- The sum of two unsigned numbers.
abbrev pub add32 : ℕ → ℕ → ℕ
add32 a b = (a + b) % 2 ^ 32

-- The loop of padded_table_size, with the rounds that are left.
unfoldable pub pad_loop : ℕ → ℕ → ℕ
pad_loop zero size = size
pad_loop (suc rounds) size =
    let rest = pad_loop rounds (size + 1) in if size % 4 == 0 then size else rest

unfoldable pub padded_table_size : ℕ → ℕ
unfolding pad_loop
padded_table_size size = pad_loop 4 size

pub data Error : Type 0 where
  out_of_bounds not_compressed : Error

pub data StatusOr {ℓ} (A : Type ℓ) : Type ℓ where
  ok : A → StatusOr A
  err : Error → StatusOr A

module _ (streams : Streams) where
  open streams use {Stream, insert_compressed, insert_from_dictionary, insert_uncompressed}

  pub record TableRange : Type 0 where
    pub derived : List ℕ
    pub base_table_offset : ℕ
    pub base_offset : ℕ
    pub derived_offset : ℕ
    pub base_length : ℕ
    pub derived_length : ℕ
    pub out : Stream
    pub tag : ℕ

  -- The constructor, with the table's bytes, its offset in the base font and the new stream.
  unfoldable pub create : List ℕ → ℕ → Stream → ℕ → TableRange
  create derived base_table_offset out tag = record {
    derived = derived;
    base_table_offset = base_table_offset;
    base_offset = 0;
    derived_offset = 0;
    base_length = 0;
    derived_length = 0;
    out = out;
    tag = tag;
  }

  unfoldable pub extend : TableRange → ℕ → ℕ → TableRange
  extend range base_length derived_length = record range {
    base_length = add32 range.base_length base_length;
    derived_length = add32 range.derived_length derived_length;
  }

  unfoldable pub is_out_of_bounds : TableRange → Bool
  is_out_of_bounds range =
      ltb (length range.derived) range.derived_offset
      || ltb (length range.derived - range.derived_offset) range.derived_length

  -- The bytes that are to be committed.
  abbrev pub pending : TableRange → List ℕ
  pending range = span range.derived range.derived_offset range.derived_length

  -- The end of both commits.
  unfoldable pub advance : TableRange → Stream → TableRange
  advance range out = record range {
    derived_offset = add32 range.derived_offset range.derived_length;
    base_offset = add32 range.base_offset range.base_length;
    base_length = 0;
    derived_length = 0;
    out = out;
  }

  unfoldable pub commit_new : TableRange → StatusOr TableRange
  unfolding is_out_of_bounds advance
  commit_new range =
      if is_out_of_bounds range
      then err out_of_bounds
      else elim (insert_compressed range.out (pending range)) [
        | none ↦ err not_compressed
        | some out ↦ ok (advance range out)
      ]

  unfoldable pub commit_existing : TableRange → StatusOr TableRange
  unfolding is_out_of_bounds advance
  commit_existing range =
      let (inserted, out) =
        insert_from_dictionary range.out (add32 range.base_table_offset range.base_offset)
          range.derived_length in
      if is_out_of_bounds range
      then err out_of_bounds
      else ok (advance range (if inserted then out else insert_uncompressed out (pending range)))
