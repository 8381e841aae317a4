-- ===== src/FontDiff/Streams.antt =====
-- The operations of BrotliStream that the diff of a table calls, as an interface. BrotliStreams fills it
-- with the streams of brotli/brotli_stream.{h,cc}.
use ift_encoder.Prelude.{ℕ, ◌-◌, ◌%◌, Bool, List, [], ◌∷◌, Option, ◌==◌, if◌then◌else◌, take, drop}

-- The bytes from an offset on, at most `size` of them.
abbrev pub span : List ℕ → ℕ → ℕ → List ℕ
span bytes offset size = take size (drop offset bytes)

-- `none` of insert_compressed is a status that is not OK; `false` of insert_from_dictionary stands
-- for its result.
pub record Streams : Type 1 where
  pub Stream : Type 0
  pub insert_compressed : Stream → List ℕ → Option Stream
  pub insert_from_dictionary : Stream → ℕ → ℕ → Bool × Stream
  pub insert_uncompressed : Stream → List ℕ → Stream
  pub uncompressed_size : Stream → ℕ
  pub append : Stream → Stream → Stream

module _ (streams : Streams) where
  open streams use {
    Stream, insert_compressed, insert_from_dictionary, insert_uncompressed, uncompressed_size,
    append,
  }

  -- BrotliStream::four_byte_align_uncompressed
  unfoldable pub four_byte_align : Stream → Stream
  four_byte_align s =
      if uncompressed_size s % 4 == 0
      then s
      else insert_uncompressed s (take (4 - uncompressed_size s % 4) (0 ∷ 0 ∷ 0 ∷ 0 ∷ []))
