-- ===== src/FontDiff/BrotliStreams.antt =====
-- The streams of FontDiff as the streams of brotli/brotli_stream.{h,cc}. A copy of 2 ^ 24 bytes is one
-- meta-block, so that the fuel is one more than the whole blocks; spans have fewer than 2 ^ 32 bytes.
-- insert_compressed calls the encoder of the brotli library and is a parameter, with its failure.
use ift_encoder.Prelude.{ℕ, ◌+◌, ◌/◌, false, List, Option, none, some, length}
use ift_encoder.Brotli.Stream.{BrotliStream, insert_uncompressed, append, max_metablock_size}
use ift_encoder.Brotli.Dictionary.{insert_from_dictionary}
use ift_encoder.FontDiff.Streams.{Streams}

module _ (prefix_encode_copy_distance : ℕ → ℕ → ℕ × ℕ) (distance_code_width : ℕ → ℕ)
    (insert_compressed : BrotliStream → List ℕ → Option BrotliStream) where
  abbrev pub brotli_streams : Streams
  brotli_streams = record {
    Stream = BrotliStream;
    insert_compressed = insert_compressed;
    insert_from_dictionary = λ s offset size.
        elim (insert_from_dictionary prefix_encode_copy_distance distance_code_width
          (size / max_metablock_size + 1) s offset size) [
            | none ↦ (false, s)
            | some result ↦ result
          ];
    insert_uncompressed = λ s bytes.
        elim (insert_uncompressed (length bytes / max_metablock_size + 1) s bytes) [
          | none ↦ s
          | some t ↦ t
        ];
    uncompressed_size = λ s. s.uncompressed_size;
    append = λ s t. (append s t).0;
  }
