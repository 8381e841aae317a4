-- ===== src/Brotli/Stream.antt =====
-- brotli/brotli_stream.{h,cc}: class BrotliStream, but for the copies from the dictionary and the two
-- insertions that call the brotli encoder. An unsigned number wraps at 2 ^ 32.
use ift_encoder.Prelude.{
  ℕ, zero, suc, ◌+◌, ◌-◌, ◌*◌, ◌%◌, ◌^◌, min, max, List, [], ◌∷◌, Option, none, some, ◌==◌, ltb,
  leb, if◌then◌else◌, length, take, drop, get_or, replicate,
}
use ift_encoder.Prelude.Bits.{shl}
use ift_encoder.Brotli.BitBuffer.{
  BrotliBitBuffer, empty, append_number, append_raw, pad_to_end_of_byte, is_byte_aligned,
}

abbrev pub max_metablock_size : ℕ
max_metablock_size = 16777216

abbrev pub u32 : ℕ → ℕ
u32 x = x % 2 ^ 32

pub record BrotliStream : Type 0 where
  pub starting_offset : ℕ
  pub uncompressed_size : ℕ
  pub window_bits : ℕ
  pub window_size : ℕ
  pub dictionary_size : ℕ
  pub buffer : BrotliBitBuffer

-- The constructor.
unfoldable pub create : ℕ → ℕ → ℕ → BrotliStream
create window_bits dictionary_size starting_offset =
    let bits = max (min window_bits 24) 10 in
    record {
      starting_offset = starting_offset;
      uncompressed_size = starting_offset;
      window_bits = bits;
      window_size = shl 1 bits - 16;
      dictionary_size = dictionary_size;
      buffer = empty;
    }

-- The loop of WindowBitsFor, with the rounds that are left.
unfoldable pub window_bits_loop : ℕ → ℕ → ℕ → ℕ
window_bits_loop zero bits total = 24
window_bits_loop (suc rounds) bits total =
    let rest = window_bits_loop rounds (bits + 1) total in
    if ltb total (shl 1 bits - 16) then bits else rest

-- BrotliStream::WindowBitsFor
unfoldable pub window_bits_for : ℕ → ℕ → ℕ
unfolding window_bits_loop
window_bits_for base_size derived_size = window_bits_loop 15 10 (u32 (base_size + derived_size))

-- A call of append_number on the stream's buffer.
unfoldable pub write : BrotliStream → ℕ → ℕ → BrotliStream
write s bits count = record s { buffer = append_number s.buffer bits count }

-- The table of add_stream_header, from 10 window bits on.
abbrev pub window_codes : List (ℕ × ℕ)
window_codes =
    (0b0100001, 7)
    ∷ (0b0110001, 7)
    ∷ (0b1000001, 7)
    ∷ (0b1010001, 7)
    ∷ (0b1100001, 7)
    ∷ (0b1110001, 7)
    ∷ (0b0, 1)
    ∷ (0b0000001, 7)
    ∷ (0b0011, 4)
    ∷ (0b0101, 4)
    ∷ (0b0111, 4)
    ∷ (0b1001, 4)
    ∷ (0b1011, 4)
    ∷ (0b1101, 4)
    ∷ (0b1111, 4)
    ∷ []

unfoldable pub window_code : ℕ → ℕ × ℕ
window_code window_bits = get_or window_codes (window_bits - 10) (0, 0)

unfoldable pub add_stream_header : BrotliStream → BrotliStream
unfolding write window_code
add_stream_header s = write s (window_code s.window_bits).0 (window_code s.window_bits).1

-- The branch of add_mlen for size 0: an empty meta-block.
unfoldable pub add_empty_block : BrotliStream → BrotliStream
unfolding write
add_empty_block s =
    let t = write (write (write (write s 0 1) 3 2) 0 1) 0 2 in
    record t { buffer = pad_to_end_of_byte t.buffer }

-- The tail of add_mlen: the header, if this is the first meta-block, and the length.
unfoldable pub add_length : BrotliStream → ℕ → ℕ → ℕ → BrotliStream
unfolding write add_stream_header
add_length s size num_nibbles num_nibbles_code =
    let t = if s.uncompressed_size == 0 then add_stream_header s else s in
    write (write (write t 0 1) num_nibbles_code 2) (size - 1) (num_nibbles * 4)

-- BrotliStream::add_mlen; `none` is the result false, which leaves the stream as it was.
unfoldable pub add_mlen : BrotliStream → ℕ → Option BrotliStream
unfolding add_empty_block add_length
add_mlen s size =
    if size == 0
    then some (add_empty_block s)
    else if leb size 65536
    then some (add_length s size 4 0)
    else if leb size 1048576
    then some (add_length s size 5 1)
    else if leb size max_metablock_size
    then some (add_length s size 6 2)
    else none

unfoldable pub add_prefix_tree : BrotliStream → ℕ → ℕ → BrotliStream
unfolding write
add_prefix_tree s code width = write (write (write s 1 2) 0 2) code width

unfoldable pub byte_align : BrotliStream → BrotliStream
unfolding add_empty_block
byte_align s = if is_byte_aligned s.buffer then s else add_empty_block s

unfoldable pub end_stream : BrotliStream → BrotliStream
unfolding write
end_stream s = let t = write (write s 1 1) 1 1 in record t { buffer = pad_to_end_of_byte t.buffer }

-- What insert_uncompressed does once add_mlen has taken the size.
unfoldable pub raw_block : BrotliStream → List ℕ → BrotliStream
unfolding write
raw_block s bytes =
    let t = write s 1 1 in
    record t {
      buffer = append_raw (pad_to_end_of_byte t.buffer) bytes;
      uncompressed_size = u32 (t.uncompressed_size + length bytes);
    }

-- BrotliStream::insert_uncompressed, on fuel; `none` means that the fuel ran out. A span that is too
-- long for one meta-block is cut behind its first 2 ^ 24 bytes.
unfoldable pub insert_uncompressed : ℕ → BrotliStream → List ℕ → Option BrotliStream
insert_uncompressed zero s bytes = none
insert_uncompressed (suc fuel) s bytes = elim (add_mlen s (u32 (length bytes))) [
  | some t ↦ some (raw_block t bytes)
  | none ↦ elim (insert_uncompressed fuel s (take max_metablock_size bytes)) [
    | none ↦ none
    | some t ↦ insert_uncompressed fuel t (drop max_metablock_size bytes)
  ]
]

-- BrotliStream::append. The other stream is aligned too.
unfoldable pub append : BrotliStream → BrotliStream → BrotliStream × BrotliStream
unfolding byte_align
append s other =
    let s' = byte_align s in
    let other' = byte_align other in
    (
      record s' {
        buffer = append_raw s'.buffer other'.buffer.buffer;
        uncompressed_size =
            u32
              (s'.uncompressed_size + (other'.uncompressed_size + 2 ^ 32 - other'.starting_offset));
      },
      other',
    )

-- BrotliStream::four_byte_align_uncompressed
unfoldable pub four_byte_align_uncompressed : BrotliStream → Option BrotliStream
unfolding insert_uncompressed
four_byte_align_uncompressed s =
    if s.uncompressed_size % 4 == 0
    then some s
    else insert_uncompressed 1 s (replicate (4 - s.uncompressed_size % 4) 0)
