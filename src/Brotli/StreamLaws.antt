-- ===== src/Brotli/StreamLaws.antt =====
-- The behaviour of BrotliStream: the window size, the meta-blocks of raw bytes, alignment.
use ift_encoder.Prelude.{
  ℕ, zero, suc, ◌+◌, ◌-◌, ◌*◌, ◌^◌, ◌≤◌, ◌<◌, ◌≡◌, refl, true, List, none, some, ◌==◌, ltb, leb,
  length, take, drop, arith, Bool-cases, ltb→lt, ==_iff, inl, inr, length-take, length-drop,
}
use ift_encoder.Prelude.Bits.{shl}
use ift_encoder.Brotli.BitBuffer.{append_raw, pad_to_end_of_byte}
use ift_encoder.Brotli.Stream.{
  BrotliStream, window_bits_loop, window_bits_for, u32, add_mlen, add_length, raw_block,
  insert_uncompressed, max_metablock_size, add_empty_block, write, add_stream_header,
}

window_bits_loop_lem :
    (rounds bits total : ℕ)
    → 10 ≤ bits
    → rounds + bits ≡ 25
    → (10 ≤ window_bits_loop rounds bits total)
      × (window_bits_loop rounds bits total ≤ 24)
      × ((k : ℕ) → bits ≤ k → k < window_bits_loop rounds bits total → shl 1 k - 16 ≤ total)
      × (total < 2 ^ 24 - 16 → total < shl 1 (window_bits_loop rounds bits total) - 16)
unfolding window_bits_loop
window_bits_loop_lem zero bits total low r =
    (omega arith, omega arith, (λ k h l. absurd (omega arith)), λ h. h)
window_bits_loop_lem (suc rounds) bits total low r =
    elim (Bool-cases (ltb total (shl 1 bits - 16))) [
      | inl e ↦ rw e (low, omega arith, (λ k h l. absurd (omega arith)), λ h. ltb→lt _ _ e)
      | inr e ↦
          let rest = window_bits_loop_lem rounds (bits + 1) total (omega arith) (omega arith) in
          rw e (
            rest.0,
            rest.1,
            (λ k h l. elim (Bool-cases (k == bits)) [
              | inl same ↦ rw ((==_iff k bits).0 same) (ground arith)
              | inr other ↦ rest.2 k (ground arith) l
            ]),
            rest.3,
          )
    ]

-- WindowBitsFor gives 10 to 24 bits. No smaller number from 10 on has a window that the (wrapped)
-- sum of the sizes is below, and the sum is below the window that is given, if any window of up to 24
-- bits is large enough.
pub window_bits_for_lem :
    (base derived : ℕ)
    → let bits = window_bits_for base derived in
      (10 ≤ bits)
      × (bits ≤ 24)
      × ((k : ℕ) → 10 ≤ k → k < bits → shl 1 k - 16 ≤ u32 (base + derived))
      × (u32 (base + derived) < 2 ^ 24 - 16 → u32 (base + derived) < shl 1 bits - 16)
unfolding window_bits_for
window_bits_for_lem base derived =
    window_bits_loop_lem 15 10 (u32 (base + derived)) (omega arith) (omega arith)

add_length_sizes :
    (s : BrotliStream) (size nibbles code : ℕ)
    → (add_length s size nibbles code).uncompressed_size ≡ s.uncompressed_size
unfolding add_length write add_stream_header
add_length_sizes s size nibbles code = ground arith

-- A span that fits one meta-block is written, empty or not.
pub add_mlen_fits :
    (s : BrotliStream) (size : ℕ)
    → size ≤ max_metablock_size
    → (t : BrotliStream) × (add_mlen s size ≡ some t) × (t.uncompressed_size ≡ s.uncompressed_size)
unfolding add_mlen add_empty_block write
add_mlen_fits s size h = elim (Bool-cases (size == 0)) [
  | inl e ↦ (add_empty_block s, rw e, refl)
  | inr e ↦ elim (Bool-cases (leb size 65536)) [
    | inl f ↦ (add_length s size 4 0, rw (e, f), add_length_sizes s size 4 0)
    | inr f ↦ elim (Bool-cases (leb size 1048576)) [
      | inl g ↦ (add_length s size 5 1, rw (e, f, g), add_length_sizes s size 5 1)
      | inr g ↦
          let k : leb size max_metablock_size ≡ true = ground arith in
          (add_length s size 6 2, rw (e, f, g, k), add_length_sizes s size 6 2)
    ]
  ]
]

pub add_mlen_too_long :
    (s : BrotliStream) (size : ℕ) → max_metablock_size < size → add_mlen s size ≡ none
unfolding add_mlen
add_mlen_too_long s size h = ground arith

-- A stream after an insertion: the size has grown by the bytes, and the stream ends on a byte.
abbrev pub Inserted : BrotliStream → ℕ → BrotliStream → Type 0
Inserted s n t =
    (u32 t.uncompressed_size ≡ u32 (s.uncompressed_size + n)) × (t.buffer.bit_index ≡ 8)

raw_block-Inserted :
    (s t : BrotliStream) (bytes : List ℕ)
    → t.uncompressed_size ≡ s.uncompressed_size
    → Inserted s (length bytes) (raw_block t bytes)
unfolding raw_block write append_raw pad_to_end_of_byte
raw_block-Inserted s t bytes e = (rw e (omega arith), refl)

-- With one unit of fuel for each 2 ^ 24 bytes or part of that, the insertion of fewer than 2 ^ 32
-- bytes ends; it adds their number to the uncompressed size, modulo 2 ^ 32, and leaves the stream
-- aligned to a byte.
pub insert_uncompressed-Inserted :
    (fuel : ℕ) (s : BrotliStream) (bytes : List ℕ)
    → length bytes ≤ fuel * max_metablock_size
    → 0 < fuel
    → length bytes < 2 ^ 32
    → (t : BrotliStream) × (insert_uncompressed fuel s bytes ≡ some t) × Inserted s (length bytes) t
unfolding insert_uncompressed
insert_uncompressed-Inserted zero s bytes h pos small = absurd (omega arith)
insert_uncompressed-Inserted (suc fuel) s bytes h pos small =
    let narrow : u32 (length bytes) ≡ length bytes = omega arith in
    elim (Bool-cases (leb (length bytes) max_metablock_size)) [
      | inl fits ↦
          let (t, e, k) = add_mlen_fits s (u32 (length bytes)) (ground arith) in
          (raw_block t bytes, rw (e, insert_uncompressed), raw_block-Inserted s t bytes k)
      | inr more ↦
          let long : max_metablock_size < length bytes = ground arith in
          let front = take max_metablock_size bytes in
          let (t, e, k) =
            insert_uncompressed-Inserted fuel s (take max_metablock_size bytes)
              (omega (arith, length-take max_metablock_size bytes)) (omega arith)
              (omega (arith, length-take max_metablock_size bytes)) in
          let (u, e2, k2) =
            insert_uncompressed-Inserted fuel t (drop max_metablock_size bytes)
              (omega (arith, length-drop max_metablock_size bytes)) (omega arith)
              (omega (arith, length-drop max_metablock_size bytes)) in
          (
            u,
            rw (add_mlen_too_long s (u32 (length bytes)) (omega arith), insert_uncompressed, e) e2,
            (
              omega (
                arith,
                length-take max_metablock_size bytes,
                length-drop max_metablock_size bytes,
              ),
              k2.1,
            ),
          )
    ]
