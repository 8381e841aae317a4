-- ===== src/Brotli/Appends.antt =====
-- brotli/brotli_bit_buffer.cc: the bits that a BrotliBitBuffer holds.
use mathlib.Core.List.{append_assoc, append-nil}
use Prim.Native.Nat.{bit_or}
use ift_encoder.Prelude.{
  ℕ, zero, suc, ◌+◌, ◌-◌, ◌*◌, ◌%◌, ◌^◌, ◌≤◌, ◌<◌, ◌≡◌, refl, sym, ap, ◌∙◌, min, List, [], ◌∷◌,
  ◌++◌, arith, Bool-cases, inl, inr, lt→ltb, ◌==◌, ==_iff, replicate,
}
use ift_encoder.Prelude.Bits.{shr, shl, low_bits}
use ift_encoder.BitBuffer.Nodes.{spread, spread-append}
use ift_encoder.Brotli.BitBuffer.{
  BrotliBitBuffer, empty, or_last, make_space, put_bits, append_loop, append_number, append_raw,
  pad_to_end_of_byte,
}
use ift_encoder.Brotli.Bits.{bits_of, bits_of-add, bits_of-join, or_field}

-- The bits of whole bytes.
abbrev pub bytes_bits : List ℕ → List ℕ
bytes_bits = spread (bits_of 8)

-- The buffer holds the bits `cs`: all its bytes are full, or the last byte has `bit_index` bits and
-- zeros above them.
pub data Holds (b : BrotliBitBuffer) (cs : List ℕ) : Type 0 where
  full : b.bit_index ≡ 8 → cs ≡ bytes_bits b.buffer → Holds b cs
  partial :
      (front : List ℕ) (last : ℕ)
      → b.buffer ≡ front ++ last ∷ []
      → 0 < b.bit_index
      → b.bit_index < 8
      → last < 2 ^ b.bit_index
      → cs ≡ bytes_bits front ++ bits_of b.bit_index last
      → Holds b cs

pub empty-Holds : Holds empty []
unfolding empty
empty-Holds = full refl refl

or_last-append :
    (front : List ℕ) (b mask : ℕ) → or_last (front ++ b ∷ []) mask ≡ front ++ bit_or b mask ∷ []
unfolding or_last
or_last-append [] b mask = refl
or_last-append (x ∷ []) b mask = refl
or_last-append (x ∷ y ∷ front) b mask = ap (◌∷◌ x) (or_last-append (y ∷ front) b mask)

-- A buffer whose last byte has room.
HasSpace : BrotliBitBuffer → List ℕ → Type 0
HasSpace b cs =
    (front : List ℕ) × (last : ℕ) × (b.buffer ≡ front ++ last ∷ [])
    × (b.bit_index < 8)
    × (last < 2 ^ b.bit_index)
    × (cs ≡ bytes_bits front ++ bits_of b.bit_index last)

make_space-HasSpace : (b : BrotliBitBuffer) (cs : List ℕ) → Holds b cs → HasSpace (make_space b) cs
unfolding make_space HasSpace bits_of
make_space-HasSpace b cs (full i e) =
    rw i (b.buffer, 0, refl, omega arith, omega arith, e ∙ sym (append-nil _))
make_space-HasSpace b cs (partial front last e pos i fits h) =
    elim (Bool-cases (b.bit_index == 8)) [
      | inl k ↦ absurd (omega (arith, (==_iff b.bit_index 8).0 k))
      | inr k ↦ rw k (front, last, e, i, fits, h)
    ]

-- A round that fits the last byte appends the lowest `n` bits.
put_bits-Holds :
    (b : BrotliBitBuffer) (cs : List ℕ) (v n : ℕ)
    → HasSpace b cs
    → 0 < n
    → n + b.bit_index ≤ 8
    → Holds (put_bits b v n) (cs ++ bits_of n v)
unfolding put_bits HasSpace
put_bits-Holds b cs v n (front, last, e, i, fits, h) some_bits few =
    let mask : ℕ = low_bits (shl v b.bit_index % 2 ^ 32 % 256) (n + b.bit_index) in
    let (small, joined) = or_field b.bit_index n last v fits few in
    let buffer' : or_last b.buffer mask ≡ front ++ bit_or last mask ∷ [] =
      rw e (or_last-append front last mask) in
    let bits' : cs ++ bits_of n v
        ≡ bytes_bits front ++ bits_of (b.bit_index + n) (bit_or last mask) =
      rw h (append_assoc (bytes_bits front) _ _ ∙ rw joined) in
    elim (Bool-cases (b.bit_index + n == 8)) [
      | inl k ↦
          let whole = (==_iff (b.bit_index + n) 8).0 k in
          full whole (
            bits' ∙ rw whole (rw buffer' (sym (spread-append (bits_of 8) front _ ∙ rw append-nil))))
      | inr k ↦ partial front (bit_or last mask) buffer' (omega arith) (ground arith) small bits'
    ]

append_loop-Holds :
    (fuel : ℕ) (b : BrotliBitBuffer) (cs : List ℕ) (v left : ℕ)
    → left ≤ fuel
    → Holds b cs
    → Holds (append_loop fuel b v left) (cs ++ bits_of left v)
unfolding append_loop
append_loop-Holds zero b cs v zero h held = unfold bits_of in rw append-nil held
append_loop-Holds zero b cs v (suc left) h held = absurd (omega arith)
append_loop-Holds (suc fuel) b cs v zero h held = unfold bits_of in rw append-nil held
append_loop-Holds (suc fuel) b cs v (suc left) h held =
    let s = make_space b in
    let room = make_space-HasSpace b cs held in
    let n = min (8 - s.bit_index) (suc left) in
    let open_bit : s.bit_index < 8 = unfold HasSpace in room.3 in
    let one : Holds (put_bits s v n) (cs ++ bits_of n v) =
      put_bits-Holds s cs v n room (omega arith) (omega arith) in
    let rest =
      append_loop-Holds fuel (put_bits s v n) (cs ++ bits_of n v) (shr v n) (suc left - n)
        (omega arith) one in
    let count : n + (suc left - n) ≡ suc left = omega arith in
    let all_bits : (cs ++ bits_of n v) ++ bits_of (suc left - n) (shr v n)
        ≡ cs ++ bits_of (suc left) v =
      append_assoc cs _ _
      ∙ ap (◌++◌ cs) (sym (bits_of-add n (suc left - n) v) ∙ ap (λ (t : ℕ). bits_of t v) count) in
    rw (lt→ltb 0 (suc left) (omega arith)) (rw all_bits at rest)

-- append_number appends the lowest `count` bits of the number, 32 at most, lowest first.
pub append_number-Holds :
    (b : BrotliBitBuffer) (cs : List ℕ) (bits count : ℕ)
    → Holds b cs
    → Holds (append_number b bits count) (cs ++ bits_of (min 32 count) bits)
unfolding append_number
append_number-Holds b cs bits count held =
    append_loop-Holds (min 32 count) b cs bits (min 32 count) (omega arith) held

bits_of-zero : (n : ℕ) → bits_of n 0 ≡ replicate n 0
unfolding bits_of
bits_of-zero zero = refl
bits_of-zero (suc n) = ap (◌∷◌ 0) (bits_of-zero n)

-- pad_to_end_of_byte leaves the bits that were written, with fewer than eight zeros behind them that
-- fill the last byte.
pub pad_to_end_of_byte-Holds :
    (b : BrotliBitBuffer) (cs : List ℕ)
    → Holds b cs
    → (n : ℕ) × (n < 8) × Holds (pad_to_end_of_byte b) (cs ++ replicate n 0)
unfolding pad_to_end_of_byte
pad_to_end_of_byte-Holds b cs (full i e) = (0, omega arith, full refl (append-nil cs ∙ e))
pad_to_end_of_byte-Holds b cs (partial front last k pos i fits e) =
    let n = 8 - b.bit_index in
    let whole : b.bit_index + n ≡ 8 = omega arith in
    let same : last + 0 * 2 ^ b.bit_index ≡ last = omega arith in
    let filled : bits_of 8 last ≡ bits_of b.bit_index last ++ replicate n 0 =
      ap (λ (t : ℕ). bits_of t last) (sym whole)
      ∙ (rw same at (bits_of-join b.bit_index n last 0 fits))
      ∙ rw (bits_of-zero n) in
    (
      n,
      omega arith,
      full refl (
          rw (k, e)
            (append_assoc (bytes_bits front) _ _
              ∙ sym (spread-append (bits_of 8) front _ ∙ rw (append-nil, filled)))),
    )

-- Raw bytes go behind full bytes.
pub append_raw-Holds :
    (b : BrotliBitBuffer) (cs bytes : List ℕ)
    → b.bit_index ≡ 8
    → Holds b cs
    → Holds (append_raw b bytes) (cs ++ bytes_bits bytes)
unfolding append_raw
append_raw-Holds b cs bytes aligned (full i e) =
    full i (rw e (sym (spread-append (bits_of 8) b.buffer bytes)))
append_raw-Holds b cs bytes aligned (partial front last k pos i fits e) = absurd (omega arith)
