-- ===== src/Brotli/Header.antt =====
-- The headers that BrotliStream writes, read by the rules of RFC 7932, sections 9.1 and 9.2.
use mathlib.Core.Path.{subst}
use mathlib.Core.List.{append_assoc, append-nil}
use ift_encoder.Prelude.{
  ℕ, zero, suc, ◌+◌, ◌-◌, ◌*◌, ◌^◌, ◌≤◌, ◌<◌, ◌≡◌, refl, min, Bool, true, false, List, [], ◌∷◌,
  ◌++◌, Option, none, some, ◌==◌, get_or, All, leb, if◌then◌else◌, arith, Bool-cases, inl, inr, ◌⊎◌,
}
use ift_encoder.Prelude.Tables.{holds_below, holds_below-at}
use ift_encoder.Brotli.BitBuffer.{append_number}
use ift_encoder.Brotli.Bits.{bits_of}
use ift_encoder.Brotli.Appends.{Holds, append_number-Holds}
use ift_encoder.Brotli.Stream.{
  BrotliStream, window_code, window_codes, add_mlen, add_length, write, add_stream_header,
  max_metablock_size,
}

-- The window size at the head of a stream.
three_bits : ℕ → ℕ → ℕ → ℕ
three_bits a b c = a + 2 * b + 4 * c

long_window : ℕ → List ℕ → Option (ℕ × List ℕ)
long_window zero rest = some (17, rest)
long_window (suc zero) rest = none
long_window (suc (suc m)) rest = some (10 + m, rest)

middle_window : ℕ → List ℕ → Option (ℕ × List ℕ)
unfolding long_window three_bits
middle_window zero (a ∷ b ∷ c ∷ rest) = long_window (three_bits a b c) rest
middle_window zero _ = none
middle_window (suc n) rest = some (18 + n, rest)

pub read_window_bits : List ℕ → Option (ℕ × List ℕ)
unfolding middle_window three_bits
read_window_bits (zero ∷ rest) = some (16, rest)
read_window_bits (suc x ∷ a ∷ b ∷ c ∷ rest) = middle_window (three_bits a b c) rest
read_window_bits _ = none

reads_window : Option (ℕ × List ℕ) → ℕ → Bool
reads_window (some (w, [])) bits = w == bits
reads_window _ bits = false

window_table :
    holds_below 15 (λ k.
      reads_window
        (read_window_bits (bits_of (window_code (10 + k)).1 (window_code (10 + k)).0))
        (10 + k))
    ≡ true
unfolding holds_below reads_window read_window_bits bits_of window_code
window_table = refl

long_window-append :
    (n w : ℕ) (xs rest : List ℕ)
    → long_window n xs ≡ some (w, [])
    → long_window n (xs ++ rest) ≡ some (w, rest)
unfolding long_window
long_window-append zero w xs rest h = ground arith
long_window-append (suc zero) w xs rest h = cc
long_window-append (suc (suc m)) w xs rest h = ground arith

middle_window-append :
    (n w : ℕ) (xs rest : List ℕ)
    → middle_window n xs ≡ some (w, [])
    → middle_window n (xs ++ rest) ≡ some (w, rest)
unfolding middle_window
middle_window-append zero w (a ∷ b ∷ c ∷ xs) rest h =
    long_window-append (a + 2 * b + 4 * c) w xs rest h
middle_window-append zero w [] rest h = cc
middle_window-append zero w (a ∷ []) rest h = cc
middle_window-append zero w (a ∷ b ∷ []) rest h = cc
middle_window-append (suc n) w xs rest h = ground arith

read_window_bits-append :
    (xs rest : List ℕ) (w : ℕ)
    → read_window_bits xs ≡ some (w, [])
    → read_window_bits (xs ++ rest) ≡ some (w, rest)
unfolding read_window_bits
read_window_bits-append (zero ∷ xs) rest w h = ground arith
read_window_bits-append (suc x ∷ a ∷ b ∷ c ∷ xs) rest w h =
    middle_window-append (a + 2 * b + 4 * c) w xs rest h
read_window_bits-append [] rest w h = cc
read_window_bits-append (suc x ∷ []) rest w h = cc
read_window_bits-append (suc x ∷ a ∷ []) rest w h = cc
read_window_bits-append (suc x ∷ a ∷ b ∷ []) rest w h = cc

reads_window_sound :
    (o : Option (ℕ × List ℕ)) (bits : ℕ) → reads_window o bits ≡ true → o ≡ some (bits, [])
unfolding reads_window
reads_window_sound none bits h = cc
reads_window_sound (some (w, [])) bits h = ground arith
reads_window_sound (some (w, x ∷ xs)) bits h = cc

-- For each number of window bits that the constructor allows, the code of add_stream_header is read
-- back as that number by the rule of RFC 7932, with whatever follows left over.
pub read_window_bits-window_code :
    (bits : ℕ) (rest : List ℕ)
    → 10 ≤ bits
    → bits ≤ 24
    → read_window_bits (bits_of (window_code bits).1 (window_code bits).0 ++ rest)
      ≡ some (bits, rest)
read_window_bits-window_code bits rest low high =
    let e : 10 + (bits - 10) ≡ bits = omega arith in
    let table =
      reads_window_sound _ (10 + (bits - 10))
        (holds_below-at 15 _ (bits - 10) window_table (omega arith)) in
    read_window_bits-append (bits_of (window_code bits).1 (window_code bits).0) rest bits
      (rw e at table)

write-Holds :
    (s : BrotliStream) (cs : List ℕ) (bits count : ℕ)
    → count ≤ 32
    → Holds s.buffer cs
    → Holds (write s bits count).buffer (cs ++ bits_of count bits)
unfolding write
write-Holds s cs bits count few held =
    let same : min 32 count ≡ count = omega arith in
    subst (λ (t : ℕ). Holds (append_number s.buffer bits count) (cs ++ bits_of t bits)) same
      (append_number-Holds s.buffer cs bits count held)

-- The stream header, which only the first meta-block has.
abbrev pub header_bits : BrotliStream → List ℕ
header_bits s =
    if s.uncompressed_size == 0
    then bits_of (window_code s.window_bits).1 (window_code s.window_bits).0
    else []

-- A meta-block header: not the last block, the number of nibbles, and the length less one, which
-- fits them; with more than four nibbles the last one is not zero.
abbrev pub IsBlockHeader : List ℕ → ℕ → Type 0
IsBlockHeader bits size =
    (nibbles : ℕ) × (code : ℕ) × (bits ≡ 0 ∷ (bits_of 2 code ++ bits_of (nibbles * 4) (size - 1)))
    × (code < 3)
    × (nibbles ≡ code + 4)
    × (size - 1 < 2 ^ (nibbles * 4))
    × ((nibbles ≡ 4) ⊎ (2 ^ ((nibbles - 1) * 4) ≤ size - 1))

get_or-All {ℓ} :
    {A : Type ℓ} (P : A → Type 0) (xs : List A) (n : ℕ) (d : A) → All P xs → P d → P (get_or xs n d)
get_or-All P [] n d h k = k
get_or-All P (x ∷ xs) zero d h k = h.0
get_or-All P (x ∷ xs) (suc n) d h k = get_or-All P xs n d h.1 k

window_code_short : (bits : ℕ) → (window_code bits).1 ≤ 32
unfolding window_code
window_code_short bits =
    get_or-All (λ (c : ℕ × ℕ). c.1 ≤ 32) window_codes (bits - 10) (0, 0) (omega arith) (omega arith)

add_stream_header-Holds :
    (s : BrotliStream) (cs : List ℕ)
    → Holds s.buffer cs
    → Holds
        (if s.uncompressed_size == 0 then add_stream_header s else s).buffer
        (cs ++ header_bits s)
unfolding add_stream_header
add_stream_header-Holds s cs held = elim (Bool-cases (s.uncompressed_size == 0)) [
  | inl e ↦ rw e (write-Holds s cs _ _ (window_code_short s.window_bits) held)
  | inr e ↦ rw (e, append-nil) held
]

regroup : (as' bs cs : List ℕ) → ((as' ++ 0 ∷ []) ++ bs) ++ cs ≡ as' ++ (0 ∷ (bs ++ cs))
regroup as' bs cs = simp append_assoc

add_length-Holds :
    (s : BrotliStream) (cs : List ℕ) (size nibbles code : ℕ)
    → nibbles ≤ 8
    → Holds s.buffer cs
    → Holds
        (add_length s size nibbles code).buffer
        ((cs ++ header_bits s) ++ (0 ∷ (bits_of 2 code ++ bits_of (nibbles * 4) (size - 1))))
unfolding add_length bits_of
add_length-Holds s cs size nibbles code few held =
    let t = if s.uncompressed_size == 0 then add_stream_header s else s in
    let h0 = add_stream_header-Holds s cs held in
    let h1 = write-Holds t _ 0 1 (omega arith) h0 in
    let h2 = write-Holds (write t 0 1) _ code 2 (omega arith) h1 in
    let h3 = write-Holds (write (write t 0 1) code 2) _ (size - 1) (nibbles * 4) (omega arith) h2 in
    rw (regroup (cs ++ header_bits s) (bits_of 2 code) (bits_of (nibbles * 4) (size - 1))) at h3

-- For a size that one meta-block can have, add_mlen succeeds, and appends the stream header, if
-- nothing has been written, and a meta-block header for the size.
pub add_mlen-Holds :
    (s : BrotliStream) (cs : List ℕ) (size : ℕ)
    → 0 < size
    → size ≤ max_metablock_size
    → Holds s.buffer cs
    → (t : BrotliStream) × (bits : List ℕ) × (add_mlen s size ≡ some t)
      × Holds t.buffer ((cs ++ header_bits s) ++ bits)
      × IsBlockHeader bits size
unfolding add_mlen
add_mlen-Holds s cs size pos fits held =
    let nonzero : (size == 0) ≡ false = ground arith in
    elim (Bool-cases (leb size 65536)) [
      | inl f ↦ (
        add_length s size 4 0,
        _,
        rw (nonzero, f),
        add_length-Holds s cs size 4 0 (omega arith) held,
        (4, 0, refl, omega arith, refl, ground arith, inl refl),
      )
      | inr f ↦ elim (Bool-cases (leb size 1048576)) [
        | inl g ↦ (
          add_length s size 5 1,
          _,
          rw (nonzero, f, g),
          add_length-Holds s cs size 5 1 (omega arith) held,
          (5, 1, refl, omega arith, refl, ground arith, inr (ground arith)),
        )
        | inr g ↦
            let k : leb size max_metablock_size ≡ true = ground arith in
            (
              add_length s size 6 2,
              _,
              rw (nonzero, f, g, k),
              add_length-Holds s cs size 6 2 (omega arith) held,
              (6, 2, refl, omega arith, refl, ground arith, inr (ground arith)),
            )
      ]
    ]
