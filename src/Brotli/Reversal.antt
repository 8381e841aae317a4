-- ===== src/Brotli/Reversal.antt =====
-- brotli/brotli_bit_buffer.cc: the order of the bits of prefix codes.
use mathlib.Core.Path.{subst}
use mathlib.Core.List.{reverse as reverse_list}
use ift_encoder.Prelude.{
  ℕ, ◌-◌, ◌≤◌, ◌<◌, ◌≡◌, refl, min, Bool, true, false, ◌&&◌, List, [], ◌∷◌, ◌++◌, arith, ◌==◌,
}
use ift_encoder.Prelude.Tables.{holds_below, holds_below-at}
use ift_encoder.Prelude.Bits.{shr}
use ift_encoder.Brotli.BitBuffer.{BrotliBitBuffer, reverse, append_number, append_prefix_code}
use ift_encoder.Brotli.Bits.{bits_of}
use ift_encoder.Brotli.Appends.{Holds, append_number-Holds}

same_bits : List ℕ → List ℕ → Bool
same_bits [] [] = true
same_bits (x ∷ xs) (y ∷ ys) = x == y && same_bits xs ys
same_bits _ _ = false

same_bits-eq : (xs ys : List ℕ) → same_bits xs ys ≡ true → xs ≡ ys
unfolding same_bits
same_bits-eq [] [] h = refl
same_bits-eq [] (y ∷ ys) h = cc
same_bits-eq (x ∷ xs) [] h = cc
same_bits-eq (x ∷ xs) (y ∷ ys) h = ground (arith, same_bits-eq xs ys)

reverses : ℕ → ℕ → Bool
reverses count v =
    same_bits (bits_of count (shr (reverse v) (8 - count))) (reverse_list (bits_of count v))

reverses_table : holds_below 9 (λ count. holds_below 256 (reverses count)) ≡ true
unfolding holds_below reverses same_bits reverse bits_of
reverses_table = refl

-- A prefix code of up to eight bits is appended with its highest bit first.
pub append_prefix_code-Holds :
    (b : BrotliBitBuffer) (cs : List ℕ) (code count : ℕ)
    → code < 256
    → count ≤ 8
    → Holds b cs
    → Holds (append_prefix_code b code count) (cs ++ reverse_list (bits_of count code))
unfolding append_prefix_code
append_prefix_code-Holds b cs code count small few held =
    let clipped : min 8 count ≡ count = omega arith in
    let fits : min 32 count ≡ count = omega arith in
    let table =
      holds_below-at 256 (reverses count) code
        (holds_below-at 9 (λ c. holds_below 256 (reverses c)) count reverses_table (omega arith))
        small in
    let reversed : bits_of count (shr (reverse code) (8 - count))
        ≡ reverse_list (bits_of count code) =
      same_bits-eq _ _ (unfold reverses in table) in
    rw clipped (
      rw (← reversed) (
        subst
          (λ (t : ℕ).
            Holds (append_number b (shr (reverse code) (8 - count)) count)
              (cs ++ bits_of t (shr (reverse code) (8 - count))))
          fits (append_number-Holds b cs (shr (reverse code) (8 - count)) count held)))
