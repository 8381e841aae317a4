-- ===== src/SparseBitSet/Masks.antt =====
-- The masks of twigs: the bits below a power of two are a remainder.
use Prim.Native.Nat.{bit_and}
use ift_encoder.Prelude.{ℕ, zero, suc, ◌/◌, ◌%◌, ◌≤◌, ◌≡◌, refl, arith}
use ift_encoder.Prelude.Bits.{bit_and_lowest}
use ift_encoder.BitBuffer.BranchFactor.{BranchFactor, bf2, bf4, bf8, bf32, twig_size}
use ift_encoder.SparseBitSet.Twigs.{twig_size_bit_mask}

and_none : (fuel x : ℕ) → x ≤ fuel → bit_and x 0 ≡ 0
and_none fuel zero small = refl
and_none zero (suc x) small = absurd (omega arith)
and_none (suc fuel) (suc x) small =
    let above = and_none fuel (suc x / 2) (omega arith) in
    omega (arith, bit_and_lowest (suc x) 0, above)

mask1 : (x : ℕ) → bit_and x 1 ≡ x % 2
mask1 x = omega (arith, bit_and_lowest x 1, and_none (x / 2) (x / 2) (omega arith))

mask2 : (x : ℕ) → bit_and x 3 ≡ x % 4
mask2 x = omega (arith, bit_and_lowest x 3, mask1 (x / 2))

mask3 : (x : ℕ) → bit_and x 7 ≡ x % 8
mask3 x = omega (arith, bit_and_lowest x 7, mask2 (x / 2))

mask4 : (x : ℕ) → bit_and x 15 ≡ x % 16
mask4 x = omega (arith, bit_and_lowest x 15, mask3 (x / 2))

mask5 : (x : ℕ) → bit_and x 31 ≡ x % 32
mask5 x = omega (arith, bit_and_lowest x 31, mask4 (x / 2))

mask6 : (x : ℕ) → bit_and x 63 ≡ x % 64
mask6 x = omega (arith, bit_and_lowest x 63, mask5 (x / 2))

mask7 : (x : ℕ) → bit_and x 127 ≡ x % 128
mask7 x = omega (arith, bit_and_lowest x 127, mask6 (x / 2))

mask8 : (x : ℕ) → bit_and x 255 ≡ x % 256
mask8 x = omega (arith, bit_and_lowest x 255, mask7 (x / 2))

mask9 : (x : ℕ) → bit_and x 511 ≡ x % 512
mask9 x = omega (arith, bit_and_lowest x 511, mask8 (x / 2))

mask10 : (x : ℕ) → bit_and x 1023 ≡ x % 1024
mask10 x = omega (arith, bit_and_lowest x 1023, mask9 (x / 2))

pub twig_mask :
    (bf : BranchFactor) (cp : ℕ) → bit_and cp (twig_size_bit_mask bf) ≡ cp % twig_size bf
twig_mask bf2 cp = mask2 cp
twig_mask bf4 cp = mask4 cp
twig_mask bf8 cp = mask6 cp
twig_mask bf32 cp = mask10 cp
