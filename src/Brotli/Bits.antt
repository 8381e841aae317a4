-- ===== src/Brotli/Bits.antt =====
-- Binary digits, lowest first, and how a byte takes more of them.
use mathlib.Core.List.{append-nil}
use native.Mathlib.Nat.{
  pow-suc, add-mul-mod_self_left, mod-lt, mod-eq_of_lt, mul-lt-mul_of_pos_right, mul-le-mul_right,
  one-le-pow, zero-add, add-zero, mod-add-div',
}
use Prim.Native.Nat.{bit_or}
use ift_encoder.Prelude.{
  ℕ, zero, suc, ◌+◌, ◌*◌, ◌/◌, ◌%◌, ◌^◌, ◌≤◌, ◌<◌, ◌≡◌, sym, ap, ◌∙◌, List, [], ◌∷◌, ◌++◌, arith,
}
use ift_encoder.Prelude.Bits.{shl, low_bits, bit_or-shl, shl-suc}

-- The lowest `n` bits of a number.
unfoldable pub bits_of : ℕ → ℕ → List ℕ
bits_of zero v = []
bits_of (suc n) v = v % 2 ∷ bits_of n (v / 2)

pub pow-add : (a b : ℕ) → 2 ^ (a + b) ≡ 2 ^ a * 2 ^ b
pow-add zero b = rw zero-add (omega arith)
pow-add (suc a) b =
    let step : suc a + b ≡ suc (a + b) = omega arith in
    rw step (rw (pow-suc 2 (a + b), pow-suc 2 a, pow-add a b) (grind arith))

-- A field above the lowest `i` bits comes behind them.
pub bits_of-join :
    (i n a w : ℕ) → a < 2 ^ i → bits_of (i + n) (a + w * 2 ^ i) ≡ bits_of i a ++ bits_of n w
unfolding bits_of
bits_of-join zero n a w h = let whole : a + w * 1 ≡ w = omega arith in rw (zero-add, whole)
bits_of-join (suc i) n a w h =
    let step : suc i + n ≡ suc (i + n) = omega arith in
    let low : (a + w * 2 ^ suc i) % 2 ≡ a % 2 = omega (arith, shl-suc w i) in
    let high : (a + w * 2 ^ suc i) / 2 ≡ a / 2 + w * 2 ^ i = omega (arith, shl-suc w i) in
    rw step
      (rw (low, high) (ap (◌∷◌ (a % 2)) (bits_of-join i n (a / 2) w (omega (arith, pow-suc 2 i)))))

pub two_pow_pos : (n : ℕ) → 0 < 2 ^ n
two_pow_pos n = one-le-pow n 2 (omega arith)

split_bits : (n v : ℕ) → v % 2 ^ n + v / 2 ^ n * 2 ^ n ≡ v
split_bits n v = mod-add-div' v (2 ^ n)

pub bits_of-mod : (n v : ℕ) → bits_of n (v % 2 ^ n) ≡ bits_of n v
unfolding bits_of
bits_of-mod n v =
    let whole : bits_of (n + 0) v ≡ bits_of n (v % 2 ^ n) ++ [] =
      ap (bits_of (n + 0)) (sym (split_bits n v))
      ∙ bits_of-join n 0 (v % 2 ^ n) (v / 2 ^ n) (mod-lt v (two_pow_pos n)) in
    sym (append-nil _) ∙ sym whole ∙ rw add-zero

-- Reading `n` bits and then `m` bits of the rest is reading `n + m` bits.
pub bits_of-add : (n m v : ℕ) → bits_of (n + m) v ≡ bits_of n v ++ bits_of m (v / 2 ^ n)
bits_of-add n m v =
    ap (bits_of (n + m)) (sym (split_bits n v))
    ∙ bits_of-join n m (v % 2 ^ n) (v / 2 ^ n) (mod-lt v (two_pow_pos n))
    ∙ rw (bits_of-mod n v)

-- The casts to 32 and to 8 bits leave the bits that the mask keeps.
mask_casts : (k x : ℕ) → k ≤ 8 → x % 2 ^ 32 % 256 % 2 ^ k ≡ x % 2 ^ k
mask_casts zero x h = omega arith
mask_casts (suc zero) x h = omega arith
mask_casts (suc (suc zero)) x h = omega arith
mask_casts (suc (suc (suc zero))) x h = omega arith
mask_casts (suc (suc (suc (suc zero)))) x h = omega arith
mask_casts (suc (suc (suc (suc (suc zero))))) x h = omega arith
mask_casts (suc (suc (suc (suc (suc (suc zero)))))) x h = omega arith
mask_casts (suc (suc (suc (suc (suc (suc (suc zero))))))) x h = omega arith
mask_casts (suc (suc (suc (suc (suc (suc (suc (suc zero)))))))) x h = omega arith
mask_casts (suc (suc (suc (suc (suc (suc (suc (suc (suc k))))))))) x h = absurd (omega arith)

-- A field of `n` bits fits above `i` bits, and beside what is there.
field_fits : (i n w : ℕ) → w < 2 ^ n → w * 2 ^ i < 2 ^ (n + i)
field_fits i n w h = rw (pow-add n i) (mul-lt-mul_of_pos_right h (two_pow_pos i))

joined_fits : (i n a w : ℕ) → a < 2 ^ i → w < 2 ^ n → a + w * 2 ^ i < 2 ^ (i + n)
joined_fits i n a w h k =
    rw (pow-add i n) (grind (arith, mul-le-mul_right {m = suc w} {n = 2 ^ n} (2 ^ i) k))

shl_mod : (v i n : ℕ) → shl v i % 2 ^ (n + i) ≡ shl (v % 2 ^ n) i
shl_mod v i n =
    let split : v * 2 ^ i ≡ v % 2 ^ n * 2 ^ i + 2 ^ (n + i) * (v / 2 ^ n) =
      rw (pow-add n i) (grind (arith, ap (λ (t : ℕ). t * 2 ^ i) (split_bits n v))) in
    rw split (
      add-mul-mod_self_left (v % 2 ^ n * 2 ^ i) (2 ^ (n + i)) (v / 2 ^ n)
      ∙ mod-eq_of_lt (field_fits i n (v % 2 ^ n) (mod-lt v (two_pow_pos n))))

-- The byte after `n` more bits of `v`, and what it holds.
pub or_field :
    (i n a v : ℕ)
    → a < 2 ^ i
    → n + i ≤ 8
    → let b = bit_or a (low_bits (shl v i % 2 ^ 32 % 256) (n + i)) in
      (b < 2 ^ (i + n)) × (bits_of (i + n) b ≡ bits_of i a ++ bits_of n v)
or_field i n a v h few = rw (mask_casts (n + i) (shl v i) few) (
    rw (shl_mod v i n) (
      rw (bit_or-shl i a (v % 2 ^ n) h) (
        joined_fits i n a (v % 2 ^ n) h (mod-lt v (two_pow_pos n)),
        bits_of-join i n a (v % 2 ^ n) h ∙ rw (bits_of-mod n v),
      )))
