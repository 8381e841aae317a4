-- ===== src/Prelude/Bits.antt =====
-- Masks, shifts and the laws of `bit_or` that the bit buffers rest on.
use Prim.Native.Nat.{
  ℕ, zero, suc, ◌+◌, ◌*◌, ◌/◌, ◌%◌, ◌^◌, ◌≤◌, ◌<◌, min, max, bit_and, bit_or, digits,
  bit_or-bitwise, bit_and-bitwise,
}
use mathlib.Core.Path.{◌≡◌, refl, ap}
use native.Mathlib.Omega.{arith}
use native.Mathlib.Nat.{pow-suc}

-- x >> k, x << k and x & (2^k - 1).
abbrev pub shr : ℕ → ℕ → ℕ
shr x k = x / 2 ^ k

abbrev pub shl : ℕ → ℕ → ℕ
shl x k = x * 2 ^ k

abbrev pub low_bits : ℕ → ℕ → ℕ
low_bits x k = x % 2 ^ k

-- The native operations stand for a recursion on the binary digits, whose fuel does not matter once it
-- suffices.
digits_fuel :
    (z : ℕ → ℕ) (f : ℕ → ℕ → ℕ) (n m a b : ℕ) → a ≤ n → a ≤ m → digits z f n a b ≡ digits z f m a b
digits_fuel z f zero zero a b p q = refl
digits_fuel z f zero (suc m) zero b p q = refl
digits_fuel z f zero (suc m) (suc a) b p q = absurd (omega arith)
digits_fuel z f (suc n) zero zero b p q = refl
digits_fuel z f (suc n) zero (suc a) b p q = absurd (omega arith)
digits_fuel z f (suc n) (suc m) zero b p q = refl
digits_fuel z f (suc n) (suc m) (suc a) b p q =
    let above = digits_fuel z f n m (suc a / 2) (b / 2) (omega arith) (omega arith) in
    omega (arith, above)

zero-bit_or : (b : ℕ) → bit_or 0 b ≡ b
zero-bit_or b = bit_or-bitwise 0 b

-- The lowest digit, and the digits above it.
pub bit_or_lowest : (x y : ℕ) → bit_or x y ≡ max (x % 2) (y % 2) + 2 * bit_or (x / 2) (y / 2)
bit_or_lowest zero y = omega (arith, zero-bit_or y, zero-bit_or (y / 2))
bit_or_lowest (suc x) y =
    let fuel =
      digits_fuel (λ b. b) max x (suc x / 2) (suc x / 2) (y / 2) (omega arith) (omega arith) in
    omega (arith, fuel, bit_or-bitwise (suc x) y, bit_or-bitwise (suc x / 2) (y / 2))

pub bit_and_lowest : (x y : ℕ) → bit_and x y ≡ min (x % 2) (y % 2) + 2 * bit_and (x / 2) (y / 2)
bit_and_lowest zero y = omega (arith, bit_and-bitwise 0 y, bit_and-bitwise 0 (y / 2))
bit_and_lowest (suc x) y =
    let half = suc x / 2 in
    let fuel = digits_fuel (λ b. zero) min x half half (y / 2) (omega arith) (omega arith) in
    omega (arith, fuel, bit_and-bitwise (suc x) y, bit_and-bitwise half (y / 2))

pub shl-suc : (b k : ℕ) → shl b (suc k) ≡ 2 * shl b k
shl-suc b k = omega (arith, ap (λ (t : ℕ). b * t) (pow-suc 2 k))

-- A field above the lowest `k` bits joins a value that fits them by addition.
pub bit_or-shl : (k a b : ℕ) → a < 2 ^ k → bit_or a (shl b k) ≡ a + shl b k
bit_or-shl zero zero b h = omega (arith, zero-bit_or (shl b 0))
bit_or-shl zero (suc a) b h = absurd (omega arith)
bit_or-shl (suc k) a b h = ground (
  arith,
  bit_or_lowest a (shl b (suc k)),
  shl-suc b k,
  pow-suc 2 k,
  bit_or-shl k (a / 2) b (omega (arith, pow-suc 2 k)),
)

bit_or-zero : (n a : ℕ) → a ≤ n → bit_or a 0 ≡ a
bit_or-zero n zero h = refl
bit_or-zero zero (suc a) h = absurd (omega arith)
bit_or-zero (suc n) (suc a) h =
    omega (arith, bit_or_lowest (suc a) 0, bit_or-zero n (suc a / 2) (omega arith))

-- The other way round: the low field comes second.
pub shl-bit_or : (k a b : ℕ) → a < 2 ^ k → bit_or (shl b k) a ≡ a + shl b k
shl-bit_or zero zero b h = omega (arith, bit_or-zero (shl b 0) (shl b 0) (omega arith))
shl-bit_or zero (suc a) b h = absurd (omega arith)
shl-bit_or (suc k) a b h = ground (
  arith,
  bit_or_lowest (shl b (suc k)) a,
  shl-suc b k,
  pow-suc 2 k,
  shl-bit_or k (a / 2) b (omega (arith, pow-suc 2 k)),
)
