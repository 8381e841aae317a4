-- ===== src/SparseBitSet/Depth.antt =====
-- TreeDepthFor and ValuesPerBitLog2ForLayer.
use ift_encoder.Prelude.{
  ℕ, zero, suc, ◌+◌, ◌-◌, ◌*◌, ◌^◌, ◌≤◌, ◌<◌, ◌≡◌, refl, List, ◌⊎◌, inl, inr, ◌==◌, if◌then◌else◌,
  get_or, length, arith, Bool-cases, ==_iff,
}
use mathlib.Core.Path.{subst}
use native.Mathlib.Nat.{pow-suc, pow-zero}
use ift_encoder.Prelude.Bits.{shr}
use ift_encoder.BitBuffer.BranchFactor.{
  BranchFactor, bf2, bf4, bf8, bf32, node_size, node_size_log2,
}

-- The while loop, on fuel for at least the number of binary digits of the value.
unfoldable pub depth_loop : ℕ → BranchFactor → ℕ → ℕ → ℕ
depth_loop zero bf max_value depth = depth
depth_loop (suc fuel) bf max_value depth =
    let rest = depth_loop fuel bf (shr max_value (node_size_log2 bf)) (depth + 1) in
    if max_value == 0 then depth else rest

unfoldable pub tree_depth_for : ℕ → BranchFactor → ℕ
tree_depth_for max_value bf = depth_loop 32 bf (shr max_value (node_size_log2 bf)) 1

-- The overload for the sorted values, whose last is the largest. There is one at least.
unfoldable pub tree_depth_for_values : List ℕ → BranchFactor → ℕ
tree_depth_for_values codepoints bf =
    tree_depth_for (get_or codepoints (length codepoints - 1) 0) bf

unfoldable pub values_per_bit_log2 : ℕ → ℕ → BranchFactor → ℕ
values_per_bit_log2 layer tree_depth bf = node_size_log2 bf * (tree_depth - layer - 1)

-- A value fits under `k` layers.
abbrev pub Fits : BranchFactor → ℕ → ℕ → Type 0
Fits bf v k = v < node_size bf ^ k

grow : (bf : BranchFactor) (v k : ℕ) → Fits bf (shr v (node_size_log2 bf)) k → Fits bf v (suc k)
grow bf2 v k h = omega (arith, pow-suc 2 k)
grow bf4 v k h = omega (arith, pow-suc 4 k)
grow bf8 v k h = omega (arith, pow-suc 8 k)
grow bf32 v k h = omega (arith, pow-suc 32 k)

lift :
    (bf : BranchFactor) (v k : ℕ)
    → node_size bf ^ k ≤ shr v (node_size_log2 bf)
    → node_size bf ^ suc k ≤ v
lift bf2 v k h = omega (arith, pow-suc 2 k)
lift bf4 v k h = omega (arith, pow-suc 4 k)
lift bf8 v k h = omega (arith, pow-suc 8 k)
lift bf32 v k h = omega (arith, pow-suc 32 k)

shift_small :
    (bf : BranchFactor) (v fuel : ℕ) → v < 2 ^ suc fuel → shr v (node_size_log2 bf) < 2 ^ fuel
shift_small bf2 v fuel h = omega (arith, pow-suc 2 fuel)
shift_small bf4 v fuel h = omega (arith, pow-suc 2 fuel)
shift_small bf8 v fuel h = omega (arith, pow-suc 2 fuel)
shift_small bf32 v fuel h = omega (arith, pow-suc 2 fuel)

-- No layer too many.
abbrev pub Tight : BranchFactor → ℕ → ℕ → Type 0
Tight bf v zero = Unit
Tight bf v (suc k) = node_size bf ^ k ≤ v

lift-Tight :
    (bf : BranchFactor) (v k : ℕ)
    → 1 ≤ v
    → Tight bf (shr v (node_size_log2 bf)) k
    → Tight bf v (suc k)
lift-Tight bf v zero pos h = omega (arith, pow-zero (node_size bf))
lift-Tight bf v (suc k) pos h = lift bf v k h

depth_loop_lem :
    (fuel : ℕ) (bf : BranchFactor) (v depth : ℕ)
    → v < 2 ^ fuel
    → (k : ℕ) × (depth_loop fuel bf v depth ≡ depth + k) × Fits bf v k × Tight bf v k
unfolding depth_loop
depth_loop_lem zero bf v depth small = (0, omega arith, omega (arith, pow-zero (node_size bf)), tt)
depth_loop_lem (suc fuel) bf v depth small = elim (Bool-cases (v == 0)) [
  | inl e ↦ (0, rw e (omega arith), omega (arith, pow-zero (node_size bf), (==_iff v 0).0 e), tt)
  | inr e ↦
      let (k, same, fits, tight) =
        depth_loop_lem fuel bf (shr v (node_size_log2 bf)) (depth + 1)
          (shift_small bf v fuel small) in
      (suc k, rw e (omega (arith, same)), grow bf v k fits, lift-Tight bf v k (ground arith) tight)
]

abbrev pub IsDepthOf : BranchFactor → ℕ → ℕ → Type 0
IsDepthOf bf v depth =
    (1 ≤ depth) × (v < node_size bf ^ depth) × ((depth ≡ 1) ⊎ (node_size bf ^ (depth - 1) ≤ v))

above :
    (bf : BranchFactor) (v k : ℕ)
    → Fits bf (shr v (node_size_log2 bf)) k
    → Tight bf (shr v (node_size_log2 bf)) k
    → IsDepthOf bf v (suc k)
above bf v zero fits tight = (omega arith, grow bf v 0 fits, inl refl)
above bf v (suc k) fits tight = (
  omega arith,
  grow bf v (suc k) fits,
  inr (subst (λ j. node_size bf ^ j ≤ v) (omega arith) (lift bf v k tight)),
)

-- For a value of 32 bits, TreeDepthFor gives the least depth from 1 on of a tree whose leaves reach
-- the value: the node size to the depth is above it, and to the depth less one is not, if the depth is
-- not 1.
pub tree_depth_for_lem :
    (max_value : ℕ) (bf : BranchFactor)
    → max_value < 2 ^ 32
    → IsDepthOf bf max_value (tree_depth_for max_value bf)
unfolding tree_depth_for
tree_depth_for_lem max_value bf small =
    let (k, same, fits, tight) =
      depth_loop_lem 32 bf (shr max_value (node_size_log2 bf)) 1
        (shift_small bf max_value 32 (omega arith)) in
    subst (IsDepthOf bf max_value) (omega (arith, same)) (above bf max_value k fits tight)
