-- ===== src/BitBuffer/BranchFactor.antt =====
-- ift/common/branch_factor.h: the branch factors and their tables of constants.
use ift_encoder.Prelude.{ℕ, ◌*◌, ◌^◌, ◌≡◌, refl}

pub data BranchFactor : Type 0 where
  bf2 bf4 bf8 bf32 : BranchFactor

-- kBFNodeSize
abbrev pub node_size : BranchFactor → ℕ
node_size bf2 = 2
node_size bf4 = 4
node_size bf8 = 8
node_size bf32 = 32

-- kBFNodeSizeLog2
abbrev pub node_size_log2 : BranchFactor → ℕ
node_size_log2 bf2 = 1
node_size_log2 bf4 = 2
node_size_log2 bf8 = 3
node_size_log2 bf32 = 5

-- kBFTwigSize
abbrev pub twig_size : BranchFactor → ℕ
twig_size bf = node_size bf * node_size bf

-- kBFTwigSizeLog2
abbrev pub twig_size_log2 : BranchFactor → ℕ
twig_size_log2 bf = node_size_log2 bf * 2

-- kBFMaxDepth
abbrev pub max_depth : BranchFactor → ℕ
max_depth bf2 = 31
max_depth bf4 = 16
max_depth bf8 = 11
max_depth bf32 = 7

pub node_size-pow : (bf : BranchFactor) → node_size bf ≡ 2 ^ node_size_log2 bf
node_size-pow bf2 = refl
node_size-pow bf4 = refl
node_size-pow bf8 = refl
node_size-pow bf32 = refl
