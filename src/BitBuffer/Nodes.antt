-- ===== src/BitBuffer/Nodes.antt =====
-- The sequence of node values that a byte string holds at each branch factor, as a description that
-- neither buffer computes by.
use ift_encoder.Prelude.{ℕ, sym, ◌+◌, ◌*◌, ◌/◌, ◌%◌, ◌^◌, ◌<◌, ◌≡◌, refl, List, [], ◌∷◌, ◌++◌}
use mathlib.Core.List.{append_assoc}
use ift_encoder.BitBuffer.BranchFactor.{BranchFactor, bf2, bf4, bf8, bf32, node_size}

-- The four pairs of a byte, lowest first.
abbrev pub pairs : ℕ → List ℕ
pairs b = b % 4 ∷ b / 4 % 4 ∷ b / 16 % 4 ∷ b / 64 % 4 ∷ []

-- The two nibbles of a byte, lowest first.
abbrev pub nibbles : ℕ → List ℕ
nibbles b = b % 16 ∷ b / 16 ∷ []

-- Four bytes, lowest first.
abbrev pub word : ℕ → ℕ → ℕ → ℕ → ℕ
word a b c d = a + 256 * b + 65536 * c + 16777216 * d

pub words : List ℕ → List ℕ
words (a ∷ b ∷ c ∷ d ∷ rest) = word a b c d ∷ words rest
words _ = []

abbrev pub spread : (ℕ → List ℕ) → List ℕ → List ℕ
spread f [] = []
spread f (b ∷ bs) = f b ++ spread f bs

unfoldable pub nodes_of : BranchFactor → List ℕ → List ℕ
unfolding words
nodes_of bf2 bytes = spread pairs bytes
nodes_of bf4 bytes = spread nibbles bytes
nodes_of bf8 bytes = bytes
nodes_of bf32 bytes = words bytes

-- What a node of a tree keeps of a uint32_t: as many bits as it has children.
abbrev pub node_bits : BranchFactor → ℕ → ℕ
node_bits bf x = x % 2 ^ node_size bf

pub spread-append :
    (f : ℕ → List ℕ) (xs ys : List ℕ) → spread f (xs ++ ys) ≡ spread f xs ++ spread f ys
spread-append f [] ys = refl
spread-append f (x ∷ xs) ys = rw (spread-append f xs ys) (sym (append_assoc (f x) _ _))

-- Every word of the string is complete, and made of bytes.
abbrev pub Aligned : List ℕ → Type 0
Aligned (a ∷ b ∷ c ∷ d ∷ rest) = (a < 256) × (b < 256) × (c < 256) × (d < 256) × Aligned rest
Aligned [] = Unit
Aligned _ = ⊥

abbrev pub WholeNodes : BranchFactor → List ℕ → Type 0
WholeNodes bf32 bytes = Aligned bytes
WholeNodes bf bytes = Unit

words-append : (xs ys : List ℕ) → Aligned xs → words (xs ++ ys) ≡ words xs ++ words ys
unfolding words
words-append [] ys h = refl
words-append (a ∷ b ∷ c ∷ d ∷ rest) ys h = rw (words-append rest ys h.4)
words-append (a ∷ b ∷ c ∷ []) ys h = absurd h
words-append (a ∷ b ∷ []) ys h = absurd h
words-append (a ∷ []) ys h = absurd h

Aligned-append : (xs ys : List ℕ) → Aligned xs → Aligned ys → Aligned (xs ++ ys)
Aligned-append [] ys h k = k
Aligned-append (a ∷ b ∷ c ∷ d ∷ rest) ys h k = (h.0, h.1, h.2, h.3, Aligned-append rest ys h.4 k)
Aligned-append (a ∷ b ∷ c ∷ []) ys h k = absurd h
Aligned-append (a ∷ b ∷ []) ys h k = absurd h
Aligned-append (a ∷ []) ys h k = absurd h

pub nodes_of-append :
    (bf : BranchFactor) (xs ys : List ℕ)
    → WholeNodes bf xs
    → nodes_of bf (xs ++ ys) ≡ nodes_of bf xs ++ nodes_of bf ys
unfolding nodes_of
nodes_of-append bf2 xs ys h = spread-append pairs xs ys
nodes_of-append bf4 xs ys h = spread-append nibbles xs ys
nodes_of-append bf8 xs ys h = refl
nodes_of-append bf32 xs ys h = words-append xs ys h

pub WholeNodes-append :
    (bf : BranchFactor) (xs ys : List ℕ)
    → WholeNodes bf xs
    → WholeNodes bf ys
    → WholeNodes bf (xs ++ ys)
WholeNodes-append bf32 xs ys h k = Aligned-append xs ys h k
WholeNodes-append _ xs ys h k = tt

-- How many nodes a byte holds, or shares with its neighbours.
abbrev pub per_byte : BranchFactor → ℕ
per_byte bf2 = 4
per_byte bf4 = 2
per_byte bf8 = 1
per_byte bf32 = 1
