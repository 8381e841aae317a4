-- ===== src/UrlTemplate/Laws.antt =====
-- What a url template means: a list of literal runs and expansion opcodes, written to bytes as the
-- template format prescribes. The expansion of ift/url_template.cc is compared with that reading.
use mathlib.Core.Path.{subst}
use mathlib.Core.List.{append_assoc, append-nil}
use ift_encoder.Prelude.{
  ℕ, zero, suc, ◌+◌, ◌-◌, ◌*◌, ◌^◌, ◌≤◌, ◌<◌, ◌≡◌, refl, ◌∙◌, List, [], ◌∷◌, ◌++◌, Option, some,
  ◌==◌, ltb, length, take, drop, get_or, All, arith, Bool-cases, ltb→lt, lt→ltb, inl, inr, ◌⊎◌,
  length-append, length-take, length-drop, take-append-drop,
}
use ift_encoder.Prelude.Bits.{low_bits, shr}
use ift_encoder.UrlTemplate.{
  Encoders, Error, unexpected_end, invalid_opcode, Result, ok, err, opcodes_end, index_bytes,
  skip_zeros, populate_expansions, expand, patch_to_url,
}

pub data Part : Type 0 where
  literals : List ℕ → Part
  expansion : ℕ → Part

-- A run has 1 to 127 bytes, and there are six expansions.
unfoldable pub IsPart : Part → Type 0
IsPart (literals cs) = (1 ≤ length cs) × (length cs < 128)
IsPart (expansion n) = n < 6

unfoldable pub print_part : Part → List ℕ
print_part (literals cs) = length cs ∷ cs
print_part (expansion n) = (128 + n) ∷ []

unfoldable pub print : List Part → List ℕ
print [] = []
print (part ∷ parts) = print_part part ++ print parts

unfoldable pub render_part : List (List ℕ) → Part → List ℕ
render_part expansions (literals cs) = cs
render_part expansions (expansion n) = get_or expansions n []

unfoldable pub render : List (List ℕ) → List Part → List ℕ
render expansions [] = []
render expansions (part ∷ parts) = render_part expansions part ++ render expansions parts

take_all : (xs ys : List ℕ) → take (length xs) (xs ++ ys) ≡ xs
take_all [] ys = refl
take_all (x ∷ xs) ys = rw (take_all xs ys)

drop_all : (xs ys : List ℕ) → drop (length xs) (xs ++ ys) ≡ ys
drop_all [] ys = refl
drop_all (x ∷ xs) ys = drop_all xs ys

module _ (expansions : List (List ℕ)) where
  expand_literals :
      (fuel n : ℕ) (rest out : List ℕ)
      → 1 ≤ n
      → n < 128
      → n ≤ length rest
      → expand expansions (suc fuel) (n ∷ rest) out
        ≡ expand expansions fuel (drop n rest) (out ++ take n rest)
  unfolding expand
  expand_literals fuel n rest out low high fits = rw (small, lt→ltb n 128 high) (ground arith)
    where
      small : low_bits n 7 ≡ n
      small = omega arith

  expand_expansion :
      (fuel n : ℕ) (rest out : List ℕ)
      → n < 6
      → expand expansions (suc fuel) ((128 + n) ∷ rest) out
        ≡ expand expansions fuel rest (out ++ get_or expansions n [])
  unfolding expand
  expand_expansion fuel n rest out low = ground arith

  expand-print :
      (parts : List Part) (fuel : ℕ) (out : List ℕ)
      → All IsPart parts
      → length (print parts) ≤ fuel
      → expand expansions fuel (print parts) out ≡ some (ok (out ++ render expansions parts))
  unfolding expand print print_part render render_part IsPart
  expand-print [] fuel out good enough = rw (append-nil out) refl
  expand-print (literals cs ∷ parts) zero out good enough = absurd (omega arith)
  expand-print (expansion n ∷ parts) zero out good enough = absurd (omega arith)
  expand-print (literals cs ∷ parts) (suc fuel) out good enough =
      expand_literals fuel (length cs) (cs ++ print parts) out good.0.0 good.0.1
        (omega (arith, length-append cs (print parts)))
      ∙ rw (drop_all cs (print parts), take_all cs (print parts))
          (expand-print parts fuel (out ++ cs) good.1
              (omega (arith, length-append cs (print parts)))
            ∙ rw (append_assoc out cs (render expansions parts)) refl)
  expand-print (expansion n ∷ parts) (suc fuel) out good enough =
      expand_expansion fuel n (print parts) out good.0
      ∙ expand-print parts fuel (out ++ get_or expansions n []) good.1 (omega arith)
      ∙ rw (append_assoc out (get_or expansions n []) (render expansions parts)) refl

  abbrev Reads : List ℕ → Option (Result (List ℕ)) → Type 0
  Reads template result =
      ((e : Error) × (result ≡ some (err e)))
      ⊎ ((parts : List Part) × All IsPart parts × (template ≡ print parts))

  extend :
      (part : Part) (rest : List ℕ) (result : Option (Result (List ℕ)))
      → IsPart part
      → Reads rest result
      → Reads (print_part part ++ rest) result
  unfolding print
  extend part rest result good (inl failed) = inl failed
  extend part rest result good (inr (parts, all, same)) =
      inr (part ∷ parts, (good, all), rw same refl)

  extend_literals :
      (c : ℕ) (rest : List ℕ) (result : Option (Result (List ℕ)))
      → 1 ≤ c
      → c < 128
      → c ≤ length rest
      → Reads (drop c rest) result
      → Reads (c ∷ rest) result
  unfolding print_part IsPart
  extend_literals c rest result one low fits h =
      subst (λ run. Reads run result) (rw (size, take-append-drop c rest) refl)
        (extend (literals (take c rest)) (drop c rest) result
          (omega (arith, size), omega (arith, size)) h)
    where
      size : length (take c rest) ≡ c
      size = omega (arith, length-take c rest)

  opcode_cases :
      (fuel c : ℕ) (rest out : List ℕ)
      → ((e : Error) × (expand expansions (suc fuel) (c ∷ rest) out ≡ some (err e)))
        ⊎ ((1 ≤ c) × (c < 128) × (c ≤ length rest))
        ⊎ ((n : ℕ) × (n < 6) × (c ≡ 128 + n))
  unfolding expand
  opcode_cases fuel c rest out = elim (Bool-cases (ltb c 128)) [
    | inl low ↦
        let small : low_bits c 7 ≡ c = omega (arith, ltb→lt c 128 low) in
        elim (Bool-cases (ltb (length rest) c)) [
          | inl short ↦ inl (unexpected_end, rw (small) (ground arith))
          | inr enough ↦ elim (Bool-cases (c == 0)) [
            | inl none_ ↦ inl (invalid_opcode c, rw (small) (ground arith))
            | inr some_ ↦ inr (inl (ground arith, ground arith, ground arith))
          ]
        ]
    | inr high ↦ elim (Bool-cases (ltb opcodes_end c)) [
      | inl above ↦ inl (invalid_opcode c, ground arith)
      | inr within ↦ inr (inr (c - 128, ground arith, ground arith))
    ]
  ]

  expand-Reads :
      (fuel : ℕ) (template out : List ℕ)
      → length template ≤ fuel
      → Reads template (expand expansions fuel template out)
  unfolding expand print IsPart print_part
  expand-Reads fuel [] out enough = inr ([], tt, refl)
  expand-Reads zero (c ∷ rest) out enough = absurd (omega arith)
  expand-Reads (suc fuel) (c ∷ rest) out enough = elim (opcode_cases fuel c rest out) [
    | inl failed ↦ inl failed
    | inr (inl (one, low, fits)) ↦ rw (expand_literals fuel c rest out one low fits) (
        extend_literals c rest _ one low fits
          (expand-Reads fuel (drop c rest) _ (omega (arith, length-drop c rest))))
    | inr (inr (n, low, same)) ↦ rw same (
        rw (expand_expansion fuel n rest out low)
          (extend (expansion n) rest _ low (expand-Reads fuel rest _ (omega arith))))
  ]

patch_to_url-Reads :
    (encoders : Encoders) (url_template : List ℕ) (patch_idx : ℕ)
    → Reads
        (populate_expansions encoders patch_idx)
        url_template
        (patch_to_url encoders url_template patch_idx)
unfolding patch_to_url
patch_to_url-Reads encoders url_template patch_idx =
    expand-Reads (populate_expansions encoders patch_idx) (length url_template) url_template []
      (omega arith)

-- A template that is a list of literal runs, of 1 to 127 bytes each, and of the six expansion opcodes
-- expands to the concatenation of the runs and of the expansions of the patch index, in order.
pub patch_to_url-print :
    (encoders : Encoders) (parts : List Part) (patch_idx : ℕ)
    → All IsPart parts
    → patch_to_url encoders (print parts) patch_idx
      ≡ some (ok (render (populate_expansions encoders patch_idx) parts))
unfolding patch_to_url
patch_to_url-print encoders parts patch_idx good =
    expand-print (populate_expansions encoders patch_idx) parts (length (print parts)) [] good
      (omega arith)

-- The expansion of any template ends. Either the template is a list of literal runs, of 1 to 127 bytes
-- each, and of the six expansion opcodes, and the result is the concatenation of the runs and of the
-- expansions of the patch index, in order; or the template is no such list, and the result is an error.
pub patch_to_url-total :
    (encoders : Encoders) (url_template : List ℕ) (patch_idx : ℕ)
    → ((parts : List Part) × All IsPart parts
        × (url_template ≡ print parts)
        × (patch_to_url encoders url_template patch_idx
            ≡ some (ok (render (populate_expansions encoders patch_idx) parts))))
      ⊎ ((e : Error) × (patch_to_url encoders url_template patch_idx ≡ some (err e))
          × ((parts : List Part) → All IsPart parts → url_template ≡ print parts → ⊥))
patch_to_url-total encoders url_template patch_idx =
    elim (patch_to_url-Reads encoders url_template patch_idx) [
      | inl (e, fails) ↦ inr (
        e,
        fails,
        λ parts good same.
            let works = patch_to_url-print encoders parts patch_idx good in
            let fails' = subst (λ t. patch_to_url encoders t patch_idx ≡ some (err e)) same fails in
            cc,
      )
      | inr (parts, good, same) ↦
          inl (parts, good, same, rw same (patch_to_url-print encoders parts patch_idx good))
    ]

-- The bytes that `skip_zeros 3` leaves of the four bytes of a patch index, read as a number in base 256.
unfoldable pub read_index : List ℕ → ℕ → ℕ
read_index [] n = n
read_index (b ∷ bytes) n = read_index bytes (n * 256 + b)

abbrev pub Canonical : ℕ → List ℕ → Type 0
Canonical n bytes =
    (read_index bytes 0 ≡ n)
    × (1 ≤ length bytes)
    × (length bytes ≤ 4)
    × ((length bytes ≡ 1) ⊎ (1 ≤ get_or bytes 0 0))

module _ (a b c d : ℕ) where
  skip_zeros-cases :
      (skip_zeros 3 (a ∷ b ∷ c ∷ d ∷ []) ≡ a ∷ b ∷ c ∷ d ∷ []) × (1 ≤ a)
      ⊎ ((skip_zeros 3 (a ∷ b ∷ c ∷ d ∷ []) ≡ b ∷ c ∷ d ∷ []) × (a ≡ 0) × (1 ≤ b))
      ⊎ ((skip_zeros 3 (a ∷ b ∷ c ∷ d ∷ []) ≡ c ∷ d ∷ []) × (a ≡ 0) × (b ≡ 0) × (1 ≤ c))
      ⊎ ((skip_zeros 3 (a ∷ b ∷ c ∷ d ∷ []) ≡ d ∷ []) × (a ≡ 0) × (b ≡ 0) × (c ≡ 0))
  unfolding skip_zeros
  skip_zeros-cases = ground arith

  skip_zeros_lem :
      Canonical (a * 2 ^ 24 + b * 2 ^ 16 + c * 2 ^ 8 + d) (skip_zeros 3 (a ∷ b ∷ c ∷ d ∷ []))
  unfolding read_index
  skip_zeros_lem = elim skip_zeros-cases [
    | inl (e, p) ↦ rw e (omega arith, omega arith, omega arith, inr p)
    | inr (inl (e, za, p)) ↦ rw e (omega arith, omega arith, omega arith, inr p)
    | inr (inr (inl (e, za, zb, p))) ↦ rw e (omega arith, omega arith, omega arith, inr p)
    | inr (inr (inr (e, za, zb, zc))) ↦ rw e (omega arith, omega arith, omega arith, inl refl)
  ]

-- The bytes given to the encoders are one to four, are the patch index of 32 bits in base 256, and the
-- first of several is not zero.
pub skip_zeros-index_bytes :
    (patch_idx : ℕ)
    → patch_idx < 2 ^ 32
    → Canonical patch_idx (skip_zeros 3 (index_bytes patch_idx))
unfolding index_bytes
skip_zeros-index_bytes patch_idx small =
    subst (λ n. Canonical n (skip_zeros 3 (index_bytes patch_idx))) (omega arith)
      (skip_zeros_lem (low_bits (shr patch_idx 24) 8) (low_bits (shr patch_idx 16) 8)
        (low_bits (shr patch_idx 8) 8) (low_bits patch_idx 8))
