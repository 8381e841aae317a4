-- ===== src/UrlTemplate.antt =====
-- ift/url_template.{h,cc}: the expansion of a url template for a patch. The base32hex and base64url
-- encoders are cppcodec's, and are parameters. A string is a list of bytes.
pub mod Laws
mod Runs
use ift_encoder.Prelude.{
  ℕ, zero, suc, ◌+◌, ◌-◌, ◌%◌, ◌≤◌, ◌<◌, Bool, true, false, ◌&&◌, ◌||◌, List, [], ◌∷◌, ◌++◌, Option,
  none, some, ◌==◌, ltb, leb, if◌then◌else◌, length, take, drop, get_or,
}
use ift_encoder.Prelude.Bits.{shr, low_bits}
use mathlib.Core.List.{reverse}

-- cppcodec::base32_hex::encode and cppcodec::base64_url::encode.
pub record Encoders : Type 0 where
  pub base32_hex : List ℕ → List ℕ
  pub base64_url : List ℕ → List ℕ

pub data Error : Type 0 where
  unexpected_end : Error
  invalid_opcode : ℕ → Error

pub data Result {ℓ} (A : Type ℓ) : Type ℓ where
  ok : A → Result A
  err : Error → Result A

abbrev pub opcodes_start : ℕ
opcodes_start = 128

abbrev pub opcode_count : ℕ
opcode_count = 6

abbrev pub opcodes_end : ℕ
opcodes_end = opcodes_start + opcode_count - 1

-- The loop of Id64Expansion: `=` becomes `%3D`.
unfoldable pub escape_padding : List ℕ → List ℕ
escape_padding [] = []
escape_padding (c ∷ cs) =
    if c == b'=' then b'%' ∷ b'3' ∷ b'D' ∷ escape_padding cs else c ∷ escape_padding cs

-- The four bytes of the index, highest first.
unfoldable pub index_bytes : ℕ → List ℕ
index_bytes patch_idx =
    low_bits (shr patch_idx 24) 8
    ∷ low_bits (shr patch_idx 16) 8
    ∷ low_bits (shr patch_idx 8) 8
    ∷ low_bits patch_idx 8
    ∷ []

-- The while loop, with the rounds that are left before `start` is 3: leading zeros are dropped.
unfoldable pub skip_zeros : ℕ → List ℕ → List ℕ
skip_zeros zero bytes = bytes
skip_zeros (suc rounds) [] = []
skip_zeros (suc rounds) (b ∷ bytes) = elim (b == 0) [
  | true ↦ skip_zeros rounds bytes
  | false ↦ b ∷ bytes
]

-- On the reversed string: drops the characters before the first that is not `=`.
skip_padding : List ℕ → List ℕ
skip_padding [] = []
skip_padding (c ∷ cs) = if c == b'=' then skip_padding cs else c ∷ cs

-- The erase with find_if on reverse iterators.
unfoldable pub trim_padding : List ℕ → List ℕ
unfolding skip_padding
trim_padding cs = reverse (skip_padding (reverse cs))

-- The digit at place `n` from the end, from 1 on, or `_`.
unfoldable pub digit_from_end : ℕ → List ℕ → List ℕ
digit_from_end n base32 =
    if leb n (length base32) then take 1 (drop (length base32 - n) base32) else b'_' ∷ []

module _ (encoders : Encoders) where
  -- PopulateExpansions: id32, d1 to d4, and id64.
  unfoldable pub populate_expansions : ℕ → List (List ℕ)
  unfolding escape_padding index_bytes skip_zeros trim_padding digit_from_end
  populate_expansions patch_idx =
      let bytes = skip_zeros 3 (index_bytes patch_idx) in
      let base32 = trim_padding (encoders.base32_hex bytes) in
      base32
      ∷ digit_from_end 1 base32
      ∷ digit_from_end 2 base32
      ∷ digit_from_end 3 base32
      ∷ digit_from_end 4 base32
      ∷ escape_padding (encoders.base64_url bytes)
      ∷ []

-- The while loop of PatchToUrl, on the part of the template from `index` on. A round takes one byte
-- at least, so the number of bytes is fuel enough; `none` stands for fuel that ran out.
unfoldable pub expand : List (List ℕ) → ℕ → List ℕ → List ℕ → Option (Result (List ℕ))
expand expansions fuel [] out = some (ok out)
expand expansions zero (op_code ∷ rest) out = none
expand expansions (suc fuel) (op_code ∷ rest) out =
    let num_literals = low_bits op_code 7 in
    let literals =
      expand expansions fuel (drop num_literals rest) (out ++ take num_literals rest) in
    let expansion =
      expand expansions fuel rest (out ++ get_or expansions (op_code - opcodes_start) []) in
    if ltb op_code 128
    then (if ltb (length rest) num_literals
        then some (err unexpected_end)
        else if num_literals == 0
        then some (err (invalid_opcode op_code))
        else literals)
    else (if ltb op_code opcodes_start || ltb opcodes_end op_code
        then some (err (invalid_opcode op_code))
        else expansion)

module _ (encoders : Encoders) where
  -- URLTemplate::PatchToUrl
  unfoldable pub patch_to_url : List ℕ → ℕ → Option (Result (List ℕ))
  unfolding populate_expansions expand
  patch_to_url url_template patch_idx =
      expand (populate_expansions encoders patch_idx) (length url_template) url_template []
