-- ===== src/UrlTemplate/Runs.antt =====
-- Templates expanded with stand-ins for the encoders, and the theorems applied to them.
use ift_encoder.Prelude.{◌≡◌, refl, List, [], ◌∷◌, ◌++◌, some, ◌⊎◌, All, arith}
use ift_encoder.UrlTemplate.{
  Encoders, Error, unexpected_end, invalid_opcode, ok, err, populate_expansions, patch_to_url,
  index_bytes, skip_zeros, expand,
}
use ift_encoder.UrlTemplate.Laws.{
  Part, literals, expansion, IsPart, print, render, patch_to_url-print, patch_to_url-total,
  Canonical, skip_zeros-index_bytes,
}

-- Encoders that leave the bytes and pad them.
abbrev padding_encoders : Encoders
padding_encoders = record {
  base32_hex = λ bytes. bytes ++ (b'=' ∷ b'=' ∷ []);
  base64_url = λ bytes. bytes ++ (b'=' ∷ []);
}

abbrev parts : List Part
parts =
    literals (b'/' ∷ b'/' ∷ b'f' ∷ b'o' ∷ b'o' ∷ b'/' ∷ [])
    ∷ expansion 1
    ∷ literals (b'/' ∷ [])
    ∷ expansion 0
    ∷ expansion 5
    ∷ []

expanded :
    patch_to_url padding_encoders
      (6 ∷ (b'/' ∷ b'/' ∷ b'f' ∷ b'o' ∷ b'o' ∷ b'/' ∷ []) ++ 129 ∷ 128 ∷ [])
      1633771873
    ≡ some (ok (b'/' ∷ b'/' ∷ b'f' ∷ b'o' ∷ b'o' ∷ b'/' ∷ b'a' ∷ b'a' ∷ b'a' ∷ b'a' ∷ b'a' ∷ []))
unfolding patch_to_url populate_expansions expand
expanded = refl

cut_off :
    patch_to_url padding_encoders (4 ∷ (b'a' ∷ b'b' ∷ b'c' ∷ [])) 7 ≡ some (err unexpected_end)
unfolding patch_to_url expand
cut_off = refl

no_literals : patch_to_url padding_encoders (129 ∷ 0 ∷ []) 7 ≡ some (err (invalid_opcode 0))
unfolding patch_to_url expand
no_literals = refl

patch_to_url-print_example :
    patch_to_url padding_encoders (print parts) 258
    ≡ some (ok (render (populate_expansions padding_encoders 258) parts))
unfolding IsPart
patch_to_url-print_example = patch_to_url-print padding_encoders parts 258 (
  (omega arith, omega arith),
  (omega arith, ((omega arith, omega arith), (omega arith, (omega arith, tt)))),
)

patch_to_url-total_example :
    ((ps : List Part) × All IsPart ps
      × ((6 ∷ (b'/' ∷ b'/' ∷ b'f' ∷ b'o' ∷ b'o' ∷ b'/' ∷ []) ++ 134 ∷ []) ≡ print ps)
      × (patch_to_url padding_encoders
            (6 ∷ (b'/' ∷ b'/' ∷ b'f' ∷ b'o' ∷ b'o' ∷ b'/' ∷ []) ++ 134 ∷ [])
            7
          ≡ some (ok (render (populate_expansions padding_encoders 7) ps))))
    ⊎ ((e : Error) × (patch_to_url padding_encoders
            (6 ∷ (b'/' ∷ b'/' ∷ b'f' ∷ b'o' ∷ b'o' ∷ b'/' ∷ []) ++ 134 ∷ [])
            7
          ≡ some (err e))
        × ((ps : List Part)
            → All IsPart ps
            → (6 ∷ (b'/' ∷ b'/' ∷ b'f' ∷ b'o' ∷ b'o' ∷ b'/' ∷ []) ++ 134 ∷ []) ≡ print ps
            → ⊥))
patch_to_url-total_example =
    patch_to_url-total padding_encoders
      (6 ∷ (b'/' ∷ b'/' ∷ b'f' ∷ b'o' ∷ b'o' ∷ b'/' ∷ []) ++ 134 ∷ []) 7

skip_zeros-index_bytes_example : Canonical 66051 (skip_zeros 3 (index_bytes 66051))
skip_zeros-index_bytes_example = skip_zeros-index_bytes 66051 (omega arith)
