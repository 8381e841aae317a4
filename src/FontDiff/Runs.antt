-- ===== src/FontDiff/Runs.antt =====
-- Runs of the diff over streams that are the bytes that they decode to, and its theorems at concrete
-- inputs.
use ift_encoder.Prelude.{
  ℕ, none, ◌+◌, ◌<◌, ◌≡◌, ◌↔◌, refl, Bool, true, false, List, [], ◌∷◌, ◌++◌, length, some, ◌==◌,
  ltb, if◌then◌else◌,
}
use ift_encoder.FontDiff.Streams.{Streams, span}
use ift_encoder.Brotli.Stream.{create as create_stream}
use ift_encoder.FontDiff.BrotliStreams.{brotli_streams}
use ift_encoder.FontDiff.Range.{ok, err, TableRange, create, out_of_bounds}
use ift_encoder.FontDiff.Differs.{hmtx_differ, loca_differ, create_loca, HmtxDiffer, init}
use ift_encoder.FontDiff.Driver.{
  commit, GlyphMap, Plan, RangeAndDiffer, make_diff, map_value_invalid,
}
use ift_encoder.FontDiff.Commits.{commit-out_of_bounds}

-- Two glyphs in the base font, three in the derived font.
abbrev count_map : ℕ → GlyphMap
count_map n = record {
  get = λ gid. if ltb gid n then gid else map_value_invalid;
  has = λ gid. ltb gid n;
}

abbrev plan : Plan
plan = record {
  base_new_to_old = count_map 2;
  derived_old_to_new = count_map 3;
  base_glyph_count = 2;
  derived_glyph_count = 3;
  retain_gids = false;
}

-- The tables loca and hmtx of the base font.
abbrev base_font : List ℕ
base_font = 0 ∷ 0 ∷ 0 ∷ 1 ∷ 0 ∷ 2 ∷ 0 ∷ 0 ∷ 1 ∷ 1 ∷ 1 ∷ 1 ∷ 2 ∷ 2 ∷ 2 ∷ 2 ∷ []

abbrev derived_loca : List ℕ
derived_loca = 0 ∷ 0 ∷ 0 ∷ 1 ∷ 0 ∷ 2 ∷ 0 ∷ 5 ∷ []

abbrev derived_hmtx : List ℕ
derived_hmtx = 1 ∷ 1 ∷ 1 ∷ 1 ∷ 2 ∷ 2 ∷ 2 ∷ 2 ∷ 3 ∷ 3 ∷ []

-- Streams of the bytes alone, with the offset that they start at. A copy of one byte is refused.
abbrev insert : ℕ × List ℕ → ℕ → ℕ → Bool × (ℕ × List ℕ)
insert s offset size =
    if size == 1 then (false, s) else (true, (s.0, s.1 ++ span base_font offset size))

abbrev copying : Streams
copying = record {
  Stream = ℕ × List ℕ;
  insert_compressed = λ s bytes. some (s.0, s.1 ++ bytes);
  insert_from_dictionary = insert;
  insert_uncompressed = λ s bytes. (s.0, s.1 ++ bytes);
  uncompressed_size = λ s. s.0 + length s.1;
  append = λ s t. (s.0, s.1 ++ t.1);
}

abbrev metrics : HmtxDiffer
metrics = record { mode = init; base_number_of_metrics = 2; derived_number_of_metrics = 2 }

abbrev ranges : List (RangeAndDiffer copying)
ranges =
    record {
      range = create copying derived_loca 0 (0, []) 0;
      differ = loca_differ (create_loca true true);
    }
    ∷ record { range = create copying derived_hmtx 8 (8, []) 1; differ = hmtx_differ metrics }
    ∷ []

make_diff-run :
    make_diff copying plan ranges (0, []) ≡ ok (0, derived_loca ++ derived_hmtx ++ (0 ∷ 0 ∷ []))
unfolding make_diff create create_loca
make_diff-run = refl

-- Two bytes of a table that has one.
abbrev short_range : TableRange copying
short_range = record (create copying (7 ∷ []) 0 (0, []) 0) { derived_length = 2 }

commit-out_of_bounds_example : (commit copying false short_range ≡ err out_of_bounds) ↔ (1 < 2)
unfolding create
commit-out_of_bounds_example = commit-out_of_bounds copying false short_range

-- A range of BrotliStream whose two bytes lie within its table is committed from the base font.
abbrev brotli : Streams
brotli = brotli_streams (λ distance bits. (distance, 0)) (λ bits. 6) (λ s bytes. none)

abbrev brotli_range : TableRange brotli
brotli_range = record (create brotli (7 ∷ 8 ∷ []) 0 (create_stream 10 8 4) 0) { derived_length = 2 }

commit-out_of_bounds_brotli : (commit brotli false brotli_range ≡ err out_of_bounds) ↔ (2 < 2)
unfolding create create_stream
commit-out_of_bounds_brotli = commit-out_of_bounds brotli false brotli_range
