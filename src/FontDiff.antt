-- ===== src/FontDiff.antt =====
-- brotli/table_range.h, hmtx_differ.h, loca_differ.h, glyf_differ.h and the class DiffDriver of
-- brotli_font_diff.cc: a diff of tables glyph by glyph, without a comparison of their bytes.
pub mod Streams
pub mod BrotliStreams
pub mod Range
pub mod Differs
pub mod Driver
pub mod Commits
mod Runs
