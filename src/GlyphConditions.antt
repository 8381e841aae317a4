-- ===== src/GlyphConditions.antt =====
-- ift/encoder/glyph_condition_set.h: the condition of each glyph, and an index from the segments to the
-- glyphs that have them in their conditions.
pub mod Defs
pub mod Triggers
pub mod Synced
pub mod Segments
pub mod Edits
mod Runs
