-- ===== src/GlyphPartition.antt =====
-- ift/encoder/glyph_partition.{h,cc}: disjoint sets of glyph ids, by union by rank with path
-- compression, and the cache of the sets.
pub mod Defs
pub mod Roots
pub mod Find
pub mod Same
pub mod Union
pub mod Sets
pub mod Cache
pub mod WellFormed
pub mod Operations
pub mod Reachable
mod Runs
