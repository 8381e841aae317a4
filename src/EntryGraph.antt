-- ===== src/EntryGraph.antt =====
-- ift/encoder/entry_graph.{h,cc}: the graph of patch map entries that is built for the conditions.
pub mod Coverage
pub mod Nodes
pub mod Build
pub mod Meaning
pub mod Children
pub mod Steps
pub mod Writes
pub mod Building
pub mod Chains
pub mod Parts
pub mod Mapped
pub mod Equal
pub mod Segments
pub mod Unitary
pub mod Compound
pub mod Groups
pub mod Splits
pub mod Mapping
pub mod Lookup
pub mod Create
pub mod Sort
pub mod Counts
pub mod Queue
pub mod Sorted
mod Runs
