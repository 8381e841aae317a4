-- ===== src/SparseBitSet.antt =====
-- ift/common/sparse_bit_set.cc: sets of numbers as trees of bits. Its children: the tree's depth,
-- decoding, the twigs and nodes that are completely filled, the nodes of a layer, and encoding.
pub mod Depth
pub mod Decode
pub mod Twigs
pub mod Layers
pub mod Encode
pub mod Nodes
mod Masks
pub mod FilledTwigs
pub mod Choose
mod Runs
