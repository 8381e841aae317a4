-- ===== src/BitBuffer.antt =====
-- ift/common/branch_factor.h, bit_output_buffer.{h,cc} and bit_input_buffer.{h,cc}: the buffers that
-- write and read the nodes of a sparse bit set. A byte string is a list of numbers below 256.
pub mod BranchFactor
pub mod Output
pub mod Input
pub mod Nodes
pub mod Writes
pub mod Reads
pub mod RoundTrip
mod Runs
