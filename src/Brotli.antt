-- ===== src/Brotli.antt =====
-- brotli/brotli_bit_buffer.{h,cc} and brotli/brotli_stream.{h,cc}: the writer of brotli streams. A byte
-- string is a list of numbers below 256.
pub mod BitBuffer
pub mod Bits
pub mod Appends
pub mod Reversal
pub mod Stream
pub mod CopyCode
pub mod StreamLaws
pub mod Dictionary
pub mod Header
mod Runs
