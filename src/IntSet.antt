-- ===== src/IntSet.antt =====
-- ift/common/int_set.h: the operations of IntSet that the encoder's conditions use. The set itself is
-- HarfBuzz's hb_set_t, which is a parameter.
pub mod SortedList
pub mod Laws
pub mod Defs
mod Runs
pub use Defs.{HbSet, mem, Ascending, first}
unfoldable pub use Defs.{less, intersects, find_in}
