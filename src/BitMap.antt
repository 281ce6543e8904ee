-- ===== src/BitMap.antt =====
-- The bitmap of src/kernel/util/BitMap.c and include/kernel/util/BitMap.h: one bit for each frame of
-- memory, packed eight to a byte. The flexible array `data[]` lies in flat memory, so it is a
-- function from an offset to a byte; `size` counts bits.
mod Defs
mod Fill
mod Range
mod Single
mod Tests
pub use Defs.{Status, ok, failed, fault, Bytes, BitMap}
unfoldable pub use Defs.{
  update, set_bit, clear_bit, bitmap_set_value, bitmap_set, bitmap_clear, bitmap_get,
  bitmap_set_len, bitmap_clear_len, write_range, until_aligned, whole_bytes, remaining_bits,
}
unfoldable pub use Fill.{bit}
pub use Fill.{IsBytes, Filled, bit-le-one, bit-set_bit, bit-clear_bit}
pub use Range.{WritesRange, bitmap_set_len-WritesRange, bitmap_clear_len-WritesRange}
pub use Single.*
