-- ===== src/BitMap/Tests.antt =====
-- The theorems on the bitmap of src/kernel/util/BitMap.c, at a map of sixteen bits.
use icarus.Prelude.{arith, ltb, if◌then◌else◌}
use icarus.BitMap.Defs.{BitMap, bitmap_set_len}
use icarus.BitMap.Fill.{IsBytes}
use icarus.BitMap.Range.{WritesRange, bitmap_set_len-WritesRange}

abbrev two_bytes : BitMap
two_bytes = record { size = 16; bytes = λ a. if ltb a 2 then 0x24 else 0 }

two_bytes-IsBytes : IsBytes two_bytes.bytes
two_bytes-IsBytes a = ground arith

bitmap_set_len-WritesRange_example : WritesRange 1 two_bytes 3 10 (bitmap_set_len two_bytes 3 10)
bitmap_set_len-WritesRange_example = bitmap_set_len-WritesRange two_bytes 3 10 (omega arith)
