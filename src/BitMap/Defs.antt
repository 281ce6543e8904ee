-- ===== src/BitMap/Defs.antt =====
-- The functions of src/kernel/util/BitMap.c. Indices and sizes are uint64_t; an expression on a byte
-- is cut to eight bits where it is stored, which `not8` writes out.
use icarus.Prelude.{
  ℕ, zero, suc, ◌-◌, ◌*◌, ◌/◌, ◌%◌, ◌^◌, ◌&&◌, ◌||◌, not, ltb, leb, ◌==◌, if◌then◌else◌, bit_and,
  bit_or,
}
use icarus.Prelude.Words.{add64, sub64, not8}

-- What an `int` function returns: 0, -1, or nothing because it reads or writes outside its array.
pub data Status : Type 0 where
  ok failed fault : Status

abbrev pub Bytes : Type 0
Bytes = ℕ → ℕ

-- `bit_map`
pub record BitMap : Type 0 where
  pub size : ℕ
  pub bytes : Bytes

unfoldable pub update : Bytes → ℕ → ℕ → Bytes
update d a v b = if a == b then v else d b

-- `data[i / 8] |= 1 << (i % 8)` and `data[i / 8] &= ~(1 << (i % 8))`
unfoldable pub set_bit : Bytes → ℕ → Bytes
set_bit d i = update d (i / 8) (bit_or (d (i / 8)) (2 ^ (i % 8)))

unfoldable pub clear_bit : Bytes → ℕ → Bytes
clear_bit d i = update d (i / 8) (bit_and (d (i / 8)) (not8 (2 ^ (i % 8))))

-- `value` is the bit pattern of a char
unfoldable pub bitmap_set_value : BitMap → ℕ → ℕ → Status × BitMap
bitmap_set_value map index value = if ltb (map.size / 8) (index / 8) then (failed, map) else (
  ok,
  record map {
    bytes =
        update map.bytes (index / 8)
          (bit_or (map.bytes (index / 8)) (bit_and value 1 * 2 ^ (index % 8)));
  },
)

unfoldable pub bitmap_set : BitMap → ℕ → Status × BitMap
bitmap_set map index =
    if ltb (map.size / 8) (index / 8)
    then (failed, map)
    else (ok, record map { bytes = set_bit map.bytes index })

unfoldable pub bitmap_clear : BitMap → ℕ → Status × BitMap
bitmap_clear map index =
    if ltb (map.size / 8) (index / 8)
    then (failed, map)
    else (ok, record map { bytes = clear_bit map.bytes index })

-- It returns an unsigned char, so the -1 of a bad index is 255.
unfoldable pub bitmap_get : BitMap → ℕ → ℕ
bitmap_get map index =
    if ltb (map.size / 8) (index / 8)
    then 255
    else bit_and (map.bytes (index / 8)) (2 ^ (index % 8)) / 2 ^ (index % 8)

-- The three loops that `bitmap_set_len` and `bitmap_clear_len` share, over the write of one bit
-- (`put`) and the byte stored for eight (`whole`). Each round moves `i` on, so `end - i` rounds do.
module _ (put : Bytes → ℕ → Bytes) (whole : ℕ) (end : ℕ) where
  unfoldable pub until_aligned : ℕ → ℕ → Bytes → ℕ × Bytes
  until_aligned zero i d = (i, d)
  until_aligned (suc n) i d =
      let rest = until_aligned n (add64 i 1) (put d i) in
      if ltb i end && not (i % 8 == 0) then rest else (i, d)

  unfoldable pub whole_bytes : ℕ → ℕ → Bytes → ℕ × Bytes
  whole_bytes zero i d = (i, d)
  whole_bytes (suc n) i d =
      let rest = whole_bytes n (add64 i 8) (update d (i / 8) whole) in
      if leb (add64 i 8) end then rest else (i, d)

  unfoldable pub remaining_bits : ℕ → ℕ → Bytes → ℕ × Bytes
  remaining_bits zero i d = (i, d)
  remaining_bits (suc n) i d =
      let rest = remaining_bits n (add64 i 1) (put d i) in if ltb i end then rest else (i, d)

  unfoldable pub write_range : ℕ → Bytes → Bytes
  write_range start d =
      let (i, d) = until_aligned (end - start) start d in
      let (i, d) = whole_bytes (end - i) i d in (remaining_bits (end - i) i d).1

unfoldable pub write_len :
    (put : Bytes → ℕ → Bytes) (whole : ℕ) → BitMap → (start_index len : ℕ) → Status × BitMap
write_len put whole map start_index len =
    if ltb map.size start_index || ltb (sub64 map.size start_index) len then (failed, map) else (
      ok,
      record map { bytes = write_range put whole (add64 start_index len) start_index map.bytes },
    )

unfoldable pub bitmap_set_len : BitMap → ℕ → ℕ → Status × BitMap
unfolding write_len
bitmap_set_len = write_len set_bit 0xFF

unfoldable pub bitmap_clear_len : BitMap → ℕ → ℕ → Status × BitMap
unfolding write_len
bitmap_clear_len = write_len clear_bit 0x00
