-- ===== src/BitMap/Single.antt =====
-- `bitmap_set`, `bitmap_clear`, `bitmap_get` and `bitmap_set_value` of src/kernel/util/BitMap.c.
use icarus.Prelude.{
  ℕ, ◌*◌, ◌/◌, ◌%◌, ◌^◌, ◌≤◌, ◌<◌, ◌≡◌, refl, ltb, ◌==◌, if◌then◌else◌, arith, true, bit_and,
}
use icarus.Prelude.Bits.{testbit, testbit-bit_or, testbit-zero}
use icarus.Prelude.Tables.{passes_under, passes_under-at}
use icarus.BitMap.Defs.{
  ok, failed, BitMap, update, set_bit, clear_bit, bitmap_set_value, bitmap_set, bitmap_clear,
  bitmap_get, bitmap_set_len,
}
use icarus.BitMap.Fill.{
  bit, IsBytes, bit-set_bit, bit-clear_bit, set_bit-IsBytes, clear_bit-IsBytes,
}

get_table :
    passes_under 256 (λ b. passes_under 8 (λ o. bit_and b (2 ^ o) / 2 ^ o == testbit b o)) ≡ true
unfolding passes_under testbit
get_table = refl

bitmap_get-bit :
    (m : BitMap) (i : ℕ) → IsBytes m.bytes → i / 8 ≤ m.size / 8 → bitmap_get m i ≡ bit m.bytes i
unfolding bitmap_get bit
bitmap_get-bit m i is h =
    let b = m.bytes (i / 8) in
    ground (
      arith,
      passes_under-at 8 (i % 8) _ (passes_under-at 256 b _ get_table (is (i / 8))) (omega arith),
    )

module _ (m : BitMap) (i j : ℕ) (is : IsBytes m.bytes) (hj : j / 8 ≤ m.size / 8) where
  -- On a map of bytes, for an index `i` whose byte is within the test, `bitmap_set` returns 0 and then `bitmap_get`
  -- gives 1 at `i` and what it gave before at every other index that it accepts; past the test nothing changes and
  -- -1 is returned.
  bitmap_get-bitmap_set :
      let (s, m') = bitmap_set m i in
      (bitmap_get m' j ≡ (
        if ltb (m.size / 8) (i / 8) then bitmap_get m j else if i == j then 1 else bitmap_get m j))
      × (s ≡ (if ltb (m.size / 8) (i / 8) then failed else ok))
  unfolding bitmap_set
  bitmap_get-bitmap_set = ground (
    arith,
    bitmap_get-bit m j is hj,
    bitmap_get-bit (record m { bytes = set_bit m.bytes i }) j (set_bit-IsBytes m.bytes i is) hj,
    bit-set_bit m.bytes i j,
  )

  -- On a map of bytes, for an index `i` whose byte is within the test, `bitmap_clear` returns 0 and then `bitmap_get`
  -- gives 0 at `i` and what it gave before at every other index that it accepts; past the test nothing changes and
  -- -1 is returned.
  bitmap_get-bitmap_clear :
      let (s, m') = bitmap_clear m i in
      (bitmap_get m' j ≡ (
        if ltb (m.size / 8) (i / 8) then bitmap_get m j else if i == j then 0 else bitmap_get m j))
      × (s ≡ (if ltb (m.size / 8) (i / 8) then failed else ok))
  unfolding bitmap_clear
  bitmap_get-bitmap_clear = ground (
    arith,
    bitmap_get-bit m j is hj,
    bitmap_get-bit (record m { bytes = clear_bit m.bytes i }) j (clear_bit-IsBytes m.bytes i is) hj,
    bit-clear_bit m.bytes i j,
  )

-- `bitmap_set_value` with a value whose low bit is 0 clears nothing: every bit of the map, the one at
-- the index included, is what it was.
bitmap_set_value-zero :
    (m : BitMap) (i value j : ℕ)
    → bit_and value 1 ≡ 0
    → bit (bitmap_set_value m i value).1.bytes j ≡ bit m.bytes j
unfolding bitmap_set_value bit update
bitmap_set_value-zero m i value j e = rw e (
    ground
      (arith, testbit-bit_or (m.bytes (i / 8)) (0 * 2 ^ (i % 8)) (j % 8), testbit-zero (j % 8)))

-- On a map of whole bytes `bitmap_set` accepts the index just past its last bit: it returns 0, and of all
-- bits it writes the first of the byte behind the map, and no other; `bitmap_set_len` refuses the same bit.
bitmap_set_past_end :
    (m : BitMap) (j : ℕ)
    → m.size % 8 ≡ 0
    → m.size < 2 ^ 64
    → let (s, m') = bitmap_set m m.size in
      (s ≡ ok)
      × (bit m'.bytes j ≡ (if m.size == j then 1 else bit m.bytes j))
      × (bitmap_set_len m m.size 1 ≡ (failed, m))
unfolding bitmap_set bitmap_set_len
bitmap_set_past_end m j whole lt =
    (ground arith, ground (arith, bit-set_bit m.bytes m.size j), ground arith)
