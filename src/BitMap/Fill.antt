-- ===== src/BitMap/Fill.antt =====
-- The bits of a byte array, and what it means that a range of them has been filled.
use icarus.Prelude.{
  ℕ, ◌+◌, ◌/◌, ◌%◌, ◌^◌, ◌≤◌, ◌<◌, ◌≡◌, refl, ◌&&◌, ltb, leb, ◌==◌, if◌then◌else◌, bit_and, bit_or,
  arith, true,
}
use icarus.Prelude.Bits.{testbit, testbit-le-one, testbit-bit_and, testbit-bit_or, testbit-zero}
use icarus.Prelude.Tables.{
  testbit-one_bit, testbit-not8_one_bit, testbit-full_byte, passes_under, passes_under-at,
}
use icarus.Prelude.Words.{not8}
use icarus.BitMap.Defs.{Bytes, update, set_bit, clear_bit}

-- bit `i` of the array
unfoldable pub bit : Bytes → ℕ → ℕ
bit d i = testbit (d (i / 8)) (i % 8)

-- the cells of the array are bytes
abbrev pub IsBytes : Bytes → Type 0
IsBytes d = (a : ℕ) → d a < 256

-- `d'` is `d` with the bits from `lo` up to `hi` made `v`
abbrev pub Filled : ℕ → ℕ → ℕ → Bytes → Bytes → Type 0
Filled v lo hi d d' = (j : ℕ) → bit d' j ≡ (if leb lo j && ltb j hi then v else bit d j)

pub Filled-refl : (v i : ℕ) (d : Bytes) → Filled v i i d d
Filled-refl v i d j = ground arith

pub Filled-trans :
    (v lo mid hi : ℕ) (d d' d'' : Bytes)
    → lo ≤ mid
    → mid ≤ hi
    → Filled v lo mid d d'
    → Filled v mid hi d' d''
    → Filled v lo hi d d''
Filled-trans v lo mid hi d d' d'' p q f g j = ground (arith, f j, g j)

pub bit-le-one : (d : Bytes) (i : ℕ) → bit d i ≤ 1
unfolding bit
bit-le-one d i = testbit-le-one (d (i / 8)) (i % 8)

pub bit-set_bit : (d : Bytes) (i j : ℕ) → bit (set_bit d i) j ≡ (if i == j then 1 else bit d j)
unfolding bit set_bit update
bit-set_bit d i j = ground (
  arith,
  testbit-bit_or (d (i / 8)) (2 ^ (i % 8)) (j % 8),
  testbit-one_bit (i % 8) (j % 8) (omega arith) (omega arith),
  testbit-le-one (d (i / 8)) (j % 8),
)

pub bit-clear_bit : (d : Bytes) (i j : ℕ) → bit (clear_bit d i) j ≡ (if i == j then 0 else bit d j)
unfolding bit clear_bit update
bit-clear_bit d i j = ground (
  arith,
  testbit-bit_and (d (i / 8)) (not8 (2 ^ (i % 8))) (j % 8),
  testbit-not8_one_bit (i % 8) (j % 8) (omega arith) (omega arith),
  testbit-le-one (d (i / 8)) (j % 8),
)

-- a whole byte stored at an aligned index
pub bit-update :
    (d : Bytes) (v whole i : ℕ)
    → ((k : ℕ) → k < 8 → testbit whole k ≡ v)
    → i % 8 ≡ 0
    → Filled v i (i + 8) d (update d (i / 8) whole)
unfolding bit update
bit-update d v whole i all e j = ground (arith, all (j % 8))

pub full_byte : (k : ℕ) → k < 8 → testbit 0xFF k ≡ 1
full_byte = testbit-full_byte

pub empty_byte : (k : ℕ) → k < 8 → testbit 0x00 k ≡ 0
empty_byte k h = testbit-zero k

-- Stored values stay bytes.
byte_table :
    passes_under 256
      (λ b. passes_under 8 (λ o. ltb (bit_or b (2 ^ o)) 256 && ltb (bit_and b (not8 (2 ^ o))) 256))
    ≡ true
unfolding passes_under
byte_table = refl

module _ (b o : ℕ) (hb : b < 256) (ho : o < 8) where
  byte_at : ltb (bit_or b (2 ^ o)) 256 && ltb (bit_and b (not8 (2 ^ o))) 256 ≡ true
  byte_at = passes_under-at 8 o _ (passes_under-at 256 b _ byte_table hb) ho

  bit_or-byte : bit_or b (2 ^ o) < 256
  bit_or-byte = ground (arith, byte_at)

  bit_and-byte : bit_and b (not8 (2 ^ o)) < 256
  bit_and-byte = ground (arith, byte_at)

pub update-IsBytes : (d : Bytes) (a v : ℕ) → v < 256 → IsBytes d → IsBytes (update d a v)
unfolding update
update-IsBytes d a v h is b = ground (arith, is b)

pub set_bit-IsBytes : (d : Bytes) (i : ℕ) → IsBytes d → IsBytes (set_bit d i)
unfolding set_bit
set_bit-IsBytes d i is =
    update-IsBytes d (i / 8) _ (bit_or-byte (d (i / 8)) (i % 8) (is (i / 8)) (omega arith)) is

pub clear_bit-IsBytes : (d : Bytes) (i : ℕ) → IsBytes d → IsBytes (clear_bit d i)
unfolding clear_bit
clear_bit-IsBytes d i is =
    update-IsBytes d (i / 8) _ (bit_and-byte (d (i / 8)) (i % 8) (is (i / 8)) (omega arith)) is
