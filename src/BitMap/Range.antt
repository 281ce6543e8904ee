-- ===== src/BitMap/Range.antt =====
-- `bitmap_set_len` and `bitmap_clear_len` of src/kernel/util/BitMap.c: the three loops together fill
-- exactly the range that was asked for.
use icarus.Prelude.{
  ℕ, zero, suc, ◌+◌, ◌-◌, ◌/◌, ◌%◌, ◌^◌, ◌≤◌, ◌<◌, ◌≡◌, refl, ◌⊎◌, inl, inr, ◌&&◌, not, ltb, leb,
  ◌==◌, if◌then◌else◌, arith, ◌||◌, Bool-cases,
}
use mathlib.Core.Path.{subst}
use icarus.Prelude.Bits.{testbit}
use icarus.Prelude.Words.{add64, sub64}
use icarus.BitMap.Defs.{
  Status, ok, failed, Bytes, BitMap, set_bit, clear_bit, until_aligned, whole_bytes, remaining_bits,
  write_range, write_len, bitmap_set_len, bitmap_clear_len,
}
use icarus.BitMap.Fill.{
  bit, IsBytes, Filled, set_bit-IsBytes, clear_bit-IsBytes, update-IsBytes, Filled-refl,
  Filled-trans, bit-set_bit, bit-clear_bit, bit-update, full_byte, empty_byte,
}

-- a loop has filled from `i` to the index that it returns
record Fills (v i end : ℕ) (d : Bytes) (r : ℕ × Bytes) : Type 0 where
  from : i ≤ r.0
  upto : r.0 ≤ end
  bits : Filled v i r.0 d r.1
  cells : IsBytes d → IsBytes r.1

module _ (v : ℕ) (put : Bytes → ℕ → Bytes) (whole : ℕ)
    (bit-put : (d : Bytes) (i j : ℕ) → bit (put d i) j ≡ (if i == j then v else bit d j))
    (whole_bits : (k : ℕ) → k < 8 → testbit whole k ≡ v)
    (put-IsBytes : (d : Bytes) (i : ℕ) → IsBytes d → IsBytes (put d i)) (whole_byte : whole < 256)
    (end : ℕ) (small : end + 8 < 2 ^ 64) where
  Filled-put : (d : Bytes) (i : ℕ) → Filled v i (i + 1) d (put d i)
  Filled-put d i j = ground (arith, bit-put d i j)

  then_Fills :
      (i mid : ℕ) (d d' : Bytes) (r : ℕ × Bytes)
      → i ≤ mid
      → Filled v i mid d d'
      → (IsBytes d → IsBytes d')
      → Fills v mid end d' r
      → Fills v i end d r
  then_Fills i mid d d' r le f b s = record {
    from = omega (arith, s.from);
    upto = s.upto;
    bits = Filled-trans v i mid r.0 d d' r.1 le s.from f s.bits;
    cells = λ is. s.cells (b is);
  }

  stop_Fills : (i : ℕ) (d : Bytes) → i ≤ end → Fills v i end d (i, d)
  stop_Fills i d le = record {
    from = omega arith;
    upto = le;
    bits = Filled-refl v i d;
    cells = λ is. is;
  }

  until_aligned-Fills :
      (n i : ℕ) (d : Bytes)
      → i ≤ end
      → end - i ≤ n
      → let r = until_aligned put whole end n i d in
        Fills v i end d r × ((r.0 ≡ end) ⊎ (r.0 % 8 ≡ 0))
  unfolding until_aligned
  until_aligned-Fills zero i d le fuel = (stop_Fills i d le, inl (omega arith))
  until_aligned-Fills (suc n) i d le fuel = elim (Bool-cases (ltb i end && not (i % 8 == 0))) [
    | inl go ↦
        let lt : i < end = ground arith in
        let e : add64 i 1 ≡ i + 1 = omega arith in
        let (s, a) = until_aligned-Fills n (i + 1) (put d i) (omega arith) (omega arith) in
        rw (go, e)
          (then_Fills i (i + 1) d (put d i) _ (omega arith) (Filled-put d i) (put-IsBytes d i) s, a)
    | inr done ↦ rw done (stop_Fills i d le, ground arith)
  ]

  whole_bytes-Fills :
      (n i : ℕ) (d : Bytes)
      → i ≤ end
      → (i ≡ end) ⊎ (i % 8 ≡ 0)
      → Fills v i end d (whole_bytes put whole end n i d)
  unfolding whole_bytes
  whole_bytes-Fills zero i d le a = stop_Fills i d le
  whole_bytes-Fills (suc n) i d le a = elim (Bool-cases (leb (add64 i 8) end)) [
    | inl go ↦
        let e : add64 i 8 ≡ i + 8 = omega arith in
        let le' : i + 8 ≤ end = ground arith in
        let al : i % 8 ≡ 0 = omega arith in
        rw (go, e)
          (then_Fills i (i + 8) d _ _ (omega arith) (bit-update d v whole i whole_bits al)
            (update-IsBytes d (i / 8) whole whole_byte)
            (whole_bytes-Fills n (i + 8) _ le' (inr (omega arith))))
    | inr done ↦ rw done (stop_Fills i d le)
  ]

  remaining_bits-Fills :
      (n i : ℕ) (d : Bytes)
      → i ≤ end
      → end - i ≤ n
      → let r = remaining_bits put whole end n i d in Fills v i end d r × (r.0 ≡ end)
  unfolding remaining_bits
  remaining_bits-Fills zero i d le fuel = (stop_Fills i d le, omega arith)
  remaining_bits-Fills (suc n) i d le fuel = elim (Bool-cases (ltb i end)) [
    | inl go ↦
        let lt : i < end = ground arith in
        let e : add64 i 1 ≡ i + 1 = omega arith in
        let (s, a) = remaining_bits-Fills n (i + 1) (put d i) (omega arith) (omega arith) in
        rw (go, e)
          (then_Fills i (i + 1) d (put d i) _ (omega arith) (Filled-put d i) (put-IsBytes d i) s, a)
    | inr done ↦ rw done (stop_Fills i d le, ground arith)
  ]

  write_range-Fills :
      (start : ℕ) (d : Bytes)
      → start ≤ end
      → Fills v start end d (end, write_range put whole end start d)
  unfolding write_range
  write_range-Fills start d le =
      let a = until_aligned put whole end (end - start) start d in
      let b = whole_bytes put whole end (end - a.0) a.0 a.1 in
      let c = remaining_bits put whole end (end - b.0) b.0 b.1 in
      let (s, al) = until_aligned-Fills (end - start) start d le (omega arith) in
      let t = whole_bytes-Fills (end - a.0) a.0 a.1 s.upto al in
      let (u, e) = remaining_bits-Fills (end - b.0) b.0 b.1 t.upto (omega arith) in
      let f : Fills v start end d c =
        then_Fills start a.0 d a.1 c s.from s.bits s.cells
          (then_Fills a.0 b.0 a.1 b.1 c t.from t.bits t.cells u) in
      record {
        from = le;
        upto = omega arith;
        bits = subst (λ h. Filled v start h d c.1) e f.bits;
        cells = f.cells;
      }

-- What a call that fills the bits from `s` on, `l` of them, with `v` does to the map.
pub record WritesRange (v : ℕ) (m : BitMap) (s l : ℕ) (r : Status × BitMap) : Type 0 where
  pub size : r.1.size ≡ m.size
  pub cells : IsBytes m.bytes → IsBytes r.1.bytes
  pub outcome :
      ((s + l ≤ m.size) × (r.0 ≡ ok) × Filled v s (s + l) m.bytes r.1.bytes)
      ⊎ ((m.size < s + l) × (r.0 ≡ failed) × (r.1 ≡ m))

module _ (v : ℕ) (put : Bytes → ℕ → Bytes) (whole : ℕ)
    (bit-put : (d : Bytes) (i j : ℕ) → bit (put d i) j ≡ (if i == j then v else bit d j))
    (whole_bits : (k : ℕ) → k < 8 → testbit whole k ≡ v)
    (put-IsBytes : (d : Bytes) (i : ℕ) → IsBytes d → IsBytes (put d i)) (whole_byte : whole < 256)
    (m : BitMap) (s l : ℕ) (small : m.size + 8 < 2 ^ 64) where
  write_len-WritesRange : WritesRange v m s l (write_len put whole m s l)
  unfolding write_len
  write_len-WritesRange = elim (Bool-cases (ltb m.size s || ltb (sub64 m.size s) l)) [
    | inl out ↦
        rw out (record { size = refl; cells = λ is. is; outcome = inr (ground arith, refl, refl) })
    | inr fit ↦
        let le : s + l ≤ m.size = ground arith in
        let e : add64 s l ≡ s + l = omega arith in
        let f =
          write_range-Fills v put whole bit-put whole_bits put-IsBytes whole_byte (s + l)
            (omega arith) s m.bytes (omega arith) in
        rw (fit, e) (record { size = refl; cells = f.cells; outcome = inl (le, refl, f.bits) })
  ]

-- On a map of fewer than 2 ^ 64 - 8 bits, for any index and length: if the range ends inside the map,
-- `bitmap_set_len` returns 0 and sets exactly the bits of the range; otherwise it returns -1 and leaves the map
-- alone. Its size stays, and bytes stay bytes.
pub bitmap_set_len-WritesRange :
    (m : BitMap) (s l : ℕ) → m.size + 8 < 2 ^ 64 → WritesRange 1 m s l (bitmap_set_len m s l)
unfolding bitmap_set_len
bitmap_set_len-WritesRange =
    write_len-WritesRange 1 set_bit 0xFF bit-set_bit full_byte set_bit-IsBytes (omega arith)

-- On such a map, if the range ends inside the map, `bitmap_clear_len` returns 0 and clears exactly the bits
-- of the range; otherwise it returns -1 and leaves the map alone. Its size stays, and bytes stay bytes.
pub bitmap_clear_len-WritesRange :
    (m : BitMap) (s l : ℕ) → m.size + 8 < 2 ^ 64 → WritesRange 0 m s l (bitmap_clear_len m s l)
unfolding bitmap_clear_len
bitmap_clear_len-WritesRange =
    write_len-WritesRange 0 clear_bit 0x00 bit-clear_bit empty_byte clear_bit-IsBytes (omega arith)
