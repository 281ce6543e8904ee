-- ===== src/MemMap/Alloc/Qword.antt =====
-- The qwords that `map_alloc_frame_contiguous` reads hold the bits of the bitmap, in order.
use icarus.Prelude.{ℕ, zero, suc, ◌+◌, ◌-◌, ◌*◌, ◌/◌, ◌%◌, ◌^◌, ◌<◌, ◌≡◌, ◌∙◌, arith, dec_lt}
use icarus.Prelude.Bits.{testbit, testbit-byte_low, testbit-byte_high}
use icarus.Prelude.Words.{add64, mul32}
use icarus.BitMap.{Bytes, IsBytes, bit}
use icarus.MemMap.Alloc.{little_endian, read_qword}
use icarus.MemMap.Alloc.Scan.{row_bit}
use native.Mathlib.Nat.{pow-suc}

module _ (d : Bytes) (is : IsBytes d) where
  testbit-little_endian :
      (n a k : ℕ) → k < 8 * n → testbit (little_endian d n a) k ≡ testbit (d (a + k / 8)) (k % 8)
  unfolding little_endian
  testbit-little_endian zero a k lt = absurd (omega arith)
  testbit-little_endian (suc n) a k lt = elim (dec_lt k 8) [
    | yes low ↦
        let e₁ : a + k / 8 ≡ a = omega arith in
        let e₂ : k % 8 ≡ k = omega arith in
        rw (e₁, e₂) (testbit-byte_low 8 (d a) (little_endian d n (a + 1)) k (is a) low)
    | no high ↦
        let j : ℕ = k - 8 in
        let e : 8 + j ≡ k = omega arith in
        let e₁ : a + k / 8 ≡ a + 1 + j / 8 = omega arith in
        let e₂ : k % 8 ≡ j % 8 = omega arith in
        rw (e₁, e₂)
          (rw e at (testbit-byte_high 8 (d a) (little_endian d n (a + 1)) j (is a))
            ∙ testbit-little_endian n (a + 1) j (omega arith))
  ]

  little_endian-lt : (n a : ℕ) → little_endian d n a < 256 ^ n
  unfolding little_endian
  little_endian-lt zero a = omega arith
  little_endian-lt (suc n) a = omega (arith, is a, little_endian-lt n (a + 1), pow-suc 256 n)

  pub read_qword-lt : (b q : ℕ) → read_qword d b q < 2 ^ 64
  unfolding read_qword
  read_qword-lt b q = little_endian-lt 8 (add64 (b / 8) (mul32 q 8))

  -- Bit `i` of the row of words is bit `b + i` of the bitmap.
  pub row_bit-read_qword :
      (b i : ℕ)
      → b % 8 ≡ 0
      → i < 2 ^ 32
      → b + 2 ^ 33 < 2 ^ 64
      → row_bit (read_qword d b) i ≡ bit d (b + i)
  unfolding row_bit read_qword bit
  row_bit-read_qword b i aligned hi small =
      let a : add64 (b / 8) (mul32 (i / 64) 8) ≡ b / 8 + i / 64 * 8 = omega arith in
      let e₁ : (b + i) / 8 ≡ b / 8 + i / 64 * 8 + i % 64 / 8 = omega arith in
      let e₂ : (b + i) % 8 ≡ i % 64 % 8 = omega arith in
      rw (a, e₁, e₂) (testbit-little_endian 8 (b / 8 + i / 64 * 8) (i % 64) (omega arith))
