-- ===== src/MemMap/Word/Counts.antt =====
-- The bit counts find the lowest and the highest bit that is set.
use icarus.Prelude.{
  ℕ, zero, suc, ◌-◌, ◌/◌, ◌%◌, ◌^◌, ◌≤◌, ◌<◌, ◌≡◌, ◌≢◌, arith, ◌==◌, Bool-cases, inl, inr, ==_iff,
}
use icarus.Prelude.Bits.{testbit, testbit-le-one, testbit-high, eq-zero_of_testbit}
use icarus.MemMap.Word.{ctz_from, clz_from, ctzll, clzll}
use native.Mathlib.Nat.{pow-suc}

-- `c` is the index of the lowest bit set, of `n` bits
pub record IsLowest (n w c : ℕ) : Type 0 where
  pub inside : c < n
  pub hit : testbit w c ≡ 1
  pub below : (k : ℕ) → k < c → testbit w k ≡ 0

-- the highest `c` of `n` bits are clear, and the next is set
pub record IsHighest (n w c : ℕ) : Type 0 where
  pub inside : c < n
  pub hit : testbit w (n - 1 - c) ≡ 1
  pub above : (k : ℕ) → n - 1 - c < k → k < n → testbit w k ≡ 0

ctz_from-IsLowest : (n w : ℕ) → w ≢ 0 → w < 2 ^ n → IsLowest n w (ctz_from n w)
unfolding ctz_from testbit
ctz_from-IsLowest zero w ne h = absurd (omega arith)
ctz_from-IsLowest (suc n) w ne h = elim (Bool-cases (w % 2 == 1)) [
  | inl odd ↦ rw odd (record {
    inside = omega arith;
    hit = (==_iff _ _).0 odd;
    below = λ k lt. absurd (omega arith);
  })
  | inr even ↦
      let e : w % 2 ≡ 0 = ground arith in
      let r = ctz_from-IsLowest n (w / 2) (omega arith) (omega (arith, pow-suc 2 n)) in
      rw even (record {
        inside = omega (arith, r.inside);
        hit = r.hit;
        below = λ k lt. below_suc n w (ctz_from n (w / 2)) e r.below k lt;
      })
]
  where
    below_suc :
        (n w c : ℕ)
        → w % 2 ≡ 0
        → ((k : ℕ) → k < c → testbit (w / 2) k ≡ 0)
        → (k : ℕ) → k < suc c
        → testbit w k ≡ 0
    below_suc n w c e h zero lt = e
    below_suc n w c e h (suc k) lt = h k (omega arith)

pub ctzll-IsLowest : (w : ℕ) → w ≢ 0 → w < 2 ^ 64 → IsLowest 64 w (ctzll w)
unfolding ctzll
ctzll-IsLowest w = ctz_from-IsLowest 64 w

clz_from-IsHighest :
    (n w : ℕ)
    → ((k : ℕ) → n ≤ k → testbit w k ≡ 0)
    → w ≢ 0
    → w < 2 ^ 64
    → IsHighest n w (clz_from n w)
unfolding clz_from
clz_from-IsHighest zero w top ne h =
    absurd (ne (eq-zero_of_testbit 64 w h (λ k lt. top k (omega arith))))
clz_from-IsHighest (suc n) w top ne h = elim (Bool-cases (testbit w n == 1)) [
  | inl set ↦
      let e : testbit w n ≡ 1 = (==_iff _ _).0 set in
      let i : suc n - 1 - 0 ≡ n = omega arith in
      rw set
        (record { inside = omega arith; hit = rw i e; above = λ k gt lt. absurd (omega arith) })
  | inr clear ↦
      let e : testbit w n ≡ 0 = ground (arith, testbit-le-one w n) in
      let r = clz_from-IsHighest n w (top_below n w e top) ne h in
      let i : suc n - 1 - suc (clz_from n w) ≡ n - 1 - clz_from n w = omega arith in
      rw clear (record {
        inside = omega (arith, r.inside);
        hit = rw i r.hit;
        above = λ k gt lt. above_at n w (clz_from n w) e r.above k (omega arith) lt;
      })
]
  where
    top_below :
        (n w : ℕ)
        → testbit w n ≡ 0
        → ((k : ℕ) → suc n ≤ k → testbit w k ≡ 0)
        → (k : ℕ) → n ≤ k
        → testbit w k ≡ 0
    top_below n w e top k le = ground (arith, top k)

    above_at :
        (n w c : ℕ)
        → testbit w n ≡ 0
        → ((k : ℕ) → n - 1 - c < k → k < n → testbit w k ≡ 0)
        → (k : ℕ) → n - 1 - c < k
        → k < suc n
        → testbit w k ≡ 0
    above_at n w c e h k gt lt = ground (arith, h k)

pub clzll-IsHighest : (w : ℕ) → w ≢ 0 → w < 2 ^ 64 → IsHighest 64 w (clzll w)
unfolding clzll
clzll-IsHighest w ne h = clz_from-IsHighest 64 w (λ k le. testbit-high 64 w k h le) ne h
