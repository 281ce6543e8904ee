-- ===== src/Prelude/Bits.antt =====
-- The bits of a number of any width, and how the bit operations of C act on them.
use Prim.Native.Nat.{digits, bit_and-bitwise, bit_or-bitwise}
use Prim.Native.Nat.{
  ℕ, zero, suc, ◌+◌, ◌-◌, ◌*◌, ◌/◌, ◌%◌, ◌^◌, ◌≤◌, ◌<◌, min, max, bit_and, bit_or,
}
use mathlib.Core.Path.{◌≡◌, refl, sym, ap, ◌∙◌}
use mathlib.Core.Logic.{◌≢◌}
use native.Mathlib.Omega.{arith}
use native.Mathlib.Nat.{
  pow-suc, div-div-eq-div-mul, add-mul-div_left, one-le-pow, pow-le-pow_right, div-mul-le_self,
  div-eq_of_lt,
}
use native.Mathlib.Decide.{dec_lt}
use icarus.Prelude.Tests.{ltb, if◌then◌else◌}
use icarus.Prelude.Words.{not64}

-- bit `k` of `w`, as 0 or 1
unfoldable pub testbit : ℕ → ℕ → ℕ
testbit w zero = w % 2
testbit w (suc k) = testbit (w / 2) k

pub testbit-le-one : (w k : ℕ) → testbit w k ≤ 1
unfolding testbit
testbit-le-one w zero = omega arith
testbit-le-one w (suc k) = testbit-le-one (w / 2) k

pub testbit-zero : (k : ℕ) → testbit 0 k ≡ 0
unfolding testbit
testbit-zero zero = refl
testbit-zero (suc k) = testbit-zero k

-- A digitwise operation acts on each bit.
module _ (z : ℕ → ℕ) (f : ℕ → ℕ → ℕ) (fits : (x y : ℕ) → x ≤ 1 → y ≤ 1 → f x y ≤ 1)
    (rest : (b k : ℕ) → testbit (z b) k ≡ f 0 (testbit b k)) where
  testbit-digits :
      (n a b k : ℕ) → a ≤ n → testbit (digits z f n a b) k ≡ f (testbit a k) (testbit b k)
  unfolding testbit
  testbit-digits zero zero b k h = rw testbit-zero (rest b k)
  testbit-digits (suc n) zero b k h = rw testbit-zero (rest b k)
  testbit-digits zero (suc a) b k h = absurd (omega arith)
  testbit-digits (suc n) (suc a) b zero h =
      omega (arith, fits (suc a % 2) (b % 2) (omega arith) (omega arith))
  testbit-digits (suc n) (suc a) b (suc k) h =
      let d : ℕ = digits z f n (suc a / 2) (b / 2) in
      let e : (d * 2 + f (suc a % 2) (b % 2)) / 2 ≡ d =
        omega (arith, fits (suc a % 2) (b % 2) (omega arith) (omega arith)) in
      rw e (testbit-digits n (suc a / 2) (b / 2) k (omega arith))

pub testbit-bit_and : (a b k : ℕ) → testbit (bit_and a b) k ≡ min (testbit a k) (testbit b k)
testbit-bit_and a b k = rw bit_and-bitwise (
    testbit-digits (λ _. 0) min (λ x y p q. omega arith) (λ c j. rw testbit-zero (omega arith)) a a
      b k (omega arith))

and_digits-le : (n a b : ℕ) → digits (λ _. 0) min n a b ≤ a
and_digits-le zero a b = omega arith
and_digits-le (suc n) zero b = omega arith
and_digits-le (suc n) (suc a) b = omega (arith, and_digits-le n (suc a / 2) (b / 2))

pub bit_and-le : (a b : ℕ) → bit_and a b ≤ a
bit_and-le a b = rw bit_and-bitwise (and_digits-le a a b)

or_digits-le : (n a b : ℕ) → a ≤ n → digits (λ c. c) max n a b ≤ a + b
or_digits-le zero zero b h = omega arith
or_digits-le (suc n) zero b h = omega arith
or_digits-le zero (suc a) b h = absurd (omega arith)
or_digits-le (suc n) (suc a) b h =
    omega (arith, or_digits-le n (suc a / 2) (b / 2) (omega (arith, h)))

pub bit_or-le-add : (a b : ℕ) → bit_or a b ≤ a + b
bit_or-le-add a b = rw bit_or-bitwise (or_digits-le a a b (omega arith))

pub testbit-bit_or : (a b k : ℕ) → testbit (bit_or a b) k ≡ max (testbit a k) (testbit b k)
testbit-bit_or a b k = rw bit_or-bitwise (
    testbit-digits (λ c. c) max (λ x y p q. omega arith) (λ c j. omega arith) a a b k (omega arith))

-- a shift to the right
pub testbit-shr : (w s k : ℕ) → testbit (w / 2 ^ s) k ≡ testbit w (s + k)
unfolding testbit
testbit-shr w zero k =
    let e : w / 2 ^ 0 ≡ w = omega arith in let e' : 0 + k ≡ k = omega arith in rw (e, e') refl
testbit-shr w (suc s) k =
    let e : w / 2 ^ suc s ≡ w / 2 / 2 ^ s =
      ap (λ (t : ℕ). w / t) (omega (arith, pow-suc 2 s)) ∙ sym (div-div-eq-div-mul w 2 (2 ^ s)) in
    let e' : suc s + k ≡ suc (s + k) = omega arith in rw (e, e') (testbit-shr (w / 2) s k)

-- past its width a word has no bits
pub testbit-high : (n w k : ℕ) → w < 2 ^ n → n ≤ k → testbit w k ≡ 0
unfolding testbit
testbit-high zero w k h le = let e : w ≡ 0 = omega arith in rw e (testbit-zero k)
testbit-high (suc n) w zero h le = absurd (omega arith)
testbit-high (suc n) w (suc k) h le =
    testbit-high n (w / 2) k (omega (arith, pow-suc 2 n)) (omega arith)

-- a complement of `n` bits
pub testbit-complement :
    (n w k : ℕ) → w < 2 ^ n → k < n → testbit (2 ^ n - 1 - w) k + testbit w k ≡ 1
unfolding testbit
testbit-complement zero w k h lt = absurd (omega arith)
testbit-complement (suc n) w zero h lt = omega (arith, pow-suc 2 n)
testbit-complement (suc n) w (suc k) h lt =
    let e : (2 ^ suc n - 1 - w) / 2 ≡ 2 ^ n - 1 - w / 2 = omega (arith, pow-suc 2 n) in
    rw e (testbit-complement n (w / 2) k (omega (arith, pow-suc 2 n)) (omega arith))

pub testbit-not64 : (w k : ℕ) → w < 2 ^ 64 → k < 64 → testbit (not64 w) k + testbit w k ≡ 1
testbit-not64 w k h lt = testbit-complement 64 w k h lt

-- A number with no bit set is 0.
pub eq-zero_of_testbit : (n w : ℕ) → w < 2 ^ n → ((k : ℕ) → k < n → testbit w k ≡ 0) → w ≡ 0
unfolding testbit
eq-zero_of_testbit zero w h z = omega arith
eq-zero_of_testbit (suc n) w h z =
    let half : w / 2 ≡ 0 =
      eq-zero_of_testbit n (w / 2) (omega (arith, pow-suc 2 n)) (λ k lt. z (suc k) (omega arith)) in
    let low : w % 2 ≡ 0 = z zero (omega arith) in omega arith

-- A set bit bounds the number from below.
pub ne-zero_of_testbit : (w k : ℕ) → testbit w k ≡ 1 → w ≢ 0
ne-zero_of_testbit w k h e = let h' : testbit 0 k ≡ 1 = rw e at h in omega (arith, testbit-zero k)

-- a byte below a number, as in a little-endian word
pub testbit-byte_low : (n b r k : ℕ) → b < 2 ^ n → k < n → testbit (b + 2 ^ n * r) k ≡ testbit b k
unfolding testbit
testbit-byte_low zero b r k h lt = absurd (omega arith)
testbit-byte_low (suc n) b r zero h lt =
    let e : 2 ^ suc n * r ≡ 2 * (2 ^ n * r) = omega (arith, ap (λ (t : ℕ). t * r) (pow-suc 2 n)) in
    omega arith
testbit-byte_low (suc n) b r (suc k) h lt =
    let e : 2 ^ suc n * r ≡ 2 * (2 ^ n * r) = omega (arith, ap (λ (t : ℕ). t * r) (pow-suc 2 n)) in
    let d : (b + 2 ^ suc n * r) / 2 ≡ b / 2 + 2 ^ n * r = omega arith in
    rw d (testbit-byte_low n (b / 2) r k (omega (arith, pow-suc 2 n)) (omega arith))

pub testbit-byte_high : (n b r k : ℕ) → b < 2 ^ n → testbit (b + 2 ^ n * r) (n + k) ≡ testbit r k
testbit-byte_high n b r k h =
    let shift : (b + 2 ^ n * r) / 2 ^ n ≡ r =
      omega (arith, add-mul-div_left b r {y = 2 ^ n} (omega arith), div-eq_of_lt h) in
    sym (testbit-shr (b + 2 ^ n * r) n k) ∙ ap (λ (w : ℕ). testbit w k) shift

-- Numbers of one width with the same bits are equal.
pub eq_of_testbit :
    (n a b : ℕ) → a < 2 ^ n → b < 2 ^ n → ((k : ℕ) → k < n → testbit a k ≡ testbit b k) → a ≡ b
unfolding testbit
eq_of_testbit zero a b p q h = omega arith
eq_of_testbit (suc n) a b p q h =
    let half : a / 2 ≡ b / 2 =
      eq_of_testbit n (a / 2) (b / 2) (omega (arith, pow-suc 2 n)) (omega (arith, pow-suc 2 n))
        (λ k lt. h (suc k) (omega arith)) in
    let low : a % 2 ≡ b % 2 = h zero (omega arith) in omega arith

-- dropping the low `s` bits
pub testbit-drop_low :
    (s w k : ℕ) → testbit (w / 2 ^ s * 2 ^ s) k ≡ (if ltb k s then 0 else testbit w k)
testbit-drop_low s w k =
    let q : ℕ = w / 2 ^ s in
    let e : q * 2 ^ s ≡ 0 + 2 ^ s * q = omega arith in
    rw e (elim (dec_lt k s) [
      | yes lt ↦
          ground (arith, testbit-byte_low s 0 q k (one-le-pow s 2 (omega arith)) lt, testbit-zero k)
      | no ge ↦
          let i : s + (k - s) ≡ k = omega arith in
          ground (
            arith,
            testbit-byte_high s 0 q (k - s) (one-le-pow s 2 (omega arith)),
            testbit-shr w s (k - s),
            i,
          )
    ])

-- a mask of the low `s` bits
testbit-ones : (s k : ℕ) → testbit (2 ^ s - 1) k ≡ (if ltb k s then 1 else 0)
testbit-ones s k =
    let pos = one-le-pow s 2 (omega arith) in
    elim (dec_lt k s) [
      | yes lt ↦
          let e : 2 ^ s - 1 - 0 ≡ 2 ^ s - 1 = omega arith in
          ground (arith, rw e at (testbit-complement s 0 k pos lt), testbit-zero k)
      | no ge ↦ ground (arith, testbit-high s (2 ^ s - 1) k (omega arith) (omega arith))
    ]

-- `&` with the complement of such a mask
pub align_mask : (s w : ℕ) → s ≤ 64 → w < 2 ^ 64 → bit_and w (not64 (2 ^ s - 1)) ≡ w / 2 ^ s * 2 ^ s
align_mask s w le h =
    let m : ℕ = 2 ^ s - 1 in
    let wide : 2 ^ s ≤ 2 ^ 64 = pow-le-pow_right {n = 2} (omega arith) le in
    eq_of_testbit 64 _ _ (omega (arith, bit_and-le w (not64 m)))
      (omega (arith, div-mul-le_self w (2 ^ s)))
      (λ k lt. ground (
        arith,
        testbit-bit_and w (not64 m) k,
        testbit-not64 m k (omega arith) lt,
        testbit-ones s k,
        testbit-drop_low s w k,
        testbit-le-one w k,
      ))
