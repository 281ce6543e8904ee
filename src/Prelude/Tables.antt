-- ===== src/Prelude/Tables.antt =====
-- Facts about bytes that are checked by evaluation, value by value.
use Prim.Native.Nat.{ℕ, zero, suc, ◌^◌, ◌<◌}
use mathlib.Core.Path.{◌≡◌, refl}
use mathlib.Core.Bool.{Bool, true, false, ◌&&◌}
use native.Mathlib.Omega.{arith}
use icarus.Prelude.Tests.{◌==◌, if◌then◌else◌}
use icarus.Prelude.Words.{not8}
use icarus.Prelude.Bits.{testbit}

-- does the test pass for every number under a limit
unfoldable pub passes_under : (limit : ℕ) → (ℕ → Bool) → Bool
passes_under zero test = true
passes_under (suc last) test = if test last then passes_under last test else false

pub passes_under-at :
    (limit i : ℕ) (test : ℕ → Bool) → passes_under limit test ≡ true → i < limit → test i ≡ true
unfolding passes_under
passes_under-at zero i test all lt = absurd (omega arith)
passes_under-at (suc last) i test all lt =
    let below : (passes_under last test ≡ true) → i < last → test i ≡ true =
      passes_under-at last i test in
    ground (arith, below)

-- the masks of a byte: one bit, all but one bit, all bits
masks_table :
    passes_under 8 (λ o. passes_under 8 (λ k.
      (testbit (2 ^ o) k == (if o == k then 1 else 0))
      && (testbit (not8 (2 ^ o)) k == (if o == k then 0 else 1))
      && (testbit 255 k == 1)))
    ≡ true
unfolding passes_under testbit
masks_table = refl

module _ (o k : ℕ) (ho : o < 8) (hk : k < 8) where
  masks_at :
      (testbit (2 ^ o) k == (if o == k then 1 else 0))
        && (testbit (not8 (2 ^ o)) k == (if o == k then 0 else 1))
        && (testbit 255 k == 1)
      ≡ true
  masks_at = passes_under-at 8 k _ (passes_under-at 8 o _ masks_table ho) hk

  pub testbit-one_bit : testbit (2 ^ o) k ≡ (if o == k then 1 else 0)
  testbit-one_bit = ground (arith, masks_at)

  pub testbit-not8_one_bit : testbit (not8 (2 ^ o)) k ≡ (if o == k then 0 else 1)
  testbit-not8_one_bit = ground (arith, masks_at)

pub testbit-full_byte : (k : ℕ) → k < 8 → testbit 255 k ≡ 1
testbit-full_byte k h = ground (arith, masks_at 0 k (omega arith) h)
