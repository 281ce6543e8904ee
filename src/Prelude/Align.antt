-- ===== src/Prelude/Align.antt =====
-- `ALIGN_UP` and `ALIGN_DOWN` of include/kernel_helper.h on uint64_t values.
use Prim.Native.Nat.{ℕ, ◌+◌, ◌-◌, ◌*◌, ◌/◌, ◌^◌, ◌≤◌, ◌<◌, bit_and}
use mathlib.Core.Path.{◌≡◌}
use native.Mathlib.Omega.{arith}
use icarus.Prelude.Bits.{align_mask}
use icarus.Prelude.Words.{add64, sub64, not64}

unfoldable pub align_down : ℕ → ℕ → ℕ
align_down addr align = bit_and addr (not64 (align - 1))

unfoldable pub align_up : ℕ → ℕ → ℕ
align_up addr align = bit_and (sub64 (add64 addr align) 1) (not64 (align - 1))

-- Rounding to a power of two.
pub align_down_lem :
    (s addr : ℕ) → s ≤ 64 → addr < 2 ^ 64 → align_down addr (2 ^ s) ≡ addr / 2 ^ s * 2 ^ s
unfolding align_down
align_down_lem s addr le h = align_mask s addr le h

pub align_up_lem :
    (s addr : ℕ)
    → s ≤ 64
    → 0 < 2 ^ s
    → addr + 2 ^ s < 2 ^ 64
    → align_up addr (2 ^ s) ≡ (addr + 2 ^ s - 1) / 2 ^ s * 2 ^ s
unfolding align_up
align_up_lem s addr le pos h =
    let e : sub64 (add64 addr (2 ^ s)) 1 ≡ addr + 2 ^ s - 1 = omega arith in
    rw e (align_mask s (addr + 2 ^ s - 1) le (omega arith))
