-- ===== src/MemMap/Word.antt =====
-- The 64-bit word routines of src/kernel/Memory/PMM/mem_map.c: the bit counts that the compiler
-- provides, and `find_run_in_word`.
pub mod Counts
pub mod Run
use icarus.Prelude.{
  ℕ, zero, suc, ◌+◌, ◌-◌, ◌*◌, ◌/◌, ◌%◌, ◌^◌, Bool, ltb, leb, ◌==◌, if◌then◌else◌, bit_and, Option,
  none, some,
}
use icarus.Prelude.Bits.{testbit}
use icarus.Prelude.Words.{not64}

-- `__builtin_ctzll` and `__builtin_clzll`, for a word that is not 0
unfoldable pub ctz_from : ℕ → ℕ → ℕ
ctz_from zero w = 0
ctz_from (suc n) w = if w % 2 == 1 then 0 else suc (ctz_from n (w / 2))

unfoldable pub clz_from : ℕ → ℕ → ℕ
clz_from zero w = 0
clz_from (suc n) w = if testbit w n == 1 then 0 else suc (clz_from n w)

unfoldable pub ctzll : ℕ → ℕ
unfolding ctz_from
ctzll w = ctz_from 64 w

unfoldable pub clzll : ℕ → ℕ
unfolding clz_from testbit
clzll w = clz_from 64 w

-- The loop of `find_run_in_word`, with the final `covered` and `free_mask`. `covered` grows by at
-- least one a round, so `run_length` rounds are enough.
unfoldable pub cover : ℕ → ℕ → ℕ → ℕ → ℕ × ℕ
cover zero run_length covered free_mask = (covered, free_mask)
cover (suc n) run_length covered free_mask =
    let rest = cover n run_length (covered * 2) (bit_and free_mask (free_mask / 2 ^ covered)) in
    if leb (covered * 2) run_length then rest else (covered, free_mask)

-- `none` is the -1 that the C function returns.
unfoldable pub find_run_in_word : ℕ → ℕ → Option ℕ
unfolding cover ctzll
find_run_in_word word run_length =
    let (covered, free_mask) = cover run_length run_length 1 (not64 word) in
    let mask =
      if ltb covered run_length
      then bit_and free_mask (free_mask / 2 ^ (run_length - covered))
      else free_mask in
    if mask == 0 then none else some (ctzll mask)
