-- ===== src/Apic/Timer.antt =====
-- The measurement of the local timer against the timer of ACPI, src/kernel/interrupts/APIC/APIC.c.
use icarus.Prelude.{
  ℕ, zero, suc, ◌+◌, ◌-◌, ◌*◌, ◌/◌, ◌%◌, ◌^◌, Bool, true, false, ltb, ◌==◌, if◌then◌else◌, Option,
  none, some,
}
use icarus.Apic.{Machine, lapic_read, lapic_write, mmio_phys_to_virt}

abbrev pub pm_timer_hz : ℕ
pm_timer_hz = 3579545

-- 10 ms, 35795 ticks
abbrev pub wait : ℕ
wait = pm_timer_hz / 100

abbrev pub lapic_timer_div : ℕ
lapic_timer_div = 0x3E0

abbrev pub lapic_lvt_timer : ℕ
lapic_lvt_timer = 0x320

abbrev pub lapic_timer_initcnt : ℕ
lapic_timer_initcnt = 0x380

abbrev pub lapic_timer_curcnt : ℕ
lapic_timer_curcnt = 0x390

abbrev pub lapic_lvt_masked : ℕ
lapic_lvt_masked = 0x10000

-- the number of values of a timer, one more than its mask
abbrev pub modulus : (is32 : Bool) → ℕ
modulus is32 = if is32 then 2 ^ 32 else 2 ^ 24

-- the fields of the ACPI table that are read
pub record Fadt : Type 0 where
  pub full_length : ℕ
  pub pm_timer_block : ℕ
  pub flags : ℕ
  pub x_pm_address_space : ℕ
  pub x_pm_address : ℕ

-- the difference of two uint32_t under the mask
abbrev pub elapsed_since : (is32 : Bool) → (start now : ℕ) → ℕ
elapsed_since is32 start now = (now + 2 ^ 32 - start) % 2 ^ 32 % modulus is32

-- `0xFFFFFFFFu - cur` and the rest, in uint64_t, cast to uint32_t
abbrev pub ticks_per_ms : (cur elapsed : ℕ) → ℕ
ticks_per_ms cur elapsed =
    (2 ^ 32 - 1 - cur) * pm_timer_hz % 2 ^ 64 / (elapsed * 1000 % 2 ^ 64) % 2 ^ 32

-- the new LAPIC_ADDR and LAPIC_TICKS_PER_MS, and the result
pub record Apic : Type 0 where
  pub lapic : ℕ
  pub ticks : ℕ
  pub enabled : Bool

module _ {S : Type 0} (m : Machine S) where
  abbrev pub pm_raw : (addr : ℕ) → (is_mmio : Bool) → S → ℕ × S
  pm_raw addr is_mmio s = if is_mmio then m.read32 addr s else m.inportl addr s

  -- `v & 0xFFFFFF` is the remainder by its modulus; a value has 32 bits
  unfoldable pub pm_read : (addr : ℕ) → (is32 is_mmio : Bool) → S → ℕ × S
  pm_read addr is32 is_mmio s = let (v, s') = pm_raw addr is_mmio s in (v % modulus is32, s')

  -- the loop that waits, for so many more rounds; `none` when they are used up
  unfoldable pub wait_pm :
      (rounds addr : ℕ) → (is32 is_mmio : Bool) → (start : ℕ) → S → Option (ℕ × S)
  wait_pm zero addr is32 is_mmio start s = none
  wait_pm (suc rounds) addr is32 is_mmio start s =
      let (now, s') = pm_read addr is32 is_mmio s in
      let elapsed = elapsed_since is32 start now in
      let more = wait_pm rounds addr is32 is_mmio start s' in
      if ltb elapsed wait then more else some (elapsed, s')

  -- behind the loop
  abbrev pub finish : (lapic elapsed : ℕ) → S → ℕ × S
  finish lapic elapsed s =
      let (cur, s') = lapic_read m lapic lapic_timer_curcnt s in
      (ticks_per_ms cur elapsed, lapic_write m lapic lapic_timer_initcnt 0 s')

  -- in front of it: the timer's start, and the local timer set to run down
  abbrev pub set_timer : (lapic addr : ℕ) → (is32 is_mmio : Bool) → S → ℕ × S
  set_timer lapic addr is32 is_mmio s =
      let set =
        lapic_write m lapic lapic_lvt_timer lapic_lvt_masked
          (lapic_write m lapic lapic_timer_div 3 s) in
      let (start, s') = pm_read addr is32 is_mmio set in
      (start, lapic_write m lapic lapic_timer_initcnt 0xFFFFFFFF s')

  unfoldable pub calibrate_lapic_ticks_per_ms :
      (rounds lapic pm_addr : ℕ) → (is32 is_mmio : Bool) → S → Option (ℕ × S)
  calibrate_lapic_ticks_per_ms rounds lapic pm_addr is32 is_mmio s =
      let (start, s') = set_timer lapic pm_addr is32 is_mmio s in
      elim (wait_pm rounds pm_addr is32 is_mmio start s') [
        | none ↦ none
        | some (elapsed, s'') ↦ some (finish lapic elapsed s'')
      ]

  -- the mapping of the timer's registers only changes the page tables, and its result is not
  -- looked at
  unfoldable pub lapic_ticks_per_ms :
      (map_mmio : ℕ → S → S) → (rounds lapic : ℕ) → Fadt → S → Option (ℕ × S)
  lapic_ticks_per_ms map_mmio rounds lapic fadt s =
      let is32 = fadt.flags / 2 ^ 8 % 2 == 1 in
      if fadt.full_length == 0
      then if fadt.pm_timer_block == 0
        then some (0, s)
        else calibrate_lapic_ticks_per_ms rounds lapic (fadt.pm_timer_block % 2 ^ 16) is32 false s
      else if fadt.x_pm_address == 0
      then some (0, s)
      else if fadt.x_pm_address_space == 1
      then calibrate_lapic_ticks_per_ms rounds lapic (fadt.x_pm_address % 2 ^ 16) is32 false s
      else calibrate_lapic_ticks_per_ms rounds lapic (mmio_phys_to_virt fadt.x_pm_address) is32 true
          (map_mmio fadt.x_pm_address s)

  -- src/kernel/interrupts/APIC/PIC.c
  unfoldable pub disable_pic : S → S
  disable_pic s =
      let s1 = m.outportb 0xA0 0x11 (m.outportb 0x20 0x11 s) in
      let s2 = m.outportb 0xA1 0x28 (m.outportb 0x21 0x20 s1) in
      let s3 = m.outportb 0xA1 0x02 (m.outportb 0x21 0x04 s2) in
      let s4 = m.outportb 0xA1 0x01 (m.outportb 0x21 0x01 s3) in
      m.outportb 0xA1 0xFF (m.outportb 0x21 0xFF s4)

  -- the global `lapic_addr` of the ACPI table comes in
  unfoldable pub enable_apic :
      (map_mmio : ℕ → S → S) → (rounds lapic_addr : ℕ) → Fadt → S → Option (Apic × S)
  enable_apic map_mmio rounds lapic_addr fadt s =
      let lapic = mmio_phys_to_virt lapic_addr in
      let s' = m.write32 (lapic + 0xF0) 0x1FF (disable_pic s) in
      elim (lapic_ticks_per_ms map_mmio rounds lapic fadt s') [
        | none ↦ none
        | some (ticks, s'') ↦ some (
          record { lapic = lapic; ticks = ticks; enabled = if ticks == 0 then false else true },
          s'',
        )
      ]
