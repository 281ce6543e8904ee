-- ===== src/Acpi/Checks.antt =====
-- The check of a table in src/kernel/Memory/DMA/ACPI/ACPI.c.
use icarus.Prelude.{
  ℕ, zero, suc, ◌+◌, ◌%◌, ◌^◌, ◌≤◌, ◌<◌, ◌≡◌, ◌≢◌, refl, ◌⊎◌, arith, min, Bool, true, ltb,
  if◌then◌else◌, Option, some,
}
use icarus.BitMap.{Bytes, update}
use icarus.MemUtils.Laws.{imemcpy_lem}
use icarus.Madt.{MadtInfo}
use icarus.Acpi.{
  checksum_from, calculate_checksum, is_text, facp, fadt_size, length_of, Globals, AcpiState,
  copy_fadt, handle_table,
}

zero_checksum :
    (n : ℕ) (memory : Bytes) (p : ℕ)
    → ((k : ℕ) → k < n → memory (p + k) ≡ 0)
    → checksum_from n memory p 0 ≡ 0
unfolding checksum_from
zero_checksum zero memory p zeros = refl
zero_checksum (suc n) memory p zeros =
    let first : (0 + memory p) % 2 ^ 8 ≡ 0 = ground (arith, zeros 0) in
    rw first (zero_checksum n memory (p + 1) (λ k lt. rest k lt))
  where
    rest : (k : ℕ) → k < n → memory (p + 1 + k) ≡ 0
    rest k lt =
        let e : p + 1 + k ≡ p + suc k = omega arith in rw e (zeros (suc k) (omega (arith, lt)))

-- the table in the global, byte by byte
pub record Copied (g : Globals) (s : AcpiState) (h : ℕ) (out : Option (Bool × AcpiState))
    : Type 0 where
  pub after : AcpiState
  pub found : out ≡ some (true, after)
  pub bytes :
      (k : ℕ)
      → k < min (length_of s.memory h) fadt_size
      → k ≢ 44
      → after.memory (g.fadt + k) ≡ s.memory (h + k)
  pub full : after.memory (g.fadt + 44) ≡ (if ltb (length_of s.memory h) fadt_size then 0 else 1)

copy_fadt-bytes :
    (g : Globals) (memory : Bytes) (h k : ℕ)
    → (g.fadt ≤ h) ⊎ (h + min (length_of memory h) fadt_size ≤ g.fadt)
    → k < min (length_of memory h) fadt_size
    → k ≢ 44
    → copy_fadt g memory h (g.fadt + k) ≡ memory (h + k)
unfolding copy_fadt update
copy_fadt-bytes g memory h k apart lt ne =
    ground
      (arith, imemcpy_lem memory g.fadt h (min (length_of memory h) fadt_size) (g.fadt + k) apart)

copy_fadt-full :
    (g : Globals) (memory : Bytes) (h : ℕ)
    → copy_fadt g memory h (g.fadt + 44) ≡ (if ltb (length_of memory h) fadt_size then 0 else 1)
unfolding copy_fadt update
copy_fadt-full g memory h = ground arith

-- For a table "FACP" and a global that is zero as far as the table is long, as it is before the
-- first one: handle_table gives 0 and takes the table whatever its bytes add up to, since the
-- checksum is that of the global. What it takes is the first 288 bytes, or all if there are
-- fewer, with the byte at 44 replaced: 0 for fewer than 288 bytes and else 1. The table does not
-- begin below the global and reach into it.
pub handle_table-Copied :
    (g : Globals) (fuel : ℕ) (imalloc : ℕ → Option MadtInfo) (s : AcpiState) (h : ℕ)
    → is_text s.memory h facp ≡ true
    → ((k : ℕ) → k < length_of s.memory h → s.memory (g.fadt + k) ≡ 0)
    → (g.fadt ≤ h) ⊎ (h + min (length_of s.memory h) fadt_size ≤ g.fadt)
    → Copied g s h (handle_table g fuel imalloc s h)
unfolding handle_table calculate_checksum
handle_table-Copied g fuel imalloc s h text zeros apart =
    let sum = zero_checksum (length_of s.memory h) s.memory g.fadt zeros in
    record {
      after = record s { memory = copy_fadt g s.memory h };
      found = rw (text, sum) refl;
      bytes = λ k lt ne. copy_fadt-bytes g s.memory h k apart lt ne;
      full = copy_fadt-full g s.memory h;
    }
