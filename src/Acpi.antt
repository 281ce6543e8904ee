-- ===== src/Acpi.antt =====
-- The tables of ACPI, src/kernel/Memory/DMA/ACPI/ACPI.c over flat memory, and the base address
-- registers of include/kernel/Memory/DMA/ACPI_helpers.h. The offsets are those of the C structs:
-- FADT_TABLE is not packed and has 288 bytes, and the pointers of XSDT stand at 40, a multiple of
-- 8. Printing is left out.
mod Checks
mod Bars
mod Tests
use icarus.Prelude.{
  ℕ, zero, suc, ◌+◌, ◌-◌, ◌*◌, ◌/◌, ◌%◌, ◌^◌, min, bit_and, bit_or, Bool, true, false, not, ◌&&◌,
  ltb, ◌==◌, if◌then◌else◌, Option, none, some, List, [], ◌∷◌,
}
use icarus.Prelude.Words.{add64, sub64}
use icarus.BitMap.{Bytes, update}
use icarus.MemMap.Alloc.{frame_alloc_failed, little_endian}
use icarus.MemMap.Defs.{default_page_size}
use icarus.MemUtils.{imemcpy}
use icarus.Paging.{Space}
use icarus.Mapping.{map_mmio}
use icarus.Madt.{MadtInfo, Handled, handle_madt}
use icarus.Apic.{mmio_phys_to_virt}

-- a uint8_t sum
unfoldable pub checksum_from : (n : ℕ) → Bytes → (buffer sum : ℕ) → ℕ
checksum_from zero memory buffer sum = sum
checksum_from (suc n) memory buffer sum =
    checksum_from n memory (buffer + 1) ((sum + memory buffer) % 2 ^ 8)

unfoldable pub calculate_checksum : Bytes → (buffer length : ℕ) → ℕ
unfolding checksum_from
calculate_checksum memory buffer length = checksum_from length memory buffer 0

-- `!Istrncmp` with a literal of as many characters
unfoldable pub is_text : Bytes → (p : ℕ) → List ℕ → Bool
is_text memory p [] = true
is_text memory p (c ∷ cs) = memory p == c && is_text memory (p + 1) cs

abbrev pub facp : List ℕ
facp = b'F' ∷ b'A' ∷ b'C' ∷ b'P' ∷ []

abbrev pub mcfg_text : List ℕ
mcfg_text = b'M' ∷ b'C' ∷ b'F' ∷ b'G' ∷ []

abbrev pub apic_text : List ℕ
apic_text = b'A' ∷ b'P' ∷ b'I' ∷ b'C' ∷ []

-- "RSD PTR "
abbrev pub signature : List ℕ
signature = b'R' ∷ b'S' ∷ b'D' ∷ b' ' ∷ b'P' ∷ b'T' ∷ b'R' ∷ b' ' ∷ []

abbrev pub fadt_size : ℕ
fadt_size = 288

-- the length in the header of a table
abbrev pub length_of : Bytes → (h : ℕ) → ℕ
length_of memory h = little_endian memory 4 (h + 4)

-- where the linker puts the two globals
pub record Globals : Type 0 where
  pub fadt : ℕ
  pub mcfg : ℕ

-- the memory, what `handle_MADT` has stored, and the page tables with their frames
pub record AcpiState : Type 0 where
  pub memory : Bytes
  pub madt : Option Handled
  pub space : Space

-- the branch of "FACP" behind its check, which ends with the byte FullLength
unfoldable pub copy_fadt : Globals → Bytes → (h : ℕ) → Bytes
copy_fadt g memory h =
    let length = length_of memory h in
    let copied = imemcpy memory g.fadt h (min length fadt_size) in
    update copied (g.fadt + 44) (if ltb length fadt_size then 0 else 1)

-- what `handle_MADT` gives; its failed allocation is not looked at
abbrev pub store_madt : AcpiState → Option (Option Handled) → Option (Bool × AcpiState)
store_madt s none = none
store_madt s (some none) = some (true, s)
store_madt s (some (some madt)) = some (true, record s { madt = some madt })

-- What the tables share: the globals, and what `handle_madt` takes.
module _ (g : Globals) (fuel : ℕ) (imalloc : ℕ → Option MadtInfo) where
  -- `true` is 0 and `false` is -1; `none` when the fuel of `handle_madt` is used up. The
  -- checksums are those of the globals, not of the table.
  unfoldable pub handle_table : AcpiState → (h : ℕ) → Option (Bool × AcpiState)
  handle_table s h =
      let length = length_of s.memory h in
      let good = λ (buffer : ℕ). calculate_checksum s.memory buffer length == 0 in
      if is_text s.memory h facp
      then if good g.fadt
        then some (true, record s { memory = copy_fadt g s.memory h })
        else some (false, s)
      else if is_text s.memory h mcfg_text
      then if good g.mcfg
        then some (true, record s { memory = imemcpy s.memory g.mcfg h length })
        else some (false, s)
      else if is_text s.memory h apic_text
      then if good g.mcfg
        then store_madt s (handle_madt fuel imalloc s.memory h length)
        else some (false, s)
      else some (true, s)

  -- the loops over the pointers of `size` bytes from `at` on
  unfoldable pub categorise_from : (n size at : ℕ) → AcpiState → Option (Bool × AcpiState)
  categorise_from zero size at s = some (true, s)
  categorise_from (suc n) size at s =
      let h = mmio_phys_to_virt (little_endian s.memory size at) in
      elim (handle_table s h) [
        | none ↦ none
        | some (true, s') ↦ categorise_from n size (at + size) s'
        | some (false, s') ↦ some (false, s')
      ]

  -- The count is a size_t that becomes an int; a negative one makes no round. `XSDT.h` has 36
  -- bytes.
  abbrev pub entries : (length size : ℕ) → ℕ
  entries length size = let n = sub64 length 36 / size % 2 ^ 32 in if ltb n (2 ^ 31) then n else 0

  unfoldable pub categorise_tables_xsdt : AcpiState → (xsdt : ℕ) → Option (Bool × AcpiState)
  categorise_tables_xsdt s xsdt =
      categorise_from (entries (length_of s.memory xsdt) 8) 8 (xsdt + 40) s

  unfoldable pub categorise_tables_rsdt : AcpiState → (rsdt : ℕ) → Option (Bool × AcpiState)
  categorise_tables_rsdt s rsdt =
      categorise_from (entries (length_of s.memory rsdt) 4) 4 (rsdt + 36) s

  -- the root table's page mapped, WRITEABLE and CACHE_DISABLED, and what follows if that succeeds
  abbrev pub with_root :
      (pml4 root : ℕ)
      → AcpiState
      → (AcpiState → Option (Bool × AcpiState))
      → Option (Bool × AcpiState)
  with_root pml4 root s next = elim (map_mmio 2 pml4 s.space root default_page_size 0x8002) [
    | none ↦ none
    | some (ret, space) ↦
        let s' : AcpiState = record s { space = space } in
        let rest = next s' in if ret == frame_alloc_failed then some (false, s') else rest
  ]

  unfoldable pub handle_new_acpi : (pml4 : ℕ) → AcpiState → (xsdp : ℕ) → Option (Bool × AcpiState)
  handle_new_acpi pml4 s xsdp =
      let root = little_endian s.memory 8 (xsdp + 24) in
      if not (is_text s.memory xsdp signature)
      then some (false, s)
      else if not (calculate_checksum s.memory xsdp 20 == 0)
      then some (false, s)
      else if not (calculate_checksum s.memory xsdp (little_endian s.memory 4 (xsdp + 20)) == 0)
      then some (false, s)
      else with_root pml4 root s (λ s'. categorise_tables_xsdt s' (mmio_phys_to_virt root))

  -- up to `discoverPCIE`, whose result is not looked at
  unfoldable pub handle_old_acpi : (pml4 : ℕ) → AcpiState → (rsdp : ℕ) → Option (Bool × AcpiState)
  handle_old_acpi pml4 s rsdp =
      let root = little_endian s.memory 4 (rsdp + 16) in
      if not (is_text s.memory rsdp signature)
      then some (false, s)
      else if not (calculate_checksum s.memory rsdp 20 == 0)
      then some (false, s)
      else with_root pml4 root s (λ s'. categorise_tables_rsdt s' (mmio_phys_to_virt root))

-- a pair of base address registers
pub record Bar : Type 0 where
  pub low : ℕ
  pub high : ℕ

-- the type is not masked, so the address takes part in the comparison
unfoldable pub bar_is_64bit : Bar → Bool
bar_is_64bit bar = bar.low / 2 == 2

unfoldable pub decode_phys_bar : Bar → ℕ
decode_phys_bar bar =
    let bar_type = bar.low / 2 % 4 in
    if bar.low % 2 == 1
    then frame_alloc_failed
    else if bar_type == 1
    then frame_alloc_failed
    else if bar_type == 0
    then bit_and bar.low 0xFFFFFFF0
    else bit_or (bar.high * 2 ^ 32) (bit_and bar.low 0xFFFFFFF0)

unfoldable pub encode_phys_bar : (bar_val : ℕ) → Bar
encode_phys_bar bar_val = record {
  low = bit_and bar_val 0xFFFFFFFF;
  high = bar_val / 2 ^ 32 % 2 ^ 32;
}
