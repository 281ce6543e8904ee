-- ===== src/Acpi/Tests.antt =====
-- The theorems on src/kernel/Memory/DMA/ACPI/ACPI.c and ACPI_helpers.h, at a table of 100 bytes
-- that add up to no multiple of 256, and at a register.
use icarus.Prelude.{◌+◌, ◌*◌, ◌/◌, ◌%◌, ◌^◌, ◌≡◌, refl, inl, arith, ◌==◌, if◌then◌else◌, none, true}
use icarus.BitMap.{Bytes}
use icarus.MemMap.Alloc.{little_endian}
use icarus.MemMap.Tests.{two_used}
use icarus.Paging.{zero_entry}
use icarus.Acpi.{Globals, AcpiState, Bar, is_text, facp, length_of, handle_table}
use icarus.Acpi.Checks.{Copied, handle_table-Copied}

abbrev globals : Globals
globals = record { fadt = 0; mcfg = 400 }

-- "FACP", the length, and a 7
abbrev bad_table : Bytes
bad_table a =
    if a == 1000
    then b'F'
    else if a == 1001
    then b'A'
    else if a == 1002
    then b'C'
    else if a == 1003
    then b'P'
    else if a == 1004
    then 100
    else if a == 1040
    then 7
    else 0

abbrev at_boot : AcpiState
at_boot = record {
  memory = bad_table;
  madt = none;
  space = record { tables = λ a. zero_entry; frames = two_used };
}

bad_table-text : is_text bad_table 1000 facp ≡ true
unfolding is_text
bad_table-text = refl

bad_table-length : length_of bad_table 1000 ≡ 100
unfolding little_endian
bad_table-length = refl

handle_table-Copied_example :
    Copied globals at_boot 1000 (handle_table globals 10 (λ size. none) at_boot 1000)
handle_table-Copied_example =
    handle_table-Copied globals 10 (λ size. none) at_boot 1000 bad_table-text
      (λ k lt. let short = bad_table-length in ground (arith, short, lt)) (inl (omega arith))

abbrev wide_bar : Bar
wide_bar = record { low = 0xC0000004; high = 0x1F }

-- the register of a region of 4 KiB: the flags stay, and the other bits below 12 are zero
abbrev write_page_bar : (old new : Bar) → Bar
write_page_bar old new = record {
  low = new.low % 2 ^ 32 / 4096 * 4096 + old.low % 16;
  high = new.high % 2 ^ 32;
}
