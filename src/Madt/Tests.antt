-- ===== src/Madt/Tests.antt =====
-- Witnesses for src/kernel/Memory/DMA/ACPI/MADT.c: a table with one processor and one tag that is not read.
use icarus.Prelude.{◌≡◌, refl, arith, ◌==◌, if◌then◌else◌, none, some, [], ◌∷◌}
use icarus.BitMap.{Bytes}
use icarus.Madt.{Table, MadtInfo, no_counts, Handled, handle_madt}
use icarus.Madt.Tags.{count_tags}
use icarus.Madt.Tables.{AllHold, Counted, handle_madt-AllHold}

-- a table of 64 bytes: the tags are at 44 (a processor, 8 bytes) and 52 (type 9, 12 bytes)
abbrev table : Bytes
table a =
    if a == 45
    then 8
    else if a == 47
    then 3
    else if a == 48
    then 1
    else if a == 52
    then 9
    else if a == 53
    then 12
    else 0

abbrev empty_table : {A : Type 0} → A → Table A
empty_table x = record { count = 0; items = λ k. x }

abbrev cleared : MadtInfo
cleared = record {
  lapic_addr = 0;
  madt_flags = 0;
  cpus = empty_table (record { acpi_id = 0; apic_id = 0; flags = 0 });
  ioapics = empty_table (record { id = 0; addr = 0; gsi_base = 0 });
  isos = empty_table (record { bus = 0; source_irq = 0; gsi = 0; flags = 0 });
  nmis = empty_table (record { gsi = 0; flags = 0 });
  lapic_nmis = empty_table (record { acpi_id = 0; lint = 0; flags = 0 });
}

handle_madt-AllHold_example :
    (out : Handled) × (handle_madt 3 (λ size. if size == 80 then some cleared else none) table 0 64
      ≡ some (some out))
    × Counted table (44 ∷ 52 ∷ []) no_counts (count_tags table (44 ∷ 52 ∷ []) no_counts)
    × AllHold table (44 ∷ 52 ∷ []) cleared out.info
handle_madt-AllHold_example =
    handle_madt-AllHold 3 (λ size. if size == 80 then some cleared else none) table 0 64
      (44 ∷ 52 ∷ []) cleared (refl, refl, (refl, refl, refl)) (omega arith) (omega arith) refl refl
