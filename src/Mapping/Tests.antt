-- ===== src/Mapping/Tests.antt =====
-- The theorems on src/kernel/Memory/memory_mapping.c and src/kernel/Memory/DMA/MMIO.c, at small
-- tables.
use icarus.Prelude.{refl, arith, ◌==◌, if◌then◌else◌, List, [], ◌∷◌}
use icarus.BitMap.{Bytes}
use icarus.MemMap.Defs.{MemRegion, MemMap}
use icarus.MemMap.Tests.{two_used}
use icarus.Paging.{Space, zero_entry}
use icarus.Mapping.{MmapEntry, entry_of, register_entries, empty_map}
use icarus.Mapping.Entry.{IsReady}
use icarus.Mapping.Regions.{TableAt, RegisteredBy, register_entries-RegisteredBy}

-- 2 MiB from 1 MiB on, and 2 KiB that hold no whole page
abbrev table_memory : Bytes
table_memory a =
    if a == 18
    then 0x10
    else if a == 26
    then 0x20
    else if a == 32
    then 1
    else if a == 42
    then 0x30
    else if a == 49
    then 8
    else if a == 56
    then 1
    else 0

abbrev two_entries : List MmapEntry
two_entries =
    record { addr = 0x100000; len = 0x200000; type = 1 }
    ∷ record { addr = 0x300000; len = 0x800; type = 1 }
    ∷ []

two_entries_there : TableAt table_memory 24 64 two_entries 16
unfolding entry_of
two_entries_there = (omega arith, refl, (omega arith, refl, omega arith))

abbrev no_map : MemMap
no_map = empty_map (λ a. 0)

no_map-IsReady : IsReady 0 no_map
no_map-IsReady = record {
  laid = record { laid = refl; cells = λ a. omega arith; small = omega arith };
  top = omega arith;
  bits = omega arith;
}

register_entries-RegisteredBy_example :
    RegisteredBy 0 two_entries no_map (register_entries 3 table_memory 24 64 16 no_map)
register_entries-RegisteredBy_example =
    register_entries-RegisteredBy 3 table_memory 24 64 16 0 two_entries no_map two_entries_there
      (omega arith, (omega arith, (omega arith, tt))) no_map-IsReady (omega arith) (omega arith)

abbrev some_space : Space
some_space = record { tables = λ a. zero_entry; frames = two_used }

abbrev one_region : List MemRegion
one_region =
    record {
      start_addr = 0x100000;
      len_bytes = 0x480000;
      bitmap_start_addr = 0;
      qword_count = 18;
      free_frames = 0x480;
    }
    ∷ []
