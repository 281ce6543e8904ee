-- ===== src/Madt.antt =====
-- The reader of the ACPI table of interrupt controllers, src/kernel/Memory/DMA/ACPI/MADT.c with the structs of
-- include/kernel/Memory/DMA/MADT.h and ACPI_helpers.h, over flat memory. Printing is left out.
mod Tags
mod Tables
mod Tests
use icarus.Prelude.{
  ℕ, zero, suc, ◌+◌, ◌-◌, ◌*◌, ◌%◌, ◌^◌, Bool, true, false, ◌||◌, ◌&&◌, ltb, ◌==◌, if◌then◌else◌,
  Option, none, some, List, [], ◌∷◌,
}
use icarus.BitMap.{Bytes}
use icarus.MemMap.Alloc.{little_endian}

pub record CpuInfo : Type 0 where
  pub acpi_id : ℕ
  pub apic_id : ℕ
  pub flags : ℕ

pub record IoapicConf : Type 0 where
  pub id : ℕ
  pub addr : ℕ
  pub gsi_base : ℕ

pub record IsoInfo : Type 0 where
  pub bus : ℕ
  pub source_irq : ℕ
  pub gsi : ℕ
  pub flags : ℕ

pub record NmiInfo : Type 0 where
  pub gsi : ℕ
  pub flags : ℕ

pub record LapicNmiInfo : Type 0 where
  pub acpi_id : ℕ
  pub lint : ℕ
  pub flags : ℕ

-- an array of `madt_info` with its count
pub record Table (A : Type 0) : Type 0 where
  pub count : ℕ
  pub items : ℕ → A

pub record MadtInfo : Type 0 where
  pub lapic_addr : ℕ
  pub madt_flags : ℕ
  pub cpus : Table CpuInfo
  pub ioapics : Table IoapicConf
  pub isos : Table IsoInfo
  pub nmis : Table NmiInfo
  pub lapic_nmis : Table LapicNmiInfo

-- `items[count++]`, for a uint32_t
abbrev pub push : {A : Type 0} → Table A → A → Table A
push t x = record {
  count = (t.count + 1) % 2 ^ 32;
  items = λ k. if k == t.count then x else t.items k;
}

-- the counts of the first pass
pub record Counts : Type 0 where
  pub n_cpu : ℕ
  pub n_io : ℕ
  pub n_iso : ℕ
  pub n_nmi : ℕ
  pub n_lnmi : ℕ

abbrev pub no_counts : Counts
no_counts = record { n_cpu = 0; n_io = 0; n_iso = 0; n_nmi = 0; n_lnmi = 0 }

abbrev pub count_tag : (type : ℕ) → Counts → Counts
count_tag type c =
    if type == 0
    then record c { n_cpu = (c.n_cpu + 1) % 2 ^ 32 }
    else if type == 1
    then record c { n_io = (c.n_io + 1) % 2 ^ 32 }
    else if type == 2
    then record c { n_iso = (c.n_iso + 1) % 2 ^ 32 }
    else if type == 3
    then record c { n_nmi = (c.n_nmi + 1) % 2 ^ 32 }
    else if type == 4
    then record c { n_lnmi = (c.n_lnmi + 1) % 2 ^ 32 }
    else c

-- where a pass ends: no room for another head, or a malformed tag
abbrev pub at_end : Bytes → (end p : ℕ) → Bool
at_end memory end p = ltb end (p + 2) || (ltb (memory (p + 1)) 2 || ltb end (p + memory (p + 1)))

-- the first pass; `none` when the rounds are used up
unfoldable pub count_from : (fuel : ℕ) → Bytes → (end p : ℕ) → Counts → Option Counts
count_from zero memory end p c = none
count_from (suc fuel) memory end p c =
    let rest = count_from fuel memory end (p + memory (p + 1)) (count_tag (memory p) c) in
    if at_end memory end p then some c else rest

-- the structs that the second pass stores, read from the tag at `p`
abbrev pub cpu_at : Bytes → ℕ → CpuInfo
cpu_at memory p = record {
  acpi_id = memory (p + 3);
  apic_id = memory (p + 3);
  flags = little_endian memory 4 (p + 4);
}

abbrev pub ioapic_at : Bytes → ℕ → IoapicConf
ioapic_at memory p = record {
  id = memory (p + 2);
  addr = little_endian memory 4 (p + 4);
  gsi_base = little_endian memory 4 (p + 8);
}

abbrev pub iso_at : Bytes → ℕ → IsoInfo
iso_at memory p = record {
  bus = memory (p + 2);
  source_irq = memory (p + 3);
  gsi = little_endian memory 4 (p + 4);
  flags = little_endian memory 2 (p + 8);
}

abbrev pub nmi_at : Bytes → ℕ → NmiInfo
nmi_at memory p = record {
  flags = little_endian memory 2 (p + 4);
  gsi = little_endian memory 4 (p + 6);
}

abbrev pub lapic_nmi_at : Bytes → ℕ → LapicNmiInfo
lapic_nmi_at memory p = record {
  acpi_id = memory (p + 2);
  flags = little_endian memory 2 (p + 3);
  lint = memory (p + 5);
}

-- the switch of the second pass
unfoldable pub fill_tag : Bytes → (p : ℕ) → MadtInfo → MadtInfo
unfolding little_endian
fill_tag memory p info =
    let type = memory p in
    if type == 0
    then record info { cpus = push info.cpus (cpu_at memory p) }
    else if type == 1
    then record info { ioapics = push info.ioapics (ioapic_at memory p) }
    else if type == 2
    then record info { isos = push info.isos (iso_at memory p) }
    else if type == 3
    then record info { nmis = push info.nmis (nmi_at memory p) }
    else if type == 4
    then record info { lapic_nmis = push info.lapic_nmis (lapic_nmi_at memory p) }
    else if type == 5
    then record info { lapic_addr = little_endian memory 8 (p + 4) }
    else info

-- the second pass
unfoldable pub fill_from : (fuel : ℕ) → Bytes → (end p : ℕ) → MadtInfo → Option MadtInfo
unfolding fill_tag
fill_from zero memory end p info = none
fill_from (suc fuel) memory end p info =
    let rest = fill_from fuel memory end (p + memory (p + 1)) (fill_tag memory p info) in
    if at_end memory end p then some info else rest

-- the bytes asked for: the struct has 72, and the items 8, 12, 12, 8 and 4
abbrev pub total_size : Counts → ℕ
total_size c = 72 + c.n_cpu * 8 + c.n_io * 12 + c.n_iso * 12 + c.n_nmi * 8 + c.n_lnmi * 4

-- the addresses of the first `n` controllers, which are mapped
abbrev pub addrs : (ℕ → IoapicConf) → (i n : ℕ) → List ℕ
addrs items i zero = []
addrs items i (suc n) = (items i).addr ∷ addrs items (i + 1) n

pub record Handled : Type 0 where
  pub info : MadtInfo
  pub mapped : List ℕ

-- the counts of a struct are zero
abbrev pub is_clear : MadtInfo → Bool
is_clear info =
    (info.cpus.count == 0)
    && ((info.ioapics.count == 0)
        && ((info.isos.count == 0) && ((info.nmis.count == 0) && (info.lapic_nmis.count == 0))))

-- `handle_MADT`: `imalloc` gives what the new struct holds for a size, or no struct. Of the struct, `Imemset` clears the first 8 bytes
-- only, the address, which is stored right after; the counts stay as they are. The five arrays lie one behind the other in the
-- block, each with the room that the first pass counts. Where the counts begin at zero, the second pass stores each item in its own
-- array, which is what the tables stand for. Where they do not, it stores items in the arrays behind and past the block, and the
-- model stops with `none`. The fuel is that of a pass.
unfoldable pub handle_madt :
    (fuel : ℕ)
    → (imalloc : ℕ → Option MadtInfo) → Bytes
    → (base length : ℕ) → Option (Option Handled)
unfolding count_from fill_from
handle_madt fuel imalloc memory base length =
    elim (count_from fuel memory (base + length) (base + 0x2C) no_counts) [
      | none ↦ none
      | some c ↦ elim (imalloc (total_size c)) [
        | none ↦ some none
        | some old ↦
            let filled = fill_from fuel memory (base + length) (base + 0x2C) (record old {
              lapic_addr = little_endian memory 4 (base + 0x24);
              madt_flags = little_endian memory 4 (base + 0x28);
            }) in
            if is_clear old
            then elim filled [
              | none ↦ none
              | some info ↦ some (
                  some (record {
                    info = info;
                    mapped = info.lapic_addr ∷ addrs info.ioapics.items 0 info.ioapics.count;
                  }))
            ]
            else none
      ]
    ]
