-- ===== src/Apic.antt =====
-- The local and the I/O interrupt controllers, src/kernel/interrupts/APIC/APIC.c with
-- include/kernel/interrupts/APIC.h, over a machine that is a parameter: its registers in memory
-- and its ports.
mod Routes
mod Entries
pub mod Timer
mod Ticks
mod Tests
use icarus.Prelude.{
  ℕ, zero, suc, ◌+◌, ◌-◌, ◌*◌, ◌/◌, ◌%◌, ◌^◌, bit_and, bit_or, Bool, ltb, if◌then◌else◌, Option,
  none, some, List, [], ◌∷◌,
}
use icarus.Prelude.Words.{add64}
use icarus.Madt.{IoapicConf, Table}

-- what the code does to the machine: an access of 32 bits to memory, the read of a port of 32
-- bits, and the write to one of 8
pub record Machine (S : Type 0) : Type 0 where
  pub read32 : (addr : ℕ) → S → ℕ × S
  pub write32 : (addr value : ℕ) → S → S
  pub inportl : (port : ℕ) → S → ℕ × S
  pub outportb : (port value : ℕ) → S → S

abbrev pub kernel_mmio : ℕ
kernel_mmio = 0xFFFFFE0000000000

abbrev pub redir_base : ℕ
redir_base = 0x10

-- the redirection entry, by its words
pub record RedirectionEntry : Type 0 where
  pub low_w : ℕ
  pub high_w : ℕ

-- its fields of bits
abbrev pub vector : RedirectionEntry → ℕ
vector e = e.low_w % 2 ^ 8

abbrev pub delv_mode : RedirectionEntry → ℕ
delv_mode e = e.low_w / 2 ^ 8 % 2 ^ 3

abbrev pub dest_mode : RedirectionEntry → ℕ
dest_mode e = e.low_w / 2 ^ 11 % 2

abbrev pub pin_polarity : RedirectionEntry → ℕ
pin_polarity e = e.low_w / 2 ^ 13 % 2

abbrev pub trigger_mode : RedirectionEntry → ℕ
trigger_mode e = e.low_w / 2 ^ 15 % 2

abbrev pub mask : RedirectionEntry → ℕ
mask e = e.low_w / 2 ^ 16 % 2

abbrev pub destination : RedirectionEntry → ℕ
destination e = e.high_w / 2 ^ 24 % 2 ^ 8

-- the struct has 16 bytes, and an entry 8
pub record IoapicInfo : Type 0 where
  pub base_address : ℕ
  pub total_size : ℕ
  pub ioapic_id : ℕ
  pub ioapic_version : ℕ
  pub redirection_count : ℕ
  pub redirection_table : List RedirectionEntry

-- the halves that `cpu_set_apic_base` writes
unfoldable pub cpu_set_apic_base : (apic : ℕ) → ℕ × ℕ
cpu_set_apic_base apic =
    (bit_or (bit_and apic 0xFFFFF0000) 0x800 % 2 ^ 32, bit_and (apic / 2 ^ 32) 0x0F)

-- a bool as a number
abbrev pub to_bit : Bool → ℕ
to_bit b = if b then 1 else 0

-- `vec | (active_low << 13) | (level << 15)`: the bits of the three are apart
abbrev pub route_low : (vec : ℕ) → (active_low level : Bool) → ℕ
route_low vec active_low level = vec + to_bit active_low * 2 ^ 13 + to_bit level * 2 ^ 15

-- the macro of include/kernel_helper.h
abbrev pub mmio_phys_to_virt : ℕ → ℕ
mmio_phys_to_virt p = add64 p kernel_mmio

-- `ver >> IOAPIC_REDIR_ENTR_COUNT_SHIFT & 0xFF`
abbrev pub last_entry : (ver : ℕ) → ℕ
last_entry ver = ver / 2 ^ 16 % 2 ^ 8

module _ {S : Type 0} (m : Machine S) where
  -- `lapic` is the global LAPIC_ADDR
  unfoldable pub lapic_read : (lapic reg_offset : ℕ) → S → ℕ × S
  lapic_read lapic reg_offset = m.read32 (lapic + reg_offset)

  unfoldable pub lapic_write : (lapic reg_offset value : ℕ) → S → S
  lapic_write lapic reg_offset value = m.write32 (lapic + reg_offset) value

  -- the number of a register is a uint8_t
  unfoldable pub ioapic_write : (base reg val : ℕ) → S → S
  ioapic_write base reg val s = m.write32 (base + 0x10) val (m.write32 base (reg % 2 ^ 8) s)

  unfoldable pub ioapic_read : (base reg : ℕ) → S → ℕ × S
  ioapic_read base reg s = m.read32 (base + 0x10) (m.write32 base (reg % 2 ^ 8) s)

  unfoldable pub ioapic_route : (base pin vec apic_id : ℕ) → (active_low level : Bool) → S → S
  ioapic_route base pin vec apic_id active_low level s =
      ioapic_write base (redir_base + 2 * pin) (route_low vec active_low level)
        (ioapic_write base (redir_base + 1 + 2 * pin) (apic_id * 2 ^ 24) s)

  unfoldable pub ioapic_set : (base pin : ℕ) → RedirectionEntry → S → S
  ioapic_set base pin redir s =
      ioapic_write base (redir_base + 2 * pin) redir.low_w
        (ioapic_write base (redir_base + 1 + 2 * pin) redir.high_w s)

  -- the loop of `enable_io_apic`: the entries from a register on
  unfoldable pub read_entries : (base n reloc_reg : ℕ) → S → List RedirectionEntry × S
  read_entries base zero reloc_reg s = ([], s)
  read_entries base (suc n) reloc_reg s =
      let (low, s1) = ioapic_read base reloc_reg s in
      let (high, s2) = ioapic_read base (reloc_reg + 1) s1 in
      let (rest, s3) = read_entries base n (reloc_reg + 2) s2 in
      (record { low_w = low; high_w = high } ∷ rest, s3)

  -- the size that is returned is that of the info; the count is a uint8_t
  unfoldable pub enable_io_apic : (base : ℕ) → S → IoapicInfo × S
  enable_io_apic base s =
      let (ver, s1) = ioapic_read base 1 s in
      let count = (last_entry ver + 1) % 2 ^ 8 in
      let (version, s2) = ioapic_read base 1 s1 in
      let (id, s3) = ioapic_read base 0 s2 in
      let (table, s4) = read_entries base count redir_base s3 in
      (
        record {
          base_address = base;
          total_size = 16 + 8 * count;
          ioapic_id = id / 2 ^ 24 % 2 ^ 4;
          ioapic_version = version % 2 ^ 8;
          redirection_count = count;
          redirection_table = table;
        },
        s4,
      )

  -- the sum of `enable_io_apics`, from controller `i` on; no sum of its uint64_t passes 2 ^ 64
  unfoldable pub total_entries : (items : ℕ → IoapicConf) → (i n : ℕ) → S → ℕ × S
  total_entries items i zero s = (0, s)
  total_entries items i (suc n) s =
      let (ver, s1) = ioapic_read (mmio_phys_to_virt (items i).addr) 1 s in
      let (rest, s2) = total_entries items (i + 1) n s1 in ((last_entry ver + 1) * 8 + rest, s2)

  -- its second loop: each info with the address where it goes
  unfoldable pub enable_from :
      (items : ℕ → IoapicConf) → (i n info : ℕ) → S → List (ℕ × IoapicInfo) × S
  enable_from items i zero info s = ([], s)
  enable_from items i (suc n) info s =
      let (filled, s1) = enable_io_apic (mmio_phys_to_virt (items i).addr) s in
      let (rest, s2) = enable_from items (i + 1) n (info + filled.total_size) s1 in
      ((info, filled) ∷ rest, s2)

  -- the request to `imalloc`, which gives an address, and what is written behind the count's 8
  -- bytes; the count itself is never written
  unfoldable pub enable_io_apics :
      (imalloc : ℕ → ℕ) → Table IoapicConf → S → (ℕ × List (ℕ × IoapicInfo)) × S
  enable_io_apics imalloc ioapics s =
      let (entries, s1) = total_entries ioapics.items 0 ioapics.count s in
      let request = 8 + (16 * ioapics.count + entries) in
      let (infos, s2) = enable_from ioapics.items 0 ioapics.count (imalloc request + 8) s1 in
      ((request, infos), s2)
