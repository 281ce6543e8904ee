-- ===== src/Apic/Tests.antt =====
-- The theorems on src/kernel/interrupts/APIC/APIC.c, at small machines.
use icarus.Prelude.{
  ℕ, zero, suc, ◌+◌, ◌*◌, ◌/◌, ◌%◌, ◌^◌, ◌≤◌, ◌<◌, ◌≡◌, refl, arith, true, false, ltb, leb, ◌&&◌,
  ◌==◌, if◌then◌else◌,
}
use icarus.Madt.{IoapicConf, Table}
use icarus.Apic.{
  Machine, last_entry, redir_base, ioapic_read, ioapic_route, enable_io_apic, enable_io_apics,
}
use icarus.Apic.Routes.{status, IsLowWord, IsHighWord, IsIoapic, RoutedTo, ioapic_route-RoutedTo}
use icarus.Apic.Entries.{
  Placed, base_of, AreIoapics, enable_io_apics-Placed, Reads, enable_io_apic-Reads,
}
use icarus.Apic.Ticks.{after_reads, IsPmTimer, Calibrated, calibrate-Calibrated}

-- an I/O interrupt controller at 0
record Chip : Type 0 where
  selected : ℕ
  regs : ℕ → ℕ

-- the bits of a lower word that can be written
abbrev writable : ℕ → ℕ
writable v = v % 2 ^ 12 + v / 2 ^ 13 % 2 * 2 ^ 13 + v / 2 ^ 15 % 4 * 2 ^ 15

-- the registers of its 24 entries can be written, the reserved bits cannot
abbrev chip_window : (value : ℕ) → Chip → ℕ → ℕ
chip_window value c k =
    if (k == c.selected) && (leb 16 k && ltb k 64)
    then if k % 2 == 0 then writable value + status (c.regs k) else value / 2 ^ 24 % 2 ^ 8 * 2 ^ 24
    else if k == 1
    then 0x170011
    else c.regs k

abbrev chip_write : (addr value : ℕ) → Chip → Chip
chip_write addr value c =
    if addr == 0 then record c { selected = value } else record c { regs = chip_window value c }

-- the version register is fixed: 24 entries
abbrev chip_value : ℕ → Chip → ℕ
chip_value k c = if k == 1 then 0x170011 else c.regs k

abbrev chip_machine : Machine Chip
chip_machine = record {
  read32 = λ addr c. (chip_value c.selected c, c);
  write32 = chip_write;
  inportl = λ port c. (0, c);
  outportb = λ port value c. c;
}

writable_low : (v : ℕ) → IsLowWord v → writable v ≡ v
writable_low v h = omega (arith, h.0, h.1, h.2)

chip_writes_low :
    (pin v k : ℕ) (c : Chip)
    → pin ≤ last_entry (chip_value 1 c)
    → IsLowWord v
    → chip_value k (chip_write 16 v (chip_write 0 (redir_base + 2 * pin) c))
      ≡ (if k == redir_base + 2 * pin then v + status (chip_value k c) else chip_value k c)
chip_writes_low pin v k c le h = ground (arith, le, writable_low v h)

chip_writes_high :
    (pin v k : ℕ) (c : Chip)
    → pin ≤ last_entry (chip_value 1 c)
    → IsHighWord v
    → chip_value k (chip_write 16 v (chip_write 0 (redir_base + 1 + 2 * pin) c))
      ≡ (if k == redir_base + 1 + 2 * pin then v else chip_value k c)
chip_writes_high pin v k c le h = ground (arith, le, h.0, h.1)

abbrev chip_ioapic : IsIoapic chip_machine 0
chip_ioapic = record {
  value = chip_value;
  read_window = λ reg c lt. refl;
  read_keeps = λ reg k c lt. refl;
  write_low = λ pin v k c le lt word. chip_writes_low pin v k c le word;
  write_high = λ pin v k c le lt word. chip_writes_high pin v k c le word;
}

-- 24 entries, all masked
abbrev reset_chip : Chip
reset_chip = record { selected = 0; regs = λ k. 0x10000 }

ioapic_route-RoutedTo_example :
    RoutedTo chip_machine 0 chip_ioapic 1 33 0 false true reset_chip
      (ioapic_route chip_machine 0 1 33 0 false true reset_chip)
ioapic_route-RoutedTo_example =
    ioapic_route-RoutedTo chip_machine 0 chip_ioapic 1 33 0 false true reset_chip (omega arith)
      (omega arith) (omega arith) (omega arith)

enable_io_apic-Reads_example :
    Reads chip_machine 0 chip_ioapic reset_chip (enable_io_apic chip_machine 0 reset_chip).0
    × ((k : ℕ)
        → chip_value k (enable_io_apic chip_machine 0 reset_chip).1 ≡ chip_value k reset_chip)
enable_io_apic-Reads_example =
    enable_io_apic-Reads chip_machine 0 chip_ioapic reset_chip (omega arith)

abbrev two_controllers : Table IoapicConf
two_controllers = record {
  count = 2;
  items = λ i. record { id = i; addr = 0xFEC00000 + i * 0x1000; gsi_base = i * 24 };
}

-- two controllers of 24 and of 8 entries, beside memory
record Board : Type 0 where
  first : ℕ
  second : ℕ
  memory : ℕ → ℕ

abbrev first_base : ℕ
first_base = 0xFFFFFE00FEC00000

abbrev second_base : ℕ
second_base = 0xFFFFFE00FEC01000

abbrev board_read : ℕ → Board → ℕ
board_read addr b =
    if addr == first_base + 16
    then if b.first == 1 then 0x170011 else 0x10000
    else if addr == second_base + 16
    then if b.second == 1 then 0x70011 else 0x10000
    else b.memory addr

abbrev board_write : (addr value : ℕ) → Board → Board
board_write addr value b =
    if addr == first_base
    then record b { first = value }
    else if addr == second_base
    then record b { second = value }
    else record b { memory = λ a. if a == addr then value else b.memory a }

abbrev board_machine : Machine Board
board_machine = record {
  read32 = λ addr b. (board_read addr b, b);
  write32 = board_write;
  inportl = λ port b. (0, b);
  outportb = λ port value b. b;
}

abbrev board_version : ℕ → ℕ
board_version zero = 0x170011
board_version (suc i) = 0x70011

board_shows :
    (i : ℕ) (b : Board)
    → i < 2
    → (ioapic_read board_machine (base_of board_machine two_controllers i) 1 b).0 ≡ board_version i
unfolding ioapic_read
board_shows zero b lt = refl
board_shows (suc zero) b lt = refl
board_shows (suc (suc i)) b lt = absurd (omega (arith, lt))

abbrev board_ioapics : AreIoapics board_machine two_controllers
board_ioapics = record {
  version = λ i b. board_version i;
  read_version = board_shows;
  read_keeps = λ i j reg b lt lt'. refl;
}

abbrev quiet_board : Board
quiet_board = record { first = 0; second = 0; memory = λ a. a }

enable_io_apics-Placed_example :
    let out = (enable_io_apics board_machine (λ size. 0x1000) two_controllers quiet_board).0 in
    Placed board_machine (0x1000 + 8) (0x1000 + out.0) out.1
enable_io_apics-Placed_example =
    enable_io_apics-Placed board_machine two_controllers board_ioapics (λ size. 0x1000) quiet_board

-- a timer of 24 bits at a port, which moves at every other read, and a local timer that has run
-- down by 1,000,000
abbrev timer_machine : Machine ℕ
timer_machine = record {
  read32 = λ addr s. (0xFFF0BDBF, s);
  write32 = λ addr value s. s;
  inportl = λ port s. ((s + 1) / 2 % 2 ^ 24, s + 1);
  outportb = λ port value s. s;
}

two_reads : (s : ℕ) → s / 2 < after_reads timer_machine 0x608 false 2 s / 2
unfolding after_reads
two_reads s = omega arith

abbrev port_timer : IsPmTimer timer_machine 0x608 false false
port_timer = record {
  ticks = λ s. s / 2;
  shows = λ s. omega arith;
  steady = λ s. omega arith;
  pace = 2;
  runs = λ s. two_reads s;
  soon = λ s. omega arith;
  unmoved = λ a v s. refl;
}

calibrate-Calibrated_example :
    Calibrated timer_machine 0x608 false false port_timer 80000 0 33548432
calibrate-Calibrated_example =
    calibrate-Calibrated timer_machine 0x608 false false port_timer 80000 0 33548432 (omega arith)
