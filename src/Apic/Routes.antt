-- ===== src/Apic/Routes.antt =====
-- What `ioapic_route` and `ioapic_set` of src/kernel/interrupts/APIC/APIC.c leave in the I/O
-- interrupt controller.
use icarus.Prelude.{
  ℕ, ◌+◌, ◌*◌, ◌/◌, ◌%◌, ◌^◌, ◌≤◌, ◌<◌, ◌≡◌, ◌≢◌, sym, arith, Bool, true, false, if◌then◌else◌,
  ◌==◌,
}
use mathlib.Core.Path.{subst}
use icarus.Apic.{
  Machine, RedirectionEntry, vector, delv_mode, dest_mode, pin_polarity, trigger_mode, mask,
  destination, last_entry, to_bit, route_low, redir_base, ioapic_read, ioapic_write, ioapic_route,
  ioapic_set,
}

-- the bits of an entry's lower word that only the controller writes: the delivery status and the
-- remote IRR
abbrev pub status : ℕ → ℕ
status w = w / 2 ^ 12 % 2 * 2 ^ 12 + w / 2 ^ 14 % 2 * 2 ^ 14

-- a lower word with nothing in those bits and in the reserved ones, and an upper word with
-- nothing but the destination
abbrev pub IsLowWord : ℕ → Type 0
IsLowWord v = (v < 2 ^ 17) × (v / 2 ^ 12 % 2 ≡ 0) × (v / 2 ^ 14 % 2 ≡ 0)

abbrev pub IsHighWord : ℕ → Type 0
IsHighWord v = (v < 2 ^ 32) × (v % 2 ^ 24 ≡ 0)

-- The controller at `base`, as documented: a write to `base` selects a register, which the window
-- at `base + 0x10` reads. Through the window the two words of the entries that the version
-- register counts can be written, apart from the bits above, which the lower word keeps. The
-- registers lie below 2 ^ 8. No interrupt comes in while the code is at it, so that the
-- controller changes no status by itself.
pub record IsIoapic {S : Type 0} (m : Machine S) (base : ℕ) : Type 0 where
  pub value : ℕ → S → ℕ
  pub read_window :
      (reg : ℕ) (s : S)
      → reg < 2 ^ 8
      → (m.read32 (base + 0x10) (m.write32 base reg s)).0 ≡ value reg s
  pub read_keeps :
      (reg k : ℕ) (s : S)
      → reg < 2 ^ 8
      → value k (m.read32 (base + 0x10) (m.write32 base reg s)).1 ≡ value k s
  pub write_low :
      (pin v k : ℕ) (s : S)
      → pin ≤ last_entry (value 1 s)
      → pin < 120
      → IsLowWord v
      → value k (m.write32 (base + 0x10) v (m.write32 base (redir_base + 2 * pin) s))
        ≡ (if k == redir_base + 2 * pin then v + status (value k s) else value k s)
  pub write_high :
      (pin v k : ℕ) (s : S)
      → pin ≤ last_entry (value 1 s)
      → pin < 120
      → IsHighWord v
      → value k (m.write32 (base + 0x10) v (m.write32 base (redir_base + 1 + 2 * pin) s))
        ≡ (if k == redir_base + 1 + 2 * pin then v else value k s)

module _ {S : Type 0} (m : Machine S) (base : ℕ) (io : IsIoapic m base) where
  pub ioapic_read-value :
      (reg : ℕ) (s : S) → reg < 2 ^ 8 → (ioapic_read m base reg s).0 ≡ io.value reg s
  unfolding ioapic_read
  ioapic_read-value reg s lt =
      let e : reg % 2 ^ 8 ≡ reg = omega (arith, lt) in rw (ioapic_read, e) (io.read_window reg s lt)

  pub ioapic_read-keeps :
      (reg k : ℕ) (s : S) → reg < 2 ^ 8 → io.value k (ioapic_read m base reg s).1 ≡ io.value k s
  unfolding ioapic_read
  ioapic_read-keeps reg k s lt =
      let e : reg % 2 ^ 8 ≡ reg = omega (arith, lt) in
      rw (ioapic_read, e) (io.read_keeps reg k s lt)

  ioapic_write-low :
      (pin v k : ℕ) (s : S)
      → pin ≤ last_entry (io.value 1 s)
      → pin < 120
      → IsLowWord v
      → io.value k (ioapic_write m base (redir_base + 2 * pin) v s)
        ≡ (if k == redir_base + 2 * pin then v + status (io.value k s) else io.value k s)
  unfolding ioapic_write
  ioapic_write-low pin v k s le lt word =
      let e : (redir_base + 2 * pin) % 2 ^ 8 ≡ redir_base + 2 * pin = omega (arith, lt) in
      rw (ioapic_write, e) (io.write_low pin v k s le lt word)

  ioapic_write-high :
      (pin v k : ℕ) (s : S)
      → pin ≤ last_entry (io.value 1 s)
      → pin < 120
      → IsHighWord v
      → io.value k (ioapic_write m base (redir_base + 1 + 2 * pin) v s)
        ≡ (if k == redir_base + 1 + 2 * pin then v else io.value k s)
  unfolding ioapic_write
  ioapic_write-high pin v k s le lt word =
      let e : (redir_base + 1 + 2 * pin) % 2 ^ 8 ≡ redir_base + 1 + 2 * pin = omega (arith, lt) in
      rw (ioapic_write, e) (io.write_high pin v k s le lt word)

  -- the entry of a pin, read back
  abbrev pub entry_of : ℕ → S → RedirectionEntry
  entry_of pin s = record {
    low_w = (ioapic_read m base (redir_base + 2 * pin) s).0;
    high_w = (ioapic_read m base (redir_base + 1 + 2 * pin) s).0;
  }

  -- the entry of the pin apart from its status, and every other register as it was
  pub record HoldsEntry (pin : ℕ) (redir : RedirectionEntry) (s s' : S) : Type 0 where
    pub entry :
        entry_of pin s'
        ≡ record redir { low_w = redir.low_w + status (io.value (redir_base + 2 * pin) s) }
    pub others :
        (k : ℕ)
        → k ≢ redir_base + 2 * pin
        → k ≢ redir_base + 1 + 2 * pin
        → io.value k s' ≡ io.value k s

  set_value :
      (pin : ℕ) (redir : RedirectionEntry) (s : S)
      → pin ≤ last_entry (io.value 1 s)
      → pin < 120
      → IsLowWord redir.low_w
      → IsHighWord redir.high_w
      → (k : ℕ)
      → io.value k (ioapic_set m base pin redir s) ≡ (
          if k == redir_base + 2 * pin
          then redir.low_w + status (io.value k s)
          else if k == redir_base + 1 + 2 * pin
          then redir.high_w
          else io.value k s)
  unfolding ioapic_set
  set_value pin redir s le lt low high k =
      let s1 = ioapic_write m base (redir_base + 1 + 2 * pin) redir.high_w s in
      let version : io.value 1 s1 ≡ io.value 1 s =
        ground (arith, ioapic_write-high pin redir.high_w 1 s le lt high) in
      let le1 : pin ≤ last_entry (io.value 1 s1) = rw version le in
      ground (
        arith,
        ioapic_write-low pin redir.low_w k s1 le1 lt low,
        ioapic_write-high pin redir.high_w k s le lt high,
      )

  -- For a controller that works as documented and each of the pins that it has, up to 120: behind
  -- ioapic_set, reading the pin's entry gives the one that was passed, whose read-only and
  -- reserved bits are clear, with the status that the entry had, and every other register is as
  -- it was.
  pub ioapic_set-HoldsEntry :
      (pin : ℕ) (redir : RedirectionEntry) (s : S)
      → pin ≤ last_entry (io.value 1 s)
      → pin < 120
      → IsLowWord redir.low_w
      → IsHighWord redir.high_w
      → HoldsEntry pin redir s (ioapic_set m base pin redir s)
  ioapic_set-HoldsEntry pin redir s le lt low high =
      let s' = ioapic_set m base pin redir s in
      let at = set_value pin redir s le lt low high in
      record {
        entry = ground (
          arith,
          ioapic_read-value (redir_base + 2 * pin) s',
          ioapic_read-value (redir_base + 1 + 2 * pin) s',
          at (redir_base + 2 * pin),
          at (redir_base + 1 + 2 * pin),
        );
        others = λ k ne_low ne_high. ground (arith, at k);
      }

  -- what a route makes of the entry, by its fields
  pub record IsRouted (vec apic_id : ℕ) (active_low level : Bool) (e : RedirectionEntry)
      : Type 0 where
    pub to_vector : vector e ≡ vec
    pub fixed : delv_mode e ≡ 0
    pub physical : dest_mode e ≡ 0
    pub polarity : pin_polarity e ≡ to_bit active_low
    pub trigger : trigger_mode e ≡ to_bit level
    pub unmasked : mask e ≡ 0
    pub to_core : destination e ≡ apic_id

  abbrev pub route_entry : (vec apic_id : ℕ) (active_low level : Bool) → RedirectionEntry
  route_entry vec apic_id active_low level = record {
    low_w = route_low vec active_low level;
    high_w = apic_id * 2 ^ 24;
  }

  -- whatever the status
  route_entry-IsRouted :
      (vec apic_id delivery irr : ℕ) (active_low level : Bool)
      → vec < 2 ^ 8
      → apic_id < 2 ^ 8
      → delivery < 2
      → irr < 2
      → IsRouted vec apic_id active_low level (record {
        low_w = route_low vec active_low level + (delivery * 2 ^ 12 + irr * 2 ^ 14);
        high_w = apic_id * 2 ^ 24;
      })
  route_entry-IsRouted vec apic_id delivery irr true true v c d i = ground arith
  route_entry-IsRouted vec apic_id delivery irr true false v c d i = ground arith
  route_entry-IsRouted vec apic_id delivery irr false true v c d i = ground arith
  route_entry-IsRouted vec apic_id delivery irr false false v c d i = ground arith

  route_low-IsLowWord :
      (vec : ℕ) (active_low level : Bool) → vec < 2 ^ 8 → IsLowWord (route_low vec active_low level)
  route_low-IsLowWord vec true true v = ground arith
  route_low-IsLowWord vec true false v = ground arith
  route_low-IsLowWord vec false true v = ground arith
  route_low-IsLowWord vec false false v = ground arith

  pub record RoutedTo (pin vec apic_id : ℕ) (active_low level : Bool) (s s' : S) : Type 0 where
    pub routed : IsRouted vec apic_id active_low level (entry_of pin s')
    pub others :
        (k : ℕ)
        → k ≢ redir_base + 2 * pin
        → k ≢ redir_base + 1 + 2 * pin
        → io.value k s' ≡ io.value k s

  -- For a controller that works as documented, each of the pins that its version register counts,
  -- up to 120, a vector and a core of 8 bits: behind ioapic_route, reading the pin's entry gives
  -- one that sends the vector to that core in fixed and physical mode with the polarity and the
  -- trigger that were asked for, unmasked, and every other register is as it was.
  pub ioapic_route-RoutedTo :
      (pin vec apic_id : ℕ) (active_low level : Bool) (s : S)
      → pin ≤ last_entry (io.value 1 s)
      → pin < 120
      → vec < 2 ^ 8
      → apic_id < 2 ^ 8
      → RoutedTo pin vec apic_id active_low level s
          (ioapic_route m base pin vec apic_id active_low level s)
  unfolding ioapic_route ioapic_set
  ioapic_route-RoutedTo pin vec apic_id active_low level s le lt v c =
      let old = io.value (redir_base + 2 * pin) s in
      let set =
        ioapic_set-HoldsEntry pin (route_entry vec apic_id active_low level) s le lt
          (route_low-IsLowWord vec active_low level v) (omega (arith, c), omega arith) in
      record {
        routed = subst (IsRouted vec apic_id active_low level) (sym set.entry) (
            route_entry-IsRouted vec apic_id (old / 2 ^ 12 % 2) (old / 2 ^ 14 % 2) active_low level
              v c (omega arith) (omega arith));
        others = set.others;
      }
