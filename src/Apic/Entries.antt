-- ===== src/Apic/Entries.antt =====
-- What `enable_io_apics` of src/kernel/interrupts/APIC/APIC.c reads and stores.
use icarus.Prelude.{
  ℕ, zero, suc, ◌+◌, ◌*◌, ◌/◌, ◌%◌, ◌^◌, ◌≤◌, ◌<◌, ◌≡◌, refl, ◌∙◌, ap, arith, List, [], ◌∷◌, length,
}
use mathlib.Core.Path.{fun_ext}
use icarus.Apic.Routes.{IsIoapic, ioapic_read-value, ioapic_read-keeps}
use icarus.Madt.{IoapicConf, Table}
use icarus.Apic.{
  Machine, RedirectionEntry, IoapicInfo, last_entry, mmio_phys_to_virt, ioapic_read, read_entries,
  redir_base, enable_io_apic, total_entries, enable_from, enable_io_apics,
}

-- the sum of the first pass, by the version registers
unfoldable pub entries_sum : (version : ℕ → ℕ) → (i n : ℕ) → ℕ
entries_sum version i zero = 0
entries_sum version i (suc n) = (last_entry (version i) + 1) * 8 + entries_sum version (i + 1) n

-- the entries that the registers from `reg` on hold
abbrev pub entries_at : (value : ℕ → ℕ) → (n reg : ℕ) → List RedirectionEntry
entries_at value zero reg = []
entries_at value (suc n) reg =
    record { low_w = value reg; high_w = value (reg + 1) } ∷ entries_at value n (reg + 2)

module _ {S : Type 0} (m : Machine S) where
  -- the infos in their places, one behind the other, each with room for its table, from `lo` up
  -- to at most `hi`
  abbrev pub Placed : (lo hi : ℕ) → List (ℕ × IoapicInfo) → Type 0
  Placed lo hi [] = lo ≤ hi
  Placed lo hi ((at, info) ∷ rest) =
      (at ≡ lo)
      × (info.total_size ≡ 16 + 8 * length info.redirection_table)
      × Placed (lo + info.total_size) hi rest

  length-read_entries : (base n reg : ℕ) (s : S) → length (read_entries m base n reg s).0 ≡ n
  unfolding read_entries
  length-read_entries base zero reg s = refl
  length-read_entries base (suc n) reg s = ap suc (length-read_entries base n (reg + 2) _)

  -- where a controller of the list is
  abbrev pub base_of : Table IoapicConf → ℕ → ℕ
  base_of ioapics i = mmio_phys_to_virt (ioapics.items i).addr

  -- The controllers of the list, as documented: each has a version register, which no read of a
  -- register of any of them changes.
  pub record AreIoapics (ioapics : Table IoapicConf) : Type 0 where
    pub version : ℕ → S → ℕ
    pub read_version :
        (i : ℕ) (s : S)
        → i < ioapics.count
        → (ioapic_read m (base_of ioapics i) 1 s).0 ≡ version i s
    pub read_keeps :
        (i j reg : ℕ) (s : S)
        → i < ioapics.count
        → j < ioapics.count
        → version i (ioapic_read m (base_of ioapics j) reg s).1 ≡ version i s

  module _ (ioapics : Table IoapicConf) (are : AreIoapics ioapics) where
    -- the version registers in a state
    Shows : (version : ℕ → ℕ) → S → Type 0
    Shows version s = (i : ℕ) → i < ioapics.count → are.version i s ≡ version i

    ioapic_read-Shows :
        (version : ℕ → ℕ) (j reg : ℕ) (s : S)
        → j < ioapics.count
        → Shows version s
        → Shows version (ioapic_read m (base_of ioapics j) reg s).1
    unfolding Shows
    ioapic_read-Shows version j reg s lt h i small = are.read_keeps i j reg s small lt ∙ h i small

    read_entries-Shows :
        (version : ℕ → ℕ) (j n reg : ℕ) (s : S)
        → j < ioapics.count
        → Shows version s
        → Shows version (read_entries m (base_of ioapics j) n reg s).1
    unfolding read_entries
    read_entries-Shows version j zero reg s lt h = h
    read_entries-Shows version j (suc n) reg s lt h =
        read_entries-Shows version j n (reg + 2) _ lt
          (ioapic_read-Shows version j (reg + 1) _ lt (ioapic_read-Shows version j reg s lt h))

    enable_io_apic-Shows :
        (version : ℕ → ℕ) (j : ℕ) (s : S)
        → j < ioapics.count
        → Shows version s
        → Shows version (enable_io_apic m (base_of ioapics j) s).1
    unfolding enable_io_apic
    enable_io_apic-Shows version j s lt h = read_entries-Shows version j _ redir_base _ lt (
        ioapic_read-Shows version j 0 _ lt
          (ioapic_read-Shows version j 1 _ lt (ioapic_read-Shows version j 1 s lt h)))

    shown :
        (version : ℕ → ℕ) (j : ℕ) (s : S)
        → j < ioapics.count
        → Shows version s
        → (ioapic_read m (base_of ioapics j) 1 s).0 ≡ version j
    unfolding Shows
    shown version j s lt h = are.read_version j s lt ∙ h j lt

    -- the size of an info, by the bits that the first pass adds up
    enable_io_apic-size :
        (version : ℕ → ℕ) (j : ℕ) (s : S)
        → j < ioapics.count
        → Shows version s
        → let info = (enable_io_apic m (base_of ioapics j) s).0 in
          (info.total_size ≡ 16 + 8 * length info.redirection_table)
          × (info.total_size ≤ 16 + (last_entry (version j) + 1) * 8)
    unfolding enable_io_apic
    enable_io_apic-size version j s lt h =
        let base = base_of ioapics j in
        let ver = (ioapic_read m base 1 s).0 in
        let s3 = (ioapic_read m base 0 (ioapic_read m base 1 (ioapic_read m base 1 s).1).1).1 in
        (
          omega (arith, length-read_entries base ((last_entry ver + 1) % 2 ^ 8) redir_base s3),
          omega (arith, shown version j s lt h),
        )

    total_entries-sum :
        (version : ℕ → ℕ) (i n : ℕ) (s : S)
        → i + n ≤ ioapics.count
        → Shows version s
        → (total_entries m ioapics.items i n s).0 ≡ entries_sum version i n
    unfolding total_entries entries_sum
    total_entries-sum version i zero s le h = refl
    total_entries-sum version i (suc n) s le h =
        let lt : i < ioapics.count = omega (arith, le) in
        rw (shown version i s lt h) (
          ground (
            arith,
            total_entries-sum version (i + 1) n (ioapic_read m (base_of ioapics i) 1 s).1
                (omega (arith, le)) (ioapic_read-Shows version i 1 s lt h),
          ))

    total_entries-Shows :
        (version : ℕ → ℕ) (i n : ℕ) (s : S)
        → i + n ≤ ioapics.count
        → Shows version s
        → Shows version (total_entries m ioapics.items i n s).1
    unfolding total_entries
    total_entries-Shows version i zero s le h = h
    total_entries-Shows version i (suc n) s le h =
        total_entries-Shows version (i + 1) n _ (omega (arith, le))
          (ioapic_read-Shows version i 1 s (omega (arith, le)) h)

    enable_from-Placed :
        (version : ℕ → ℕ) (i n info hi : ℕ) (s : S)
        → i + n ≤ ioapics.count
        → Shows version s
        → info + (16 * n + entries_sum version i n) ≤ hi
        → Placed info hi (enable_from m ioapics.items i n info s).0
    unfolding enable_from entries_sum
    enable_from-Placed version i zero info hi s few h le = omega (arith, le)
    enable_from-Placed version i (suc n) info hi s few h le =
        let lt : i < ioapics.count = omega (arith, few) in
        let base = base_of ioapics i in
        let size = enable_io_apic-size version i s lt h in
        (
          refl,
          size.0,
          enable_from-Placed version (i + 1) n (info + (enable_io_apic m base s).0.total_size) hi
              (enable_io_apic m base s).1 (omega (arith, few))
              (enable_io_apic-Shows version i s lt h) (omega (arith, le, size.1)),
        )

    -- Where the controllers of the list keep their version registers when registers are read: the
    -- infos that enable_io_apics stores, each as large as its table needs, lie one behind the
    -- other from behind the count on, and the last one ends inside the block that was asked for,
    -- for any number of controllers and whatever the allocator gives.
    pub enable_io_apics-Placed :
        (imalloc : ℕ → ℕ) (s : S)
        → let out = (enable_io_apics m imalloc ioapics s).0 in
          Placed (imalloc out.0 + 8) (imalloc out.0 + out.0) out.1
    unfolding enable_io_apics Shows
    enable_io_apics-Placed imalloc s =
        let version : ℕ → ℕ = λ i. are.version i s in
        let h : Shows version s = λ i lt. refl in
        enable_from-Placed version 0 ioapics.count _ _ _ (omega arith)
          (total_entries-Shows version 0 ioapics.count s (omega arith) h)
          (omega (arith, total_entries-sum version 0 ioapics.count s (omega arith) h))

  module _ (base : ℕ) (io : IsIoapic m base) where
    -- the registers as they are in a state
    abbrev pub registers : S → ℕ → ℕ
    registers s = λ k. io.value k s

    read_keeps_all :
        (reg : ℕ) (s : S) → reg < 2 ^ 8 → registers (ioapic_read m base reg s).1 ≡ registers s
    read_keeps_all reg s lt = fun_ext λ k. ioapic_read-keeps m base io reg k s lt

    read_entries-at :
        (n reg : ℕ) (s : S)
        → reg + 2 * n ≤ 2 ^ 8
        → (read_entries m base n reg s).0 ≡ entries_at (registers s) n reg
    unfolding read_entries
    read_entries-at zero reg s le = refl
    read_entries-at (suc n) reg s le =
        let s1 = (ioapic_read m base reg s).1 in
        let s2 = (ioapic_read m base (reg + 1) s1).1 in
        let kept1 = read_keeps_all reg s (omega (arith, le)) in
        let kept2 = read_keeps_all (reg + 1) s1 (omega (arith, le)) in
        let low = ioapic_read-value m base io reg s (omega (arith, le)) in
        let high =
          ioapic_read-value m base io (reg + 1) s1 (omega (arith, le))
          ∙ ioapic_read-keeps m base io reg (reg + 1) s (omega (arith, le)) in
        let rest =
          read_entries-at n (reg + 2) s2 (omega (arith, le))
          ∙ ap (λ (v : ℕ → ℕ). entries_at v n (reg + 2)) (kept2 ∙ kept1) in
        rw (low, high, rest) refl

    read_entries-keeps :
        (n reg : ℕ) (s : S)
        → reg + 2 * n ≤ 2 ^ 8
        → registers (read_entries m base n reg s).1 ≡ registers s
    unfolding read_entries
    read_entries-keeps zero reg s le = refl
    read_entries-keeps (suc n) reg s le =
        let s1 = (ioapic_read m base reg s).1 in
        let s2 = (ioapic_read m base (reg + 1) s1).1 in
        read_entries-keeps n (reg + 2) s2 (omega (arith, le))
        ∙ read_keeps_all (reg + 1) s1 (omega (arith, le))
        ∙ read_keeps_all reg s (omega (arith, le))

    -- the bits of the documented registers
    pub record Reads (s : S) (info : IoapicInfo) : Type 0 where
      pub address : info.base_address ≡ base
      pub id : info.ioapic_id ≡ io.value 0 s / 2 ^ 24 % 2 ^ 4
      pub version : info.ioapic_version ≡ io.value 1 s % 2 ^ 8
      pub count : info.redirection_count ≡ last_entry (io.value 1 s) + 1
      pub table :
          info.redirection_table
          ≡ entries_at (registers s) (last_entry (io.value 1 s) + 1) redir_base

    -- For a controller that works as documented and has at most 120 entries: enable_io_apic stores
    -- its address, the number, the version and the count of entries from its registers, and the
    -- table of all its entries, each with its two words in their places; it changes no register.
    pub enable_io_apic-Reads :
        (s : S)
        → last_entry (io.value 1 s) < 120
        → Reads s (enable_io_apic m base s).0
          × ((k : ℕ) → io.value k (enable_io_apic m base s).1 ≡ io.value k s)
    unfolding enable_io_apic
    enable_io_apic-Reads s few =
        let s1 = (ioapic_read m base 1 s).1 in
        let s2 = (ioapic_read m base 1 s1).1 in
        let s3 = (ioapic_read m base 0 s2).1 in
        let kept1 = read_keeps_all 1 s (omega arith) in
        let kept2 = read_keeps_all 1 s1 (omega arith) ∙ kept1 in
        let kept3 = read_keeps_all 0 s2 (omega arith) ∙ kept2 in
        let n = last_entry (io.value 1 s) + 1 in
        let ver = ioapic_read-value m base io 1 s (omega arith) in
        let count : (last_entry (ioapic_read m base 1 s).0 + 1) % 2 ^ 8 ≡ n =
          rw ver (omega (arith, few)) in
        let room : redir_base + 2 * n ≤ 2 ^ 8 = omega (arith, few) in
        let ver' = ioapic_read-value m base io 1 s1 (omega arith) ∙ ap (λ (v : ℕ → ℕ). v 1) kept1 in
        let id = ioapic_read-value m base io 0 s2 (omega arith) ∙ ap (λ (v : ℕ → ℕ). v 0) kept2 in
        let table =
          read_entries-at n redir_base s3 room
          ∙ ap (λ (v : ℕ → ℕ). entries_at v n redir_base) kept3 in
        let kept = read_entries-keeps n redir_base s3 room ∙ kept3 in
        rw count (
          record {
            address = refl;
            id = ap (λ (i : ℕ). i / 2 ^ 24 % 2 ^ 4) id;
            version = ap (λ (v : ℕ). v % 2 ^ 8) ver';
            count = refl;
            table = table;
          },
          λ k. ap (λ (v : ℕ → ℕ). v k) kept,
        )
