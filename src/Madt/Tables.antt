-- ===== src/Madt/Tables.antt =====
-- The arrays that src/kernel/Memory/DMA/ACPI/MADT.c fills from the tags of its table.
use icarus.Prelude.{
  ℕ, zero, suc, ◌+◌, ◌*◌, ◌^◌, ◌≤◌, ◌<◌, ◌≡◌, refl, sym, ap, ◌∙◌, ◌⊎◌, arith, Bool, true, false,
  ◌==◌, if◌then◌else◌, Option, none, some, some_inj, List, [], ◌∷◌, length, get_elem?, Bool-cases,
  inl, inr,
}
use mathlib.Core.Path.{subst, fun_ext}
use icarus.BitMap.{Bytes}
use icarus.MemMap.Alloc.{little_endian}
use icarus.Madt.{
  CpuInfo, IoapicConf, IsoInfo, NmiInfo, LapicNmiInfo, is_clear, Counts, count_tag, count_from,
  MadtInfo, fill_tag, fill_from, Table, push, cpu_at, ioapic_at, iso_at, nmi_at, lapic_nmi_at,
  total_size, Handled, handle_madt, no_counts, addrs,
}
use icarus.Madt.Tags.{Tags, count_tags, fill_tags, count_from-Tags, fill_from-Tags}

-- the items of the tags of a type
abbrev pub items_of : {A : Type 0} → Bytes → (type : ℕ) → (ℕ → A) → List ℕ → List A
items_of memory type read [] = []
items_of memory type read (p ∷ tags) =
    let more = items_of memory type read tags in if memory p == type then read p ∷ more else more

abbrev push_all : {A : Type 0} → Table A → List A → Table A
push_all t [] = t
push_all t (x ∷ xs) = push_all (push t x) xs

-- `t'` is `t` with the items behind those that it counts, and no others
pub record Holds {A : Type 0} (t : Table A) (xs : List A) (t' : Table A) : Type 0 where
  pub count : t'.count ≡ t.count + length xs
  pub stored : (k : ℕ) (x : A) → get_elem? xs k ≡ some x → t'.items (t.count + k) ≡ x
  pub others : (i : ℕ) → (i < t.count) ⊎ (t.count + length xs ≤ i) → t'.items i ≡ t.items i

push-at : {A : Type 0} (t : Table A) (x : A) → (push t x).items t.count ≡ x
push-at t x = let e : (t.count == t.count) ≡ true = ground arith in rw e refl

push-other :
    {A : Type 0} (t : Table A) (x : A) (i : ℕ)
    → (i == t.count) ≡ false
    → (push t x).items i ≡ t.items i
push-other t x i e = rw e refl

push_all-Holds :
    {A : Type 0} (t : Table A) (xs : List A)
    → t.count + length xs < 2 ^ 32
    → Holds t xs (push_all t xs)
push_all-Holds {A = A} t [] lt = record {
  count = omega arith;
  stored = λ k x e. absurd (none_is_some e);
  others = λ i h. refl;
}
  where
    none_is_some : {A : Type 0} {x : A} → none ≡ some x → ⊥
    none_is_some e = cc
push_all-Holds {A = A} t (x ∷ xs) lt =
    let h = push_all-Holds (push t x) xs (omega (arith, lt)) in
    record {
      count = omega (arith, h.count, lt);
      stored = stored h;
      others = λ i out.
          h.others i (elim out [
            | inl low ↦ inl (omega (arith, low, lt))
            | inr high ↦ inr (omega (arith, high, lt))
          ])
          ∙ push-other t x i (apart i out);
    }
  where
    apart : (i : ℕ) → (i < t.count) ⊎ (t.count + length (x ∷ xs) ≤ i) → (i == t.count) ≡ false
    apart i (inl low) = ground arith
    apart i (inr high) = ground arith

    stored :
        Holds (push t x) xs (push_all (push t x) xs)
        → (k : ℕ) (y : A) → get_elem? (x ∷ xs) k ≡ some y
        → (push_all (push t x) xs).items (t.count + k) ≡ y
    stored h zero y e =
        ap (push_all (push t x) xs).items (omega arith)
        ∙ h.others t.count (inl (omega (arith, lt)))
        ∙ push-at t x
        ∙ some_inj e
    stored h (suc k) y e = ap (push_all (push t x) xs).items (omega (arith, lt)) ∙ h.stored k y e

-- all five arrays after the second pass
record Filled (memory : Bytes) (tags : List ℕ) (info out : MadtInfo) : Type 0 where
  cpus : out.cpus ≡ push_all info.cpus (items_of memory 0 (cpu_at memory) tags)
  ioapics : out.ioapics ≡ push_all info.ioapics (items_of memory 1 (ioapic_at memory) tags)
  isos : out.isos ≡ push_all info.isos (items_of memory 2 (iso_at memory) tags)
  nmis : out.nmis ≡ push_all info.nmis (items_of memory 3 (nmi_at memory) tags)
  lapic_nmis :
      out.lapic_nmis ≡ push_all info.lapic_nmis (items_of memory 4 (lapic_nmi_at memory) tags)
  madt_flags : out.madt_flags ≡ info.madt_flags

-- one tag
record TagFilled (memory : Bytes) (p : ℕ) (info out : MadtInfo) : Type 0 where
  cpus : out.cpus ≡ (if memory p == 0 then push info.cpus (cpu_at memory p) else info.cpus)
  ioapics :
      out.ioapics ≡ (if memory p == 1 then push info.ioapics (ioapic_at memory p) else info.ioapics)
  isos : out.isos ≡ (if memory p == 2 then push info.isos (iso_at memory p) else info.isos)
  nmis : out.nmis ≡ (if memory p == 3 then push info.nmis (nmi_at memory p) else info.nmis)
  lapic_nmis :
      out.lapic_nmis
      ≡ (if memory p == 4 then push info.lapic_nmis (lapic_nmi_at memory p) else info.lapic_nmis)
  madt_flags : out.madt_flags ≡ info.madt_flags

fill_tag-TagFilled :
    (memory : Bytes) (p : ℕ) (info : MadtInfo) → TagFilled memory p info (fill_tag memory p info)
unfolding fill_tag
fill_tag-TagFilled memory p info = record {
  cpus = ground arith;
  ioapics = ground arith;
  isos = ground arith;
  nmis = ground arith;
  lapic_nmis = ground arith;
  madt_flags = ground arith;
}

push_all-if :
    {A : Type 0} (b : Bool) (t : Table A) (x : A) (more : List A)
    → push_all (if b then push t x else t) more ≡ push_all t (if b then x ∷ more else more)
push_all-if true t x more = refl
push_all-if false t x more = refl

fill_tags-Filled :
    (memory : Bytes) (tags : List ℕ) (info : MadtInfo)
    → Filled memory tags info (fill_tags memory tags info)
fill_tags-Filled memory [] info = record {
  cpus = refl;
  ioapics = refl;
  isos = refl;
  nmis = refl;
  lapic_nmis = refl;
  madt_flags = refl;
}
fill_tags-Filled memory (p ∷ tags) info =
    let f = fill_tags-Filled memory tags (fill_tag memory p info) in
    let g = fill_tag-TagFilled memory p info in
    record {
      cpus =
          f.cpus
          ∙ ap (λ t. push_all t (items_of memory 0 (cpu_at memory) tags)) g.cpus
          ∙ push_all-if (memory p == 0) info.cpus (cpu_at memory p) _;
      ioapics =
          f.ioapics
          ∙ ap (λ t. push_all t (items_of memory 1 (ioapic_at memory) tags)) g.ioapics
          ∙ push_all-if (memory p == 1) info.ioapics (ioapic_at memory p) _;
      isos =
          f.isos
          ∙ ap (λ t. push_all t (items_of memory 2 (iso_at memory) tags)) g.isos
          ∙ push_all-if (memory p == 2) info.isos (iso_at memory p) _;
      nmis =
          f.nmis
          ∙ ap (λ t. push_all t (items_of memory 3 (nmi_at memory) tags)) g.nmis
          ∙ push_all-if (memory p == 3) info.nmis (nmi_at memory p) _;
      lapic_nmis =
          f.lapic_nmis
          ∙ ap (λ t. push_all t (items_of memory 4 (lapic_nmi_at memory) tags)) g.lapic_nmis
          ∙ push_all-if (memory p == 4) info.lapic_nmis (lapic_nmi_at memory p) _;
      madt_flags = f.madt_flags ∙ g.madt_flags;
    }

-- the counts of the first pass
pub record Counted (memory : Bytes) (tags : List ℕ) (c out : Counts) : Type 0 where
  n_cpu : out.n_cpu ≡ c.n_cpu + length (items_of memory 0 (cpu_at memory) tags)
  n_io : out.n_io ≡ c.n_io + length (items_of memory 1 (ioapic_at memory) tags)
  n_iso : out.n_iso ≡ c.n_iso + length (items_of memory 2 (iso_at memory) tags)
  n_nmi : out.n_nmi ≡ c.n_nmi + length (items_of memory 3 (nmi_at memory) tags)
  n_lnmi : out.n_lnmi ≡ c.n_lnmi + length (items_of memory 4 (lapic_nmi_at memory) tags)

abbrev AllBelow : Counts → ℕ → Type 0
AllBelow c n =
    (c.n_cpu + n < 2 ^ 32)
    × (c.n_io + n < 2 ^ 32)
    × (c.n_iso + n < 2 ^ 32)
    × (c.n_nmi + n < 2 ^ 32)
    × (c.n_lnmi + n < 2 ^ 32)

count_tags-Counted :
    (memory : Bytes) (tags : List ℕ) (c : Counts)
    → AllBelow c (length tags)
    → Counted memory tags c (count_tags memory tags c)
count_tags-Counted memory [] c lt = record {
  n_cpu = omega arith;
  n_io = omega arith;
  n_iso = omega arith;
  n_nmi = omega arith;
  n_lnmi = omega arith;
}
count_tags-Counted memory (p ∷ tags) c lt =
    let below : AllBelow (count_tag (memory p) c) (length tags) = (
      ground (arith, lt.0),
      ground (arith, lt.1),
      ground (arith, lt.2),
      ground (arith, lt.3),
      ground (arith, lt.4),
    ) in
    let h = count_tags-Counted memory tags (count_tag (memory p) c) below in
    record {
      n_cpu = ground (arith, h.n_cpu, lt.0);
      n_io = ground (arith, h.n_io, lt.1);
      n_iso = ground (arith, h.n_iso, lt.2);
      n_nmi = ground (arith, h.n_nmi, lt.3);
      n_lnmi = ground (arith, h.n_lnmi, lt.4);
    }

length-items_of :
    {A : Type 0} (memory : Bytes) (type : ℕ) (read : ℕ → A) (tags : List ℕ)
    → length (items_of memory type read tags) ≤ length tags
length-items_of memory type read [] = omega arith
length-items_of memory type read (p ∷ tags) = elim (Bool-cases (memory p == type)) [
  | inl e ↦ rw e (omega (arith, length-items_of memory type read tags))
  | inr e ↦ rw e (omega (arith, length-items_of memory type read tags))
]

-- The tags as the packed structs of include/kernel/Memory/DMA/ACPI_helpers.h lay them out: words
-- with the lower byte first, each field at its offset from the type of the tag. The number of a processor is stored twice, since the
-- code takes it for its number in ACPI as well.
abbrev word16 : Bytes → ℕ → ℕ
word16 memory a = memory a + memory (a + 1) * 2 ^ 8

abbrev word32 : Bytes → ℕ → ℕ
word32 memory a = word16 memory a + word16 memory (a + 2) * 2 ^ 16

abbrev pub processor : Bytes → ℕ → CpuInfo
processor memory p = record {
  acpi_id = memory (p + 3);
  apic_id = memory (p + 3);
  flags = word32 memory (p + 4);
}

abbrev pub io_controller : Bytes → ℕ → IoapicConf
io_controller memory p = record {
  id = memory (p + 2);
  addr = word32 memory (p + 4);
  gsi_base = word32 memory (p + 8);
}

abbrev pub override : Bytes → ℕ → IsoInfo
override memory p = record {
  bus = memory (p + 2);
  source_irq = memory (p + 3);
  gsi = word32 memory (p + 4);
  flags = word16 memory (p + 8);
}

abbrev pub source_nmi : Bytes → ℕ → NmiInfo
source_nmi memory p = record { gsi = word32 memory (p + 6); flags = word16 memory (p + 4) }

abbrev pub local_nmi : Bytes → ℕ → LapicNmiInfo
local_nmi memory p = record {
  acpi_id = memory (p + 2);
  lint = memory (p + 5);
  flags = word16 memory (p + 3);
}

-- each array has the items of its tags and no others
pub record AllHold (memory : Bytes) (tags : List ℕ) (old out : MadtInfo) : Type 0 where
  cpus : Holds old.cpus (items_of memory 0 (processor memory) tags) out.cpus
  ioapics : Holds old.ioapics (items_of memory 1 (io_controller memory) tags) out.ioapics
  isos : Holds old.isos (items_of memory 2 (override memory) tags) out.isos
  nmis : Holds old.nmis (items_of memory 3 (source_nmi memory) tags) out.nmis
  lapic_nmis : Holds old.lapic_nmis (items_of memory 4 (local_nmi memory) tags) out.lapic_nmis

word16_lem : (memory : Bytes) (a : ℕ) → little_endian memory 2 a ≡ word16 memory a
unfolding little_endian
word16_lem memory a = omega arith

word32_lem : (memory : Bytes) (a : ℕ) → little_endian memory 4 a ≡ word32 memory a
unfolding little_endian
word32_lem memory a =
    let third : a + 1 + 1 ≡ a + 2 = omega arith in
    let fourth : a + 2 + 1 ≡ a + 3 = omega arith in rw (third, fourth) (omega arith)

-- what the code reads of each tag
cpu_same : (memory : Bytes) → cpu_at memory ≡ processor memory
cpu_same memory = fun_ext λ p. rw (word32_lem memory (p + 4)) refl

ioapic_same : (memory : Bytes) → ioapic_at memory ≡ io_controller memory
ioapic_same memory = fun_ext λ p. rw (word32_lem memory (p + 4), word32_lem memory (p + 8)) refl

iso_same : (memory : Bytes) → iso_at memory ≡ override memory
iso_same memory = fun_ext λ p. rw (word32_lem memory (p + 4), word16_lem memory (p + 8)) refl

nmi_same : (memory : Bytes) → nmi_at memory ≡ source_nmi memory
nmi_same memory = fun_ext λ p. rw (word32_lem memory (p + 6), word16_lem memory (p + 4)) refl

lapic_nmi_same : (memory : Bytes) → lapic_nmi_at memory ≡ local_nmi memory
lapic_nmi_same memory = fun_ext λ p. rw (word16_lem memory (p + 3)) refl

-- one array, from the equation for it
to_Holds :
    {A : Type 0} (memory : Bytes) (type : ℕ) (read layout : ℕ → A) (tags : List ℕ) (t t' : Table A)
    → t.count + length tags < 2 ^ 32
    → t' ≡ push_all t (items_of memory type read tags)
    → read ≡ layout
    → Holds t (items_of memory type layout tags) t'
to_Holds memory type read layout tags t t' lt e same =
    subst (λ f. Holds t (items_of memory type f tags) t') same
      (subst (Holds t (items_of memory type read tags)) (sym e) (
        push_all-Holds t (items_of memory type read tags)
          (omega (arith, lt, length-items_of memory type read tags))))

-- the struct as the second pass finds it
abbrev started : Bytes → (base : ℕ) → MadtInfo → MadtInfo
started memory base old = record old {
  lapic_addr = little_endian memory 4 (base + 0x24);
  madt_flags = little_endian memory 4 (base + 0x28);
}

handle-step :
    (fuel : ℕ) (imalloc : ℕ → Option MadtInfo) (memory : Bytes) (base length : ℕ) (c : Counts)
    (old info : MadtInfo)
    → count_from fuel memory (base + length) (base + 0x2C) no_counts ≡ some c
    → imalloc (total_size c) ≡ some old
    → is_clear old ≡ true
    → fill_from fuel memory (base + length) (base + 0x2C) (started memory base old) ≡ some info
    → handle_madt fuel imalloc memory base length
      ≡ some (
          some (record {
            info = info;
            mapped = info.lapic_addr ∷ addrs info.ioapics.items 0 info.ioapics.count;
          }))
unfolding handle_madt
handle-step fuel imalloc memory base len c old info e a clear f =
    rw (e, a, f, clear, handle_madt) refl

-- the counts of a cleared struct
record Cleared (old : MadtInfo) : Type 0 where
  cpus : old.cpus.count ≡ 0
  ioapics : old.ioapics.count ≡ 0
  isos : old.isos.count ≡ 0
  nmis : old.nmis.count ≡ 0
  lapic_nmis : old.lapic_nmis.count ≡ 0

is_clear-Cleared : (old : MadtInfo) → is_clear old ≡ true → Cleared old
is_clear-Cleared old e = record {
  cpus = ground (arith, e);
  ioapics = ground (arith, e);
  isos = ground (arith, e);
  nmis = ground (arith, e);
  lapic_nmis = ground (arith, e);
}

-- What `handle_MADT` reads, for a table with fewer than 2^32 tags and a fuel above their number. The memory for the struct is
-- asked for with the counts of the tags, and the first pass counts the tags of each type. If that memory is given and its counts happen to be zero,
-- each tag of a processor, a controller, an override or an interrupt that cannot be masked is stored in its array from the first place on, in the
-- order of the table, with its fields from their offsets; each array then has as many items as the first pass counted room for, and nothing
-- else in the arrays changes.
pub handle_madt-AllHold :
    (n : ℕ) (imalloc : ℕ → Option MadtInfo) (memory : Bytes) (base len : ℕ) (tags : List ℕ)
    (old : MadtInfo)
    → Tags memory (base + len) (base + 0x2C) tags
    → length tags < n
    → length tags < 2 ^ 32
    → imalloc (total_size (count_tags memory tags no_counts)) ≡ some old
    → is_clear old ≡ true
    → (out : Handled) × (handle_madt n imalloc memory base len ≡ some (some out))
      × Counted memory tags no_counts (count_tags memory tags no_counts)
      × AllHold memory tags old out.info
handle_madt-AllHold n imalloc memory base len tags old t lt few given clear =
    let s : MadtInfo = started memory base old in
    let info : MadtInfo = fill_tags memory tags s in
    let f = fill_tags-Filled memory tags s in
    let z = is_clear-Cleared old clear in
    (
      record {
        info = info;
        mapped = info.lapic_addr ∷ addrs info.ioapics.items 0 info.ioapics.count;
      },
      handle-step n imalloc memory base len (count_tags memory tags no_counts) old info
          (count_from-Tags tags n memory (base + len) (base + 0x2C) no_counts t lt) given clear
          (fill_from-Tags tags n memory (base + len) (base + 0x2C) s t lt),
      count_tags-Counted memory tags no_counts (
        omega (arith, few),
        omega (arith, few),
        omega (arith, few),
        omega (arith, few),
        omega (arith, few),
      ),
      record {
        cpus =
            to_Holds memory 0 (cpu_at memory) _ tags old.cpus info.cpus (omega (arith, few, z.cpus))
              f.cpus (cpu_same memory);
        ioapics =
            to_Holds memory 1 (ioapic_at memory) _ tags old.ioapics info.ioapics
              (omega (arith, few, z.ioapics)) f.ioapics (ioapic_same memory);
        isos =
            to_Holds memory 2 (iso_at memory) _ tags old.isos info.isos (omega (arith, few, z.isos))
              f.isos (iso_same memory);
        nmis =
            to_Holds memory 3 (nmi_at memory) _ tags old.nmis info.nmis (omega (arith, few, z.nmis))
              f.nmis (nmi_same memory);
        lapic_nmis =
            to_Holds memory 4 (lapic_nmi_at memory) _ tags old.lapic_nmis info.lapic_nmis
              (omega (arith, few, z.lapic_nmis)) f.lapic_nmis (lapic_nmi_same memory);
      },
    )
