-- ===== src/Descriptors.antt =====
-- The descriptor tables: src/kernel/GDT/gdt.c, src/kernel/GDT/TSS.c with TSS.h, and src/kernel/interrupts/IDT.c. The addresses
-- of the tables and of the interrupt stubs come from the linker and are arguments. Loading the tables is assembly and left out.
mod Decode
mod Stacks
mod Tests
use icarus.Prelude.{ℕ, zero, suc, ◌+◌, ◌-◌, ◌*◌, ◌/◌, ◌%◌, ◌^◌, ◌==◌, if◌then◌else◌, List, [], ◌∷◌}
use icarus.Prelude.Words.{add64}
use icarus.MemMap.Defs.{MemMap}
use icarus.MemMap.Alloc.{frame_alloc_failed, ialloc_kframe}

pub record GdtEntry : Type 0 where
  pub limit_low : ℕ
  pub base_low : ℕ
  pub base_mid : ℕ
  pub access : ℕ
  pub granularity : ℕ
  pub base_high : ℕ

-- the table; its last place holds the upper half of the descriptor before it
pub record Gdt : Type 0 where
  pub entries : ℕ → GdtEntry
  pub base_upper32 : ℕ
  pub reserved : ℕ

-- `flags & 0xF0` and the upper four bits of the limit have no bit in common
unfoldable pub gdt_set_entry : Gdt → (i base limit access flags : ℕ) → Gdt
gdt_set_entry gdt i base limit access flags =
    let e : GdtEntry = record {
      limit_low = limit % 2 ^ 16;
      base_low = base % 2 ^ 16;
      base_mid = base / 2 ^ 16 % 2 ^ 8;
      access = access;
      granularity = flags / 16 % 16 * 16 + limit / 2 ^ 16 % 16;
      base_high = base / 2 ^ 24 % 2 ^ 8;
    } in
    record gdt { entries = λ k. if k == i then e else gdt.entries k }

-- `gdt_init` for a task state segment of 104 bytes at `tss_base`
unfoldable pub gdt_init : Gdt → (tss_base : ℕ) → Gdt
unfolding gdt_set_entry
gdt_init gdt tss_base =
    let null = gdt_set_entry gdt 0 0 0 0 0 in
    let kernel_code = gdt_set_entry null 1 0 0xFFFFFFFF 0x9A 0xA0 in
    let kernel_data = gdt_set_entry kernel_code 2 0 0xFFFFFFFF 0x92 0xC0 in
    let user_data = gdt_set_entry kernel_data 3 0 0xFFFFFFFF 0xF2 0xC0 in
    let user_code = gdt_set_entry user_data 4 0 0xFFFFFFFF 0xFA 0xA0 in
    let tss = gdt_set_entry user_code 5 (tss_base % 2 ^ 32) (104 - 1) 0x89 0x00 in
    record tss { base_upper32 = tss_base / 2 ^ 32; reserved = 0 }

abbrev pub kernel_vma : ℕ
kernel_vma = 0xFFFFFFFF80000000

abbrev pub tss_stack_pages : ℕ
tss_stack_pages = 4

unfoldable pub tss_alloc_stack : MemMap → ℕ × MemMap
unfolding ialloc_kframe
tss_alloc_stack m =
    let (phys, m') = ialloc_kframe m tss_stack_pages 4096 in
    let top = add64 (add64 phys kernel_vma) (tss_stack_pages * 4096) in
    if phys == frame_alloc_failed then (frame_alloc_failed, m') else (top / 16 * 16, m')

-- the fields that are not reserved; `ists` are ist1 to ist7
pub record Tss : Type 0 where
  pub rsp0 : ℕ
  pub rsp1 : ℕ
  pub rsp2 : ℕ
  pub ists : List ℕ
  pub iomap_base : ℕ

-- `n` calls of `tss_alloc_stack` in a row
unfoldable pub alloc_stacks : (n : ℕ) → MemMap → List ℕ × MemMap
unfolding tss_alloc_stack
alloc_stacks zero m = ([], m)
alloc_stacks (suc n) m =
    let (top, m') = tss_alloc_stack m in let (tops, m'') = alloc_stacks n m' in (top ∷ tops, m'')

-- `sizeof(tss)` is the size of a pointer.
unfoldable pub init_tss : MemMap → Tss × MemMap
unfolding alloc_stacks
init_tss m =
    let (rsp0, m') = tss_alloc_stack m in
    let (ists, m'') = alloc_stacks 7 m' in
    (record { rsp0 = rsp0; rsp1 = 0; rsp2 = 0; ists = ists; iomap_base = 8 }, m'')

pub record IdtEntry : Type 0 where
  pub isr_low : ℕ
  pub kernel_cs : ℕ
  pub ist : ℕ
  pub attributes : ℕ
  pub isr_mid : ℕ
  pub isr_high : ℕ
  pub reserved : ℕ

abbrev pub gdt_offset_kernel_code : ℕ
gdt_offset_kernel_code = 0x8

abbrev pub Idt : Type 0
Idt = ℕ → IdtEntry

unfoldable pub idt_set_descriptor : Idt → (vector isr flags ist : ℕ) → Idt
idt_set_descriptor idt vector isr flags ist =
    let descriptor : IdtEntry = record {
      isr_low = isr % 2 ^ 16;
      kernel_cs = gdt_offset_kernel_code;
      ist = ist;
      attributes = flags;
      isr_mid = isr / 2 ^ 16 % 2 ^ 16;
      isr_high = isr / 2 ^ 32 % 2 ^ 32;
      reserved = 0;
    } in
    λ v. if v == vector then descriptor else idt v

-- the loop of `idt_init`, with `n` rounds left
unfoldable pub set_all : (isr_table : ℕ → ℕ) → (n v : ℕ) → Idt → Idt
unfolding idt_set_descriptor
set_all isr_table zero v idt = idt
set_all isr_table (suc n) v idt =
    set_all isr_table n (v + 1) (idt_set_descriptor idt v (isr_table v) 0x8E 0)

unfoldable pub idt_init : (isr_table : ℕ → ℕ) → Idt → Idt
idt_init isr_table idt =
    let filled = set_all isr_table 256 0 idt in
    λ v. if v == 8 then record (filled 8) { ist = 1 } else filled v
