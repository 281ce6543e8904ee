-- ===== src/Mapping.antt =====
-- Setting memory up at boot, src/kernel/Memory/memory_mapping.c, and the mapping of device
-- memory, src/kernel/Memory/DMA/MMIO.c. The table of the boot loader is read from flat memory.
-- Printing is left out.
mod Entry
mod Regions
mod Pages
mod Tests
use icarus.Prelude.{
  ℕ, zero, suc, ◌+◌, ◌*◌, ◌^◌, Bool, true, false, ltb, ◌==◌, if◌then◌else◌, Option, none, some,
  List, [], ◌∷◌,
}
use icarus.Prelude.Words.{add64, sub64}
use icarus.Prelude.Align.{align_up, align_down}
use icarus.BitMap.{Status, ok, failed, fault, Bytes}
use icarus.MemMap.Defs.{
  MemRegion, MemMap, default_page_size, region_end, memmap_register_region, zero_mem_map,
  set_mem_region,
}
use icarus.MemMap.Alloc.{frame_alloc_failed, little_endian}
use icarus.Paging.{Tables, Space, huge_ps, page_in}
use icarus.Apic.{mmio_phys_to_virt}

abbrev pub kernel_vma : ℕ
kernel_vma = 0xFFFFFFFF80000000

abbrev pub kernel_phys_to_virt : ℕ → ℕ
kernel_phys_to_virt p = add64 p kernel_vma

abbrev pub kernel_virt_to_phys : ℕ → ℕ
kernel_virt_to_phys p = sub64 p kernel_vma

-- `multiboot_mmap_entry`, of 24 bytes
pub record MmapEntry : Type 0 where
  pub addr : ℕ
  pub len : ℕ
  pub type : ℕ

unfoldable pub entry_of : Bytes → (p : ℕ) → MmapEntry
unfolding little_endian
entry_of memory p = record {
  addr = little_endian memory 8 p;
  len = little_endian memory 8 (p + 8);
  type = little_endian memory 4 (p + 16);
}

-- the largest end so far, though `memmap_register_region` adds to the same field
abbrev pub raise_size : (top : ℕ) → MemMap → MemMap
raise_size top mmap = if ltb mmap.mem_size top then record mmap { mem_size = top } else mmap

-- the body of the loop; `none` is a write behind the array of regions
unfoldable pub register_entry : MmapEntry → MemMap → Option MemMap
register_entry e mmap =
    let top = add64 e.addr e.len in
    let mmap' = raise_size top mmap in
    let start = align_up e.addr default_page_size in
    let end = align_down top default_page_size in
    if e.type == 1
    then if ltb start end then memmap_register_region mmap' start end else some mmap'
    else some mmap'

-- how the loop ends: behind the table, with a write behind the array, or not within the rounds
pub data Registered : Type 0 where
  done : MemMap → Registered
  past_array out_of_rounds : Registered

-- the loop, over the entries from `p` up to `end`
unfoldable pub register_entries :
    (rounds : ℕ) → Bytes → (entry_size end p : ℕ) → MemMap → Registered
register_entries zero memory entry_size end p mmap = out_of_rounds
register_entries (suc rounds) memory entry_size end p mmap =
    let next = λ (m : MemMap). register_entries rounds memory entry_size end (p + entry_size) m in
    if ltb p end
    then elim (register_entry (entry_of memory p) mmap) [ none ↦ past_array | some m ↦ next m ]
    else done mmap

-- what the loops below share: how far to go, where the page of an index is mapped and lies, and
-- the pages
pub record Plan : Type 0 where
  pub more : ℕ → Bool
  pub virt : ℕ → ℕ
  pub phys : ℕ → ℕ
  pub page_size : ℕ
  pub flags : ℕ

abbrev pub page_at : Plan → (pml4 i : ℕ) → Space → Status × Space
page_at plan pml4 i s = page_in s pml4 (plan.virt i) (plan.phys i) plan.page_size plan.flags

-- the rest is left out if a page fails
abbrev pub after_page : (Space → Option (Status × Space)) → Status × Space → Option (Status × Space)
after_page next (ok, s) = next s
after_page next (failed, s) = some (failed, s)
after_page next (fault, s) = some (failed, s)

-- The loops that map pages of one size, from the index `i` on. `none` when the rounds are used up.
unfoldable pub page_while : (rounds : ℕ) → Plan → (pml4 i : ℕ) → Space → Option (Status × Space)
page_while zero plan pml4 i s = none
page_while (suc rounds) plan pml4 i s =
    let next = λ (s' : Space). page_while rounds plan pml4 (add64 i plan.page_size) s' in
    let paged = after_page next (page_at plan pml4 i s) in
    if plan.more i then paged else some (ok, s)

-- the permission WRITEABLE, and with CACHE_DISABLED
abbrev pub writeable : ℕ
writeable = 2

-- The pages of a region. The size that the loop works out is used nowhere: every page has 2 MiB.
abbrev pub region_plan : MemRegion → Plan
region_plan r = record {
  more = λ addr. ltb addr (region_end r);
  virt = kernel_phys_to_virt;
  phys = λ addr. addr;
  page_size = huge_ps;
  flags = writeable;
}

-- paging in changes the counts of free frames only, so the regions are those at the start
unfoldable pub page_in_regions :
    (rounds pml4 : ℕ) → List MemRegion → Space → Option (Status × Space)
unfolding page_while
page_in_regions rounds pml4 [] s = some (ok, s)
page_in_regions rounds pml4 (r ∷ rs) s =
    elim (page_while rounds (region_plan r) pml4 (align_up r.start_addr huge_ps) s) [
      | none ↦ none
      | some out ↦ after_page (page_in_regions rounds pml4 rs) out
    ]

-- the kernel is taken up to the end of the bitmap, whose size in bits is added as one in bytes
abbrev pub kernel_end : (bitmap_data : ℕ) → MemMap → ℕ
kernel_end bitmap_data mmap =
    kernel_virt_to_phys (align_up (add64 bitmap_data mmap.bitmap.size) default_page_size)

-- Behind the loop of `handle_mb2_mmap`. `kernel_start` is a symbol of the linker, and
-- `bitmap_data` where the map's bytes lie, behind the end of the kernel.
unfoldable pub set_up_map :
    (rounds kernel_start bitmap_data pml4 : ℕ) → Tables → MemMap → Option (Status × Space)
unfolding page_in_regions
set_up_map rounds kernel_start bitmap_data pml4 tables mmap =
    let zeroed = zero_mem_map mmap in
    let (err, marked) =
      set_mem_region zeroed (align_down kernel_start default_page_size)
        (kernel_end bitmap_data zeroed) in
    let space : Space = record { tables = tables; frames = marked } in
    elim err [
      | ok ↦ page_in_regions rounds pml4 marked.regions space
      | failed ↦ some (failed, space)
      | fault ↦ some (fault, space)
    ]

-- no regions yet; the bytes of the bitmap are what the memory holds
abbrev pub empty_map : Bytes → MemMap
empty_map bytes = record { mem_size = 0; regions = []; bitmap = record { size = 0; bytes = bytes } }

-- `none` when rounds are used up; a write behind the array is a fault
unfoldable pub handle_mb2_mmap :
    (rounds : ℕ)
    → Bytes
    → (mmap_tag kernel_start bitmap_data pml4 : ℕ) → Tables
    → (bitmap_bytes : Bytes) → Option (Status × Space)
unfolding register_entries set_up_map little_endian
handle_mb2_mmap rounds memory mmap_tag kernel_start bitmap_data pml4 tables bitmap_bytes =
    let size = little_endian memory 4 (mmap_tag + 4) in
    let entry_size = little_endian memory 4 (mmap_tag + 8) in
    elim (register_entries rounds memory entry_size (mmap_tag + size) (mmap_tag + 16)
      (empty_map bitmap_bytes)) [
        | done mmap ↦ set_up_map rounds kernel_start bitmap_data pml4 tables mmap
        | past_array ↦ some (fault, record { tables = tables; frames = empty_map bitmap_bytes })
        | out_of_rounds ↦ none
      ]

-- the pages of `map_mmio`, from a page-aligned address on
abbrev pub mmio_plan : (start size flags : ℕ) → Plan
mmio_plan start size flags = record {
  more = λ i. ltb i size;
  virt = λ i. mmio_phys_to_virt (add64 start i);
  phys = λ i. add64 start i;
  page_size = default_page_size;
  flags = flags;
}

abbrev pub mmio_result : (phys_addr : ℕ) → Status × Space → ℕ × Space
mmio_result phys_addr (ok, s) = (mmio_phys_to_virt phys_addr, s)
mmio_result phys_addr (failed, s) = (frame_alloc_failed, s)
mmio_result phys_addr (fault, s) = (frame_alloc_failed, s)

-- `pml4` is the table in the register cr3
unfoldable pub map_mmio :
    (rounds pml4 : ℕ) → Space → (phys_addr size flags : ℕ) → Option (ℕ × Space)
unfolding page_while
map_mmio rounds pml4 s phys_addr size flags =
    let plan = mmio_plan (align_down phys_addr default_page_size) size flags in
    elim (page_while rounds plan pml4 0 s) [
      | none ↦ none
      | some out ↦ some (mmio_result phys_addr out)
    ]
