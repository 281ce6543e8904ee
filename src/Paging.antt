-- ===== src/Paging.antt =====
-- The page tables of src/kernel/Memory/paging.c with include/page_definitions.h and the macros of
-- include/kernel/Memory/memory_mapping.h. A table entry is a record, and memory holds one at each
-- physical address of an entry; the kernel's window of physical memory, KERNEL_PHYS_TO_VIRT, moves
-- addresses and is left out, and so are the printing and `invlpg`.
mod Frames
mod Route
mod PageIn
mod PageOut
mod Tests
use icarus.Prelude.{
  ℕ, ◌+◌, ◌-◌, ◌*◌, ◌/◌, ◌%◌, ◌^◌, Bool, true, false, ◌&&◌, leb, ltb, ◌==◌, if◌then◌else◌,
}
use icarus.Prelude.Words.{add64}
use icarus.BitMap.{Status, ok, failed}
use icarus.MemMap.Defs.{MemMap}
use icarus.MemMap.Alloc.{frame_alloc_failed, ialloc_kframe}

-- An entry of any level; `huge` is bit 7 and `dirty` bit 6 at each of them.
pub record Entry : Type 0 where
  pub present : ℕ
  pub writeable : ℕ
  pub user_access : ℕ
  pub write_through : ℕ
  pub cache_disabled : ℕ
  pub accessed : ℕ
  pub dirty : ℕ
  pub huge : ℕ
  pub page_ppn : ℕ
  pub execution_disabled : ℕ

-- eight zero bytes
abbrev pub zero_entry : Entry
zero_entry = record {
  present = 0;
  writeable = 0;
  user_access = 0;
  write_through = 0;
  cache_disabled = 0;
  accessed = 0;
  dirty = 0;
  huge = 0;
  page_ppn = 0;
  execution_disabled = 0;
}

abbrev pub Tables : Type 0
Tables = ℕ → Entry

-- what paging works on: the tables, and the map of physical frames that new tables come from
pub record Space : Type 0 where
  pub tables : Tables
  pub frames : MemMap

abbrev pub huge_ps : ℕ
huge_ps = 2097152

abbrev pub super_ps : ℕ
super_ps = 1073741824

abbrev pub invalid_phys_addr : ℕ
invalid_phys_addr = 2 ^ 64 - 1

abbrev pub va_pml4_index : ℕ → ℕ
va_pml4_index va = va / 2 ^ 39 % 512

abbrev pub va_pdpt_index : ℕ → ℕ
va_pdpt_index va = va / 2 ^ 30 % 512

abbrev pub va_pd_index : ℕ → ℕ
va_pd_index va = va / 2 ^ 21 % 512

abbrev pub va_pt_index : ℕ → ℕ
va_pt_index va = va / 2 ^ 12 % 512

unfoldable pub write_entry : Tables → ℕ → Entry → Tables
write_entry tables at e a = if at == a then e else tables a

-- `page_ppn << 12`. The bit-field has 28 bits, so it is promoted to int; the shift is one of 32 bits, and its
-- value is extended by its sign.
unfoldable pub table_addr : Entry → ℕ
table_addr e =
    let shifted = e.page_ppn * 4096 % 2 ^ 32 in
    if ltb shifted (2 ^ 31) then shifted else shifted + 2 ^ 64 - 2 ^ 32

-- `&table[index]`
abbrev pub entry_at : (table index : ℕ) → ℕ
entry_at table index = add64 table (index * 8)

-- a physical address as a page number, `phys_addr >> 12` stored in 28 bits
unfoldable pub ppn_of : ℕ → ℕ
ppn_of phys_addr = phys_addr / 4096 % 2 ^ 28

unfoldable pub perm_bit : (permissions shift : ℕ) → ℕ
perm_bit permissions shift = permissions / 2 ^ shift % 2

-- `APPLY_UPPER_PERMS`
unfoldable pub apply_upper_perms : Entry → (permissions : ℕ) → Entry
unfolding perm_bit
apply_upper_perms e permissions = record e {
  user_access = if perm_bit permissions 0x3 == 1 then 1 else e.user_access;
  writeable = if perm_bit permissions 0x1 == 1 then 1 else e.writeable;
}

-- `APPLY_LEAF_PERMS`
unfoldable pub apply_leaf_perms : Entry → (permissions : ℕ) → Entry
unfolding perm_bit
apply_leaf_perms e permissions = record e {
  user_access = perm_bit permissions 0x3;
  writeable = perm_bit permissions 0x1;
  write_through = perm_bit permissions 0x7;
  cache_disabled = perm_bit permissions 0xF;
  execution_disabled = perm_bit permissions 0x3F;
}

-- `Imemset` of one page of entries with zero
unfoldable pub clear_table : Tables → (table : ℕ) → Tables
clear_table tables table a = if leb table a && ltb a (table + 4096) then zero_entry else tables a

-- The block that each upper level has: a missing table is allocated and cleared. The result says whether there
-- is one.
unfoldable pub ensure_table : Space → (at : ℕ) → Bool × Space
unfolding write_entry clear_table ppn_of ialloc_kframe
ensure_table s at =
    let (frame, frames') = ialloc_kframe s.frames 1 4096 in
    let cleared = clear_table s.tables frame in
    let e = record (cleared at) { page_ppn = ppn_of frame; present = 1 } in
    if (s.tables at).present == 0
    then if frame == frame_alloc_failed
      then (false, record s { frames = frames' })
      else (true, record { tables = write_entry cleared at e; frames = frames' })
    else (true, s)

-- An upper level: the table below is made sure of, the entry gets its permissions, and the next level goes on with the
-- table's address.
unfoldable pub with_table :
    Space → (at permissions : ℕ) → (Space → ℕ → Status × Space) → Status × Space
unfolding ensure_table write_entry apply_upper_perms table_addr
with_table s at permissions next_level =
    let (there, s') = ensure_table s at in
    let e = apply_upper_perms (s'.tables at) permissions in
    let s'' = record s' { tables = write_entry s'.tables at e } in
    if there then next_level s'' (table_addr e) else (failed, s')

-- a leaf at the two levels that can be huge
unfoldable pub huge_leaf : Entry → (phys_addr permissions : ℕ) → Entry
unfolding apply_leaf_perms ppn_of
huge_leaf e phys_addr permissions = record (apply_leaf_perms e permissions) {
  huge = 1;
  page_ppn = ppn_of phys_addr;
  present = 1;
}

unfoldable pub small_leaf : Entry → (phys_addr permissions : ℕ) → Entry
unfolding apply_leaf_perms ppn_of
small_leaf e phys_addr permissions = record (apply_leaf_perms e permissions) {
  accessed = 0;
  dirty = 0;
  page_ppn = ppn_of phys_addr;
  present = 1;
}

unfoldable pub map_leaf : Space → (at : ℕ) → Entry → Status × Space
unfolding write_entry
map_leaf s at e = (ok, record s { tables = write_entry s.tables at e })

-- `page_in` from each of its levels on
module _ (virt_addr phys_addr page_size permissions : ℕ) where
  unfoldable pub page_in_pt : Space → (pt_table : ℕ) → Status × Space
  unfolding map_leaf small_leaf
  page_in_pt s pt_table =
      let at = entry_at pt_table (va_pt_index virt_addr) in
      map_leaf s at (small_leaf (s.tables at) phys_addr permissions)

  unfoldable pub page_in_pd : Space → (pd_table : ℕ) → Status × Space
  unfolding map_leaf huge_leaf with_table page_in_pt
  page_in_pd s pd_table =
      let at = entry_at pd_table (va_pd_index virt_addr) in
      if page_size == huge_ps
      then map_leaf s at (huge_leaf (s.tables at) phys_addr permissions)
      else with_table s at permissions page_in_pt

  unfoldable pub page_in_pdpt : Space → (pdpt_table : ℕ) → Status × Space
  unfolding map_leaf huge_leaf with_table page_in_pd
  page_in_pdpt s pdpt_table =
      let at = entry_at pdpt_table (va_pdpt_index virt_addr) in
      if page_size == super_ps
      then map_leaf s at (huge_leaf (s.tables at) phys_addr permissions)
      else with_table s at permissions page_in_pd

unfoldable pub page_in :
    Space → (pml4 virt_addr phys_addr page_size permissions : ℕ) → Status × Space
unfolding with_table page_in_pdpt
page_in s pml4 virt_addr phys_addr page_size permissions =
    with_table s (entry_at pml4 (va_pml4_index virt_addr)) permissions
      (page_in_pdpt virt_addr phys_addr page_size permissions)

-- the next level's table, by its address
abbrev pub next_table : Tables → (table index : ℕ) → ℕ
next_table tables table index = table_addr (tables (entry_at table index))

-- `walk_table` from each of its levels on
unfoldable pub walk_pt : Tables → (table virt_addr : ℕ) → ℕ
unfolding table_addr
walk_pt tables table virt_addr =
    let pt_entry = tables (entry_at table (va_pt_index virt_addr)) in
    if pt_entry.present == 0 then invalid_phys_addr else table_addr pt_entry

unfoldable pub walk_pd : Tables → (table virt_addr : ℕ) → ℕ
unfolding table_addr walk_pt
walk_pd tables table virt_addr =
    let pd_entry = tables (entry_at table (va_pd_index virt_addr)) in
    if pd_entry.present == 0
    then invalid_phys_addr
    else if pd_entry.huge == 1
    then table_addr pd_entry
    else walk_pt tables (table_addr pd_entry) virt_addr

unfoldable pub walk_pdpt : Tables → (table virt_addr : ℕ) → ℕ
unfolding table_addr walk_pd
walk_pdpt tables table virt_addr =
    let pdpt_entry = tables (entry_at table (va_pdpt_index virt_addr)) in
    if pdpt_entry.present == 0
    then invalid_phys_addr
    else if pdpt_entry.huge == 1
    then table_addr pdpt_entry
    else walk_pd tables (table_addr pdpt_entry) virt_addr

unfoldable pub walk_table : Tables → (pml4 virt_addr : ℕ) → ℕ
unfolding table_addr walk_pdpt
walk_table tables pml4 virt_addr =
    let pml4_entry = tables (entry_at pml4 (va_pml4_index virt_addr)) in
    if pml4_entry.present == 0
    then invalid_phys_addr
    else walk_pdpt tables (table_addr pml4_entry) virt_addr

-- `test_walk_table` without its printing: it does not look for a huge page at the second level
unfoldable pub test_walk_table : Tables → (pml4 virt_addr : ℕ) → ℕ
unfolding table_addr walk_pt
test_walk_table tables pml4 virt_addr =
    let pml4_entry = tables (entry_at pml4 (va_pml4_index virt_addr)) in
    let pdpt_entry = tables (entry_at (table_addr pml4_entry) (va_pdpt_index virt_addr)) in
    let pd_entry = tables (entry_at (table_addr pdpt_entry) (va_pd_index virt_addr)) in
    if pml4_entry.present == 0
    then invalid_phys_addr
    else if pdpt_entry.present == 0
    then invalid_phys_addr
    else if (pd_entry.huge == 1) && (pd_entry.present == 1)
    then table_addr pd_entry
    else if pd_entry.present == 0
    then invalid_phys_addr
    else walk_pt tables (table_addr pd_entry) virt_addr

-- what `page_out` returns: 0, or the level at which it found no table
pub data PagedOut : Type 0 where
  done no_pml4 no_pdpt no_pd : PagedOut

unfoldable pub page_out : Tables → (pml4 virt_addr : ℕ) → PagedOut × Tables
unfolding write_entry table_addr
page_out tables pml4 virt_addr =
    let at4 = entry_at pml4 (va_pml4_index virt_addr) in
    let at3 = entry_at (table_addr (tables at4)) (va_pdpt_index virt_addr) in
    let at2 = entry_at (table_addr (tables at3)) (va_pd_index virt_addr) in
    let at1 = entry_at (table_addr (tables at2)) (va_pt_index virt_addr) in
    let tables3 = write_entry (write_entry tables at4 zero_entry) at3 zero_entry in
    let tables2 = write_entry tables3 at2 zero_entry in
    if (tables at4).present == 0
    then (no_pml4, tables)
    else if ((tables at3).huge == 1) && ((tables at3).present == 0)
    then (done, tables3)
    else if (tables at3).present == 0
    then (no_pdpt, tables)
    else if ((tables at2).huge == 1) && ((tables at2).present == 0)
    then (done, tables2)
    else if (tables at2).present == 0
    then (no_pd, tables)
    else (done, write_entry tables2 at1 zero_entry)
