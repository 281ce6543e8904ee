-- ===== src/MemMap/Pages.antt =====
-- `ialloc_frames` and `idealloc_frames` of src/kernel/Memory/PMM/mem_map.c: pages that are allocated one by one and listed in a
-- page of their own, the first of them. The listing is a value here, where C keeps it in that page.
mod Held
pub mod Restore
use icarus.Prelude.{
  ℕ, zero, suc, ◌-◌, Bool, ltb, ◌==◌, if◌then◌else◌, Option, none, some, List, [], ◌∷◌,
}
use icarus.Prelude.Align.{align_down}
use icarus.BitMap.{Status, ok, failed, fault}
use icarus.MemMap.Defs.{MemMap, default_page_size, map_dealloc_frame}
use icarus.MemMap.Alloc.{frame_alloc_failed, page_type_to_size, map_alloc_frame}

-- `struct_page_t`: `page_addr[0]` and the addresses behind it
pub record StructPage : Type 0 where
  pub page_count : ℕ
  pub page_size : ℕ
  pub first : ℕ
  pub others : List ℕ

abbrev put_page : ℕ → Option (List ℕ) → Option (List ℕ)
put_page addr none = none
put_page addr (some addrs) = some (addr ∷ addrs)

-- the loop of `ialloc_frames`; after a failure the pages before it stay used
unfoldable pub take_pages : (n : ℕ) → MemMap → (page_type : ℕ) → Option (List ℕ) × MemMap
unfolding map_alloc_frame
take_pages zero mmap page_type = (some [], mmap)
take_pages (suc n) mmap page_type =
    let (addr, mmap') = map_alloc_frame mmap page_type in
    let (addrs, mmap'') = take_pages n mmap' page_type in
    if addr == frame_alloc_failed then (none, mmap') else (put_page addr addrs, mmap'')

abbrev list_pages : (page_count page_size first : ℕ) → Option (List ℕ) → Option StructPage
list_pages page_count page_size first none = none
list_pages page_count page_size first (some others) =
    some (record { page_count = page_count; page_size = page_size; first = first; others = others })

-- The first page is not looked at for a failure.
unfoldable pub ialloc_frames : MemMap → (count page_type : ℕ) → Option StructPage × MemMap
unfolding take_pages page_type_to_size
ialloc_frames mmap count page_type =
    let (first, mmap') = map_alloc_frame mmap page_type in
    let (others, mmap'') = take_pages (count - 1) mmap' page_type in
    if ltb 510 count
    then (none, mmap)
    else (list_pages count (page_type_to_size page_type) first others, mmap'')

-- the loop of `idealloc_frames`
unfoldable pub give_pages : List ℕ → (page_size : ℕ) → MemMap → Status × MemMap
unfolding map_dealloc_frame align_down
give_pages [] page_size mmap = (ok, mmap)
give_pages (addr ∷ addrs) page_size mmap =
    let (status, mmap') = map_dealloc_frame mmap (align_down addr page_size) page_size in
    let rest = give_pages addrs page_size mmap' in
    elim status [ ok ↦ rest | failed ↦ (failed, mmap') | fault ↦ (fault, mmap') ]

-- what the call for the first page returns is not looked at
unfoldable pub idealloc_frames : MemMap → StructPage → Status × MemMap
unfolding give_pages
idealloc_frames mmap info_page =
    let (status, mmap') = give_pages info_page.others info_page.page_size mmap in
    elim status [
      | ok ↦ (
        ok,
        (map_dealloc_frame mmap' (align_down info_page.first default_page_size)
            info_page.page_size).1,
      )
      | failed ↦ (failed, mmap')
      | fault ↦ (fault, mmap')
    ]
