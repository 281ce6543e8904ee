-- ===== src/MemMap/Alloc.antt =====
-- The frame allocator of src/kernel/Memory/PMM/mem_map.c: `map_alloc_frame_contiguous` and what
-- calls it. `uint32_t` and `uint8_t` values wrap as in the source.
pub mod Scan
pub mod FirstFit
pub mod Qword
pub mod Result
pub mod Sound
pub mod Uses
pub mod Faults
use icarus.Prelude.{
  ℕ, zero, suc, ◌+◌, ◌-◌, ◌*◌, ◌/◌, ◌%◌, ◌^◌, ltb, leb, ◌==◌, if◌then◌else◌, Option, none, some,
  List, [], ◌∷◌,
}
use icarus.Prelude.Words.{add64, add32, sub32, mul64, mul32}
use icarus.Prelude.Align.{align_up}
use icarus.BitMap.{Bytes, Status}
use icarus.MemMap.Defs.{MemRegion, MemMap, default_page_size, set_mem_region, map_dealloc_frame}
use icarus.MemMap.Word.{ctzll, clzll, find_run_in_word}

abbrev pub frame_alloc_failed : ℕ
frame_alloc_failed = 2 ^ 64 - 1

-- the `n` bytes from `a` on, lowest first, as one number
unfoldable pub little_endian : Bytes → ℕ → ℕ → ℕ
little_endian d zero a = 0
little_endian d (suc n) a = d a + 2 ^ 8 * little_endian d n (a + 1)

-- `*(uint64_t *) &data[bitmap_start_addr / 8 + qword_index * 8]`
unfoldable pub read_qword : Bytes → (bitmap_start_addr qword_index : ℕ) → ℕ
unfolding little_endian
read_qword d bitmap_start_addr qword_index =
    little_endian d 8 (add64 (bitmap_start_addr / 8) (mul32 qword_index 8))

-- The scan of one region, with `n` words left from `qword_index` on; the result is the number of the
-- region's first frame of the run.
module _ (word_at : ℕ → ℕ) (page_count : ℕ) where
  unfoldable pub hole : ℕ → Option ℕ
  hole qword = if leb page_count 64 then find_run_in_word qword page_count else none

  unfoldable pub scan : ℕ → (qword_index carried_run run_start : ℕ) → Option ℕ
  unfolding hole
  scan zero qword_index carried_run run_start = none
  scan (suc n) qword_index carried_run run_start =
      let qword = word_at qword_index in
      let run_start' = if carried_run == 0 then mul32 qword_index 64 else run_start in
      let longer = add32 carried_run 64 in
      let next_zero = scan n (suc qword_index) longer run_start' in
      let trailing_free = clzll qword in
      let next =
        scan n (suc qword_index) trailing_free
          (sub32 (add32 (mul32 qword_index 64) 64) trailing_free) in
      if qword == 0
      then (if leb page_count longer then some run_start' else next_zero)
      else if leb page_count (add32 carried_run (ctzll qword))
      then some run_start'
      else elim (hole qword) [
        | none ↦ next
        | some bit_index ↦ some (add32 (mul32 qword_index 64) bit_index)
      ]

-- `region->start_addr + frame * DEFAULT_PAGE_SIZE`, where `frame` is a uint32_t and the product wraps
unfoldable pub frame_addr : MemRegion → ℕ → ℕ
frame_addr region frame = add64 region.start_addr (mul32 frame default_page_size)

unfoldable pub scan_region : Bytes → MemRegion → (page_count : ℕ) → Option ℕ
unfolding scan read_qword
scan_region d region page_count =
    scan (read_qword d region.bitmap_start_addr) page_count region.qword_count 0 0 0

unfoldable pub alloc_in : List MemRegion → MemMap → (page_count : ℕ) → ℕ × MemMap
unfolding scan_region frame_addr set_mem_region
alloc_in [] mmap page_count = (frame_alloc_failed, mmap)
alloc_in (region ∷ rest) mmap page_count =
    let next = alloc_in rest mmap page_count in
    if ltb region.free_frames page_count
    then next
    else elim (scan_region mmap.bitmap.bytes region page_count) [
      | none ↦ next
      | some frame ↦
          let start = frame_addr region frame in
          (start, (set_mem_region mmap start (add64 start (mul64 page_count default_page_size))).1)
    ]

unfoldable pub map_alloc_frame_contiguous : MemMap → (page_count : ℕ) → ℕ × MemMap
unfolding alloc_in
map_alloc_frame_contiguous mmap page_count = alloc_in mmap.regions mmap page_count

-- `PAGE_TYPE` is an enum that callers also pass sizes for, so it is a number.
abbrev pub huge_page : ℕ
huge_page = 1

abbrev pub super_page : ℕ
super_page = 2

unfoldable pub page_type_to_size : ℕ → ℕ
page_type_to_size type =
    if type == super_page then 1073741824 else if type == huge_page then 2097152 else 4096

-- The count of frames is kept in a uint8_t.
unfoldable pub map_alloc_frame : MemMap → (page_size : ℕ) → ℕ × MemMap
unfolding map_alloc_frame_contiguous page_type_to_size
map_alloc_frame mmap page_size =
    let smallest_unit = page_type_to_size page_size / default_page_size % 2 ^ 8 in
    map_alloc_frame_contiguous mmap smallest_unit

-- the kernel's map at `_kernel_end` is the argument
unfoldable pub alloc_kframe : MemMap → (size : ℕ) → ℕ × MemMap
unfolding map_alloc_frame_contiguous
alloc_kframe mmap size =
    map_alloc_frame_contiguous mmap (align_up size default_page_size / default_page_size)

unfoldable pub dealloc_kframe : MemMap → (start size : ℕ) → Status × MemMap
unfolding map_dealloc_frame
dealloc_kframe mmap start size = map_dealloc_frame mmap start size

unfoldable pub ialloc_kframe : MemMap → (pages page_size : ℕ) → ℕ × MemMap
unfolding map_alloc_frame_contiguous
ialloc_kframe mmap pages page_size = map_alloc_frame_contiguous mmap pages
