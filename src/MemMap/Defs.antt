-- ===== src/MemMap/Defs.antt =====
-- The records of include/kernel/Memory/PMM/mem_map.h and the functions of
-- src/kernel/Memory/PMM/mem_map.c that register, mark and release regions. The array `regions` with
-- its `region_count` is a list of the entries in use.
use icarus.Prelude.{
  ℕ, zero, suc, ◌/◌, Bool, ◌||◌, ltb, not, if◌then◌else◌, Option, none, some, List, [], ◌∷◌, ◌++◌,
  length, get_elem?, set, last_of,
}
use icarus.Prelude.Words.{add64, sub64, mul64}
use icarus.Prelude.Align.{align_up}
use icarus.MemUtils.{imemset}
use icarus.BitMap.{Status, ok, failed, fault, BitMap, bitmap_set_len, bitmap_clear_len}

abbrev pub default_page_size : ℕ
default_page_size = 4096

abbrev pub max_mem_regions : ℕ
max_mem_regions = 32

-- `mem_region`; `bitmap_start_addr` is an index of a bit, and a region fills whole qwords
pub record MemRegion : Type 0 where
  pub start_addr : ℕ
  pub len_bytes : ℕ
  pub bitmap_start_addr : ℕ
  pub qword_count : ℕ
  pub free_frames : ℕ

-- `mem_map`
pub record MemMap : Type 0 where
  pub mem_size : ℕ
  pub regions : List MemRegion
  pub bitmap : BitMap

-- where the bits of the next region go
unfoldable pub next_bitmap_start : List MemRegion → ℕ
next_bitmap_start [] = 0
next_bitmap_start (r ∷ rs) =
    let prev_region = last_of r rs in
    add64 prev_region.bitmap_start_addr (mul64 prev_region.qword_count 64)

-- the entry that is written, and the map with it
unfoldable pub new_region : MemMap → (start end : ℕ) → MemRegion
unfolding next_bitmap_start
new_region mmap start end =
    let len = sub64 end start in
    let real_frames = len / default_page_size in
    record {
      start_addr = start;
      len_bytes = len;
      bitmap_start_addr = next_bitmap_start mmap.regions;
      qword_count = align_up real_frames 64 / 64;
      free_frames = real_frames;
    }

unfoldable pub with_region : MemMap → MemRegion → MemMap
with_region mmap r = record {
  mem_size = add64 mmap.mem_size r.len_bytes;
  regions = mmap.regions ++ (r ∷ []);
  bitmap = record {
    size = add64 mmap.bitmap.size (mul64 r.qword_count 64);
    bytes = mmap.bitmap.bytes;
  };
}

-- The function does not test `region_count`: `none` is a write behind the array.
unfoldable pub memmap_register_region : MemMap → (start end : ℕ) → Option MemMap
unfolding new_region with_region
memmap_register_region mmap start end =
    if ltb (length mmap.regions) max_mem_regions
    then some (with_region mmap (new_region mmap start end))
    else none

-- The loop that `set_mem_region`, `zero_mem_region` and `map_dealloc_frame` share: the first region
-- that fits is changed and ends the loop.
module _ (fits : MemRegion → Bool) (act : MemRegion → BitMap → MemRegion × BitMap) where
  unfoldable pub on_fitting : List MemRegion → BitMap → List MemRegion × BitMap
  on_fitting [] bitmap = ([], bitmap)
  on_fitting (r ∷ rs) bitmap =
      let (rs', bitmap') = on_fitting rs bitmap in
      let (r', changed) = act r bitmap in if fits r then (r' ∷ rs, changed) else (r ∷ rs', bitmap')

-- the part of the loop's body that differs: the frames counted and the bits written
unfoldable pub take_frames : (start_addr len : ℕ) → MemRegion → BitMap → MemRegion × BitMap
take_frames start_addr len region bitmap =
    let first = sub64 start_addr region.start_addr / default_page_size in
    let count = len / default_page_size in
    (
      record region { free_frames = sub64 region.free_frames count },
      (bitmap_set_len bitmap (add64 region.bitmap_start_addr first) count).1,
    )

unfoldable pub give_frames : (start_addr count : ℕ) → MemRegion → BitMap → MemRegion × BitMap
give_frames start_addr count region bitmap =
    let first = sub64 start_addr region.start_addr / default_page_size in
    (
      record region { free_frames = add64 region.free_frames count },
      (bitmap_clear_len bitmap (add64 region.bitmap_start_addr first) count).1,
    )

unfoldable pub region_end : MemRegion → ℕ
region_end r = add64 r.start_addr r.len_bytes

-- the negation of the loops' test for `continue`
unfoldable pub in_region : (start_addr end_addr : ℕ) → MemRegion → Bool
unfolding region_end
in_region start_addr end_addr r = not (ltb start_addr r.start_addr || ltb (region_end r) end_addr)

-- The test before the loops. With no region it reads `regions[-1]`.
module _ (start_addr end_addr : ℕ) (loop : List MemRegion → BitMap → List MemRegion × BitMap) where
  unfoldable pub within_map : MemMap → List MemRegion → Status × MemMap
  unfolding region_end
  within_map mmap [] = (fault, mmap)
  within_map mmap (r ∷ rs) =
      if ltb start_addr r.start_addr || ltb (region_end (last_of r rs)) end_addr
      then (failed, mmap)
      else let (regions, bitmap) = loop mmap.regions mmap.bitmap in
        (ok, record mmap { regions = regions; bitmap = bitmap })

unfoldable pub set_mem_region : MemMap → (start_addr end_addr : ℕ) → Status × MemMap
unfolding within_map on_fitting take_frames in_region
set_mem_region mmap start_addr end_addr =
    let len = sub64 end_addr start_addr in
    within_map start_addr end_addr
      (on_fitting (in_region start_addr end_addr) (take_frames start_addr len)) mmap mmap.regions

unfoldable pub zero_mem_region : MemMap → (start_addr end_addr : ℕ) → Status × MemMap
unfolding within_map on_fitting give_frames in_region
zero_mem_region mmap start_addr end_addr =
    let len = sub64 end_addr start_addr in
    within_map start_addr end_addr
      (on_fitting (in_region start_addr (add64 start_addr len))
        (give_frames start_addr (len / default_page_size)))
      mmap mmap.regions

unfoldable pub map_dealloc_frame : MemMap → (phys_addr page_size : ℕ) → Status × MemMap
unfolding within_map on_fitting give_frames in_region
map_dealloc_frame mmap phys_addr page_size =
    let cont_units = page_size / default_page_size in
    within_map phys_addr (add64 phys_addr page_size)
      (on_fitting (in_region phys_addr (add64 phys_addr page_size))
        (give_frames phys_addr cont_units))
      mmap mmap.regions

-- `region->free_frames = fr_count`
unfoldable pub put_count : ℕ → ℕ → MemMap → MemMap
put_count i fr_count mmap = elim (get_elem? mmap.regions i) [
  | none ↦ mmap
  | some region ↦ record mmap {
    regions = set mmap.regions i (record region { free_frames = fr_count });
  }
]

-- The loop of `zero_mem_map`, from index `i` with `n` rounds left. The region is read again after
-- the call, which may have changed it; only its count is put back.
unfoldable pub pad_regions : ℕ → ℕ → MemMap → MemMap
unfolding set_mem_region put_count
pad_regions zero i mmap = mmap
pad_regions (suc n) i mmap = elim (get_elem? mmap.regions i) [
  | none ↦ mmap
  | some region ↦
      let fr_count = region.free_frames in
      let mmap' =
        (set_mem_region mmap (add64 region.bitmap_start_addr region.len_bytes) (
          add64 region.bitmap_start_addr
            (mul64 (mul64 region.qword_count 64) default_page_size))).1 in
      pad_regions n (suc i) (put_count i fr_count mmap')
]

-- `Imemset(mmap->bitmap.data, 0, mmap->bitmap.size / 8)`
unfoldable pub zero_bytes : BitMap → BitMap
zero_bytes bitmap = record bitmap { bytes = imemset bitmap.bytes 0 0 (bitmap.size / 8) }

unfoldable pub zero_mem_map : MemMap → MemMap
unfolding pad_regions zero_bytes
zero_mem_map mmap =
    let mmap' = record mmap { bitmap = zero_bytes mmap.bitmap } in
    pad_regions (length mmap.regions) 0 mmap'
