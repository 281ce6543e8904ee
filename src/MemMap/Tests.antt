-- ===== src/MemMap/Tests.antt =====
-- The theorems on src/kernel/Memory/PMM/mem_map.c, at a map of one region of 64 frames from 1 MiB on,
-- whose first two frames are used, and at one whose region has padding.
use icarus.Prelude.{
  ℕ, ◌+◌, ◌*◌, ◌^◌, ◌≤◌, ◌≡◌, ◌≢◌, ◌⊎◌, inl, refl, arith, ltb, ◌==◌, if◌then◌else◌, [], ◌∷◌, ◌++◌,
  some, none, length,
}
use icarus.BitMap.{
  bitmap_set_len, write_range, until_aligned, whole_bytes, remaining_bits, set_bit, update, ok,
}
use icarus.MemMap.Defs.{
  MemRegion, MemMap, map_dealloc_frame, new_region, with_region, memmap_register_region,
  max_mem_regions, zero_mem_map,
}
use icarus.MemMap.Layout.{frame_count, limit, IsRegion, Laid, IsLaid, used, Padded}
use icarus.MemMap.Register.{memmap_register_region-IsLaid}
use icarus.MemMap.Padding.Zero.{zero_mem_map-Padded}
use icarus.MemMap.Word.{ctzll, find_run_in_word}
use icarus.MemMap.Word.Run.{RunResult, find_run_in_word-RunResult}
use icarus.MemMap.Alloc.{
  frame_alloc_failed, map_alloc_frame_contiguous, map_alloc_frame, page_type_to_size, scan,
}
use icarus.MemMap.Alloc.Scan.{ScanResult}
use icarus.MemMap.Alloc.FirstFit.{scan_first_fit}
use icarus.MemMap.Alloc.Sound.{IsReady, Reserved, Exhausted, map_alloc_frame_contiguous_outcome}
use icarus.MemMap.Alloc.Uses.{alloc_twice_disjoint, map_dealloc_frame-map_alloc_frame_contiguous}
use icarus.MemMap.Alloc.Faults.{map_alloc_frame_reserves_nothing}
use icarus.MemMap.Pages.{StructPage, take_pages, ialloc_frames, idealloc_frames}
use icarus.MemMap.Pages.Restore.{idealloc_frames-ialloc_frames}

abbrev low_region : MemRegion
low_region = record {
  start_addr = 1048576;
  len_bytes = 262144;
  bitmap_start_addr = 0;
  qword_count = 1;
  free_frames = 62;
}

abbrev pub two_used : MemMap
two_used = record {
  mem_size = 262144;
  regions = low_region ∷ [];
  bitmap = record { size = 64; bytes = λ a. if a == 0 then 3 else 0 };
}

low_region-IsRegion : IsRegion 0 0 low_region
low_region-IsRegion = record {
  low = omega arith;
  start_aligned = refl;
  len_aligned = refl;
  end_fits = omega arith;
  qwords = refl;
  begins = refl;
}

two_used-IsLaid : IsLaid two_used
two_used-IsLaid = record {
  laid = (low_region-IsRegion, refl);
  cells = λ a. ground arith;
  small = omega arith;
}

pub two_used-IsReady : IsReady two_used
two_used-IsReady = record {
  layout = two_used-IsLaid;
  padding = (λ k ge lt. absurd (omega arith), tt);
  small = (omega arith, tt);
}

first_call : (map_alloc_frame_contiguous two_used 3).0 ≡ 1056768
unfolding map_alloc_frame_contiguous ctzll find_run_in_word
first_call = refl

first_call_succeeds : (map_alloc_frame_contiguous two_used 3).0 ≢ frame_alloc_failed
first_call_succeeds e = absurd (omega (arith, first_call))

second_call : (map_alloc_frame_contiguous (map_alloc_frame_contiguous two_used 3).1 4).0 ≡ 1069056
unfolding map_alloc_frame_contiguous ctzll find_run_in_word bitmap_set_len write_range
    remaining_bits whole_bytes until_aligned set_bit update
second_call = refl

map_alloc_frame_contiguous_outcome_example :
    let out = map_alloc_frame_contiguous two_used 3 in
    IsReady out.1
    × (Reserved 3 two_used out
        ⊎ ((out.0 ≡ frame_alloc_failed)
            × (out.1 ≡ two_used)
            × Exhausted 3 two_used.bitmap.bytes two_used.regions))
map_alloc_frame_contiguous_outcome_example =
    map_alloc_frame_contiguous_outcome two_used 3 two_used-IsReady (omega arith)

map_dealloc_frame-map_alloc_frame_contiguous_example :
    let (s, m') = map_alloc_frame_contiguous two_used 3 in
    let (status, m'') = map_dealloc_frame m' s (3 * 4096) in
    (status ≡ ok) × ((a : ℕ) → used m'' a ≡ used two_used a)
map_dealloc_frame-map_alloc_frame_contiguous_example =
    map_dealloc_frame-map_alloc_frame_contiguous two_used 3 two_used-IsReady (omega arith)
      first_call_succeeds

alloc_twice_disjoint_example :
    let (s, m') = map_alloc_frame_contiguous two_used 3 in
    let t = (map_alloc_frame_contiguous m' 4).0 in (s + 3 * 4096 ≤ t) ⊎ (t + 4 * 4096 ≤ s)
alloc_twice_disjoint_example =
    alloc_twice_disjoint two_used 3 two_used-IsReady (omega arith) first_call_succeeds 4
      (omega arith) (λ e. absurd (omega (arith, second_call)))

abbrev three_words : ℕ → ℕ
three_words q = if q == 0 then 255 else if q == 1 then 0 else 2 ^ 63

scan_first_fit_example : ScanResult three_words 3 70 (scan three_words 70 3 0 0 0)
scan_first_fit_example =
    scan_first_fit three_words 70 3 (omega arith) (λ q. ground arith) (omega arith)

find_run_in_word-RunResult_example : RunResult 0xF0 5 (find_run_in_word 0xF0 5)
find_run_in_word-RunResult_example =
    find_run_in_word-RunResult 0xF0 5 (omega arith) (omega arith) (omega arith)

memmap_register_region-IsLaid_example :
    let r = new_region two_used 2097152 2101248 in
    let m' = with_region two_used r in
    (memmap_register_region two_used 2097152 2101248
      ≡ (if ltb (length two_used.regions) max_mem_regions then some m' else none))
    × IsLaid m'
    × (m'.regions ≡ two_used.regions ++ (r ∷ []))
    × (r.start_addr ≡ 2097152)
    × (limit r ≡ 2101248)
    × (r.bitmap_start_addr ≡ two_used.bitmap.size)
    × (r.free_frames ≡ frame_count r)
    × (m'.bitmap.bytes ≡ two_used.bitmap.bytes)
memmap_register_region-IsLaid_example =
    memmap_register_region-IsLaid two_used 2097152 2101248 two_used-IsLaid refl refl (omega arith)
      (omega arith) (omega arith) (omega arith)

map_alloc_frame_reserves_nothing_example :
    let (start, m') = map_alloc_frame two_used 1 in
    (start ≡ 1048576) × ((a : ℕ) → used m' a ≡ used two_used a)
map_alloc_frame_reserves_nothing_example =
    map_alloc_frame_reserves_nothing two_used 1 low_region [] two_used-IsLaid refl (omega arith)
      (inl refl)

-- a region of 66 frames, so that 62 bits of its second qword are padding
abbrev with_padding : MemMap
with_padding = record {
  mem_size = 270336;
  regions =
      (record {
        start_addr = 1048576;
        len_bytes = 270336;
        bitmap_start_addr = 0;
        qword_count = 2;
        free_frames = 66;
      })
      ∷ [];
  bitmap = record { size = 128; bytes = λ a. 255 };
}

with_padding-IsLaid : IsLaid with_padding
with_padding-IsLaid = record {
  laid = (
    record {
      low = omega arith;
      start_aligned = refl;
      len_aligned = refl;
      end_fits = omega arith;
      qwords = refl;
      begins = refl;
    },
    refl,
  );
  cells = λ a. omega arith;
  small = omega arith;
}

zero_mem_map-Padded_example :
    let m' = zero_mem_map with_padding in
    Padded 0 m'.bitmap.bytes m'.regions × Laid 0 0 m'.bitmap.size m'.regions
zero_mem_map-Padded_example = zero_mem_map-Padded with_padding with_padding-IsLaid (omega arith)

abbrev pub three_pages : StructPage
three_pages = record {
  page_count = 3;
  page_size = 4096;
  first = 1056768;
  others = 1060864 ∷ 1064960 ∷ [];
}

three_listed : (ialloc_frames two_used 3 0).0 ≡ some three_pages
unfolding ialloc_frames take_pages map_alloc_frame page_type_to_size map_alloc_frame_contiguous
    ctzll find_run_in_word bitmap_set_len write_range remaining_bits whole_bytes until_aligned
    set_bit update
three_listed = refl

first_page : (map_alloc_frame two_used 0).0 ≡ 1056768
unfolding map_alloc_frame page_type_to_size map_alloc_frame_contiguous ctzll find_run_in_word
first_page = refl

idealloc_frames-ialloc_frames_example :
    ((idealloc_frames (ialloc_frames two_used 3 0).1 three_pages).0 ≡ ok)
    × ((x : ℕ)
        → used (idealloc_frames (ialloc_frames two_used 3 0).1 three_pages).1 x ≡ used two_used x)
idealloc_frames-ialloc_frames_example =
    idealloc_frames-ialloc_frames two_used 3 two_used-IsReady
      (λ e. absurd (omega (arith, first_page))) three_pages three_listed
