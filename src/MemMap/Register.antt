-- ===== src/MemMap/Register.antt =====
-- `memmap_register_region` of src/kernel/Memory/PMM/mem_map.c builds the layout.
use icarus.Prelude.{
  ℕ, ◌+◌, ◌-◌, ◌*◌, ◌/◌, ◌%◌, ◌^◌, ◌≤◌, ◌<◌, ◌≡◌, refl, sym, arith, ltb, none, some, if◌then◌else◌,
  List, [], ◌∷◌, ◌++◌, length, last_of,
}
use mathlib.Core.Path.{subst}
use icarus.Prelude.Words.{add64, sub64, mul64}
use icarus.Prelude.Align.{align_up, align_up_lem}
use icarus.MemMap.Defs.{
  MemRegion, MemMap, next_bitmap_start, new_region, with_region, memmap_register_region,
  max_mem_regions,
}
use icarus.MemMap.Layout.{frame_count, limit, bits_end, IsRegion, Laid, IsLaid}

-- where the last region ends
abbrev pub map_end : ℕ → List MemRegion → ℕ
map_end lo [] = lo
map_end lo (r ∷ rs) = map_end (limit r) rs

Laid-append :
    (lo b size : ℕ) (rs : List MemRegion) (r : MemRegion)
    → Laid lo b size rs
    → IsRegion (map_end lo rs) size r
    → Laid lo b (size + r.qword_count * 64) (rs ++ (r ∷ []))
Laid-append lo b size [] r h is = (subst (λ x. IsRegion lo x r) (sym h) is, omega arith)
Laid-append lo b size (q ∷ rs) r h is = (h.0, Laid-append (limit q) (bits_end b q) size rs r h.1 is)

last_bits :
    (lo b size : ℕ) (r : MemRegion) (rs : List MemRegion)
    → Laid lo b size (r ∷ rs)
    → (last_of r rs).bitmap_start_addr + (last_of r rs).qword_count * 64 ≡ size
last_bits lo b size r [] h = omega (arith, h.0.begins)
last_bits lo b size r (q ∷ rs) h = last_bits (limit r) (bits_end b r) size q rs h.1

next_bitmap_start-size :
    (size : ℕ) (rs : List MemRegion)
    → Laid 0 0 size rs
    → size < 2 ^ 64
    → next_bitmap_start rs ≡ size
unfolding next_bitmap_start
next_bitmap_start-size size [] h lt = h
next_bitmap_start-size size (r ∷ rs) h lt = omega (arith, last_bits 0 0 size r rs h)

-- the qwords of a region, as the code rounds them
qwords_of : (frames : ℕ) → frames < 2 ^ 53 → align_up frames 64 / 64 ≡ (frames + 63) / 64
qwords_of frames lt = omega (arith, align_up_lem 6 frames (omega arith) (omega arith) (omega arith))

module _ (m : MemMap) (start end : ℕ) (h : IsLaid m) (start_aligned : start % 4096 ≡ 0)
    (end_aligned : end % 4096 ≡ 0) (above : map_end 0 m.regions ≤ start) (ordered : start < end)
    (room : m.bitmap.size + (end - start) / 4096 + 2 ^ 34 < 2 ^ 64) (end_lt : end < 2 ^ 64) where
  new_IsRegion :
      IsRegion (map_end 0 m.regions) m.bitmap.size (new_region m start end)
      × (limit (new_region m start end) ≡ end)
  unfolding new_region
  new_IsRegion =
      let len : sub64 end start ≡ end - start = omega arith in
      let q = qwords_of ((end - start) / 4096) (omega arith) in
      let bits = next_bitmap_start-size m.bitmap.size m.regions h.laid (omega arith) in
      rw (len, q, bits)
        (
          record {
            low = above;
            start_aligned = start_aligned;
            len_aligned = omega arith;
            end_fits = omega arith;
            qwords = refl;
            begins = refl;
          },
          omega arith,
        )

  with_region-IsLaid :
      (r : MemRegion)
      → IsRegion (map_end 0 m.regions) m.bitmap.size r
      → limit r ≡ end
      → r.start_addr ≡ start
      → IsLaid (with_region m r)
  unfolding with_region
  with_region-IsLaid r is top low =
      let size : add64 m.bitmap.size (mul64 r.qword_count 64) ≡ m.bitmap.size + r.qword_count * 64 =
        omega (arith, is.qwords) in
      rw size (record {
        laid = Laid-append 0 0 m.bitmap.size m.regions r h.laid is;
        cells = h.cells;
        small = omega (arith, is.qwords);
      })

  -- Registering a page-aligned, non-empty range above all regions and below 2 ^ 64, where the
  -- bitmap has room for the frames below 2 ^ 64 - 2 ^ 34 bits, keeps the layout, if fewer than
  -- 32 regions are registered: a region of that range is appended whose bits follow those of
  -- the others and whose count of free frames is its length in pages, and the stored bits do
  -- not change. With 32 regions the function writes behind its array.
  pub memmap_register_region-IsLaid :
      let r = new_region m start end in
      let m' = with_region m r in
      (memmap_register_region m start end
        ≡ (if ltb (length m.regions) max_mem_regions then some m' else none))
      × IsLaid m'
      × (m'.regions ≡ m.regions ++ (r ∷ []))
      × (r.start_addr ≡ start)
      × (limit r ≡ end)
      × (r.bitmap_start_addr ≡ m.bitmap.size)
      × (r.free_frames ≡ frame_count r)
      × (m'.bitmap.bytes ≡ m.bitmap.bytes)
  unfolding memmap_register_region
  memmap_register_region-IsLaid =
      let (is, top) = new_IsRegion in
      (
        refl,
        with_region-IsLaid (new_region m start end) is top refl,
        refl,
        refl,
        top,
        is.begins,
        refl,
        refl,
      )
