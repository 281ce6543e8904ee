-- ===== src/MemMap/Alloc/Faults.antt =====
-- Where the frame allocator of src/kernel/Memory/PMM/mem_map.c hands out memory that it has not
-- reserved: page types above 4 KiB, offsets of 4 GiB and more, runs that reach into the padding.
use icarus.Prelude.{
  ℕ, suc, ◌+◌, ◌-◌, ◌*◌, ◌/◌, ◌%◌, ◌^◌, ◌≤◌, ◌<◌, ◌≡◌, refl, ap, ◌∙◌, false, ◌⊎◌, inl, inr, arith,
  ltb, ◌==◌, ◌||◌, List, [], ◌∷◌, some, Bool-cases, Option-cases, last_of,
}
use icarus.Prelude.Words.{add64, sub64, mul32, mul64}
use icarus.BitMap.{Bytes, IsBytes, BitMap, bit, bitmap_set_len, bitmap_set_len-WritesRange}
use icarus.MemMap.Defs.{
  MemRegion, MemMap, set_mem_region, take_frames, on_fitting, in_region, within_map, region_end,
}
use mathlib.Core.Path.{subst}
use icarus.MemMap.Layout.{bits_end, IsRegion, Laid, IsLaid, used_in, used}
use icarus.MemMap.Alloc.Result.{FreeFrames, scan_region-least}
use icarus.MemMap.Alloc.{
  map_alloc_frame, alloc_in, frame_addr, scan_region, scan, huge_page, super_page,
  page_type_to_size, read_qword,
}

used_in-cong :
    (rs : List MemRegion) (d d' : Bytes)
    → ((j : ℕ) → bit d' j ≡ bit d j)
    → (a : ℕ) → used_in d' rs a ≡ used_in d rs a
unfolding used_in
used_in-cong [] d d' same a = refl
used_in-cong (r ∷ rs) d d' same a =
    ground
      (arith, same (r.bitmap_start_addr + (a - r.start_addr) / 4096), used_in-cong rs d d' same a)

-- writing no bits
set_none :
    (bm : BitMap) (i j : ℕ)
    → bm.size + 8 < 2 ^ 64
    → bit (bitmap_set_len bm i 0).1.bytes j ≡ bit bm.bytes j
set_none bm i j small = elim (bitmap_set_len-WritesRange bm i 0 small).outcome [
  | inl (_, _, f) ↦ ground (arith, f j)
  | inr (_, _, e) ↦ ap (λ (x : BitMap). bit x.bytes j) e
]

-- a pass for no bytes changes no bit, and no region but in its count
module _ (s : ℕ) where
  pass_bits :
      (rs : List MemRegion) (bm : BitMap)
      → bm.size + 8 < 2 ^ 64
      → (j : ℕ)
      → bit (on_fitting (in_region s s) (take_frames s 0) rs bm).1.bytes j ≡ bit bm.bytes j
  unfolding on_fitting take_frames
  pass_bits [] bm small j = refl
  pass_bits (r ∷ rs) bm small j = elim (Bool-cases (in_region s s r)) [
    | inl hit ↦
        rw hit (set_none bm (add64 r.bitmap_start_addr (sub64 s r.start_addr / 4096)) j small)
    | inr miss ↦ rw miss (pass_bits rs bm small j)
  ]

  pass_regions :
      (rs : List MemRegion) (bm : BitMap) (d : Bytes) (a : ℕ)
      → used_in d (on_fitting (in_region s s) (take_frames s 0) rs bm).0 a ≡ used_in d rs a
  unfolding on_fitting take_frames used_in
  pass_regions [] bm d a = refl
  pass_regions (r ∷ rs) bm d a = elim (Bool-cases (in_region s s r)) [
    | inl hit ↦ rw hit
    | inr miss ↦ rw miss (ground (arith, pass_regions rs bm d a))
  ]

  set_mem_region-empty :
      (m : MemMap)
      → s < 2 ^ 64
      → m.bitmap.size + 8 < 2 ^ 64
      → (a : ℕ) → used (set_mem_region m s s).1 a ≡ used m a
  unfolding set_mem_region used
  set_mem_region-empty m lt small a = let e : sub64 s s ≡ 0 = omega arith in rw e (within m.regions)
    where
      loop : List MemRegion → BitMap → List MemRegion × BitMap
      loop = on_fitting (in_region s s) (take_frames s 0)

      within :
          (rs : List MemRegion)
          → used_in (within_map s s loop m rs).1.bitmap.bytes (within_map s s loop m rs).1.regions a
            ≡ used_in m.bitmap.bytes m.regions a
      within [] = refl
      within (r ∷ rs) =
          elim (Bool-cases (ltb s r.start_addr || ltb (region_end (last_of r rs)) s)) [
            | inl out ↦ rw out
            | inr fit ↦ rw fit (
                pass_regions m.regions m.bitmap (loop m.regions m.bitmap).1.bytes a
                ∙ used_in-cong m.regions m.bitmap.bytes (loop m.regions m.bitmap).1.bytes
                    (pass_bits m.regions m.bitmap small) a)
          ]

alloc_in-zero :
    (rs : List MemRegion) (m : MemMap)
    → m.bitmap.size + 8 < 2 ^ 64
    → (a : ℕ) → used (alloc_in rs m 0).1 a ≡ used m a
unfolding alloc_in
alloc_in-zero [] m small a = refl
alloc_in-zero (r ∷ rs) m small a =
    let some_region : ltb r.free_frames 0 ≡ false = ground arith in
    elim (Option-cases (scan_region m.bitmap.bytes r 0)) [
      | inl e ↦ rw (some_region, e, alloc_in) (alloc_in-zero rs m small a)
      | inr (f, e) ↦
          let lt : frame_addr r f < 2 ^ 64 = addr_lt r f in
          let stay : add64 (frame_addr r f) (mul64 0 4096) ≡ frame_addr r f = omega arith in
          rw (some_region, e, stay, alloc_in) (set_mem_region-empty (frame_addr r f) m lt small a)
    ]
  where
    addr_lt : (r : MemRegion) (f : ℕ) → frame_addr r f < 2 ^ 64
    addr_lt r f = omega arith

-- a scan for no frames stops at the first word
scan-zero : (word_at : ℕ → ℕ) (n : ℕ) → scan word_at 0 (suc n) 0 0 0 ≡ some 0
unfolding scan
scan-zero word_at n = elim (Bool-cases (word_at 0 == 0)) [
  | inl z ↦ rw z
  | inr nz ↦ rw nz (ground arith)
]

alloc_in-zero_start :
    (r : MemRegion) (rs : List MemRegion) (m : MemMap) (q : ℕ)
    → r.qword_count ≡ suc q
    → r.start_addr < 2 ^ 64
    → (alloc_in (r ∷ rs) m 0).0 ≡ r.start_addr
unfolding alloc_in
alloc_in-zero_start r rs m q e lt =
    let some_region : ltb r.free_frames 0 ≡ false = ground arith in
    let word_at : ℕ → ℕ = read_qword m.bitmap.bytes r.bitmap_start_addr in
    let found : scan_region m.bitmap.bytes r 0 ≡ some 0 =
      ap (λ (w : ℕ). scan word_at 0 w 0 0 0) e ∙ scan-zero word_at q in
    rw (some_region, found, alloc_in) (omega arith)

-- For a huge page (2 MiB) or a super page (1 GiB) the count of frames wraps to 0 in its uint8_t:
-- `map_alloc_frame` returns the first address of the first region, on a map that is laid out and whose
-- first region is not empty, and the use of every address stays what it was.
pub map_alloc_frame_reserves_nothing :
    (m : MemMap) (type : ℕ) (r : MemRegion) (rs : List MemRegion)
    → IsLaid m
    → m.regions ≡ r ∷ rs
    → 0 < r.len_bytes
    → (type ≡ huge_page) ⊎ (type ≡ super_page)
    → let (start, m') = map_alloc_frame m type in
      (start ≡ r.start_addr) × ((a : ℕ) → used m' a ≡ used m a)
unfolding map_alloc_frame
map_alloc_frame_reserves_nothing m type r rs h e pos big =
    let none_left : page_type_to_size type / 4096 % 2 ^ 8 ≡ 0 = ground arith in
    let laid : Laid 0 0 m.bitmap.size (r ∷ rs) = subst (Laid 0 0 m.bitmap.size) e h.laid in
    let r_laid = laid.0 in
    let q : r.qword_count ≡ suc (r.qword_count - 1) =
      omega (arith, r_laid.qwords, r_laid.len_aligned) in
    rw none_left (
      ap (λ (l : List MemRegion). (alloc_in l m 0).0) e
          ∙ alloc_in-zero_start r rs m (r.qword_count - 1) q (omega (arith, r_laid.end_fits)),
      alloc_in-zero m.regions m (omega (arith, h.small)),
    )

-- From frame 2 ^ 20 on the offset of a frame wraps in 32 bits. For a region that is laid out with
-- its bits at a multiple of 64 and below 2 ^ 64 - 2 ^ 33, of fewer than 2 ^ 32 bits, and for at
-- least one frame: where the scan finds its lowest free run at such a frame, the address that the
-- code computes is that of a lower frame, at which no such run is free.
frame_addr_wraps :
    (lo b n f : ℕ) (d : Bytes) (r : MemRegion)
    → IsBytes d
    → IsRegion lo b r
    → 0 < n
    → b % 64 ≡ 0
    → r.qword_count * 64 < 2 ^ 32
    → bits_end b r + 2 ^ 33 < 2 ^ 64
    → scan_region d r n ≡ some f
    → 2 ^ 20 ≤ f
    → (frame_addr r f ≡ frame_addr r (f % 2 ^ 20)) × (FreeFrames d r (f % 2 ^ 20) n → ⊥)
unfolding frame_addr
frame_addr_wraps lo b n f d r is h pos aligned small fits e far =
    let (le, free, least) = scan_region-least lo b n d r is h pos aligned small fits f e in
    let low : mul32 f 4096 ≡ mul32 (f % 2 ^ 20) 4096 = omega arith in
    (rw low refl, least (f % 2 ^ 20) (omega arith))
