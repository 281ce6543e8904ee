-- ===== src/MemMap/Alloc/Sound.antt =====
-- `map_alloc_frame_contiguous` of src/kernel/Memory/PMM/mem_map.c on regions that are laid out, with
-- their padding marked as used: what it returns is a run of free frames inside one region.
use icarus.Prelude.{
  ℕ, ◌+◌, ◌-◌, ◌*◌, ◌/◌, ◌%◌, ◌^◌, ◌≤◌, ◌<◌, ◌≡◌, refl, ◌⊎◌, inl, inr, arith, ltb, leb, ◌&&◌,
  if◌then◌else◌, List, [], ◌∷◌, none, some, Bool-cases, Option-cases,
}
use mathlib.Core.Path.{subst}
use icarus.Prelude.Words.{add64, mul32, mul64}
use icarus.BitMap.{Bytes, IsBytes}
use icarus.MemMap.Defs.{MemRegion, MemMap, set_mem_region}
use icarus.MemMap.Layout.{
  frame_count, limit, bits_end, IsRegion, Laid, IsLaid, used_in, used, Padded, Within, size-le,
  low-le-Within, AllSmall,
}
use icarus.MemMap.Ranges.{set_mem_region-Marked}
use icarus.MemMap.Alloc.{
  frame_alloc_failed, scan_region, frame_addr, alloc_in, map_alloc_frame_contiguous,
}
use icarus.MemMap.Alloc.Result.{FreeFrames, RegionResult, run, no_run, scan_region-RegionResult}

-- no region has both the count and a run of `n` free frames
abbrev pub Exhausted : ℕ → Bytes → List MemRegion → Type 0
Exhausted n d [] = Unit
Exhausted n d (r ∷ rs) =
    ((r.free_frames < n) ⊎ ((f : ℕ) → f + n ≤ frame_count r → FreeFrames d r f n → ⊥))
    × Exhausted n d rs

-- What the search over the regions `rs` for `n` frames returns.
pub data AllocResult (rs : List MemRegion) (m : MemMap) (n : ℕ) : ℕ × MemMap → Type 0 where
  allocated :
      {start : ℕ}
      → start % 4096 ≡ 0
      → Within start (start + n * 4096) rs
      → ((a : ℕ) → start ≤ a → a < start + n * 4096 → used_in m.bitmap.bytes rs a ≡ 0)
      → AllocResult rs m n (start, (set_mem_region m start (start + n * 4096)).1)
  exhausted : Exhausted n m.bitmap.bytes rs → AllocResult rs m n (frame_alloc_failed, m)

run-inv :
    {d : Bytes} {r : MemRegion} {n f : ℕ}
    → RegionResult d r n (some f)
    → (f + n ≤ frame_count r) × FreeFrames d r f n
run-inv (run le free least) = (le, free)

no_run-inv :
    {d : Bytes} {r : MemRegion} {n : ℕ}
    → RegionResult d r n none
    → (f : ℕ) → f + n ≤ frame_count r
    → FreeFrames d r f n
    → ⊥
no_run-inv (no_run h) = h

module _ (m : MemMap) (n : ℕ) (pos : 0 < n) where
  -- a result for the later regions is one for all
  skip :
      (lo b size : ℕ) (r : MemRegion) (rs : List MemRegion) (out : ℕ × MemMap)
      → Laid lo b size (r ∷ rs)
      → ((r.free_frames < n)
          ⊎ ((f : ℕ) → f + n ≤ frame_count r → FreeFrames m.bitmap.bytes r f n → ⊥))
      → AllocResult rs m n out
      → AllocResult (r ∷ rs) m n out
  unfolding used_in
  skip lo b size r rs _ h without (allocated {start} al w free) =
      let ge = low-le-Within (limit r) (bits_end b r) size start (start + n * 4096) rs h.1 w in
      allocated al (inr w) (λ a from upto. ground (arith, free a from upto))
  skip lo b size r rs _ h without (exhausted e) = exhausted (without, e)

  -- the run that was found in the region, as addresses
  in_region :
      (lo b f : ℕ) (r : MemRegion) (rs : List MemRegion)
      → IsRegion lo b r
      → r.qword_count * 64 ≤ 2 ^ 20
      → f + n ≤ frame_count r
      → FreeFrames m.bitmap.bytes r f n
      → let start = frame_addr r f in
        AllocResult (r ∷ rs) m n (start, (set_mem_region m start (add64 start (mul64 n 4096))).1)
  unfolding frame_addr used_in
  in_region lo b f r rs h small le free =
      let e : add64 r.start_addr (mul32 f 4096) ≡ r.start_addr + f * 4096 =
        omega (arith, h.qwords, h.len_aligned, h.end_fits) in
      let e' : add64 (r.start_addr + f * 4096) (mul64 n 4096) ≡ r.start_addr + f * 4096 + n * 4096 =
        omega (arith, h.len_aligned, h.end_fits) in
      rw (e, e')
        (allocated {start = r.start_addr + f * 4096} (omega (arith, h.start_aligned))
          (inl (omega arith, omega (arith, h.len_aligned)))
          λ a from upto.
            let k : ℕ = (a - r.start_addr) / 4096 - f in
            let i : r.bitmap_start_addr + f + k ≡ r.bitmap_start_addr + (a - r.start_addr) / 4096 =
              omega arith in
            ground (arith, h.len_aligned, rw i at (free k (omega arith))))

  alloc_in-AllocResult :
      (lo b size : ℕ) (rs : List MemRegion)
      → Laid lo b size rs
      → b % 64 ≡ 0
      → size + 2 ^ 33 < 2 ^ 64
      → IsBytes m.bitmap.bytes
      → Padded 1 m.bitmap.bytes rs
      → AllSmall rs
      → AllocResult rs m n (alloc_in rs m n)
  unfolding alloc_in
  alloc_in-AllocResult lo b size [] h al fits is padded small = exhausted tt
  alloc_in-AllocResult lo b size (r ∷ rs) h al fits is padded small =
      let later =
        alloc_in-AllocResult (limit r) (bits_end b r) size rs h.1 (omega arith) fits is padded.1
          small.1 in
      let below = size-le (limit r) (bits_end b r) size rs h.1 in
      let here =
        scan_region-RegionResult lo b n m.bitmap.bytes r is h.0 pos al (omega (arith, small.0))
          (omega arith) padded.0 in
      elim (Bool-cases (ltb r.free_frames n)) [
        | inl few ↦ rw few (skip lo b size r rs _ h (inl (ground arith)) later)
        | inr enough ↦ elim (Option-cases (scan_region m.bitmap.bytes r n)) [
          | inl e ↦
              rw (enough, e, alloc_in)
                (skip lo b size r rs _ h
                  (inr (no_run-inv (subst (RegionResult m.bitmap.bytes r n) e here))) later)
          | inr (f, e) ↦
              let (le, free) = run-inv (subst (RegionResult m.bitmap.bytes r n) e here) in
              rw (enough, e, alloc_in) (in_region lo b f r rs h.0 small.0 le free)
        ]
      ]

-- A successful call for `n` frames: the range lay in one region and was free, and is now used; nothing
-- else is.
pub record Reserved (n : ℕ) (m : MemMap) (out : ℕ × MemMap) : Type 0 where
  pub start_aligned : out.0 % 4096 ≡ 0
  pub inside : Within out.0 (out.0 + n * 4096) out.1.regions
  pub was_free : (a : ℕ) → out.0 ≤ a → a < out.0 + n * 4096 → used m a ≡ 0
  pub now_used :
      (a : ℕ) → used out.1 a ≡ (if leb out.0 a && ltb a (out.0 + n * 4096) then 1 else used m a)
  pub kept : (x y : ℕ) → Within x y m.regions → Within x y out.1.regions

-- The state that the allocator works on.
pub record IsReady (m : MemMap) : Type 0 where
  pub layout : IsLaid m
  pub padding : Padded 1 m.bitmap.bytes m.regions
  pub small : AllSmall m.regions

module _ (m : MemMap) (n : ℕ) (ready : IsReady m) (pos : 0 < n) where
  to_outcome :
      (out : ℕ × MemMap)
      → AllocResult m.regions m n out
      → IsReady out.1
        × (Reserved n m out
            ⊎ ((out.0 ≡ frame_alloc_failed) × (out.1 ≡ m) × Exhausted n m.bitmap.bytes m.regions))
  unfolding used
  to_outcome _ (allocated {start} al w free) =
      let mk = set_mem_region-Marked m start n ready.layout al pos w in
      (
        record {
          layout = mk.laid;
          padding = mk.padding 1 ready.padding;
          small = mk.small ready.small;
        },
        inl (record {
          start_aligned = al;
          inside = mk.inside start (start + n * 4096) w;
          was_free = free;
          now_used = mk.frames;
          kept = mk.inside;
        }),
      )
  to_outcome _ (exhausted e) = (ready, inr (refl, refl, e))

  -- On a map that is laid out, with its padding used and regions of at most 4 GiB, a call of
  -- `map_alloc_frame_contiguous` for at least one frame either reserves a page-aligned run of free
  -- frames inside one region, and changes the use of no other address, or returns FRAME_ALLOC_FAILED,
  -- leaves the map alone, and then every region has fewer free frames counted than were asked for or
  -- no run of that many; the map stays fit for the next call.
  pub map_alloc_frame_contiguous_outcome :
      let out = map_alloc_frame_contiguous m n in
      IsReady out.1
      × (Reserved n m out
          ⊎ ((out.0 ≡ frame_alloc_failed) × (out.1 ≡ m) × Exhausted n m.bitmap.bytes m.regions))
  unfolding map_alloc_frame_contiguous
  map_alloc_frame_contiguous_outcome = to_outcome _ (
      alloc_in-AllocResult m n pos 0 0 m.bitmap.size m.regions ready.layout.laid (omega arith)
        ready.layout.small ready.layout.cells ready.padding ready.small)
