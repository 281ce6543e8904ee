-- ===== src/MemMap/Alloc/Result.antt =====
-- The scan of `map_alloc_frame_contiguous` in src/kernel/Memory/PMM/mem_map.c, read off one region that
-- is laid out, with its padding marked as used.
use icarus.Prelude.{
  ℕ, ◌+◌, ◌-◌, ◌*◌, ◌%◌, ◌^◌, ◌≤◌, ◌<◌, ◌≡◌, sym, ◌∙◌, arith, Option, none, some, dec_le,
}
use mathlib.Core.Path.{subst}
use icarus.BitMap.{Bytes, IsBytes, bit}
use icarus.MemMap.Defs.{MemRegion}
use icarus.MemMap.Layout.{frame_count, bits_end, IsRegion}
use icarus.MemMap.Alloc.{read_qword, scan_region}
use icarus.MemMap.Alloc.Scan.{Clear, ScanResult, first, nowhere, row_bit}
use icarus.MemMap.Alloc.FirstFit.{scan_first_fit}
use icarus.MemMap.Alloc.Qword.{read_qword-lt, row_bit-read_qword}

-- the frames `f` up to `f + n` of a region are free
abbrev pub FreeFrames : Bytes → MemRegion → ℕ → ℕ → Type 0
FreeFrames d r f n = (k : ℕ) → k < n → bit d (r.bitmap_start_addr + f + k) ≡ 0

-- What the scan of one region says of its frames.
pub data RegionResult (d : Bytes) (r : MemRegion) (n : ℕ) : Option ℕ → Type 0 where
  run :
      {f : ℕ}
      → f + n ≤ frame_count r
      → FreeFrames d r f n
      → ((s : ℕ) → s < f → FreeFrames d r s n → ⊥)
      → RegionResult d r n (some f)
  no_run : ((f : ℕ) → f + n ≤ frame_count r → FreeFrames d r f n → ⊥) → RegionResult d r n none

module _ (lo b n : ℕ) (d : Bytes) (r : MemRegion) (is : IsBytes d) (h : IsRegion lo b r)
    (pos : 0 < n) (aligned : b % 64 ≡ 0) (small : r.qword_count * 64 < 2 ^ 32)
    (fits : bits_end b r + 2 ^ 33 < 2 ^ 64) where
  word_bit :
      (i : ℕ)
      → i < r.qword_count * 64
      → row_bit (read_qword d r.bitmap_start_addr) i ≡ bit d (r.bitmap_start_addr + i)
  word_bit i lt =
      row_bit-read_qword d is r.bitmap_start_addr i (omega (arith, h.begins)) (omega arith)
        (omega (arith, h.begins))

  Clear-FreeFrames :
      (f : ℕ)
      → f + n ≤ r.qword_count * 64
      → Clear (read_qword d r.bitmap_start_addr) f n
      → FreeFrames d r f n
  Clear-FreeFrames f le c k lt =
      let e : r.bitmap_start_addr + f + k ≡ r.bitmap_start_addr + (f + k) = omega arith in
      rw e (sym (word_bit (f + k) (omega arith)) ∙ c k lt)

  FreeFrames-Clear :
      (f : ℕ)
      → f + n ≤ r.qword_count * 64
      → FreeFrames d r f n
      → Clear (read_qword d r.bitmap_start_addr) f n
  FreeFrames-Clear f le c k lt =
      let e : r.bitmap_start_addr + f + k ≡ r.bitmap_start_addr + (f + k) = omega arith in
      word_bit (f + k) (omega arith) ∙ (rw e at (c k lt))

  least-inv :
      (f : ℕ)
      → ScanResult (read_qword d r.bitmap_start_addr) r.qword_count n (some f)
      → (f + n ≤ r.qword_count * 64)
        × FreeFrames d r f n
        × ((s : ℕ) → s < f → FreeFrames d r s n → ⊥)
  least-inv f (first le c least) =
      (le, Clear-FreeFrames f le c, λ s lt fs. least s lt (FreeFrames-Clear s (omega arith) fs))

  region_scan : ScanResult (read_qword d r.bitmap_start_addr) r.qword_count n (scan_region d r n)
  unfolding scan_region
  region_scan =
      scan_first_fit (read_qword d r.bitmap_start_addr) n r.qword_count pos
        (read_qword-lt d is r.bitmap_start_addr) (omega arith)

  -- Whatever the padding holds, the frame found is the first of the lowest free run.
  pub scan_region-least :
      (f : ℕ)
      → scan_region d r n ≡ some f
      → (f + n ≤ r.qword_count * 64)
        × FreeFrames d r f n
        × ((s : ℕ) → s < f → FreeFrames d r s n → ⊥)
  scan_region-least f e =
      least-inv f
        (subst (ScanResult (read_qword d r.bitmap_start_addr) r.qword_count n) e region_scan)

  module _
      (padded : (k : ℕ)
        → frame_count r ≤ k
        → k < r.qword_count * 64
        → bit d (r.bitmap_start_addr + k) ≡ 1) where
    -- the padding is used, so a free run ends before it
    before_padding :
        (f : ℕ) → f + n ≤ r.qword_count * 64 → FreeFrames d r f n → f + n ≤ frame_count r
    before_padding f le c = elim (dec_le (f + n) (frame_count r)) [
      | yes in_frames ↦ in_frames
      | no over ↦
          let e : r.bitmap_start_addr + f + (n - 1) ≡ r.bitmap_start_addr + (f + (n - 1)) =
            omega arith in
          let free : bit d (r.bitmap_start_addr + (f + (n - 1))) ≡ 0 =
            rw e at (c (n - 1) (omega arith)) in
          absurd (omega (arith, padded (f + (n - 1)) (omega arith) (omega arith)))
    ]

    frames_in_qwords : frame_count r ≤ r.qword_count * 64
    frames_in_qwords = omega (arith, h.qwords)

    to_region :
        (o : Option ℕ)
        → ScanResult (read_qword d r.bitmap_start_addr) r.qword_count n o
        → RegionResult d r n o
    to_region (some f) (first le c least) =
        let free = Clear-FreeFrames f le c in
        run (before_padding f le free) free
          λ s lt fs. least s lt (FreeFrames-Clear s (omega arith) fs)
    to_region none (nowhere none_at) = no_run λ f le fs.
        let le' : f + n ≤ r.qword_count * 64 = omega (arith, frames_in_qwords) in
        none_at f le' (FreeFrames-Clear f le' fs)

    pub scan_region-RegionResult : RegionResult d r n (scan_region d r n)
    scan_region-RegionResult = to_region _ region_scan
