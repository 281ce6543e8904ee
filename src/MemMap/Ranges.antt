-- ===== src/MemMap/Ranges.antt =====
-- `set_mem_region`, `zero_mem_region` and `map_dealloc_frame` of src/kernel/Memory/PMM/mem_map.c on a
-- range inside one region.
use icarus.Prelude.{
  ℕ, ◌+◌, ◌-◌, ◌*◌, ◌/◌, ◌%◌, ◌^◌, ◌≤◌, ◌<◌, ◌≡◌, refl, ◌∙◌, inl, inr, ◌↔◌, arith, ltb, leb, ◌&&◌,
  ◌||◌, if◌then◌else◌, List, [], ◌∷◌, true, false, last_of,
}
use mathlib.Core.Path.{sym, subst}
use icarus.Prelude.Words.{add64, sub64}
use icarus.BitMap.{Status, ok, BitMap, bitmap_set_len-WritesRange, bitmap_clear_len-WritesRange}
use icarus.MemMap.Defs.{
  MemRegion, MemMap, on_fitting, take_frames, give_frames, region_end, in_region, within_map,
  set_mem_region, zero_mem_region, map_dealloc_frame,
}
use icarus.MemMap.Layout.{
  limit, bits_end, IsRegion, Laid, IsLaid, used, Padded, Within, low-le-Within, AllSmall,
}
use icarus.MemMap.Mark.{Changed, Passed, on_fitting-Passed}

-- What a call does that gives the frames from `s` up to `e` the value `v` (1 used, 0 free): it returns
-- 0, keeps the layout and the padding, and changes the use of no other address.
pub record Marked (v s e : ℕ) (m : MemMap) (r : Status × MemMap) : Type 0 where
  pub status : r.0 ≡ ok
  pub laid : IsLaid r.1
  pub frames : (a : ℕ) → used r.1 a ≡ (if leb s a && ltb a e then v else used m a)
  pub padding : (w : ℕ) → Padded w m.bitmap.bytes m.regions → Padded w r.1.bitmap.bytes r.1.regions
  pub small : AllSmall m.regions → AllSmall r.1.regions
  pub inside : (x y : ℕ) → Within x y m.regions → Within x y r.1.regions

last-limit :
    (lo b size s e : ℕ) (r : MemRegion) (rs : List MemRegion)
    → Laid lo b size (r ∷ rs)
    → (limit (last_of r rs) < 2 ^ 64)
      × (limit r ≤ limit (last_of r rs))
      × (Within s e (r ∷ rs) → e ≤ limit (last_of r rs))
last-limit lo b size s e r [] h = (h.0.end_fits, omega arith, λ w. ground arith)
last-limit lo b size s e r (q ∷ rs) h =
    let (fits, up, last) = last-limit (limit r) (bits_end b r) size s e q rs h.1 in
    (
      fits,
      omega (arith, h.1.0.low),
      λ w. elim w [ inl inside ↦ omega (arith, h.1.0.low) | inr later ↦ last later ],
    )

first-le :
    (b size s e : ℕ) (r : MemRegion) (rs : List MemRegion)
    → Laid 0 b size (r ∷ rs)
    → Within s e (r ∷ rs)
    → r.start_addr ≤ s
first-le b size s e r rs h (inl w) = w.0
first-le b size s e r rs h (inr w) =
    omega (arith, low-le-Within (limit r) (bits_end b r) size s e rs h.1 w)

-- The test before the loop passes, and the loop's outcome is the call's.
within_map-Marked :
    (v s e : ℕ) (loop : List MemRegion → BitMap → List MemRegion × BitMap) (m : MemMap)
    (rs : List MemRegion)
    → rs ≡ m.regions
    → IsLaid m
    → Within s e m.regions
    → Passed v s e 0 0 m.regions m.bitmap (loop m.regions m.bitmap)
    → Marked v s e m (within_map s e loop m rs)
unfolding within_map region_end used
within_map-Marked v s e loop m [] eq h w p = absurd (subst (λ l. Within s e l) (sym eq) w)
within_map-Marked v s e loop m (r ∷ rs) eq h w p =
    let w' : Within s e (r ∷ rs) = subst (λ l. Within s e l) (sym eq) w in
    let laid' : Laid 0 0 m.bitmap.size (r ∷ rs) =
      subst (λ l. Laid 0 0 m.bitmap.size l) (sym eq) h.laid in
    let (fits, up, last) = last-limit 0 0 m.bitmap.size s e r rs laid' in
    let ge = first-le 0 m.bitmap.size s e r rs laid' w' in
    let le = last w' in
    let pass : (ltb s r.start_addr || ltb (region_end (last_of r rs)) e) ≡ false = ground arith in
    rw pass (record {
      status = refl;
      laid = record {
        laid = subst (λ z. Laid 0 0 z (loop m.regions m.bitmap).0) (sym p.size) p.laid;
        cells = p.cells h.cells;
        small = omega (arith, p.size, h.small);
      };
      frames = λ a. p.same_used _ a ∙ p.frames a;
      padding = λ x q. p.same_padding _ x (p.padding x q);
      small = p.same_small;
      inside = p.same_within;
    })

-- the index of the bit of an address in a region, as the code computes it
bit_index :
    (lo b s : ℕ) (r : MemRegion)
    → IsRegion lo b r
    → r.start_addr ≤ s
    → s < 2 ^ 64
    → b + (s - r.start_addr) / 4096 < 2 ^ 64
    → add64 r.bitmap_start_addr (sub64 s r.start_addr / 4096) ≡ b + (s - r.start_addr) / 4096
bit_index lo b s r h ge hs small = omega (arith, h.begins)

module _ (s n lo b : ℕ) (r : MemRegion) (bm : BitMap) (aligned : s % 4096 ≡ 0) (h : IsRegion lo b r)
    (ge : r.start_addr ≤ s) (le : s + n * 4096 ≤ limit r) (in_size : bits_end b r ≤ bm.size)
    (small : bm.size + 2 ^ 33 < 2 ^ 64) where
  range_fits : b + (s - r.start_addr) / 4096 + n ≤ bm.size
  range_fits = omega (arith, h.qwords, h.len_aligned, h.start_aligned)

  take_frames-Changed :
      (len : ℕ)
      → len / 4096 ≡ n
      → Changed 1 (b + (s - r.start_addr) / 4096) n bm (take_frames s len r bm).1
  unfolding take_frames
  take_frames-Changed len e =
      let i = bit_index lo b s r h ge (omega (arith, h.end_fits)) (omega (arith, range_fits)) in
      let c = bitmap_set_len-WritesRange bm (b + (s - r.start_addr) / 4096) n (omega arith) in
      rw (i, e)
        (record {
          size = c.size;
          cells = c.cells;
          bits = elim c.outcome [
            | inl done ↦ done.2
            | inr (over, _, _) ↦ absurd (omega (arith, range_fits))
          ];
        })

  give_frames-Changed : Changed 0 (b + (s - r.start_addr) / 4096) n bm (give_frames s n r bm).1
  unfolding give_frames
  give_frames-Changed =
      let i = bit_index lo b s r h ge (omega (arith, h.end_fits)) (omega (arith, range_fits)) in
      let c = bitmap_clear_len-WritesRange bm (b + (s - r.start_addr) / 4096) n (omega arith) in
      rw i (record {
        size = c.size;
        cells = c.cells;
        bits = elim c.outcome [
          | inl done ↦ done.2
          | inr (over, _, _) ↦ absurd (omega (arith, range_fits))
        ];
      })

module _ (m : MemMap) (s n : ℕ) (h : IsLaid m) (aligned : s % 4096 ≡ 0) (pos : 0 < n)
    (w : Within s (s + n * 4096) m.regions) where
  end_lt :
      (lo b size : ℕ) (rs : List MemRegion)
      → Laid lo b size rs
      → Within s (s + n * 4096) rs
      → s + n * 4096 < 2 ^ 64
  end_lt lo b size [] l v = absurd v
  end_lt lo b size (r ∷ rs) l (inl v) = omega (arith, l.0.end_fits)
  end_lt lo b size (r ∷ rs) l (inr v) = end_lt (limit r) (bits_end b r) size rs l.1 v

  fits_iff :
      (r : MemRegion)
      → limit r < 2 ^ 64
      → (in_region s (s + n * 4096) r ≡ true) ↔ ((r.start_addr ≤ s) × (s + n * 4096 ≤ limit r))
  unfolding in_region
  fits_iff r lt = ground arith

  take_Passed :
      (len : ℕ)
      → len / 4096 ≡ n
      → Passed 1 s
          (s + n * 4096)
          0
          0
          m.regions
          m.bitmap
          (on_fitting (in_region s (s + n * 4096)) (take_frames s len) m.regions m.bitmap)
  unfolding take_frames
  take_Passed len e =
      on_fitting-Passed 1 s n (λ f. sub64 f (len / 4096)) (in_region s (s + n * 4096))
        (take_frames s len) aligned pos fits_iff (λ r bm. refl)
        (λ lo b r bm is ge le in_size small.
          take_frames-Changed s n lo b r bm aligned is ge le in_size small len e)
        0 0 m.regions m.bitmap h.laid h.small w

  abbrev give_loop : List MemRegion → BitMap → List MemRegion × BitMap
  give_loop = on_fitting (in_region s (s + n * 4096)) (give_frames s n)

  give_Passed :
      Passed 0 s
        (s + n * 4096)
        0
        0
        m.regions
        m.bitmap
        (on_fitting (in_region s (s + n * 4096)) (give_frames s n) m.regions m.bitmap)
  unfolding give_frames
  give_Passed =
      on_fitting-Passed 0 s n (λ f. add64 f n) (in_region s (s + n * 4096)) (give_frames s n)
        aligned pos fits_iff (λ r bm. refl)
        (λ lo b r bm is ge le in_size small.
          give_frames-Changed s n lo b r bm aligned is ge le in_size small)
        0 0 m.regions m.bitmap h.laid h.small w

  range_lt : s + n * 4096 < 2 ^ 64
  range_lt = end_lt 0 0 m.bitmap.size m.regions h.laid w

  -- On a map that is laid out, `set_mem_region` on a page-aligned, non-empty range of whole pages inside one region
  -- returns 0 and marks exactly its frames as used; layout and padding stay.
  pub set_mem_region-Marked : Marked 1 s (s + n * 4096) m (set_mem_region m s (s + n * 4096))
  unfolding set_mem_region
  set_mem_region-Marked =
      let lt = range_lt in
      let len : ℕ = sub64 (s + n * 4096) s in
      within_map-Marked 1 s (s + n * 4096)
        (on_fitting (in_region s (s + n * 4096)) (take_frames s len)) m m.regions refl h w
        (take_Passed len (omega arith))

  -- On a map that is laid out, `zero_mem_region` on a page-aligned, non-empty range of whole pages inside one region
  -- returns 0 and marks exactly its frames as free; layout and padding stay.
  zero_mem_region-Marked : Marked 0 s (s + n * 4096) m (zero_mem_region m s (s + n * 4096))
  unfolding zero_mem_region
  zero_mem_region-Marked =
      let lt = range_lt in
      let len : sub64 (s + n * 4096) s ≡ n * 4096 = omega arith in
      let count : n * 4096 / 4096 ≡ n = omega arith in
      let end : add64 s (n * 4096) ≡ s + n * 4096 = omega arith in
      rw (len, count, end)
        (within_map-Marked 0 s (s + n * 4096) give_loop m m.regions refl h w give_Passed)

  -- On a map that is laid out, `map_dealloc_frame` of a page-aligned page of at least one frame inside one region
  -- returns 0 and marks exactly its frames as free; layout and padding stay.
  pub map_dealloc_frame-Marked : Marked 0 s (s + n * 4096) m (map_dealloc_frame m s (n * 4096))
  unfolding map_dealloc_frame
  map_dealloc_frame-Marked =
      let lt = range_lt in
      let count : n * 4096 / 4096 ≡ n = omega arith in
      let end : add64 s (n * 4096) ≡ s + n * 4096 = omega arith in
      rw (count, end)
        (within_map-Marked 0 s (s + n * 4096) give_loop m m.regions refl h w give_Passed)
