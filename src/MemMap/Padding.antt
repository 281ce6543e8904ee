-- ===== src/MemMap/Padding.antt =====
-- What a call of `set_mem_region` of src/kernel/Memory/PMM/mem_map.c on any range keeps: a loop for a
-- range inside a region does not reach its padding.
pub mod Zero
use icarus.Prelude.{
  ℕ, zero, suc, ◌+◌, ◌-◌, ◌*◌, ◌/◌, ◌%◌, ◌^◌, ◌≤◌, ◌<◌, ◌≡◌, refl, sym, ap, ◌∙◌, ◌⊎◌, arith, ltb,
  leb, ◌||◌, Option, none, some, if◌then◌else◌, List, [], ◌∷◌, length, get_elem?, set, last_of,
  true, Bool-cases, Option-cases, some_inj, inl, inr, ◌&&◌,
}
use mathlib.Core.Path.{subst}
use icarus.Prelude.Bits.{testbit, testbit-zero}
use icarus.Prelude.Words.{add64, sub64, mul64}
use icarus.BitMap.{
  Status, Bytes, BitMap, bit, WritesRange, bitmap_set_len, bitmap_set_len-WritesRange,
}
use icarus.MemMap.Defs.{
  MemRegion, MemMap, on_fitting, in_region, take_frames, within_map, region_end, set_mem_region,
  put_count, pad_regions, zero_bytes, zero_mem_map,
}
use icarus.MemMap.Layout.{
  frame_count, limit, bits_end, IsRegion, Laid, IsLaid, Padded, Padded-above, size-le,
}

-- A region's frames are all that a call on a range inside it can touch.
module _ (s e lo b : ℕ) (r : MemRegion) (bm : BitMap) (h : IsRegion lo b r) (ge : r.start_addr ≤ s)
    (order : s ≤ e) (le : e ≤ limit r) (in_size : bits_end b r ≤ bm.size)
    (small : bm.size + 2 ^ 33 < 2 ^ 64) where
  take_frames-outside :
      let bm' = (take_frames s (sub64 e s) r bm).1 in
      (bm'.size ≡ bm.size)
      × ((j : ℕ) → (j < b) ⊎ (b + frame_count r ≤ j) → bit bm'.bytes j ≡ bit bm.bytes j)
  unfolding take_frames
  take_frames-outside =
      let i : ℕ = add64 r.bitmap_start_addr (sub64 s r.start_addr / 4096) in
      let n : ℕ = sub64 e s / 4096 in
      let from : i ≡ b + (s - r.start_addr) / 4096 =
        omega (arith, h.begins, h.end_fits, h.qwords) in
      let upto : (s - r.start_addr) / 4096 + n ≤ frame_count r = omega (arith, h.end_fits) in
      let w = bitmap_set_len-WritesRange bm i n (omega arith) in
      (
        w.size,
        λ j out. elim w.outcome [
          | inl (_, _, f) ↦ ground (arith, f j)
          | inr (_, _, same) ↦ ap (λ (x : BitMap). bit x.bytes j) same
        ],
      )

in_region-inside :
    (s e : ℕ) (r : MemRegion)
    → in_region s e r ≡ true
    → limit r < 2 ^ 64
    → (r.start_addr ≤ s) × (e ≤ limit r)
unfolding in_region
in_region-inside s e r hit lt = ground arith

-- the count of free frames is no part of the layout
pub counted-IsRegion :
    (lo b x : ℕ) (r : MemRegion) → IsRegion lo b r → IsRegion lo b (record r { free_frames = x })
counted-IsRegion lo b x r h = record {
  low = h.low;
  start_aligned = h.start_aligned;
  len_aligned = h.len_aligned;
  end_fits = h.end_fits;
  qwords = h.qwords;
  begins = h.begins;
}

taken-IsRegion :
    (s len lo b : ℕ) (r : MemRegion) (bm : BitMap)
    → IsRegion lo b r
    → IsRegion lo b (take_frames s len r bm).0
unfolding take_frames
taken-IsRegion s len lo b r bm h = counted-IsRegion lo b (sub64 r.free_frames (len / 4096)) r h

-- What a pass of `set_mem_region` keeps, whatever its range.
record Keeps (lo b : ℕ) (rs : List MemRegion) (bm : BitMap) (out : List MemRegion × BitMap)
    : Type 0 where
  size : out.1.size ≡ bm.size
  laid : Laid lo b bm.size out.0
  below : (j : ℕ) → j < b → bit out.1.bytes j ≡ bit bm.bytes j
  padding : Padded 0 bm.bytes rs → Padded 0 out.1.bytes out.0

module _ (s e : ℕ) (order : s ≤ e) where
  pass-Keeps :
      (lo b : ℕ) (rs : List MemRegion) (bm : BitMap)
      → Laid lo b bm.size rs
      → bm.size + 2 ^ 33 < 2 ^ 64
      → Keeps lo b rs bm (on_fitting (in_region s e) (take_frames s (sub64 e s)) rs bm)
  unfolding on_fitting take_frames
  pass-Keeps lo b [] bm h small = record {
    size = refl;
    laid = h;
    below = λ j lt. refl;
    padding = λ p. p;
  }
  pass-Keeps lo b (r ∷ rs) bm h small =
      let in_size = size-le (limit r) (bits_end b r) bm.size rs h.1 in
      elim (Bool-cases (in_region s e r)) [
        | inl hit ↦
            let (ge, le) = in_region-inside s e r hit h.0.end_fits in
            let (size, out) = take_frames-outside s e lo b r bm h.0 ge order le in_size small in
            rw hit (record {
              size = size;
              laid = (taken-IsRegion s (sub64 e s) lo b r bm h.0, h.1);
              below = λ j lt. out j (inl lt);
              padding = λ p. (
                λ k from upto.
                    ground (arith, h.0.begins, out (r.bitmap_start_addr + k), p.0 k from upto),
                Padded-above 0 (limit r) (bits_end b r) bm.size rs bm.bytes _ h.1
                    (λ j far. out j (inr (omega (arith, h.0.qwords)))) p.1,
              );
            })
        | inr miss ↦
            let k = pass-Keeps (limit r) (bits_end b r) rs bm h.1 small in
            rw miss (record {
              size = k.size;
              laid = (h.0, k.laid);
              below = λ j lt. k.below j (omega arith);
              padding = λ p. (
                λ i from upto.
                    k.below (r.bitmap_start_addr + i) (omega (arith, h.0.begins)) ∙ p.0 i from upto,
                k.padding p.1,
              );
            })
      ]

-- What every step of `zero_mem_map` keeps: the layout, and that the padding is free.
pub record IsClear (m : MemMap) : Type 0 where
  pub laid : Laid 0 0 m.bitmap.size m.regions
  pub small : m.bitmap.size < 2 ^ 51
  pub padding : Padded 0 m.bitmap.bytes m.regions

pub set_mem_region-IsClear :
    (m : MemMap) (s e : ℕ) → s ≤ e → IsClear m → IsClear (set_mem_region m s e).1
unfolding set_mem_region within_map
set_mem_region-IsClear m s e order h = within m.regions
  where
    loop : List MemRegion → BitMap → List MemRegion × BitMap
    loop = on_fitting (in_region s e) (take_frames s (sub64 e s))

    k : Keeps 0 0 m.regions m.bitmap (loop m.regions m.bitmap)
    k = pass-Keeps s e order 0 0 m.regions m.bitmap h.laid (omega (arith, h.small))

    done :
        IsClear
          (record m { regions = (loop m.regions m.bitmap).0; bitmap = (loop m.regions m.bitmap).1 })
    done = record {
      laid = subst (λ z. Laid 0 0 z (loop m.regions m.bitmap).0) (sym k.size) k.laid;
      small = omega (arith, k.size, h.small);
      padding = k.padding h.padding;
    }

    within : (rs : List MemRegion) → IsClear (within_map s e loop m rs).1
    within [] = h
    within (r ∷ rs) = elim (Bool-cases (ltb s r.start_addr || ltb (region_end (last_of r rs)) e)) [
      | inl out ↦ rw out h
      | inr fit ↦ rw fit done
    ]
