-- ===== src/MemMap/Padding/Zero.antt =====
-- `zero_mem_map` of src/kernel/Memory/PMM/mem_map.c and the padding of the regions.
use icarus.Prelude.{
  leb, ◌&&◌, ℕ, zero, suc, ◌+◌, ◌*◌, ◌/◌, ◌%◌, ◌^◌, ◌≤◌, ◌<◌, ◌≡◌, refl, arith, ltb, some, List, [],
  ◌∷◌, length, get_elem?, set, true, Option-cases, some_inj, inl, inr,
}
use mathlib.Core.Path.{subst}
use icarus.Prelude.Bits.{testbit-zero}
use icarus.Prelude.Words.{add64, mul64}
use icarus.MemUtils.Laws.{imemset_lem}
use icarus.BitMap.{Bytes, BitMap, bit}
use icarus.MemMap.Defs.{MemRegion, MemMap, put_count, pad_regions, zero_bytes, zero_mem_map}
use icarus.MemMap.Layout.{limit, bits_end, IsRegion, Laid, IsLaid, Padded, size-le}
use icarus.MemMap.Padding.{IsClear, counted-IsRegion, set_mem_region-IsClear}

set-Laid :
    (lo b size x i : ℕ) (rs : List MemRegion) (r : MemRegion)
    → get_elem? rs i ≡ some r
    → Laid lo b size rs
    → Laid lo b size (set rs i (record r { free_frames = x }))
set-Laid lo b size x i [] r e h = h
set-Laid lo b size x zero (q ∷ rs) r e h =
    let same : q ≡ r = some_inj e in
    (
      subst (λ t. IsRegion lo b (record t { free_frames = x })) same
          (counted-IsRegion lo b x q h.0),
      subst (λ t. Laid (limit t) (bits_end b t) size rs) same h.1,
    )
set-Laid lo b size x (suc i) (q ∷ rs) r e h =
    (h.0, set-Laid (limit q) (bits_end b q) size x i rs r e h.1)

set-Padded :
    (d : Bytes) (x i : ℕ) (rs : List MemRegion) (r : MemRegion)
    → get_elem? rs i ≡ some r
    → Padded 0 d rs
    → Padded 0 d (set rs i (record r { free_frames = x }))
set-Padded d x i [] r e h = h
set-Padded d x zero (q ∷ rs) r e h =
    subst (λ t. Padded 0 d (record t { free_frames = x } ∷ rs)) (some_inj e) h
set-Padded d x (suc i) (q ∷ rs) r e h = (h.0, set-Padded d x i rs r e h.1)

put_count-IsClear : (i x : ℕ) (m : MemMap) → IsClear m → IsClear (put_count i x m)
unfolding put_count
put_count-IsClear i x m h = elim (Option-cases (get_elem? m.regions i)) [
  | inl e ↦ rw (e, put_count) h
  | inr (r, e) ↦
      rw (e, put_count)
        (record {
          laid = set-Laid 0 0 m.bitmap.size x i m.regions r e h.laid;
          small = h.small;
          padding = set-Padded m.bitmap.bytes x i m.regions r e h.padding;
        })
]

-- the bits of a registered region lie in the bitmap
get_elem?-bits :
    (lo b size i : ℕ) (rs : List MemRegion) (r : MemRegion)
    → get_elem? rs i ≡ some r
    → Laid lo b size rs
    → (r.bitmap_start_addr + r.qword_count * 64 ≤ size) × (r.len_bytes ≤ r.qword_count * 64 * 4096)
get_elem?-bits lo b size i [] r e h = cc
get_elem?-bits lo b size zero (q ∷ rs) r e h =
    let up = size-le (limit q) (bits_end b q) size rs h.1 in
    subst
      (λ t.
        (t.bitmap_start_addr + t.qword_count * 64 ≤ size)
        × (t.len_bytes ≤ t.qword_count * 64 * 4096))
      (some_inj e) (omega (arith, h.0.begins), omega (arith, h.0.qwords, h.0.len_aligned))
get_elem?-bits lo b size (suc i) (q ∷ rs) r e h =
    get_elem?-bits (limit q) (bits_end b q) size i rs r e h.1

pad_regions-IsClear : (n i : ℕ) (m : MemMap) → IsClear m → IsClear (pad_regions n i m)
unfolding pad_regions
pad_regions-IsClear zero i m h = h
pad_regions-IsClear (suc n) i m h = elim (Option-cases (get_elem? m.regions i)) [
  | inl e ↦ rw (e, pad_regions) h
  | inr (r, e) ↦
      let (fits, len) = get_elem?-bits 0 0 m.bitmap.size i m.regions r e h.laid in
      let order : add64 r.bitmap_start_addr r.len_bytes
          ≤ add64 r.bitmap_start_addr (mul64 (mul64 r.qword_count 64) 4096) =
        omega (arith, h.small) in
      rw (e, pad_regions)
        (pad_regions-IsClear n (suc i) _
          (put_count-IsClear i r.free_frames _ (set_mem_region-IsClear m _ _ order h)))
]

zero_bytes-free :
    (bm : BitMap) (j : ℕ) → bm.size % 8 ≡ 0 → j < bm.size → bit (zero_bytes bm).bytes j ≡ 0
unfolding zero_bytes bit
zero_bytes-free bm j al lt =
    let inside : leb 0 (j / 8) && ltb (j / 8) (0 + bm.size / 8) ≡ true = ground arith in
    rw (imemset_lem, inside) (testbit-zero (j % 8))

zero_bytes-Padded :
    (lo b : ℕ) (rs : List MemRegion) (bm : BitMap)
    → Laid lo b bm.size rs
    → bm.size % 8 ≡ 0
    → Padded 0 (zero_bytes bm).bytes rs
zero_bytes-Padded lo b [] bm h al = tt
zero_bytes-Padded lo b (r ∷ rs) bm h al =
    let in_size = size-le (limit r) (bits_end b r) bm.size rs h.1 in
    (
      λ k from upto. zero_bytes-free bm (r.bitmap_start_addr + k) al (omega (arith, h.0.begins)),
      zero_bytes-Padded (limit r) (bits_end b r) rs bm h.1 al,
    )

size-aligned : (lo b size : ℕ) (rs : List MemRegion) → Laid lo b size rs → b % 8 ≡ 0 → size % 8 ≡ 0
size-aligned lo b size [] h al = omega arith
size-aligned lo b size (r ∷ rs) h al =
    size-aligned (limit r) (bits_end b r) size rs h.1 (omega arith)

-- On a map of fewer than 2 ^ 51 bits that is laid out, `zero_mem_map` leaves every padding bit free (0),
-- and its result is laid out as well.
pub zero_mem_map-Padded :
    (m : MemMap)
    → IsLaid m
    → m.bitmap.size < 2 ^ 51
    → let m' = zero_mem_map m in
      Padded 0 m'.bitmap.bytes m'.regions × Laid 0 0 m'.bitmap.size m'.regions
unfolding zero_mem_map zero_bytes
zero_mem_map-Padded m h small =
    let c =
      pad_regions-IsClear (length m.regions) 0 (record m { bitmap = zero_bytes m.bitmap })
        (record {
          laid = h.laid;
          small = small;
          padding =
              zero_bytes-Padded 0 0 m.regions m.bitmap h.laid
                (size-aligned 0 0 m.bitmap.size m.regions h.laid refl);
        }) in
    (c.padding, c.laid)
