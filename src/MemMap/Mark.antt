-- ===== src/MemMap/Mark.antt =====
-- The loop that `set_mem_region`, `zero_mem_region` and `map_dealloc_frame` of
-- src/kernel/Memory/PMM/mem_map.c share, over regions that are laid out: it changes exactly the
-- frames of the range.
use icarus.Prelude.{
  ℕ, ◌+◌, ◌-◌, ◌*◌, ◌/◌, ◌%◌, ◌^◌, ◌≤◌, ◌<◌, ◌≡◌, refl, ◌∙◌, inl, inr, ◌↔◌, arith, ltb, leb, ◌&&◌,
  if◌then◌else◌, List, [], ◌∷◌, Bool, true, Bool-cases,
}
use icarus.BitMap.{Bytes, IsBytes, BitMap, bit, Filled}
use icarus.MemMap.Defs.{MemRegion, on_fitting}
use icarus.MemMap.Layout.{
  limit, bits_end, IsRegion, Laid, used_in, Padded, Within, size-le, low-le-Within, AllSmall,
  used_in-above, Padded-above,
}

-- the bits from `f` on, `n` of them, have become `v`
pub record Changed (v f n : ℕ) (bm bm' : BitMap) : Type 0 where
  pub size : bm'.size ≡ bm.size
  pub cells : IsBytes bm.bytes → IsBytes bm'.bytes
  pub bits : Filled v f (f + n) bm.bytes bm'.bytes

abbrev with_free : (ℕ → ℕ) → MemRegion → MemRegion
with_free g r = record r { free_frames = g r.free_frames }

with_free-IsRegion :
    (g : ℕ → ℕ) (lo b : ℕ) (r : MemRegion) → IsRegion lo b r → IsRegion lo b (with_free g r)
with_free-IsRegion g lo b r h = record {
  low = h.low;
  start_aligned = h.start_aligned;
  len_aligned = h.len_aligned;
  end_fits = h.end_fits;
  qwords = h.qwords;
  begins = h.begins;
}

-- What a pass over the regions `rs`, whose bits begin at `b`, has done to the frames from the address
-- `s` up to `e`: they hold `v`, and every other frame and all padding are as before.
pub record Passed (v s e lo b : ℕ) (rs : List MemRegion) (bm : BitMap)
    (out : List MemRegion × BitMap) : Type 0 where
  pub size : out.1.size ≡ bm.size
  pub cells : IsBytes bm.bytes → IsBytes out.1.bytes
  pub laid : Laid lo b bm.size out.0
  pub same_used : (d : Bytes) (a : ℕ) → used_in d out.0 a ≡ used_in d rs a
  pub same_padding : (d : Bytes) (w : ℕ) → Padded w d rs → Padded w d out.0
  pub same_small : AllSmall rs → AllSmall out.0
  pub same_within : (x y : ℕ) → Within x y rs → Within x y out.0
  pub below : (j : ℕ) → j < b → bit out.1.bytes j ≡ bit bm.bytes j
  pub frames :
      (a : ℕ) → used_in out.1.bytes rs a ≡ (if leb s a && ltb a e then v else used_in bm.bytes rs a)
  pub padding : (w : ℕ) → Padded w bm.bytes rs → Padded w out.1.bytes rs

module _ (v s n : ℕ) (g : ℕ → ℕ) (fits : MemRegion → Bool)
    (act : MemRegion → BitMap → MemRegion × BitMap) (aligned : s % 4096 ≡ 0) (pos : 0 < n)
    (fits_iff : (r : MemRegion)
      → limit r < 2 ^ 64
      → (fits r ≡ true) ↔ ((r.start_addr ≤ s) × (s + n * 4096 ≤ limit r)))
    (act_region : (r : MemRegion) (bm : BitMap) → (act r bm).0 ≡ with_free g r)
    (act_bits : (lo b : ℕ) (r : MemRegion) (bm : BitMap)
      → IsRegion lo b r
      → r.start_addr ≤ s
      → s + n * 4096 ≤ limit r
      → bits_end b r ≤ bm.size
      → bm.size + 2 ^ 33 < 2 ^ 64
      → Changed v (b + (s - r.start_addr) / 4096) n bm (act r bm).1) where
  hit :
      (lo b : ℕ) (r : MemRegion) (rs : List MemRegion) (bm : BitMap)
      → Laid lo b bm.size (r ∷ rs)
      → bm.size + 2 ^ 33 < 2 ^ 64
      → r.start_addr ≤ s
      → s + n * 4096 ≤ limit r
      → Passed v s (s + n * 4096) lo b (r ∷ rs) bm (with_free g r ∷ rs, (act r bm).1)
  unfolding used_in
  hit lo b r rs bm h small ge le =
      let in_size : bits_end b r ≤ bm.size = size-le (limit r) (bits_end b r) bm.size rs h.1 in
      let c = act_bits lo b r bm h.0 ge le in_size small in
      let d' : Bytes = (act r bm).1.bytes in
      let above : (j : ℕ) → bits_end b r ≤ j → bit d' j ≡ bit bm.bytes j =
        λ j far. ground (arith, c.bits j) in
      record {
        size = c.size;
        cells = c.cells;
        laid = (with_free-IsRegion g lo b r h.0, h.1);
        same_used = λ d a. refl;
        same_padding = λ d w p. p;
        same_small = λ p. p;
        same_within = λ x y p. p;
        below = λ j near. ground (arith, c.bits j);
        frames = λ a. ground (
          arith,
          c.bits (r.bitmap_start_addr + (a - r.start_addr) / 4096),
          used_in-above (limit r) (bits_end b r) bm.size rs bm.bytes d' h.1 above a,
        );
        padding = λ w p. (
          λ k from upto. ground (arith, c.bits (r.bitmap_start_addr + k), p.0 k from upto),
          Padded-above w (limit r) (bits_end b r) bm.size rs bm.bytes d' h.1 above p.1,
        );
      }

  miss :
      (lo b : ℕ) (r : MemRegion) (rs : List MemRegion) (bm : BitMap) (out : List MemRegion × BitMap)
      → IsRegion lo b r
      → limit r ≤ s
      → Passed v s (s + n * 4096) (limit r) (bits_end b r) rs bm out
      → Passed v s (s + n * 4096) lo b (r ∷ rs) bm (r ∷ out.0, out.1)
  unfolding used_in
  miss lo b r rs bm out h before p = record {
    size = p.size;
    cells = p.cells;
    laid = (h, p.laid);
    same_used = λ d a. ground (arith, p.same_used d a);
    same_padding = λ d w q. (q.0, p.same_padding d w q.1);
    same_small = λ q. (q.0, p.same_small q.1);
    same_within = λ x y q. elim q [ inl i ↦ inl i | inr l ↦ inr (p.same_within x y l) ];
    below = λ j near. p.below j (omega arith);
    frames = λ a. ground (
      arith,
      h.begins,
      h.qwords,
      h.len_aligned,
      p.below (r.bitmap_start_addr + (a - r.start_addr) / 4096),
      p.frames a,
    );
    padding = λ w q. (
      λ k from upto. p.below (r.bitmap_start_addr + k) (omega (arith, h.begins)) ∙ q.0 k from upto,
      p.padding w q.1,
    );
  }

  -- The pass reaches the region that holds the range.
  pub on_fitting-Passed :
      (lo b : ℕ) (rs : List MemRegion) (bm : BitMap)
      → Laid lo b bm.size rs
      → bm.size + 2 ^ 33 < 2 ^ 64
      → Within s (s + n * 4096) rs
      → Passed v s (s + n * 4096) lo b rs bm (on_fitting fits act rs bm)
  unfolding on_fitting
  on_fitting-Passed lo b [] bm h small w = absurd w
  on_fitting-Passed lo b (r ∷ rs) bm h small w = elim (Bool-cases (fits r)) [
    | inl yes_fits ↦
        let (ge, le) = (fits_iff r h.0.end_fits).0 yes_fits in
        rw (yes_fits, act_region r bm) (hit lo b r rs bm h small ge le)
    | inr no_fit ↦ elim w [
      | inl inside ↦ absurd (cc (no_fit, (fits_iff r h.0.end_fits).1 inside))
      | inr later ↦ rw no_fit (
          miss lo b r rs bm _ h.0
            (low-le-Within (limit r) (bits_end b r) bm.size s (s + n * 4096) rs h.1 later)
            (on_fitting-Passed (limit r) (bits_end b r) rs bm h.1 small later))
    ]
  ]
