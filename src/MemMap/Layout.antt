-- ===== src/MemMap/Layout.antt =====
-- The layout that the functions of src/kernel/Memory/PMM/mem_map.c keep: regions in ascending order,
-- each with its own whole qwords of the bitmap, and the frames that the bits stand for.
use icarus.Prelude.{
  ℕ, ◌+◌, ◌-◌, ◌*◌, ◌/◌, ◌%◌, ◌^◌, ◌≤◌, ◌<◌, ◌≡◌, refl, ◌∙◌, ◌⊎◌, inl, inr, arith, ltb, leb, ◌&&◌,
  if◌then◌else◌, List, [], ◌∷◌,
}
use icarus.BitMap.{Bytes, IsBytes, bit}
use icarus.MemMap.Defs.{MemRegion, MemMap}

-- the frames of a region, without the padding of its last qword
abbrev pub frame_count : MemRegion → ℕ
frame_count r = r.len_bytes / 4096

-- the first address behind a region, and the first bit behind its bits when they begin at `b`
abbrev pub limit : MemRegion → ℕ
limit r = r.start_addr + r.len_bytes

abbrev pub bits_end : ℕ → MemRegion → ℕ
bits_end b r = b + r.qword_count * 64

-- `r` begins at `lo` or above, and its bits begin at `b`
pub record IsRegion (lo b : ℕ) (r : MemRegion) : Type 0 where
  pub low : lo ≤ r.start_addr
  pub start_aligned : r.start_addr % 4096 ≡ 0
  pub len_aligned : r.len_bytes % 4096 ≡ 0
  pub end_fits : r.start_addr + r.len_bytes < 2 ^ 64
  pub qwords : r.qword_count ≡ (frame_count r + 63) / 64
  pub begins : r.bitmap_start_addr ≡ b

-- Regions above `lo`, whose bits follow one another from `b` up to `size`.
abbrev pub Laid : ℕ → ℕ → ℕ → List MemRegion → Type 0
Laid lo b size [] = b ≡ size
Laid lo b size (r ∷ rs) = IsRegion lo b r × Laid (limit r) (bits_end b r) size rs

pub record IsLaid (m : MemMap) : Type 0 where
  pub laid : Laid 0 0 m.bitmap.size m.regions
  pub cells : IsBytes m.bitmap.bytes
  pub small : m.bitmap.size + 2 ^ 33 < 2 ^ 64

-- The bit of the frame at the address `a`; an address in no region counts as used.
unfoldable pub used_in : Bytes → List MemRegion → ℕ → ℕ
used_in d [] a = 1
used_in d (r ∷ rs) a =
    if leb r.start_addr a && ltb a (limit r)
    then bit d (r.bitmap_start_addr + (a - r.start_addr) / 4096)
    else used_in d rs a

unfoldable pub used : MemMap → ℕ → ℕ
unfolding used_in
used m a = used_in m.bitmap.bytes m.regions a

-- every padding bit is `v`
abbrev pub Padded : ℕ → Bytes → List MemRegion → Type 0
Padded v d [] = Unit
Padded v d (r ∷ rs) =
    ((k : ℕ) → frame_count r ≤ k → k < r.qword_count * 64 → bit d (r.bitmap_start_addr + k) ≡ v)
    × Padded v d rs

-- every region is so small (4 GiB) that the offset of a frame fits a uint32_t
abbrev pub AllSmall : List MemRegion → Type 0
AllSmall [] = Unit
AllSmall (r ∷ rs) = (r.qword_count * 64 ≤ 2 ^ 20) × AllSmall rs

-- the addresses from `s` up to `e` lie in one region
abbrev pub Within : ℕ → ℕ → List MemRegion → Type 0
Within s e [] = ⊥
Within s e (r ∷ rs) = ((r.start_addr ≤ s) × (e ≤ limit r)) ⊎ Within s e rs

pub size-le : (lo b size : ℕ) (rs : List MemRegion) → Laid lo b size rs → b ≤ size
size-le lo b size [] h = omega arith
size-le lo b size (r ∷ rs) h = omega (arith, size-le (limit r) (bits_end b r) size rs h.1)

pub low-le-Within :
    (lo b size s e : ℕ) (rs : List MemRegion) → Laid lo b size rs → Within s e rs → lo ≤ s
low-le-Within lo b size s e [] h w = absurd w
low-le-Within lo b size s e (r ∷ rs) h (inl w) = omega (arith, h.0.low)
low-le-Within lo b size s e (r ∷ rs) h (inr w) =
    omega (arith, h.0.low, low-le-Within (limit r) (bits_end b r) size s e rs h.1 w)

-- Bits below those of the regions do not matter.
pub used_in-above :
    (lo b size : ℕ) (rs : List MemRegion) (d d' : Bytes)
    → Laid lo b size rs
    → ((j : ℕ) → b ≤ j → bit d' j ≡ bit d j)
    → (a : ℕ) → used_in d' rs a ≡ used_in d rs a
unfolding used_in
used_in-above lo b size [] d d' h same a = refl
used_in-above lo b size (r ∷ rs) d d' h same a = ground (
  arith,
  h.0.begins,
  same (r.bitmap_start_addr + (a - r.start_addr) / 4096),
  used_in-above (limit r) (bits_end b r) size rs d d' h.1 (λ j le. same j (omega arith)) a,
)

pub Padded-above :
    (v lo b size : ℕ) (rs : List MemRegion) (d d' : Bytes)
    → Laid lo b size rs
    → ((j : ℕ) → b ≤ j → bit d' j ≡ bit d j)
    → Padded v d rs
    → Padded v d' rs
Padded-above v lo b size [] d d' h same p = tt
Padded-above v lo b size (r ∷ rs) d d' h same p = (
  λ k ge lt. same (r.bitmap_start_addr + k) (omega (arith, h.0.begins)) ∙ p.0 k ge lt,
  Padded-above v (limit r) (bits_end b r) size rs d d' h.1 (λ j le. same j (omega arith)) p.1,
)
