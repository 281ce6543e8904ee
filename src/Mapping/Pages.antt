-- ===== src/Mapping/Pages.antt =====
-- Which pages the loops of src/kernel/Memory/memory_mapping.c and src/kernel/Memory/DMA/MMIO.c map.
use icarus.Prelude.{ℕ, zero, suc, ◌+◌, ◌-◌, ◌*◌, ◌/◌, ◌^◌, ◌≤◌, ◌<◌, List, [], ◌∷◌}
use icarus.BitMap.{Status, ok, failed, fault}
use icarus.MemMap.Defs.{MemRegion}
use icarus.MemMap.Layout.{limit}
use icarus.Paging.{Space}
use icarus.Mapping.{Plan, page_at, region_plan}

-- pages mapped one after the other, up to the first that fails
abbrev pub and_then : (Space → Status × Space) → Status × Space → Status × Space
and_then next (ok, s) = next s
and_then next (failed, s) = (failed, s)
and_then next (fault, s) = (failed, s)

abbrev pub each_page : Plan → (pml4 : ℕ) → List ℕ → Space → Status × Space
each_page plan pml4 [] s = (ok, s)
each_page plan pml4 (i ∷ is) s = and_then (each_page plan pml4 is) (page_at plan pml4 i s)

-- `n` indices from `i` on
abbrev pub steps : (step n i : ℕ) → List ℕ
steps step zero i = []
steps step (suc n) i = i ∷ steps step n (i + step)

-- the least number of steps from `i` that pass `end`
abbrev pub Covers : (step end n i : ℕ) → Type 0
Covers step end zero i = end ≤ i
Covers step end (suc n) i = (i < end) × Covers step end n (i + step)

-- the pages of a size that hold a byte of a range
abbrev mmio_pages : (size : ℕ) → ℕ
mmio_pages size = (size + 4095) / 4096

-- the regions one after the other, each with the pages of 2 MiB that begin in it
abbrev pub region_pages : MemRegion → List ℕ
region_pages r =
    let first = (r.start_addr + 2097151) / 2097152 * 2097152 in
    steps 2097152 ((limit r - first + 2097151) / 2097152) first

abbrev pub each_region : (pml4 : ℕ) → List MemRegion → Space → Status × Space
each_region pml4 [] s = (ok, s)
each_region pml4 (r ∷ rs) s =
    and_then (each_region pml4 rs) (each_page (region_plan r) pml4 (region_pages r) s)

-- regions that end early enough for the arithmetic on addresses, with rounds for their pages
abbrev pub Reachable : (rounds : ℕ) → List MemRegion → Type 0
Reachable rounds [] = Unit
Reachable rounds (r ∷ rs) =
    (limit r + 2 ^ 22 < 2 ^ 64)
    × ((limit r - r.start_addr) / 2097152 + 1 < rounds)
    × Reachable rounds rs
