-- ===== src/Paging/Frames.antt =====
-- The frames that src/kernel/Memory/paging.c takes its tables from: what it relies on of the allocator in
-- src/kernel/Memory/PMM/mem_map.c.
use icarus.Prelude.{ℕ, ◌%◌, ◌^◌, ◌≤◌, ◌<◌, ◌≡◌, ◌≢◌, inl, inr, arith, dec_lt}
use icarus.MemMap.Defs.{MemMap}
use icarus.MemMap.Layout.{used}
use icarus.MemMap.Alloc.{frame_alloc_failed, ialloc_kframe}
use icarus.MemMap.Alloc.Sound.{IsReady, Reserved, map_alloc_frame_contiguous_outcome}

-- The map is fit for allocation, and all free frames lie below 2 GiB.
pub record IsLow (m : MemMap) : Type 0 where
  pub ready : IsReady m
  pub low : (a : ℕ) → 2 ^ 31 ≤ a → used m a ≡ 1

-- What a call for one frame does, if it succeeds.
pub record Granted (m : MemMap) (out : ℕ × MemMap) : Type 0 where
  pub is_low : IsLow out.1
  pub aligned : out.0 % 4096 ≡ 0
  pub below : out.0 < 2 ^ 31
  pub was_free : used m out.0 ≡ 0
  pub now_used : used out.1 out.0 ≡ 1
  pub still_used : (a : ℕ) → used m a ≡ 1 → used out.1 a ≡ 1

pub ialloc_kframe-Granted :
    (m : MemMap) (size : ℕ)
    → IsLow m
    → (ialloc_kframe m 1 size).0 ≢ frame_alloc_failed
    → Granted m (ialloc_kframe m 1 size)
unfolding ialloc_kframe
ialloc_kframe-Granted m size h got =
    let (ready, outcome) = map_alloc_frame_contiguous_outcome m 1 h.ready (omega arith) in
    elim outcome [ inl r ↦ granted m _ h ready r | inr (failed, _, _) ↦ absurd (got failed) ]
  where
    granted :
        (m : MemMap) (out : ℕ × MemMap) → IsLow m → IsReady out.1 → Reserved 1 m out → Granted m out
    granted m out h ready r =
        let free = r.was_free out.0 (omega arith) (omega arith) in
        record {
          is_low = record { ready = ready; low = λ a le. ground (arith, r.now_used a, h.low a le) };
          aligned = r.start_aligned;
          below = elim (dec_lt out.0 (2 ^ 31)) [
            | yes lt ↦ lt
            | no ge ↦ absurd (omega (arith, free, h.low out.0 (omega arith)))
          ];
          was_free = free;
          now_used = ground (arith, r.now_used out.0);
          still_used = λ a u. ground (arith, r.now_used a);
        }
