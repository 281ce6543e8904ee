-- ===== src/MemMap/Alloc/Uses.antt =====
-- Sequences of calls of the frame allocator of src/kernel/Memory/PMM/mem_map.c.
use icarus.Prelude.{ℕ, ◌+◌, ◌*◌, ◌≤◌, ◌<◌, ◌≡◌, ◌≢◌, ◌⊎◌, inl, inr, arith, dec_le}
use icarus.BitMap.{ok}
use icarus.MemMap.Defs.{MemMap, map_dealloc_frame}
use icarus.MemMap.Layout.{used}
use icarus.MemMap.Ranges.{map_dealloc_frame-Marked}
use icarus.MemMap.Alloc.{frame_alloc_failed, map_alloc_frame_contiguous}
use icarus.MemMap.Alloc.Sound.{IsReady, Reserved, map_alloc_frame_contiguous_outcome}

-- a call that does not return FRAME_ALLOC_FAILED has reserved its range
reserved :
    (m : MemMap) (n : ℕ)
    → IsReady m
    → 0 < n
    → (map_alloc_frame_contiguous m n).0 ≢ frame_alloc_failed
    → IsReady (map_alloc_frame_contiguous m n).1 × Reserved n m (map_alloc_frame_contiguous m n)
reserved m n ready pos got =
    let (r, outcome) = map_alloc_frame_contiguous_outcome m n ready pos in
    elim outcome [ inl res ↦ (r, res) | inr (failed, _, _) ↦ absurd (got failed) ]

module _ (m : MemMap) (n : ℕ) (ready : IsReady m) (pos : 0 < n)
    (got : (map_alloc_frame_contiguous m n).0 ≢ frame_alloc_failed) where
  -- If two calls in a row, each for at least one frame, succeed on a ready map, then the ranges
  -- that they return do not overlap.
  pub alloc_twice_disjoint :
      (k : ℕ)
      → 0 < k
      → (map_alloc_frame_contiguous (map_alloc_frame_contiguous m n).1 k).0 ≢ frame_alloc_failed
      → let (s, m') = map_alloc_frame_contiguous m n in
        let t = (map_alloc_frame_contiguous m' k).0 in (s + n * 4096 ≤ t) ⊎ (t + k * 4096 ≤ s)
  alloc_twice_disjoint k pos_k got_k =
      let out = map_alloc_frame_contiguous m n in
      let s : ℕ = out.0 in
      let t : ℕ = (map_alloc_frame_contiguous out.1 k).0 in
      let (r, res) = reserved m n ready pos got in
      let (_, res_k) = reserved out.1 k r pos_k got_k in
      elim (dec_le s t) [
        | yes up ↦ grind (arith, res.now_used t, res_k.was_free t)
        | no down ↦ grind (arith, res.now_used s, res_k.was_free s)
      ]

  -- On a ready map, a run of at least one frame that a successful call of
  -- `map_alloc_frame_contiguous` returns can be given back by `map_dealloc_frame` with its
  -- size: that returns 0, and every address is used exactly if it was used before the two
  -- calls.
  pub map_dealloc_frame-map_alloc_frame_contiguous :
      let (s, m') = map_alloc_frame_contiguous m n in
      let (status, m'') = map_dealloc_frame m' s (n * 4096) in
      (status ≡ ok) × ((a : ℕ) → used m'' a ≡ used m a)
  map_dealloc_frame-map_alloc_frame_contiguous =
      let out = map_alloc_frame_contiguous m n in
      let (r, res) = reserved m n ready pos got in
      let mk = map_dealloc_frame-Marked out.1 out.0 n r.layout res.start_aligned pos res.inside in
      (mk.status, λ a. ground (arith, mk.frames a, res.now_used a, res.was_free a))
