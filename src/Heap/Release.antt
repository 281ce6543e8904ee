-- ===== src/Heap/Release.antt =====
-- `free` of src/kernel/Memory/alloc.c.
use icarus.Prelude.{
  ℕ, suc, ap, ◌∙◌, ltb, ◌/◌, ◌+◌, ◌-◌, ◌%◌, ◌^◌, ◌≤◌, ◌<◌, ◌≡◌, refl, true, false, ◌==◌,
  if◌then◌else◌, arith,
}
use icarus.Prelude.Words.{add64, sub64, mul64}
use icarus.Prelude.Align.{align_up, align_up_lem}
use icarus.Heap.{
  MetaData, Headers, Heap, put, take_all, grow_block, free, walk, Walk, hit, leave, no_fuel,
  MallocResult, more_pages, endless, imalloc, block,
}

module _ (headers : Headers) (at n : ℕ) (size : (headers at).block_size ≡ n)
    (used : (headers at).allocated ≡ true) (pos : 0 < n) where
  -- In memory below 2 ^ 63, freeing an allocated, non-empty block that is the first or whose
  -- predecessor is allocated, before an allocated block, changes only its own header, and there
  -- only the flag.
  free_alone :
      (prev x : ℕ)
      → (headers at).prev_block_data ≡ prev
      → prev ≤ at
      → at + n + 16 < 2 ^ 63
      → (headers (at - prev)).allocated ≡ true
      → (headers (at + n)).allocated ≡ true
      → free headers (at + 16) x
        ≡ (if at == x then record (headers at) { allocated = false } else headers x)
  unfolding free put
  free_alone prev x e le lt prev_used next_used =
      let here : sub64 (at + 16) 16 ≡ at = omega arith in
      let next : add64 at (headers at).block_size ≡ at + n = omega (arith, size) in
      let back : sub64 at (headers at).prev_block_data ≡ at - prev = omega (arith, e) in
      rw (here, next, back, prev_used, next_used) refl

  -- In memory below 2 ^ 63, when the first block, allocated and of `n` bytes, is freed before a
  -- free block of `k` bytes, the header then says that the block is free and has `n + k + 16`
  -- bytes, so it reaches 16 bytes behind the end of the two blocks.
  free_overcounts :
      (k : ℕ)
      → (headers at).prev_block_data ≡ 0
      → (headers (at + n)).block_size ≡ k
      → (headers (at + n)).allocated ≡ false
      → at + n + k + 16 < 2 ^ 63
      → free headers (at + 16) at
        ≡ record { block_size = n + k + 16; allocated = false; prev_block_data = 0 }
  unfolding free put grow_block
  free_overcounts k e next_size next_free lt =
      let here : sub64 (at + 16) 16 ≡ at = omega arith in
      let next : add64 at (headers at).block_size ≡ at + n = omega (arith, size) in
      let back : sub64 at (headers at).prev_block_data ≡ at = omega (arith, e) in
      let self : at == at ≡ true = ground arith in
      let sum : add64 (headers at).block_size (add64 k 16) % 2 ^ 63 ≡ n + k + 16 =
        omega (arith, size) in
      rw (here, next, back, used, next_free, next_size, self, sum, e) refl

  -- no other header changes
  free_others :
      (k x : ℕ)
      → (headers at).prev_block_data ≡ 0
      → (headers (at + n)).block_size ≡ k
      → (headers (at + n)).allocated ≡ false
      → at + n + k + 16 < 2 ^ 63
      → at < x
      → free headers (at + 16) x ≡ headers x
  unfolding free put grow_block
  free_others k x e next_size next_free lt far =
      let here : sub64 (at + 16) 16 ≡ at = omega arith in
      let next : add64 at (headers at).block_size ≡ at + n = omega (arith, size) in
      let back : sub64 at (headers at).prev_block_data ≡ at = omega (arith, e) in
      let other : at == x ≡ false = ground (arith, far) in
      rw (here, next, back, used, next_free, other) refl

-- the first block of a heap is free and has the size that is asked for
walk_first :
    (headers : Headers) (heap_end size n header : ℕ)
    → (headers header).block_size ≡ size
    → (headers header).allocated ≡ false
    → add64 header size < heap_end
    → walk headers heap_end size (suc n) header ≡ hit (add64 header 16) (take_all headers header)
unfolding walk
walk_first headers heap_end size n header e free lt =
    let inside : ltb (add64 header size) heap_end ≡ true = ground (arith, lt) in
    let same : size == size ≡ true = ground arith in rw (e, free, inside, same) refl

imalloc_hit :
    (heap : Heap) (size total rounds heap_end ptr : ℕ) (headers : Headers)
    → align_up (add64 size 16) 16 ≡ total
    → add64 heap.heap_start heap.heap_size ≡ heap_end
    → heap.heap_size / 16 + 1 ≡ rounds
    → walk heap.headers heap_end total rounds heap.heap_start ≡ hit ptr headers
    → imalloc heap size ≡ block ptr (record heap { headers = headers })
unfolding imalloc
imalloc_hit heap size total rounds heap_end ptr headers t b r w = ap result same
  where
    result : Walk → MallocResult
    result w = elim w [
      | hit ptr headers ↦ block ptr (record heap { headers = headers })
      | leave ↦ more_pages (align_up (mul64 heap.heap_size 30 / 10) 4096)
      | no_fuel ↦ endless
    ]

    same :
        walk heap.headers
          (add64 heap.heap_start heap.heap_size)
          (align_up (add64 size 16) 16)
          (heap.heap_size / 16 + 1)
          heap.heap_start
        ≡ hit ptr headers
    same = rw (t, b, r) w

-- For a heap below 2 ^ 63 that starts with an allocated block of `n` bytes, a free one of `k` bytes
-- and an allocated one, with sizes that are multiples of 16: after the first block is freed, a
-- request of `n + k` bytes is granted from 16 bytes behind its header on. These bytes reach up to
-- 16 bytes behind the end of the two blocks, and so over the header of the third one, which is
-- as it was and still allocated.
pub imalloc-free_overlaps :
    (heap : Heap) (n k : ℕ)
    → 0 < n
    → n % 16 ≡ 0
    → k % 16 ≡ 0
    → n + k + 16 < heap.heap_size
    → heap.heap_start + heap.heap_size < 2 ^ 63
    → (heap.headers heap.heap_start).block_size ≡ n
    → (heap.headers heap.heap_start).allocated ≡ true
    → (heap.headers heap.heap_start).prev_block_data ≡ 0
    → (heap.headers (heap.heap_start + n)).block_size ≡ k
    → (heap.headers (heap.heap_start + n)).allocated ≡ false
    → (heap.headers (heap.heap_start + (n + k))).allocated ≡ true
    → let freed = record heap { headers = free heap.headers (heap.heap_start + 16) } in
      (after : Headers) × (imalloc freed (n + k)
        ≡ block (heap.heap_start + 16) (record heap { headers = after }))
      × (after (heap.heap_start + (n + k)) ≡ heap.headers (heap.heap_start + (n + k)))
      × ((after (heap.heap_start + (n + k))).allocated ≡ true)
unfolding take_all put
imalloc-free_overlaps heap n k pos n16 k16 room fits size used first next_size next_free third =
    let at = heap.heap_start in
    let headers = free heap.headers (at + 16) in
    let far : at + n + k + 16 < 2 ^ 63 = omega (arith, room, fits) in
    let merged = free_overcounts heap.headers at n size used pos k first next_size next_free far in
    let total : align_up (add64 (n + k) 16) 16 ≡ n + k + 16 =
      align_up_lem 4 (add64 (n + k) 16) (omega arith) (omega (arith, room, fits))
        (omega (arith, room, fits))
      ∙ omega (arith, room, fits, n16, k16) in
    let walked =
      walk_first headers (at + heap.heap_size) (n + k + 16) (heap.heap_size / 16) at
        (ap (λ h. h.block_size) merged) (ap (λ h. h.allocated) merged)
        (omega (arith, room, fits)) in
    let place : add64 at 16 ≡ at + 16 = omega (arith, room, fits) in
    let apart : at == at + (n + k) ≡ false = ground (arith, pos) in
    let kept =
      free_others heap.headers at n size used pos k (at + (n + k)) first next_size next_free far
        (omega (arith, pos)) in
    let same : take_all headers at (at + (n + k)) ≡ heap.headers (at + (n + k)) = rw apart kept in
    (
      take_all headers at,
      imalloc_hit (record heap { headers = headers }) (n + k) (n + k + 16)
          (suc (heap.heap_size / 16)) (at + heap.heap_size) (at + 16) (take_all headers at) total
          (omega (arith, fits)) (omega arith)
          (walked ∙ ap (λ (p : ℕ). hit p (take_all headers at)) place),
      same,
      ap (λ (h : MetaData). h.allocated) same ∙ third,
    )
