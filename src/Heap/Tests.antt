-- ===== src/Heap/Tests.antt =====
-- The theorems on the heap of src/kernel/Memory/alloc.c, at a heap of one page and at three blocks.
use icarus.Prelude.{Bool, ℕ, ◌+◌, ◌≡◌, refl, true, false, ◌==◌, if◌then◌else◌, List, [], ◌∷◌, arith}
use icarus.Heap.{MetaData, Headers, Heap, imalloc, free, block}
use icarus.Heap.Blocks.{Block, first_fit}
use icarus.Heap.Malloc.{IsHeap, MallocOutcome, total, imalloc-first_fit}
use icarus.Heap.Release.{imalloc-free_overlaps}

abbrev header : (size : ℕ) (allocated : Bool) (prev : ℕ) → MetaData
header n a p = record { block_size = n; allocated = a; prev_block_data = p }

-- 48 bytes allocated, 96 free, 3936 allocated
abbrev three_headers : Headers
three_headers x =
    if x == 65552
    then header 48 true 0
    else if x == 65600
    then header 96 false 48
    else header 3936 true 96

abbrev three_heap : Heap
three_heap = record { heap_start = 65552; heap_size = 4096; headers = three_headers }

abbrev three_blocks : List Block
three_blocks = (48, true) ∷ (96, false) ∷ (3936, true) ∷ []

three_heap-IsHeap : IsHeap three_heap 69632 three_blocks
three_heap-IsHeap = record {
  blocks = (refl, refl, omega arith, (refl, refl, omega arith, (refl, refl, omega arith, refl)));
  aligned = (refl, (refl, (refl, tt)));
  room = omega arith;
  fits = omega arith;
}

imalloc-first_fit_example :
    MallocOutcome three_heap 69632 three_blocks
      (first_fit (total 20) three_blocks)
      (imalloc three_heap 20)
imalloc-first_fit_example =
    imalloc-first_fit three_heap 69632 three_blocks 20 three_heap-IsHeap (omega arith) (omega arith)

imalloc-free_overlaps_example :
    let freed = record three_heap { headers = free three_headers (65552 + 16) } in
    (after : Headers) × (imalloc freed (48 + 96)
      ≡ block (65552 + 16) (record three_heap { headers = after }))
    × (after (65552 + (48 + 96)) ≡ three_headers (65552 + (48 + 96)))
    × ((after (65552 + (48 + 96))).allocated ≡ true)
imalloc-free_overlaps_example =
    imalloc-free_overlaps three_heap 48 96 (omega arith) refl refl (omega arith) (omega arith) refl
      refl refl refl refl refl
