-- ===== src/Heap/Malloc.antt =====
-- `Imalloc_alocator` of src/kernel/Memory/alloc.c takes the block that first fit takes.
use icarus.Prelude.{
  ℕ, ◌+◌, ◌-◌, ◌*◌, ◌/◌, ◌%◌, ◌^◌, ◌<◌, ◌≡◌, sym, true, false, ltb, ◌==◌, Option, none, some, List,
  [], ◌∷◌, arith, Bool-cases, inl, inr, ap,
}
use mathlib.Core.Path.{subst}
use icarus.Prelude.Words.{add64, mul64}
use icarus.Prelude.Align.{align_up, align_up_lem}
use icarus.Heap.{
  Headers, Heap, put, Walk, hit, leave, no_fuel, walk, MallocResult, block, more_pages, endless,
  imalloc,
}
use icarus.Heap.Blocks.{AllAligned, Block, Blocks, behind, first_fit, has_free, length-le-Blocks}
use icarus.Heap.{init_heap}
use icarus.Heap.Search.{Outcome, walk-Outcome}

-- what the size of a request is rounded to
abbrev pub total : ℕ → ℕ
total size = (size + 31) / 16 * 16

-- A heap whose blocks reach up to `end`, in memory below 2 ^ 63.
pub record IsHeap (heap : Heap) (end : ℕ) (bs : List Block) : Type 0 where
  pub blocks : Blocks heap.headers heap.heap_start end bs
  pub aligned : AllAligned bs
  pub room : end < heap.heap_start + heap.heap_size
  pub fits : heap.heap_start + heap.heap_size < 2 ^ 63

abbrev AlignedAfter : Option (ℕ × List Block) → Type 0
AlignedAfter none = Unit
AlignedAfter (some found) = AllAligned found.1

AlignedAfter-behind :
    (n : ℕ) (o : Option (ℕ × List Block))
    → n % 16 ≡ 0
    → AlignedAfter o
    → AlignedAfter (behind (n, true) o)
unfolding behind
AlignedAfter-behind n none e h = tt
AlignedAfter-behind n (some found) e h = (e, h)

first_fit-AlignedAfter :
    (size : ℕ) (bs : List Block) → size % 16 ≡ 0 → AllAligned bs → AlignedAfter (first_fit size bs)
unfolding first_fit
first_fit-AlignedAfter size [] e h = tt
first_fit-AlignedAfter size ((n, true) ∷ bs) e h =
    AlignedAfter-behind n (first_fit size bs) h.0 (first_fit-AlignedAfter size bs e h.1)
first_fit-AlignedAfter size ((n, false) ∷ bs) e h = elim (Bool-cases (n == size)) [
  | inl exact ↦ rw exact h
  | inr other ↦ elim (Bool-cases (ltb size n)) [
    | inl larger ↦ rw (other, larger) (e, (omega (arith, h.0), h.1))
    | inr smaller ↦ rw (other, smaller) tt
  ]
]

-- What a request comes to, by what first fit finds in the list of blocks.
abbrev pub MallocOutcome : Heap → ℕ → List Block → Option (ℕ × List Block) → MallocResult → Type 0
MallocOutcome heap end bs (some found) r =
    (headers' : Headers) × (r
      ≡ block (heap.heap_start + found.0 + 16) (record heap { headers = headers' }))
    × IsHeap (record heap { headers = headers' }) end found.1
MallocOutcome heap end bs none r =
    has_free bs ≡ true → (pages : ℕ) × (r ≡ more_pages pages) × (510 < pages)

pages_many : (size : ℕ) → 0 < size → size < 2 ^ 58 → 510 < align_up (mul64 size 30 / 10) 4096
pages_many size pos lt =
    let e : mul64 size 30 / 10 ≡ size * 3 = omega arith in
    rw e (omega (arith, align_up_lem 12 (size * 3) (omega arith) (omega arith) (omega arith)))

-- For a positive size, and memory below 2 ^ 63, the heap that `init_custom_alloc` leaves is one free block of the size,
-- rounded up to whole pages, less the 16 bytes of the allocator.
init_heap-IsHeap :
    (memory : Headers) (start size : ℕ)
    → 0 < size
    → start + size + 8192 < 2 ^ 63
    → let bytes = (size + 4095) / 4096 * 4096 in
      IsHeap (init_heap memory start size) (start + bytes) ((bytes - 16, false) ∷ [])
unfolding init_heap put
init_heap-IsHeap memory start size pos lt =
    let bytes : ℕ = (size + 4095) / 4096 * 4096 in
    let up : align_up size 4096 ≡ bytes =
      omega (arith, align_up_lem 12 size (omega arith) (omega arith) (omega arith)) in
    let rounded : mul64 (align_up size 4096 / 4096) 4096 ≡ bytes = omega (arith, up) in
    let first : add64 start 16 ≡ start + 16 = omega arith in
    rw (rounded, first)
      (record {
        blocks = (ground arith, ground arith, omega arith, omega arith);
        aligned = (omega arith, tt);
        room = omega arith;
        fits = omega arith;
      })

-- On a heap of fewer than 2 ^ 58 bytes, in memory below 2 ^ 63, whose blocks lie one behind the
-- other, and for a request of less than 2 ^ 63 - 32 bytes, `Imalloc_alocator` takes exactly the
-- block that first fit, which ends at the first free block, takes for the size rounded up with
-- its header: it returns the address behind that block's header, and the blocks, one of them
-- split if it was larger, lie one behind the other again. If first fit finds none though a block
-- is free, it leaves its loop and asks `ialloc_frames` for more than 510 pages.
pub imalloc-first_fit :
    (heap : Heap) (end : ℕ) (bs : List Block) (size : ℕ)
    → IsHeap heap end bs
    → size + 32 < 2 ^ 63
    → heap.heap_size < 2 ^ 58
    → MallocOutcome heap end bs (first_fit (total size) bs) (imalloc heap size)
unfolding imalloc
imalloc-first_fit heap end bs size h lt small =
    subst
      (λ t.
        MallocOutcome heap end bs (first_fit (total size) bs)
          (from t (add64 heap.heap_start heap.heap_size)))
      (sym rounded)
      (subst (λ b. MallocOutcome heap end bs (first_fit (total size) bs) (from (total size) b))
        (sym bound) (finish (first_fit (total size) bs) _ aligned out))
  where
    rounded : align_up (add64 size 16) 16 ≡ total size
    rounded =
        omega (arith, align_up_lem 4 (add64 size 16) (omega arith) (omega arith) (omega arith))

    bound : add64 heap.heap_start heap.heap_size ≡ heap.heap_start + heap.heap_size
    bound = omega (arith, h.fits)

    aligned : AlignedAfter (first_fit (total size) bs)
    aligned = first_fit-AlignedAfter (total size) bs (omega arith) h.aligned

    out : Outcome heap.headers heap.heap_start end bs (first_fit (total size) bs) (
        walk heap.headers
          (heap.heap_start + heap.heap_size)
          (total size)
          (heap.heap_size / 16 + 1)
          heap.heap_start)
    out =
        walk-Outcome heap.headers (heap.heap_start + heap.heap_size) (total size) end h.room h.fits
          (omega arith) (omega arith) (heap.heap_size / 16 + 1) heap.heap_start bs
          (omega (arith, h.room, length-le-Blocks heap.headers heap.heap_start end bs h.blocks))
          h.blocks h.aligned

    result : Walk → MallocResult
    result w = elim w [
      | hit ptr headers ↦ block ptr (record heap { headers = headers })
      | leave ↦ more_pages (align_up (mul64 heap.heap_size 30 / 10) 4096)
      | no_fuel ↦ endless
    ]

    from : ℕ → ℕ → MallocResult
    from t b = result (walk heap.headers b t (heap.heap_size / 16 + 1) heap.heap_start)

    finish :
        (o : Option (ℕ × List Block)) (w : Walk)
        → AlignedAfter o
        → Outcome heap.headers heap.heap_start end bs o w
        → MallocOutcome heap end bs o (result w)
    finish none w al o = λ free. (
      align_up (mul64 heap.heap_size 30 / 10) 4096,
      ap result (o free),
      pages_many heap.heap_size
          (omega (arith, h.room, length-le-Blocks heap.headers heap.heap_start end bs h.blocks))
          small,
    )
    finish (some found) w al t = (
      t.headers',
      ap result t.pointer,
      record { blocks = t.blocks; aligned = al; room = h.room; fits = h.fits },
    )
