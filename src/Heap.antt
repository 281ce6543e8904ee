-- ===== src/Heap.antt =====
-- The heap allocator of src/kernel/Memory/alloc.c. The headers of blocks are a function from an address
-- to the header there; blocks begin at multiples of 16, so headers do not overlap.
mod Blocks
mod Search
mod Malloc
mod Release
mod Tests
use icarus.Prelude.{
  ℕ, zero, suc, ◌+◌, ◌-◌, ◌*◌, ◌/◌, ◌%◌, ◌^◌, Bool, true, false, not, ◌&&◌, ltb, ◌==◌,
  if◌then◌else◌,
}
use icarus.Prelude.Words.{add64, sub64, mul64}
use icarus.Prelude.Align.{align_up}

-- `alloc_meta_data_t`; `block_size` has 63 bits
pub record MetaData : Type 0 where
  pub block_size : ℕ
  pub allocated : Bool
  pub prev_block_data : ℕ

abbrev pub Headers : Type 0
Headers = ℕ → MetaData

-- `alloc_t`, with the memory of the heap
pub record Heap : Type 0 where
  pub heap_start : ℕ
  pub heap_size : ℕ
  pub headers : Headers

unfoldable pub put : Headers → ℕ → MetaData → Headers
put headers at h x = if at == x then h else headers x

abbrev pub meta_data_size : ℕ
meta_data_size = 16

-- The end of `init_custom_alloc`: one free block behind the allocator's own 16 bytes.
unfoldable pub init_heap : Headers → (heap_start initial_size : ℕ) → Heap
unfolding put
init_heap memory heap_start initial_size =
    let size = mul64 (align_up initial_size 4096 / 4096) 4096 in
    let first = add64 heap_start 16 in
    record {
      heap_start = first;
      heap_size = size;
      headers =
          put memory first (record {
            block_size = sub64 size 16 % 2 ^ 63;
            allocated = false;
            prev_block_data = 0;
          });
    }

-- How the inner loop of `Imalloc_alocator` ends: with a pointer, or by leaving for the kernel.
pub data Walk : Type 0 where
  hit : ℕ → Headers → Walk
  leave no_fuel : Walk

unfoldable pub take_all : Headers → ℕ → Headers
unfolding put
take_all headers header = put headers header (record (headers header) { allocated = true })

unfoldable pub split : Headers → (header size : ℕ) → Headers
unfolding put
split headers header size =
    let remaining_s = sub64 (headers header).block_size size in
    let headers' =
      put headers (add64 header size)
        (record { block_size = remaining_s % 2 ^ 63; allocated = false; prev_block_data = size }) in
    put headers' header (record (headers' header) { allocated = true; block_size = size % 2 ^ 63 })

-- the loop, over at most `n` headers
module _ (headers : Headers) (heap_end size : ℕ) where
  unfoldable pub walk : ℕ → (header : ℕ) → Walk
  unfolding take_all split
  walk zero header = no_fuel
  walk (suc n) header =
      let h = headers header in
      let rest = walk n (add64 header h.block_size) in
      if not (ltb (add64 header h.block_size) heap_end)
      then leave
      else if not h.allocated && (h.block_size == size)
      then hit (add64 header meta_data_size) (take_all headers header)
      else if not h.allocated && ltb size h.block_size
      then hit (add64 header meta_data_size) (split headers header size)
      else if not h.allocated
      then leave
      else rest

-- What `Imalloc_alocator` comes to: a pointer, or the request to `ialloc_frames` for more pages.
pub data MallocResult : Type 0 where
  block : ℕ → Heap → MallocResult
  more_pages : ℕ → MallocResult
  endless : MallocResult

-- A block has at least 16 bytes, so a walk over the heap's blocks meets no more headers than this.
unfoldable pub imalloc : Heap → (size : ℕ) → MallocResult
unfolding walk
imalloc heap size =
    let total = align_up (add64 size meta_data_size) 16 in
    elim (walk heap.headers (add64 heap.heap_start heap.heap_size) total (heap.heap_size / 16 + 1)
      heap.heap_start) [
        | hit ptr headers ↦ block ptr (record heap { headers = headers })
        | leave ↦ more_pages (align_up (mul64 heap.heap_size 30 / 10) 4096)
        | no_fuel ↦ endless
      ]

unfoldable pub grow_block : Headers → (at size : ℕ) → Headers
unfolding put
grow_block headers at size =
    let h = headers at in
    put headers at
      (record h { block_size = add64 h.block_size (add64 size meta_data_size) % 2 ^ 63 })

unfoldable pub free : Headers → (addr : ℕ) → Headers
unfolding grow_block put
free headers addr =
    let header = sub64 addr meta_data_size in
    let next_block = add64 header (headers header).block_size in
    let prev_block = sub64 header (headers header).prev_block_data in
    let merge_prev = not (headers prev_block).allocated in
    let working = if merge_prev then prev_block else header in
    let headers' =
      if merge_prev then grow_block headers prev_block (headers header).block_size else headers in
    let headers'' =
      if not (headers' next_block).allocated
      then grow_block headers' working (headers' next_block).block_size
      else headers' in
    put headers'' working (record (headers'' working) { allocated = false })
