-- ===== src/Threads/Balance.antt =====
-- The accounting of a thread's memory in src/kernel/Processes/thread.c.
use icarus.Prelude.{ℕ, ◌+◌, ◌%◌, ◌^◌, ◌≡◌, arith, Option, none, some, List, [], ◌∷◌}
use icarus.BitMap.{Status, ok, failed, fault}
use icarus.MemMap.Pages.{StructPage, ialloc_frames}
use icarus.MemMap.Alloc.{page_type_to_size}
use icarus.Paging.{Space}
use icarus.Threads.{
  SubSpace, subspace_code, subspace_mapping, subspace_stack, ThreadMemory, Thread, Supplied,
  AllocationInfo, PermissionInfo, grow, by_status, pages_of, supply_pages, thread_supply_mem_region,
  supply_listed, thread_supply_new_mem_region, thread_supply_new_mem, thread_supply_mem,
}

-- the limit is the sum of the three sub-spaces
pub record IsBalanced (m : ThreadMemory) : Type 0 where
  pub sum : m.memory_limit ≡ (m.code_size + m.mapping_size + m.stack_size) % 2 ^ 64

grow-IsBalanced :
    (m : ThreadMemory) (sub_space : SubSpace) (page_size : ℕ)
    → IsBalanced m
    → IsBalanced (grow m sub_space page_size)
grow-IsBalanced m subspace_code page_size b = record { sum = omega (arith, b.sum) }
grow-IsBalanced m subspace_mapping page_size b = record { sum = omega (arith, b.sum) }
grow-IsBalanced m subspace_stack page_size b = record { sum = omega (arith, b.sum) }

by_status-IsBalanced :
    (status : Status) (rest stopped : Supplied Status)
    → IsBalanced rest.thread.memory
    → IsBalanced stopped.thread.memory
    → IsBalanced (by_status status rest stopped).thread.memory
by_status-IsBalanced ok rest stopped a b = a
by_status-IsBalanced failed rest stopped a b = b
by_status-IsBalanced fault rest stopped a b = b

supply_pages-IsBalanced :
    (addrs : List ℕ) (page_size : ℕ) (thread : Thread) (sub_space : SubSpace) (permissions : ℕ)
    (s : Space)
    → IsBalanced thread.memory
    → IsBalanced (supply_pages addrs page_size thread sub_space permissions s).thread.memory
unfolding supply_pages
supply_pages-IsBalanced [] page_size thread sub_space permissions s b = b
supply_pages-IsBalanced (addr ∷ addrs) page_size thread sub_space permissions s b =
    by_status-IsBalanced _ _ _
      (supply_pages-IsBalanced addrs page_size
        (record thread { memory = grow thread.memory sub_space page_size }) sub_space permissions _
        (grow-IsBalanced thread.memory sub_space page_size b))
      b

thread_supply_mem_region-IsBalanced :
    (thread : Thread) (sub_space : SubSpace) (info : StructPage) (permissions : ℕ) (s : Space)
    → IsBalanced thread.memory
    → IsBalanced (thread_supply_mem_region thread sub_space info permissions s).thread.memory
unfolding thread_supply_mem_region
thread_supply_mem_region-IsBalanced thread sub_space info permissions s b =
    supply_pages-IsBalanced (pages_of info) info.page_size thread sub_space permissions s b

supply_listed-IsBalanced :
    (info : Option StructPage) (thread : Thread) (sub_space : SubSpace) (permissions : ℕ)
    (s : Space)
    → IsBalanced thread.memory
    → IsBalanced (supply_listed info thread sub_space permissions s).thread.memory
supply_listed-IsBalanced none thread sub_space permissions s b = b
supply_listed-IsBalanced (some info) thread sub_space permissions s b =
    thread_supply_mem_region-IsBalanced thread sub_space info permissions s b

thread_supply_new_mem_region-IsBalanced :
    (thread : Thread) (sub_space : SubSpace) (pages p_size permissions : ℕ) (s : Space)
    → IsBalanced thread.memory
    → IsBalanced
        (thread_supply_new_mem_region thread sub_space pages p_size permissions s).thread.memory
unfolding thread_supply_new_mem_region
thread_supply_new_mem_region-IsBalanced thread sub_space pages p_size permissions s b =
    let out = ialloc_frames s.frames pages (page_type_to_size p_size) in
    supply_listed-IsBalanced out.0 thread sub_space permissions (record s { frames = out.1 }) b

-- The limit of a thread's memory stays the sum of its three sub-spaces, modulo 2^64, through `thread_supply_new_mem` and
-- through `thread_supply_mem`, whatever the allocator and paging come to on the way, failures included.
pub thread_supply-IsBalanced :
    (thread : Thread) (info : AllocationInfo) (code mapping stack : StructPage)
    (perms : PermissionInfo) (s : Space)
    → IsBalanced thread.memory
    → IsBalanced (thread_supply_new_mem thread info perms s).thread.memory
      × IsBalanced (thread_supply_mem thread code mapping stack perms s).thread.memory
unfolding thread_supply_new_mem thread_supply_mem
thread_supply-IsBalanced thread info code mapping stack perms s b =
    let c =
      thread_supply_new_mem_region thread subspace_code info.code_pages perms.code_perms
        info.code_pages s in
    let m =
      thread_supply_new_mem_region c.thread subspace_mapping info.mapping_pages perms.mapping_perms
        info.mapping_page_size c.space in
    let c' = thread_supply_mem_region thread subspace_code code perms.code_perms s in
    let m' =
      thread_supply_mem_region c'.thread subspace_mapping mapping perms.mapping_perms c'.space in
    (
      thread_supply_new_mem_region-IsBalanced m.thread subspace_stack info.stack_pages
          perms.stack_perms info.stack_page_size m.space
          (thread_supply_new_mem_region-IsBalanced c.thread subspace_mapping info.mapping_pages
            perms.mapping_perms info.mapping_page_size c.space
            (thread_supply_new_mem_region-IsBalanced thread subspace_code info.code_pages
              perms.code_perms info.code_pages s b)),
      thread_supply_mem_region-IsBalanced m'.thread subspace_stack stack perms.stack_perms m'.space
          (thread_supply_mem_region-IsBalanced c'.thread subspace_mapping mapping
            perms.mapping_perms c'.space
            (thread_supply_mem_region-IsBalanced thread subspace_code code perms.code_perms s b)),
    )
