-- ===== src/Threads.antt =====
-- How src/kernel/Processes/thread.c supplies a thread with memory, a client of the frame allocator and of paging. A control
-- block has here the fields that these functions read or write; the listing of pages is a value, as in MemMap/Pages.
mod Balance
mod Tests
use icarus.Prelude.{
  ℕ, ◌+◌, ◌*◌, ◌%◌, ◌^◌, Bool, true, false, ◌==◌, if◌then◌else◌, bit_or, Option, none, some, List,
  [], ◌∷◌,
}
use icarus.Prelude.Words.{add64}
use icarus.BitMap.{Status, ok, failed, fault}
use icarus.MemMap.Alloc.{page_type_to_size}
use icarus.MemMap.Pages.{StructPage, ialloc_frames}
use icarus.Paging.{Space, page_in}

pub data SubSpace : Type 0 where
  subspace_code subspace_mapping subspace_stack : SubSpace

pub record ThreadMemory : Type 0 where
  pub code_size : ℕ
  pub mapping_size : ℕ
  pub stack_size : ℕ
  pub memory_limit : ℕ

pub record Thread : Type 0 where
  pub page_table : ℕ
  pub privileged : Bool
  pub memory : ThreadMemory

-- `SUB_SPACE_TO_ADDR`
abbrev pub sub_space_to_addr : SubSpace → ℕ
sub_space_to_addr subspace_code = 0x0000048000000000
sub_space_to_addr subspace_mapping = 0x0000090000000000
sub_space_to_addr subspace_stack = 0x00007C8000000000

-- `memory.fields[sub_space]`
abbrev pub field : ThreadMemory → SubSpace → ℕ
field m subspace_code = m.code_size
field m subspace_mapping = m.mapping_size
field m subspace_stack = m.stack_size

abbrev pub with_field : ThreadMemory → SubSpace → ℕ → ThreadMemory
with_field m subspace_code n = record m { code_size = n }
with_field m subspace_mapping n = record m { mapping_size = n }
with_field m subspace_stack n = record m { stack_size = n }

abbrev pub grow : ThreadMemory → SubSpace → (page_size : ℕ) → ThreadMemory
grow m sub_space page_size = record (with_field m sub_space (add64 (field m sub_space) page_size)) {
  memory_limit = add64 m.memory_limit page_size;
}

-- what a call leaves behind
pub record Supplied (A : Type 0) : Type 0 where
  pub result : A
  pub thread : Thread
  pub space : Space

-- how a round ends, by what `page_in` returned
abbrev pub by_status : Status → (rest stopped : Supplied Status) → Supplied Status
by_status ok rest stopped = rest
by_status _ rest stopped = stopped

-- the loop of `thread_supply_mem_region`: each page goes behind those that the sub-space has
unfoldable pub supply_pages :
    List ℕ → (page_size : ℕ) → Thread → SubSpace → (permissions : ℕ) → Space → Supplied Status
unfolding page_in
supply_pages [] page_size thread sub_space permissions s = record {
  result = ok;
  thread = thread;
  space = s;
}
supply_pages (addr ∷ addrs) page_size thread sub_space permissions s =
    let (status, s') =
      page_in s thread.page_table
        (add64 (sub_space_to_addr sub_space) (field thread.memory sub_space)) addr page_size
        (bit_or permissions (if thread.privileged then 0 else 8)) in
    let grown : Thread = record thread { memory = grow thread.memory sub_space page_size } in
    let rest = supply_pages addrs page_size grown sub_space permissions s' in
    by_status status rest (record { result = failed; thread = thread; space = s' })

-- the `page_count` addresses of a listing
abbrev pub pages_of : StructPage → List ℕ
pages_of info = if info.page_count == 0 then [] else info.first ∷ info.others

unfoldable pub thread_supply_mem_region :
    Thread → SubSpace → StructPage → (permissions : ℕ) → Space → Supplied Status
unfolding supply_pages
thread_supply_mem_region thread sub_space info permissions s =
    supply_pages (pages_of info) info.page_size thread sub_space permissions s

abbrev pub supply_listed :
    Option StructPage → Thread → SubSpace → (permissions : ℕ) → Space → Supplied (Option StructPage)
supply_listed none thread sub_space permissions s = record {
  result = none;
  thread = thread;
  space = s;
}
supply_listed (some info) thread sub_space permissions s =
    let out = thread_supply_mem_region thread sub_space info permissions s in
    record {
      result = elim out.result [ ok ↦ some info | failed ↦ none | fault ↦ none ];
      thread = out.thread;
      space = out.space;
    }

-- The size is passed on where a page type is expected; no pages is FRAME_ALLOC_FAILED.
unfoldable pub thread_supply_new_mem_region :
    Thread → SubSpace → (pages p_size permissions : ℕ) → Space → Supplied (Option StructPage)
unfolding ialloc_frames page_type_to_size thread_supply_mem_region
thread_supply_new_mem_region thread sub_space pages p_size permissions s =
    let (info, frames) = ialloc_frames s.frames pages (page_type_to_size p_size) in
    supply_listed info thread sub_space permissions (record s { frames = frames })

pub record AllocationInfo : Type 0 where
  pub code_pages : ℕ
  pub code_page_size : ℕ
  pub mapping_pages : ℕ
  pub mapping_page_size : ℕ
  pub stack_pages : ℕ
  pub stack_page_size : ℕ

pub record PermissionInfo : Type 0 where
  pub code_perms : ℕ
  pub mapping_perms : ℕ
  pub stack_perms : ℕ

pub record SupplyBlock : Type 0 where
  pub code_memory : Option StructPage
  pub mapping_memory : Option StructPage
  pub stack_memory : Option StructPage

-- `thread_supply_new_mem` with its arguments in the order of the calls: the permissions are passed as the type of the pages, and the
-- number or size of the pages as the permissions.
unfoldable pub thread_supply_new_mem :
    Thread → AllocationInfo → PermissionInfo → Space → Supplied SupplyBlock
unfolding thread_supply_new_mem_region
thread_supply_new_mem thread info perms s =
    let code =
      thread_supply_new_mem_region thread subspace_code info.code_pages perms.code_perms
        info.code_pages s in
    let mapping =
      thread_supply_new_mem_region code.thread subspace_mapping info.mapping_pages
        perms.mapping_perms info.mapping_page_size code.space in
    let stack =
      thread_supply_new_mem_region mapping.thread subspace_stack info.stack_pages perms.stack_perms
        info.stack_page_size mapping.space in
    record {
      result = record {
        code_memory = code.result;
        mapping_memory = mapping.result;
        stack_memory = stack.result;
      };
      thread = stack.thread;
      space = stack.space;
    }

-- what `thread_supply_new_mem` returns
abbrev pub supply_status : SupplyBlock → Status
supply_status block = elim block.code_memory [
  | none ↦ failed
  | some code ↦ elim block.mapping_memory [
    | none ↦ failed
    | some mapping ↦ elim block.stack_memory [ none ↦ failed | some stack ↦ ok ]
  ]
]

-- `thread_supply_mem`, for three listings; a failure in one does not keep the next from being tried
unfoldable pub thread_supply_mem :
    Thread
    → (code mapping stack : StructPage) → PermissionInfo
    → Space
    → Supplied (Status × Status × Status)
unfolding thread_supply_mem_region
thread_supply_mem thread code mapping stack perms s =
    let first = thread_supply_mem_region thread subspace_code code perms.code_perms s in
    let second =
      thread_supply_mem_region first.thread subspace_mapping mapping perms.mapping_perms
        first.space in
    let third =
      thread_supply_mem_region second.thread subspace_stack stack perms.stack_perms second.space in
    record {
      result = (first.result, second.result, third.result);
      thread = third.thread;
      space = third.space;
    }
