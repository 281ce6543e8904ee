-- ===== src/Threads/Tests.antt =====
-- A witness for src/kernel/Processes/thread.c: a new thread, and pages of the map that Paging/Tests uses.
use icarus.Prelude.{false, refl}
use icarus.MemMap.Tests.{two_used, three_pages}
use icarus.Paging.{Space, zero_entry}
use icarus.Threads.{
  Thread, AllocationInfo, PermissionInfo, thread_supply_new_mem, thread_supply_mem,
}
use icarus.Threads.Balance.{IsBalanced, thread_supply-IsBalanced}

abbrev new_thread : Thread
new_thread = record {
  page_table = 1048576;
  privileged = false;
  memory = record { code_size = 0; mapping_size = 0; stack_size = 0; memory_limit = 0 };
}

abbrev space : Space
space = record { tables = λ a. zero_entry; frames = two_used }

abbrev one_each : AllocationInfo
one_each = record {
  code_pages = 1;
  code_page_size = 4096;
  mapping_pages = 1;
  mapping_page_size = 4096;
  stack_pages = 1;
  stack_page_size = 4096;
}

abbrev writeable : PermissionInfo
writeable = record { code_perms = 2; mapping_perms = 2; stack_perms = 2 }

thread_supply-IsBalanced_example :
    IsBalanced (thread_supply_new_mem new_thread one_each writeable space).thread.memory
    × IsBalanced
        (thread_supply_mem new_thread three_pages three_pages three_pages writeable
          space).thread.memory
thread_supply-IsBalanced_example =
    thread_supply-IsBalanced new_thread one_each three_pages three_pages three_pages writeable space
      (record { sum = refl })
