-- ===== src/Lib.antt =====
-- Verification of Icarus, a small x86-64 kernel in C: the kernel maps its memory from the boot loader's
-- information, hands out physical frames and heap memory, schedules threads and talks to devices. The
-- development models the parts with state or bit-level reasoning of their own. C structs are records,
-- flat arrays are functions from an index or lists, numbers are natural numbers with the wrap-around of their C type
-- written out (Prelude/Words), and a C function that changes memory returns the new state. Where the C
-- function would leave its array, the model says so (`fault` or `none`).
--
-- Prelude: shared names; Prelude/Bits and Prelude/Align have the bits of a number and the masks of
--   include/kernel_helper.h, Prelude/Lists the list functions on native numbers.
-- BitMap: src/kernel/util/BitMap.c. BitMap/Defs has one function per C function, the loops of
--   `bitmap_set_len` and `bitmap_clear_len` shared over the write of one bit; their fuel is the distance to
--   the end, which each round shortens. BitMap/Fill, BitMap/Range and BitMap/Single have the theorems.
-- MemMap: src/kernel/Memory/PMM/mem_map.c with include/kernel/Memory/PMM/mem_map.h, a client of the
--   bitmap. MemMap/Word has `find_run_in_word` and the bit counts, MemMap/Defs the functions that register,
--   mark and release regions, MemMap/Alloc the allocator; MemMap/Layout describes the layout of regions
--   in the bitmap, MemMap/Mark and MemMap/Ranges what marking does, MemMap/Register the registration,
--   MemMap/Padding the padding of regions to whole 64-bit words, MemMap/Pages the lists of single pages, and MemMap/Alloc/* the search for a
--   run, its soundness, sequences of calls and the cases in which it goes wrong.
-- MemUtils: src/kernel/util/mem_utils.c, loops over flat memory; the memory map clears its bitmap with
--   `Imemset`.
-- Heap: src/kernel/Memory/alloc.c. The headers of blocks are a function from an address. The loop of
--   `Imalloc_alocator` has as much fuel as the heap has 16-byte units, and one more, since a block has
--   at least 16 bytes. The model stops where the function asks for more pages.
-- Keyboard: `kbd_translate` of src/kernel/Drivers/PS2/PS2_Keyboard.c with the tables of PS2_Scancode.h and the
--   handler of src/kernel/interrupts/ISR_handlers.c that prints. Keyboard/Modes is the description of a keyboard
--   that Keyboard/Decode compares it with.
-- Tar: `tar_count_files` and `parse` of src/kernel/util/Files/tar_parse.c over flat memory. `parse` has no bound of its
--   own, so its fuel is an argument. Tar/Archive describes an archive in memory with sizes of octal digits, and Tar/Octal the two readers of
--   such sizes.
-- Paging: src/kernel/Memory/paging.c with include/page_definitions.h and the macros of
--   include/kernel/Memory/memory_mapping.h, a client of the frame allocator of MemMap. A function from an address to an
--   entry stands for the memory that tables lie in. Paging/Frames says what it needs of the allocator, Paging/Route
--   describes the tables on the way to an address, Paging/Route/Open one upper level, and Paging/PageIn and Paging/PageOut
--   put mapping and unmapping beside `walk_table`.
-- Scheduler: src/kernel/Processes/Scheduling/scheduler.c with the control block of include/kernel/Processes/thread.h. The
--   search over the links has fuel, since nothing bounds a list that is not well linked; the length of the list is enough.
--   Scheduler/Links describes the list, Scheduler/Scan and Scheduler/Choice the search, Scheduler/Requeue the changes of
--   links, Scheduler/Picked the whole choice, Scheduler/Switch the change of threads, Scheduler/Fair repeated calls, and
--   Scheduler/Exit `thread_exit` of thread.c.
-- Console: src/kernel/util/shellio.c, with the bytes of text-mode memory. A round of a digit loop divides by 10 or 16, so 64
--   rounds are enough for 64 bits. Console/Text is the text that a format stands for, by a table of directives and numerals, Console/Numbers reads digits back,
--   and Console/Placement follows the cursor.
-- Madt: `handle_MADT` of src/kernel/Memory/DMA/ACPI/MADT.c over flat memory, with the structs of include/kernel/Memory/DMA. A
--   tag that is read has two bytes at least, so the length of the table bounds the rounds of a pass. The kernel's heap is a
--   parameter: what the new struct holds, for a size. Its arrays lie in one block, each with the room that the first pass
--   counts; where the counts of the new struct do not begin at zero, items leave their arrays, and the model stops.
-- Descriptors: src/kernel/GDT/gdt.c and TSS.c and src/kernel/interrupts/IDT.c. Descriptors/Decode reads entries as the processor
--   does; Descriptors/Stacks follows `init_tss` through the frame allocator of MemMap.
-- Threads: how src/kernel/Processes/thread.c supplies a thread with memory, a client of MemMap/Pages and Paging.
-- Ps2: src/kernel/Drivers/PS2/PS2_Controller.c over ports that are a record of what every read will give and of the
--   accesses so far. A loop has the 100,000 rounds of the source. Ps2/Init is `ps2_controller_init`; Ps2/Talk turns the accesses
--   into commands and answers, Ps2/Devices has the reset, Ps2/Setup the parts of the routine and Ps2/Protocol the whole.
-- Apic: src/kernel/interrupts/APIC/APIC.c and PIC.c over a machine that is a parameter, with what is documented of the I/O interrupt
--   controller and of the timer of ACPI as hypotheses. Apic/Routes and Apic/Entries are about the redirection table,
--   Apic/Timer and Apic/Ticks about the measurement of the local timer, whose rounds are an argument.
-- Mapping: src/kernel/Memory/memory_mapping.c and src/kernel/Memory/DMA/MMIO.c, clients of MemMap and Paging. The rounds of the
--   loops are an argument: an entry size of 0 in the boot loader's table makes the loop endless, and more rounds than entries
--   are enough for another one; for pages, one more than there are. Mapping/Entry and Mapping/Regions follow the table,
--   Mapping/Pages the pages.
-- Acpi: src/kernel/Memory/DMA/ACPI/ACPI.c over flat memory, with Madt for the table of interrupt controllers and Mapping for the
--   root table's page, and the base address registers of include/kernel/Memory/DMA/ACPI_helpers.h. Acpi/Checks is about the
--   check of a table, Acpi/Bars about the registers, whose device is a parameter with what the PCI bus documents.
--
-- Not modelled: assembly, device registers, fonts, and the parts of the kernel that are not named above (creation of
-- threads and processes, the search of the PCI bus, system calls, the tags of the boot loader's information but the memory map).
pub mod Prelude
pub mod BitMap
pub mod MemMap
pub mod Acpi
pub mod Apic
pub mod Console
pub mod Descriptors
pub mod Heap
pub mod Keyboard
pub mod Madt
pub mod Mapping
pub mod MemUtils
pub mod Paging
pub mod Ps2
pub mod Scheduler
pub mod Tar
pub mod Threads
