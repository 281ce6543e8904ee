-- ===== src/Paging/Tests.antt =====
-- Witnesses for src/kernel/Memory/paging.c: a map of one region below 2 GiB whose first page is the top table.
use icarus.Prelude.{ℕ, ◌*◌, ◌/◌, ◌≡◌, refl, arith, [], ◌∷◌, ◌==◌, if◌then◌else◌}
use icarus.BitMap.{ok}
use icarus.MemMap.Tests.{two_used, two_used-IsReady}
use icarus.MemMap.Alloc.{ialloc_kframe, map_alloc_frame_contiguous}
use icarus.MemMap.Word.{ctzll, find_run_in_word}
use icarus.BitMap.{
  bit, bitmap_set_len, write_range, remaining_bits, whole_bytes, until_aligned, set_bit, update,
}
use icarus.Prelude.Bits.{testbit}
use icarus.MemMap.Layout.{used}
use icarus.Paging.{
  Tables, Space, zero_entry, entry_at, huge_ps, va_pml4_index, va_pdpt_index, va_pd_index, page_in,
  walk_table, walk_pdpt, walk_pd, done, page_out, with_table, page_in_pdpt, page_in_pd, map_leaf,
  huge_leaf, ensure_table, write_entry, clear_table, ppn_of, apply_upper_perms, apply_leaf_perms,
  table_addr,
}
use icarus.Paging.Frames.{IsLow}
use icarus.Paging.Route.{Route, Route-empty}
use icarus.Paging.PageIn.{walk_table-page_in}
use icarus.Paging.PageOut.{Outcome, page_out-Outcome}

abbrev no_tables : Tables
no_tables a = zero_entry

abbrev start : Space
start = record { tables = no_tables; frames = two_used }

-- an address of the kernel's half, and the frame behind it
abbrev virt : ℕ
virt = 0xFFFF800000600000

abbrev phys : ℕ
phys = 0x400000

two_used-IsLow : IsLow two_used
unfolding used
two_used-IsLow = record { ready = two_used-IsReady; low = λ a le. ground arith }

empty-Route :
    Route
      (va_pml4_index virt ∷ va_pdpt_index virt ∷ va_pd_index virt ∷ [])
      (λ _. ⊥)
      no_tables
      two_used
      1048576
unfolding used bit testbit
empty-Route =
    Route-empty (va_pml4_index virt ∷ va_pdpt_index virt ∷ va_pd_index virt ∷ []) (λ _. ⊥) no_tables
      two_used 1048576 (omega arith, (omega arith, (omega arith, tt)))
      (record { aligned = refl; fits = omega arith; in_use = refl; fresh = λ none. none })
      (λ k lt. refl)

paged_in : (page_in start 1048576 virt phys huge_ps 2).0 ≡ ok
unfolding page_in with_table page_in_pdpt page_in_pd map_leaf huge_leaf ensure_table write_entry
    clear_table ppn_of apply_upper_perms apply_leaf_perms table_addr ialloc_kframe
    map_alloc_frame_contiguous ctzll find_run_in_word bitmap_set_len write_range remaining_bits
    whole_bytes until_aligned set_bit update
paged_in = refl

walk_table-page_in_example :
    walk_table (page_in start 1048576 virt phys huge_ps 2).1.tables 1048576 virt
    ≡ phys / 4096 * 4096
walk_table-page_in_example =
    walk_table-page_in start 1048576 virt phys huge_ps 2 two_used-IsLow empty-Route (omega arith)
      paged_in

-- a huge page of 2 MiB below tables at 4096, 8192 and 12288
abbrev huge_mapped : Tables
huge_mapped a =
    if a == entry_at 4096 (va_pml4_index virt)
    then record zero_entry { present = 1; page_ppn = 2 }
    else if a == entry_at 8192 (va_pdpt_index virt)
    then record zero_entry { present = 1; page_ppn = 3 }
    else if a == entry_at 12288 (va_pd_index virt)
    then record zero_entry { present = 1; huge = 1; page_ppn = 1024 }
    else zero_entry

page_out-Outcome_example : Outcome huge_mapped 4096 virt (page_out huge_mapped 4096 virt)
page_out-Outcome_example = page_out-Outcome huge_mapped 4096 virt

-- the page is mapped, and unmapped behind the call
huge_found : walk_table huge_mapped 4096 virt ≡ phys
unfolding walk_table walk_pdpt walk_pd table_addr
huge_found = refl

huge_unmapped : (page_out huge_mapped 4096 virt).0 ≡ done
unfolding page_out write_entry table_addr
huge_unmapped = refl

-- For a huge page that is present, `page_out` goes on to a fourth level, and clears a word of the mapped frame.
page_out_clears_data :
    (page_out
        (λ a. if a == phys then record zero_entry { page_ppn = 77 } else huge_mapped a)
        4096
        virt).1
      phys
    ≡ zero_entry
unfolding page_out write_entry table_addr
page_out_clears_data = refl
