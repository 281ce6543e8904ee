-- ===== src/Descriptors/Tests.antt =====
-- Witnesses for src/kernel/GDT/gdt.c, src/kernel/GDT/TSS.c and src/kernel/interrupts/IDT.c.
use icarus.Prelude.{ℕ, ◌+◌, ◌*◌, ◌≡◌, refl, sym, arith, List, [], ◌∷◌}
use mathlib.Core.Path.{subst}
use icarus.BitMap.{
  bitmap_set_len, write_range, remaining_bits, whole_bytes, until_aligned, set_bit, update,
}
use icarus.MemMap.Alloc.{ialloc_kframe, map_alloc_frame_contiguous}
use icarus.MemMap.Word.{ctzll, find_run_in_word}
use icarus.MemMap.Layout.{used}
use icarus.MemMap.Tests.{two_used, two_used-IsReady}
use icarus.Descriptors.{Gdt, GdtEntry, IdtEntry, idt_init, init_tss, alloc_stacks, tss_alloc_stack}
use icarus.Descriptors.Decode.{IsGate, idt_init-IsGate}
use icarus.Descriptors.Stacks.{IsBelow, NoneFailed, PairwiseApart, init_tss-PairwiseApart}

abbrev no_entry : GdtEntry
no_entry = record {
  limit_low = 0;
  base_low = 0;
  base_mid = 0;
  access = 0;
  granularity = 0;
  base_high = 0;
}

abbrev no_gdt : Gdt
no_gdt = record { entries = λ k. no_entry; base_upper32 = 0; reserved = 0 }

abbrev no_gate : IdtEntry
no_gate = record {
  isr_low = 0;
  kernel_cs = 0;
  ist = 0;
  attributes = 0;
  isr_mid = 0;
  isr_high = 0;
  reserved = 0;
}

-- stubs of 16 bytes one behind another
abbrev stubs : ℕ → ℕ
stubs v = 0xFFFFFFFF80200000 + v * 16

idt_init-IsGate_example : IsGate 0xFFFFFFFF80200080 1 (idt_init stubs (λ v. no_gate) 8)
idt_init-IsGate_example = idt_init-IsGate stubs (λ v. no_gate) 8 (omega arith) (omega arith)

two_used-IsBelow : IsBelow two_used
unfolding used
two_used-IsBelow = record { ready = two_used-IsReady; low = λ a le. ground arith }

abbrev tops : List ℕ
tops =
    18446744071563141120 ∷ 18446744071563157504 ∷ 18446744071563173888 ∷ 18446744071563190272
    ∷ 18446744071563206656 ∷ 18446744071563223040 ∷ 18446744071563239424 ∷ 18446744071563255808 ∷ []

tops_taken : (init_tss two_used).0.rsp0 ∷ (init_tss two_used).0.ists ≡ tops
unfolding init_tss alloc_stacks tss_alloc_stack ialloc_kframe map_alloc_frame_contiguous ctzll
    find_run_in_word bitmap_set_len write_range remaining_bits whole_bytes until_aligned set_bit
    update
tops_taken = refl

none_failed : NoneFailed tops
none_failed = (
  omega arith,
  (
    omega arith,
    (omega arith, (omega arith, (omega arith, (omega arith, (omega arith, (omega arith, tt)))))),
  ),
)

init_tss-PairwiseApart_example :
    PairwiseApart ((init_tss two_used).0.rsp0 ∷ (init_tss two_used).0.ists)
init_tss-PairwiseApart_example =
    init_tss-PairwiseApart two_used two_used-IsBelow (subst NoneFailed (sym tops_taken) none_failed)
