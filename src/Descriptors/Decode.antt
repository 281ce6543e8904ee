-- ===== src/Descriptors/Decode.antt =====
-- The entries of src/kernel/GDT/gdt.c and src/kernel/interrupts/IDT.c, read as the processor reads them.
use icarus.Prelude.{
  ℕ, zero, suc, ◌+◌, ◌*◌, ◌/◌, ◌%◌, ◌^◌, ◌≤◌, ◌<◌, ◌≡◌, refl, sym, ap, ◌∙◌, arith, ◌==◌,
  if◌then◌else◌, Bool-cases, ==_iff, inl, inr, false,
}
use icarus.Descriptors.{
  GdtEntry, Gdt, gdt_set_entry, gdt_init, IdtEntry, Idt, idt_set_descriptor, set_all, idt_init,
}

-- the base and the limit that a descriptor stands for, and its four flags
abbrev pub base_of : GdtEntry → ℕ
base_of e = e.base_low + e.base_mid * 2 ^ 16 + e.base_high * 2 ^ 24

abbrev pub limit_of : GdtEntry → ℕ
limit_of e = e.limit_low + e.granularity % 16 * 2 ^ 16

abbrev pub flags_of : GdtEntry → ℕ
flags_of e = e.granularity / 16

-- a code or data segment: all addresses, in pages
pub record IsFlat (access flags : ℕ) (e : GdtEntry) : Type 0 where
  pub base : base_of e ≡ 0
  pub limit : limit_of e ≡ 0xFFFFF
  pub access_is : e.access ≡ access
  pub flags_is : flags_of e ≡ flags

-- The table after `gdt_init`, for any 64-bit address of the task state segment: the null descriptor, the four flat segments with their access bytes and
-- flags, and the descriptor of the task state segment, whose two places give its address and its last byte.
gdt_init_decoded :
    (gdt : Gdt) (tss_base : ℕ)
    → tss_base < 2 ^ 64
    → let out = gdt_init gdt tss_base in
      (base_of (out.entries 0) ≡ 0)
      × ((out.entries 0).access ≡ 0)
      × IsFlat 0x9A 0xA (out.entries 1)
      × IsFlat 0x92 0xC (out.entries 2)
      × IsFlat 0xF2 0xC (out.entries 3)
      × IsFlat 0xFA 0xA (out.entries 4)
      × (base_of (out.entries 5) + out.base_upper32 * 2 ^ 32 ≡ tss_base)
      × (limit_of (out.entries 5) ≡ 103)
      × ((out.entries 5).access ≡ 0x89)
unfolding gdt_init gdt_set_entry
gdt_init_decoded gdt tss_base lt = (
  refl,
  refl,
  record { base = refl; limit = refl; access_is = refl; flags_is = refl },
  record { base = refl; limit = refl; access_is = refl; flags_is = refl },
  record { base = refl; limit = refl; access_is = refl; flags_is = refl },
  record { base = refl; limit = refl; access_is = refl; flags_is = refl },
  omega arith,
  refl,
  refl,
)

-- the address that a gate leads to
abbrev pub handler_of : IdtEntry → ℕ
handler_of e = e.isr_low + e.isr_mid * 2 ^ 16 + e.isr_high * 2 ^ 32

pub record IsGate (isr ist : ℕ) (e : IdtEntry) : Type 0 where
  pub handler : handler_of e ≡ isr
  pub segment : e.kernel_cs ≡ 8
  pub stack : e.ist ≡ ist
  pub attributes_is : e.attributes ≡ 0x8E

set_all-below :
    (isr_table : ℕ → ℕ) (n v w : ℕ) (idt : Idt) → w < v → set_all isr_table n v idt w ≡ idt w
unfolding set_all idt_set_descriptor
set_all-below isr_table zero v w idt lt = refl
set_all-below isr_table (suc n) v w idt lt =
    let e : (w == v) ≡ false = ground arith in
    set_all-below isr_table n (v + 1) w (idt_set_descriptor idt v (isr_table v) 0x8E 0)
      (omega (arith, lt))
    ∙ rw e refl

set_all-IsGate :
    (isr_table : ℕ → ℕ) (n v w : ℕ) (idt : Idt)
    → v ≤ w
    → w < v + n
    → isr_table w < 2 ^ 64
    → IsGate (isr_table w) 0 (set_all isr_table n v idt w)
unfolding set_all idt_set_descriptor
set_all-IsGate isr_table zero v w idt ge lt small = absurd (omega (arith, ge, lt))
set_all-IsGate isr_table (suc n) v w idt ge lt small = elim (Bool-cases (w == v)) [
  | inl e ↦
      let here =
        set_all-below isr_table n (v + 1) w (idt_set_descriptor idt v (isr_table v) 0x8E 0)
          (ground (arith, e)) in
      rw (here, e, sym ((==_iff w v).0 e))
        (record {
          handler = omega (arith, small);
          segment = refl;
          stack = refl;
          attributes_is = refl;
        })
  | inr e ↦
      set_all-IsGate isr_table n (v + 1) w (idt_set_descriptor idt v (isr_table v) 0x8E 0)
        (ground (arith, e, ge)) (omega (arith, lt)) small
]

-- Every vector has its gate after `idt_init`: it leads to its own stub, if that has a 64-bit address, in the kernel's code segment, as an interrupt gate
-- that is present; only the double fault, vector 8, switches to the first interrupt stack.
pub idt_init-IsGate :
    (isr_table : ℕ → ℕ) (idt : Idt) (v : ℕ)
    → v < 256
    → isr_table v < 2 ^ 64
    → IsGate (isr_table v) (if v == 8 then 1 else 0) (idt_init isr_table idt v)
unfolding idt_init
idt_init-IsGate isr_table idt v lt small =
    let g = set_all-IsGate isr_table 256 0 v idt (omega arith) (omega (arith, lt)) small in
    elim (Bool-cases (v == 8)) [
      | inl e ↦
          let is_eight = (==_iff v 8).0 e in
          let small8 : isr_table 8 < 2 ^ 64 = omega (arith, small, ap isr_table is_eight) in
          let g8 = set_all-IsGate isr_table 256 0 8 idt (omega arith) (omega arith) small8 in
          rw e (record {
            handler = g8.handler ∙ ap isr_table (sym is_eight);
            segment = g8.segment;
            stack = refl;
            attributes_is = g8.attributes_is;
          })
      | inr e ↦ rw e g
    ]
