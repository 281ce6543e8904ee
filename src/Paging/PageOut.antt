-- ===== src/Paging/PageOut.antt =====
-- `page_out` and `test_walk_table` of src/kernel/Memory/paging.c beside `walk_table`.
use icarus.Prelude.{
  ℕ, ◌≤◌, ◌≡◌, ◌≢◌, refl, ◌⊎◌, inl, inr, arith, Bool-cases, ◌==◌, ◌&&◌, true, false,
}
use icarus.Paging.{
  Entry, Tables, entry_at, next_table, zero_entry, write_entry, walk_table, test_walk_table,
  walk_pdpt, walk_pd, page_out, PagedOut, done, invalid_phys_addr, va_pml4_index, va_pdpt_index,
  va_pd_index,
}

-- writing zero keeps an entry that is zero, and makes the one written zero
zero_stays : (t : Tables) (at a : ℕ) → t a ≡ zero_entry → write_entry t at zero_entry a ≡ zero_entry
unfolding write_entry
zero_stays t at a e = elim (Bool-cases (at == a)) [ inl h ↦ rw h refl | inr h ↦ rw h e ]

zero_written : (t : Tables) (at : ℕ) → write_entry t at zero_entry at ≡ zero_entry
unfolding write_entry
zero_written t at = ground arith

walk_table-zero :
    (t : Tables) (pml4 virt : ℕ)
    → t (entry_at pml4 (va_pml4_index virt)) ≡ zero_entry
    → walk_table t pml4 virt ≡ invalid_phys_addr
unfolding walk_table
walk_table-zero t pml4 virt e = rw e refl

-- the entries of the first and the second level for an address
abbrev pub first_entry : Tables → (pml4 virt : ℕ) → Entry
first_entry t pml4 virt = t (entry_at pml4 (va_pml4_index virt))

abbrev pub second_entry : Tables → (pml4 virt : ℕ) → Entry
second_entry t pml4 virt =
    t (entry_at (next_table t pml4 (va_pml4_index virt)) (va_pdpt_index virt))

-- what a call of `page_out` does
abbrev pub Outcome : Tables → (pml4 virt : ℕ) → PagedOut × Tables → Type 0
Outcome t pml4 virt out =
    ((out.0 ≡ done)
      × ((first_entry t pml4 virt).present ≢ 0)
      × ((other : ℕ)
          → va_pml4_index other ≡ va_pml4_index virt
          → walk_table out.1 pml4 other ≡ invalid_phys_addr))
    ⊎ ((out.0 ≢ done)
        × (out.1 ≡ t)
        × ((walk_table t pml4 virt ≡ invalid_phys_addr) ⊎ ((second_entry t pml4 virt).huge ≡ 1)))

not_zero : (n : ℕ) → n == 0 ≡ false → n ≢ 0
not_zero n e = ground arith

unmapped :
    (t t' : Tables) (pml4 virt : ℕ)
    → (first_entry t pml4 virt).present == 0 ≡ false
    → t' (entry_at pml4 (va_pml4_index virt)) ≡ zero_entry
    → Outcome t pml4 virt (done, t')
unmapped t t' pml4 virt there e =
    inl (refl, not_zero _ there, λ other same. walk_table-zero t' pml4 other (rw same e))

-- where no entry is present, the walk finds no address, apart from a huge page of the second level
no_first :
    (t : Tables) (pml4 virt : ℕ)
    → (first_entry t pml4 virt).present == 0 ≡ true
    → walk_table t pml4 virt ≡ invalid_phys_addr
unfolding walk_table
no_first t pml4 virt a = rw a refl

no_second :
    (t : Tables) (pml4 virt : ℕ)
    → (second_entry t pml4 virt).present == 0 ≡ true
    → walk_table t pml4 virt ≡ invalid_phys_addr
unfolding walk_table walk_pdpt
no_second t pml4 virt c = ground arith

no_third :
    (t : Tables) (pml4 virt : ℕ)
    → (t (
          entry_at
            (next_table t (next_table t pml4 (va_pml4_index virt)) (va_pdpt_index virt))
            (va_pd_index virt))).present
        == 0
      ≡ true
    → (walk_table t pml4 virt ≡ invalid_phys_addr) ⊎ ((second_entry t pml4 virt).huge ≡ 1)
unfolding walk_table walk_pdpt walk_pd
no_third t pml4 virt f = elim (Bool-cases ((second_entry t pml4 virt).huge == 1)) [
  | inl h ↦ inr (ground arith)
  | inr h ↦ inl (ground arith)
]

-- `page_out` unmaps what is mapped. Either it comes to 0: then the entry of the top table was present, and no address
-- below that entry is mapped any more. Or it returns an error and the tables are as they were: then the walk found
-- no address for this one before either, unless the entry of the second level is a huge page.
pub page_out-Outcome : (t : Tables) (pml4 virt : ℕ) → Outcome t pml4 virt (page_out t pml4 virt)
unfolding page_out
page_out-Outcome t pml4 virt =
    let at4 : ℕ = entry_at pml4 (va_pml4_index virt) in
    let at3 : ℕ = entry_at (next_table t pml4 (va_pml4_index virt)) (va_pdpt_index virt) in
    let at2 : ℕ =
      entry_at (next_table t (next_table t pml4 (va_pml4_index virt)) (va_pdpt_index virt))
        (va_pd_index virt) in
    let first : Tables = write_entry t at4 zero_entry in
    let gone3 : write_entry first at3 zero_entry at4 ≡ zero_entry =
      zero_stays first at3 at4 (zero_written t at4) in
    let gone2 : write_entry (write_entry first at3 zero_entry) at2 zero_entry at4 ≡ zero_entry =
      zero_stays (write_entry first at3 zero_entry) at2 at4 gone3 in
    elim (Bool-cases ((t at4).present == 0)) [
      | inl a ↦ rw a (inr (λ e. cc, refl, inl (no_first t pml4 virt a)))
      | inr a ↦ elim (Bool-cases (((t at3).huge == 1) && ((t at3).present == 0))) [
        | inl b ↦ rw (a, b) (unmapped t (write_entry first at3 zero_entry) pml4 virt a gone3)
        | inr b ↦ elim (Bool-cases ((t at3).present == 0)) [
          | inl c ↦ rw (a, b, c) (inr (λ e. cc, refl, inl (no_second t pml4 virt c)))
          | inr c ↦ elim (Bool-cases (((t at2).huge == 1) && ((t at2).present == 0))) [
            | inl d ↦ rw (a, b, c, d) (unmapped t _ pml4 virt a gone2)
            | inr d ↦ elim (Bool-cases ((t at2).present == 0)) [
              | inl f ↦ rw (a, b, c, d, f) (inr (λ e. cc, refl, no_third t pml4 virt f))
              | inr f ↦
                  rw (a, b, c, d, f)
                    (unmapped t _ pml4 virt a (
                      zero_stays (write_entry (write_entry first at3 zero_entry) at2 zero_entry) _
                        at4 gone2))
            ]
          ]
        ]
      ]
    ]

-- The walk that tests use comes to the same address as `walk_table`, if the entry of the second level
-- is no huge page and the present bit at the third level is a bit.
test_walk_table-walk_table :
    (t : Tables) (pml4 virt : ℕ)
    → let pdpt = next_table t pml4 (va_pml4_index virt) in
      let pd = next_table t pdpt (va_pdpt_index virt) in
      (t (entry_at pdpt (va_pdpt_index virt))).huge ≢ 1
      → (t (entry_at pd (va_pd_index virt))).present ≤ 1
      → test_walk_table t pml4 virt ≡ walk_table t pml4 virt
unfolding test_walk_table walk_table walk_pdpt walk_pd
test_walk_table-walk_table t pml4 virt plain bit = ground arith
