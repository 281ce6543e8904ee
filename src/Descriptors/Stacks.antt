-- ===== src/Descriptors/Stacks.antt =====
-- The stacks that `init_tss` of src/kernel/GDT/TSS.c takes from the frame allocator.
use icarus.Prelude.{
  ℕ, zero, suc, ◌+◌, ◌-◌, ◌*◌, ◌/◌, ◌%◌, ◌^◌, ◌≤◌, ◌<◌, ◌≡◌, ◌≢◌, refl, sym, ap, ◌∙◌, ◌⊎◌, inl, inr,
  arith, ◌==◌, List, [], ◌∷◌, true, false, dec_le,
}
use icarus.Prelude.Words.{add64}
use icarus.MemMap.Defs.{MemMap}
use icarus.MemMap.Layout.{used}
use icarus.MemMap.Alloc.{frame_alloc_failed, ialloc_kframe}
use icarus.MemMap.Alloc.Sound.{IsReady, Reserved, map_alloc_frame_contiguous_outcome}
use icarus.Descriptors.{kernel_vma, tss_alloc_stack, alloc_stacks, init_tss}

-- The map is fit for allocation, and its free frames lie below the last page under 2 GiB, so that a stack's top fits 64 bits.
pub record IsBelow (m : MemMap) : Type 0 where
  pub ready : IsReady m
  pub low : (a : ℕ) → 2 ^ 31 - 4096 ≤ a → used m a ≡ 1

-- the physical address below a stack's top
abbrev pub bottom : ℕ → ℕ
bottom top = top - kernel_vma - 16384

-- the frames of the stack were free in `m`, and in `m'` they are used, with all that was used before
pub record IsStack (m : MemMap) (top : ℕ) (m' : MemMap) : Type 0 where
  pub aligned : top % 16 ≡ 0
  pub top_is : top ≡ bottom top + 16384 + kernel_vma
  pub was_free : (a : ℕ) → bottom top ≤ a → a < bottom top + 16384 → used m a ≡ 0
  pub now_used : (a : ℕ) → bottom top ≤ a → a < bottom top + 16384 → used m' a ≡ 1
  pub still_used : (a : ℕ) → used m a ≡ 1 → used m' a ≡ 1

abbrev stack_top : ℕ → ℕ
stack_top phys = add64 (add64 phys kernel_vma) 16384 / 16 * 16

stack_top_lem :
    (phys : ℕ)
    → phys % 4096 ≡ 0
    → phys + 16384 ≤ 2 ^ 31 - 4096
    → (stack_top phys ≡ phys + 16384 + kernel_vma) × (bottom (stack_top phys) ≡ phys)
stack_top_lem phys al low = (omega arith, omega arith)

module _ (m : MemMap) (b : IsBelow m) (out : ℕ × MemMap) (ready : IsReady out.1)
    (r : Reserved 4 m out) where
  reserved_low : out.0 + 16384 ≤ 2 ^ 31 - 4096
  reserved_low = elim (dec_le (out.0 + 16384) (2 ^ 31 - 4096)) [
    | yes le ↦ le
    | no gt ↦ absurd (
        omega (
          arith,
          r.was_free (out.0 + 16383) (omega arith) (omega arith),
          b.low (out.0 + 16383) (omega arith),
        ))
  ]

  reserved-IsStack : IsStack m (stack_top out.0) out.1
  reserved-IsStack =
      let (top, bottom_is) = stack_top_lem out.0 r.start_aligned reserved_low in
      record {
        aligned = omega arith;
        top_is = top ∙ ap (λ n. n + 16384 + kernel_vma) (sym bottom_is);
        was_free =
            λ a ge lt. r.was_free a (omega (arith, bottom_is, ge)) (omega (arith, bottom_is, lt));
        now_used = λ a ge lt.
            let ge' : out.0 ≤ a = omega (arith, bottom_is, ge) in
            let lt' : a < out.0 + 16384 = omega (arith, bottom_is, lt) in
            ground (arith, r.now_used a);
        still_used = λ a u. ground (arith, r.now_used a);
      }

  reserved-IsBelow : IsBelow out.1
  reserved-IsBelow = record {
    ready = ready;
    low = λ a le. ground (arith, r.now_used a, b.low a le);
  }

-- One call: no stack, or one whose frames were free.
tss_alloc_stack-IsStack :
    (m : MemMap)
    → IsBelow m
    → (tss_alloc_stack m).0 ≢ frame_alloc_failed
    → IsBelow (tss_alloc_stack m).1 × IsStack m (tss_alloc_stack m).0 (tss_alloc_stack m).1
unfolding tss_alloc_stack ialloc_kframe
tss_alloc_stack-IsStack m b got =
    let (ready, outcome) = map_alloc_frame_contiguous_outcome m 4 b.ready (omega arith) in
    elim outcome [
      | inl r ↦
          let low = reserved_low m b (ialloc_kframe m 4 4096) ready r in
          let ok : ((ialloc_kframe m 4 4096).0 == frame_alloc_failed) ≡ false =
            ground (arith, low) in
          rw ok (
            reserved-IsBelow m b (ialloc_kframe m 4 4096) ready r,
            reserved-IsStack m b (ialloc_kframe m 4 4096) ready r,
          )
      | inr (failed, _, _) ↦
          let none : ((ialloc_kframe m 4 4096).0 == frame_alloc_failed) ≡ true =
            ground (arith, failed) in
          absurd (got (rw none refl))
    ]

-- the stacks behind one another, each with frames that were free after those before
abbrev pub NoneFailed : List ℕ → Type 0
NoneFailed [] = Unit
NoneFailed (top ∷ tops) = (top ≢ frame_alloc_failed) × NoneFailed tops

abbrev pub AllApart : ℕ → List ℕ → Type 0
AllApart top [] = Unit
AllApart top (t ∷ tops) = ((top + 16384 ≤ t) ⊎ (t + 16384 ≤ top)) × AllApart top tops

abbrev pub PairwiseApart : List ℕ → Type 0
PairwiseApart [] = Unit
PairwiseApart (top ∷ tops) = (top % 16 ≡ 0) × AllApart top tops × PairwiseApart tops

later_apart :
    (m : MemMap) (top n : ℕ)
    → IsBelow m
    → top ≡ bottom top + 16384 + kernel_vma
    → ((a : ℕ) → bottom top ≤ a → a < bottom top + 16384 → used m a ≡ 1)
    → NoneFailed (alloc_stacks n m).0
    → AllApart top (alloc_stacks n m).0
unfolding alloc_stacks
later_apart m top zero b top_is taken got = tt
later_apart m top (suc n) b top_is taken got =
    let (b', s) = tss_alloc_stack-IsStack m b got.0 in
    (
      apart (tss_alloc_stack m).0 s,
      later_apart (tss_alloc_stack m).1 top n b' top_is (λ a ge lt. s.still_used a (taken a ge lt))
          got.1,
    )
  where
    apart : (t : ℕ) → IsStack m t (tss_alloc_stack m).1 → (top + 16384 ≤ t) ⊎ (t + 16384 ≤ top)
    apart t s = elim (dec_le (bottom top + 16384) (bottom t)) [
      | yes up ↦ inl (omega (arith, top_is, s.top_is))
      | no overlap ↦ elim (dec_le (bottom t + 16384) (bottom top)) [
        | yes down ↦ inr (omega (arith, top_is, s.top_is))
        | no both ↦ elim (dec_le (bottom top) (bottom t)) [
          | yes le ↦ absurd (
              omega (
                arith,
                taken (bottom t) (omega arith) (omega arith),
                s.was_free (bottom t) (omega arith) (omega arith),
              ))
          | no gt ↦ absurd (
              omega (
                arith,
                taken (bottom top) (omega arith) (omega arith),
                s.was_free (bottom top) (omega arith) (omega arith),
              ))
        ]
      ]
    ]

alloc_stacks-PairwiseApart :
    (n : ℕ) (m : MemMap)
    → IsBelow m
    → NoneFailed (alloc_stacks n m).0
    → PairwiseApart (alloc_stacks n m).0
unfolding alloc_stacks
alloc_stacks-PairwiseApart zero m b got = tt
alloc_stacks-PairwiseApart (suc n) m b got =
    let (b', s) = tss_alloc_stack-IsStack m b got.0 in
    (
      s.aligned,
      later_apart (tss_alloc_stack m).1 (tss_alloc_stack m).0 n b' s.top_is s.now_used got.1,
      alloc_stacks-PairwiseApart n (tss_alloc_stack m).1 b' got.1,
    )

-- The eight stacks of `init_tss` do not overlap: if no allocation fails, the ranges of 16 KiB below any two of their
-- tops are disjoint, and every top is a multiple of 16. The map is fit for allocation, and its free frames lie below the
-- last page under 2 GiB.
pub init_tss-PairwiseApart :
    (m : MemMap)
    → IsBelow m
    → NoneFailed ((init_tss m).0.rsp0 ∷ (init_tss m).0.ists)
    → PairwiseApart ((init_tss m).0.rsp0 ∷ (init_tss m).0.ists)
unfolding init_tss alloc_stacks
init_tss-PairwiseApart m b got = alloc_stacks-PairwiseApart 8 m b got
