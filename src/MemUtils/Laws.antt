-- ===== src/MemUtils/Laws.antt =====
-- What the loops of src/kernel/util/mem_utils.c do to memory, and what a comparison says.
use icarus.Prelude.{
  ℕ, zero, suc, ◌+◌, ◌-◌, ◌≤◌, ◌<◌, ◌≡◌, ◌⊎◌, inl, inr, refl, ltb, leb, ◌==◌, ◌&&◌, if◌then◌else◌,
  arith, Bool-cases, dec_lt, ==_iff,
}
use icarus.BitMap.{Bytes, update}
use icarus.MemUtils.{
  Compared, equal, below, above, difference, imemset, copy_from, imemcpy, compare_from, istrncmp,
  imemcmp,
}

-- `Imemset` stores the value in the `length` bytes from the address on, and in no other.
pub imemset_lem :
    (memory : Bytes) (addr val length a : ℕ)
    → imemset memory addr val length a
      ≡ (if leb addr a && ltb a (addr + length) then val else memory a)
unfolding imemset update
imemset_lem memory addr val zero a = ground arith
imemset_lem memory addr val (suc n) a =
    ground (arith, imemset_lem (update memory addr val) (addr + 1) val n a)

update_at : (d : Bytes) (b v c : ℕ) → update d b v c ≡ (if b == c then v else d c)
unfolding update
update_at d b v c = refl

module _ (original : Bytes) (dest src length : ℕ)
    (apart : (dest ≤ src) ⊎ (src + length ≤ dest)) where
  kept :
      (i : ℕ) (memory : Bytes) (j : ℕ)
      → ((j : ℕ) → i ≤ j → j < length → memory (src + j) ≡ original (src + j))
      → i + 1 ≤ j
      → j < length
      → update memory (dest + i) (memory (src + i)) (src + j) ≡ original (src + j)
  unfolding update
  kept i memory j same le lt = elim apart [
    | inl low ↦ ground (arith, same j (omega arith) lt)
    | inr high ↦ ground (arith, same j (omega arith) lt)
  ]

  -- with `n` bytes left, those still to be read are as they were
  copy_from_lem :
      (n i : ℕ) (memory : Bytes) (a : ℕ)
      → i + n ≡ length
      → ((j : ℕ) → i ≤ j → j < length → memory (src + j) ≡ original (src + j))
      → copy_from n memory dest src i a ≡ (
          if leb (dest + i) a && ltb a (dest + length)
          then original (src + (a - dest))
          else memory a)
  unfolding copy_from
  copy_from_lem zero i memory a e same = ground arith
  copy_from_lem (suc n) i memory a e same =
      let rest =
        copy_from_lem n (i + 1) (update memory (dest + i) (memory (src + i))) a (omega arith)
          (λ j le lt. kept i memory j same le lt) in
      elim (dec_lt a (dest + i + 1)) [
        | yes near ↦ elim (dec_lt a (dest + i)) [
          | yes before ↦ ground (arith, rest, update_at memory (dest + i) (memory (src + i)) a)
          | no ge ↦
              let at : src + (a - dest) ≡ src + i = omega arith in
              ground (
                arith,
                rest,
                at,
                same i (omega arith) (omega arith),
                update_at memory (dest + i) (memory (src + i)) a,
              )
        ]
        | no far ↦ ground (arith, rest, update_at memory (dest + i) (memory (src + i)) a)
      ]

-- If the destination does not begin inside the source behind its first byte, `Imemcpy` stores the bytes that the
-- source had before the call, overlapping or not, and changes no other byte.
pub imemcpy_lem :
    (memory : Bytes) (dest src length a : ℕ)
    → (dest ≤ src) ⊎ (src + length ≤ dest)
    → imemcpy memory dest src length a
      ≡ (if leb dest a && ltb a (dest + length) then memory (src + (a - dest)) else memory a)
unfolding imemcpy
imemcpy_lem memory dest src length a apart =
    let e : dest + 0 ≡ dest = omega arith in
    rw e at
      (copy_from_lem memory dest src length apart length 0 memory a (omega arith) (λ j le lt. refl))

-- What a comparison of the `n` bytes from `p` and from `q` on says.
pub data CompareResult (memory : Bytes) (p q n : ℕ) : Compared → Type 0 where
  agree : ((j : ℕ) → j < n → memory (p + j) ≡ memory (q + j)) → CompareResult memory p q n equal
  lower :
      {d : ℕ} (k : ℕ)
      → k < n
      → ((j : ℕ) → j < k → memory (p + j) ≡ memory (q + j))
      → memory (p + k) < memory (q + k)
      → CompareResult memory p q n (below d)
  higher :
      {d : ℕ} (k : ℕ)
      → k < n
      → ((j : ℕ) → j < k → memory (p + j) ≡ memory (q + j))
      → memory (q + k) < memory (p + k)
      → CompareResult memory p q n (above d)

shifted :
    (memory : Bytes) (p q : ℕ)
    → memory p ≡ memory q
    → (n : ℕ) → ((j : ℕ) → j < n → memory (p + 1 + j) ≡ memory (q + 1 + j))
    → (j : ℕ) → j < suc n
    → memory (p + j) ≡ memory (q + j)
shifted memory p q e n all zero lt =
    let a : p + 0 ≡ p = omega arith in let b : q + 0 ≡ q = omega arith in rw (a, b) e
shifted memory p q e n all (suc j) lt =
    let a : p + suc j ≡ p + 1 + j = omega arith in
    let b : q + suc j ≡ q + 1 + j = omega arith in rw (a, b) (all j (omega arith))

shift_lt :
    (memory : Bytes) (p q k : ℕ)
    → memory (p + 1 + k) < memory (q + 1 + k)
    → memory (p + suc k) < memory (q + suc k)
shift_lt memory p q k less =
    let a : p + suc k ≡ p + 1 + k = omega arith in
    let b : q + suc k ≡ q + 1 + k = omega arith in rw (a, b) less

-- the first bytes decide
first_below :
    (memory : Bytes) (p q n d : ℕ)
    → memory p < memory q
    → CompareResult memory p q (suc n) (below d)
first_below memory p q n d lt =
    let a : p + 0 ≡ p = omega arith in
    let b : q + 0 ≡ q = omega arith in
    lower {d = d} 0 (omega arith) (λ j none. absurd (omega arith)) (rw (a, b) lt)

first_above :
    (memory : Bytes) (p q n d : ℕ)
    → memory q < memory p
    → CompareResult memory p q (suc n) (above d)
first_above memory p q n d lt =
    let a : p + 0 ≡ p = omega arith in
    let b : q + 0 ≡ q = omega arith in
    higher {d = d} 0 (omega arith) (λ j none. absurd (omega arith)) (rw (a, b) lt)

-- equal first bytes put a comparison of the others back by one
CompareResult-cons :
    (memory : Bytes) (p q n : ℕ) (r : Compared)
    → memory p ≡ memory q
    → CompareResult memory (p + 1) (q + 1) n r
    → CompareResult memory p q (suc n) r
CompareResult-cons memory p q n _ e (agree all) = agree (λ j lt. shifted memory p q e n all j lt)
CompareResult-cons memory p q n _ e (lower {d} k lt all less) =
    lower {d = d} (suc k) (omega arith) (λ j lt'. shifted memory p q e k all j lt')
      (shift_lt memory p q k less)
CompareResult-cons memory p q n _ e (higher {d} k lt all less) =
    higher {d = d} (suc k) (omega arith) (λ j lt'. shifted memory p q e k all j lt')
      (shift_lt memory q p k less)

-- `Imemcmp` returns 0 if the bytes agree, and otherwise -1 or 1 by the first two that differ.
imemcmp_lem :
    (memory : Bytes) (s1 s2 count : ℕ)
    → CompareResult memory s1 s2 count (imemcmp memory s1 s2 count)
unfolding imemcmp
imemcmp_lem memory s1 s2 zero = agree (λ j lt. absurd (omega arith))
imemcmp_lem memory s1 s2 (suc n) =
    let rest = imemcmp_lem memory (s1 + 1) (s2 + 1) n in
    elim (Bool-cases (memory s1 == memory s2)) [
      | inl e ↦ rw e (CompareResult-cons memory s1 s2 n _ ((==_iff _ _).0 e) rest)
      | inr ne ↦ elim (Bool-cases (ltb (memory s1) (memory s2))) [
        | inl lt ↦ rw (ne, lt) (first_below memory s1 s2 n 1 (ground arith))
        | inr ge ↦ rw (ne, ge) (first_above memory s1 s2 n 1 (ground arith))
      ]
    ]

compare_from-CompareResult :
    (memory : Bytes) (p q n i : ℕ)
    → CompareResult memory (p + i) (q + i) n (compare_from n memory p q i)
unfolding compare_from difference
compare_from-CompareResult memory p q zero i = agree (λ j lt. absurd (omega arith))
compare_from-CompareResult memory p q (suc n) i =
    let a : p + (i + 1) ≡ p + i + 1 = omega arith in
    let b : q + (i + 1) ≡ q + i + 1 = omega arith in
    let rest : CompareResult memory (p + i + 1) (q + i + 1) n (compare_from n memory p q (i + 1)) =
      rw (a, b) at (compare_from-CompareResult memory p q n (i + 1)) in
    elim (Bool-cases (memory (p + i) == memory (q + i))) [
      | inl e ↦ rw e (CompareResult-cons memory (p + i) (q + i) n _ ((==_iff _ _).0 e) rest)
      | inr ne ↦ elim (Bool-cases (ltb (memory (p + i)) (memory (q + i)))) [
        | inl lt ↦ rw (ne, lt) (first_below memory (p + i) (q + i) n _ (ground arith))
        | inr ge ↦ rw (ne, ge) (first_above memory (p + i) (q + i) n _ (ground arith))
      ]
    ]

-- `Istrncmp` returns 0 if the bytes agree, and otherwise a negative or a positive number by the first two that differ;
-- it does not stop at a zero byte.
istrncmp_lem :
    (memory : Bytes) (cmp1 cmp2 length : ℕ)
    → CompareResult memory cmp1 cmp2 length (istrncmp memory cmp1 cmp2 length)
unfolding istrncmp
istrncmp_lem memory cmp1 cmp2 length =
    let a : cmp1 + 0 ≡ cmp1 = omega arith in
    let b : cmp2 + 0 ≡ cmp2 = omega arith in
    rw (a, b) at (compare_from-CompareResult memory cmp1 cmp2 length 0)
