-- ===== src/MemMap/Word/Run.antt =====
-- `find_run_in_word` finds the lowest run of clear bits.
use icarus.Prelude.{
  ℕ, zero, suc, ◌+◌, ◌-◌, ◌*◌, ◌/◌, ◌^◌, ◌≤◌, ◌<◌, ◌≡◌, ◌≢◌, ◌↔◌, ap, ◌∙◌, arith, ltb, leb, ◌==◌,
  if◌then◌else◌, Bool-cases, inl, inr, ==_iff, bit_and, Option, none, some, dec_lt,
}
use icarus.Prelude.Bits.{
  testbit, testbit-le-one, testbit-high, testbit-shr, testbit-bit_and, testbit-not64,
  ne-zero_of_testbit, bit_and-le,
}
use icarus.Prelude.Words.{not64}
use icarus.MemMap.Word.{cover, ctzll, find_run_in_word}
use icarus.MemMap.Word.Counts.{ctzll-IsLowest}

-- the bits `i` up to `i + n` of `m` are all set
abbrev Ones : ℕ → ℕ → ℕ → Type 0
Ones m i n = (k : ℕ) → k < n → testbit m (i + k) ≡ 1

-- `mask` marks the indices at which a run of `c` set bits of `m` begins
record Marks (m c mask : ℕ) : Type 0 where
  sound : (i : ℕ) → testbit mask i ≡ 1 → Ones m i c
  complete : (i : ℕ) → Ones m i c → testbit mask i ≡ 1
  narrow : mask < 2 ^ 64

module _ (mask s i : ℕ) where
  -- a bit of `mask & (mask >> s)`
  both_iff :
      (testbit (bit_and mask (mask / 2 ^ s)) i ≡ 1)
      ↔ ((testbit mask i ≡ 1) × (testbit mask (i + s) ≡ 1))
  both_iff =
      let e : s + i ≡ i + s = omega arith in
      let shifted : testbit (mask / 2 ^ s) i ≡ testbit mask (i + s) =
        testbit-shr mask s i ∙ ap (testbit mask) e in
      (
        λ h. omega (
          arith,
          testbit-bit_and mask (mask / 2 ^ s) i,
          testbit-le-one mask i,
          testbit-le-one mask (i + s),
        ),
        λ h. omega (arith, testbit-bit_and mask (mask / 2 ^ s) i),
      )

-- Two runs that meet or overlap make a longer one.
Marks-join :
    (m c s mask : ℕ) → s ≤ c → Marks m c mask → Marks m (c + s) (bit_and mask (mask / 2 ^ s))
Marks-join m c s mask le h = record {
  sound = λ i e k lt. elim (dec_lt k c) [
    | yes near ↦ h.sound i ((both_iff mask s i).0 e).0 k near
    | no far ↦
        let j : i + s + (k - s) ≡ i + k = omega arith in
        rw (← j) (h.sound (i + s) ((both_iff mask s i).0 e).1 (k - s) (omega arith))
  ];
  complete = λ i e.
      let later : Ones m (i + s) c =
        λ k lt. let j : i + s + k ≡ i + (s + k) = omega arith in rw j (e (s + k) (omega arith)) in
      (both_iff mask s i).1 (h.complete i (λ k lt. e k (omega arith)), h.complete (i + s) later);
  narrow = omega (arith, h.narrow, bit_and-le mask (mask / 2 ^ s));
}

Marks-one : (m : ℕ) → m < 2 ^ 64 → Marks m 1 m
Marks-one m h = record {
  sound = λ i e k lt. let j : i + k ≡ i = omega arith in rw j e;
  complete = λ i e. let j : i + 0 ≡ i = omega arith in rw j at (e 0 (omega arith));
  narrow = h;
}

-- After the loop `covered` is more than half of `run_length`, and the mask marks runs of `covered`.
cover-Marks :
    (fuel m n c mask : ℕ)
    → n < fuel + c
    → 0 < c
    → c ≤ n
    → Marks m c mask
    → let (c', mask') = cover fuel n c mask in Marks m c' mask' × (c' ≤ n) × (n < c' * 2)
unfolding cover
cover-Marks zero m n c mask enough pos le h = absurd (omega arith)
cover-Marks (suc fuel) m n c mask enough pos le h = elim (Bool-cases (leb (c * 2) n)) [
  | inl more ↦
      let e : c * 2 ≡ c + c = omega arith in
      let le' : c * 2 ≤ n = ground arith in
      rw (more, e)
        (cover-Marks fuel m n (c + c) _ (omega arith) (omega arith) (omega arith)
          (Marks-join m c c mask (omega arith) h))
  | inr done ↦ rw done (h, le, ground arith)
]

-- the bits `i` up to `i + n` of the word are clear, and lie in the word
pub record FreeIn (w i n : ℕ) : Type 0 where
  pub inside : i + n ≤ 64
  pub clear : (k : ℕ) → k < n → testbit w (i + k) ≡ 0

module _ (w : ℕ) (hw : w < 2 ^ 64) where
  in_word : (j : ℕ) → testbit (not64 w) j ≡ 1 → j < 64
  in_word j e = elim (dec_lt j 64) [
    | yes lt ↦ lt
    | no ge ↦ absurd (omega (arith, testbit-high 64 (not64 w) j (omega arith) (omega arith)))
  ]

  Ones-FreeIn : (i n : ℕ) → 0 < n → Ones (not64 w) i n → FreeIn w i n
  Ones-FreeIn i n pos h = record {
    inside = omega (arith, in_word (i + (n - 1)) (h (n - 1) (omega arith)));
    clear = λ k lt. omega (arith, testbit-not64 w (i + k) hw (in_word (i + k) (h k lt)), h k lt);
  }

  FreeIn-Ones : (i n : ℕ) → FreeIn w i n → Ones (not64 w) i n
  FreeIn-Ones i n h k lt =
      omega (arith, testbit-not64 w (i + k) hw (omega (arith, h.inside)), h.clear k lt)

-- What a search for `n` clear bits in a row reports of the word `w`.
pub data RunResult (w n : ℕ) : Option ℕ → Type 0 where
  found : {i : ℕ} → FreeIn w i n → ((j : ℕ) → j < i → FreeIn w j n → ⊥) → RunResult w n (some i)
  full : ((j : ℕ) → FreeIn w j n → ⊥) → RunResult w n none

lowest-RunResult :
    (w n mask : ℕ)
    → w < 2 ^ 64
    → 0 < n
    → Marks (not64 w) n mask
    → RunResult w n (if mask == 0 then none else some (ctzll mask))
lowest-RunResult w n mask hw pos h = elim (Bool-cases (mask == 0)) [
  | inl empty ↦
      let e : mask ≡ 0 = (==_iff _ _).0 empty in
      rw empty
        (full λ j free. ne-zero_of_testbit mask j (h.complete j (FreeIn-Ones w hw j n free)) e)
  | inr some_run ↦
      let ne : mask ≢ 0 = ground arith in
      let low = ctzll-IsLowest mask ne h.narrow in
      rw some_run (
        found (Ones-FreeIn w hw (ctzll mask) n pos (h.sound (ctzll mask) low.hit))
          λ j lt free. omega (arith, low.below j lt, h.complete j (FreeIn-Ones w hw j n free)))
]

-- For a 64-bit word and a length from 1 to 64, `find_run_in_word` returns the lowest index at which a run
-- of that many clear bits begins inside the word, and -1 (`none`) exactly if there is none.
pub find_run_in_word-RunResult :
    (w n : ℕ) → w < 2 ^ 64 → 0 < n → n ≤ 64 → RunResult w n (find_run_in_word w n)
unfolding find_run_in_word
find_run_in_word-RunResult w n hw pos le =
    let (c, mask) = cover n n 1 (not64 w) in
    let (h, c_le, more) =
      cover-Marks n (not64 w) n 1 (not64 w) (omega arith) (omega arith) (omega arith)
        (Marks-one (not64 w) (omega arith)) in
    elim (Bool-cases (ltb c n)) [
      | inl short ↦
          let e : c + (n - c) ≡ n = omega arith in
          rw short (
            lowest-RunResult w n _ hw pos
              (rw e at (Marks-join (not64 w) c (n - c) mask (omega arith) h)))
      | inr exact ↦
          let e : c ≡ n = ground arith in rw exact (lowest-RunResult w n mask hw pos (rw e at h))
    ]
