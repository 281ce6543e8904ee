-- ===== src/MemMap/Alloc/Scan.antt =====
-- Runs of clear bits over a row of 64-bit words, and what the scan of `map_alloc_frame_contiguous`
-- in src/kernel/Memory/PMM/mem_map.c carries from word to word.
use icarus.Prelude.{
  ℕ, ◌+◌, ◌-◌, ◌*◌, ◌/◌, ◌%◌, ◌^◌, ◌≤◌, ◌<◌, ◌≡◌, refl, sym, ◌∙◌, ◌⊎◌, inl, inr, arith, leb, ◌==◌,
  if◌then◌else◌, Bool-cases, Option, none, some, dec_lt, dec_le,
}
use icarus.Prelude.Bits.{testbit}
use icarus.MemMap.Word.{find_run_in_word}
use icarus.MemMap.Word.Counts.{IsHighest}
use icarus.MemMap.Word.Run.{FreeIn, RunResult, found, full, find_run_in_word-RunResult}
use icarus.MemMap.Alloc.{hole}

module _ (word_at : ℕ → ℕ) where
  -- bit `i` of the words in a row
  unfoldable pub row_bit : ℕ → ℕ
  row_bit i = testbit (word_at (i / 64)) (i % 64)

  -- the bits `s` up to `s + n` are clear
  abbrev pub Clear : ℕ → ℕ → Type 0
  Clear s n = (k : ℕ) → k < n → row_bit (s + k) ≡ 0

  -- What a scan of `words` words for `n` clear bits in a row reports.
  pub data ScanResult (words n : ℕ) : Option ℕ → Type 0 where
    first :
        {f : ℕ}
        → f + n ≤ words * 64
        → Clear f n
        → ((s : ℕ) → s < f → Clear s n → ⊥)
        → ScanResult words n (some f)
    nowhere : ((s : ℕ) → s + n ≤ words * 64 → Clear s n → ⊥) → ScanResult words n none

  pub row_bit-at : (q k i : ℕ) → k < 64 → i ≡ q * 64 + k → row_bit i ≡ testbit (word_at q) k
  unfolding row_bit
  row_bit-at q k i lt e =
      let e₁ : i / 64 ≡ q = omega arith in let e₂ : i % 64 ≡ k = omega arith in rw (e₁, e₂)

  -- what the scan knows when it comes to word `q`
  pub record Carries (n q carried run_start : ℕ) : Type 0 where
    pub within : carried ≤ q * 64
    pub short : carried < n
    pub run : Clear (q * 64 - carried) carried
    pub start : (if carried == 0 then q * 64 else run_start) ≡ q * 64 - carried
    pub none_before : (s : ℕ) → s + carried < q * 64 → Clear s n → ⊥

  module _ (n q c : ℕ) (within : c ≤ q * 64) (run : Clear (q * 64 - c) c) where
    -- the carried run goes on through the low `t` bits of the word
    pub extend :
        (t : ℕ)
        → t ≤ 64
        → ((k : ℕ) → k < t → testbit (word_at q) k ≡ 0)
        → Clear (q * 64 - c) (c + t)
    extend t le low k lt = elim (dec_lt k c) [
      | yes old ↦ run k old
      | no new ↦
          row_bit-at q (k - c) (q * 64 - c + k) (omega arith) (omega arith)
          ∙ low (k - c) (omega arith)
    ]

    -- no run begins before the word if the carried run and the low bits are too few
    pub none_upto :
        (t : ℕ)
        → t < 64
        → testbit (word_at q) t ≡ 1
        → c + t < n
        → ((s : ℕ) → s + c < q * 64 → Clear s n → ⊥)
        → (s : ℕ) → s ≤ q * 64
        → Clear s n
        → ⊥
    none_upto t lt hit few before s le free = elim (dec_lt (s + c) (q * 64)) [
      | yes early ↦ before s early free
      | no late ↦
          let k : ℕ = q * 64 + t - s in
          omega (arith, free k (omega arith), row_bit-at q t (s + k) lt (omega arith))
    ]

  -- a run inside the word
  pub FreeIn-Clear : (q o n : ℕ) → FreeIn (word_at q) o n → Clear (q * 64 + o) n
  FreeIn-Clear q o n h k lt =
      row_bit-at q (o + k) (q * 64 + o + k) (omega (arith, h.inside)) (omega arith) ∙ h.clear k lt

  pub Clear-FreeIn : (q o n : ℕ) → o + n ≤ 64 → Clear (q * 64 + o) n → FreeIn (word_at q) o n
  Clear-FreeIn q o n le h = record {
    inside = le;
    clear =
        λ k lt. sym (row_bit-at q (o + k) (q * 64 + o + k) (omega arith) (omega arith)) ∙ h k lt;
  }

  -- no run begins in the word before its clear top bits
  pub none_inside :
      (n q t : ℕ)
      → IsHighest 64 (word_at q) t
      → ((o : ℕ) → FreeIn (word_at q) o n → ⊥) ⊎ (64 < n)
      → (s : ℕ) → q * 64 ≤ s
      → s + t < (q + 1) * 64
      → Clear s n
      → ⊥
  none_inside n q t top no_hole s ge lt free =
      let o : ℕ = s - q * 64 in
      elim (dec_le (o + n) 64) [
        | yes fits ↦
            let e : q * 64 + o ≡ s = omega arith in
            let inner : Clear (q * 64 + o) n = rw e free in
            elim no_hole [ inl h ↦ h o (Clear-FreeIn q o n fits inner) | inr big ↦ omega arith ]
        | no over ↦
            let k : ℕ = 63 - t - o in
            omega (
              arith,
              top.inside,
              top.hit,
              free k (omega arith),
              row_bit-at q (63 - t) (s + k) (omega arith) (omega (arith, top.inside)),
            )
      ]

-- The test for a hole inside a word.
pub hole-cases :
    (word_at : ℕ → ℕ) (n w : ℕ)
    → 0 < n
    → w < 2 ^ 64
    → ((hole word_at n w ≡ none) × (((o : ℕ) → FreeIn w o n → ⊥) ⊎ (64 < n)))
      ⊎ ((b : ℕ) × (hole word_at n w ≡ some b)
          × FreeIn w b n
          × ((j : ℕ) → j < b → FreeIn w j n → ⊥))
unfolding hole
hole-cases word_at n w pos hw = elim (Bool-cases (leb n 64)) [
  | inl small ↦
      rw small
        (result (find_run_in_word w n) (find_run_in_word-RunResult w n hw pos (ground arith)))
  | inr big ↦ rw big (inl (refl, inr (ground arith)))
]
  where
    result :
        (o : Option ℕ)
        → RunResult w n o
        → ((o ≡ none) × (((j : ℕ) → FreeIn w j n → ⊥) ⊎ (64 < n)))
          ⊎ ((b : ℕ) × (o ≡ some b) × FreeIn w b n × ((j : ℕ) → j < b → FreeIn w j n → ⊥))
    result none (full h) = inl (refl, inl h)
    result (some b) (found free least) = inr (b, refl, free, least)
