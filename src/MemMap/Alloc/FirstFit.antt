-- ===== src/MemMap/Alloc/FirstFit.antt =====
-- The scan of `map_alloc_frame_contiguous` in src/kernel/Memory/PMM/mem_map.c over the words of one
-- region is a first-fit search.
use icarus.Prelude.{
  ℕ, zero, suc, ◌+◌, ◌-◌, ◌*◌, ◌^◌, ◌≤◌, ◌<◌, ◌≡◌, ◌≢◌, ◌∙◌, ◌⊎◌, inl, inr, arith, leb, ◌==◌,
  if◌then◌else◌, Bool-cases, ==_iff, some, dec_lt, dec_le,
}
use icarus.Prelude.Bits.{testbit, testbit-zero}
use icarus.Prelude.Words.{add32, sub32, mul32}
use icarus.MemMap.Word.{ctzll, clzll}
use icarus.MemMap.Word.Counts.{IsLowest, IsHighest, ctzll-IsLowest, clzll-IsHighest}
use icarus.MemMap.Word.Run.{FreeIn}
use icarus.MemMap.Alloc.{scan}
use icarus.MemMap.Alloc.Scan.{
  ScanResult, first, nowhere, row_bit-at, Carries, extend, none_upto, FreeIn-Clear, Clear-FreeIn,
  none_inside, hole-cases,
}

module _ (word_at : ℕ → ℕ) (n words : ℕ) (pos : 0 < n) (wide : (q : ℕ) → word_at q < 2 ^ 64)
    (small : words * 64 < 2 ^ 32) where
  module _ (q c run_start : ℕ) (h : Carries word_at n q c run_start) where
    -- the run that the scan carries is long enough with `t` more bits
    carried_first :
        (t f : ℕ)
        → n ≤ c + t
        → q * 64 + t ≤ words * 64
        → t ≤ 64
        → ((k : ℕ) → k < t → testbit (word_at q) k ≡ 0)
        → f ≡ q * 64 - c
        → ScanResult word_at words n (some f)
    carried_first t f enough fits le low e =
        let run = extend word_at n q c h.within h.run t le low in
        first (omega (arith, h.within)) (λ k lt. rw e (run k (omega arith)))
          (λ s lt free. h.none_before s (omega (arith, h.within)) free)

    -- the first frame that the code writes down for it
    start_here : q * 64 < 2 ^ 32 → (if c == 0 then mul32 q 64 else run_start) ≡ q * 64 - c
    start_here lt = let e : mul32 q 64 ≡ q * 64 = omega arith in rw e h.start

    after_zero :
        c + 64 < n → word_at q ≡ 0 → (r : ℕ) → r ≡ q * 64 - c → Carries word_at n (suc q) (c + 64) r
    after_zero few z r e =
        let run =
          extend word_at n q c h.within h.run 64 (omega arith) (λ k lt. rw z (testbit-zero k)) in
        let at : suc q * 64 - (c + 64) ≡ q * 64 - c = omega arith in
        record {
          within = omega (arith, h.within);
          short = few;
          run = rw at run;
          start = ground arith;
          none_before = λ s lt free. h.none_before s (omega arith) free;
        }

    after_word :
        (t : ℕ) (low : IsLowest 64 (word_at q) t)
        → c + t < n
        → (((o : ℕ) → FreeIn (word_at q) o n → ⊥) ⊎ (64 < n))
        → (z r : ℕ) → IsHighest 64 (word_at q) z
        → r ≡ q * 64 + 64 - z
        → Carries word_at n (suc q) z r
    after_word t low few no_hole z r top e =
        let tail_run : (k : ℕ) → k < z → testbit (word_at q) (64 - z + k) ≡ 0 =
          λ k lt. top.above (64 - z + k) (omega (arith, top.inside)) (omega (arith, top.inside)) in
        let short_tail : z < n = elim no_hole [
          | inr big ↦ omega (arith, top.inside)
          | inl none_in ↦ elim (dec_lt z n) [
            | yes lt ↦ lt
            | no ge ↦ absurd (
                none_in (64 - n) (record {
                  inside = omega (arith, top.inside);
                  clear = λ k lt. top.above (64 - n + k) (omega arith) (omega (arith, top.inside));
                }))
          ]
        ] in
        record {
          within = omega (arith, top.inside);
          short = short_tail;
          run = λ k lt.
              row_bit-at word_at q (64 - z + k) (suc q * 64 - z + k) (omega (arith, top.inside))
                (omega (arith, top.inside))
              ∙ tail_run k lt;
          start = ground (arith, top.inside);
          none_before = λ s lt free. elim (dec_le s (q * 64)) [
            | yes le ↦
                none_upto word_at n q c h.within h.run t low.inside low.hit few h.none_before s le
                  free
            | no gt ↦ none_inside word_at n q z top no_hole s (omega arith) (omega arith) free
          ];
        }

    hole_first :
        (t : ℕ) (low : IsLowest 64 (word_at q) t)
        → c + t < n
        → (b f : ℕ) → q < words
        → FreeIn (word_at q) b n
        → ((j : ℕ) → j < b → FreeIn (word_at q) j n → ⊥)
        → f ≡ q * 64 + b
        → ScanResult word_at words n (some f)
    hole_first t low few b f lt free least e =
        first {f = f} (omega (arith, free.inside)) (rw e (FreeIn-Clear word_at q b n free))
          λ s before clear. elim (dec_le s (q * 64)) [
            | yes le ↦
                none_upto word_at n q c h.within h.run t low.inside low.hit few h.none_before s le
                  clear
            | no gt ↦
                let o : ℕ = s - q * 64 in
                let i : q * 64 + o ≡ s = omega arith in
                least o (omega arith)
                  (Clear-FreeIn word_at q o n (omega (arith, free.inside)) (rw i clear))
          ]

  scan-ScanResult :
      (rounds q c run_start : ℕ)
      → q + rounds ≡ words
      → Carries word_at n q c run_start
      → ScanResult word_at words n (scan word_at n rounds q c run_start)
  unfolding scan
  scan-ScanResult zero q c run_start e h = nowhere λ s le free. elim (dec_lt (s + c) (q * 64)) [
    | yes early ↦ h.none_before s early free
    | no late ↦ omega (arith, h.short)
  ]
  scan-ScanResult (suc rounds) q c run_start e h =
      let w : ℕ = word_at q in
      let f : ℕ = if c == 0 then mul32 q 64 else run_start in
      let here : f ≡ q * 64 - c = start_here q c run_start h (omega arith) in
      let longer : add32 c 64 ≡ c + 64 = omega (arith, h.within) in
      elim (Bool-cases (w == 0)) [
        | inl z ↦
            let e₀ : w ≡ 0 = (==_iff _ _).0 z in
            rw (z, longer)
              (elim (Bool-cases (leb n (c + 64))) [
                | inl long ↦ rw long (
                    carried_first q c run_start h 64 f (ground arith) (omega arith) (omega arith)
                      (λ k lt. rw e₀ (testbit-zero k)) here)
                | inr few ↦ rw few (
                    scan-ScanResult rounds (suc q) (c + 64) f (omega arith)
                      (after_zero q c run_start h (ground arith) e₀ f here))
              ])
        | inr nz ↦
            let ne : w ≢ 0 = ground arith in
            let low = ctzll-IsLowest w ne (wide q) in
            let top = clzll-IsHighest w ne (wide q) in
            let sum : add32 c (ctzll w) ≡ c + ctzll w = omega (arith, h.within, low.inside) in
            rw (nz, sum)
              (elim (Bool-cases (leb n (c + ctzll w))) [
                | inl long ↦ rw long (
                    carried_first q c run_start h (ctzll w) f (ground arith)
                      (omega (arith, low.inside)) (omega (arith, low.inside)) low.below here)
                | inr few ↦
                    let few' : c + ctzll w < n = ground arith in
                    rw few (elim (hole-cases word_at n w pos (wide q)) [
                      | inl (no_run, without) ↦
                          let r : sub32 (add32 (mul32 q 64) 64) (clzll w) ≡ q * 64 + 64 - clzll w =
                            omega (arith, top.inside) in
                          rw (no_run, scan)
                            (scan-ScanResult rounds (suc q) (clzll w) _ (omega arith) (
                              after_word q c run_start h (ctzll w) low few' without (clzll w) _ top
                                r))
                      | inr (b, run, free, least) ↦
                          let r : add32 (mul32 q 64) b ≡ q * 64 + b = omega (arith, free.inside) in
                          rw (run, scan)
                            (hole_first q c run_start h (ctzll w) low few' b _ (omega arith) free
                              least r)
                    ])
              ])
      ]

  -- For at least one frame and 64-bit words whose bits number less than 2 ^ 32, the scan of a region from
  -- its first word on is a first-fit search: it reports the lowest index at which that many bits in a
  -- row are clear, over the bounds of words, and fails only if there is no such run in the words.
  pub scan_first_fit : ScanResult word_at words n (scan word_at n words 0 0 0)
  scan_first_fit = scan-ScanResult words 0 0 0 (omega arith) (record {
    within = omega arith;
    short = pos;
    run = λ k lt. absurd (omega arith);
    start = omega arith;
    none_before = λ s lt free. omega arith;
  })
