-- ===== src/Heap/Search.antt =====
-- The loop of `Imalloc_alocator` in src/kernel/Memory/alloc.c over the headers, against first fit on the list
-- of blocks.
use icarus.Prelude.{
  ℕ, zero, suc, ◌+◌, ◌-◌, ◌%◌, ◌^◌, ◌≤◌, ◌<◌, ◌≡◌, refl, ◌∙◌, true, false, not, ◌&&◌, ltb, ◌==◌,
  Option, none, some, List, [], ◌∷◌, length, arith, Bool-cases, inl, inr, ap,
}
use icarus.Prelude.Words.{add64}
use icarus.Heap.{MetaData, Headers, put, Walk, hit, leave, take_all, split, walk}
use icarus.Heap.Blocks.{
  AllAligned, Block, Blocks, behind, first_fit, has_free, length-le-Blocks, Blocks-cong,
}

-- What a walk from `at` has done that has found the block at the offset: the pointer is behind the block's
-- header, the headers describe the new blocks, and none below `at` has changed.
pub record Taken (headers : Headers) (at end : ℕ) (found : ℕ × List Block) (w : Walk) : Type 0 where
  pub headers' : Headers
  pub pointer : w ≡ hit (at + found.0 + 16) headers'
  pub blocks : Blocks headers' at end found.1
  pub below : (x : ℕ) → x < at → headers' x ≡ headers x

Taken-take_all :
    (headers : Headers) (at end n : ℕ) (bs : List Block)
    → Blocks headers at end ((n, false) ∷ bs)
    → at + 16 < 2 ^ 64
    → Taken headers at end (0, (n, true) ∷ bs) (hit ((at + 16) % 2 ^ 64) (take_all headers at))
unfolding take_all put
Taken-take_all headers at end n bs h lt =
    let e : (at + 16) % 2 ^ 64 ≡ at + 0 + 16 = omega arith in
    rw e (record {
      headers' = take_all headers at;
      pointer = refl;
      blocks = (
        ground (arith, h.0),
        ground arith,
        h.2,
        Blocks-cong headers (take_all headers at) (at + n) end bs (λ x le. ground (arith, h.2)) h.3,
      );
      below = λ x lt. ground arith;
    })

Taken-split :
    (headers : Headers) (at end n size : ℕ) (bs : List Block)
    → Blocks headers at end ((n, false) ∷ bs)
    → end < 2 ^ 63
    → 16 ≤ size
    → size + 16 ≤ n
    → Taken headers at end
        (0, (size, true) ∷ (n - size, false) ∷ bs)
        (hit ((at + 16) % 2 ^ 64) (split headers at size))
unfolding split put
Taken-split headers at end n size bs h lt small more =
    let up = length-le-Blocks headers (at + n) end bs h.3 in
    let e : (at + 16) % 2 ^ 64 ≡ at + 0 + 16 = omega arith in
    let next : (at + size) % 2 ^ 64 ≡ at + size = omega arith in
    let next_end : at + size + (n - size) ≡ at + n = omega arith in
    rw e (record {
      headers' = split headers at size;
      pointer = refl;
      blocks = (
        ground (arith, up),
        ground arith,
        small,
        (
          ground (arith, up, h.0),
          ground (arith, up),
          omega arith,
          rw next_end (
              Blocks-cong headers (split headers at size) (at + n) end bs
                (λ x le. ground (arith, up)) h.3),
        ),
      );
      below = λ x lt'. ground (arith, up);
    })

-- a block is skipped
Taken-behind :
    (headers : Headers) (at end n : ℕ) (bs : List Block) (found : ℕ × List Block) (w : Walk)
    → Blocks headers at end ((n, true) ∷ bs)
    → Taken headers (at + n) end found w
    → Taken headers at end (n + found.0, (n, true) ∷ found.1) w
Taken-behind headers at end n bs found w h t =
    let e : at + (n + found.0) + 16 ≡ at + n + found.0 + 16 = omega arith in
    let same = t.below at (omega (arith, h.2)) in
    record {
      headers' = t.headers';
      pointer = rw e t.pointer;
      blocks = (
        ap (λ (m : MetaData). m.block_size) same ∙ h.0,
        ap (λ (m : MetaData). m.allocated) same ∙ h.1,
        h.2,
        t.blocks,
      );
      below = λ x lt. t.below x (omega (arith, h.2));
    }

-- What a walk over the blocks comes to, by what first fit finds.
abbrev pub Outcome : Headers → ℕ → ℕ → List Block → Option (ℕ × List Block) → Walk → Type 0
Outcome headers at end bs (some found) w = Taken headers at end found w
Outcome headers at end bs none w = has_free bs ≡ true → w ≡ leave

Outcome-behind :
    (headers : Headers) (at end n : ℕ) (bs : List Block) (o : Option (ℕ × List Block)) (w : Walk)
    → Blocks headers at end ((n, true) ∷ bs)
    → Outcome headers (at + n) end bs o w
    → Outcome headers at end ((n, true) ∷ bs) (behind (n, true) o) w
unfolding behind
Outcome-behind headers at end n bs none w h out = out
Outcome-behind headers at end n bs (some found) w h out =
    Taken-behind headers at end n bs found w h out

module _ (headers : Headers) (heap_end size end : ℕ) (room : end < heap_end)
    (fits : heap_end < 2 ^ 63) (small : 16 ≤ size) (aligned : size % 16 ≡ 0) where
  pub walk-Outcome :
      (fuel at : ℕ) (bs : List Block)
      → length bs ≤ fuel
      → Blocks headers at end bs
      → AllAligned bs
      → Outcome headers at end bs (first_fit size bs) (walk headers heap_end size fuel at)
  unfolding walk first_fit
  walk-Outcome fuel at [] enough h al = λ e. cc
  walk-Outcome zero at (b ∷ bs) enough h al = absurd (omega arith)
  walk-Outcome (suc fuel) at ((n, true) ∷ bs) enough h al =
      let up = length-le-Blocks headers (at + n) end bs h.3 in
      let next : (at + n) % 2 ^ 64 ≡ at + n = omega arith in
      let inside : ltb (at + n) heap_end ≡ true = ground (arith, up) in
      rw (h.0, h.1, next, inside)
        (Outcome-behind headers at end n bs (first_fit size bs) _ h
          (walk-Outcome fuel (at + n) bs (omega arith) h.3 al.1))
  walk-Outcome (suc fuel) at ((n, false) ∷ bs) enough h al =
      let up = length-le-Blocks headers (at + n) end bs h.3 in
      let next : (at + n) % 2 ^ 64 ≡ at + n = omega arith in
      let inside : not (ltb (add64 at (headers at).block_size) heap_end) ≡ false =
        ground (arith, up, h.0) in
      let free : (headers at).allocated ≡ false = h.1 in
      elim (Bool-cases (n == size)) [
        | inl exact ↦
            let hit_here : not (headers at).allocated && ((headers at).block_size == size) ≡ true =
              ground (arith, h.0, h.1) in
            rw (inside, hit_here, exact) (Taken-take_all headers at end n bs h (omega arith))
        | inr other ↦
            let no_hit : not (headers at).allocated && ((headers at).block_size == size) ≡ false =
              ground (arith, h.0, h.1) in
            elim (Bool-cases (ltb size n)) [
              | inl larger ↦
                  let split_here : not (headers at).allocated && ltb size (headers at).block_size
                      ≡ true =
                    ground (arith, h.0, h.1) in
                  rw (inside, no_hit, split_here, other, larger)
                    (Taken-split headers at end n size bs h (omega arith) small
                      (split_room n al.0 larger))
              | inr smaller ↦
                  let no_split : not (headers at).allocated && ltb size (headers at).block_size
                      ≡ false =
                    ground (arith, h.0, h.1) in
                  rw (inside, no_hit, no_split, other, smaller, h.1) (λ e. refl)
            ]
      ]
    where
      split_room : (n : ℕ) → n % 16 ≡ 0 → ltb size n ≡ true → size + 16 ≤ n
      split_room n al larger = ground arith
