-- ===== src/Heap/Blocks.antt =====
-- The blocks of the heap of src/kernel/Memory/alloc.c as a list, and first fit on such a list.
use icarus.Prelude.{
  ◌%◌, ℕ, ◌+◌, ◌-◌, ◌*◌, ◌≤◌, ◌≡◌, Bool, true, false, ltb, ◌==◌, if◌then◌else◌, Option, none, some,
  List, [], ◌∷◌, length, arith,
}
use icarus.Heap.{Headers}

-- a block: its size with the header, and whether it is allocated
abbrev pub Block : Type 0
Block = ℕ × Bool

-- From `at` up to `end` the headers describe the blocks, without gaps.
abbrev pub Blocks : Headers → ℕ → ℕ → List Block → Type 0
Blocks headers at end [] = at ≡ end
Blocks headers at end ((n, a) ∷ bs) =
    ((headers at).block_size ≡ n)
    × ((headers at).allocated ≡ a)
    × (16 ≤ n)
    × Blocks headers (at + n) end bs

-- every size is a multiple of 16
abbrev pub AllAligned : List Block → Type 0
AllAligned [] = Unit
AllAligned ((n, a) ∷ bs) = (n % 16 ≡ 0) × AllAligned bs

-- behind allocated blocks
unfoldable pub behind : Block → Option (ℕ × List Block) → Option (ℕ × List Block)
behind b none = none
behind b (some (offset, bs)) = some (b.0 + offset, b ∷ bs)

-- The offset of the block that is taken, and the blocks afterwards. A free block that is too small ends the search.
unfoldable pub first_fit : ℕ → List Block → Option (ℕ × List Block)
unfolding behind
first_fit size [] = none
first_fit size ((n, true) ∷ bs) = behind (n, true) (first_fit size bs)
first_fit size ((n, false) ∷ bs) =
    if n == size
    then some (0, (n, true) ∷ bs)
    else if ltb size n
    then some (0, (size, true) ∷ (n - size, false) ∷ bs)
    else none

abbrev pub has_free : List Block → Bool
has_free [] = false
has_free ((n, true) ∷ bs) = has_free bs
has_free ((n, false) ∷ bs) = true

pub length-le-Blocks :
    (headers : Headers) (at end : ℕ) (bs : List Block)
    → Blocks headers at end bs
    → at + 16 * length bs ≤ end
length-le-Blocks headers at end [] h = omega arith
length-le-Blocks headers at end ((n, a) ∷ bs) h =
    omega (arith, h.2, length-le-Blocks headers (at + n) end bs h.3)

-- headers below do not matter
pub Blocks-cong :
    (headers headers' : Headers) (at end : ℕ) (bs : List Block)
    → ((x : ℕ) → at ≤ x → headers' x ≡ headers x)
    → Blocks headers at end bs
    → Blocks headers' at end bs
Blocks-cong headers headers' at end [] same h = h
Blocks-cong headers headers' at end ((n, a) ∷ bs) same h =
    let e = same at (omega arith) in
    (
      rw e h.0,
      rw e h.1,
      h.2,
      Blocks-cong headers headers' (at + n) end bs (λ x le. same x (omega arith)) h.3,
    )
