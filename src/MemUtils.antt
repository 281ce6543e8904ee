-- ===== src/MemUtils.antt =====
-- The byte loops of src/kernel/util/mem_utils.c over flat memory, a function from an address to a
-- byte. A loop runs over the bytes that are left, with the index counted from the front.
pub mod Laws
use icarus.Prelude.{ℕ, zero, suc, ◌+◌, ◌-◌, ltb, ◌==◌, not, if◌then◌else◌}
use icarus.Prelude.Words.{add64}
use icarus.BitMap.{Bytes, update}

-- what a comparison returns: an int with its sign
pub data Compared : Type 0 where
  equal : Compared
  below above : ℕ → Compared

-- `dp[i] - sp[i]`
unfoldable pub difference : ℕ → ℕ → Compared
difference a b = if ltb a b then below (b - a) else if a == b then equal else above (a - b)

unfoldable pub imemset : Bytes → (addr val length : ℕ) → Bytes
unfolding update
imemset memory p val zero = memory
imemset memory p val (suc n) = imemset (update memory p val) (p + 1) val n

-- the loop of `Imemcpy` from index `i` on
unfoldable pub copy_from : ℕ → Bytes → (dest src i : ℕ) → Bytes
unfolding update
copy_from zero memory dest src i = memory
copy_from (suc n) memory dest src i =
    copy_from n (update memory (dest + i) (memory (src + i))) dest src (i + 1)

unfoldable pub imemcpy : Bytes → (dest src length : ℕ) → Bytes
unfolding copy_from
imemcpy memory dest src length = copy_from length memory dest src 0

-- the loop of `Istrncmp` from index `i` on
unfoldable pub compare_from : ℕ → Bytes → (cmp1 cmp2 i : ℕ) → Compared
unfolding difference
compare_from zero memory cmp1 cmp2 i = equal
compare_from (suc n) memory cmp1 cmp2 i =
    let rest = compare_from n memory cmp1 cmp2 (i + 1) in
    if not (memory (cmp1 + i) == memory (cmp2 + i))
    then difference (memory (cmp1 + i)) (memory (cmp2 + i))
    else rest

unfoldable pub istrncmp : Bytes → (cmp1 cmp2 length : ℕ) → Compared
unfolding compare_from
istrncmp memory cmp1 cmp2 length = compare_from length memory cmp1 cmp2 0

-- `Imemcmp` moves its two pointers on
unfoldable pub imemcmp : Bytes → (s1 s2 count : ℕ) → Compared
imemcmp memory s1 s2 zero = equal
imemcmp memory s1 s2 (suc count) =
    let rest = imemcmp memory (s1 + 1) (s2 + 1) count in
    if not (memory s1 == memory s2)
    then if ltb (memory s1) (memory s2) then below 1 else above 1
    else rest
