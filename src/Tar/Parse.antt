-- ===== src/Tar/Parse.antt =====
-- `parse` of src/kernel/util/Files/tar_parse.c.
use icarus.Prelude.{
  ==_iff, ◌∙◌, ℕ, zero, suc, ◌+◌, ◌*◌, ◌/◌, ◌%◌, ◌^◌, ◌<◌, ◌≡◌, ◌≢◌, false, ◌==◌, some, List, [],
  ◌∷◌, length, arith, Bool-cases, inl, inr, refl,
}
use icarus.Prelude.Words.{add64, mul32, add32}
use icarus.BitMap.{Bytes}
use icarus.Tar.{getsize, parse_from}
use icarus.Tar.Archive.{Entry, next_at, IsSize}
use icarus.Tar.Octal.{getsize-IsSize}

-- The entries from `at` on, numbered from `i`: each has a name longer than its number and a size of eleven octal digits, and the header behind them
-- has a zero in its name at the number that follows.
abbrev pub Reads : Bytes → (at i : ℕ) → List Entry → Type 0
Reads memory at i [] = memory (at + i) ≡ 0
Reads memory at i (e ∷ es) =
    (memory (at + i) ≢ 0)
    × IsSize memory at e.size
    × (e.size < 2 ^ 31)
    × (at + e.size + 1024 < 2 ^ 64)
    × Reads memory (next_at at e) (i + 1) es

abbrev pub headers_from : ℕ → List Entry → List ℕ
headers_from at [] = []
headers_from at (e ∷ es) = at ∷ headers_from (next_at at e) es

not_zero : (s : ℕ) → (s == 0) ≡ false → s ≢ 0
not_zero s h = ground arith

whole_size : (s : ℕ) → s < 2 ^ 31 → s % 2 ^ 32 ≡ s
whole_size s lt = omega (arith, lt)

-- the address that the code computes, for sizes of whole blocks and for others
whole_next :
    (at s : ℕ)
    → s % 512 ≡ 0
    → s < 2 ^ 31
    → at + s + 1024 < 2 ^ 64
    → add64 at (mul32 (add32 (s / 512) 1) 512) ≡ at + 512 + (s + 511) / 512 * 512
whole_next at s whole lt fits = omega arith

cut_next :
    (at s : ℕ)
    → s % 512 ≢ 0
    → s < 2 ^ 31
    → at + s + 1024 < 2 ^ 64
    → add64 (add64 at (mul32 (add32 (s / 512) 1) 512)) 512 ≡ at + 512 + (s + 511) / 512 * 512
cut_next at s cut lt fits = omega arith

-- For entries of less than 2 GiB in memory below 2 ^ 64, each with its size in eleven octal digits and with a name longer than its number,
-- before a header whose name has a zero at the index that is the next number, `parse` stores the
-- addresses of exactly these entries: it tests the character of the name at the count of headers
-- so far, not the first. As many rounds as there are such entries, and one, are enough.
pub parse_from-headers_from :
    (fuel : ℕ) (memory : Bytes) (i at : ℕ) (es : List Entry)
    → length es < fuel
    → Reads memory at i es
    → parse_from fuel memory i at ≡ some (headers_from at es)
unfolding parse_from
parse_from-headers_from zero memory i at es enough h = absurd (omega arith)
parse_from-headers_from (suc n) memory i at [] enough h = rw h
parse_from-headers_from (suc n) memory i at (e ∷ es) enough h =
    let rest = parse_from-headers_from n memory (i + 1) (next_at at e) es (omega arith) h.4 in
    let named : memory (at + i) == 0 ≡ false = ground (arith, h.0) in
    let lt : e.size < 2 ^ 31 = h.2 in
    let fits : at + e.size + 1024 < 2 ^ 64 = h.3 in
    let size : getsize memory (at + 124) ≡ e.size =
      getsize-IsSize memory at e.size h.1 ∙ whole_size e.size lt in
    elim (Bool-cases (e.size % 512 == 0)) [
      | inl whole ↦
          let next : add64 at (mul32 (add32 (e.size / 512) 1) 512) ≡ next_at at e =
            whole_next at e.size ((==_iff _ _).0 whole) lt fits in
          rw (named, size, whole, next, rest) refl
      | inr cut ↦
          let next : add64 (add64 at (mul32 (add32 (e.size / 512) 1) 512)) 512 ≡ next_at at e =
            cut_next at e.size (not_zero (e.size % 512) cut) lt fits in
          rw (named, size, cut, next, rest) refl
    ]
