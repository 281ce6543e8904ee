-- ===== src/Tar/Archive.antt =====
-- An archive in memory, as src/kernel/util/Files/tar_parse.c reads it: a list of entries, each a header with
-- the blocks of its data, up to a block that begins with a zero.
use icarus.Prelude.{
  ℕ, zero, suc, ◌-◌, ◌<◌, ◌+◌, ◌*◌, ◌/◌, ◌≤◌, ◌≡◌, ◌≢◌, ◌||◌, ◌==◌, if◌then◌else◌, List, [], ◌∷◌,
  length, arith,
}
use icarus.BitMap.{Bytes}

pub record Entry : Type 0 where
  pub size : ℕ
  pub typeflag : ℕ

-- where the next header is
abbrev pub next_at : ℕ → Entry → ℕ
next_at at e = at + 512 + (e.size + 511) / 512 * 512

-- the number that the first `n` octal digits of a text write
abbrev pub octal : Bytes → (text n : ℕ) → ℕ
octal memory text zero = 0
octal memory text (suc n) = octal memory text n * 8 + (memory (text + n) - 48)

abbrev pub AreDigits : Bytes → (text n : ℕ) → Type 0
AreDigits memory text n = (k : ℕ) → k < n → (48 ≤ memory (text + k)) × (memory (text + k) ≤ 55)

-- the size field of a header: eleven octal digits, and a byte below the digits
pub record IsSize (memory : Bytes) (at size : ℕ) : Type 0 where
  pub digits : AreDigits memory (at + 124) 11
  pub stop : memory (at + 124 + 11) < 48
  pub number : octal memory (at + 124) 11 ≡ size

-- the header of an entry
pub record IsHeader (memory : Bytes) (at : ℕ) (e : Entry) : Type 0 where
  pub named : memory at ≢ 0
  pub in_octal : IsSize memory at e.size
  pub type : memory (at + 156) ≡ e.typeflag

abbrev pub IsArchive : Bytes → ℕ → ℕ → List Entry → Type 0
IsArchive memory at end [] = (at ≡ end) × (memory at ≡ 0)
IsArchive memory at end (e ∷ es) = IsHeader memory at e × IsArchive memory (next_at at e) end es

-- the regular files
abbrev pub files : List Entry → ℕ
files [] = 0
files (e ∷ es) = (if e.typeflag == 48 || e.typeflag == 0 then 1 else 0) + files es

pub at-le-end :
    (memory : Bytes) (at end : ℕ) (es : List Entry)
    → IsArchive memory at end es
    → at + 512 * length es ≤ end
at-le-end memory at end [] h = omega (arith, h.0)
at-le-end memory at end (e ∷ es) h = omega (arith, at-le-end memory (next_at at e) end es h.1)
