-- ===== src/Console/Numbers.antt =====
-- The digits that `vprintf` of src/kernel/util/shellio.c prints.
use icarus.Prelude.{
  ℕ, zero, suc, ◌+◌, ◌-◌, ◌*◌, ◌/◌, ◌%◌, ◌^◌, ◌≤◌, ◌<◌, ◌≡◌, refl, sym, ◌⊎◌, inl, inr, arith, leb,
  ◌==◌, if◌then◌else◌, List, [], ◌∷◌, length, Bool-cases, ==_iff,
}
use mathlib.Core.Path.{subst}
use icarus.Console.{digit_char, digits}

-- the value of a character, and of the digits in a buffer, the last digit of the number first
abbrev pub digit_of : ℕ → ℕ
digit_of c = if leb c 57 then c - 48 else c - 87

unfoldable pub read_number : (base : ℕ) → List ℕ → ℕ
read_number base [] = 0
read_number base (c ∷ cs) = digit_of c + base * read_number base cs

abbrev pub Base : ℕ → Type 0
Base base = (base ≡ 10) ⊎ (base ≡ 16)

-- one division, for each base
record Divided (base v : ℕ) : Type 0 where
  parts : digit_of (digit_char (v % base)) + base * (v / base) ≡ v
  halved : v / base * 2 ≤ v

divided : (base v : ℕ) → Base base → Divided base v
divided base v (inl e) =
    subst (λ b. Divided b v) (sym e) (record { parts = ground arith; halved = omega arith })
divided base v (inr e) =
    subst (λ b. Divided b v) (sym e) (record { parts = ground arith; halved = omega arith })

-- Reading the printed digits gives the number back, in both bases, for a number below 2 to the fuel.
pub read_number-digits :
    (fuel base v : ℕ) → Base base → v < 2 ^ fuel → read_number base (digits fuel base v) ≡ v
unfolding read_number digits
read_number-digits zero base v b lt = omega (arith, lt)
read_number-digits (suc fuel) base v b lt =
    let d = divided base v b in
    elim (Bool-cases (v / base == 0)) [
      | inl e ↦ rw e (ground (arith, d.parts, (==_iff (v / base) 0).0 e))
      | inr e ↦
          rw (e, read_number-digits fuel base (v / base) b (omega (arith, lt, d.halved))) d.parts
    ]

-- no more digits than `k`
pub length-digits-decimal : (k fuel v : ℕ) → v < 10 ^ suc k → length (digits fuel 10 v) ≤ suc k
unfolding digits
length-digits-decimal k zero v lt = omega arith
length-digits-decimal zero (suc fuel) v lt = ground arith
length-digits-decimal (suc k) (suc fuel) v lt =
    ground (arith, length-digits-decimal k fuel (v / 10) (omega (arith, lt)))

pub length-digits-hex : (k fuel v : ℕ) → v < 16 ^ suc k → length (digits fuel 16 v) ≤ suc k
unfolding digits
length-digits-hex k zero v lt = omega arith
length-digits-hex zero (suc fuel) v lt = ground arith
length-digits-hex (suc k) (suc fuel) v lt =
    ground (arith, length-digits-hex k fuel (v / 16) (omega (arith, lt)))

-- Every 64-bit number is printed as itself, in decimal and in hexadecimal, and fits the buffer: at most 20 digits of 21
-- places in decimal, and 16 of 16 in hexadecimal.
digits_lem :
    (v : ℕ)
    → v < 2 ^ 64
    → (read_number 10 (digits 64 10 v) ≡ v)
      × (length (digits 64 10 v) ≤ 20)
      × (read_number 16 (digits 64 16 v) ≡ v)
      × (length (digits 64 16 v) ≤ 16)
digits_lem v lt = (
  read_number-digits 64 10 v (inl refl) lt,
  length-digits-decimal 19 64 v (omega arith),
  read_number-digits 64 16 v (inr refl) lt,
  length-digits-hex 15 64 v (omega arith),
)
