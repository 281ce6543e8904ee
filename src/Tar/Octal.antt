-- ===== src/Tar/Octal.antt =====
-- The two readers of octal digits in src/kernel/util/Files/tar_parse.c.
use icarus.Prelude.{
  ap, ap₂, sym, ◌∙◌, ℕ, zero, suc, ◌+◌, ◌-◌, ◌*◌, ◌/◌, ◌%◌, ◌^◌, ◌<◌, ◌≤◌, ◌≡◌, refl, ◌&&◌, true,
  false, leb, arith,
}
use mathlib.Core.Path.{subst}
use native.Mathlib.Nat.{
  pow-suc, pow-le-pow_right, mul-add, mul_assoc, mul_comm, add-mod, mul-add-mod_self_right,
}
use icarus.Prelude.Words.{add64, mul64, add32, mul32}
use icarus.BitMap.{Bytes}
use icarus.Tar.Archive.{octal, AreDigits, IsSize}
use icarus.Tar.{digit, getsize_loop, getsize, parse_octal}

digit-value : (c : ℕ) → 48 ≤ c → c ≤ 55 → digit c ≡ c - 48
unfolding digit
digit-value c ge le = ground arith

octal_bound : (memory : Bytes) (text n : ℕ) → AreDigits memory text n → octal memory text n < 8 ^ n
octal_bound memory text zero h = omega arith
octal_bound memory text (suc n) h = omega (
  arith,
  pow-suc 8 n,
  octal_bound memory text n (λ k lt. h k (omega arith)),
  (h n (omega arith)).1,
)

octal_small :
    (memory : Bytes) (text n : ℕ) → n ≤ 20 → AreDigits memory text n → octal memory text n < 2 ^ 60
octal_small memory text n le h =
    omega (arith, octal_bound memory text n h, pow-le-pow_right {n = 8} (omega arith) le)

parse_octal-octal :
    (memory : Bytes) (text n rest : ℕ)
    → n + rest ≤ 20
    → AreDigits memory text (n + rest)
    → memory (text + (n + rest)) < 48
    → parse_octal memory (text + n) (suc rest) (octal memory text n) ≡ octal memory text (n + rest)
unfolding parse_octal
parse_octal-octal memory text n zero le h end =
    let e : n + 0 ≡ n = omega arith in
    let c : memory (text + n) < 48 = subst (λ i. memory (text + i) < 48) e end in
    let stop : leb 48 (memory (text + n)) && leb (memory (text + n)) 55 ≡ false = ground arith in
    rw (stop, e) refl
parse_octal-octal memory text n (suc rest) le h end =
    let e : n + suc rest ≡ suc n + rest = omega arith in
    let (ge, up) = h n (omega arith) in
    let more : leb 48 (memory (text + n)) && leb (memory (text + n)) 55 ≡ true = ground arith in
    let small = octal_small memory text n (omega arith) (λ k lt. h k (omega arith)) in
    let value : add64 (mul64 (octal memory text n) 8) (memory (text + n) - 48)
        ≡ octal memory text (suc n) =
      omega arith in
    let place : text + n + 1 ≡ text + suc n = omega arith in
    let later =
      parse_octal-octal memory text (suc n) rest (omega arith) (subst (AreDigits memory text) e h)
        (subst (λ i. memory (text + i) < 48) e end) in
    rw (more, value, place) (later ∙ ap (octal memory text) (sym e))

-- a product with a factor that has been cut
mul-mod_cut : (d c : ℕ) → d * (c % 2 ^ 32) % 2 ^ 32 ≡ d * c % 2 ^ 32
mul-mod_cut d c =
    let q : ℕ = c / 2 ^ 32 in
    let parts : c ≡ q * 2 ^ 32 + c % 2 ^ 32 = omega arith in
    let product : d * c ≡ d * q * 2 ^ 32 + d * (c % 2 ^ 32) =
      ap (λ (x : ℕ). d * x) parts
      ∙ mul-add d (q * 2 ^ 32) (c % 2 ^ 32)
      ∙ ap (λ (x : ℕ). x + d * (c % 2 ^ 32)) (sym (mul_assoc d q (2 ^ 32))) in
    sym (
      ap (λ (x : ℕ). x % 2 ^ 32) product
      ∙ mul-add-mod_self_right (d * q) (2 ^ 32) (d * (c % 2 ^ 32)))

scale : (c o d : ℕ) → c * (o * 8 + d) ≡ c * 8 * o + d * c
scale c o d =
    mul-add c (o * 8) d
    ∙ ap₂ (λ (x : ℕ) (y : ℕ). x + y) (ap (λ (x : ℕ). c * x) (mul_comm o 8) ∙ sym (mul_assoc c 8 o))
        (mul_comm c d)

getsize_loop-octal :
    (memory : Bytes) (text j c s : ℕ)
    → AreDigits memory text j
    → getsize_loop memory text j (c % 2 ^ 32) (s % 2 ^ 32) ≡ (s + c * octal memory text j) % 2 ^ 32
unfolding getsize_loop
getsize_loop-octal memory text zero c s h = omega arith
getsize_loop-octal memory text (suc j) c s h =
    let (ge, up) = h j (omega arith) in
    let d : ℕ = memory (text + j) - 48 in
    let read : digit (memory (text + j)) ≡ d = digit-value (memory (text + j)) ge up in
    let count : mul32 (c % 2 ^ 32) 8 ≡ c * 8 % 2 ^ 32 = omega arith in
    let sum : add32 (s % 2 ^ 32) (mul32 d (c % 2 ^ 32)) ≡ (s + d * c) % 2 ^ 32 =
      ap (λ (x : ℕ). (s % 2 ^ 32 + x) % 2 ^ 32) (mul-mod_cut d c)
      ∙ sym (add-mod s (d * c) (2 ^ 32)) in
    let rest = getsize_loop-octal memory text j (c * 8) (s + d * c) (λ k lt. h k (omega arith)) in
    let same : s + d * c + c * 8 * octal memory text j ≡ s + c * octal memory text (suc j) =
      omega (arith, scale c (octal memory text j) d) in
    rw (read, count, sum) (rest ∙ ap (λ (x : ℕ). x % 2 ^ 32) same)

-- both readers at a size field
pub parse_octal-IsSize :
    (memory : Bytes) (at size : ℕ)
    → IsSize memory at size
    → parse_octal memory (at + 124) 12 0 ≡ size
parse_octal-IsSize memory at size h =
    let place : at + 124 + 0 ≡ at + 124 = omega arith in
    subst (λ t. parse_octal memory t 12 0 ≡ octal memory (at + 124) 11) place
      (parse_octal-octal memory (at + 124) 0 11 (omega arith) h.digits h.stop)
    ∙ h.number

pub getsize-IsSize :
    (memory : Bytes) (at size : ℕ)
    → IsSize memory at size
    → getsize memory (at + 124) ≡ size % 2 ^ 32
unfolding getsize
getsize-IsSize memory at size h =
    getsize_loop-octal memory (at + 124) 11 1 0 h.digits ∙ omega (arith, h.number)

-- On a size field of eleven octal digits and a byte below the digits, such as a zero or a space, the two readers agree
-- up to the width of an unsigned int: `getsize` returns what `parse_octal` returns for the twelve bytes, modulo 2 ^ 32.
getsize-parse_octal :
    (memory : Bytes) (text : ℕ)
    → AreDigits memory text 11
    → memory (text + 11) < 48
    → getsize memory text ≡ parse_octal memory text 12 0 % 2 ^ 32
unfolding getsize
getsize-parse_octal memory text h end =
    let place : text + 0 ≡ text = omega arith in
    let whole : parse_octal memory text 12 0 ≡ octal memory text 11 =
      subst (λ t. parse_octal memory t 12 0 ≡ octal memory text 11) place
        (parse_octal-octal memory text 0 11 (omega arith) h end) in
    let small = getsize_loop-octal memory text 11 1 0 h in
    rw whole (small ∙ ap (λ (x : ℕ). x % 2 ^ 32) (omega arith))
