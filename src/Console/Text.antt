-- ===== src/Console/Text.antt =====
-- The text that `vprintf` of src/kernel/util/shellio.c writes, apart from where it goes.
use icarus.Prelude.{
  ℕ, zero, suc, ◌+◌, ◌-◌, ◌/◌, ◌%◌, ◌^◌, ◌≡◌, refl, sym, ap, ◌∙◌, Bool, true, false, ◌||◌, ltb, leb,
  ◌==◌, ==_iff, leb→le, arith, if◌then◌else◌, Option, none, some, List, [], ◌∷◌, ◌++◌, Bool-cases,
  inl, inr, Option-cases,
}
use mathlib.Core.Path.{subst}
use icarus.Console.Numbers.{Base}
use icarus.Console.{
  digit_char, Screen, Arg, take_int, take_long, take_str, write_c, write_str, digits, write_back,
  write_int, write_hex, taking, convert, vprintf_from, vprintf, true_str, false_str,
}

-- a list from its end
abbrev pub backwards : List ℕ → List ℕ
backwards [] = []
backwards (d ∷ ds) = backwards ds ++ d ∷ []

-- A number as it is written: the character of its last digit, behind the number without that digit where there is
-- more than one. 64 digits are enough for a number of 64 bits.
abbrev pub digit_sign : ℕ → ℕ
digit_sign d = if ltb d 10 then d + 48 else d - 10 + 97

unfoldable pub numeral : (places base v : ℕ) → List ℕ
numeral zero base v = []
numeral (suc places) base v =
    (if ltb v base then [] else numeral places base (v / base)) ++ digit_sign (v % base) ∷ []

-- a number of 32 bits in two's complement, and its absolute value with its sign
abbrev pub signed_text : ℕ → List ℕ
signed_text v = if ltb v (2 ^ 31) then numeral 64 10 v else 45 ∷ numeral 64 10 (2 ^ 32 - v)

-- what the characters behind a per cent sign ask for
pub data Directive : Type 0 where
  signed unsigned unsigned_long hexadecimal string character boolean literal : Directive

-- the characters with their meaning
abbrev pub directives : List (ℕ × Directive)
directives =
    (105, signed)
    ∷ (104, signed)
    ∷ (117, unsigned)
    ∷ (108, unsigned_long)
    ∷ (120, hexadecimal)
    ∷ (115, string)
    ∷ (99, character)
    ∷ (98, boolean)
    ∷ []

unfoldable pub meaning : List (ℕ × Directive) → ℕ → Directive
meaning [] c = literal
meaning ((key, d) ∷ rest) c = if c == key then d else meaning rest c

-- the text of an argument, and the arguments left
abbrev pub reading {ℓ} :
    {A : Type ℓ} → Option (A × List Arg) → (A → List ℕ) → Option (List ℕ × List Arg)
reading none text = none
reading (some (v, args)) text = some (text v, args)

abbrev pub truth_text : ℕ → List ℕ
truth_text v = (if v == 0 then false_str else true_str) ++ 37 ∷ 98 ∷ []

-- what a directive stands for
unfoldable pub directive_text : Directive → (c : ℕ) → List Arg → Option (List ℕ × List Arg)
directive_text signed c args = reading (take_int args) signed_text
directive_text unsigned c args = reading (take_int args) (numeral 64 10)
directive_text unsigned_long c args = reading (take_long args) (numeral 64 10)
directive_text hexadecimal c args = reading (take_long args) (λ v. 48 ∷ 120 ∷ numeral 64 16 v)
directive_text string c args = reading (take_str args) (λ str. str)
directive_text character c args = reading (take_int args) (λ v. v % 2 ^ 8 ∷ [])
directive_text boolean c args = reading (take_int args) truth_text
directive_text literal c args = some (37 ∷ c ∷ [], args)

unfoldable pub conversion : (c : ℕ) → List Arg → Option (List ℕ × List Arg)
unfolding meaning directive_text numeral
conversion c args = directive_text (meaning directives c) c args

abbrev after : List ℕ → Option (List ℕ) → Option (List ℕ)
after text none = none
after text (some more) = some (text ++ more)

-- the text of a format with its arguments
unfoldable pub text_from : (format_next : Bool) → List ℕ → List Arg → Option (List ℕ)
unfolding conversion
text_from format_next [] args = some []
text_from format_next (c ∷ format) args =
    if c == 37 then text_from true format args else elim format_next [
      | true ↦ elim (conversion c args) [
        | none ↦ none
        | some (text, args') ↦ after text (text_from false format args')
      ]
      | false ↦ after (c ∷ []) (text_from false format args)
    ]

abbrev pub write_text : Option (List ℕ) → Screen → Option Screen
write_text none s = none
write_text (some text) s = some (write_str text s)

pub write_str-++ : (a b : List ℕ) (s : Screen) → write_str (a ++ b) s ≡ write_str b (write_str a s)
unfolding write_str
write_str-++ [] b s = refl
write_str-++ (c ∷ a) b s = write_str-++ a b (write_c c s)

write_back-backwards : (ds : List ℕ) (s : Screen) → write_back ds s ≡ write_str (backwards ds) s
unfolding write_back write_str
write_back-backwards [] s = refl
write_back-backwards (d ∷ ds) s =
    ap (write_c d) (write_back-backwards ds s) ∙ sym (write_str-++ (backwards ds) (d ∷ []) s)

-- the digits of the code, turned round, are the numeral
record SameDigit (base v : ℕ) : Type 0 where
  small : ltb v base ≡ (v / base == 0)
  sign : digit_char (v % base) ≡ digit_sign (v % base)

same_digit : (base v : ℕ) → Base base → SameDigit base v
same_digit base v (inl e) =
    subst (λ b. SameDigit b v) (sym e) (record { small = ground arith; sign = ground arith })
same_digit base v (inr e) =
    subst (λ b. SameDigit b v) (sym e) (record { small = ground arith; sign = ground arith })

numeral-digits :
    (places base v : ℕ) → Base base → backwards (digits places base v) ≡ numeral places base v
unfolding digits numeral
numeral-digits zero base v b = refl
numeral-digits (suc places) base v b =
    let d = same_digit base v b in
    elim (Bool-cases (v / base == 0)) [
      | inl e ↦ rw (d.small, d.sign, e) refl
      | inr e ↦ rw (d.small, d.sign, e, numeral-digits places base (v / base) b) refl
    ]

write_number-text :
    (base v : ℕ) (s : Screen)
    → Base base
    → write_back (digits 64 base v) s ≡ write_str (numeral 64 base v) s
write_number-text base v s b =
    write_back-backwards (digits 64 base v) s
    ∙ ap (λ text. write_str text s) (numeral-digits 64 base v b)

-- `take_int` gives a number of 32 bits
write_int-text : (v : ℕ) (s : Screen) → write_int v s ≡ write_str (signed_text v) s
unfolding write_int write_str
write_int-text v s = elim (Bool-cases (leb (2 ^ 31) v)) [
  | inl e ↦
      let big : ltb v (2 ^ 31) ≡ false = ground (arith, e) in
      let positive : (2 ^ 32 - v) % 2 ^ 32 ≡ 2 ^ 32 - v = omega (arith, leb→le _ _ e) in
      rw (e, big, positive) (write_number-text 10 (2 ^ 32 - v) (write_c 45 s) (inl refl))
  | inr e ↦
      let small : ltb v (2 ^ 31) ≡ true = ground (arith, e) in
      rw (e, small) (write_number-text 10 v s (inl refl))
]

write_hex-text : (v : ℕ) (s : Screen) → write_hex v s ≡ write_str (48 ∷ 120 ∷ numeral 64 16 v) s
unfolding write_hex write_str
write_hex-text v s = write_number-text 16 v (write_c 120 (write_c 48 s)) (inr refl)

-- both characters of a conversion that %b runs into
truth_text-text :
    (c v : ℕ) (s : Screen)
    → c == 98 ≡ true
    → write_c c (write_c 37 (write_str (if v == 0 then false_str else true_str) s))
      ≡ write_str (truth_text v) s
unfolding write_str
truth_text-text c v s b =
    rw ((==_iff c 98).0 b)
      (sym (write_str-++ (if v == 0 then false_str else true_str) (37 ∷ 98 ∷ []) s))

-- a conversion written is its text written
abbrev written : Option (List ℕ × List Arg) → Screen → Option (List Arg × Screen)
written none s = none
written (some (text, args)) s = some (args, write_str text s)

taking-reading {ℓ} :
    {A : Type ℓ} (o : Option (A × List Arg)) (write : A → Screen → Screen) (text : A → List ℕ)
    (s : Screen)
    → ((v : A) → write v s ≡ write_str (text v) s)
    → taking o write s ≡ written (reading o text) s
taking-reading none write text s same = refl
taking-reading (some (v, args)) write text s same = ap (λ s'. some (args, s')) (same v)

-- the table, as the tests of `convert` go through it
meaning-directives :
    (c : ℕ)
    → meaning directives c ≡ (
        if (c == 105) || (c == 104)
        then signed
        else if c == 117
        then unsigned
        else if c == 108
        then unsigned_long
        else if c == 120
        then hexadecimal
        else if c == 115
        then string
        else if c == 99
        then character
        else if c == 98
        then boolean
        else literal)
unfolding meaning
meaning-directives c = elim (Bool-cases (c == 105)) [
  | inl e ↦ rw e refl
  | inr e ↦ elim (Bool-cases (c == 104)) [ inl h ↦ rw (e, h) refl | inr h ↦ rw (e, h) refl ]
]

convert-conversion :
    (c : ℕ) (args : List Arg) (s : Screen) → convert c args s ≡ written (conversion c args) s
unfolding convert conversion directive_text write_str
convert-conversion c args s = elim (Bool-cases ((c == 105) || (c == 104))) [
  | inl e ↦
      rw (meaning-directives c, e)
        (taking-reading (take_int args) write_int signed_text s (λ v. write_int-text v s))
  | inr e ↦ elim (Bool-cases (c == 117)) [
    | inl u ↦
        rw (meaning-directives c, e, u)
          (taking-reading (take_int args) _ _ s (λ v. write_number-text 10 v s (inl refl)))
    | inr u ↦ elim (Bool-cases (c == 108)) [
      | inl l ↦
          rw (meaning-directives c, e, u, l)
            (taking-reading (take_long args) _ _ s (λ v. write_number-text 10 v s (inl refl)))
      | inr l ↦ elim (Bool-cases (c == 120)) [
        | inl x ↦
            rw (meaning-directives c, e, u, l, x)
              (taking-reading (take_long args) _ _ s (λ v. write_hex-text v s))
        | inr x ↦ elim (Bool-cases (c == 115)) [
          | inl t ↦
              rw (meaning-directives c, e, u, l, x, t)
                (taking-reading (take_str args) _ _ s (λ v. refl))
          | inr t ↦ elim (Bool-cases (c == 99)) [
            | inl h ↦
                rw (meaning-directives c, e, u, l, x, t, h)
                  (taking-reading (take_int args) _ _ s (λ v. refl))
            | inr h ↦ elim (Bool-cases (c == 98)) [
              | inl b ↦
                  rw (meaning-directives c, e, u, l, x, t, h, b)
                    (taking-reading (take_int args) _ _ s (λ v. truth_text-text c v s b))
              | inr b ↦ rw (meaning-directives c, e, u, l, x, t, h, b) refl
            ]
          ]
        ]
      ]
    ]
  ]
]

write_text-after :
    (text : List ℕ) (o : Option (List ℕ)) (s : Screen)
    → write_text o (write_str text s) ≡ write_text (after text o) s
write_text-after text none s = refl
write_text-after text (some more) s = ap some (sym (write_str-++ text more s))

vprintf_from-text :
    (format_next : Bool) (format : List ℕ) (args : List Arg) (s : Screen)
    → vprintf_from format_next format args s ≡ write_text (text_from format_next format args) s
unfolding vprintf_from text_from write_str
vprintf_from-text n [] args s = refl
vprintf_from-text false (c ∷ format) args s = elim (Bool-cases (c == 37)) [
  | inl e ↦ rw e (vprintf_from-text true format args s)
  | inr e ↦ rw e (
      vprintf_from-text false format args (write_c c s)
      ∙ write_text-after (c ∷ []) (text_from false format args) s)
]
vprintf_from-text true (c ∷ format) args s = elim (Bool-cases (c == 37)) [
  | inl e ↦ rw e (vprintf_from-text true format args s)
  | inr e ↦ elim (Option-cases (conversion c args)) [
    | inl u ↦
        let same = convert-conversion c args s ∙ ap (λ o. written o s) u in rw (e, same, u) refl
    | inr k ↦
        let (text, args') = k.0 in
        let same = convert-conversion c args s ∙ ap (λ o. written o s) k.1 in
        rw (e, same, k.1)
          (vprintf_from-text false format args' (write_str text s)
            ∙ write_text-after text (text_from false format args') s)
  ]
]

-- `vprintf` writes one text, character by character, which depends on the format and the arguments only: characters
-- as they are, and for the one behind a per cent sign what the table of directives says of it. A number is its numeral,
-- the most significant digit first and with no leading zero; %i and %h read 32 bits in two's complement. %b stands for
-- the word and, since its case has no break, the two characters of the directive again. Where an argument is not of
-- the type that is asked for, C leaves it undefined, and so does the model.
pub vprintf-text :
    (format : List ℕ) (args : List Arg) (s : Screen)
    → vprintf format args s ≡ write_text (text_from false format args) s
unfolding vprintf
vprintf-text format args s = vprintf_from-text false format args s
