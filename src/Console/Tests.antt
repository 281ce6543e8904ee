-- ===== src/Console/Tests.antt =====
-- Witnesses for src/kernel/util/shellio.c.
use icarus.Prelude.{ℕ, ◌≡◌, refl, some, List, [], ◌∷◌, false}
use icarus.Console.{Screen, Arg, int_arg, long_arg, vprintf}
use icarus.Console.Text.{
  write_text, text_from, vprintf-text, conversion, meaning, directive_text, numeral,
}

abbrev blank : Screen
blank = record { video = λ a. 0; cur = record { x = 0; y = 0 } }

-- "n=%i %x%b" for -12, 0xbeef and 1
abbrev format : List ℕ
format = 110 ∷ 61 ∷ 37 ∷ 105 ∷ 32 ∷ 37 ∷ 120 ∷ 37 ∷ 98 ∷ []

abbrev args : List Arg
args = int_arg 4294967284 ∷ long_arg 48879 ∷ int_arg 1 ∷ []

vprintf-text_example : vprintf format args blank ≡ write_text (text_from false format args) blank
vprintf-text_example = vprintf-text format args blank

-- "n=-12 0xbeeftrue%b": the case of %b runs into the default
format_text :
    text_from false format args
    ≡ some (
        110 ∷ 61 ∷ 45 ∷ 49 ∷ 50 ∷ 32 ∷ 48 ∷ 120 ∷ 98 ∷ 101 ∷ 101 ∷ 102 ∷ 116 ∷ 114 ∷ 117 ∷ 101 ∷ 37
        ∷ 98 ∷ [])
unfolding text_from conversion meaning directive_text numeral
format_text = refl
