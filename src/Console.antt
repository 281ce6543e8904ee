-- ===== src/Console.antt =====
-- The console of src/kernel/util/shellio.c: the cursor, the characters in text-mode memory, and `vprintf`. A place in
-- video memory is written as its distance from `videoMemStart`; a string is the list of its characters up to the zero.
mod Placement
mod Numbers
mod Text
mod Tests
use icarus.Prelude.{
  ℕ, zero, suc, ◌+◌, ◌-◌, ◌*◌, ◌/◌, ◌%◌, ◌^◌, Bool, true, false, ◌||◌, leb, ◌==◌, if◌then◌else◌,
  Option, none, some, List, [], ◌∷◌, ◌++◌,
}

-- two uint16_t
pub record Cursor : Type 0 where
  pub x : ℕ
  pub y : ℕ

-- video memory, of which only the character bytes are written, and a cursor
pub record Screen : Type 0 where
  pub video : ℕ → ℕ
  pub cur : Cursor

abbrev pub cols : ℕ
cols = 80

abbrev pub rows : ℕ
rows = 25

-- `videoMemEnd - videoMemStart`
abbrev pub video_size : ℕ
video_size = cols * rows * 2

unfoldable pub move_cursor : (offset : ℕ) → Cursor → Cursor
move_cursor offset cur = record {
  x = (cur.x + offset % rows) % cols;
  y = (cur.y + offset / rows) % rows;
}

unfoldable pub new_lines : (count : ℕ) → Cursor → Cursor
new_lines count cur = record { x = 0; y = (cur.y + count) % 2 ^ 16 }

-- where the next character goes
abbrev pub vidptr : Cursor → ℕ
vidptr cur = (cur.x + cur.y * cols) * 2

unfoldable pub write_c : (c : ℕ) → Screen → Screen
unfolding move_cursor new_lines
write_c c s =
    let put : Screen = record {
      video = λ a. if a == vidptr s.cur then c else s.video a;
      cur = move_cursor 1 s.cur;
    } in
    if c == 10
    then record s { cur = new_lines 1 s.cur }
    else if c == 13
    then record s { cur = record { x = 0; y = s.cur.y } }
    else put

unfoldable pub write_str : List ℕ → Screen → Screen
unfolding write_c
write_str [] s = s
write_str (c ∷ str) s = write_str str (write_c c s)

-- a cursor of its own, from an offset in characters; it writes `len` characters, zeros as well
unfoldable pub write_str_len : (str : List ℕ) → (offset : ℕ) → Screen → Screen
unfolding write_str
write_str_len str offset s =
    let out =
      write_str str (record s { cur = record { x = offset % cols; y = offset / cols % 2 ^ 16 } }) in
    record out { cur = s.cur }

-- The arguments behind the format, by the type they are passed with. An int is its 32 bits. Taking one by another type
-- is undefined in C.
pub data Arg : Type 0 where
  int_arg long_arg : ℕ → Arg
  str_arg : List ℕ → Arg

abbrev pub take_int : List Arg → Option (ℕ × List Arg)
take_int (int_arg v ∷ args) = some (v, args)
take_int _ = none

abbrev pub take_long : List Arg → Option (ℕ × List Arg)
take_long (long_arg v ∷ args) = some (v, args)
take_long _ = none

abbrev pub take_str : List Arg → Option (List ℕ × List Arg)
take_str (str_arg v ∷ args) = some (v, args)
take_str _ = none

-- `'0' + digit`, and the string that %x looks a digit up in
abbrev pub digit_char : ℕ → ℕ
digit_char d = if leb d 9 then 48 + d else 87 + d

-- The loop that fills the buffer, the last digit first. It runs once at least; 64 rounds are enough for 64 bits.
unfoldable pub digits : (fuel base v : ℕ) → List ℕ
digits zero base v = []
digits (suc fuel) base v =
    let more = digits fuel base (v / base) in
    digit_char (v % base) ∷ (if v / base == 0 then [] else more)

-- The loop that writes a buffer from its end.
unfoldable pub write_back : List ℕ → Screen → Screen
unfolding write_c
write_back [] s = s
write_back (d ∷ ds) s = write_c d (write_back ds s)

-- %i and %h
unfoldable pub write_int : (v : ℕ) → Screen → Screen
unfolding digits write_back
write_int v s =
    let neg = leb (2 ^ 31) v in
    let uval = if neg then (2 ^ 32 - v) % 2 ^ 32 else v in
    write_back (digits 64 10 uval) (if neg then write_c 45 s else s)

-- %x
unfoldable pub write_hex : (v : ℕ) → Screen → Screen
unfolding digits write_back
write_hex v s = write_back (digits 64 16 v) (write_c 120 (write_c 48 s))

abbrev pub true_str : List ℕ
true_str = 116 ∷ 114 ∷ 117 ∷ 101 ∷ []

abbrev pub false_str : List ℕ
false_str = 102 ∷ 97 ∷ 108 ∷ 115 ∷ 101 ∷ []

-- one argument taken and written
abbrev pub taking {ℓ} :
    {A : Type ℓ}
    → Option (A × List Arg)
    → (A → Screen → Screen)
    → Screen
    → Option (List Arg × Screen)
taking none write s = none
taking (some (v, args)) write s = some (args, write v s)

-- The switch on the character behind a per cent sign. The case of %b has no break.
unfoldable pub convert : (c : ℕ) → List Arg → Screen → Option (List Arg × Screen)
unfolding write_int write_hex write_str
convert c args s =
    if (c == 105) || (c == 104)
    then taking (take_int args) write_int s
    else if c == 117
    then taking (take_int args) (λ v s. write_back (digits 64 10 v) s) s
    else if c == 108
    then taking (take_long args) (λ v s. write_back (digits 64 10 v) s) s
    else if c == 120
    then taking (take_long args) write_hex s
    else if c == 115
    then taking (take_str args) write_str s
    else if c == 99
    then taking (take_int args) (λ v s. write_c (v % 2 ^ 8) s) s
    else if c == 98
    then taking (take_int args)
        (λ v s. write_c c (write_c 37 (write_str (if v == 0 then false_str else true_str) s))) s
    else some (args, write_c c (write_c 37 s))

-- the loop of `vprintf`
unfoldable pub vprintf_from : (format_next : Bool) → List ℕ → List Arg → Screen → Option Screen
unfolding convert write_c
vprintf_from format_next [] args s = some s
vprintf_from format_next (c ∷ format) args s =
    if c == 37 then vprintf_from true format args s else elim format_next [
      | true ↦ elim (convert c args s) [
        | none ↦ none
        | some (args', s') ↦ vprintf_from false format args' s'
      ]
      | false ↦ vprintf_from false format args (write_c c s)
    ]

unfoldable pub vprintf : List ℕ → List Arg → Screen → Option Screen
unfolding vprintf_from
vprintf format args s = vprintf_from false format args s

-- `Imclear`: video memory cleared, attributes too
unfoldable pub imclear : Screen → Screen
imclear s = record {
  video = λ a. if leb video_size a then s.video a else 0;
  cur = record { x = 0; y = 0 };
}
