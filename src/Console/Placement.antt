-- ===== src/Console/Placement.antt =====
-- Where the characters go that src/kernel/util/shellio.c writes, and where the cursor stands after them.
use icarus.Prelude.{
  ℕ, zero, suc, ◌+◌, ◌%◌, ◌^◌, ◌≤◌, ◌<◌, ◌≡◌, ◌≢◌, refl, ap, ◌∙◌, arith, List, [], ◌∷◌, ◌++◌,
  length,
}
use icarus.Console.{Cursor, Screen, video_size, vidptr, move_cursor, new_lines, write_c, write_str}
use icarus.Console.Text.{write_str-++}

-- characters that are drawn
abbrev pub AllDrawn : List ℕ → Type 0
AllDrawn [] = Unit
AllDrawn (c ∷ str) = (c ≢ 10) × (c ≢ 13) × AllDrawn str

abbrev pub NoNewline : List ℕ → Type 0
NoNewline [] = Unit
NoNewline (c ∷ str) = (c ≢ 10) × NoNewline str

-- inside the 80 columns and 25 rows
pub record OnScreen (cur : Cursor) : Type 0 where
  pub col : cur.x < 80
  pub row : cur.y < 25

write_c-drawn :
    (c : ℕ) (s : Screen)
    → c ≢ 10
    → c ≢ 13
    → s.cur.y < 25
    → ((write_c c s).cur.x ≡ (s.cur.x + 1) % 80) × ((write_c c s).cur.y ≡ s.cur.y)
unfolding write_c move_cursor
write_c-drawn c s nl cr row = (ground arith, ground arith)

-- The cursor never leaves its row by characters that are drawn: from inside the screen, after any number of them, it stands in
-- the same row, and its column is taken modulo 80.
write_str-stays_in_row :
    (str : List ℕ) (s : Screen)
    → AllDrawn str
    → OnScreen s.cur
    → ((write_str str s).cur.x ≡ (s.cur.x + length str) % 80) × ((write_str str s).cur.y ≡ s.cur.y)
unfolding write_str
write_str-stays_in_row [] s drawn on = (omega (arith, on.col), refl)
write_str-stays_in_row (c ∷ str) s drawn on =
    let (x, y) = write_c-drawn c s drawn.0 drawn.1 on.row in
    let (x', y') =
      write_str-stays_in_row str (write_c c s) drawn.2
        (record { col = omega (arith, x); row = omega (arith, y, on.row) }) in
    (omega (arith, x, x'), y' ∙ y)

write_c-OnScreen : (c : ℕ) (s : Screen) → c ≢ 10 → OnScreen s.cur → OnScreen (write_c c s).cur
unfolding write_c move_cursor
write_c-OnScreen c s nl on = record { col = ground (arith, on.col); row = ground (arith, on.row) }

write_c-within :
    (c : ℕ) (s : Screen) (a : ℕ)
    → OnScreen s.cur
    → video_size ≤ a
    → (write_c c s).video a ≡ s.video a
unfolding write_c
write_c-within c s a on out = ground (arith, on.col, on.row)

-- From inside the screen, a string without a new line writes nothing behind video memory, and leaves the cursor inside.
write_str-within :
    (str : List ℕ) (s : Screen)
    → NoNewline str
    → OnScreen s.cur
    → OnScreen (write_str str s).cur
      × ((a : ℕ) → video_size ≤ a → (write_str str s).video a ≡ s.video a)
unfolding write_str
write_str-within [] s plain on = (on, λ a out. refl)
write_str-within (c ∷ str) s plain on =
    let (on', same) =
      write_str-within str (write_c c s) plain.1 (write_c-OnScreen c s plain.0 on) in
    (on', λ a out. same a out ∙ write_c-within c s a on out)

abbrev pub newlines : ℕ → List ℕ
newlines zero = []
newlines (suc n) = 10 ∷ newlines n

write_str-newlines :
    (n : ℕ) (s : Screen)
    → s.cur.x ≡ 0
    → s.cur.y + n < 2 ^ 16
    → ((write_str (newlines n) s).cur.x ≡ 0) × ((write_str (newlines n) s).cur.y ≡ s.cur.y + n)
unfolding write_str write_c new_lines
write_str-newlines zero s left lt = (left, omega arith)
write_str-newlines (suc n) s left lt =
    let (x, y) = write_str-newlines n (write_c 10 s) refl (omega (arith, lt)) in
    (x, omega (arith, y, lt))

write_c-put : (c : ℕ) (s : Screen) → c ≢ 10 → c ≢ 13 → (write_c c s).video (vidptr s.cur) ≡ c
unfolding write_c
write_c-put c s nl cr = ground arith

-- Nothing scrolls or stops at the last row: from the start of a row, new lines that lead to row 25 or below, and a
-- character that is drawn, and it is stored behind the end of video memory. The row stays below 2^16.
write_str_past_end :
    (n c : ℕ) (s : Screen)
    → s.cur.x ≡ 0
    → 25 ≤ s.cur.y + n
    → s.cur.y + n < 2 ^ 16
    → c ≢ 10
    → c ≢ 13
    → (a : ℕ) × (video_size ≤ a) × ((write_str (newlines n ++ c ∷ []) s).video a ≡ c)
unfolding write_str
write_str_past_end n c s left below lt nl cr =
    let (x, y) = write_str-newlines n s left lt in
    (
      vidptr (write_str (newlines n) s).cur,
      omega (arith, x, y, below),
      ap (λ (out : Screen). out.video (vidptr (write_str (newlines n) s).cur))
            (write_str-++ (newlines n) (c ∷ []) s)
          ∙ write_c-put c (write_str (newlines n) s) nl cr,
    )
