-- ===== src/Keyboard/Tests.antt =====
-- The theorems on the keyboard of src/kernel/Drivers/PS2/PS2_Keyboard.c, at keys of the tables.
use icarus.Prelude.{◌≡◌, refl, false, List, [], ◌∷◌, ◌++◌, arith}
use icarus.Keyboard.{handle_all}
use icarus.Keyboard.Tables.{entry}
use icarus.Keyboard.Modes.{
  Modes, KeyEvent, press, let_go, ext_press, typed, modes_after, text, final, all_bytes, ArePlain,
}
use icarus.Keyboard.Decode.{idle, handle_all-all_bytes, handle_all-ext_let_go}

abbrev lower : Modes
lower = record { shift = false; caps = false }

-- shift and A, then caps lock, A, an arrow key, and the key 1
abbrev some_events : List KeyEvent
some_events =
    press 0x12
    ∷ press 0x1C
    ∷ let_go 0x1C
    ∷ let_go 0x12
    ∷ press 0x58
    ∷ let_go 0x58
    ∷ press 0x1C
    ∷ ext_press 0x75
    ∷ press 0x16
    ∷ []

some_events-ArePlain : ArePlain some_events
some_events-ArePlain = (
  (omega arith, omega arith),
  (
    (omega arith, omega arith),
    (
      (omega arith, omega arith),
      (
        (omega arith, omega arith),
        (
          (omega arith, omega arith),
          (
            (omega arith, omega arith),
            (
              (omega arith, omega arith),
              ((omega arith, omega arith), ((omega arith, omega arith), tt)),
            ),
          ),
        ),
      ),
    ),
  ),
)

some_text : text lower some_events ≡ 65 ∷ 65 ∷ 49 ∷ []
unfolding text entry
some_text = refl

handle_all-all_bytes_example :
    handle_all ([], idle lower) (all_bytes some_events)
    ≡ ([] ++ text lower some_events, idle (final lower some_events))
handle_all-all_bytes_example = handle_all-all_bytes lower some_events [] some_events-ArePlain

-- the Enter key of the keypad
handle_all-ext_let_go_example :
    handle_all ([], idle lower) (0xE0 ∷ 0xF0 ∷ 0x5A ∷ [])
    ≡ ([] ++ typed lower (press 0x5A), idle (modes_after lower (press 0x5A)))
handle_all-ext_let_go_example = handle_all-ext_let_go lower 0x5A [] (omega arith, omega arith)
