-- ===== src/Keyboard.antt =====
-- The PS/2 keyboard: `kbd_translate` of src/kernel/Drivers/PS2/PS2_Keyboard.c, one byte at a time, and
-- `keyboard_interrupt_handler` of src/kernel/interrupts/ISR_handlers.c. A char is its ASCII value; all of
-- them are below 128.
pub mod Tables
mod Modes
mod Decode
mod Tests
use icarus.Prelude.{
  ℕ, ◌+◌, ◌-◌, Bool, true, false, not, ◌&&◌, ◌||◌, leb, ◌==◌, if◌then◌else◌, List, [], ◌∷◌, ◌++◌,
}
use icarus.Keyboard.Tables.{sc2_normal, sc2_shift, entry}

-- `ps2_kb_state`
pub record KbState : Type 0 where
  pub shift : Bool
  pub caps : Bool
  pub release : Bool
  pub extended : Bool

-- what caps lock does to a character
unfoldable pub apply_caps : (caps shift : Bool) → ℕ → ℕ
apply_caps caps shift c =
    if caps && leb 97 c && leb c 122
    then c - 32
    else if caps && leb 65 c && leb c 90 && shift
    then c + 32
    else c

-- from the point where the prefixes have been dealt with; `release` has been taken from the state
unfoldable pub translate_key : (release : Bool) → KbState → ℕ → ℕ × KbState
unfolding apply_caps entry
translate_key release state sc =
    if sc == 0x12 || sc == 0x59
    then (0, record state { shift = not release })
    else if sc == 0x58 && release
    then (0, record state { caps = not state.caps })
    else if release || leb 128 sc
    then (0, state)
    else (
      apply_caps state.caps state.shift (entry (if state.shift then sc2_shift else sc2_normal) sc),
      state,
    )

unfoldable pub kbd_translate : KbState → ℕ → ℕ × KbState
unfolding translate_key
kbd_translate state sc =
    if sc == 0xE0
    then (0, record state { extended = true })
    else if state.extended
    then (0, record state { extended = false })
    else if sc == 0xF0
    then (0, record state { release = true })
    else translate_key state.release (record state { release = false }) sc

-- one interrupt: the characters printed so far, and the state
unfoldable pub keyboard_interrupt_handler : List ℕ × KbState → ℕ → List ℕ × KbState
unfolding kbd_translate
keyboard_interrupt_handler (printed, state) sc =
    let (c, state') = kbd_translate state sc in
    (if not (c == 0) then printed ++ (c ∷ []) else printed, state')

-- an interrupt for each byte
unfoldable pub handle_all : List ℕ × KbState → List ℕ → List ℕ × KbState
unfolding keyboard_interrupt_handler
handle_all console [] = console
handle_all console (sc ∷ rest) = handle_all (keyboard_interrupt_handler console sc) rest
