-- ===== src/Keyboard/Decode.antt =====
-- `kbd_translate` of src/kernel/Drivers/PS2/PS2_Keyboard.c, fed by the interrupts, prints what the keyboard types.
use icarus.Prelude.{
  refl, [], ◌∷◌, ◌++◌, ◌∙◌, Bool-cases, inl, inr, List, ap, ℕ, ◌≡◌, ◌≢◌, true, false, ◌||◌, leb,
  ◌==◌, if◌then◌else◌, arith, dec_lt,
}
use icarus.Keyboard.{
  handle_all, keyboard_interrupt_handler, KbState, apply_caps, translate_key, kbd_translate,
}
use icarus.Keyboard.Tables.{sc2_normal, sc2_shift, entry}
use mathlib.Core.List.{append-nil, append_assoc}
use icarus.Keyboard.Modes.{
  KeyEvent, ext_press, typed, text, final, bytes_of, all_bytes, IsPlain, ArePlain, Modes, press,
  let_go, key_char, modes_after, apply_caps-key_char,
}

-- between two events no prefix is pending
abbrev pub idle : Modes → KbState
idle modes = record { shift = modes.shift; caps = modes.caps; release = false; extended = false }

-- the code's character for a key that is pressed
pressed_char :
    (modes : Modes) (k : ℕ)
    → (if leb 128 k
        then 0
        else apply_caps modes.caps modes.shift
            (entry (if modes.shift then sc2_shift else sc2_normal) k))
      ≡ key_char modes k
unfolding key_char
pressed_char modes k = elim (dec_lt k 128) [
  | yes lt ↦ ground (arith, apply_caps-key_char modes.caps modes.shift k lt)
  | no ge ↦ ground arith
]

press_key :
    (modes : Modes) (k : ℕ)
    → (k ≢ 0xE0) × (k ≢ 0xF0)
    → kbd_translate (idle modes) k ≡ (
      (if k == 0x12 || k == 0x59 then 0 else key_char modes k),
      idle (modes_after modes (press k)),
    )
unfolding kbd_translate translate_key modes_after
press_key modes k ne = ground (arith, pressed_char modes k)

release_key :
    (modes : Modes) (k : ℕ)
    → (k ≢ 0xE0) × (k ≢ 0xF0)
    → kbd_translate (record (idle modes) { release = true }) k
      ≡ (0, idle (modes_after modes (let_go k)))
unfolding kbd_translate translate_key modes_after
release_key modes k ne = ground arith

-- the interrupts of one event
prefix_key :
    (modes : Modes) → kbd_translate (idle modes) 0xF0 ≡ (0, record (idle modes) { release = true })
unfolding kbd_translate
prefix_key modes = refl

extended_prefix :
    (modes : Modes) → kbd_translate (idle modes) 0xE0 ≡ (0, record (idle modes) { extended = true })
unfolding kbd_translate
extended_prefix modes = refl

extended_key :
    (modes : Modes) (k : ℕ)
    → (k ≢ 0xE0) × (k ≢ 0xF0)
    → kbd_translate (record (idle modes) { extended = true }) k ≡ (0, idle modes)
unfolding kbd_translate
extended_key modes k ne = ground arith

handle_event :
    (modes : Modes) (e : KeyEvent) (printed rest : List ℕ)
    → IsPlain e
    → handle_all (printed, idle modes) (bytes_of e ++ rest)
      ≡ handle_all (printed ++ typed modes e, idle (modes_after modes e)) rest
unfolding handle_all keyboard_interrupt_handler typed bytes_of modes_after
handle_event modes (press k) printed rest plain =
    rw (press_key modes k plain) (elim (Bool-cases (k == 0x12 || k == 0x59)) [
      | inl shift ↦ rw (shift, append-nil)
      | inr other ↦ elim (Bool-cases (key_char modes k == 0)) [
        | inl none ↦ rw (other, none, append-nil)
        | inr some ↦ rw (other, some)
      ]
    ])
handle_event modes (let_go k) printed rest plain =
    rw (prefix_key modes, release_key modes k plain, append-nil)
handle_event modes (ext_press k) printed rest plain =
    rw (extended_prefix modes, extended_key modes k plain, append-nil)

-- On the bytes of any sequence of presses and releases of keys and presses of extended keys, whose
-- codes are no prefix bytes, the handler prints exactly the text of the keyboard's tables for the modes at each press, and its state has
-- the resulting modes, with no prefix pending. Shift lasts while its key is down, and caps lock changes when its key is let go.
pub handle_all-all_bytes :
    (modes : Modes) (es : List KeyEvent) (printed : List ℕ)
    → ArePlain es
    → handle_all (printed, idle modes) (all_bytes es)
      ≡ (printed ++ text modes es, idle (final modes es))
unfolding handle_all all_bytes text final
handle_all-all_bytes modes [] printed plain = rw append-nil
handle_all-all_bytes modes (e ∷ es) printed plain =
    handle_event modes e printed (all_bytes es) plain.0
    ∙ handle_all-all_bytes (modes_after modes e) es (printed ++ typed modes e) plain.1
    ∙ ap (λ (l : List ℕ). (l, idle (final (modes_after modes e) es)))
        (append_assoc printed (typed modes e) (text (modes_after modes e) es))

-- When an extended key is let go (0xE0, 0xF0, its code), the prefix 0xE0 swallows 0xF0: with no prefix pending, for a
-- code that is no prefix byte, the handler prints the character of the plain key with that code and changes the
-- modes as if that key had been pressed.
pub handle_all-ext_let_go :
    (modes : Modes) (k : ℕ) (printed : List ℕ)
    → (k ≢ 0xE0) × (k ≢ 0xF0)
    → handle_all (printed, idle modes) (0xE0 ∷ 0xF0 ∷ k ∷ [])
      ≡ (printed ++ typed modes (press k), idle (modes_after modes (press k)))
unfolding handle_all keyboard_interrupt_handler bytes_of kbd_translate
handle_all-ext_let_go modes k printed plain = handle_event modes (press k) printed [] plain
