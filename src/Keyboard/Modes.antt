-- ===== src/Keyboard/Modes.antt =====
-- What a keyboard types: shift and caps lock as modes, and an action on a key as one event. This is
-- independent of the bytes in which src/kernel/Drivers/PS2/PS2_Keyboard.c receives the events; as in that file, caps lock
-- changes when its key is let go.
use icarus.Prelude.{
  arith, ℕ, ◌<◌, ◌≡◌, ◌≢◌, Bool, true, false, not, ◌&&◌, ◌||◌, ltb, leb, ◌==◌, if◌then◌else◌, List,
  [], ◌∷◌, ◌++◌, refl, ==_iff,
}
use icarus.Prelude.Tables.{passes_under, passes_under-at}
use icarus.Keyboard.{apply_caps}
use icarus.Keyboard.Tables.{sc2_normal, sc2_shift, entry}

pub record Modes : Type 0 where
  pub shift : Bool
  pub caps : Bool

pub data KeyEvent : Type 0 where
  press let_go ext_press : ℕ → KeyEvent

abbrev is_shift : ℕ → Bool
is_shift k = k == 0x12 || k == 0x59

abbrev pub is_letter : ℕ → Bool
is_letter k = leb 97 (entry sc2_normal k) && leb (entry sc2_normal k) 122

-- The character of a key. Caps lock swaps the two characters of a letter and of no other key.
unfoldable pub key_char : Modes → ℕ → ℕ
key_char modes k =
    let swapped = modes.caps && is_letter k in
    let upper = if swapped then not modes.shift else modes.shift in
    if ltb k 128 then entry (if upper then sc2_shift else sc2_normal) k else 0

-- an event changes the modes, and types a character or none
unfoldable pub typed : Modes → KeyEvent → List ℕ
unfolding key_char
typed modes (press k) = if is_shift k || key_char modes k == 0 then [] else key_char modes k ∷ []
typed modes (let_go k) = []
typed modes (ext_press k) = []

unfoldable pub modes_after : Modes → KeyEvent → Modes
modes_after modes (press k) = if is_shift k then record modes { shift = true } else modes
modes_after modes (let_go k) =
    if is_shift k
    then record modes { shift = false }
    else if k == 0x58
    then record modes { caps = not modes.caps }
    else modes
modes_after modes (ext_press k) = modes

unfoldable pub text : Modes → List KeyEvent → List ℕ
unfolding typed modes_after
text modes [] = []
text modes (e ∷ es) = typed modes e ++ text (modes_after modes e) es

unfoldable pub final : Modes → List KeyEvent → Modes
unfolding modes_after
final modes [] = modes
final modes (e ∷ es) = final (modes_after modes e) es

-- the bytes that the controller sends for an event
unfoldable pub bytes_of : KeyEvent → List ℕ
bytes_of (press k) = k ∷ []
bytes_of (let_go k) = 0xF0 ∷ k ∷ []
bytes_of (ext_press k) = 0xE0 ∷ k ∷ []

unfoldable pub all_bytes : List KeyEvent → List ℕ
unfolding bytes_of
all_bytes [] = []
all_bytes (e ∷ es) = bytes_of e ++ all_bytes es

-- a key's code is no prefix byte
abbrev pub IsPlain : KeyEvent → Type 0
IsPlain (press k) = (k ≢ 0xE0) × (k ≢ 0xF0)
IsPlain (let_go k) = (k ≢ 0xE0) × (k ≢ 0xF0)
IsPlain (ext_press k) = (k ≢ 0xE0) × (k ≢ 0xF0)

abbrev pub ArePlain : List KeyEvent → Type 0
ArePlain [] = Unit
ArePlain (e ∷ es) = IsPlain e × ArePlain es

abbrev agrees : ℕ → Bool → Bool → Bool
agrees k caps shift =
    apply_caps caps shift (entry (if shift then sc2_shift else sc2_normal) k)
    == key_char (record { shift = shift; caps = caps }) k

agree_table :
    passes_under 128 (λ k.
      agrees k true true && agrees k true false && agrees k false true && agrees k false false)
    ≡ true
unfolding passes_under apply_caps entry key_char
agree_table = refl

-- The arithmetic on ASCII values that the code does for caps lock picks the entry of the other table.
pub apply_caps-key_char :
    (caps shift : Bool) (k : ℕ)
    → k < 128
    → apply_caps caps shift (entry (if shift then sc2_shift else sc2_normal) k)
      ≡ key_char (record { shift = shift; caps = caps }) k
apply_caps-key_char caps shift k lt =
    let row : agrees k true true
          && agrees k true false
          && agrees k false true
          && agrees k false false
        ≡ true =
      passes_under-at 128 k _ agree_table lt in
    (==_iff _ _).0 (pick caps shift (agrees k) row)
  where
    pick :
        (caps shift : Bool) (f : Bool → Bool → Bool)
        → f true true && f true false && f false true && f false false ≡ true
        → f caps shift ≡ true
    pick true true f e = ground (arith, e)
    pick true false f e = ground (arith, e)
    pick false true f e = ground (arith, e)
    pick false false f e = ground (arith, e)
