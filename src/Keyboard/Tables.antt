-- ===== src/Keyboard/Tables.antt =====
-- The scan code tables of src/kernel/Drivers/PS2/PS2_Scancode.h: a code and the ASCII value of its character.
use icarus.Prelude.{ℕ, List, [], ◌∷◌, ◌==◌, if◌then◌else◌}

-- `sc2_normal`; every other entry is 0
abbrev pub sc2_normal : List (ℕ × ℕ)
sc2_normal =
    (13, 9)
    ∷ (14, 96)
    ∷ (21, 113)
    ∷ (22, 49)
    ∷ (26, 122)
    ∷ (27, 115)
    ∷ (28, 97)
    ∷ (29, 119)
    ∷ (30, 50)
    ∷ (33, 99)
    ∷ (34, 120)
    ∷ (35, 100)
    ∷ (36, 101)
    ∷ (37, 52)
    ∷ (38, 51)
    ∷ (41, 32)
    ∷ (42, 118)
    ∷ (43, 102)
    ∷ (44, 116)
    ∷ (45, 114)
    ∷ (46, 53)
    ∷ (49, 110)
    ∷ (50, 98)
    ∷ (51, 104)
    ∷ (52, 103)
    ∷ (53, 121)
    ∷ (54, 54)
    ∷ (58, 109)
    ∷ (59, 106)
    ∷ (60, 117)
    ∷ (61, 55)
    ∷ (62, 56)
    ∷ (65, 44)
    ∷ (66, 107)
    ∷ (67, 105)
    ∷ (68, 111)
    ∷ (69, 48)
    ∷ (70, 57)
    ∷ (73, 46)
    ∷ (74, 47)
    ∷ (75, 108)
    ∷ (76, 59)
    ∷ (77, 112)
    ∷ (78, 45)
    ∷ (82, 39)
    ∷ (84, 91)
    ∷ (85, 61)
    ∷ (90, 10)
    ∷ (91, 93)
    ∷ (93, 92)
    ∷ (102, 8)
    ∷ (118, 27)
    ∷ (105, 49)
    ∷ (107, 52)
    ∷ (108, 55)
    ∷ (112, 48)
    ∷ (113, 46)
    ∷ (114, 50)
    ∷ (115, 53)
    ∷ (116, 54)
    ∷ (117, 56)
    ∷ (121, 43)
    ∷ (122, 51)
    ∷ (123, 45)
    ∷ (124, 42)
    ∷ (125, 57)
    ∷ []

-- `sc2_shift`; every other entry is 0
abbrev pub sc2_shift : List (ℕ × ℕ)
sc2_shift =
    (13, 9)
    ∷ (14, 126)
    ∷ (21, 81)
    ∷ (22, 33)
    ∷ (26, 90)
    ∷ (27, 83)
    ∷ (28, 65)
    ∷ (29, 87)
    ∷ (30, 64)
    ∷ (33, 67)
    ∷ (34, 88)
    ∷ (35, 68)
    ∷ (36, 69)
    ∷ (37, 36)
    ∷ (38, 35)
    ∷ (41, 32)
    ∷ (42, 86)
    ∷ (43, 70)
    ∷ (44, 84)
    ∷ (45, 82)
    ∷ (46, 37)
    ∷ (49, 78)
    ∷ (50, 66)
    ∷ (51, 72)
    ∷ (52, 71)
    ∷ (53, 89)
    ∷ (54, 94)
    ∷ (58, 77)
    ∷ (59, 74)
    ∷ (60, 85)
    ∷ (61, 38)
    ∷ (62, 42)
    ∷ (65, 60)
    ∷ (66, 75)
    ∷ (67, 73)
    ∷ (68, 79)
    ∷ (69, 41)
    ∷ (70, 40)
    ∷ (73, 62)
    ∷ (74, 63)
    ∷ (75, 76)
    ∷ (76, 58)
    ∷ (77, 80)
    ∷ (78, 95)
    ∷ (82, 34)
    ∷ (84, 123)
    ∷ (85, 43)
    ∷ (90, 10)
    ∷ (91, 125)
    ∷ (93, 124)
    ∷ (102, 8)
    ∷ (118, 27)
    ∷ (105, 49)
    ∷ (107, 52)
    ∷ (108, 55)
    ∷ (112, 48)
    ∷ (113, 46)
    ∷ (114, 50)
    ∷ (115, 53)
    ∷ (116, 54)
    ∷ (117, 56)
    ∷ (121, 43)
    ∷ (122, 51)
    ∷ (123, 45)
    ∷ (124, 42)
    ∷ (125, 57)
    ∷ []

-- the entry of a table
unfoldable pub entry : List (ℕ × ℕ) → ℕ → ℕ
entry [] sc = 0
entry ((code, c) ∷ rest) sc = if code == sc then c else entry rest sc
