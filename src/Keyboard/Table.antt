-- ===== src/Keyboard/Table.antt =====
-- The scancode tables of kernel/src/keyboard.c (set 2): pairs of a scancode and its character, in
-- the order of the C initialisers. An entry that the initialiser leaves out is 0.
use choco_os.Base.{ℕ, ◌==◌, if◌then◌else◌, List, [], ◌∷◌}

abbrev pub sc2_ascii : List (ℕ × ℕ)
sc2_ascii =
    (0x0d, 9)
    ∷ (0x0e, 96)
    ∷ (0x15, 113)
    ∷ (0x16, 49)
    ∷ (0x1a, 122)
    ∷ (0x1b, 115)
    ∷ (0x1c, 97)
    ∷ (0x1d, 119)
    ∷ (0x1e, 50)
    ∷ (0x21, 99)
    ∷ (0x22, 120)
    ∷ (0x23, 100)
    ∷ (0x24, 101)
    ∷ (0x25, 52)
    ∷ (0x26, 51)
    ∷ (0x29, 32)
    ∷ (0x2a, 118)
    ∷ (0x2b, 102)
    ∷ (0x2c, 116)
    ∷ (0x2d, 114)
    ∷ (0x2e, 53)
    ∷ (0x31, 110)
    ∷ (0x32, 98)
    ∷ (0x33, 104)
    ∷ (0x34, 103)
    ∷ (0x35, 121)
    ∷ (0x36, 54)
    ∷ (0x3a, 109)
    ∷ (0x3b, 106)
    ∷ (0x3c, 117)
    ∷ (0x3d, 55)
    ∷ (0x3e, 56)
    ∷ (0x41, 44)
    ∷ (0x42, 107)
    ∷ (0x43, 105)
    ∷ (0x44, 111)
    ∷ (0x45, 48)
    ∷ (0x46, 57)
    ∷ (0x49, 46)
    ∷ (0x4a, 47)
    ∷ (0x4b, 108)
    ∷ (0x4c, 59)
    ∷ (0x4d, 112)
    ∷ (0x4e, 45)
    ∷ (0x52, 39)
    ∷ (0x54, 91)
    ∷ (0x55, 61)
    ∷ (0x5a, 10)
    ∷ (0x5b, 93)
    ∷ (0x5d, 92)
    ∷ (0x66, 8)
    ∷ []

abbrev pub sc2_ascii_shift : List (ℕ × ℕ)
sc2_ascii_shift =
    (0x0d, 9)
    ∷ (0x0e, 126)
    ∷ (0x15, 81)
    ∷ (0x16, 33)
    ∷ (0x1a, 90)
    ∷ (0x1b, 83)
    ∷ (0x1c, 65)
    ∷ (0x1d, 87)
    ∷ (0x1e, 64)
    ∷ (0x21, 67)
    ∷ (0x22, 88)
    ∷ (0x23, 68)
    ∷ (0x24, 69)
    ∷ (0x25, 36)
    ∷ (0x26, 35)
    ∷ (0x29, 32)
    ∷ (0x2a, 86)
    ∷ (0x2b, 70)
    ∷ (0x2c, 84)
    ∷ (0x2d, 82)
    ∷ (0x2e, 37)
    ∷ (0x31, 78)
    ∷ (0x32, 66)
    ∷ (0x33, 72)
    ∷ (0x34, 71)
    ∷ (0x35, 89)
    ∷ (0x36, 94)
    ∷ (0x3a, 77)
    ∷ (0x3b, 74)
    ∷ (0x3c, 85)
    ∷ (0x3d, 38)
    ∷ (0x3e, 42)
    ∷ (0x41, 60)
    ∷ (0x42, 75)
    ∷ (0x43, 73)
    ∷ (0x44, 79)
    ∷ (0x45, 41)
    ∷ (0x46, 40)
    ∷ (0x49, 62)
    ∷ (0x4a, 63)
    ∷ (0x4b, 76)
    ∷ (0x4c, 58)
    ∷ (0x4d, 80)
    ∷ (0x4e, 95)
    ∷ (0x52, 34)
    ∷ (0x54, 123)
    ∷ (0x55, 43)
    ∷ (0x5a, 10)
    ∷ (0x5b, 125)
    ∷ (0x5d, 124)
    ∷ (0x66, 8)
    ∷ []

-- `table[sc]`
unfoldable pub entry : List (ℕ × ℕ) → ℕ → ℕ
entry [] sc = 0
entry ((k, c) ∷ t) sc = if k == sc then c else entry t sc
