-- ===== src/Keyboard/Tables.antt =====
-- include/keyboard.h: key codes, modifier flags and the translation tables of scancode set 1.
use retrofuture_os.Base.{ℕ, List, [], ◌∷◌}

-- `KEY_LCTRL` and the others of `keycode_t`, by their values in the enumeration.
abbrev pub key_unknown : ℕ
key_unknown = 0

abbrev pub key_lctrl : ℕ
key_lctrl = 5

abbrev pub key_lshift : ℕ
key_lshift = 6

abbrev pub key_rshift : ℕ
key_rshift = 7

abbrev pub key_lalt : ℕ
key_lalt = 8

abbrev pub key_capslock : ℕ
key_capslock = 9

abbrev pub key_numlock : ℕ
key_numlock = 10

abbrev pub key_home : ℕ
key_home = 24

abbrev pub key_up : ℕ
key_up = 25

abbrev pub key_pageup : ℕ
key_pageup = 26

abbrev pub key_left : ℕ
key_left = 27

abbrev pub key_right : ℕ
key_right = 28

abbrev pub key_end : ℕ
key_end = 29

abbrev pub key_down : ℕ
key_down = 30

abbrev pub key_pagedown : ℕ
key_pagedown = 31

abbrev pub key_insert : ℕ
key_insert = 32

abbrev pub key_delete : ℕ
key_delete = 33

abbrev pub mod_lshift : ℕ
mod_lshift = 0x01

abbrev pub mod_rshift : ℕ
mod_rshift = 0x02

abbrev pub mod_lctrl : ℕ
mod_lctrl = 0x04

abbrev pub mod_lalt : ℕ
mod_lalt = 0x10

abbrev pub mod_capslock : ℕ
mod_capslock = 0x40

abbrev pub mod_numlock : ℕ
mod_numlock = 0x80

-- Unshifted ASCII for each scancode below 0x60.
abbrev pub ascii_unshift : List ℕ
ascii_unshift =
    0 ∷ 0 ∷ 49 ∷ 50 ∷ 51 ∷ 52 ∷ 53 ∷ 54 ∷ 55 ∷ 56 ∷ 57 ∷ 48 ∷ 45 ∷ 61 ∷ 8 ∷ 9 ∷ 113 ∷ 119 ∷ 101
    ∷ 114 ∷ 116 ∷ 121 ∷ 117 ∷ 105 ∷ 111 ∷ 112 ∷ 91 ∷ 93 ∷ 10 ∷ 0 ∷ 97 ∷ 115 ∷ 100 ∷ 102 ∷ 103 ∷ 104
    ∷ 106 ∷ 107 ∷ 108 ∷ 59 ∷ 39 ∷ 96 ∷ 0 ∷ 92 ∷ 122 ∷ 120 ∷ 99 ∷ 118 ∷ 98 ∷ 110 ∷ 109 ∷ 44 ∷ 46 ∷ 47
    ∷ 0 ∷ 42 ∷ 0 ∷ 32 ∷ 0 ∷ 0 ∷ 0 ∷ 0 ∷ 0 ∷ 0 ∷ 0 ∷ 0 ∷ 0 ∷ 0 ∷ 0 ∷ 0 ∷ 0 ∷ 55 ∷ 56 ∷ 57 ∷ 45 ∷ 52
    ∷ 53 ∷ 54 ∷ 43 ∷ 49 ∷ 50 ∷ 51 ∷ 48 ∷ 46 ∷ 0 ∷ 0 ∷ 0 ∷ 0 ∷ 0 ∷ 0 ∷ 0 ∷ 0 ∷ 0 ∷ 0 ∷ 0 ∷ 0 ∷ []

-- Shifted ASCII for each scancode below 0x60.
abbrev pub ascii_shift : List ℕ
ascii_shift =
    0 ∷ 0 ∷ 33 ∷ 64 ∷ 35 ∷ 36 ∷ 37 ∷ 94 ∷ 38 ∷ 42 ∷ 40 ∷ 41 ∷ 95 ∷ 43 ∷ 8 ∷ 9 ∷ 81 ∷ 87 ∷ 69 ∷ 82
    ∷ 84 ∷ 89 ∷ 85 ∷ 73 ∷ 79 ∷ 80 ∷ 123 ∷ 125 ∷ 10 ∷ 0 ∷ 65 ∷ 83 ∷ 68 ∷ 70 ∷ 71 ∷ 72 ∷ 74 ∷ 75 ∷ 76
    ∷ 58 ∷ 34 ∷ 126 ∷ 0 ∷ 124 ∷ 90 ∷ 88 ∷ 67 ∷ 86 ∷ 66 ∷ 78 ∷ 77 ∷ 60 ∷ 62 ∷ 63 ∷ 0 ∷ 42 ∷ 0 ∷ 32
    ∷ 0 ∷ 0 ∷ 0 ∷ 0 ∷ 0 ∷ 0 ∷ 0 ∷ 0 ∷ 0 ∷ 0 ∷ 0 ∷ 0 ∷ 0 ∷ 55 ∷ 56 ∷ 57 ∷ 45 ∷ 52 ∷ 53 ∷ 54 ∷ 43 ∷ 49
    ∷ 50 ∷ 51 ∷ 48 ∷ 46 ∷ 0 ∷ 0 ∷ 0 ∷ 0 ∷ 0 ∷ 0 ∷ 0 ∷ 0 ∷ 0 ∷ 0 ∷ 0 ∷ 0 ∷ []

-- The key code for each scancode below 0x60.
abbrev pub keycodes : List ℕ
keycodes =
    0 ∷ 1 ∷ 49 ∷ 50 ∷ 51 ∷ 52 ∷ 53 ∷ 54 ∷ 55 ∷ 56 ∷ 57 ∷ 48 ∷ 45 ∷ 61 ∷ 2 ∷ 3 ∷ 81 ∷ 87 ∷ 69 ∷ 82
    ∷ 84 ∷ 89 ∷ 85 ∷ 73 ∷ 79 ∷ 80 ∷ 91 ∷ 93 ∷ 4 ∷ 5 ∷ 65 ∷ 83 ∷ 68 ∷ 70 ∷ 71 ∷ 72 ∷ 74 ∷ 75 ∷ 76
    ∷ 59 ∷ 39 ∷ 96 ∷ 6 ∷ 92 ∷ 90 ∷ 88 ∷ 67 ∷ 86 ∷ 66 ∷ 78 ∷ 77 ∷ 44 ∷ 46 ∷ 47 ∷ 7 ∷ 0 ∷ 8 ∷ 32 ∷ 9
    ∷ 12 ∷ 13 ∷ 14 ∷ 15 ∷ 16 ∷ 17 ∷ 18 ∷ 19 ∷ 20 ∷ 21 ∷ 10 ∷ 11 ∷ 24 ∷ 25 ∷ 26 ∷ 0 ∷ 27 ∷ 0 ∷ 28 ∷ 0
    ∷ 29 ∷ 30 ∷ 31 ∷ 32 ∷ 33 ∷ 0 ∷ 0 ∷ 0 ∷ 22 ∷ 23 ∷ 0 ∷ 0 ∷ 0 ∷ 0 ∷ 0 ∷ 0 ∷ 0 ∷ []
