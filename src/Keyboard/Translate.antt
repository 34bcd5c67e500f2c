-- ===== src/Keyboard/Translate.antt =====
-- What a scancode does to the modifiers, and which character it stands for.
use retrofuture_os.Base.{
  ℕ, ◌-◌, ◌/◌, ◌%◌, ◌^◌, ◌<◌, ◌≤◌, ◌≡◌, ◌≢◌, refl, Bool, true, false, not, ◌&&◌, ◌||◌, ltb, leb,
  ◌==◌, ==_iff, &&-true, if◌then◌else◌, has_flag, get_or, bit_and, arith, all_below,
  all_below_sound,
}
use mathlib.Core.Bool.{xor}
use native.Mathlib.Decide.{dec_lt}
use retrofuture_os.Keyboard.Tables.{
  key_lctrl, key_lshift, key_rshift, key_lalt, key_capslock, key_numlock, ascii_unshift,
  ascii_shift,
}
use retrofuture_os.Keyboard.Scancode.{
  Keyboard, keycode_of, update_modifiers, translate, ascii_of, event_of,
}

-- Bit `j` of a byte.
abbrev pub bit_at : ℕ → ℕ → ℕ
bit_at x j = x / 2 ^ j % 2

-- The key whose being held bit `j` of the modifiers tells, and the lock key that it tells.
abbrev pub is_held_key : ℕ → ℕ → Bool
is_held_key keycode j =
    keycode == key_lshift && j == 0
    || keycode == key_rshift && j == 1
    || keycode == key_lctrl && j == 2
    || keycode == key_lalt && j == 4

abbrev pub is_lock_key : ℕ → ℕ → Bool
is_lock_key keycode j = keycode == key_capslock && j == 6 || keycode == key_numlock && j == 7

abbrev after_press : ℕ → ℕ → ℕ → ℕ
after_press keycode m j =
    if is_held_key keycode j
    then 1
    else if is_lock_key keycode j
    then 1 - bit_at m j
    else bit_at m j

abbrev after_release : ℕ → ℕ → ℕ → ℕ
after_release keycode m j = if is_held_key keycode j then 0 else bit_at m j

abbrev bits_ok : ℕ → ℕ → ℕ → Bool
bits_ok keycode m j =
    bit_at (update_modifiers keycode true m) j == after_press keycode m j
    && bit_at (update_modifiers keycode false m) j == after_release keycode m j

bits_table : all_below 11 (λ k. all_below 256 (λ m. all_below 8 (bits_ok k m))) ≡ true
unfolding all_below update_modifiers
bits_table = refl

-- For a byte of modifiers and its eight bits: a press of Shift, Ctrl or Alt sets the bit of that key and
-- its release clears it; a press of Caps Lock or Num Lock inverts the bit of that key and its
-- release does nothing; no other bit changes, and no other key changes any.
pub update_modifiers-bit_at :
    (keycode m j : ℕ)
    → m < 256
    → j < 8
    → (bit_at (update_modifiers keycode true m) j ≡ (
        if is_held_key keycode j
        then 1
        else if is_lock_key keycode j
        then 1 - bit_at m j
        else bit_at m j))
      × (bit_at (update_modifiers keycode false m) j
          ≡ (if is_held_key keycode j then 0 else bit_at m j))
update_modifiers-bit_at keycode m j small in_byte = elim (dec_lt keycode 11) [
  | yes low ↦
      let k_row =
        all_below_sound 11 (λ k. all_below 256 (λ n. all_below 8 (bits_ok k n))) keycode bits_table
          low in
      let m_row = all_below_sound 256 (λ n. all_below 8 (bits_ok keycode n)) m k_row small in
      let j_row = all_below_sound 8 (bits_ok keycode m) j m_row in_byte in
      let both = &&-true _ _ j_row in ((==_iff _ _).0 both.0, (==_iff _ _).0 both.1)
  | no high ↦ unfold update_modifiers in ground arith
]

abbrev is_small_letter : ℕ → Bool
is_small_letter c = leb b'a' c && leb c b'z'

-- The character for a key, by the unshifted and the shifted column of the keyboard.
abbrev pub key_char : Bool → Bool → ℕ → ℕ
key_char shift caps sc =
    let c = get_or ascii_unshift sc 0 in
    if leb b'a' c && leb c b'z'
    then if xor shift caps then c - 32 else c
    else if shift
    then get_or ascii_shift sc 0
    else c

abbrev translate_ok : ℕ → Bool
translate_ok sc =
    translate false false sc == key_char false false sc
    && translate false true sc == key_char false true sc
    && translate true false sc == key_char true false sc
    && translate true true sc == key_char true true sc

translate_table : all_below 96 translate_ok ≡ true
unfolding all_below translate xor
translate_table = refl

-- For a scancode below 0x60: a letter key gives its capital exactly if one of Shift and Caps Lock is on but not both; any other
-- key gives the character of its column, which Shift alone chooses.
pub translate-key_char :
    (shift caps : Bool) (sc : ℕ) → sc < 96 → translate shift caps sc ≡ key_char shift caps sc
translate-key_char shift caps sc low = choose shift caps
  where
    row : translate_ok sc ≡ true
    row = all_below_sound 96 translate_ok sc translate_table low

    parts :
        (translate false false sc ≡ key_char false false sc)
        × (translate false true sc ≡ key_char false true sc)
        × (translate true false sc ≡ key_char true false sc)
        × (translate true true sc ≡ key_char true true sc)
    parts =
        let r = &&-true _ _ row in
        let s = &&-true _ _ r.0 in
        let t = &&-true _ _ s.0 in
        ((==_iff _ _).0 t.0, (==_iff _ _).0 t.1, (==_iff _ _).0 s.1, (==_iff _ _).0 r.1)

    choose : (a b : Bool) → translate a b sc ≡ key_char a b sc
    choose false false = parts.0
    choose false true = parts.1
    choose true false = parts.2
    choose true true = parts.3

abbrev cursor_ok : ℕ → Bool
cursor_ok sc =
    leb sc 0x46
    || not (translate false false sc == 0)
      && not (translate false true sc == 0)
      && not (translate true false sc == 0)
      && not (translate true true sc == 0)

cursor_table : all_below 0x54 cursor_ok ≡ true
unfolding all_below translate
cursor_table = refl

translate_cursor :
    (shift caps : Bool) (sc : ℕ) → 0x47 ≤ sc → sc ≤ 0x53 → translate shift caps sc ≢ 0
translate_cursor shift caps sc lo hi =
    let row = all_below_sound 0x54 cursor_ok sc cursor_table (omega arith) in ground arith

abbrev code_ok : ℕ → Bool
code_ok sc = bit_and sc 0x80 == 0 && bit_and sc 0x7f == sc

code_table : all_below 0x80 code_ok ≡ true
unfolding all_below
code_table = refl

press_code : (sc : ℕ) → sc < 0x80 → (bit_and sc 0x80 ≡ 0) × (bit_and sc 0x7f ≡ sc)
press_code sc low =
    let row = &&-true _ _ (all_below_sound 0x80 code_ok sc code_table low) in
    ((==_iff _ _).0 row.0, (==_iff _ _).0 row.1)

ascii_cursor :
    (pressed : Bool) (c m sc : ℕ)
    → pressed ≡ true
    → c ≡ sc
    → 0x47 ≤ sc
    → sc ≤ 0x53
    → ascii_of pressed c m ≢ 0
unfolding ascii_of
ascii_cursor pressed c m sc down same lo hi =
    let low : ltb sc 0x60 ≡ true = ground arith in
    rw (down, same, low) (translate_cursor (has_flag m 0x03) (has_flag m 0x40) sc lo hi)

-- Behind the prefix 0xE0 the keys of the cursor block still give the characters of the number
-- block: the press of such a key makes an event whose character is not 0.
pub extended_key_has_char :
    (kb : Keyboard) (sc : ℕ)
    → 0x47 ≤ sc
    → sc ≤ 0x53
    → let event = event_of (record kb { extended = true }) sc in
      (event.extended ≡ true) × (event.pressed ≡ true) × (event.ascii ≢ 0)
unfolding event_of
extended_key_has_char kb sc lo hi =
    let code = press_code sc (omega arith) in
    (
      refl,
      rw code.0 refl,
      ascii_cursor _ _
          (update_modifiers (keycode_of true (bit_and sc 0x7f)) (not (has_flag sc 0x80))
            kb.modifiers)
          sc (rw code.0 refl) code.1 lo hi,
    )
