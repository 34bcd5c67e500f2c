-- ===== src/Keyboard/Event.antt =====
-- The event that `kb_process_scancode` makes, field by field.
use retrofuture_os.Base.{
  ℕ, ◌-◌, ◌%◌, ◌<◌, ◌≡◌, refl, sym, Bool, true, false, not, ◌&&◌, ◌||◌, List, [], ◌∷◌, ltb, ◌==◌,
  ==_iff, &&-true, if◌then◌else◌, has_flag, get_or, bit_and, arith, all_below, all_below_sound,
}
use native.Mathlib.Decide.{dec_lt}
use retrofuture_os.Keyboard.Buffer.{KeyEvent}
use retrofuture_os.Keyboard.Tables.{
  key_home, key_up, key_pageup, key_left, key_right, key_end, key_down, key_pagedown, key_insert,
  key_delete, keycodes,
}
use retrofuture_os.Keyboard.Scancode.{Keyboard, keycode_of, update_modifiers, ascii_of, event_of}
use retrofuture_os.Keyboard.Translate.{
  bit_at, is_held_key, is_lock_key, key_char, update_modifiers-bit_at, translate-key_char,
}

-- The keys of the cursor block by their scancodes behind the prefix.
abbrev cursor_keys : List (ℕ × ℕ)
cursor_keys =
    (0x47, key_home)
    ∷ (0x48, key_up)
    ∷ (0x49, key_pageup)
    ∷ (0x4b, key_left)
    ∷ (0x4d, key_right)
    ∷ (0x4f, key_end)
    ∷ (0x50, key_down)
    ∷ (0x51, key_pagedown)
    ∷ (0x52, key_insert)
    ∷ (0x53, key_delete)
    ∷ []

abbrev value_of : List (ℕ × ℕ) → ℕ → ℕ → ℕ
value_of [] sc other = other
value_of ((code, key) ∷ keys) sc other = if code == sc then key else value_of keys sc other

-- The key of a scancode without the bit for a release: that of the table, or behind the prefix that
-- of the cursor block, if it has one.
abbrev pub key_of : Bool → ℕ → ℕ
key_of false sc = get_or keycodes sc 0
key_of true sc = value_of cursor_keys sc (get_or keycodes sc 0)

abbrev pub is_shifted : ℕ → Bool
is_shifted m = bit_at m 0 == 1 || bit_at m 1 == 1

abbrev pub is_capital : ℕ → Bool
is_capital m = bit_at m 6 == 1

-- What bit `j` of the modifiers is after a key goes down or up.
abbrev pub bit_after : ℕ → Bool → ℕ → ℕ → ℕ
bit_after keycode pressed m j =
    if is_held_key keycode j
    then if pressed then 1 else 0
    else if pressed && is_lock_key keycode j
    then 1 - bit_at m j
    else bit_at m j

pub record IsEventOf (kb : Keyboard) (scancode : ℕ) (e : KeyEvent) : Type 0 where
  pub press : e.pressed ≡ ltb scancode 128
  pub code : e.scancode ≡ scancode % 128
  pub marked : e.extended ≡ kb.extended
  pub key : e.keycode ≡ key_of kb.extended (scancode % 128)
  pub in_byte : e.modifiers < 256
  pub bits : (j : ℕ) → j < 8 → bit_at e.modifiers j ≡ bit_after e.keycode e.pressed kb.modifiers j
  pub char : e.ascii ≡ (
      if e.pressed && ltb e.scancode 96
      then key_char (is_shifted e.modifiers) (is_capital e.modifiers) e.scancode
      else 0)

abbrev bool_eq : Bool → Bool → Bool
bool_eq true b = b
bool_eq false b = not b

bool_eq_sound : (a b : Bool) → bool_eq a b ≡ true → a ≡ b
bool_eq_sound true b e = sym e
bool_eq_sound false true e = e
bool_eq_sound false false e = refl

abbrev mask_ok : ℕ → Bool
mask_ok x =
    bit_and x 0x7f == x % 128
    && bool_eq (not (has_flag x 0x80)) (ltb x 128)
    && bool_eq (has_flag x 0x03) (is_shifted x)
    && bool_eq (has_flag x 0x40) (is_capital x)

mask_table : all_below 256 mask_ok ≡ true
unfolding all_below
mask_table = refl

masks :
    (x : ℕ)
    → x < 256
    → (bit_and x 0x7f ≡ x % 128)
      × (not (has_flag x 0x80) ≡ ltb x 128)
      × (has_flag x 0x03 ≡ is_shifted x)
      × (has_flag x 0x40 ≡ is_capital x)
masks x small =
    let r = &&-true _ _ (all_below_sound 256 mask_ok x mask_table small) in
    let s = &&-true _ _ r.0 in
    let t = &&-true _ _ s.0 in
    ((==_iff _ _).0 t.0, bool_eq_sound _ _ t.1, bool_eq_sound _ _ s.1, bool_eq_sound _ _ r.1)

abbrev key_ok : ℕ → Bool
key_ok sc = keycode_of false sc == key_of false sc && keycode_of true sc == key_of true sc

key_table : all_below 128 key_ok ≡ true
unfolding all_below keycode_of
key_table = refl

keycode_of-key_of :
    (extended : Bool) (sc : ℕ) → sc < 128 → keycode_of extended sc ≡ key_of extended sc
keycode_of-key_of false sc low =
    (==_iff _ _).0 (&&-true _ _ (all_below_sound 128 key_ok sc key_table low)).0
keycode_of-key_of true sc low =
    (==_iff _ _).0 (&&-true _ _ (all_below_sound 128 key_ok sc key_table low)).1

abbrev byte_ok : ℕ → ℕ → Bool
byte_ok keycode m =
    ltb (update_modifiers keycode true m) 256 && ltb (update_modifiers keycode false m) 256

byte_table : all_below 11 (λ k. all_below 256 (byte_ok k)) ≡ true
unfolding all_below update_modifiers
byte_table = refl

update_modifiers-lt :
    (keycode m : ℕ) (pressed : Bool) → m < 256 → update_modifiers keycode pressed m < 256
update_modifiers-lt keycode m pressed small = elim (dec_lt keycode 11) [
  | yes low ↦
      let row = all_below_sound 11 (λ k. all_below 256 (byte_ok k)) keycode byte_table low in
      let both = &&-true _ _ (all_below_sound 256 (byte_ok keycode) m row small) in
      choose pressed both.0 both.1
  | no high ↦ unfold update_modifiers in ground arith
]
  where
    choose :
        (b : Bool)
        → ltb (update_modifiers keycode true m) 256 ≡ true
        → ltb (update_modifiers keycode false m) 256 ≡ true
        → update_modifiers keycode b m < 256
    choose true p q = ground arith
    choose false p q = ground arith

update_modifiers-bit_after :
    (keycode m j : ℕ) (pressed : Bool)
    → m < 256
    → j < 8
    → bit_at (update_modifiers keycode pressed m) j ≡ bit_after keycode pressed m j
update_modifiers-bit_after keycode m j true small q =
    (update_modifiers-bit_at keycode m j small q).0
update_modifiers-bit_after keycode m j false small q =
    (update_modifiers-bit_at keycode m j small q).1

ascii_of-key_char :
    (pressed : Bool) (sc m : ℕ)
    → m < 256
    → ascii_of pressed sc m
      ≡ (if pressed && ltb sc 96 then key_char (is_shifted m) (is_capital m) sc else 0)
unfolding ascii_of
ascii_of-key_char pressed sc m small =
    let f = masks m small in
    elim (dec_lt sc 96) [
      | yes low ↦ rw (f.2, f.3, translate-key_char (is_shifted m) (is_capital m) sc low) refl
      | no high ↦ let off : ltb sc 96 ≡ false = ground arith in rw off (ground arith)
    ]

pub event_of-IsEventOf :
    (kb : Keyboard) (scancode : ℕ)
    → scancode < 256
    → kb.modifiers < 256
    → IsEventOf kb scancode (event_of kb scancode)
unfolding event_of
event_of-IsEventOf kb scancode small in_byte =
    let f = masks scancode small in
    let e = event_of kb scancode in
    record {
      press = f.1;
      code = f.0;
      marked = refl;
      key = rw f.0 (keycode_of-key_of kb.extended (scancode % 128) (omega arith));
      in_byte = update_modifiers-lt e.keycode kb.modifiers e.pressed in_byte;
      bits = λ j q. update_modifiers-bit_after e.keycode kb.modifiers j e.pressed in_byte q;
      char =
          ascii_of-key_char e.pressed e.scancode e.modifiers
            (update_modifiers-lt e.keycode kb.modifiers e.pressed in_byte);
    }
