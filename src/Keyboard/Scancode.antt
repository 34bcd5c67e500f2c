-- ===== src/Keyboard/Scancode.antt =====
-- include/keyboard.h: the state machine that turns scancodes into key events.
use retrofuture_os.Base.{
  ℕ, ◌+◌, ◌-◌, Bool, true, false, not, ◌&&◌, Option, none, some, ltb, leb, ◌==◌, if◌then◌else◌,
  has_flag, get_or, bit_and, bit_or, bit_xor,
}
use retrofuture_os.Keyboard.Buffer.{Buffer, KeyEvent, push}
use retrofuture_os.Keyboard.Tables.{
  key_unknown, key_lctrl, key_lshift, key_rshift, key_lalt, key_capslock, key_numlock, key_home,
  key_up, key_pageup, key_left, key_right, key_end, key_down, key_pagedown, key_insert, key_delete,
  mod_lshift, mod_rshift, mod_lctrl, mod_lalt, mod_capslock, mod_numlock, ascii_unshift,
  ascii_shift, keycodes,
}

pub record Keyboard : Type 0 where
  pub buffer : Buffer
  pub modifiers : ℕ
  pub extended : Bool
  pub initialized : Bool

-- The key code that the tables give; the `switch` is for keys behind the prefix 0xE0.
unfoldable pub keycode_of : Bool → ℕ → ℕ
keycode_of extended sc =
    let base = if ltb sc 0x60 then get_or keycodes sc 0 else key_unknown in
    if not extended
    then base
    else if sc == 0x48
    then key_up
    else if sc == 0x4b
    then key_left
    else if sc == 0x4d
    then key_right
    else if sc == 0x50
    then key_down
    else if sc == 0x47
    then key_home
    else if sc == 0x4f
    then key_end
    else if sc == 0x49
    then key_pageup
    else if sc == 0x51
    then key_pagedown
    else if sc == 0x52
    then key_insert
    else if sc == 0x53
    then key_delete
    else base

-- `m |= bit` on a press and `m &= ~bit` on a release, of `uint8_t`.
abbrev pub hold : Bool → ℕ → ℕ → ℕ
hold pressed m bit = if pressed then bit_or m bit else bit_and m (255 - bit)

abbrev pub toggle : Bool → ℕ → ℕ → ℕ
toggle pressed m bit = if pressed then bit_xor m bit else m

unfoldable pub update_modifiers : ℕ → Bool → ℕ → ℕ
update_modifiers keycode pressed m =
    if keycode == key_lshift
    then hold pressed m mod_lshift
    else if keycode == key_rshift
    then hold pressed m mod_rshift
    else if keycode == key_lctrl
    then hold pressed m mod_lctrl
    else if keycode == key_lalt
    then hold pressed m mod_lalt
    else if keycode == key_capslock
    then toggle pressed m mod_capslock
    else if keycode == key_numlock
    then toggle pressed m mod_numlock
    else m

-- The character for a scancode below 0x60.
unfoldable pub translate : Bool → Bool → ℕ → ℕ
translate shift caps sc =
    let c = if shift then get_or ascii_shift sc 0 else get_or ascii_unshift sc 0 in
    if caps && leb b'a' c && leb c b'z'
    then c - 32
    else if caps && leb b'A' c && leb c b'Z'
    then c + 32
    else c

unfoldable pub ascii_of : Bool → ℕ → ℕ → ℕ
unfolding translate
ascii_of pressed sc m =
    if pressed && ltb sc 0x60 then translate (has_flag m 0x03) (has_flag m mod_capslock) sc else 0

-- The event that a scancode other than the prefix makes.
unfoldable pub event_of : Keyboard → ℕ → KeyEvent
unfolding keycode_of update_modifiers ascii_of
event_of kb scancode =
    let pressed = not (has_flag scancode 0x80) in
    let sc = bit_and scancode 0x7f in
    let keycode = keycode_of kb.extended sc in
    let m = update_modifiers keycode pressed kb.modifiers in
    record {
      keycode = keycode;
      scancode = sc;
      modifiers = m;
      ascii = ascii_of pressed sc m;
      pressed = pressed;
      extended = kb.extended;
    }

-- The state after a scancode, and the event that is handed to the callback, if one is set.
-- The result of `kb_buffer_push` is ignored: an event that does not fit is lost.
unfoldable pub process : Keyboard → ℕ → Option KeyEvent × Keyboard
unfolding event_of push
process kb scancode =
    if scancode == 0xe0
    then (none, record kb { extended = true })
    else let event = event_of kb scancode in
      (
        some event,
        record kb {
          buffer = (push kb.buffer event).1;
          modifiers = event.modifiers;
          extended = false;
        },
      )
