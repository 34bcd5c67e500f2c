-- ===== src/Keyboard/Buffer.antt =====
-- include/keyboard.h: the ring buffer of key events, and the calls that take events out of it.
use retrofuture_os.Base.{
  ℕ, zero, suc, ◌+◌, ◌%◌, Bool, true, false, not, ◌&&◌, Option, none, some, List, ◌==◌,
  if◌then◌else◌, get_or, set,
}

abbrev pub buffer_size : ℕ
buffer_size = 64

pub record KeyEvent : Type 0 where
  pub keycode : ℕ
  pub scancode : ℕ
  pub modifiers : ℕ
  pub ascii : ℕ
  pub pressed : Bool
  pub extended : Bool

pub record Buffer : Type 0 where
  pub events : List KeyEvent
  pub head : ℕ
  pub tail : ℕ

-- `key_event_t event = {0}`
abbrev pub blank_event : KeyEvent
blank_event = record {
  keycode = 0;
  scancode = 0;
  modifiers = 0;
  ascii = 0;
  pressed = false;
  extended = false;
}

unfoldable pub init : Buffer → Buffer
init buf = record buf { head = 0; tail = 0 }

abbrev pub is_empty : Buffer → Bool
is_empty buf = buf.head == buf.tail

abbrev pub is_full : Buffer → Bool
is_full buf = (buf.head + 1) % buffer_size == buf.tail

unfoldable pub push : Buffer → KeyEvent → Bool × Buffer
push buf event = if is_full buf then (false, buf) else (
  true,
  record buf { events = set buf.events buf.head event; head = (buf.head + 1) % buffer_size },
)

-- `none` is a failure, which leaves `*event` as it was.
unfoldable pub pop : Buffer → Option KeyEvent × Buffer
pop buf = if is_empty buf then (none, buf) else (
  some (get_or buf.events buf.tail blank_event),
  record buf { tail = (buf.tail + 1) % buffer_size },
)

-- The inner loop of `keyboard_getchar`: events are taken until one is the press of a key with a
-- character. `none` means that the buffer ran empty, and the outer loop waits for an interrupt.
-- Each round takes one of at most 63 events, so 64 rounds are enough.
unfoldable pub take_char : ℕ → Buffer → Option ℕ × Buffer
take_char zero buf = (none, buf)
take_char (suc fuel) buf =
    let (got, buf') = pop buf in
    let rest = take_char fuel buf' in
    elim got [
      | none ↦ (none, buf')
      | some event ↦
          if event.pressed && not (event.ascii == 0) then (some event.ascii, buf') else rest
    ]
