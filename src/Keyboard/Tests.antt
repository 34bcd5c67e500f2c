-- ===== src/Keyboard/Tests.antt =====
-- The keyboard driver's theorems at concrete inputs, and a run of typed scancodes.
use retrofuture_os.Base.{◌-◌, ◌≡◌, refl, true, false, some, replicate, arith, if◌then◌else◌}
use mathlib.Core.Bool.{xor}
use retrofuture_os.Keyboard.Buffer.{Buffer, blank_event, take_char}
use retrofuture_os.Keyboard.Scancode.{Keyboard, process, translate, update_modifiers}
use retrofuture_os.Keyboard.Queue.{
  IsValid, Refines, buffer-Refines, contents, first_char, take_char-first_char,
}
use retrofuture_os.Keyboard.Translate.{
  bit_at, is_held_key, is_lock_key, update_modifiers-bit_at, translate-key_char,
}
use retrofuture_os.Keyboard.Process.{Stepped, process-Stepped}

-- Two events, round the end of the array.
abbrev buffer : Buffer
buffer = record { events = replicate 64 blank_event; head = 1; tail = 63 }

abbrev keyboard : Keyboard
keyboard = record { buffer = buffer; modifiers = 0; extended = false; initialized = true }

buffer_ok : IsValid buffer
buffer_ok = omega arith

-- Shift down, then the key A.
shift_a :
    (process (process keyboard 0x2a).1 0x1e).0
    ≡ some (record {
      keycode = 65;
      scancode = 0x1e;
      modifiers = 1;
      ascii = b'A';
      pressed = true;
      extended = false;
    })
unfolding process
shift_a = refl

buffer-Refines_example : Refines buffer blank_event
buffer-Refines_example = buffer-Refines buffer blank_event buffer_ok

take_char-first_char_example :
    let (c, buf') = take_char 64 buffer in (c, contents buf') ≡ first_char (contents buffer)
take_char-first_char_example = take_char-first_char buffer buffer_ok

process-Stepped_example : let (out, kb') = process keyboard 0x1e in Stepped keyboard 0x1e out kb'
process-Stepped_example = process-Stepped keyboard 0x1e buffer_ok (omega arith) (omega arith)

update_modifiers-bit_at_example :
    (bit_at (update_modifiers 9 true 0x41) 6 ≡ (
      if is_held_key 9 6 then 1 else if is_lock_key 9 6 then 1 - bit_at 0x41 6 else bit_at 0x41 6))
    × (bit_at (update_modifiers 9 false 0x41) 6 ≡ (if is_held_key 9 6 then 0 else bit_at 0x41 6))
update_modifiers-bit_at_example = update_modifiers-bit_at 9 0x41 6 (omega arith) (omega arith)

translate-key_char_example : translate true true 0x1e ≡ b'a'
unfolding xor
translate-key_char_example = translate-key_char true true 0x1e (omega arith)
