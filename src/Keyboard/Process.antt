-- ===== src/Keyboard/Process.antt =====
-- `kb_process_scancode` as a step of the driver's state machine.
use retrofuture_os.Base.{
  ℕ, ◌<◌, ◌≡◌, refl, ap, Bool, true, false, Option, none, some, List, ◌==◌, Bool-cases, inl, inr,
}
use retrofuture_os.Keyboard.Buffer.{KeyEvent, push}
use retrofuture_os.Keyboard.Scancode.{Keyboard, event_of, process}
use retrofuture_os.Keyboard.Event.{IsEventOf, event_of-IsEventOf}
use retrofuture_os.Keyboard.Queue.{IsValid, buffer-Refines, contents, queue_push}

-- What the step does besides remembering the prefix, by the event that it makes.
abbrev pub MakesEvent : Keyboard → ℕ → Keyboard → Option KeyEvent → Type 0
MakesEvent kb scancode kb' none =
    (scancode == 0xe0 ≡ true)
    × (kb'.modifiers ≡ kb.modifiers)
    × (contents kb'.buffer ≡ contents kb.buffer)
MakesEvent kb scancode kb' (some e) =
    (scancode == 0xe0 ≡ false)
    × IsEventOf kb scancode e
    × (kb'.modifiers ≡ e.modifiers)
    × (contents kb'.buffer ≡ (queue_push (contents kb.buffer) e).1)

pub record Stepped (kb : Keyboard) (scancode : ℕ) (out : Option KeyEvent) (kb' : Keyboard)
    : Type 0 where
  pub valid : IsValid kb'.buffer
  pub prefix : kb'.extended ≡ (scancode == 0xe0)
  pub event : MakesEvent kb scancode kb' out

-- For a byte as scancode and a byte of modifiers: the prefix 0xE0 makes no event and is remembered
-- for the next scancode only. Any other scancode makes one event. It is a press exactly below 0x80,
-- its scancode is without the bit for a release, its key is that of the table or, behind the prefix,
-- of the cursor block, and it is marked with whether the prefix came before. Bit by bit its
-- modifiers are the old ones after that key, and become the driver's. Its character is that of the
-- key under these modifiers, or 0 for a release and for scancodes from 0x60 on. The event goes to the
-- end of the queue unless that holds 63 events, when it is lost.
pub process-Stepped :
    (kb : Keyboard) (scancode : ℕ)
    → IsValid kb.buffer
    → scancode < 256
    → kb.modifiers < 256
    → let (out, kb') = process kb scancode in Stepped kb scancode out kb'
process-Stepped kb scancode v small in_byte = elim (Bool-cases (scancode == 0xe0)) [
  | inl is_prefix ↦
      rw (prefix-eq is_prefix)
        (record { valid = v; prefix = rw is_prefix; event = (is_prefix, refl, refl) })
  | inr other ↦
      let q = buffer-Refines kb.buffer (event_of kb scancode) v in
      rw (event-eq other) (record {
        valid = q.push_valid;
        prefix = rw other;
        event = (
          other,
          event_of-IsEventOf kb scancode small in_byte,
          refl,
          ap (λ (r : Bool × List KeyEvent). r.1) q.push_refines,
        );
      })
]
  where
    stepped : Keyboard
    stepped = record kb {
      buffer = (push kb.buffer (event_of kb scancode)).1;
      modifiers = (event_of kb scancode).modifiers;
      extended = false;
    }

    prefix-eq :
        scancode == 0xe0 ≡ true → process kb scancode ≡ (none, record kb { extended = true })
    prefix-eq h = unfold process in rw h

    event-eq :
        scancode == 0xe0 ≡ false → process kb scancode ≡ (some (event_of kb scancode), stepped)
    event-eq h = unfold process in rw h
