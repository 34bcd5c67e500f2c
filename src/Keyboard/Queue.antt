-- ===== src/Keyboard/Queue.antt =====
-- The ring buffer against its specification: a queue of at most 63 events, the oldest first.
use retrofuture_os.Base.{
  ℕ, zero, suc, ◌+◌, ◌-◌, ◌%◌, ◌<◌, ◌≡◌, refl, ap, ap₂, inl, inr, Bool, true, false, not, ◌&&◌,
  Option, none, some, List, [], ◌∷◌, ◌++◌, length, get_or, set, arith, ◌==◌, if◌then◌else◌,
  length-set, get_or-set_self, get_or-set_ne, Bool-cases,
}
use retrofuture_os.Keyboard.Buffer.{
  Buffer, KeyEvent, blank_event, is_empty, is_full, push, pop, take_char,
}

pub record IsValid (buf : Buffer) : Type 0 where
  pub storage : length buf.events ≡ 64
  pub head_in : buf.head < 64
  pub tail_in : buf.tail < 64

-- The specification: a queue of at most 63 events, the oldest first.
abbrev pub queue_push : List KeyEvent → KeyEvent → Bool × List KeyEvent
queue_push q event = if length q == 63 then (false, q) else (true, q ++ (event ∷ []))

abbrev pub queue_pop : List KeyEvent → Option KeyEvent × List KeyEvent
queue_pop [] = (none, [])
queue_pop (x ∷ q) = (some x, q)

-- The `n` events from index `t` on, round the end of the array.
abbrev pub window : List KeyEvent → ℕ → ℕ → List KeyEvent
window events t zero = []
window events t (suc n) = get_or events t blank_event ∷ window events ((t + 1) % 64) n

abbrev pub held : Buffer → ℕ
held buf = (buf.head + 64 - buf.tail) % 64

abbrev pub contents : Buffer → List KeyEvent
contents buf = window buf.events buf.tail (held buf)

pub length-window : (events : List KeyEvent) (t n : ℕ) → length (window events t n) ≡ n
length-window events t zero = refl
length-window events t (suc n) = ap suc (length-window events ((t + 1) % 64) n)

-- The window grows by the event that is written just past it.
window-set :
    (events : List KeyEvent) (x : KeyEvent) (i t n : ℕ)
    → length events ≡ 64
    → t < 64
    → n < 64
    → i ≡ (t + n) % 64
    → window (set events i x) t (suc n) ≡ window events t n ++ (x ∷ [])
window-set events x i t zero full t_in n_in e =
    let e' : i ≡ t = omega arith in
    rw e' (ap (λ y. y ∷ []) (get_or-set_self events t x blank_event (omega arith)))
window-set events x i t (suc n) full t_in n_in e =
    ap₂ ◌∷◌ (get_or-set_ne events i t x blank_event (λ same. absurd (omega arith)))
      (window-set events x i ((t + 1) % 64) n full (omega arith) (omega arith) (omega arith))

-- A well-formed buffer stays so, and pushing and popping are those of a queue of at most 63 events: a push is refused exactly when 63 are held and otherwise appends its event; a
-- pop gives the first event and leaves the others, and fails exactly on the empty queue.
pub record Refines (buf : Buffer) (event : KeyEvent) : Type 0 where
  pub push_valid : IsValid (push buf event).1
  pub pop_valid : IsValid (pop buf).1
  pub push_refines :
      let (done, buf') = push buf event in (done, contents buf') ≡ queue_push (contents buf) event
  pub pop_refines : let (got, buf') = pop buf in (got, contents buf') ≡ queue_pop (contents buf)

module _ (buf : Buffer) (event : KeyEvent) (v : IsValid buf) where
  push-IsValid : IsValid (push buf event).1
  unfolding push
  push-IsValid = ground (arith, length-set buf.events buf.head event)

  pop-IsValid : IsValid (pop buf).1
  unfolding pop
  pop-IsValid = ground arith

  full_iff : (is_full buf ≡ (length (contents buf) == 63))
  full_iff = ground (arith, length-window buf.events buf.tail (held buf))

  push_refines_lem :
      let (done, buf') = push buf event in (done, contents buf') ≡ queue_push (contents buf) event
  unfolding push
  push_refines_lem = rw (← full_iff) (elim (Bool-cases (is_full buf)) [
    | inl full ↦ rw full
    | inr room ↦
        let more : ((buf.head + 1) % 64 + 64 - buf.tail) % 64 ≡ suc (held buf) = ground arith in
        rw (room, more)
          (ap (λ q. (true, q))
            (window-set buf.events event buf.head buf.tail (held buf) v.storage v.tail_in
              (omega arith) (omega (arith, v.head_in, v.tail_in))))
  ])

  pop_refines_lem : let (got, buf') = pop buf in (got, contents buf') ≡ queue_pop (contents buf)
  unfolding pop
  pop_refines_lem = elim (Bool-cases (is_empty buf)) [
    | inl none_ ↦ let zero_held : held buf ≡ 0 = ground arith in rw (none_, zero_held)
    | inr some_ ↦
        let less : held buf ≡ suc ((buf.head + 64 - (buf.tail + 1) % 64) % 64) = ground arith in
        rw (some_, less)
  ]

  -- A well-formed buffer stays so, and pushing and popping are those of a queue of at most 63 events.
  pub buffer-Refines : Refines buf event
  buffer-Refines = record {
    push_valid = push-IsValid;
    pop_valid = pop-IsValid;
    push_refines = push_refines_lem;
    pop_refines = pop_refines_lem;
  }

-- The first press of a key with a character, and the events behind it.
abbrev pub first_char : List KeyEvent → Option ℕ × List KeyEvent
first_char [] = (none, [])
first_char (x ∷ q) = if x.pressed && not (x.ascii == 0) then (some x.ascii, q) else first_char q

take_char_step :
    (fuel : ℕ) (buf : Buffer) (q : List KeyEvent)
    → IsValid buf
    → contents buf ≡ q
    → length q < fuel
    → let (c, buf') = take_char fuel buf in (c, contents buf') ≡ first_char q
unfolding take_char
take_char_step zero buf q v e h = absurd (omega arith)
take_char_step (suc fuel) buf [] v e h =
    let p = pop_refines_lem buf blank_event v in ground (arith, p, e)
take_char_step (suc fuel) buf (x ∷ q) v e h =
    let p = pop_refines_lem buf blank_event v in
    ground (arith, p, e, take_char_step fuel (pop buf).1 q (pop-IsValid buf blank_event v))

-- On a well-formed buffer the loop of `keyboard_getchar` ends within 64 rounds: it takes events up to the first press of
-- a key with a character and returns that character, or empties the buffer if there is none.
pub take_char-first_char :
    (buf : Buffer)
    → IsValid buf
    → let (c, buf') = take_char 64 buf in (c, contents buf') ≡ first_char (contents buf)
take_char-first_char buf v =
    take_char_step 64 buf (contents buf) v refl
      (omega (arith, length-window buf.events buf.tail (held buf)))
