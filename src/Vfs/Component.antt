-- ===== src/Vfs/Component.antt =====
-- include/vfs.h: one round of the loop of `vfs_normalize_path` on a path and on its first name.
use retrofuture_os.Base.{
  ℕ, suc, ◌+◌, ◌-◌, ◌<◌, true, false, not, ◌||◌, ◌≡◌, ◌⊎◌, refl, ap, ◌∙◌, List, [], ◌∷◌, length,
  drop, arith, ◌==◌, ltb, if◌then◌else◌, Bool-cases, inl, inr,
}
use mathlib.Core.List.{reverse_aux}
use retrofuture_os.Vfs.Path.{
  slash, max_path, at_slash, past_slash, is_dot, is_dotdot, to_slash, go_up, copy_component,
  append_path,
}
use retrofuture_os.Vfs.Words.{
  words, onto_first, is_one_dot, is_two_dots, resolve, no_slash, all_names, buffer_of,
}

-- The first component of a path, and the path from the slash behind it on.
abbrev pub first_word : List ℕ → List ℕ
first_word [] = []
first_word (c ∷ path) = let rest = first_word path in if c == slash then [] else c ∷ rest

abbrev pub after_word : List ℕ → List ℕ
after_word [] = []
after_word (c ∷ path) = let rest = after_word path in if c == slash then c ∷ path else rest

abbrev pub next_words : List ℕ → List (List ℕ)
next_words [] = []
next_words (c ∷ path) = words path

pub words-first_word : (path : List ℕ) → words path ≡ first_word path ∷ next_words (after_word path)
words-first_word [] = refl
words-first_word (c ∷ path) = elim (Bool-cases (c == slash)) [
  | inl e ↦ rw e refl
  | inr e ↦ rw e (ap (onto_first c) (words-first_word path))
]

pub no_slash-first_word : (path : List ℕ) → no_slash (first_word path) ≡ true
no_slash-first_word [] = refl
no_slash-first_word (c ∷ path) = ground (arith, no_slash-first_word path)

pub length-first_word :
    (path : List ℕ) → length path ≡ length (first_word path) + length (after_word path)
length-first_word [] = omega arith
length-first_word (c ∷ path) = ground (arith, length-first_word path)

-- Behind the first component the path ends or goes on with a slash.
pub after_word-cases :
    (path : List ℕ) → (after_word path ≡ []) ⊎ ((rest : List ℕ) × (after_word path ≡ slash ∷ rest))
after_word-cases [] = inl refl
after_word-cases (c ∷ path) = elim (Bool-cases (c == slash)) [
  | inl e ↦ inr (path, rw e (ap (λ x. x ∷ path) (ground arith)))
  | inr e ↦ rw e (after_word-cases path)
]

-- With room for the whole path the component is copied whole.
pub copy_component-first_word :
    (path buf : List ℕ)
    → length buf + length path < max_path
    → copy_component path buf ≡ (after_word path, reverse_aux (first_word path) buf)
unfolding copy_component
copy_component-first_word [] buf h = refl
copy_component-first_word (c ∷ path) buf h =
    let room : ltb (length buf) (max_path - 1) ≡ true = ground arith in
    elim (Bool-cases (c == slash)) [
      | inl e ↦ rw e refl
      | inr e ↦ rw (e, room) (copy_component-first_word path (c ∷ buf) (omega arith))
    ]

pub is_dot-first_word :
    (path : List ℕ) → at_slash path ≡ false → is_dot path ≡ is_one_dot (first_word path)
is_dot-first_word [] h = refl
is_dot-first_word (c ∷ []) h = ground arith
is_dot-first_word (c ∷ (d ∷ path)) h = ground arith

pub is_dotdot-first_word :
    (path : List ℕ) → at_slash path ≡ false → is_dotdot path ≡ is_two_dots (first_word path)
is_dotdot-first_word [] h = refl
is_dotdot-first_word (c ∷ []) h = ground arith
is_dotdot-first_word (c ∷ (d ∷ [])) h = ground arith
is_dotdot-first_word (c ∷ (d ∷ (e ∷ path))) h = ground arith

pub to_slash-reverse_aux :
    (w buf : List ℕ) → no_slash w ≡ true → to_slash (reverse_aux w buf) ≡ to_slash buf
to_slash-reverse_aux [] buf h = refl
to_slash-reverse_aux (c ∷ w) buf h =
    let other : (c == slash) ≡ false = ground arith in
    to_slash-reverse_aux w (c ∷ buf) (ground arith) ∙ rw other refl

pub to_slash-buffer_of : (stack : List (List ℕ)) → to_slash (buffer_of stack) ≡ buffer_of stack
to_slash-buffer_of [] = refl
to_slash-buffer_of (w ∷ stack) = refl

pub length-reverse_aux : (w buf : List ℕ) → length (reverse_aux w buf) ≡ length w + length buf
length-reverse_aux [] buf = omega arith
length-reverse_aux (c ∷ w) buf = omega (arith, length-reverse_aux w (c ∷ buf))

-- Going up drops the last name.
pub go_up-buffer_of :
    (stack : List (List ℕ))
    → all_names stack ≡ true
    → go_up (buffer_of stack) ≡ buffer_of (drop 1 stack)
go_up-buffer_of [] h = refl
go_up-buffer_of (w ∷ stack) h =
    let long : ltb 1 (length (buffer_of (w ∷ stack))) ≡ true =
      ground (arith, length-reverse_aux w (buffer_of stack)) in
    rw long (to_slash-reverse_aux w (buffer_of stack) (ground arith) ∙ to_slash-buffer_of stack)

pub at_slash-buffer_of : (stack : List (List ℕ)) → at_slash (buffer_of stack) ≡ true
at_slash-buffer_of [] = refl
at_slash-buffer_of (w ∷ stack) = refl

-- How the loop ends: behind a slash, or behind the last name.
abbrev pub Ended : List ℕ → List (List ℕ) → Type 0
Ended buf stack =
    (buf ≡ buffer_of stack)
    ⊎ ((w : List ℕ) × (rest : List (List ℕ)) × (stack ≡ w ∷ rest)
        × (buf ≡ reverse_aux w (buffer_of rest)))

abbrev pub Follows : ℕ → List ℕ → List (List ℕ) → Type 0
Follows fuel path stack =
    Ended (append_path fuel path (buffer_of stack)) (resolve stack (words path))
    × (all_names (resolve stack (words path)) ≡ true)

pub fits_now :
    (path buf : List ℕ)
    → length buf + length path < max_path
    → 0 < length path
    → (length path == 0 || not (ltb (length buf) (max_path - 1))) ≡ false
fits_now path buf h q = ground arith

-- One round of the loop on each kind of path, while there is room.
module _ (fuel c : ℕ) (path buf : List ℕ) (room : length buf + length (c ∷ path) < max_path) where
  pub slash_round :
      (c == slash) ≡ true
      → append_path (suc fuel) (c ∷ path) buf
        ≡ append_path fuel path (if at_slash buf then buf else slash ∷ buf)
  unfolding append_path
  slash_round e = rw (fits_now (c ∷ path) buf room (omega arith), e) refl

  pub dot_round :
      (c == slash) ≡ false
      → is_dot (c ∷ path) ≡ true
      → append_path (suc fuel) (c ∷ path) buf ≡ append_path fuel (past_slash path) buf
  unfolding append_path
  dot_round e d = rw (fits_now (c ∷ path) buf room (omega arith), e, d) refl

  pub dots_round :
      (c == slash) ≡ false
      → is_dot (c ∷ path) ≡ false
      → is_dotdot (c ∷ path) ≡ true
      → append_path (suc fuel) (c ∷ path) buf
        ≡ append_path fuel (past_slash (drop 1 path)) (go_up buf)
  unfolding append_path
  dots_round e d dd = rw (fits_now (c ∷ path) buf room (omega arith), e, d, dd) refl

  pub name_round :
      (c == slash) ≡ false
      → is_dot (c ∷ path) ≡ false
      → is_dotdot (c ∷ path) ≡ false
      → append_path (suc fuel) (c ∷ path) buf
        ≡ append_path fuel (after_word (c ∷ path)) (reverse_aux (first_word (c ∷ path)) buf)
  unfolding append_path
  name_round e d dd =
      rw (fits_now (c ∷ path) buf room (omega arith), e, d, dd)
        (ap (λ p. append_path fuel p.0 p.1) (copy_component-first_word (c ∷ path) buf room)
          ∙ rw e refl)
