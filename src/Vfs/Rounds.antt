-- ===== src/Vfs/Rounds.antt =====
-- include/vfs.h: all rounds of the loop of `vfs_normalize_path`.
use retrofuture_os.Base.{
  ℕ, zero, suc, ◌+◌, ◌-◌, ◌≤◌, ◌<◌, true, false, ◌≡◌, refl, sym, ap, subst, ◌∙◌, List, [], ◌∷◌,
  length, drop, arith, ◌==◌, Bool-cases, inl, inr,
}
use mathlib.Core.List.{reverse_aux}
use retrofuture_os.Vfs.Path.{
  slash, dot, max_path, at_slash, past_slash, is_dot, is_dotdot, append_path,
}
use retrofuture_os.Vfs.Words.{
  words, is_one_dot, is_two_dots, enter, resolve, is_name, all_names, buffer_of,
}
use retrofuture_os.Vfs.Component.{
  first_word, after_word, next_words, words-first_word, no_slash-first_word, length-first_word,
  after_word-cases, is_dot-first_word, is_dotdot-first_word, length-reverse_aux, go_up-buffer_of,
  at_slash-buffer_of, Ended, Follows, slash_round, dot_round, dots_round, name_round,
}

pub append_path_nil : (fuel : ℕ) (buf : List ℕ) → append_path fuel [] buf ≡ buf
unfolding append_path
append_path_nil zero buf = refl
append_path_nil (suc fuel) buf = refl

-- What the names of the path do in each case.
pub resolve_dot :
    (c : ℕ) (path : List ℕ) (stack : List (List ℕ))
    → is_dot (c ∷ path) ≡ true
    → resolve stack (words (c ∷ path)) ≡ resolve stack (words (past_slash path))
resolve_dot c [] stack d = let e : c ≡ dot = ground arith in rw e refl
resolve_dot c (x ∷ path) stack d =
    let e : c ≡ dot = ground arith in let f : x ≡ slash = ground arith in rw (e, f) refl

pub resolve_dots :
    (c : ℕ) (path : List ℕ) (stack : List (List ℕ))
    → is_dotdot (c ∷ path) ≡ true
    → resolve stack (words (c ∷ path)) ≡ resolve (drop 1 stack) (words (past_slash (drop 1 path)))
resolve_dots c [] stack d = absurd (cc)
resolve_dots c (x ∷ []) stack d =
    let e : c ≡ dot = ground arith in let f : x ≡ dot = ground arith in rw (e, f) refl
resolve_dots c (x ∷ (y ∷ path)) stack d =
    let e : c ≡ dot = ground arith in
    let f : x ≡ dot = ground arith in let g : y ≡ slash = ground arith in rw (e, f, g) refl

-- The component goes onto the stack when it is a name.
pub enter_name :
    (c : ℕ) (path : List ℕ) (stack : List (List ℕ))
    → (c == slash) ≡ false
    → is_dot (c ∷ path) ≡ false
    → is_dotdot (c ∷ path) ≡ false
    → enter (first_word (c ∷ path)) stack ≡ first_word (c ∷ path) ∷ stack
enter_name c path stack e d dd =
    let one : is_one_dot (first_word (c ∷ path)) ≡ false =
      sym (is_dot-first_word (c ∷ path) e) ∙ d in
    let two : is_two_dots (first_word (c ∷ path)) ≡ false =
      sym (is_dotdot-first_word (c ∷ path) e) ∙ dd in
    let full : (length (first_word (c ∷ path)) == 0) ≡ false = ground arith in
    rw (full, one, two) refl

-- A name goes on behind its slash, or the path is at its end.
pub resolve_name :
    (c : ℕ) (path : List ℕ) (stack : List (List ℕ))
    → (c == slash) ≡ false
    → is_dot (c ∷ path) ≡ false
    → is_dotdot (c ∷ path) ≡ false
    → resolve stack (words (c ∷ path))
      ≡ resolve (first_word (c ∷ path) ∷ stack) (next_words (after_word (c ∷ path)))
resolve_name c path stack e d dd =
    ap (resolve stack) (words-first_word (c ∷ path))
    ∙ ap (λ s. resolve s (next_words (after_word (c ∷ path)))) (enter_name c path stack e d dd)

pub second_round :
    (fuel : ℕ) (rest buf : List ℕ)
    → 1 ≤ fuel
    → at_slash buf ≡ false
    → length buf + length (slash ∷ rest) < max_path
    → append_path fuel (slash ∷ rest) buf ≡ append_path (fuel - 1) rest (slash ∷ buf)
second_round zero rest buf q h room = absurd (omega arith)
second_round (suc fuel) rest buf q h room =
    slash_round fuel slash rest buf room refl
    ∙ rw h (ap (λ f. append_path f rest (slash ∷ buf)) (omega arith))

pub at_slash-reverse_aux :
    (w buf : List ℕ) → is_name w ≡ true → at_slash (reverse_aux w buf) ≡ false
at_slash-reverse_aux [] buf h = absurd (cc)
at_slash-reverse_aux (c ∷ []) buf h = ground arith
at_slash-reverse_aux (c ∷ (d ∷ w)) buf h = at_slash-reverse_aux (d ∷ w) (c ∷ buf) (ground arith)

-- The same end for equal paths through the loop.
pub moved :
    (fuel fuel' : ℕ) (path path' : List ℕ) (stack stack' : List (List ℕ))
    → append_path fuel path (buffer_of stack) ≡ append_path fuel' path' (buffer_of stack')
    → resolve stack (words path) ≡ resolve stack' (words path')
    → Follows fuel' path' stack'
    → Follows fuel path stack
moved fuel fuel' path path' stack stack' e f ended =
    subst
      (λ b. Ended b (resolve stack (words path)) × (all_names (resolve stack (words path)) ≡ true))
      (sym e)
      (subst (λ s. Ended (append_path fuel' path' (buffer_of stack')) s × (all_names s ≡ true))
        (sym f) ended)

pub all_names-drop :
    (stack : List (List ℕ)) → all_names stack ≡ true → all_names (drop 1 stack) ≡ true
all_names-drop [] h = refl
all_names-drop (w ∷ stack) h = ground arith

pub length-buffer_of-drop :
    (stack : List (List ℕ)) → length (buffer_of (drop 1 stack)) ≤ length (buffer_of stack)
length-buffer_of-drop [] = omega arith
length-buffer_of-drop (w ∷ stack) = omega (arith, length-reverse_aux w (buffer_of stack))

pub length-past_slash : (path : List ℕ) → length (past_slash path) ≤ length path
length-past_slash [] = omega arith
length-past_slash (c ∷ path) = ground arith

pub length-drop_one : (path : List ℕ) → length (drop 1 path) ≤ length path
length-drop_one [] = omega arith
length-drop_one (c ∷ path) = omega arith

-- `bound` is for the induction.
pub follows :
    (bound fuel : ℕ) (path : List ℕ) (stack : List (List ℕ))
    → length path ≤ bound
    → length path ≤ fuel
    → length (buffer_of stack) + length path < max_path
    → all_names stack ≡ true
    → Follows fuel path stack
follows bound fuel [] stack b q room good = (inl (append_path_nil fuel (buffer_of stack)), good)
follows zero fuel (c ∷ path) stack b q room good = absurd (omega arith)
follows (suc bound) zero (c ∷ path) stack b q room good = absurd (omega arith)
follows (suc bound) (suc fuel) (c ∷ path) stack b q room good = elim (Bool-cases (c == slash)) [
  | inl e ↦
      moved (suc fuel) fuel (c ∷ path) path stack stack
        (slash_round fuel c path (buffer_of stack) room e ∙ rw (at_slash-buffer_of stack) refl)
        (rw e refl) (follows bound fuel path stack (omega arith) (omega arith) (omega arith) good)
  | inr e ↦ elim (Bool-cases (is_dot (c ∷ path))) [
    | inl d ↦
        let shorter = length-past_slash path in
        moved (suc fuel) fuel (c ∷ path) (past_slash path) stack stack
          (dot_round fuel c path (buffer_of stack) room e d) (resolve_dot c path stack d)
          (follows bound fuel (past_slash path) stack (omega arith) (omega arith) (omega arith)
            good)
    | inr nd ↦ elim (Bool-cases (is_dotdot (c ∷ path))) [
      | inl dd ↦
          let shorter = length-past_slash (drop 1 path) in
          let shorter' = length-drop_one path in
          let lower = length-buffer_of-drop stack in
          moved (suc fuel) fuel (c ∷ path) (past_slash (drop 1 path)) stack (drop 1 stack)
            (dots_round fuel c path (buffer_of stack) room e nd dd
              ∙ ap (append_path fuel (past_slash (drop 1 path))) (go_up-buffer_of stack good))
            (resolve_dots c path stack dd)
            (follows bound fuel (past_slash (drop 1 path)) (drop 1 stack) (omega arith)
              (omega arith) (omega arith) (all_names-drop stack good))
      | inr name ↦
          let w = first_word (c ∷ path) in
          let proper : is_name w ≡ true = ground (arith, no_slash-first_word (c ∷ path)) in
          let round = name_round fuel c path (buffer_of stack) room e nd name in
          let way = resolve_name c path stack e nd name in
          let size = length-first_word (c ∷ path) in
          let grown = length-reverse_aux w (buffer_of stack) in
          let longer : all_names (w ∷ stack) ≡ true = rw (proper, good) refl in
          elim (after_word-cases (c ∷ path)) [
            | inl over ↦
                (let buf =
                    round
                    ∙ ap (λ p. append_path fuel p (reverse_aux w (buffer_of stack))) over
                    ∙ append_path_nil fuel (reverse_aux w (buffer_of stack)) in
                  let reached = way ∙ ap (λ p. resolve (w ∷ stack) (next_words p)) over in
                  (
                    inr (w, stack, reached, buf),
                    subst (λ s. all_names s ≡ true) (sym reached) longer,
                  ))
            | inr (rest, more) ↦
                let size' = size ∙ ap (λ p. length w + length p) more in
                let some_name : 1 ≤ length w = ground arith in
                moved (suc fuel) (fuel - 1) (c ∷ path) rest stack (w ∷ stack)
                  (round
                    ∙ ap (λ p. append_path fuel p (reverse_aux w (buffer_of stack))) more
                    ∙ second_round fuel rest (reverse_aux w (buffer_of stack)) (omega arith)
                        (at_slash-reverse_aux w (buffer_of stack) proper) (omega arith))
                  (way ∙ ap (λ p. resolve (w ∷ stack) (next_words p)) more)
                  (follows bound (fuel - 1) rest (w ∷ stack) (omega arith) (omega arith)
                    (omega arith) longer)
          ]
    ]
  ]
]
