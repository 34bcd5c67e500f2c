-- ===== src/Vfs/Words.antt =====
-- Paths as lists of names: what include/vfs.h means by a normalised path.
use retrofuture_os.Base.{
  ℕ, Bool, true, false, not, ◌&&◌, ◌≡◌, refl, sym, ap, ap₂, ◌∙◌, List, [], ◌∷◌, ◌++◌, length, drop,
  arith, ◌==◌, if◌then◌else◌, Bool-cases, inl, inr,
}
use mathlib.Core.List.{
  append-nil, append_assoc, reverse, reverse_aux, reverse-cons, reverse_aux-eq, reverse-append,
  reverse-reverse,
}
use retrofuture_os.Vfs.Path.{slash, dot}

-- The parts between slashes, empty ones included.
abbrev pub onto_first : ℕ → List (List ℕ) → List (List ℕ)
onto_first c [] = (c ∷ []) ∷ []
onto_first c (w ∷ ws) = (c ∷ w) ∷ ws

abbrev pub words : List ℕ → List (List ℕ)
words [] = [] ∷ []
words (c ∷ path) = let rest = words path in if c == slash then [] ∷ rest else onto_first c rest

abbrev pub is_one_dot : List ℕ → Bool
is_one_dot (c ∷ []) = c == dot
is_one_dot [] = false
is_one_dot (c ∷ (d ∷ w)) = false

abbrev pub is_two_dots : List ℕ → Bool
is_two_dots (c ∷ (d ∷ [])) = c == dot && d == dot
is_two_dots [] = false
is_two_dots (c ∷ []) = false
is_two_dots (c ∷ (d ∷ (e ∷ w))) = false

-- The directories on the way to a path, the last one first: a name goes in, `..` goes back.
abbrev pub enter : List ℕ → List (List ℕ) → List (List ℕ)
enter w stack =
    if length w == 0
    then stack
    else if is_one_dot w
    then stack
    else if is_two_dots w
    then drop 1 stack
    else w ∷ stack

abbrev pub resolve : List (List ℕ) → List (List ℕ) → List (List ℕ)
resolve stack [] = stack
resolve stack (w ∷ ws) = resolve (enter w stack) ws

-- The names in a path.
abbrev pub not_empty : List (List ℕ) → List (List ℕ)
not_empty [] = []
not_empty (w ∷ ws) = let rest = not_empty ws in if length w == 0 then rest else w ∷ rest

abbrev pub names : List ℕ → List (List ℕ)
names path = not_empty (words path)

abbrev pub no_slash : List ℕ → Bool
no_slash [] = true
no_slash (c ∷ w) = not (c == slash) && no_slash w

abbrev pub is_name : List ℕ → Bool
is_name w = not (length w == 0) && no_slash w

abbrev pub all_names : List (List ℕ) → Bool
all_names [] = true
all_names (w ∷ ws) = is_name w && all_names ws

onto_first-append :
    (c : ℕ) (t : List ℕ) (ws : List (List ℕ))
    → onto_first c (words t ++ ws) ≡ onto_first c (words t) ++ ws
onto_first-append c [] ws = refl
onto_first-append c (d ∷ t) ws = elim (Bool-cases (d == slash)) [
  | inl e ↦ rw e refl
  | inr e ↦ rw e (some_word (words t))
]
  where
    some_word :
        (vs : List (List ℕ))
        → onto_first c (onto_first d vs ++ ws) ≡ onto_first c (onto_first d vs) ++ ws
    some_word [] = refl
    some_word (v ∷ vs) = refl

words-append : (t u : List ℕ) → words (t ++ (slash ∷ u)) ≡ words t ++ words u
words-append [] u = refl
words-append (c ∷ t) u = elim (Bool-cases (c == slash)) [
  | inl e ↦ rw e (ap (λ ws. [] ∷ ws) (words-append t u))
  | inr e ↦ rw e (ap (onto_first c) (words-append t u) ∙ onto_first-append c t (words u))
]

not_empty-append : (vs ws : List (List ℕ)) → not_empty (vs ++ ws) ≡ not_empty vs ++ not_empty ws
not_empty-append [] ws = refl
not_empty-append (v ∷ vs) ws = elim (Bool-cases (length v == 0)) [
  | inl e ↦ rw e (not_empty-append vs ws)
  | inr e ↦ rw e (ap (λ r. v ∷ r) (not_empty-append vs ws))
]

names-append : (t u : List ℕ) → names (t ++ (slash ∷ u)) ≡ names t ++ names u
names-append t u = ap not_empty (words-append t u) ∙ not_empty-append (words t) (words u)

words_name : (w : List ℕ) → no_slash w ≡ true → words w ≡ w ∷ []
words_name [] h = refl
words_name (c ∷ w) h =
    let other : (c == slash) ≡ false = ground arith in
    rw other (ap (onto_first c) (words_name w (ground arith)))

names_name : (w : List ℕ) → is_name w ≡ true → names w ≡ w ∷ []
names_name w h =
    let full : (length w == 0) ≡ false = ground arith in
    ap not_empty (words_name w (ground arith)) ∙ rw full refl

-- The path of a stack of names, without a slash at its end; empty for the root.
abbrev pub spell : List (List ℕ) → List ℕ
spell [] = []
spell (w ∷ stack) = spell stack ++ (slash ∷ w)

pub names-spell :
    (stack : List (List ℕ)) → all_names stack ≡ true → names (spell stack) ≡ reverse stack
names-spell [] h = refl
names-spell (w ∷ stack) h =
    names-append (spell stack) w
    ∙ ap₂ ◌++◌ (names-spell stack (ground arith)) (names_name w (ground arith))
    ∙ sym (reverse-cons w stack)

pub names-spell-slash :
    (stack : List (List ℕ))
    → all_names stack ≡ true
    → names (spell stack ++ (slash ∷ [])) ≡ reverse stack
names-spell-slash stack h =
    names-append (spell stack) [] ∙ append-nil (names (spell stack)) ∙ names-spell stack h

-- The buffer of the program for a stack: the path with a slash at its end, backwards.
abbrev pub buffer_of : List (List ℕ) → List ℕ
buffer_of [] = slash ∷ []
buffer_of (w ∷ stack) = slash ∷ reverse_aux w (buffer_of stack)

reverse-reverse_aux : (w r : List ℕ) → reverse (reverse_aux w r) ≡ reverse r ++ w
reverse-reverse_aux w r =
    ap reverse (reverse_aux-eq w r)
    ∙ reverse-append (reverse w) r
    ∙ ap (λ v. reverse r ++ v) (reverse-reverse w)

pub reverse-buffer_of :
    (stack : List (List ℕ)) → reverse (buffer_of stack) ≡ spell stack ++ (slash ∷ [])
reverse-buffer_of [] = refl
reverse-buffer_of (w ∷ stack) =
    reverse-cons slash (reverse_aux w (buffer_of stack))
    ∙ ap (λ t. t ++ (slash ∷ [])) (reverse-reverse_aux w (buffer_of stack))
    ∙ ap (λ t. (t ++ w) ++ (slash ∷ [])) (reverse-buffer_of stack)
    ∙ ap (λ t. t ++ (slash ∷ [])) (append_assoc (spell stack) (slash ∷ []) w)

-- The same before the slash behind the last name is there.
pub reverse-open_buffer :
    (w : List ℕ) (stack : List (List ℕ))
    → reverse (reverse_aux w (buffer_of stack)) ≡ spell stack ++ (slash ∷ w)
reverse-open_buffer w stack =
    reverse-reverse_aux w (buffer_of stack)
    ∙ ap (λ t. t ++ w) (reverse-buffer_of stack)
    ∙ append_assoc (spell stack) (slash ∷ []) w
