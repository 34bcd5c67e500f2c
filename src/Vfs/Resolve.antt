-- ===== src/Vfs/Resolve.antt =====
-- include/vfs.h: `vfs_normalize_path` follows the names of a path.
use retrofuture_os.Base.{
  ℕ, suc, ◌≤◌, true, false, ◌≡◌, refl, sym, ap, subst, ◌∙◌, List, [], ◌∷◌, length, arith, ◌==◌,
  if◌then◌else◌, Bool-cases, inl, inr,
}
use mathlib.Core.List.{reverse}
use retrofuture_os.Vfs.Path.{slash, append_path, start_buffer, normalize_path}
use retrofuture_os.Vfs.Words.{
  words, resolve, names, all_names, names-spell, names-spell-slash, buffer_of, reverse-buffer_of,
  reverse-open_buffer,
}
use retrofuture_os.Vfs.Component.{length-reverse_aux, Ended, slash_round}
use retrofuture_os.Vfs.Rounds.{follows}

-- What the buffer holds at the end, read forwards.
Ended-names :
    (buf : List ℕ) (stack : List (List ℕ))
    → Ended buf stack
    → all_names stack ≡ true
    → names (reverse buf) ≡ reverse stack
Ended-names buf stack (inl e) good =
    ap (λ b. names (reverse b)) e
    ∙ ap names (reverse-buffer_of stack)
    ∙ names-spell-slash stack good
Ended-names buf stack (inr (w, rest, e, f)) good =
    ap (λ b. names (reverse b)) f
    ∙ ap names (reverse-open_buffer w rest)
    ∙ names-spell (w ∷ rest) (subst (λ s. all_names s ≡ true) e good)
    ∙ ap reverse (sym e)

length-buffer_of : (stack : List (List ℕ)) → 1 ≤ length (buffer_of stack)
length-buffer_of [] = omega arith
length-buffer_of (w ∷ stack) = omega arith

Ended-length : (buf : List ℕ) (stack : List (List ℕ)) → Ended buf stack → (length buf == 0) ≡ false
Ended-length buf stack (inl e) = ground (arith, ap length e, length-buffer_of stack)
Ended-length buf stack (inr (w, rest, e, f)) =
    ground (arith, ap length f, length-reverse_aux w (buffer_of rest), length-buffer_of rest)

start_absolute :
    (c : ℕ) (path : List ℕ) → (c == slash) ≡ true → start_buffer (c ∷ path) (slash ∷ []) ≡ []
unfolding start_buffer
start_absolute c path e = rw e refl

start_relative :
    (c : ℕ) (path : List ℕ)
    → (c == slash) ≡ false
    → start_buffer (c ∷ path) (slash ∷ []) ≡ slash ∷ []
unfolding start_buffer
start_relative c path e = rw e refl

-- The end of `vfs_normalize_path`.
abbrev read_back : List ℕ → List (List ℕ)
read_back buf = names (if length buf == 0 then slash ∷ [] else reverse buf)

finished :
    (buf : List ℕ) (stack : List (List ℕ))
    → Ended buf stack × (all_names stack ≡ true)
    → read_back buf ≡ reverse stack
finished buf stack (ended, good) =
    rw (Ended-length buf stack ended) (Ended-names buf stack ended good)

root_only : names (normalize_path [] (slash ∷ [])) ≡ []
unfolding normalize_path start_buffer append_path
root_only = refl

-- From the root as the current directory, and a path of at most 254 bytes, the names in the path
-- that vfs_normalize_path gives are those that are reached by following the names of the path:
-- empty ones and `.` stay, `..` goes back where it can, and every other name goes on.
pub normalize_path-resolve :
    (path : List ℕ)
    → length path ≤ 254
    → names (normalize_path path (slash ∷ [])) ≡ reverse (resolve [] (words path))
unfolding normalize_path
normalize_path-resolve [] h = root_only
normalize_path-resolve (c ∷ path) h = elim (Bool-cases (c == slash)) [
  | inl e ↦
      let skipped : resolve [] (words path) ≡ resolve [] (words (c ∷ path)) = rw e refl in
      ap read_back (
        ap (append_path (suc (length path)) (c ∷ path)) (start_absolute c path e)
        ∙ slash_round (length path) c path [] (omega arith) e)
      ∙ finished (append_path (length path) path (slash ∷ [])) (resolve [] (words path)) (
          follows (length path) (length path) path [] (omega arith) (omega arith) (omega arith)
            refl)
      ∙ ap reverse skipped
  | inr e ↦
      ap (λ b. read_back (append_path (suc (length path)) (c ∷ path) b)) (start_relative c path e)
      ∙ (finished (append_path (suc (length path)) (c ∷ path) (slash ∷ []))
          (resolve [] (words (c ∷ path)))
          (follows (suc (length path)) (suc (length path)) (c ∷ path) [] (omega arith) (omega arith)
            (omega arith) refl))
]
