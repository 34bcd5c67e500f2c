-- ===== src/Base/Members.antt =====
-- Membership of numbers in a list, and lists without repetition.
use Prim.Native.Nat.{ℕ}
use mathlib.Core.Path.{◌≡◌, refl, sym, ap}
use mathlib.Core.Bool.{Bool, true, false, not, ◌&&◌, ◌||◌}
use mathlib.Core.List.{List, [], ◌∷◌, ◌++◌, append-nil}
use native.Mathlib.Omega.{arith}
use retrofuture_os.Base.Tests.{◌==◌}

abbrev pub mem : ℕ → List ℕ → Bool
mem d [] = false
mem d (x ∷ xs) = d == x || mem d xs

abbrev pub distinct : List ℕ → Bool
distinct [] = true
distinct (x ∷ xs) = not (mem x xs) && distinct xs

pub mem-append : (d : ℕ) (xs ys : List ℕ) → mem d (xs ++ ys) ≡ (mem d xs || mem d ys)
mem-append d [] ys = refl
mem-append d (x ∷ xs) ys = ground (arith, mem-append d xs ys)

-- A new element may be put in the middle, and an element may be taken from there.
pub distinct-insert :
    (x : ℕ) (xs ys : List ℕ)
    → distinct (xs ++ (x ∷ ys)) ≡ (not (mem x (xs ++ ys)) && distinct (xs ++ ys))
distinct-insert x [] ys = refl
distinct-insert x (z ∷ xs) ys =
    ground (arith, distinct-insert x xs ys, mem-append z xs (x ∷ ys), mem-append z xs ys)

pub distinct-append_comm : (xs ys : List ℕ) → distinct (xs ++ ys) ≡ distinct (ys ++ xs)
distinct-append_comm [] ys = ap distinct (sym (append-nil ys))
distinct-append_comm (x ∷ xs) ys = ground (
  arith,
  distinct-append_comm xs ys,
  distinct-insert x ys xs,
  mem-append x xs ys,
  mem-append x ys xs,
)
