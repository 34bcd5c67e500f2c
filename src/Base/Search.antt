-- ===== src/Base/Search.antt =====
-- What the search loop finds, and how a write to one element changes a count.
use Prim.Native.Nat.{ℕ, zero, suc, ◌+◌, ◌<◌, ◌≤◌}
use mathlib.Core.Path.{◌≡◌, refl}
use mathlib.Core.Logic.{inl, inr}
use mathlib.Core.Bool.{Bool, true, false, ◌&&◌}
use mathlib.Core.List.{List, [], ◌∷◌}
use mathlib.Core.Option.{none, some}
use native.Mathlib.Omega.{arith}
use retrofuture_os.Base.Tests.{if◌then◌else◌, Bool-cases, Option-cases, ltb, ◌==◌}
use retrofuture_os.Base.Lists.{length, get_or, set, find_index, count}

-- 1 for an element that passes a test.
abbrev pub bit : Bool → ℕ
bit b = if b then 1 else 0

module _ {ℓ} {A : Type ℓ} where
  pub get_or-set :
      (xs : List A) (i j : ℕ) (v d : A)
      → get_or (set xs i v) j d ≡ (if i == j && ltb i (length xs) then v else get_or xs j d)
  get_or-set [] i j v d = ground arith
  get_or-set (x ∷ xs) zero zero v d = ground arith
  get_or-set (x ∷ xs) zero (suc j) v d = ground arith
  get_or-set (x ∷ xs) (suc i) zero v d = ground arith
  get_or-set (x ∷ xs) (suc i) (suc j) v d = ground (arith, get_or-set xs i j v d)

  module _ (p : A → Bool) where
    -- The element found passes the test, and none before it does.
    pub find_index-some :
        (xs : List A) (i : ℕ) (d : A)
        → find_index p xs ≡ some i
        → (i < length xs) × (p (get_or xs i d) ≡ true)
    find_index-some [] i d h = absurd (cc)
    find_index-some (x ∷ xs) i d h = elim (Bool-cases (p x)) [
      | inl e ↦ ground arith
      | inr e ↦ elim (Option-cases (find_index p xs)) [
        | inl n ↦ ground arith
        | inr (k, s) ↦ ground (arith, find_index-some xs k d s)
      ]
    ]

    pub find_index-least :
        (xs : List A) (i j : ℕ) (d : A)
        → find_index p xs ≡ some i
        → j < i
        → p (get_or xs j d) ≡ false
    find_index-least [] i j d h q = absurd (cc)
    find_index-least (x ∷ xs) i zero d h q = ground arith
    find_index-least (x ∷ xs) i (suc j) d h q = elim (Option-cases (find_index p xs)) [
      | inl n ↦ ground arith
      | inr (k, s) ↦ ground (arith, find_index-least xs k j d s)
    ]

    pub find_index-none :
        (xs : List A) (j : ℕ) (d : A)
        → find_index p xs ≡ none
        → j < length xs
        → p (get_or xs j d) ≡ false
    find_index-none [] j d h q = absurd (omega arith)
    find_index-none (x ∷ xs) zero d h q = ground arith
    find_index-none (x ∷ xs) (suc j) d h q = elim (Option-cases (find_index p xs)) [
      | inl n ↦ find_index-none xs j d n (omega arith)
      | inr (k, s) ↦ ground arith
    ]

    -- The first element that passes is the one found.
    pub find_index_first :
        (xs : List A) (i : ℕ) (d : A)
        → i < length xs
        → p (get_or xs i d) ≡ true
        → ((j : ℕ) → j < i → p (get_or xs j d) ≡ false)
        → find_index p xs ≡ some i
    find_index_first [] i d q h before = absurd (omega arith)
    find_index_first (x ∷ xs) zero d q h before = ground arith
    find_index_first (x ∷ xs) (suc i) d q h before =
        rw (before 0 (omega arith))
          (rw (find_index_first xs i d (omega arith) h (λ j r. before (suc j) (omega arith))))

    pub find_index_absent :
        (xs : List A) (d : A)
        → ((j : ℕ) → j < length xs → p (get_or xs j d) ≡ false)
        → find_index p xs ≡ none
    find_index_absent [] d h = refl
    find_index_absent (x ∷ xs) d h =
        rw (h 0 (omega arith)) (rw (find_index_absent xs d (λ j r. h (suc j) (omega arith))))

    pub count-set :
        (xs : List A) (i : ℕ) (v d : A)
        → i < length xs
        → count p (set xs i v) + bit (p (get_or xs i d)) ≡ count p xs + bit (p v)
    count-set [] i v d q = absurd (omega arith)
    count-set (x ∷ xs) zero v d q = ground arith
    count-set (x ∷ xs) (suc i) v d q = ground (arith, count-set xs i v d (omega arith))

    pub count-le-length : (xs : List A) → count p xs ≤ length xs
    count-le-length [] = omega arith
    count-le-length (x ∷ xs) = ground (arith, count-le-length xs)

    pub count_pos :
        (xs : List A) (i : ℕ) (d : A) → i < length xs → p (get_or xs i d) ≡ true → 1 ≤ count p xs
    count_pos [] i d q h = absurd (omega arith)
    count_pos (x ∷ xs) zero d q h = ground arith
    count_pos (x ∷ xs) (suc i) d q h = ground (arith, count_pos xs i d (omega arith) h)

    pub find_index-set-false :
        (xs : List A) (i : ℕ) (v d : A)
        → p (get_or xs i d) ≡ false
        → p v ≡ false
        → find_index p (set xs i v) ≡ find_index p xs
    find_index-set-false [] i v d h e = refl
    find_index-set-false (x ∷ xs) zero v d h e = rw (h, e)
    find_index-set-false (x ∷ xs) (suc i) v d h e = rw (find_index-set-false xs i v d h e)

    pub find_index-set-true :
        (xs : List A) (i : ℕ) (v : A)
        → i < length xs
        → find_index p xs ≡ none
        → p v ≡ true
        → find_index p (set xs i v) ≡ some i
    find_index-set-true [] i v q h e = absurd (omega arith)
    find_index-set-true (x ∷ xs) zero v q h e = rw e
    find_index-set-true (x ∷ xs) (suc i) v q h e = elim (Bool-cases (p x)) [
      | inl t ↦ ground arith
      | inr f ↦ elim (Option-cases (find_index p xs)) [
        | inl n ↦ rw (f, find_index-set-true xs i v (omega arith) n e)
        | inr (k, s) ↦ ground arith
      ]
    ]
