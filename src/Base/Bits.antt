-- ===== src/Base/Bits.antt =====
-- Laws of the native bit operations that the parts use. The operations mean a recursion on binary
-- digits with fuel; each law is proved from the equation for the lowest digit.
use Prim.Native.Nat.{ℕ, zero, suc, ◌+◌, ◌*◌, ◌/◌, ◌%◌, ◌≤◌, min, max}
use Prim.Native.Nat.{bit_and, bit_or, digits, bitwise, bit_and-bitwise, bit_or-bitwise}
use mathlib.Core.Path.{◌≡◌, refl, ap, ◌∙◌}
use mathlib.Core.Bool.{true}
use native.Mathlib.Omega.{arith}
use retrofuture_os.Base.Tests.{has_flag}

-- `rest` is for the digits of the second number when the first has none left.
module _ (rest : ℕ → ℕ) (join : ℕ → ℕ → ℕ) where
  -- With fuel for every digit of the first number the amount of fuel does not matter.
  enough_fuel :
      (x y : ℕ) (big small : ℕ)
      → x ≤ small
      → x ≤ big
      → digits rest join big x y ≡ digits rest join small x y
  enough_fuel zero y zero zero s b = refl
  enough_fuel zero y (suc big) zero s b = refl
  enough_fuel zero y zero (suc small) s b = refl
  enough_fuel zero y (suc big) (suc small) s b = refl
  enough_fuel (suc x) y big zero s b = absurd (omega arith)
  enough_fuel (suc x) y zero (suc small) s b = absurd (omega arith)
  enough_fuel (suc x) y (suc big) (suc small) s b =
      ap (λ d. d * 2 + join (suc x % 2) (y % 2))
        (enough_fuel (suc x / 2) (y / 2) big small (omega arith) (omega arith))

  -- One digit at a time.
  lowest_digit :
      (x y : ℕ)
      → bitwise rest join (suc x) y
        ≡ bitwise rest join (suc x / 2) (y / 2) * 2 + join (suc x % 2) (y % 2)
  lowest_digit x y =
      ap (λ d. d * 2 + join (suc x % 2) (y % 2))
        (enough_fuel (suc x / 2) (y / 2) x (suc x / 2) (omega arith) (omega arith))

pub bit_and_step : (x y : ℕ) → bit_and x y ≡ bit_and (x / 2) (y / 2) * 2 + min (x % 2) (y % 2)
bit_and_step zero y = simp bit_and-bitwise (omega arith)
bit_and_step (suc x) y = simp bit_and-bitwise (lowest_digit (λ _. 0) min x y)

pub bit_or_step : (x y : ℕ) → bit_or x y ≡ bit_or (x / 2) (y / 2) * 2 + max (x % 2) (y % 2)
bit_or_step zero y = simp bit_or-bitwise (omega arith)
bit_or_step (suc x) y = simp bit_or-bitwise (lowest_digit (λ d. d) max x y)

-- Nothing in common with no digits; `k` bounds the number for the induction.
bit_and_nothing : (k x : ℕ) → x ≤ k → bit_and x 0 ≡ 0
bit_and_nothing zero x h = let e : x ≡ 0 = omega arith in rw e refl
bit_and_nothing (suc k) zero h = refl
bit_and_nothing (suc k) (suc x) h =
    let half = bit_and_nothing k (suc x / 2) (omega arith) in
    bit_and_step (suc x) 0 ∙ omega (arith, half)

pub bit_and-zero : (x : ℕ) → bit_and x 0 ≡ 0
bit_and-zero x = bit_and_nothing (x + 0) x (omega arith)

pub bit_and-one : (x : ℕ) → bit_and x 1 ≡ x % 2
bit_and-one x = let upper = bit_and-zero (x / 2) in bit_and_step x 1 ∙ omega (arith, upper)

-- A bit that was put in by `|` is found by `&`.
pub has_flag-or_one : (flags : ℕ) → has_flag (bit_or 1 flags) 1 ≡ true
has_flag-or_one flags = ground (arith, bit_and-one (bit_or 1 flags), bit_or_step 1 flags)
