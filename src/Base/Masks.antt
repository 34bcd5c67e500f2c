-- ===== src/Base/Masks.antt =====
-- Numbers cut at a binary digit: what the mask operations take out, and how they join parts.
use Prim.Native.Nat.{ℕ, zero, suc, ◌+◌, ◌-◌, ◌*◌, ◌/◌, ◌%◌, ◌≤◌, ◌<◌, bit_and, bit_or}
use mathlib.Core.Path.{◌≡◌, refl, sym, subst, ◌∙◌}
use native.Mathlib.Omega.{arith}
use retrofuture_os.Base.Bits.{bit_and_step, bit_or_step, bit_and-zero}

-- `q` moved up by `k` binary digits, and the `k` lowest digits.
unfoldable pub shift : ℕ → ℕ → ℕ
shift zero q = q
shift (suc k) q = shift k q * 2

pub bit_and-low : (k q r : ℕ) → r < shift k 1 → bit_and (shift k q + r) (shift k 1 - 1) ≡ r
unfolding shift
bit_and-low zero q r h = let e = bit_and-zero (q + r) in omega (arith, e)
bit_and-low (suc k) q r h =
    let half : (shift k q * 2 + r) / 2 ≡ shift k q + r / 2 = omega arith in
    let half' : (shift k 1 * 2 - 1) / 2 ≡ shift k 1 - 1 = omega arith in
    let step = bit_and_step (shift k q * 2 + r) (shift k 1 * 2 - 1) in
    let rec = bit_and-low k q (r / 2) (omega arith) in step ∙ rw (half, half', rec) (omega arith)

pub bit_and-high :
    (k q r m : ℕ) → r < shift k 1 → bit_and (shift k q + r) (shift k m) ≡ shift k (bit_and q m)
unfolding shift
bit_and-high zero q r m h = let e : q + r ≡ q = omega arith in rw e refl
bit_and-high (suc k) q r m h =
    let half : (shift k q * 2 + r) / 2 ≡ shift k q + r / 2 = omega arith in
    let half' : (shift k m * 2) / 2 ≡ shift k m = omega arith in
    let step = bit_and_step (shift k q * 2 + r) (shift k m * 2) in
    let rec = bit_and-high k q (r / 2) m (omega arith) in step ∙ rw (half, half', rec) (omega arith)

nothing_or : (k x : ℕ) → x ≤ k → bit_or 0 x ≡ x
nothing_or zero x h = let e : x ≡ 0 = omega arith in rw e refl
nothing_or (suc k) zero h = refl
nothing_or (suc k) (suc x) h =
    let half = nothing_or k (suc x / 2) (omega arith) in bit_or_step 0 (suc x) ∙ omega (arith, half)

pub bit_or-join : (k q r : ℕ) → r < shift k 1 → bit_or r (shift k q) ≡ r + shift k q
unfolding shift
bit_or-join zero q r h =
    let e : r ≡ 0 = omega arith in rw e (nothing_or q q (omega arith) ∙ omega arith)
bit_or-join (suc k) q r h =
    let half : (shift k q * 2) / 2 ≡ shift k q = omega arith in
    let step = bit_or_step r (shift k q * 2) in
    let rec = bit_or-join k q (r / 2) (omega arith) in step ∙ rw (half, rec) (omega arith)

or_nothing : (k x : ℕ) → x ≤ k → bit_or x 0 ≡ x
or_nothing zero x h = let e : x ≡ 0 = omega arith in rw e refl
or_nothing (suc k) zero h = refl
or_nothing (suc k) (suc x) h =
    let half = or_nothing k (suc x / 2) (omega arith) in bit_or_step (suc x) 0 ∙ omega (arith, half)

pub bit_or-join' : (k q r : ℕ) → r < shift k 1 → bit_or (shift k q) r ≡ r + shift k q
unfolding shift
bit_or-join' zero q r h =
    let e : r ≡ 0 = omega arith in rw e (or_nothing q q (omega arith) ∙ omega arith)
bit_or-join' (suc k) q r h =
    let half : (shift k q * 2) / 2 ≡ shift k q = omega arith in
    let step = bit_or_step (shift k q * 2) r in
    let rec = bit_or-join' k q (r / 2) (omega arith) in step ∙ rw (half, rec) (omega arith)

-- The masks of a byte and a half.
pub bit_and-0x000F : (x : ℕ) → bit_and x 0x000F ≡ x % 16
unfolding shift
bit_and-0x000F x =
    let split : x ≡ shift 4 (x / 16) + x % 16 = omega arith in
    subst (λ y. bit_and y 0x000F ≡ x % 16) (sym split)
      (bit_and-low 4 (x / 16) (x % 16) (omega arith))

pub bit_and-0x0FFF : (x : ℕ) → bit_and x 0x0FFF ≡ x % 4096
unfolding shift
bit_and-0x0FFF x =
    let split : x ≡ shift 12 (x / 4096) + x % 4096 = omega arith in
    subst (λ y. bit_and y 0x0FFF ≡ x % 4096) (sym split)
      (bit_and-low 12 (x / 4096) (x % 4096) (omega arith))

pub bit_and-0xF000 : (x : ℕ) → x < 65536 → bit_and x 0xF000 ≡ x / 4096 * 4096
unfolding shift
bit_and-0xF000 x h =
    let split : x ≡ shift 12 (x / 4096) + x % 4096 = omega arith in
    let top : bit_and (x / 4096) 15 ≡ x / 4096 = bit_and-0x000F (x / 4096) ∙ omega arith in
    subst (λ y. bit_and y 0xF000 ≡ x / 4096 * 4096) (sym split)
      (bit_and-high 12 (x / 4096) (x % 4096) 15 (omega arith) ∙ rw top (omega arith))

pub bit_or_above_4 : (r q : ℕ) → r < 16 → bit_or r (q * 16) ≡ r + q * 16
unfolding shift
bit_or_above_4 r q h =
    let moved : q * 16 ≡ shift 4 q = omega arith in rw moved (bit_or-join 4 q r (omega arith))

pub bit_or_below_12 : (q r : ℕ) → r < 4096 → bit_or (q * 4096) r ≡ q * 4096 + r
unfolding shift
bit_or_below_12 q r h =
    let moved : q * 4096 ≡ shift 12 q = omega arith in
    rw moved (bit_or-join' 12 q r (omega arith) ∙ omega arith)

pub bit_or_above_8 : (r q : ℕ) → r < 256 → bit_or r (q * 256) ≡ r + q * 256
unfolding shift
bit_or_above_8 r q h =
    let moved : q * 256 ≡ shift 8 q = omega arith in rw moved (bit_or-join 8 q r (omega arith))
