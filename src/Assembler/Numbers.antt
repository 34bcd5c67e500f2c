-- ===== src/Assembler/Numbers.antt =====
-- include/rfasm.h: the numbers that `rfasm_parse_number` reads after `0x`.
use retrofuture_os.Base.{
  ℕ, ◌+◌, ◌-◌, ◌*◌, ◌/◌, ◌%◌, ◌^◌, ◌<◌, Bool, true, false, not, ◌||◌, none, some, ◌≡◌, refl, sym,
  ap, ◌∙◌, List, [], ◌∷◌, ◌++◌, arith, length, ap₂, inl, inr, Bool-cases, ltb, ◌==◌, if◌then◌else◌,
  sub32, map,
}
use native.Mathlib.Nat.{mul-add-mod_self_left, div-add-mod, add-mul, mul_assoc, zero-mul, pow-succ'}
use retrofuture_os.Assembler.Text.{
  first_is, isxdigit, digit_of, digits_from, parse_digits, parse_number, is_h,
}

-- A digit of base 16 and whether it is a capital, where it is a letter.
abbrev pub Digit : Type 0
Digit = Bool × ℕ

abbrev pub hex_char : Digit → ℕ
hex_char (capital, d) =
    if ltb d 10 then d + b'0' else if capital then d - 10 + b'A' else d - 10 + b'a'

-- The `x` of the prefix.
abbrev pub x_char : Bool → ℕ
x_char true = b'X'
x_char false = b'x'

-- The number with these digits, the first the highest.
abbrev pub value : List Digit → ℕ
value [] = 0
value ((capital, d) ∷ ds) = d * 16 ^ length ds + value ds

abbrev pub AreDigits : List Digit → Type 0
AreDigits [] = ◌≡◌ {A = List Digit} [] []
AreDigits ((capital, d) ∷ ds) = (d < 16) × AreDigits ds

digit_of-hex_char : (capital : Bool) (d : ℕ) → d < 16 → digit_of 16 (hex_char (capital, d)) ≡ some d
digit_of-hex_char true d h = ground arith
digit_of-hex_char false d h = ground arith

digit_of-not : (c : ℕ) → isxdigit c ≡ false → digit_of 16 c ≡ none
digit_of-not c h = ground arith

digits_apart : (q m p r k : ℕ) → (k * q + m) * p + r ≡ k * (q * p) + (m * p + r)
digits_apart q m p r k = omega (arith, add-mul (k * q) m p, mul_assoc k q p)

step_mod : (w p r : ℕ) → (w % 2 ^ 32 * p + r) % 2 ^ 32 ≡ (w * p + r) % 2 ^ 32
step_mod w p r = sym (
    ap (λ x. (x * p + r) % 2 ^ 32) (sym (div-add-mod w (2 ^ 32)))
    ∙ ap (λ x. x % 2 ^ 32) (digits_apart (w / 2 ^ 32) (w % 2 ^ 32) p r (2 ^ 32))
    ∙ mul-add-mod_self_left (2 ^ 32) (w / 2 ^ 32 * p) (w % 2 ^ 32 * p + r))

next_value : (v d p r : ℕ) → (v * 16 + d) * p + r ≡ v * (16 * p) + (d * p + r)
next_value v d p r = omega (arith, add-mul (v * 16) d p, mul_assoc v 16 p)

digits_from-value :
    (ds : List Digit) (rest : List ℕ) (v : ℕ) (has_digits : Bool)
    → AreDigits ds
    → first_is isxdigit rest ≡ false
    → v < 2 ^ 32
    → digits_from 16 v has_digits (map hex_char ds ++ rest)
      ≡ ((v * 16 ^ length ds + value ds) % 2 ^ 32, not (length ds == 0) || has_digits, rest)
unfolding digits_from
digits_from-value [] [] v has_digits a stop q = ap (λ n. (n, has_digits, [])) (omega arith)
digits_from-value [] (c ∷ rest) v has_digits a stop q =
    rw (digits_from, digit_of-not c stop) (ap (λ n. (n, has_digits, c ∷ rest)) (omega arith))
digits_from-value ((capital, d) ∷ ds) rest v has_digits (h, a) stop q =
    rw (digits_from, digit_of-hex_char capital d h)
      (digits_from-value ds rest ((v * 16 + d) % 2 ^ 32) true a stop (omega arith)
        ∙ ap (λ n. (n, not (length ds == 0) || true, rest))
            (step_mod (v * 16 + d) (16 ^ length ds) (value ds)
              ∙ ap (λ n. n % 2 ^ 32) (next_value v d (16 ^ length ds) (value ds)))
        ∙ ap₂ (λ n b. (n, b, rest))
            (ap (λ x. (v * x + value ((capital, d) ∷ ds)) % 2 ^ 32)
              (sym (pow-succ' 16 (length ds))))
            (ground arith))

parse_digits-read :
    (negative : Bool) (start rest : List ℕ) (n : ℕ)
    → digits_from 16 0 false start ≡ (n, true, rest)
    → parse_digits negative 16 start ≡ some (if negative then sub32 0 n else n, rest)
unfolding parse_digits
parse_digits-read negative start rest n e = elim (Bool-cases (first_is is_h rest)) [
  | inl h ↦ rw (parse_digits, e) (rw h refl)
  | inr h ↦ rw (parse_digits, e) (rw h refl)
]

-- After an optional `-`, `0x` or `0X` and at least one digit of base 16, each letter small or capital,
-- with something that is no such digit behind them or the end, rfasm_parse_number gives the number
-- that the digits spell modulo 2 ^ 32, or its negative, and what stands behind the digits.
pub parse_number-value :
    (big : Bool) (d : Digit) (ds : List Digit) (rest : List ℕ)
    → AreDigits (d ∷ ds)
    → first_is isxdigit rest ≡ false
    → (parse_number (b'0' ∷ x_char big ∷ (map hex_char (d ∷ ds) ++ rest))
        ≡ some (value (d ∷ ds) % 2 ^ 32, rest))
      × (parse_number (b'-' ∷ b'0' ∷ x_char big ∷ (map hex_char (d ∷ ds) ++ rest))
          ≡ some (sub32 0 (value (d ∷ ds) % 2 ^ 32), rest))
unfolding parse_number
parse_number-value big d ds rest a stop = prefixed big
  where
    start : List ℕ
    start = map hex_char (d ∷ ds) ++ rest

    result : Bool → Type 0
    result b =
        (parse_number (b'0' ∷ x_char b ∷ start) ≡ some (value (d ∷ ds) % 2 ^ 32, rest))
        × (parse_number (b'-' ∷ b'0' ∷ x_char b ∷ start)
            ≡ some (sub32 0 (value (d ∷ ds) % 2 ^ 32), rest))

    read : digits_from 16 0 false start ≡ (value (d ∷ ds) % 2 ^ 32, true, rest)
    read =
        digits_from-value (d ∷ ds) rest 0 false a stop (omega arith)
        ∙ ap₂ (λ n b. (n, b, rest))
            (ap (λ x. x % 2 ^ 32) (omega (arith, zero-mul (16 ^ length (d ∷ ds))))) (ground arith)

    prefixed : (b : Bool) → result b
    prefixed true =
        (parse_digits-read false start rest _ read, parse_digits-read true start rest _ read)
    prefixed false =
        (parse_digits-read false start rest _ read, parse_digits-read true start rest _ read)
