-- ===== src/Assembler/Text.antt =====
-- include/rfasm.h: characters, numbers and identifiers. A C string is the list of its bytes before
-- the terminator. A parser returns what it read and what is left, or none where it fails; an
-- `int32_t` is its number of 32 bits.
use retrofuture_os.Base.{
  ℕ, zero, suc, ◌+◌, ◌-◌, ◌*◌, ◌%◌, ◌^◌, Bool, true, false, not, ◌&&◌, ◌||◌, Option, none, some,
  List, [], ◌∷◌, drop, ltb, leb, ◌==◌, if◌then◌else◌, sub32,
}

abbrev pub between : ℕ → ℕ → ℕ → Bool
between low high c = leb low c && leb c high

abbrev pub isspace : ℕ → Bool
isspace c = c == 32 || (c == 9 || (c == 10 || c == 13))

abbrev pub isdigit : ℕ → Bool
isdigit c = between b'0' b'9' c

abbrev pub isxdigit : ℕ → Bool
isxdigit c = isdigit c || (between b'a' b'f' c || between b'A' b'F' c)

abbrev pub isalpha : ℕ → Bool
isalpha c = between b'a' b'z' c || between b'A' b'Z' c

abbrev pub isalnum : ℕ → Bool
isalnum c = isalpha c || isdigit c

abbrev pub toupper : ℕ → ℕ
toupper c = if between b'a' b'z' c then c - 32 else c

abbrev pub tolower : ℕ → ℕ
tolower c = if between b'A' b'Z' c then c + 32 else c

-- `rfa_strcasecmp(a, b) == 0`
unfoldable pub strcasecmp_eq : List ℕ → List ℕ → Bool
strcasecmp_eq [] [] = true
strcasecmp_eq [] (d ∷ b) = false
strcasecmp_eq (c ∷ a) [] = false
strcasecmp_eq (c ∷ a) (d ∷ b) = toupper c == toupper d && strcasecmp_eq a b

-- `rfa_strncmp(s, prefix, n) == 0` with the length of the prefix as `n`
unfoldable pub starts_with : List ℕ → List ℕ → Bool
starts_with s [] = true
starts_with [] (q ∷ prefix) = false
starts_with (c ∷ s) (q ∷ prefix) = c == q && starts_with s prefix

unfoldable pub skip_ws : List ℕ → List ℕ
skip_ws [] = []
skip_ws (c ∷ s) = let rest = skip_ws s in if isspace c then rest else c ∷ s

-- A test of `*s`.
abbrev pub first_is : (ℕ → Bool) → List ℕ → Bool
first_is test [] = false
first_is test (c ∷ s) = test c

-- The sign, if there is one: `-` or not, and what is left.
abbrev pub take_sign : List ℕ → Bool × List ℕ
take_sign [] = (false, [])
take_sign (c ∷ s) =
    if c == b'-' then (true, s) else if c == b'+' then (false, s) else (false, c ∷ s)

-- The base and what is left, or what is left after a lone zero.
pub data Prefix : Type 0 where
  just_zero : List ℕ → Prefix
  in_base : ℕ → List ℕ → Prefix

abbrev pub after_zero : List ℕ → Prefix
after_zero s =
    if first_is (λ c. c == b'x' || c == b'X') s
    then in_base 16 (drop 1 s)
    else if first_is (λ c. c == b'b' || c == b'B') s
    then in_base 2 (drop 1 s)
    else if first_is isdigit s
    then in_base 8 s
    else just_zero s

abbrev pub take_base : List ℕ → Prefix
take_base s = if first_is (λ c. c == b'0') s then after_zero (drop 1 s) else in_base 10 s

-- A digit of base 10, and one of base 16.
abbrev pub hex_value : ℕ → Option ℕ
hex_value c =
    if isdigit c
    then some (c - b'0')
    else if between b'a' b'f' c
    then some (c - b'a' + 10)
    else if between b'A' b'F' c
    then some (c - b'A' + 10)
    else none

abbrev pub below : ℕ → Option ℕ → Option ℕ
below base none = none
below base (some d) = if ltb d base then some d else none

abbrev pub digit_of : ℕ → ℕ → Option ℕ
digit_of base c = below base (if isdigit c || base == 16 then hex_value c else none)

-- The loop over the digits, with the value and whether there was a digit.
unfoldable pub digits_from : ℕ → ℕ → Bool → List ℕ → ℕ × Bool × List ℕ
digits_from base val has_digits [] = (val, has_digits, [])
digits_from base val has_digits (c ∷ s) = elim (digit_of base c) [
  | none ↦ (val, has_digits, c ∷ s)
  | some d ↦ digits_from base ((val * base + d) % 2 ^ 32) true s
]

abbrev pub is_h : ℕ → Bool
is_h c = c == b'h' || c == b'H'

-- The loop that reads the digits again, in base 16, up to the `h`.
unfoldable pub hex_from : ℕ → List ℕ → ℕ × List ℕ
hex_from val [] = (val, [])
hex_from val (c ∷ s) = elim (if is_h c then none else hex_value c) [
  | none ↦ (val, if is_h c then s else c ∷ s)
  | some d ↦ hex_from ((val * 16 + d) % 2 ^ 32) s
]

unfoldable pub parse_digits : Bool → ℕ → List ℕ → Option (ℕ × List ℕ)
parse_digits negative base start =
    let (val, has_digits, s) = digits_from base 0 false start in
    let (val', s') =
      if first_is is_h s && (base == 10 && has_digits) then hex_from 0 start else (val, s) in
    if not has_digits then none else some (if negative then sub32 0 val' else val', s')

unfoldable pub parse_number : List ℕ → Option (ℕ × List ℕ)
parse_number p =
    let (negative, s) = take_sign p in
    elim (take_base s) [
      | just_zero rest ↦ some (0, rest)
      | in_base base start ↦ parse_digits negative base start
    ]

-- The character behind a backslash; `s` is not at its end.
abbrev pub escaped : ℕ → ℕ
escaped c =
    if c == b'n'
    then 10
    else if c == b'r'
    then 13
    else if c == b't'
    then 9
    else if c == b'0'
    then 0
    else c

-- What follows the closing quote.
abbrev pub close_quote : ℕ → List ℕ → Option (ℕ × List ℕ)
close_quote value [] = none
close_quote value (c ∷ s) = if c == b'\'' then some (value, s) else none

-- A `char` as an `int32_t`.
abbrev pub extend_char : ℕ → ℕ
extend_char c = if ltb c 128 then c else 2 ^ 32 - 256 + c

-- After the opening quote. Where the line ends right behind the quote or the backslash, the source
-- takes the terminator for the character and reads on behind the string, which need not fail; what
-- is there is not modelled, and the answer here, none, says nothing about it.
abbrev pub quoted : List ℕ → Option (ℕ × List ℕ)
quoted [] = none
quoted (c ∷ []) = none
quoted (c ∷ (d ∷ s)) =
    if c == b'\\'
    then close_quote (extend_char (escaped d)) s
    else close_quote (extend_char c) (d ∷ s)

unfoldable pub parse_char : List ℕ → Option (ℕ × List ℕ)
parse_char [] = none
parse_char (c ∷ s) = if c == b'\'' then quoted s else none

abbrev pub is_ident_char : ℕ → Bool
is_ident_char c = isalnum c || (c == b'_' || c == b'.')

-- The loop of `rfasm_parse_ident`, with room for `room` characters.
unfoldable pub ident_from : ℕ → List ℕ → List ℕ × List ℕ
ident_from zero s = ([], s)
ident_from (suc room) [] = ([], [])
ident_from (suc room) (c ∷ s) =
    let (buf, rest) = ident_from room s in if is_ident_char c then (c ∷ buf, rest) else ([], c ∷ s)

-- `max_len` is 2 at least.
unfoldable pub parse_ident : ℕ → List ℕ → Option (List ℕ × List ℕ)
parse_ident max_len s =
    if first_is (λ c. isalpha c || (c == b'_' || c == b'.')) s
    then some (ident_from (max_len - 1) s)
    else none
