-- ===== src/Assembler/Operands.antt =====
-- include/rfasm.h: operands, `rfasm_parse_operand`. A parser gives the operand, what is left of
-- the line and the error that it sets; the position in the line is kept where it fails.
use retrofuture_os.Base.{
  ℕ, zero, suc, ◌%◌, Bool, true, false, not, ◌||◌, Option, none, some, List, [], ◌∷◌, drop, length,
  ◌==◌, if◌then◌else◌, add32, sub32,
}
use retrofuture_os.Assembler.Text.{
  isdigit, first_is, skip_ws, starts_with, parse_number, parse_char, parse_ident,
}
use retrofuture_os.Assembler.Registers.{reg_none, lookup_reg}
use retrofuture_os.Assembler.State.{State, max_label_len}
use retrofuture_os.Assembler.Encode.{Operand, op_none, op_reg, op_imm, op_mem, op_label}

abbrev pub no_operand : Operand
no_operand = record {
  type = op_none;
  reg = reg_none;
  index = reg_none;
  scale = 1;
  value = 0;
  label = [];
  size = 0;
  indirect = false;
}

-- `Check for size override`: the size and what is left.
unfoldable pub take_size : List ℕ → ℕ × List ℕ
take_size s =
    if starts_with s (b'B' ∷ b'Y' ∷ b'T' ∷ b'E' ∷ [])
      || starts_with s (b'b' ∷ b'y' ∷ b't' ∷ b'e' ∷ [])
    then (1, skip_ws (drop 4 s))
    else if starts_with s (b'W' ∷ b'O' ∷ b'R' ∷ b'D' ∷ [])
        || starts_with s (b'w' ∷ b'o' ∷ b'r' ∷ b'd' ∷ [])
    then (2, skip_ws (drop 4 s))
    else if starts_with s (b'D' ∷ b'W' ∷ b'O' ∷ b'R' ∷ b'D' ∷ [])
        || starts_with s (b'd' ∷ b'w' ∷ b'o' ∷ b'r' ∷ b'd' ∷ [])
    then (4, skip_ws (drop 5 s))
    else (0, s)

-- `Skip optional PTR`
unfoldable pub skip_ptr : List ℕ → List ℕ
skip_ptr s =
    if starts_with s (b'P' ∷ b'T' ∷ b'R' ∷ []) || starts_with s (b'p' ∷ b't' ∷ b'r' ∷ [])
    then skip_ws (drop 3 s)
    else s

-- A test of `*s` against one character.
abbrev pub first_char : ℕ → List ℕ → Bool
first_char c s = first_is (λ d. d == c) s

abbrev pub starts_number : List ℕ → Bool
starts_number s = first_is (λ c. isdigit c || (c == b'-' || c == b'+')) s

-- What a memory expression names first: a register, a label, a number or nothing; none on error.
unfoldable pub parse_base : List ℕ → Operand → Option (Operand × List ℕ)
parse_base s op = elim (parse_ident 32 s) [
  | some (ident, rest) ↦
      let reg = (lookup_reg ident).0 in
      if not (reg == reg_none)
      then some (record op { reg = reg }, rest)
      else some (record op { label = ident }, rest)
  | none ↦
      let number = elim (parse_number s) as (λ o. Option (Operand × List ℕ)) [
        | none ↦ none
        | some (value, rest) ↦ some (record op { value = value }, rest)
      ] in
      if starts_number s then number else some (op, s)
]

-- `Check for *scale`
unfoldable pub parse_scale : List ℕ → Operand → Operand × List ℕ
parse_scale s op =
    let after = skip_ws (drop 1 s) in
    let scaled = elim (parse_number after) as (λ o. Operand × List ℕ) [
      | none ↦ (op, after)
      | some (scale, rest) ↦ (record op { scale = scale % 256 }, rest)
    ] in
    if first_char b'*' s then scaled else (op, s)

-- The body of the loop behind a `+` or a `-`.
unfoldable pub parse_term : Bool → List ℕ → Operand → Operand × List ℕ
parse_term is_sub s op = elim (parse_ident 32 s) [
  | some (ident, rest) ↦
      let reg = (lookup_reg ident).0 in
      if not (reg == reg_none)
      then parse_scale (skip_ws rest)
          (if op.reg == reg_none then record op { reg = reg } else record op { index = reg })
      else (record op { label = ident }, rest)
  | none ↦ elim (parse_number s) [
    | none ↦ (op, s)
    | some (disp, rest) ↦
        (record op { value = if is_sub then sub32 op.value disp else add32 op.value disp }, rest)
  ]
]

-- The loop over the terms; a round takes a character at least, so the length is fuel enough.
unfoldable pub parse_terms : ℕ → List ℕ → Operand → Operand × List ℕ
parse_terms zero s op = (op, s)
parse_terms (suc fuel) s op =
    let (op', rest) = parse_term (first_char b'-' s) (skip_ws (drop 1 s)) op in
    let more = parse_terms fuel (skip_ws rest) op' in
    if first_char b'+' s || first_char b'-' s then more else (op, s)

-- `Memory operand: [expr]`, behind the bracket; none on a syntax error.
unfoldable pub parse_memory : List ℕ → Operand → Option (Operand × List ℕ)
parse_memory s op = elim (parse_base s (record op { type = op_mem; indirect = true })) [
  | none ↦ none
  | some (op1, rest) ↦
      let (op2, left) = parse_terms (length rest) (skip_ws rest) op1 in
      if first_char b']' left then some (op2, drop 1 left) else none
]

-- What the parser of an operand finds: an operand, no operand, or a syntax error.
pub data Parsed : Type 0 where
  parsed : Operand → List ℕ → Parsed
  missing : Parsed
  malformed : Parsed

-- An immediate value from one of the parsers.
abbrev pub immediate : Operand → Option (ℕ × List ℕ) → Parsed
immediate op none = malformed
immediate op (some (value, rest)) = parsed (record op { type = op_imm; value = value }) rest

abbrev pub memory_operand : Option (Operand × List ℕ) → Parsed
memory_operand none = malformed
memory_operand (some (op, rest)) = parsed op rest

-- `$` and `$-$$`
abbrev pub here : State → List ℕ → Operand → Parsed
here state s op =
    if starts_with s (b'-' ∷ b'$' ∷ b'$' ∷ [])
    then parsed (record op { type = op_imm; value = sub32 state.pc state.org }) (drop 3 s)
    else parsed (record op { type = op_imm; value = state.pc }) s

-- The operand behind its size and `PTR`.
unfoldable pub parse_plain : State → List ℕ → Operand → Parsed
parse_plain state s op = elim (parse_ident max_label_len s) [
  | some (ident, rest) ↦
      let (reg, size, _) = lookup_reg ident in
      if not (reg == reg_none)
      then parsed
          (record op { type = op_reg; reg = reg; size = if op.size == 0 then size else op.size })
          rest
      else parsed (record op { type = op_label; label = ident }) rest
  | none ↦
      if starts_number s
      then immediate op (parse_number s)
      else if first_char b'$' s
      then here state (drop 1 s) op
      else missing
]

unfoldable pub parse_operand : State → List ℕ → Parsed
parse_operand state p =
    let (size, s1) = take_size (skip_ws p) in
    let s = skip_ptr s1 in
    let op = record no_operand { size = size } in
    if first_char b'[' s
    then memory_operand (parse_memory (skip_ws (drop 1 s)) op)
    else if first_char b'\'' s
    then immediate op (parse_char s)
    else parse_plain state s op
