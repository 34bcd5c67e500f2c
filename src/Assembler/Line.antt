-- ===== src/Assembler/Line.antt =====
-- include/rfasm.h: a line of source text, `rfasm_parse_line`. The list of values of `DB`, `DW` and
-- `DD` is read in rounds on fuel: none where the fuel does not suffice, as for a loop that does
-- not end. Where the source reads on behind the end of a line, the line ends here.
use retrofuture_os.Base.{
  ℕ, zero, suc, ◌-◌, ◌^◌, Bool, true, false, not, Option, none, some, List, [], ◌∷◌, ◌++◌, take,
  drop, length, ltb, ◌==◌, if◌then◌else◌, add32, sub32,
}
use retrofuture_os.Assembler.Text.{
  isalpha, is_ident_char, skip_ws, starts_with, parse_number, parse_char, escaped,
}
use retrofuture_os.Assembler.Mnemonics.{
  Inst, inst_none, inst_db, inst_dw, inst_dd, inst_nop, inst_org, inst_equ, inst_times, lookup_inst,
}
use retrofuture_os.Assembler.State.{
  State, Error, ok, err_syntax, err_unknown_inst, err_invalid_operand, emit_byte, add_label,
  is_local_name, max_label_len,
}
use retrofuture_os.Assembler.Encode.{Operand, op_none}
use retrofuture_os.Assembler.Operands.{
  parsed, missing, malformed, parse_operand, first_char, starts_number,
}
use retrofuture_os.Assembler.Instruction.{emit_instruction}

-- `*p == '\0' || *p == ';'`
abbrev pub is_over : List ℕ → Bool
is_over [] = true
is_over (c ∷ s) = c == b';'

-- The characters in front that pass the test, `room` at most, and what is left.
unfoldable pub span : (ℕ → Bool) → ℕ → List ℕ → List ℕ × List ℕ
span test zero s = ([], s)
span test (suc room) [] = ([], [])
span test (suc room) (c ∷ s) =
    let (front, rest) = span test room s in if test c then (c ∷ front, rest) else ([], c ∷ s)

abbrev pub set_error : Error → State → State
set_error err state = record state { error = err }

-- `Found a label`. The full name of a local label goes without a bound into 64 bytes of the stack, and
-- a scope into the 32 bytes of current_scope; here a name may have any length.
unfoldable pub define_label : List ℕ → State → Bool × State
define_label label state =
    let name = take (max_label_len - 1) label in
    add_label state (if is_local_name name then state.current_scope ++ name else name) state.pc

-- `$` or `$-$$`, behind the first `$`.
abbrev pub dollar : State → List ℕ → ℕ × List ℕ
dollar state s =
    if starts_with s (b'-' ∷ b'$' ∷ b'$' ∷ [])
    then (sub32 state.pc state.org, drop 3 s)
    else (state.pc, s)

-- `Parse second operand`
unfoldable pub second_operand : State → List ℕ → ℕ × List ℕ
second_operand state s =
    let (inner, rest) = dollar state (drop 2 s) in
    let number = elim (parse_number s) as (λ o. ℕ × List ℕ) [ none ↦ (0, s) | some r ↦ r ] in
    if starts_with s (b'(' ∷ b'$' ∷ [])
    then (inner, if first_char b')' rest then drop 1 rest else rest)
    else if first_char b'$' s
    then dollar state (drop 1 s)
    else number

-- The count of `TIMES`; none on a syntax error.
unfoldable pub times_count : State → List ℕ → Option (ℕ × List ℕ)
times_count state p = elim (parse_number p) [
  | none ↦ elim (parse_operand state p) [
    | parsed op rest ↦ some (op.value, rest)
    | missing ↦ none
    | malformed ↦ none
  ]
  | some (count, rest) ↦
      let s = skip_ws rest in
      let (operand2, left) = second_operand state (skip_ws (drop 1 s)) in
      if first_char b'-' s
      then some (sub32 count operand2, left)
      else if first_char b'+' s
      then some (add32 count operand2, left)
      else some (count, s)
]

unfoldable pub emit_times : ℕ → ℕ → State → State
emit_times zero b state = state
emit_times (suc n) b state = emit_times n b (emit_byte b state)

-- The rounds of `for (int i = 0; i < count; i++)`: none for a negative count.
abbrev pub rounds : ℕ → ℕ
rounds count = if ltb count (2 ^ 31) then count else 0

unfoldable pub parse_times : State → List ℕ → Bool × State
parse_times state p = elim (times_count state p) [
  | none ↦ (false, set_error err_syntax state)
  | some (count, left) ↦
      let (sub_mnemonic, rest) = span isalpha 15 (skip_ws left) in
      elim (lookup_inst sub_mnemonic) [
        | inst_db ↦ elim (parse_number (skip_ws rest)) [
          | none ↦ (false, set_error err_syntax state)
          | some (byte_val, _) ↦ (true, emit_times (rounds count) byte_val state)
        ]
        | inst_nop ↦ (true, emit_times (rounds count) 0x90 state)
        | _ ↦ (true, state)
      ]
]

-- A string behind its opening quote: the state and what is left behind the closing quote.
unfoldable pub emit_string : List ℕ → State → State × List ℕ
emit_string [] state = (state, [])
emit_string (c ∷ []) state =
    if c == b'"'
    then (state, [])
    else if c == b'\\'
    then (emit_byte 0 state, [])
    else (emit_byte c state, [])
emit_string (c ∷ (d ∷ s)) state =
    let literal = emit_string s (emit_byte (escaped d) state) in
    let plain = emit_string (d ∷ s) (emit_byte c state) in
    if c == b'"' then (state, d ∷ s) else if c == b'\\' then literal else plain

-- A character or a number of `DB`, which is passed over where it cannot be read.
abbrev pub emit_parsed : Option (ℕ × List ℕ) → List ℕ → State → State × List ℕ
emit_parsed none s state = (state, s)
emit_parsed (some (value, rest)) s state = (emit_byte value state, rest)

-- `if (*p == ',') p++;` behind white space
abbrev pub skip_comma : List ℕ → List ℕ
skip_comma s = let left = skip_ws s in if first_char b',' left then drop 1 left else left

-- The value in front of the list; none where the source leaves the loop.
unfoldable pub emit_item : List ℕ → State → Option (State × List ℕ)
emit_item s state =
    if first_char b'"' s
    then some (emit_string (drop 1 s) state)
    else if first_char b'\'' s
    then some (emit_parsed (parse_char s) s state)
    else if starts_number s
    then some (emit_parsed (parse_number s) s state)
    else none

unfoldable pub emit_bytes : ℕ → List ℕ → State → Option State
emit_bytes zero s state = none
emit_bytes (suc fuel) s state =
    if is_over s then some state else elim (emit_item (skip_ws s) state) [
      | none ↦ some state
      | some (state', rest) ↦ emit_bytes fuel (skip_comma rest) state'
    ]

abbrev pub blank : Operand
blank = record {
  type = op_none;
  reg = 0;
  index = 0;
  scale = 0;
  value = 0;
  label = [];
  size = 0;
  indirect = false;
}

-- The loop for `DW` and `DD`.
unfoldable pub emit_values : ℕ → Inst → List ℕ → State → Option State
emit_values zero inst s state = none
emit_values (suc fuel) inst s state =
    if is_over s then some state else elim (parse_operand state s) [
      | missing ↦ some state
      | malformed ↦ some (set_error err_syntax state)
      | parsed op rest ↦
          emit_values fuel inst (skip_comma rest) (emit_instruction inst op blank state).1
    ]

-- `state->error` for an operand that cannot be read.
abbrev pub operand_error : State → State
operand_error state = elim state.error [ ok ↦ set_error err_invalid_operand state | _ ↦ state ]

-- `Parse operands`, the second one behind a comma.
unfoldable pub emit_second : Inst → Operand → List ℕ → State → Bool × State
emit_second inst op1 s state =
    let two = elim (parse_operand state (skip_ws (drop 1 s))) as (λ r. Bool × State) [
      | parsed op2 rest ↦ emit_instruction inst op1 op2 state
      | missing ↦ (false, operand_error state)
      | malformed ↦ (false, set_error err_syntax state)
    ] in
    if first_char b',' s then two else emit_instruction inst op1 blank state

unfoldable pub emit_operands : Inst → List ℕ → State → Bool × State
emit_operands inst s state =
    let some_operand = elim (parse_operand state s) as (λ r. Bool × State) [
      | parsed op1 rest ↦ emit_second inst op1 (skip_ws rest) state
      | missing ↦ (false, operand_error state)
      | malformed ↦ (false, set_error err_syntax state)
    ] in
    if is_over s then emit_instruction inst blank blank state else some_operand

unfoldable pub parse_org : State → List ℕ → Bool × State
parse_org state s = elim (parse_number (skip_ws s)) [
  | none ↦ (false, set_error err_syntax state)
  | some (org_val, _) ↦ (true, record state { org = org_val; pc = org_val })
]

abbrev pub done : Option State → Option (Bool × State)
done none = none
done (some state) = some (true, state)

-- The line behind its mnemonic.
unfoldable pub parse_rest : ℕ → Inst → List ℕ → State → Option (Bool × State)
parse_rest fuel inst_org s state = some (parse_org state s)
parse_rest fuel inst_equ s state = some (false, set_error err_syntax state)
parse_rest fuel inst_times s state = some (parse_times state (skip_ws s))
parse_rest fuel inst_db s state = done (emit_bytes fuel (skip_ws s) state)
parse_rest fuel inst_dw s state = done (emit_values fuel inst_dw (skip_ws s) state)
parse_rest fuel inst_dd s state = done (emit_values fuel inst_dd (skip_ws s) state)
parse_rest fuel inst_none s state = some (false, set_error err_unknown_inst state)
parse_rest fuel inst s state = some (emit_operands inst (skip_ws s) state)

-- `Parse mnemonic`
unfoldable pub parse_statement : ℕ → List ℕ → State → Option (Bool × State)
parse_statement fuel p state =
    let (mnemonic, rest) = span isalpha 15 p in
    if length mnemonic == 0
    then some (false, set_error err_syntax state)
    else parse_rest fuel (lookup_inst mnemonic) rest state

unfoldable pub parse_line : ℕ → List ℕ → State → Option (Bool × State)
parse_line fuel line state =
    let p = skip_ws line in
    let (label, after) = span is_ident_char (length p) p in
    let (defined, state') = define_label label state in
    let left = skip_ws (drop 1 after) in
    if is_over p
    then some (true, state)
    else if not (first_char b':' after)
    then parse_statement fuel p state
    else if not defined
    then some (false, state')
    else if is_over left
    then some (true, state')
    else parse_statement fuel left state'
