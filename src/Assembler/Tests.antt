-- ===== src/Assembler/Tests.antt =====
-- The theorems on the assembler at concrete inputs, and runs of it on short sources.
use retrofuture_os.Base.{
  ◌%◌, ◌^◌, true, false, none, some, ◌≡◌, refl, List, [], ◌∷◌, ◌++◌, arith, map, sub32, Memory,
}
use retrofuture_os.Assembler.Text.{
  parse_number, parse_digits, digits_from, parse_char, strcasecmp_eq, hex_from,
}
use retrofuture_os.Assembler.Registers.{reg_eax}
use retrofuture_os.Assembler.Mnemonics.{inst_mov, inst_db, inst_jz, lookup_inst}
use retrofuture_os.Assembler.State.{
  State, Label, ok, init, find_label, search_labels, resolve_fixups,
}
use retrofuture_os.Assembler.Encode.{Operand, op_label, op_reg, op_imm, defined_label}
use retrofuture_os.Assembler.Operands.{no_operand}
use retrofuture_os.Assembler.Instruction.{emit_instruction}
use retrofuture_os.Assembler.Line.{parse_rest}
use retrofuture_os.Assembler.Emission.{Emits}
use retrofuture_os.Assembler.Bounds.{emit_instruction-Emits}
use retrofuture_os.Assembler.Numbers.{Digit, value, hex_char, x_char, parse_number-value}
use retrofuture_os.Assembler.Phase.{IsOutOfPhase, jcc-IsOutOfPhase}
use retrofuture_os.Assembler.Fixups.{resolve_fixups-LieBefore}
use retrofuture_os.Assembler.Endless.{parse_rest-none}

abbrev zeros : Memory
zeros = λ a. 0

abbrev start : State
start = init zeros 100

-- `mov eax, 5`
abbrev eax : Operand
eax = record no_operand { type = op_reg; reg = reg_eax; size = 4 }

abbrev five : Operand
five = record no_operand { type = op_imm; value = 5 }

emit_instruction-Emits_example : Emits start (emit_instruction inst_mov eax five start).1
emit_instruction-Emits_example = emit_instruction-Emits inst_mov eax five start

-- The label `x` with the address 7, known in pass 2.
abbrev x : Label
x = record { name = b'x' ∷ []; address = 7; defined = true; is_local = false }

abbrev to_x : Operand
to_x = record no_operand { type = op_label; label = b'x' ∷ [] }

abbrev first : State
first = record {
  output = zeros;
  output_size = 0;
  output_capacity = 100;
  org = 0;
  pc = 0;
  labels = [];
  fixups = [];
  current_scope = [];
  error = ok;
  error_line = 0;
  pass = 1;
  lines_processed = 0;
  instructions_emitted = 0;
}

abbrev second : State
second = record first { labels = x ∷ []; pass = 2 }

unknown : defined_label first (b'x' ∷ []) ≡ none
unfolding defined_label find_label search_labels
unknown = refl

known : defined_label second (b'x' ∷ []) ≡ some x
unfolding defined_label find_label search_labels strcasecmp_eq
known = refl

jcc-IsOutOfPhase_example : IsOutOfPhase first second 4 1 to_x
jcc-IsOutOfPhase_example =
    jcc-IsOutOfPhase first second 4 1 to_x x refl refl refl refl unknown known refl (omega arith)
      (omega arith) (omega arith) (omega arith)

-- `0X1fF` and `-0X1fF`
abbrev digits : List Digit
digits = (false, 15) ∷ (true, 15) ∷ []

parse_number-value_example :
    (parse_number (b'0' ∷ x_char true ∷ (map hex_char ((false, 1) ∷ digits) ++ []))
      ≡ some (value ((false, 1) ∷ digits) % 2 ^ 32, []))
    × (parse_number (b'-' ∷ b'0' ∷ x_char true ∷ (map hex_char ((false, 1) ∷ digits) ++ []))
        ≡ some (sub32 0 (value ((false, 1) ∷ digits) % 2 ^ 32), []))
parse_number-value_example =
    parse_number-value true (false, 1) digits [] (omega arith, (omega arith, (omega arith, refl)))
      refl

unclosed : parse_char (b'\'' ∷ b'a' ∷ b'b' ∷ b'\'' ∷ []) ≡ none
unfolding parse_char
unclosed = refl

parse_rest-none_example :
    parse_rest 1000 inst_db (32 ∷ [] ++ (b'\'' ∷ b'a' ∷ b'b' ∷ b'\'' ∷ [])) first ≡ none
parse_rest-none_example = parse_rest-none 1000 (32 ∷ []) b'a' b'b' (b'\'' ∷ []) first refl unclosed

-- A reference to `x` at the second byte.
abbrev waiting : State
waiting = record second {
  fixups = record { location = 1; label = b'x' ∷ []; size = 1; relative = true; base = 2 } ∷ [];
}

resolve_fixups-LieBefore_example : (resolve_fixups waiting).1.output 2 ≡ 0
resolve_fixups-LieBefore_example =
    resolve_fixups-LieBefore waiting 2 2 (omega arith, refl) (omega arith)

-- Runs.
hex_suffix : parse_number (b'1' ∷ b'0' ∷ b'h' ∷ []) ≡ some (16, [])
unfolding parse_number parse_digits digits_from hex_from
hex_suffix = refl

-- `0FFh` is read as the octal number 0.
zero_in_front : parse_number (b'0' ∷ b'F' ∷ b'F' ∷ b'h' ∷ []) ≡ some (0, b'F' ∷ b'F' ∷ b'h' ∷ [])
unfolding parse_number
zero_in_front = refl

jump : lookup_inst (b'j' ∷ b'e' ∷ []) ≡ inst_jz
unfolding lookup_inst strcasecmp_eq
jump = refl
