-- ===== src/Assembler/Instruction.antt =====
-- include/rfasm.h: jumps, calls and loops, ports, data, and `rfasm_emit_instruction` itself.
use retrofuture_os.Base.{
  ℕ, Bool, true, false, not, ◌&&◌, Option, none, some, List, ◌==◌, if◌then◌else◌, add32, sub32,
}
use retrofuture_os.Assembler.Registers.{reg_dx, reg_size}
use retrofuture_os.Assembler.State.{
  State, Label, err_unknown_inst, err_out_of_range, emit_byte, emit_word, emit_dword, find_label,
  label_at, add_fixup, fits_byte,
}
use retrofuture_os.Assembler.Encode.{
  Operand, is_none, is_reg, is_imm, is_mem, is_label, emit_modrm_mem, emit_prefix, by_size,
  emit_alu, emit_jcc, defined_label, emit_near_label, distance,
}
use retrofuture_os.Assembler.Mnemonics.{
  Inst, inst_mov, inst_push, inst_pop, inst_lea, inst_xchg, inst_movzx, inst_movsb, inst_movsw,
  inst_movsd, inst_rep, inst_add, inst_sub, inst_inc, inst_dec, inst_neg, inst_mul, inst_imul,
  inst_div, inst_idiv, inst_cmp, inst_adc, inst_sbb, inst_and, inst_or, inst_xor, inst_not,
  inst_test, inst_shl, inst_shr, inst_sar, inst_rol, inst_ror, inst_jmp, inst_jz, inst_jnz, inst_jc,
  inst_jnc, inst_js, inst_jns, inst_jl, inst_jg, inst_jle, inst_jge, inst_ja, inst_jb, inst_jae,
  inst_jbe, inst_call, inst_ret, inst_loop, inst_loopz, inst_loopnz, inst_clc, inst_stc, inst_cli,
  inst_sti, inst_cld, inst_std, inst_pushf, inst_popf, inst_nop, inst_hlt, inst_int, inst_iret,
  inst_in, inst_out, inst_lgdt, inst_lidt, inst_db, inst_dw, inst_dd,
}
use retrofuture_os.Assembler.Operations.{
  emit_ext, emit_unary, emit_address, emit_mov, emit_push, emit_pop, emit_lea, emit_xchg,
  emit_movzx, emit_step, emit_test, emit_shift,
}

-- A jump or a call to what a register or memory holds.
unfoldable pub emit_indirect : ℕ → Operand → State → State
emit_indirect ext op1 state =
    if is_reg op1.type
    then emit_ext 0xFF ext op1 state
    else if is_mem op1.type
    then emit_modrm_mem ext op1 (emit_byte 0xFF state)
    else state

-- `Decide`: a jump of two bytes unless the label is defined and too far.
abbrev pub is_far : Option Label → State → Bool
is_far none state = false
is_far (some l) state = not (fits_byte (distance l.address 2 state))

-- The short jump to a label, behind its opcode.
unfoldable pub emit_short_label : List ℕ → State → Bool × State
emit_short_label label state =
    let hole = emit_byte 0 state in
    let filled : Bool × State = elim (defined_label state label) [
      | none ↦ (true, add_fixup label state.output_size 1 true hole.pc hole)
      | some l ↦
          let rel = distance l.address 1 state in
          if not (fits_byte rel)
          then (false, record state { error = err_out_of_range })
          else (true, emit_byte rel state)
    ] in
    if state.pass == 2 then filled else (true, hole)

unfoldable pub emit_jmp : Operand → State → Bool × State
emit_jmp op1 state =
    let rel = distance op1.value 2 state in
    if is_label op1.type
    then (if is_far (defined_label state op1.label) state
        then (true, emit_near_label op1.label (emit_byte 0xE9 state))
        else emit_short_label op1.label (emit_byte 0xEB state))
    else if is_imm op1.type
    then (
      true,
      (if fits_byte rel
          then emit_byte rel (emit_byte 0xEB state)
          else emit_dword (distance op1.value 4 (emit_byte 0xE9 state)) (emit_byte 0xE9 state)),
    )
    else (true, emit_indirect 4 op1 state)

unfoldable pub emit_call : Operand → State → State
emit_call op1 state =
    let s1 = emit_byte 0xE8 state in
    if is_label op1.type
    then emit_near_label op1.label s1
    else if is_imm op1.type
    then emit_dword (distance op1.value 4 s1) s1
    else emit_indirect 2 op1 state

unfoldable pub emit_ret : Operand → State → State
emit_ret op1 state =
    if is_imm op1.type && not (op1.value == 0)
    then emit_word op1.value (emit_byte 0xC2 state)
    else emit_byte 0xC3 state

-- The displacement of a loop, which is not tested against its bounds.
unfoldable pub emit_loop_label : Bool → List ℕ → State → State
emit_loop_label with_fixup label state =
    let hole = emit_byte 0 state in
    let filled : State = elim (find_label state label) [
      | none ↦
          if with_fixup
          then add_fixup label (sub32 hole.output_size 1) 1 true hole.pc hole
          else hole
      | some i ↦ emit_byte (distance (label_at state i).address 1 state) state
    ] in
    if state.pass == 2 then filled else hole

unfoldable pub emit_loop : Operand → State → State
emit_loop op1 state =
    if is_label op1.type then emit_loop_label true op1.label (emit_byte 0xE2 state) else state

-- LOOPZ and LOOPNZ from `loop_common` on.
unfoldable pub emit_loop_if : ℕ → Operand → State → State
emit_loop_if opcode op1 state =
    let s1 = emit_byte opcode state in
    if is_label op1.type then emit_loop_label false op1.label s1 else s1

unfoldable pub emit_in : Operand → Operand → State → State
emit_in op1 op2 state =
    let size = reg_size op1.reg in
    let s1 = emit_prefix size state in
    if is_reg op1.type && is_imm op2.type
    then emit_byte op2.value (emit_byte (by_size size 0xE4 0xE5) s1)
    else if is_reg op1.type && (is_reg op2.type && op2.reg == reg_dx)
    then emit_byte (by_size size 0xEC 0xED) s1
    else state

unfoldable pub emit_out : Operand → Operand → State → State
emit_out op1 op2 state =
    let size = reg_size op2.reg in
    let s1 = emit_prefix size state in
    if is_imm op1.type && is_reg op2.type
    then emit_byte op1.value (emit_byte (by_size size 0xE6 0xE7) s1)
    else if is_reg op1.type && (op1.reg == reg_dx && is_reg op2.type)
    then emit_byte (by_size size 0xEE 0xEF) s1
    else state

-- LGDT and LIDT.
unfoldable pub emit_table : ℕ → Operand → State → State
emit_table ext op1 state =
    if is_mem op1.type
    then emit_modrm_mem ext op1 (emit_byte 0x01 (emit_byte 0x0F state))
    else state

unfoldable pub emit_db : Operand → State → State
emit_db op1 state = if is_imm op1.type then emit_byte op1.value state else state

unfoldable pub emit_dw : Operand → State → State
emit_dw op1 state =
    if is_imm op1.type
    then emit_word op1.value state
    else if is_label op1.type
    then emit_address 2 op1.label state
    else state

unfoldable pub emit_dd : Operand → State → State
emit_dd op1 state =
    if is_imm op1.type
    then emit_dword op1.value state
    else if is_label op1.type
    then emit_address 4 op1.label state
    else state

-- The cases of the switch; none for `default`.
unfoldable pub emit_case : Inst → Operand → Operand → State → Option (Bool × State)
emit_case inst_mov op1 op2 s = some (true, emit_mov op1 op2 s)
emit_case inst_push op1 op2 s = some (true, emit_push op1 s)
emit_case inst_pop op1 op2 s = some (true, emit_pop op1 s)
emit_case inst_lea op1 op2 s = some (true, emit_lea op1 op2 s)
emit_case inst_xchg op1 op2 s = some (true, emit_xchg op1 op2 s)
emit_case inst_movzx op1 op2 s = some (true, emit_movzx op1 op2 s)
emit_case inst_movsw op1 op2 s = some (true, emit_byte 0xA5 (emit_byte 0x66 s))
emit_case inst_clc op1 op2 s = some (true, emit_byte 0xF8 s)
emit_case inst_stc op1 op2 s = some (true, emit_byte 0xF9 s)
emit_case inst_cli op1 op2 s = some (true, emit_byte 0xFA s)
emit_case inst_sti op1 op2 s = some (true, emit_byte 0xFB s)
emit_case inst_cld op1 op2 s = some (true, emit_byte 0xFC s)
emit_case inst_std op1 op2 s = some (true, emit_byte 0xFD s)
emit_case inst_pushf op1 op2 s = some (true, emit_byte 0x9C s)
emit_case inst_popf op1 op2 s = some (true, emit_byte 0x9D s)
emit_case inst_nop op1 op2 s = some (true, emit_byte 0x90 s)
emit_case inst_hlt op1 op2 s = some (true, emit_byte 0xF4 s)
emit_case inst_iret op1 op2 s = some (true, emit_byte 0xCF s)
emit_case inst_movsb op1 op2 s = some (true, emit_byte 0xA4 s)
emit_case inst_movsd op1 op2 s = some (true, emit_byte 0xA5 s)
emit_case inst_rep op1 op2 s = some (true, emit_byte 0xF3 s)
emit_case inst_add op1 op2 s = some (true, emit_alu 0x00 0 op1 op2 s)
emit_case inst_sub op1 op2 s = some (true, emit_alu 0x28 5 op1 op2 s)
emit_case inst_adc op1 op2 s = some (true, emit_alu 0x10 2 op1 op2 s)
emit_case inst_sbb op1 op2 s = some (true, emit_alu 0x18 3 op1 op2 s)
emit_case inst_cmp op1 op2 s = some (true, emit_alu 0x38 7 op1 op2 s)
emit_case inst_and op1 op2 s = some (true, emit_alu 0x20 4 op1 op2 s)
emit_case inst_or op1 op2 s = some (true, emit_alu 0x08 1 op1 op2 s)
emit_case inst_xor op1 op2 s = some (true, emit_alu 0x30 6 op1 op2 s)
emit_case inst_inc op1 op2 s = some (true, emit_step 0 0x40 op1 s)
emit_case inst_dec op1 op2 s = some (true, emit_step 1 0x48 op1 s)
emit_case inst_neg op1 op2 s = some (true, emit_unary 3 op1 s)
emit_case inst_mul op1 op2 s = some (true, emit_unary 4 op1 s)
emit_case inst_div op1 op2 s = some (true, emit_unary 6 op1 s)
emit_case inst_idiv op1 op2 s = some (true, emit_unary 7 op1 s)
emit_case inst_not op1 op2 s = some (true, emit_unary 2 op1 s)
emit_case inst_imul op1 op2 s = some (true, (if is_none op2.type then emit_unary 5 op1 s else s))
emit_case inst_test op1 op2 s = some (true, emit_test op1 op2 s)
emit_case inst_shl op1 op2 s = some (true, emit_shift 4 op1 op2 s)
emit_case inst_shr op1 op2 s = some (true, emit_shift 5 op1 op2 s)
emit_case inst_sar op1 op2 s = some (true, emit_shift 7 op1 op2 s)
emit_case inst_rol op1 op2 s = some (true, emit_shift 0 op1 op2 s)
emit_case inst_ror op1 op2 s = some (true, emit_shift 1 op1 op2 s)
emit_case inst_jmp op1 op2 s = some (emit_jmp op1 s)
emit_case inst_jz op1 op2 s = some (true, emit_jcc 0x4 op1 s)
emit_case inst_jnz op1 op2 s = some (true, emit_jcc 0x5 op1 s)
emit_case inst_jc op1 op2 s = some (true, emit_jcc 0x2 op1 s)
emit_case inst_jb op1 op2 s = some (true, emit_jcc 0x2 op1 s)
emit_case inst_jnc op1 op2 s = some (true, emit_jcc 0x3 op1 s)
emit_case inst_jae op1 op2 s = some (true, emit_jcc 0x3 op1 s)
emit_case inst_js op1 op2 s = some (true, emit_jcc 0x8 op1 s)
emit_case inst_jns op1 op2 s = some (true, emit_jcc 0x9 op1 s)
emit_case inst_jl op1 op2 s = some (true, emit_jcc 0xC op1 s)
emit_case inst_jg op1 op2 s = some (true, emit_jcc 0xF op1 s)
emit_case inst_jle op1 op2 s = some (true, emit_jcc 0xE op1 s)
emit_case inst_jge op1 op2 s = some (true, emit_jcc 0xD op1 s)
emit_case inst_ja op1 op2 s = some (true, emit_jcc 0x7 op1 s)
emit_case inst_jbe op1 op2 s = some (true, emit_jcc 0x6 op1 s)
emit_case inst_call op1 op2 s = some (true, emit_call op1 s)
emit_case inst_ret op1 op2 s = some (true, emit_ret op1 s)
emit_case inst_loop op1 op2 s = some (true, emit_loop op1 s)
emit_case inst_loopz op1 op2 s = some (true, emit_loop_if 0xE1 op1 s)
emit_case inst_loopnz op1 op2 s = some (true, emit_loop_if 0xE0 op1 s)
emit_case inst_int op1 op2 s = some (true, emit_byte op1.value (emit_byte 0xCD s))
emit_case inst_in op1 op2 s = some (true, emit_in op1 op2 s)
emit_case inst_out op1 op2 s = some (true, emit_out op1 op2 s)
emit_case inst_lgdt op1 op2 s = some (true, emit_table 2 op1 s)
emit_case inst_lidt op1 op2 s = some (true, emit_table 3 op1 s)
emit_case inst_db op1 op2 s = some (true, emit_db op1 s)
emit_case inst_dw op1 op2 s = some (true, emit_dw op1 s)
emit_case inst_dd op1 op2 s = some (true, emit_dd op1 s)
emit_case inst op1 op2 s = none

unfoldable pub emit_instruction : Inst → Operand → Operand → State → Bool × State
emit_instruction inst op1 op2 state =
    let s1 = record state { instructions_emitted = add32 state.instructions_emitted 1 } in
    elim (emit_case inst op1 op2 s1) [
      | none ↦ (false, record s1 { error = err_unknown_inst })
      | some r ↦ r
    ]
