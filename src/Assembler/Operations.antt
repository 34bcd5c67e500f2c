-- ===== src/Assembler/Operations.antt =====
-- include/rfasm.h: the bytes of each instruction, `rfasm_emit_instruction`. An operand that the
-- source does not look at, NULL for `DW` and `DD`, is any operand.
use retrofuture_os.Base.{
  ℕ, ◌+◌, Bool, false, not, ◌&&◌, ◌||◌, none, some, List, ◌==◌, if◌then◌else◌,
}
use retrofuture_os.Assembler.Registers.{reg_eax, reg_ax, reg_al, reg_cl, reg_encoding, reg_size}
use retrofuture_os.Assembler.State.{State, emit_byte, emit_word, emit_dword, add_fixup, fits_byte}
use retrofuture_os.Assembler.Encode.{
  Operand, is_reg, is_imm, is_mem, is_label, modrm, emit_modrm_mem, emit_prefix, emit_value,
  by_size, defined_label,
}

-- The size of an operand, and of its register where it does not say.
abbrev pub size_of : Operand → ℕ
size_of op = if not (op.size == 0) then op.size else reg_size op.reg

abbrev pub size_or : ℕ → Operand → ℕ
size_or default op = if not (op.size == 0) then op.size else default

-- An opcode and a register operand in ModR/M, `/ext`.
unfoldable pub emit_ext : ℕ → ℕ → Operand → State → State
emit_ext opcode ext op state =
    emit_byte (modrm 3 ext (reg_encoding op.reg)) (emit_byte opcode state)

-- `Operand size prefix`, an opcode for the size and the register: NEG, MUL, IMUL, DIV, IDIV, NOT.
unfoldable pub emit_unary : ℕ → Operand → State → State
emit_unary ext op state =
    let size = reg_size op.reg in
    if is_reg op.type
    then emit_ext (by_size size 0xF6 0xF7) ext op (emit_prefix size state)
    else state

-- A label as a value of `size` bytes, 2 or 4: in pass 2 its address, or a fixup.
unfoldable pub emit_address : ℕ → List ℕ → State → State
emit_address size label state =
    let hole = if size == 2 then emit_word 0 state else emit_dword 0 state in
    let filled : State = elim (defined_label state label) [
      | none ↦ add_fixup label state.output_size size false 0 hole
      | some l ↦ if size == 2 then emit_word l.address state else emit_dword l.address state
    ] in
    if state.pass == 2 then filled else hole

unfoldable pub emit_mov : Operand → Operand → State → State
emit_mov op1 op2 state =
    if is_reg op1.type && is_imm op2.type
    then (let size = size_of op1 in
        let s1 = emit_prefix size state in
        if size == 1
        then emit_byte op2.value (emit_byte (0xB0 + reg_encoding op1.reg) s1)
        else emit_value size op2.value (emit_byte (0xB8 + reg_encoding op1.reg) s1))
    else if is_reg op1.type && is_reg op2.type
    then (let size = reg_size op1.reg in
        emit_ext (by_size size 0x88 0x89) (reg_encoding op2.reg) op1 (emit_prefix size state))
    else if is_reg op1.type && is_mem op2.type
    then (let size = size_of op1 in
        emit_modrm_mem (reg_encoding op1.reg) op2
          (emit_byte (by_size size 0x8A 0x8B) (emit_prefix size state)))
    else if is_mem op1.type && is_reg op2.type
    then (let size = size_of op2 in
        emit_modrm_mem (reg_encoding op2.reg) op1
          (emit_byte (by_size size 0x88 0x89) (emit_prefix size state)))
    else if is_mem op1.type && is_imm op2.type
    then (let size = size_or 4 op1 in
        emit_value size op2.value
          (emit_modrm_mem 0 op1 (emit_byte (by_size size 0xC6 0xC7) (emit_prefix size state))))
    else if is_reg op1.type && is_label op2.type
    then (let size = reg_size op1.reg in
        emit_address size op2.label
          (emit_byte (0xB8 + reg_encoding op1.reg) (emit_prefix size state)))
    else state

unfoldable pub emit_push : Operand → State → State
emit_push op1 state =
    if is_reg op1.type
    then emit_byte (0x50 + reg_encoding op1.reg) (emit_prefix (reg_size op1.reg) state)
    else if is_imm op1.type
    then (if fits_byte op1.value
        then emit_byte op1.value (emit_byte 0x6A state)
        else emit_dword op1.value (emit_byte 0x68 state))
    else if is_mem op1.type
    then emit_modrm_mem 6 op1 (emit_byte 0xFF state)
    else state

unfoldable pub emit_pop : Operand → State → State
emit_pop op1 state =
    if is_reg op1.type
    then emit_byte (0x58 + reg_encoding op1.reg) (emit_prefix (reg_size op1.reg) state)
    else if is_mem op1.type
    then emit_modrm_mem 0 op1 (emit_byte 0x8F state)
    else state

unfoldable pub emit_lea : Operand → Operand → State → State
emit_lea op1 op2 state =
    if is_reg op1.type && is_mem op2.type
    then emit_modrm_mem (reg_encoding op1.reg) op2
        (emit_byte 0x8D (emit_prefix (reg_size op1.reg) state))
    else state

abbrev pub is_accumulator : ℕ → Bool
is_accumulator reg = reg == reg_eax || reg == reg_ax

unfoldable pub emit_xchg : Operand → Operand → State → State
emit_xchg op1 op2 state =
    let size = reg_size op1.reg in
    let s1 = emit_prefix size state in
    if is_reg op1.type && is_reg op2.type
    then (if is_accumulator op1.reg
        then emit_byte (0x90 + reg_encoding op2.reg) s1
        else if is_accumulator op2.reg
        then emit_byte (0x90 + reg_encoding op1.reg) s1
        else emit_ext (by_size size 0x86 0x87) (reg_encoding op1.reg) op2 s1)
    else state

unfoldable pub emit_movzx : Operand → Operand → State → State
emit_movzx op1 op2 state =
    let s1 = emit_byte 0x0F state in
    if is_reg op1.type && is_reg op2.type
    then emit_ext (by_size (reg_size op2.reg) 0xB6 0xB7) (reg_encoding op1.reg) op2 s1
    else if is_reg op1.type && is_mem op2.type
    then emit_modrm_mem (reg_encoding op1.reg) op2
        (emit_byte (by_size (size_or 1 op2) 0xB6 0xB7) s1)
    else state

-- INC and DEC: the extension, and the opcode with a register in it.
unfoldable pub emit_step : ℕ → ℕ → Operand → State → State
emit_step ext opcode op1 state =
    let size = reg_size op1.reg in
    let mem_size = size_or 4 op1 in
    if is_reg op1.type
    then (let s1 = emit_prefix size state in
        if size == 1
        then emit_ext 0xFE ext op1 s1
        else emit_byte (opcode + reg_encoding op1.reg) s1)
    else if is_mem op1.type
    then emit_modrm_mem ext op1
        (emit_byte (by_size mem_size 0xFE 0xFF) (emit_prefix mem_size state))
    else state

unfoldable pub emit_test : Operand → Operand → State → State
emit_test op1 op2 state =
    let size = reg_size op1.reg in
    let s1 = emit_prefix size state in
    let s2 =
      if op1.reg == reg_al || is_accumulator op1.reg
      then emit_byte (by_size size 0xA8 0xA9) s1
      else emit_ext (by_size size 0xF6 0xF7) 0 op1 s1 in
    if is_reg op1.type && is_imm op2.type
    then emit_value size op2.value s2
    else if is_reg op1.type && is_reg op2.type
    then emit_ext (by_size size 0x84 0x85) (reg_encoding op2.reg) op1 s1
    else state

unfoldable pub emit_shift : ℕ → Operand → Operand → State → State
emit_shift shift_op op1 op2 state =
    let size = reg_size op1.reg in
    let s1 = emit_prefix size state in
    if not (is_reg op1.type)
    then state
    else if is_imm op2.type && op2.value == 1
    then emit_ext (by_size size 0xD0 0xD1) shift_op op1 s1
    else if is_reg op2.type && op2.reg == reg_cl
    then emit_ext (by_size size 0xD2 0xD3) shift_op op1 s1
    else if is_imm op2.type
    then emit_byte op2.value (emit_ext (by_size size 0xC0 0xC1) shift_op op1 s1)
    else s1
