-- ===== src/Assembler/Encode.antt =====
-- include/rfasm.h: operands, and the bytes that encode them: ModR/M, SIB, displacements, the
-- arithmetic instructions and the conditional jumps.
use retrofuture_os.Base.{
  ℕ, ◌+◌, ◌*◌, ◌%◌, Bool, true, false, not, ◌&&◌, ◌||◌, Option, none, some, List, ◌==◌,
  if◌then◌else◌, ltb, add32, sub32,
}
use retrofuture_os.Assembler.Registers.{reg_none, reg_eax, reg_encoding, reg_size}
use retrofuture_os.Assembler.State.{
  State, Label, emit_byte, emit_word, emit_dword, find_label, label_at, add_fixup, fits_byte,
}

pub data OpType : Type 0 where
  op_none : OpType
  op_reg : OpType
  op_imm : OpType
  op_mem : OpType
  op_label : OpType

-- `op->type == OP_REG` and the other tests.
abbrev pub is_none : OpType → Bool
is_none op_none = true
is_none t = false

abbrev pub is_reg : OpType → Bool
is_reg op_reg = true
is_reg t = false

abbrev pub is_imm : OpType → Bool
is_imm op_imm = true
is_imm t = false

abbrev pub is_mem : OpType → Bool
is_mem op_mem = true
is_mem t = false

abbrev pub is_label : OpType → Bool
is_label op_label = true
is_label t = false

pub record Operand : Type 0 where
  pub type : OpType
  pub reg : ℕ
  pub index : ℕ
  pub scale : ℕ
  pub value : ℕ
  pub label : List ℕ
  pub size : ℕ
  pub indirect : Bool

unfoldable pub modrm : ℕ → ℕ → ℕ → ℕ
modrm mode reg rm = (mode * 64 + (reg % 8 * 8 + rm % 8)) % 256

unfoldable pub sib : ℕ → ℕ → ℕ → ℕ
sib scale index base =
    let ss = if scale == 2 then 1 else if scale == 4 then 2 else if scale == 8 then 3 else 0 in
    ss * 64 + (index % 8 * 8 + base % 8)

-- `Determine mod based on displacement`
abbrev pub mod_of : ℕ → ℕ → ℕ
mod_of rm value = if value == 0 && not (rm == 5) then 0 else if fits_byte value then 1 else 2

abbrev pub index_encoding : ℕ → ℕ
index_encoding index = if not (index == reg_none) then reg_encoding index else 4

unfoldable pub emit_modrm_mem : ℕ → Operand → State → State
emit_modrm_mem reg_opcode mem state =
    let rm = reg_encoding mem.reg in
    let mode = mod_of rm mem.value in
    let s1 =
      if not (mem.index == reg_none) || rm == 4
      then emit_byte (sib mem.scale (index_encoding mem.index) rm)
          (emit_byte (modrm mode reg_opcode 4) state)
      else emit_byte (modrm mode reg_opcode rm) state in
    if mem.reg == reg_none
    then emit_dword mem.value (emit_byte (modrm 0 reg_opcode 5) state)
    else if mode == 1
    then emit_byte mem.value s1
    else if mode == 2
    then emit_dword mem.value s1
    else s1

-- `Operand size prefix for 16-bit`
unfoldable pub emit_prefix : ℕ → State → State
emit_prefix size state = if size == 2 then emit_byte 0x66 state else state

-- An immediate value of the size of the operand.
unfoldable pub emit_value : ℕ → ℕ → State → State
emit_value size value state =
    if size == 1
    then emit_byte value state
    else if size == 2
    then emit_word value state
    else emit_dword value state

-- One opcode for bytes and one for words.
abbrev pub by_size : ℕ → ℕ → ℕ → ℕ
by_size size byte_opcode opcode = if size == 1 then byte_opcode else opcode

abbrev pub is_wide : ℕ → ℕ
is_wide size = if ltb 1 size then 1 else 0

-- `reg/mem, imm`
unfoldable pub emit_alu_imm : ℕ → ℕ → ℕ → Operand → Operand → State → State
emit_alu_imm opsize opcode_base imm_ext dst src state =
    let short_imm = fits_byte src.value && ltb 1 opsize in
    let opcode = if short_imm then 0x83 else by_size opsize 0x80 0x81 in
    let head =
      if is_reg dst.type && (dst.reg == reg_eax && not short_imm)
      then emit_byte (opcode_base + 4 + is_wide opsize) state
      else if is_reg dst.type
      then emit_byte (modrm 3 imm_ext (reg_encoding dst.reg)) (emit_byte opcode state)
      else emit_modrm_mem imm_ext dst (emit_byte opcode state) in
    if short_imm then emit_byte src.value head else emit_value opsize src.value head

unfoldable pub emit_alu : ℕ → ℕ → Operand → Operand → State → State
emit_alu opcode_base imm_ext dst src state =
    let opsize =
      if not (dst.size == 0)
      then dst.size
      else if not (dst.reg == reg_none)
      then reg_size dst.reg
      else 4 in
    let s1 = emit_prefix opsize state in
    if is_imm src.type
    then emit_alu_imm opsize opcode_base imm_ext dst src s1
    else if is_reg src.type && is_reg dst.type
    then emit_byte (modrm 3 (reg_encoding src.reg) (reg_encoding dst.reg))
        (emit_byte (opcode_base + is_wide opsize) s1)
    else if is_reg src.type && is_mem dst.type
    then emit_modrm_mem (reg_encoding src.reg) dst (emit_byte (opcode_base + is_wide opsize) s1)
    else if is_mem src.type && is_reg dst.type
    then emit_modrm_mem (reg_encoding dst.reg) src (emit_byte (opcode_base + 2 + is_wide opsize) s1)
    else s1

-- The label of the name if it is defined.
unfoldable pub defined_label : State → List ℕ → Option Label
defined_label state name = elim (find_label state name) [
  | none ↦ none
  | some i ↦ if (label_at state i).defined then some (label_at state i) else none
]

-- A reference of four bytes that `rfasm_resolve_fixups` fills in; relative to its own end.
unfoldable pub emit_near_label : List ℕ → State → State
emit_near_label label state =
    let s1 = emit_dword 0 state in
    if state.pass == 2 then add_fixup label state.output_size 4 true s1.pc s1 else s1

unfoldable pub emit_jcc_near : ℕ → List ℕ → State → State
emit_jcc_near cc label state = emit_near_label label (emit_byte (0x80 + cc) (emit_byte 0x0F state))

unfoldable pub emit_jcc_short : ℕ → ℕ → State → State
emit_jcc_short cc rel state = emit_byte rel (emit_byte (0x70 + cc) state)

-- `target` minus the address behind an instruction of `size` bytes.
abbrev pub distance : ℕ → ℕ → State → ℕ
distance target size state = sub32 target (add32 state.pc size)

unfoldable pub emit_jcc_label : ℕ → List ℕ → State → State
emit_jcc_label cc label state = elim (defined_label state label) [
  | none ↦ emit_jcc_near cc label state
  | some l ↦
      let rel = distance l.address 2 state in
      if fits_byte rel then emit_jcc_short cc rel state else emit_jcc_near cc label state
]

unfoldable pub emit_jcc : ℕ → Operand → State → State
emit_jcc cc target state =
    let rel = distance target.value 2 state in
    if is_label target.type
    then emit_jcc_label cc target.label state
    else if is_imm target.type
    then (if fits_byte rel
        then emit_jcc_short cc rel state
        else emit_dword (distance target.value 6 state)
            (emit_byte (0x80 + cc) (emit_byte 0x0F state)))
    else state
