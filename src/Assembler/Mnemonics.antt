-- ===== src/Assembler/Mnemonics.antt =====
-- include/rfasm.h: the instructions, by their names in `rfasm_inst_t`, and their table.
use retrofuture_os.Base.{ℕ, List, [], ◌∷◌, if◌then◌else◌}
use retrofuture_os.Assembler.Text.{strcasecmp_eq}

pub data Inst : Type 0 where
  inst_none : Inst
  inst_mov : Inst
  inst_push : Inst
  inst_pop : Inst
  inst_lea : Inst
  inst_xchg : Inst
  inst_movzx : Inst
  inst_movsb : Inst
  inst_movsw : Inst
  inst_movsd : Inst
  inst_rep : Inst
  inst_add : Inst
  inst_sub : Inst
  inst_inc : Inst
  inst_dec : Inst
  inst_neg : Inst
  inst_mul : Inst
  inst_imul : Inst
  inst_div : Inst
  inst_idiv : Inst
  inst_cmp : Inst
  inst_adc : Inst
  inst_sbb : Inst
  inst_and : Inst
  inst_or : Inst
  inst_xor : Inst
  inst_not : Inst
  inst_test : Inst
  inst_shl : Inst
  inst_shr : Inst
  inst_sar : Inst
  inst_rol : Inst
  inst_ror : Inst
  inst_jmp : Inst
  inst_jz : Inst
  inst_jnz : Inst
  inst_jc : Inst
  inst_jnc : Inst
  inst_js : Inst
  inst_jns : Inst
  inst_jl : Inst
  inst_jg : Inst
  inst_jle : Inst
  inst_jge : Inst
  inst_ja : Inst
  inst_jb : Inst
  inst_jae : Inst
  inst_jbe : Inst
  inst_call : Inst
  inst_ret : Inst
  inst_loop : Inst
  inst_loopz : Inst
  inst_loopnz : Inst
  inst_clc : Inst
  inst_stc : Inst
  inst_cli : Inst
  inst_sti : Inst
  inst_cld : Inst
  inst_std : Inst
  inst_pushf : Inst
  inst_popf : Inst
  inst_nop : Inst
  inst_hlt : Inst
  inst_int : Inst
  inst_iret : Inst
  inst_in : Inst
  inst_out : Inst
  inst_lgdt : Inst
  inst_lidt : Inst
  inst_db : Inst
  inst_dw : Inst
  inst_dd : Inst
  inst_times : Inst
  inst_org : Inst
  inst_equ : Inst
  inst_count : Inst

-- `g_instructions` without the entry that ends it.
abbrev pub instructions : List (List ℕ × Inst)
instructions =
    (b'M' ∷ b'O' ∷ b'V' ∷ [], inst_mov)
    ∷ (b'P' ∷ b'U' ∷ b'S' ∷ b'H' ∷ [], inst_push)
    ∷ (b'P' ∷ b'O' ∷ b'P' ∷ [], inst_pop)
    ∷ (b'L' ∷ b'E' ∷ b'A' ∷ [], inst_lea)
    ∷ (b'X' ∷ b'C' ∷ b'H' ∷ b'G' ∷ [], inst_xchg)
    ∷ (b'M' ∷ b'O' ∷ b'V' ∷ b'Z' ∷ b'X' ∷ [], inst_movzx)
    ∷ (b'M' ∷ b'O' ∷ b'V' ∷ b'S' ∷ b'B' ∷ [], inst_movsb)
    ∷ (b'M' ∷ b'O' ∷ b'V' ∷ b'S' ∷ b'W' ∷ [], inst_movsw)
    ∷ (b'M' ∷ b'O' ∷ b'V' ∷ b'S' ∷ b'D' ∷ [], inst_movsd)
    ∷ (b'R' ∷ b'E' ∷ b'P' ∷ [], inst_rep)
    ∷ (b'A' ∷ b'D' ∷ b'D' ∷ [], inst_add)
    ∷ (b'S' ∷ b'U' ∷ b'B' ∷ [], inst_sub)
    ∷ (b'I' ∷ b'N' ∷ b'C' ∷ [], inst_inc)
    ∷ (b'D' ∷ b'E' ∷ b'C' ∷ [], inst_dec)
    ∷ (b'N' ∷ b'E' ∷ b'G' ∷ [], inst_neg)
    ∷ (b'M' ∷ b'U' ∷ b'L' ∷ [], inst_mul)
    ∷ (b'I' ∷ b'M' ∷ b'U' ∷ b'L' ∷ [], inst_imul)
    ∷ (b'D' ∷ b'I' ∷ b'V' ∷ [], inst_div)
    ∷ (b'I' ∷ b'D' ∷ b'I' ∷ b'V' ∷ [], inst_idiv)
    ∷ (b'C' ∷ b'M' ∷ b'P' ∷ [], inst_cmp)
    ∷ (b'A' ∷ b'D' ∷ b'C' ∷ [], inst_adc)
    ∷ (b'S' ∷ b'B' ∷ b'B' ∷ [], inst_sbb)
    ∷ (b'A' ∷ b'N' ∷ b'D' ∷ [], inst_and)
    ∷ (b'O' ∷ b'R' ∷ [], inst_or)
    ∷ (b'X' ∷ b'O' ∷ b'R' ∷ [], inst_xor)
    ∷ (b'N' ∷ b'O' ∷ b'T' ∷ [], inst_not)
    ∷ (b'T' ∷ b'E' ∷ b'S' ∷ b'T' ∷ [], inst_test)
    ∷ (b'S' ∷ b'H' ∷ b'L' ∷ [], inst_shl)
    ∷ (b'S' ∷ b'A' ∷ b'L' ∷ [], inst_shl)
    ∷ (b'S' ∷ b'H' ∷ b'R' ∷ [], inst_shr)
    ∷ (b'S' ∷ b'A' ∷ b'R' ∷ [], inst_sar)
    ∷ (b'R' ∷ b'O' ∷ b'L' ∷ [], inst_rol)
    ∷ (b'R' ∷ b'O' ∷ b'R' ∷ [], inst_ror)
    ∷ (b'J' ∷ b'M' ∷ b'P' ∷ [], inst_jmp)
    ∷ (b'J' ∷ b'Z' ∷ [], inst_jz)
    ∷ (b'J' ∷ b'E' ∷ [], inst_jz)
    ∷ (b'J' ∷ b'N' ∷ b'Z' ∷ [], inst_jnz)
    ∷ (b'J' ∷ b'N' ∷ b'E' ∷ [], inst_jnz)
    ∷ (b'J' ∷ b'C' ∷ [], inst_jc)
    ∷ (b'J' ∷ b'B' ∷ [], inst_jb)
    ∷ (b'J' ∷ b'N' ∷ b'A' ∷ b'E' ∷ [], inst_jc)
    ∷ (b'J' ∷ b'N' ∷ b'C' ∷ [], inst_jnc)
    ∷ (b'J' ∷ b'A' ∷ b'E' ∷ [], inst_jae)
    ∷ (b'J' ∷ b'N' ∷ b'B' ∷ [], inst_jnc)
    ∷ (b'J' ∷ b'S' ∷ [], inst_js)
    ∷ (b'J' ∷ b'N' ∷ b'S' ∷ [], inst_jns)
    ∷ (b'J' ∷ b'L' ∷ [], inst_jl)
    ∷ (b'J' ∷ b'N' ∷ b'G' ∷ b'E' ∷ [], inst_jl)
    ∷ (b'J' ∷ b'G' ∷ [], inst_jg)
    ∷ (b'J' ∷ b'N' ∷ b'L' ∷ b'E' ∷ [], inst_jg)
    ∷ (b'J' ∷ b'L' ∷ b'E' ∷ [], inst_jle)
    ∷ (b'J' ∷ b'N' ∷ b'G' ∷ [], inst_jle)
    ∷ (b'J' ∷ b'G' ∷ b'E' ∷ [], inst_jge)
    ∷ (b'J' ∷ b'N' ∷ b'L' ∷ [], inst_jge)
    ∷ (b'J' ∷ b'A' ∷ [], inst_ja)
    ∷ (b'J' ∷ b'N' ∷ b'B' ∷ b'E' ∷ [], inst_ja)
    ∷ (b'J' ∷ b'B' ∷ b'E' ∷ [], inst_jbe)
    ∷ (b'J' ∷ b'N' ∷ b'A' ∷ [], inst_jbe)
    ∷ (b'C' ∷ b'A' ∷ b'L' ∷ b'L' ∷ [], inst_call)
    ∷ (b'R' ∷ b'E' ∷ b'T' ∷ [], inst_ret)
    ∷ (b'R' ∷ b'E' ∷ b'T' ∷ b'N' ∷ [], inst_ret)
    ∷ (b'L' ∷ b'O' ∷ b'O' ∷ b'P' ∷ [], inst_loop)
    ∷ (b'L' ∷ b'O' ∷ b'O' ∷ b'P' ∷ b'Z' ∷ [], inst_loopz)
    ∷ (b'L' ∷ b'O' ∷ b'O' ∷ b'P' ∷ b'E' ∷ [], inst_loopz)
    ∷ (b'L' ∷ b'O' ∷ b'O' ∷ b'P' ∷ b'N' ∷ b'Z' ∷ [], inst_loopnz)
    ∷ (b'L' ∷ b'O' ∷ b'O' ∷ b'P' ∷ b'N' ∷ b'E' ∷ [], inst_loopnz)
    ∷ (b'C' ∷ b'L' ∷ b'C' ∷ [], inst_clc)
    ∷ (b'S' ∷ b'T' ∷ b'C' ∷ [], inst_stc)
    ∷ (b'C' ∷ b'L' ∷ b'I' ∷ [], inst_cli)
    ∷ (b'S' ∷ b'T' ∷ b'I' ∷ [], inst_sti)
    ∷ (b'C' ∷ b'L' ∷ b'D' ∷ [], inst_cld)
    ∷ (b'S' ∷ b'T' ∷ b'D' ∷ [], inst_std)
    ∷ (b'P' ∷ b'U' ∷ b'S' ∷ b'H' ∷ b'F' ∷ [], inst_pushf)
    ∷ (b'P' ∷ b'U' ∷ b'S' ∷ b'H' ∷ b'F' ∷ b'D' ∷ [], inst_pushf)
    ∷ (b'P' ∷ b'O' ∷ b'P' ∷ b'F' ∷ [], inst_popf)
    ∷ (b'P' ∷ b'O' ∷ b'P' ∷ b'F' ∷ b'D' ∷ [], inst_popf)
    ∷ (b'N' ∷ b'O' ∷ b'P' ∷ [], inst_nop)
    ∷ (b'H' ∷ b'L' ∷ b'T' ∷ [], inst_hlt)
    ∷ (b'I' ∷ b'N' ∷ b'T' ∷ [], inst_int)
    ∷ (b'I' ∷ b'R' ∷ b'E' ∷ b'T' ∷ [], inst_iret)
    ∷ (b'I' ∷ b'R' ∷ b'E' ∷ b'T' ∷ b'D' ∷ [], inst_iret)
    ∷ (b'I' ∷ b'N' ∷ [], inst_in)
    ∷ (b'O' ∷ b'U' ∷ b'T' ∷ [], inst_out)
    ∷ (b'L' ∷ b'G' ∷ b'D' ∷ b'T' ∷ [], inst_lgdt)
    ∷ (b'L' ∷ b'I' ∷ b'D' ∷ b'T' ∷ [], inst_lidt)
    ∷ (b'D' ∷ b'B' ∷ [], inst_db)
    ∷ (b'D' ∷ b'W' ∷ [], inst_dw)
    ∷ (b'D' ∷ b'D' ∷ [], inst_dd)
    ∷ (b'T' ∷ b'I' ∷ b'M' ∷ b'E' ∷ b'S' ∷ [], inst_times)
    ∷ (b'O' ∷ b'R' ∷ b'G' ∷ [], inst_org)
    ∷ (b'E' ∷ b'Q' ∷ b'U' ∷ [], inst_equ)
    ∷ []

abbrev pub find_inst : List ℕ → List (List ℕ × Inst) → Inst
find_inst name [] = inst_none
find_inst name ((mnemonic, inst) ∷ rest) =
    let found = find_inst name rest in if strcasecmp_eq name mnemonic then inst else found

unfoldable pub lookup_inst : List ℕ → Inst
lookup_inst name = find_inst name instructions
