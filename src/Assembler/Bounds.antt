-- ===== src/Assembler/Bounds.antt =====
-- include/rfasm.h: whatever the instruction, emitting it stays within the output buffer.
use retrofuture_os.Base.{
  ℕ, Bool, true, false, Option, none, some, ◌≡◌, inl, inr, refl, subst, List, if◌then◌else◌, add32,
  Option-cases,
}
use retrofuture_os.Assembler.State.{State, find_label, err_unknown_inst, Error}
use retrofuture_os.Assembler.Encode.{Operand, emit_jcc, defined_label}
use retrofuture_os.Assembler.Mnemonics.{
  Inst, inst_none, inst_mov, inst_push, inst_pop, inst_lea, inst_xchg, inst_movzx, inst_movsb,
  inst_movsw, inst_movsd, inst_rep, inst_add, inst_sub, inst_inc, inst_dec, inst_neg, inst_mul,
  inst_imul, inst_div, inst_idiv, inst_cmp, inst_adc, inst_sbb, inst_and, inst_or, inst_xor,
  inst_not, inst_test, inst_shl, inst_shr, inst_sar, inst_rol, inst_ror, inst_jmp, inst_jz,
  inst_jnz, inst_jc, inst_jnc, inst_js, inst_jns, inst_jl, inst_jg, inst_jle, inst_jge, inst_ja,
  inst_jb, inst_jae, inst_jbe, inst_call, inst_ret, inst_loop, inst_loopz, inst_loopnz, inst_clc,
  inst_stc, inst_cli, inst_sti, inst_cld, inst_std, inst_pushf, inst_popf, inst_nop, inst_hlt,
  inst_int, inst_iret, inst_in, inst_out, inst_lgdt, inst_lidt, inst_db, inst_dw, inst_dd,
  inst_times, inst_org, inst_equ, inst_count,
}
use retrofuture_os.Assembler.Instruction.{
  emit_indirect, emit_short_label, emit_jmp, emit_call, emit_ret, emit_loop_label, emit_loop,
  emit_loop_if, emit_in, emit_out, emit_table, emit_db, emit_dw, emit_dd, emit_case,
  emit_instruction,
}
use retrofuture_os.Assembler.Emission.{Emits, operations}

module _ {s : State} where
  emit_jcc-Emits :
      {t : State} (cc : ℕ) (target : Operand) → Emits s t → Emits s (emit_jcc cc target t)
  unfolding emit_jcc
  emit_jcc-Emits cc target e = search operations depth 30

  emit_indirect-Emits :
      {t : State} (ext : ℕ) (op1 : Operand) → Emits s t → Emits s (emit_indirect ext op1 t)
  unfolding emit_indirect
  emit_indirect-Emits ext op1 e = search operations depth 30

  emit_ret-Emits : {t : State} (op1 : Operand) → Emits s t → Emits s (emit_ret op1 t)
  unfolding emit_ret
  emit_ret-Emits op1 e = search operations depth 30

  emit_in-Emits :
      {t : State} (op1 : Operand) (op2 : Operand) → Emits s t → Emits s (emit_in op1 op2 t)
  unfolding emit_in
  emit_in-Emits op1 op2 e = search operations depth 30

  emit_out-Emits :
      {t : State} (op1 : Operand) (op2 : Operand) → Emits s t → Emits s (emit_out op1 op2 t)
  unfolding emit_out
  emit_out-Emits op1 op2 e = search operations depth 30

  emit_table-Emits :
      {t : State} (ext : ℕ) (op1 : Operand) → Emits s t → Emits s (emit_table ext op1 t)
  unfolding emit_table
  emit_table-Emits ext op1 e = search operations depth 30

  emit_db-Emits : {t : State} (op1 : Operand) → Emits s t → Emits s (emit_db op1 t)
  unfolding emit_db
  emit_db-Emits op1 e = search operations depth 30

  emit_dw-Emits : {t : State} (op1 : Operand) → Emits s t → Emits s (emit_dw op1 t)
  unfolding emit_dw
  emit_dw-Emits op1 e = search operations depth 30

  emit_dd-Emits : {t : State} (op1 : Operand) → Emits s t → Emits s (emit_dd op1 t)
  unfolding emit_dd
  emit_dd-Emits op1 e = search operations depth 30

  emit_loop_label-Emits :
      {t : State} (with_fixup : Bool) (label : List ℕ)
      → Emits s t
      → Emits s (emit_loop_label with_fixup label t)
  unfolding emit_loop_label
  emit_loop_label-Emits {t} with_fixup label e = elim (Option-cases (find_label t label)) [
    | inl none_there ↦ rw (emit_loop_label, none_there) (search operations depth 30)
    | inr (l, there) ↦ rw (emit_loop_label, there) (search operations depth 30)
  ]

  if_pair-Emits :
      (p q : Bool × State) (b : Bool) → Emits s p.1 → Emits s q.1 → Emits s (if b then p else q).1
  if_pair-Emits p q true e f = e
  if_pair-Emits p q false e f = f

  error-Emits : {t : State} (err : Error) → Emits s t → Emits s (record t { error = err })
  error-Emits err e = record {
    inside = e.inside;
    dry = e.dry;
    same_capacity = e.same_capacity;
    same_pass = e.same_pass;
    same_org = e.same_org;
    same_labels = e.same_labels;
    in_step = e.in_step;
    few_fixups = e.few_fixups;
  }

ruleset branches =
    (operations, if_pair-Emits, error-Emits, emit_loop_label-Emits, emit_indirect-Emits)

module _ {s : State} where
  emit_short_label-Emits :
      {t : State} (label : List ℕ) → Emits s t → Emits s (emit_short_label label t).1
  unfolding emit_short_label
  emit_short_label-Emits {t} label e = elim (Option-cases (defined_label t label)) [
    | inl none_there ↦ rw (emit_short_label, none_there) (search branches depth 30)
    | inr (l, there) ↦ rw (emit_short_label, there) (search branches depth 30)
  ]

ruleset jumps = (branches, emit_short_label-Emits)

module _ {s : State} where
  emit_jmp-Emits : {t : State} (op1 : Operand) → Emits s t → Emits s (emit_jmp op1 t).1
  unfolding emit_jmp
  emit_jmp-Emits op1 e = search jumps depth 30

  emit_call-Emits : {t : State} (op1 : Operand) → Emits s t → Emits s (emit_call op1 t)
  unfolding emit_call
  emit_call-Emits op1 e = search jumps depth 30

  emit_loop-Emits : {t : State} (op1 : Operand) → Emits s t → Emits s (emit_loop op1 t)
  unfolding emit_loop
  emit_loop-Emits op1 e = search jumps depth 30

  emit_loop_if-Emits :
      {t : State} (opcode : ℕ) (op1 : Operand) → Emits s t → Emits s (emit_loop_if opcode op1 t)
  unfolding emit_loop_if
  emit_loop_if-Emits opcode op1 e = search jumps depth 30

ruleset cases = (
  jumps, emit_jcc-Emits, emit_ret-Emits, emit_in-Emits, emit_out-Emits, emit_table-Emits,
  emit_db-Emits, emit_dw-Emits, emit_dd-Emits, emit_jmp-Emits, emit_call-Emits, emit_loop-Emits,
  emit_loop_if-Emits,
)

-- The case of the switch, where there is one.
abbrev pub Keeps : State → Option (Bool × State) → Type 0
Keeps s none = s ≡ s
Keeps s (some r) = Emits s r.1

emit_case-Keeps :
    (inst : Inst) (op1 op2 : Operand) {s t : State} → Emits s t → Keeps s (emit_case inst op1 op2 t)
unfolding emit_case
emit_case-Keeps inst_none op1 op2 e = refl
emit_case-Keeps inst_mov op1 op2 e = search cases depth 30
emit_case-Keeps inst_push op1 op2 e = search cases depth 30
emit_case-Keeps inst_pop op1 op2 e = search cases depth 30
emit_case-Keeps inst_lea op1 op2 e = search cases depth 30
emit_case-Keeps inst_xchg op1 op2 e = search cases depth 30
emit_case-Keeps inst_movzx op1 op2 e = search cases depth 30
emit_case-Keeps inst_movsb op1 op2 e = search cases depth 30
emit_case-Keeps inst_movsw op1 op2 e = search cases depth 30
emit_case-Keeps inst_movsd op1 op2 e = search cases depth 30
emit_case-Keeps inst_rep op1 op2 e = search cases depth 30
emit_case-Keeps inst_add op1 op2 e = search cases depth 30
emit_case-Keeps inst_sub op1 op2 e = search cases depth 30
emit_case-Keeps inst_inc op1 op2 e = search cases depth 30
emit_case-Keeps inst_dec op1 op2 e = search cases depth 30
emit_case-Keeps inst_neg op1 op2 e = search cases depth 30
emit_case-Keeps inst_mul op1 op2 e = search cases depth 30
emit_case-Keeps inst_imul op1 op2 e = search cases depth 30
emit_case-Keeps inst_div op1 op2 e = search cases depth 30
emit_case-Keeps inst_idiv op1 op2 e = search cases depth 30
emit_case-Keeps inst_cmp op1 op2 e = search cases depth 30
emit_case-Keeps inst_adc op1 op2 e = search cases depth 30
emit_case-Keeps inst_sbb op1 op2 e = search cases depth 30
emit_case-Keeps inst_and op1 op2 e = search cases depth 30
emit_case-Keeps inst_or op1 op2 e = search cases depth 30
emit_case-Keeps inst_xor op1 op2 e = search cases depth 30
emit_case-Keeps inst_not op1 op2 e = search cases depth 30
emit_case-Keeps inst_test op1 op2 e = search cases depth 30
emit_case-Keeps inst_shl op1 op2 e = search cases depth 30
emit_case-Keeps inst_shr op1 op2 e = search cases depth 30
emit_case-Keeps inst_sar op1 op2 e = search cases depth 30
emit_case-Keeps inst_rol op1 op2 e = search cases depth 30
emit_case-Keeps inst_ror op1 op2 e = search cases depth 30
emit_case-Keeps inst_jmp op1 op2 e = search cases depth 30
emit_case-Keeps inst_jz op1 op2 e = search cases depth 30
emit_case-Keeps inst_jnz op1 op2 e = search cases depth 30
emit_case-Keeps inst_jc op1 op2 e = search cases depth 30
emit_case-Keeps inst_jnc op1 op2 e = search cases depth 30
emit_case-Keeps inst_js op1 op2 e = search cases depth 30
emit_case-Keeps inst_jns op1 op2 e = search cases depth 30
emit_case-Keeps inst_jl op1 op2 e = search cases depth 30
emit_case-Keeps inst_jg op1 op2 e = search cases depth 30
emit_case-Keeps inst_jle op1 op2 e = search cases depth 30
emit_case-Keeps inst_jge op1 op2 e = search cases depth 30
emit_case-Keeps inst_ja op1 op2 e = search cases depth 30
emit_case-Keeps inst_jb op1 op2 e = search cases depth 30
emit_case-Keeps inst_jae op1 op2 e = search cases depth 30
emit_case-Keeps inst_jbe op1 op2 e = search cases depth 30
emit_case-Keeps inst_call op1 op2 e = search cases depth 30
emit_case-Keeps inst_ret op1 op2 e = search cases depth 30
emit_case-Keeps inst_loop op1 op2 e = search cases depth 30
emit_case-Keeps inst_loopz op1 op2 e = search cases depth 30
emit_case-Keeps inst_loopnz op1 op2 e = search cases depth 30
emit_case-Keeps inst_clc op1 op2 e = search cases depth 30
emit_case-Keeps inst_stc op1 op2 e = search cases depth 30
emit_case-Keeps inst_cli op1 op2 e = search cases depth 30
emit_case-Keeps inst_sti op1 op2 e = search cases depth 30
emit_case-Keeps inst_cld op1 op2 e = search cases depth 30
emit_case-Keeps inst_std op1 op2 e = search cases depth 30
emit_case-Keeps inst_pushf op1 op2 e = search cases depth 30
emit_case-Keeps inst_popf op1 op2 e = search cases depth 30
emit_case-Keeps inst_nop op1 op2 e = search cases depth 30
emit_case-Keeps inst_hlt op1 op2 e = search cases depth 30
emit_case-Keeps inst_int op1 op2 e = search cases depth 30
emit_case-Keeps inst_iret op1 op2 e = search cases depth 30
emit_case-Keeps inst_in op1 op2 e = search cases depth 30
emit_case-Keeps inst_out op1 op2 e = search cases depth 30
emit_case-Keeps inst_lgdt op1 op2 e = search cases depth 30
emit_case-Keeps inst_lidt op1 op2 e = search cases depth 30
emit_case-Keeps inst_db op1 op2 e = search cases depth 30
emit_case-Keeps inst_dw op1 op2 e = search cases depth 30
emit_case-Keeps inst_dd op1 op2 e = search cases depth 30
emit_case-Keeps inst_times op1 op2 e = refl
emit_case-Keeps inst_org op1 op2 e = refl
emit_case-Keeps inst_equ op1 op2 e = refl
emit_case-Keeps inst_count op1 op2 e = refl

count-Emits : (s : State) (n : ℕ) → Emits s (record s { instructions_emitted = n })
count-Emits s n = record {
  inside = λ a h. refl;
  dry = λ h. refl;
  same_capacity = refl;
  same_pass = refl;
  same_org = refl;
  same_labels = refl;
  in_step = refl;
  few_fixups = λ h. h;
}

-- Whatever the instruction, its operands and the state, rfasm_emit_instruction stores nothing
-- behind the end of the output buffer and nothing at all outside pass 2; it keeps the labels, the
-- origin, the pass and the capacity, advances the size of the output and the program counter by
-- the same number modulo 2 ^ 32, and does not let the table of fixups outgrow its 64 entries.
pub emit_instruction-Emits :
    (inst : Inst) (op1 op2 : Operand) (s : State) → Emits s (emit_instruction inst op1 op2 s).1
unfolding emit_instruction
emit_instruction-Emits inst op1 op2 s = elim (Option-cases (emit_case inst op1 op2 s1)) [
  | inl unknown ↦ rw (emit_instruction, unknown) (error-Emits err_unknown_inst (count-Emits s n))
  | inr (r, known) ↦
      rw (emit_instruction, known)
        (subst (Keeps s) known (emit_case-Keeps inst op1 op2 (count-Emits s n)))
]
  where
    n : ℕ
    n = add32 s.instructions_emitted 1

    s1 : State
    s1 = record s { instructions_emitted = n }
