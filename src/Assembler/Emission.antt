-- ===== src/Assembler/Emission.antt =====
-- include/rfasm.h: what emitting an instruction leaves alone.
use retrofuture_os.Base.{
  ℕ, ◌+◌, ◌%◌, ◌^◌, ◌≤◌, Bool, true, false, ◌≡◌, ◌≢◌, refl, List, [], ◌∷◌, arith, ◌==◌,
  if◌then◌else◌, length, leb, ◌++◌, length-append, take, ◌⊎◌, inl, inr, ◌-◌, Bool-cases,
  Option-cases,
}
use retrofuture_os.Assembler.State.{
  State, Fixup, emit_byte, emit_word, emit_dword, add_fixup, max_fixups, max_label_len,
  is_local_name, err_too_many_fixups,
}
use retrofuture_os.Assembler.Encode.{
  Operand, emit_modrm_mem, emit_prefix, emit_value, emit_alu_imm, emit_alu, defined_label,
  emit_near_label, emit_jcc_near, emit_jcc_short, emit_jcc_label,
}
use retrofuture_os.Assembler.Operations.{
  emit_ext, emit_unary, emit_address, emit_mov, emit_push, emit_pop, emit_lea, emit_xchg,
  emit_movzx, emit_step, emit_test, emit_shift,
}

-- From `s` to `t` code is emitted: nothing is stored behind the end of the buffer, and nothing at
-- all outside pass 2; the labels, the origin, the pass and the end of the buffer are kept; the
-- counter of the output and the program counter go on by the same number of bytes; the table of
-- fixups does not go beyond its size.
pub record Emits (s t : State) : Type 0 where
  pub inside : (a : ℕ) → s.output_capacity ≤ a → t.output a ≡ s.output a
  pub dry : s.pass ≢ 2 → t.output ≡ s.output
  pub same_capacity : t.output_capacity ≡ s.output_capacity
  pub same_pass : t.pass ≡ s.pass
  pub same_org : t.org ≡ s.org
  pub same_labels : t.labels ≡ s.labels
  pub in_step : (t.pc + s.output_size) % 2 ^ 32 ≡ (s.pc + t.output_size) % 2 ^ 32
  pub few_fixups : length s.fixups ≤ max_fixups → length t.fixups ≤ max_fixups

module _ {s : State} where
  pub Emits-refl : Emits s s
  Emits-refl = record {
    inside = λ a h. refl;
    dry = λ h. refl;
    same_capacity = refl;
    same_pass = refl;
    same_org = refl;
    same_labels = refl;
    in_step = refl;
    few_fixups = λ h. h;
  }

  pub emit_byte-Emits : {t : State} (b : ℕ) → Emits s t → Emits s (emit_byte b t)
  unfolding emit_byte
  emit_byte-Emits {t} b e = record {
    inside = λ a h. ground (arith, e.inside a h, e.same_capacity);
    dry = λ h. let off : (t.pass == 2) ≡ false = ground (arith, e.same_pass) in rw off (e.dry h);
    same_capacity = e.same_capacity;
    same_pass = e.same_pass;
    same_org = e.same_org;
    same_labels = e.same_labels;
    in_step = omega (arith, e.in_step);
    few_fixups = e.few_fixups;
  }

  pub emit_word-Emits : {t : State} (w : ℕ) → Emits s t → Emits s (emit_word w t)
  unfolding emit_word
  emit_word-Emits w e = emit_byte-Emits _ (emit_byte-Emits _ e)

  pub emit_dword-Emits : {t : State} (d : ℕ) → Emits s t → Emits s (emit_dword d t)
  unfolding emit_dword
  emit_dword-Emits d e =
      emit_byte-Emits _ (emit_byte-Emits _ (emit_byte-Emits _ (emit_byte-Emits _ e)))

  pub if-Emits : {t u : State} (b : Bool) → Emits s t → Emits s u → Emits s (if b then t else u)
  if-Emits true e f = e
  if-Emits false e f = f

  pub add_fixup-Emits :
      {t : State} (label : List ℕ) (loc size : ℕ) (relative : Bool) (base : ℕ)
      → Emits s t
      → Emits s (add_fixup label loc size relative base t)
  unfolding add_fixup
  add_fixup-Emits {t} label loc size relative base e = record {
    inside = λ a h. kept (λ (u : State). u.output a ≡ s.output a) (e.inside a h) (e.inside a h);
    dry = λ h. kept (λ (u : State). u.output ≡ s.output) (e.dry h) (e.dry h);
    same_capacity =
        kept (λ (u : State). u.output_capacity ≡ s.output_capacity) e.same_capacity e.same_capacity;
    same_pass = kept (λ (u : State). u.pass ≡ s.pass) e.same_pass e.same_pass;
    same_org = kept (λ (u : State). u.org ≡ s.org) e.same_org e.same_org;
    same_labels = kept (λ (u : State). u.labels ≡ s.labels) e.same_labels e.same_labels;
    in_step =
        kept (λ (u : State). (u.pc + s.output_size) % 2 ^ 32 ≡ (s.pc + u.output_size) % 2 ^ 32)
          e.in_step e.in_step;
    few_fixups = λ h. bounded (Bool-cases (leb max_fixups (length t.fixups))) (e.few_fixups h);
  }
    where
      fixup : Fixup
      fixup = record {
        location = loc;
        label =
            if is_local_name label
            then t.current_scope ++ label
            else take (max_label_len - 1) label;
        size = size;
        relative = relative;
        base = base;
      }

      kept :
          (P : State → Type 0)
          → P (record t { error = err_too_many_fixups })
          → P (record t { fixups = t.fixups ++ (fixup ∷ []) })
          → P (add_fixup label loc size relative base t)
      kept P full added = elim (Bool-cases (leb max_fixups (length t.fixups))) [
        | inl f ↦ rw (add_fixup, f) full
        | inr f ↦ rw (add_fixup, f) added
      ]

      bounded :
          (leb max_fixups (length t.fixups) ≡ true) ⊎ (leb max_fixups (length t.fixups) ≡ false)
          → length t.fixups ≤ max_fixups
          → length (add_fixup label loc size relative base t).fixups ≤ max_fixups
      bounded (inl f) h = rw (add_fixup, f) h
      bounded (inr f) h =
          rw (add_fixup, f) (rw (length-append t.fixups (fixup ∷ [])) (ground arith))

pub ruleset emission =
    (Emits-refl, emit_byte-Emits, emit_word-Emits, emit_dword-Emits, if-Emits, add_fixup-Emits)

module _ {s : State} where
  pub emit_prefix-Emits : {t : State} (size : ℕ) → Emits s t → Emits s (emit_prefix size t)
  unfolding emit_prefix
  emit_prefix-Emits size e = search emission depth 30

  pub emit_value-Emits :
      {t : State} (size value : ℕ) → Emits s t → Emits s (emit_value size value t)
  unfolding emit_value
  emit_value-Emits size value e = search emission depth 30

  pub emit_modrm_mem-Emits :
      {t : State} (reg_opcode : ℕ) (mem : Operand)
      → Emits s t
      → Emits s (emit_modrm_mem reg_opcode mem t)
  unfolding emit_modrm_mem
  emit_modrm_mem-Emits reg_opcode mem e = search emission depth 30

  pub emit_ext-Emits :
      {t : State} (opcode ext : ℕ) (op : Operand) → Emits s t → Emits s (emit_ext opcode ext op t)
  unfolding emit_ext
  emit_ext-Emits opcode ext op e = search emission depth 30

  pub emit_near_label-Emits :
      {t : State} (label : List ℕ) → Emits s t → Emits s (emit_near_label label t)
  unfolding emit_near_label
  emit_near_label-Emits label e = search emission depth 30

pub ruleset parts = (
  emission, emit_prefix-Emits, emit_value-Emits, emit_modrm_mem-Emits, emit_ext-Emits,
  emit_near_label-Emits,
)

module _ {s : State} where
  pub emit_alu_imm-Emits :
      {t : State} (opsize : ℕ) (opcode_base : ℕ) (imm_ext : ℕ) (dst : Operand) (src : Operand)
      → Emits s t
      → Emits s (emit_alu_imm opsize opcode_base imm_ext dst src t)
  unfolding emit_alu_imm
  emit_alu_imm-Emits opsize opcode_base imm_ext dst src e = search parts depth 30

  pub emit_jcc_near-Emits :
      {t : State} (cc : ℕ) (label : List ℕ) → Emits s t → Emits s (emit_jcc_near cc label t)
  unfolding emit_jcc_near
  emit_jcc_near-Emits cc label e = search parts depth 30

  pub emit_jcc_short-Emits :
      {t : State} (cc : ℕ) (rel : ℕ) → Emits s t → Emits s (emit_jcc_short cc rel t)
  unfolding emit_jcc_short
  emit_jcc_short-Emits cc rel e = search parts depth 30

  pub emit_address-Emits :
      {t : State} (size : ℕ) (label : List ℕ) → Emits s t → Emits s (emit_address size label t)
  unfolding emit_address
  emit_address-Emits {t} size label e = elim (Option-cases (defined_label t label)) [
    | inl none_there ↦ rw (emit_address, none_there) (search parts depth 30)
    | inr (l, there) ↦ rw (emit_address, there) (search parts depth 30)
  ]

pub ruleset pieces =
    (parts, emit_alu_imm-Emits, emit_jcc_near-Emits, emit_jcc_short-Emits, emit_address-Emits)

module _ {s : State} where
  pub emit_jcc_label-Emits :
      {t : State} (cc : ℕ) (label : List ℕ) → Emits s t → Emits s (emit_jcc_label cc label t)
  unfolding emit_jcc_label
  emit_jcc_label-Emits {t} cc label e = elim (Option-cases (defined_label t label)) [
    | inl none_there ↦ rw (emit_jcc_label, none_there) (search pieces depth 30)
    | inr (l, there) ↦ rw (emit_jcc_label, there) (search pieces depth 30)
  ]

  pub emit_alu-Emits :
      {t : State} (opcode_base : ℕ) (imm_ext : ℕ) (dst : Operand) (src : Operand)
      → Emits s t
      → Emits s (emit_alu opcode_base imm_ext dst src t)
  unfolding emit_alu
  emit_alu-Emits opcode_base imm_ext dst src e = search pieces depth 30

  pub emit_unary-Emits :
      {t : State} (ext : ℕ) (op : Operand) → Emits s t → Emits s (emit_unary ext op t)
  unfolding emit_unary
  emit_unary-Emits ext op e = search pieces depth 30

  pub emit_mov-Emits :
      {t : State} (op1 : Operand) (op2 : Operand) → Emits s t → Emits s (emit_mov op1 op2 t)
  unfolding emit_mov
  emit_mov-Emits op1 op2 e = search pieces depth 30

  pub emit_lea-Emits :
      {t : State} (op1 : Operand) (op2 : Operand) → Emits s t → Emits s (emit_lea op1 op2 t)
  unfolding emit_lea
  emit_lea-Emits op1 op2 e = search pieces depth 30

  pub emit_xchg-Emits :
      {t : State} (op1 : Operand) (op2 : Operand) → Emits s t → Emits s (emit_xchg op1 op2 t)
  unfolding emit_xchg
  emit_xchg-Emits op1 op2 e = search pieces depth 30

  pub emit_movzx-Emits :
      {t : State} (op1 : Operand) (op2 : Operand) → Emits s t → Emits s (emit_movzx op1 op2 t)
  unfolding emit_movzx
  emit_movzx-Emits op1 op2 e = search pieces depth 30

  pub emit_test-Emits :
      {t : State} (op1 : Operand) (op2 : Operand) → Emits s t → Emits s (emit_test op1 op2 t)
  unfolding emit_test
  emit_test-Emits op1 op2 e = search pieces depth 30

  pub emit_push-Emits : {t : State} (op1 : Operand) → Emits s t → Emits s (emit_push op1 t)
  unfolding emit_push
  emit_push-Emits op1 e = search pieces depth 30

  pub emit_pop-Emits : {t : State} (op1 : Operand) → Emits s t → Emits s (emit_pop op1 t)
  unfolding emit_pop
  emit_pop-Emits op1 e = search pieces depth 30

  pub emit_step-Emits :
      {t : State} (ext : ℕ) (opcode : ℕ) (op1 : Operand)
      → Emits s t
      → Emits s (emit_step ext opcode op1 t)
  unfolding emit_step
  emit_step-Emits ext opcode op1 e = search pieces depth 30

  pub emit_shift-Emits :
      {t : State} (shift_op : ℕ) (op1 : Operand) (op2 : Operand)
      → Emits s t
      → Emits s (emit_shift shift_op op1 op2 t)
  unfolding emit_shift
  emit_shift-Emits shift_op op1 op2 e = search pieces depth 30

pub ruleset operations = (
  pieces, emit_jcc_label-Emits, emit_alu-Emits, emit_unary-Emits, emit_mov-Emits, emit_lea-Emits,
  emit_xchg-Emits, emit_movzx-Emits, emit_test-Emits, emit_push-Emits, emit_pop-Emits,
  emit_step-Emits, emit_shift-Emits,
)
