-- ===== src/Assembler/Phase.antt =====
-- include/rfasm.h: the two passes and the size of a conditional jump (`rfasm_emit_jcc`).
use retrofuture_os.Base.{
  ℕ, ◌+◌, ◌%◌, ◌^◌, ◌<◌, ◌≤◌, true, false, none, some, ◌≡◌, refl, ap, ◌∙◌, List, arith, ◌==◌,
}
use retrofuture_os.Assembler.State.{State, Label, emit_byte, emit_dword, fits_byte}
use retrofuture_os.Assembler.Encode.{
  Operand, op_label, emit_jcc, emit_jcc_label, emit_jcc_near, emit_jcc_short, emit_near_label,
  defined_label, distance,
}

-- What the two passes make of one conditional jump over `n` bytes to a label behind it.
pub record IsOutOfPhase (s1 s2 : State) (code n : ℕ) (target : Operand) : Type 0 where
  pub first_size : (emit_jcc code target s1).pc ≡ s1.pc + 6
  pub second_size : (emit_jcc code target s2).pc ≡ s1.pc + 2
  pub displacement : (emit_jcc code target s2).output (s2.output_size + 1) ≡ n + 4

near_size :
    (s : State) (code : ℕ) (label : List ℕ)
    → s.pass ≡ 1
    → s.pc + 6 < 2 ^ 32
    → (emit_jcc_near code label s).pc ≡ s.pc + 6
unfolding emit_jcc_near emit_near_label emit_dword emit_byte
near_size s code label one q =
    let off : (s.pass == 2) ≡ false = ground arith in rw off (omega arith)

short_size :
    (s : State) (code rel : ℕ) → s.pc + 2 < 2 ^ 32 → (emit_jcc_short code rel s).pc ≡ s.pc + 2
unfolding emit_jcc_short emit_byte
short_size s code rel q = omega arith

short_displacement :
    (s : State) (code rel : ℕ)
    → s.pass ≡ 2
    → s.output_size + 1 < s.output_capacity
    → s.output_size + 1 < 2 ^ 32
    → (emit_jcc_short code rel s).output (s.output_size + 1) ≡ rel % 256
unfolding emit_jcc_short emit_byte
short_displacement s code rel two q r = ground arith

jumps_far :
    (s : State) (code : ℕ) (target : Operand)
    → target.type ≡ op_label
    → defined_label s target.label ≡ none
    → emit_jcc code target s ≡ emit_jcc_near code target.label s
unfolding emit_jcc emit_jcc_label
jumps_far s code target t u = rw (emit_jcc, t) (rw (emit_jcc_label, u) refl)

jumps_near :
    (s : State) (code : ℕ) (target : Operand) (l : Label)
    → target.type ≡ op_label
    → defined_label s target.label ≡ some l
    → fits_byte (distance l.address 2 s) ≡ true
    → emit_jcc code target s ≡ emit_jcc_short code (distance l.address 2 s) s
unfolding emit_jcc emit_jcc_label
jumps_near s code target l t k f = rw (emit_jcc, t) (rw (emit_jcc_label, k) (rw f refl))

-- A conditional jump over n bytes, n at most 121, to a label that comes behind it has 6 bytes in
-- pass 1, where the label is not known, and 2 in pass 2, where its address is the one from pass 1:
-- the displacement is n + 4, so that the jump leads 4 bytes too far.
pub jcc-IsOutOfPhase :
    (s1 s2 : State) (code n : ℕ) (target : Operand) (l : Label)
    → target.type ≡ op_label
    → s1.pass ≡ 1
    → s2.pass ≡ 2
    → s2.pc ≡ s1.pc
    → defined_label s1 target.label ≡ none
    → defined_label s2 target.label ≡ some l
    → l.address ≡ s1.pc + 6 + n
    → n ≤ 121
    → s1.pc + 6 + n < 2 ^ 32
    → s2.output_size + 1 < s2.output_capacity
    → s2.output_capacity < 2 ^ 32
    → IsOutOfPhase s1 s2 code n target
jcc-IsOutOfPhase s1 s2 code n target l is_target one two same unknown known there near small room
      limit =
    let rel : distance l.address 2 s2 ≡ n + 4 = omega arith in
    let fits : fits_byte (distance l.address 2 s2) ≡ true = ground arith in
    let first = jumps_far s1 code target is_target unknown in
    let second = jumps_near s2 code target l is_target known fits in
    record {
      first_size =
          ap (λ (s : State). s.pc) first ∙ near_size s1 code target.label one (omega arith);
      second_size =
          ap (λ (s : State). s.pc) second
          ∙ short_size s2 code (distance l.address 2 s2) (omega arith)
          ∙ ap (λ p. p + 2) same;
      displacement =
          ap (λ (s : State). s.output (s2.output_size + 1)) second
          ∙ short_displacement s2 code (distance l.address 2 s2) two room (omega arith)
          ∙ omega arith;
    }
