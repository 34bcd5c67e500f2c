-- ===== src/Assembler/Source.antt =====
-- include/rfasm.h: the two passes over the source text, `rfasm_assemble`.
use retrofuture_os.Base.{
  ℕ, ◌+◌, ◌-◌, Bool, true, false, Option, none, some, List, [], ◌∷◌, take, ◌==◌, if◌then◌else◌,
  add32,
}
use retrofuture_os.Assembler.State.{State, Error, ok, reset, resolve_fixups}
use retrofuture_os.Assembler.Line.{parse_line}

abbrev pub max_line : ℕ
max_line = 256

-- The lines of the text; there is none behind the last newline.
unfoldable pub split_lines : List ℕ → List (List ℕ)
split_lines [] = []
split_lines (c ∷ s) =
    let rest = split_lines s in
    if c == 10 then [] ∷ rest else elim rest [ [] ↦ (c ∷ []) ∷ [] | l ∷ ls ↦ (c ∷ l) ∷ ls ]

-- `Strip CR if present`
abbrev pub strip_cr : List ℕ → List ℕ
strip_cr [] = []
strip_cr (c ∷ []) = if c == 13 then [] else c ∷ []
strip_cr (c ∷ (d ∷ s)) = c ∷ strip_cr (d ∷ s)

-- The loop over the lines in one pass, which counts them in pass 1.
unfoldable pub run_lines : ℕ → ℕ → List (List ℕ) → State → Option (Bool × State)
run_lines fuel line_num [] state = some (true, state)
run_lines fuel line_num (line ∷ lines) state =
    elim (parse_line fuel (strip_cr (take (max_line - 1) line)) state) [
      | none ↦ none
      | some (false, s) ↦ some (false, record s { error_line = line_num })
      | some (true, s) ↦
          run_lines fuel (line_num + 1) lines
            (if s.pass == 1 then record s { lines_processed = add32 s.lines_processed 1 } else s)
    ]

-- The result of `rfasm_assemble` for one pass that failed, or what comes after it.
unfoldable pub then_pass :
    Option (Bool × State) → (State → Option (Error × State)) → Option (Error × State)
then_pass none next = none
then_pass (some (false, state)) next = some (state.error, state)
then_pass (some (true, state)) next = next state

abbrev pub finish : State → Option (Error × State)
finish state =
    let (resolved, state') = resolve_fixups state in
    some (if resolved then ok else state'.error, state')

unfoldable pub assemble : ℕ → List ℕ → State → Option (Error × State)
assemble fuel source state =
    let lines = split_lines source in
    then_pass (run_lines fuel 1 lines (record state { pass = 1; pc = state.org }))
      (λ s. then_pass (run_lines fuel 1 lines (record (reset s) { pass = 2 })) finish)
