-- ===== src/Assembler/Endless.antt =====
-- include/rfasm.h: the loop over the values of `DB` and a character that cannot be read.
use retrofuture_os.Base.{
  ℕ, zero, suc, Bool, true, none, ◌≡◌, refl, List, [], ◌∷◌, ◌++◌, ◌&&◌, arith,
}
use retrofuture_os.Assembler.Text.{isspace, parse_char, skip_ws}
use retrofuture_os.Assembler.State.{State}
use retrofuture_os.Assembler.Line.{emit_bytes, emit_item, parse_rest}
use retrofuture_os.Assembler.Mnemonics.{inst_db}

abbrev pub are_blank : List ℕ → Bool
are_blank [] = true
are_blank (c ∷ s) = isspace c && are_blank s

skip_ws-blank :
    (blanks s : List ℕ) → are_blank blanks ≡ true → skip_ws (blanks ++ (b'\'' ∷ s)) ≡ b'\'' ∷ s
unfolding skip_ws
skip_ws-blank [] s b = refl
skip_ws-blank (c ∷ blanks) s b =
    let first : isspace c ≡ true = ground arith in rw first (skip_ws-blank blanks s (ground arith))

emit_bytes-none :
    (fuel : ℕ) (s : List ℕ) (state : State)
    → parse_char (b'\'' ∷ s) ≡ none
    → emit_bytes fuel (b'\'' ∷ s) state ≡ none
unfolding emit_bytes emit_item skip_ws
emit_bytes-none zero s state e = refl
emit_bytes-none (suc fuel) s state e = rw e (emit_bytes-none fuel s state e)

-- A `DB` is read for ever, so that no number of rounds is enough, if its first value, behind any
-- white space, is a quote with at least two characters behind it on the line that rfasm_parse_char
-- does not take for a character, as in `DB 'ab'`.
pub parse_rest-none :
    (fuel : ℕ) (blanks : List ℕ) (c d : ℕ) (s : List ℕ) (state : State)
    → are_blank blanks ≡ true
    → parse_char (b'\'' ∷ c ∷ d ∷ s) ≡ none
    → parse_rest fuel inst_db (blanks ++ (b'\'' ∷ c ∷ d ∷ s)) state ≡ none
unfolding parse_rest
parse_rest-none fuel blanks c d s state b e =
    rw (parse_rest, skip_ws-blank blanks (c ∷ d ∷ s) b, emit_bytes-none fuel (c ∷ d ∷ s) state e)
      refl
