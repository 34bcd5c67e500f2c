-- ===== src/Assembler/State.antt =====
-- include/rfasm.h: the state of the assembler, the output, the labels and the fixups. The output
-- buffer is a function of the index, so that a write behind its end would be seen. Messages of
-- errors are left out; a number of `int32_t` or `uint32_t` is its number of 32 bits.
use retrofuture_os.Base.{
  ℕ, ◌+◌, ◌-◌, ◌/◌, ◌%◌, ◌^◌, Bool, true, false, not, ◌&&◌, ◌||◌, Option, none, some, List, [], ◌∷◌,
  ◌++◌, take, length, get_or, set, ltb, leb, ◌==◌, if◌then◌else◌, add32, sub32, Memory, update,
  find_index,
}
use retrofuture_os.Assembler.Text.{strcasecmp_eq, first_is}

abbrev pub max_labels : ℕ
max_labels = 64

abbrev pub max_label_len : ℕ
max_label_len = 32

abbrev pub max_fixups : ℕ
max_fixups = 64

pub data Error : Type 0 where
  ok : Error
  err_syntax : Error
  err_unknown_inst : Error
  err_unknown_reg : Error
  err_unknown_label : Error
  err_duplicate_label : Error
  err_too_many_labels : Error
  err_too_many_fixups : Error
  err_invalid_operand : Error
  err_out_of_range : Error
  err_memory : Error
  err_internal : Error

pub record Label : Type 0 where
  pub name : List ℕ
  pub address : ℕ
  pub defined : Bool
  pub is_local : Bool

pub record Fixup : Type 0 where
  pub location : ℕ
  pub label : List ℕ
  pub size : ℕ
  pub relative : Bool
  pub base : ℕ

-- The two tables are the lists of their entries in use, so their lengths are the counters.
pub record State : Type 0 where
  pub output : Memory
  pub output_size : ℕ
  pub output_capacity : ℕ
  pub org : ℕ
  pub pc : ℕ
  pub labels : List Label
  pub fixups : List Fixup
  pub current_scope : List ℕ
  pub error : Error
  pub error_line : ℕ
  pub pass : ℕ
  pub lines_processed : ℕ
  pub instructions_emitted : ℕ

unfoldable pub init : Memory → ℕ → State
init output capacity = record {
  output = output;
  output_size = 0;
  output_capacity = capacity;
  org = 0;
  pc = 0;
  labels = [];
  fixups = [];
  current_scope = [];
  error = ok;
  error_line = 0;
  pass = 1;
  lines_processed = 0;
  instructions_emitted = 0;
}

unfoldable pub reset : State → State
reset state = record state {
  output_size = 0;
  pc = state.org;
  fixups = [];
  current_scope = [];
  error = ok;
  error_line = 0;
  lines_processed = 0;
  instructions_emitted = 0;
}

unfoldable pub emit_byte : ℕ → State → State
emit_byte b state = record state {
  output =
      if state.pass == 2 && ltb state.output_size state.output_capacity
      then update state.output state.output_size (b % 256)
      else state.output;
  output_size = add32 state.output_size 1;
  pc = add32 state.pc 1;
}

unfoldable pub emit_word : ℕ → State → State
emit_word w state = emit_byte (w / 2 ^ 8) (emit_byte w state)

unfoldable pub emit_dword : ℕ → State → State
emit_dword d state =
    emit_byte (d / 2 ^ 24) (emit_byte (d / 2 ^ 16) (emit_byte (d / 2 ^ 8) (emit_byte d state)))

abbrev pub is_local_name : List ℕ → Bool
is_local_name name = first_is (λ c. c == b'.') name

-- `Handle local labels - prepend current scope`
abbrev pub full_name : State → List ℕ → List ℕ
full_name state name = if is_local_name name then state.current_scope ++ name else name

-- The entry of the table with the name.
unfoldable pub search_labels : List Label → List ℕ → Option ℕ
search_labels labels name = find_index (λ (l : Label). strcasecmp_eq l.name name) labels

abbrev pub no_label : Label
no_label = record { name = []; address = 0; defined = false; is_local = false }

unfoldable pub find_label : State → List ℕ → Option ℕ
unfolding search_labels
find_label state name = search_labels state.labels (full_name state name)

abbrev pub label_at : State → ℕ → Label
label_at state i = get_or state.labels i no_label

-- `Add new label`
abbrev pub new_label : List ℕ → ℕ → Label
new_label name addr = record {
  name = take (max_label_len - 1) name;
  address = addr;
  defined = true;
  is_local = is_local_name name;
}

unfoldable pub add_label : State → List ℕ → ℕ → Bool × State
add_label state name addr = elim (find_label state name) [
  | some i ↦
      let label : Label = record (label_at state i) { address = addr; defined = true } in
      if (label_at state i).defined && state.pass == 1
      then (false, record state { error = err_duplicate_label })
      else (true, record state { labels = set state.labels i label })
  | none ↦
      if leb max_labels (length state.labels)
      then (false, record state { error = err_too_many_labels })
      else (
        true,
        record state {
          labels = state.labels ++ (new_label name addr ∷ []);
          current_scope = if is_local_name name then state.current_scope else name;
        },
      )
]

-- The source returns false when the table is full, and its callers do not look at the result. It
-- copies the name of a local label behind the scope without a bound into 32 bytes, and writes behind
-- them if both together are longer; the name is kept whole here.
unfoldable pub add_fixup : List ℕ → ℕ → ℕ → Bool → ℕ → State → State
add_fixup label loc size relative base state =
    let fixup : Fixup = record {
      location = loc;
      label =
          if is_local_name label
          then state.current_scope ++ label
          else take (max_label_len - 1) label;
      size = size;
      relative = relative;
      base = base;
    } in
    if leb max_fixups (length state.fixups)
    then record state { error = err_too_many_fixups }
    else record state { fixups = state.fixups ++ (fixup ∷ []) }

-- `value >= -128 && value <= 127` of an `int32_t`
abbrev pub fits_byte : ℕ → Bool
fits_byte value = ltb value 128 || leb (2 ^ 32 - 128) value

-- The bytes that `rfasm_resolve_fixups` stores, without a test against the size of the buffer.
unfoldable pub patch : ℕ → ℕ → ℕ → Memory → Memory
patch size loc value output =
    if size == 1
    then update output loc (value % 256)
    else if size == 2
    then update (update output loc (value % 256)) (loc + 1) (value / 2 ^ 8 % 256)
    else if size == 4
    then update
        (update (update (update output loc (value % 256)) (loc + 1) (value / 2 ^ 8 % 256)) (loc + 2)
          (value / 2 ^ 16 % 256))
        (loc + 3) (value / 2 ^ 24 % 256)
    else output

-- The body of the loop for a fixup whose label is found.
abbrev pub fixup_value : Fixup → Label → ℕ
fixup_value fixup label = if fixup.relative then sub32 label.address fixup.base else label.address

unfoldable pub resolve_from : List Fixup → State → Bool × State
resolve_from [] state = (true, state)
resolve_from (fixup ∷ fixups) state = elim (search_labels state.labels fixup.label) [
  | none ↦ (false, record state { error = err_unknown_label })
  | some i ↦
      let value = fixup_value fixup (label_at state i) in
      let rest =
        resolve_from fixups
          (record state { output = patch fixup.size fixup.location value state.output }) in
      if not (label_at state i).defined
      then (false, record state { error = err_unknown_label })
      else if fixup.size == 1 && not (fits_byte value)
      then (false, record state { error = err_out_of_range })
      else rest
]

unfoldable pub resolve_fixups : State → Bool × State
resolve_fixups state = resolve_from state.fixups state
