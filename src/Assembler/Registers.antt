-- ===== src/Assembler/Registers.antt =====
-- include/rfasm.h: the registers, by their values in `rfasm_reg_t`, and their table.
use retrofuture_os.Base.{ℕ, Bool, Option, none, some, List, [], ◌∷◌, ◌==◌, if◌then◌else◌}
use retrofuture_os.Assembler.Text.{strcasecmp_eq}

abbrev pub reg_eax : ℕ
reg_eax = 0

abbrev pub reg_ax : ℕ
reg_ax = 8

abbrev pub reg_dx : ℕ
reg_dx = 10

abbrev pub reg_al : ℕ
reg_al = 16

abbrev pub reg_cl : ℕ
reg_cl = 17

abbrev pub reg_none : ℕ
reg_none = 0xFF

pub record RegEntry : Type 0 where
  pub name : List ℕ
  pub reg : ℕ
  pub size : ℕ
  pub encoding : ℕ

abbrev pub entry : List ℕ → ℕ → ℕ → ℕ → RegEntry
entry name reg size encoding = record { name = name; reg = reg; size = size; encoding = encoding }

-- `g_registers` without the entry that ends it.
abbrev pub registers : List RegEntry
registers =
    (entry (b'E' ∷ b'A' ∷ b'X' ∷ []) 0 4 0)
    ∷ (entry (b'E' ∷ b'C' ∷ b'X' ∷ []) 1 4 1)
    ∷ (entry (b'E' ∷ b'D' ∷ b'X' ∷ []) 2 4 2)
    ∷ (entry (b'E' ∷ b'B' ∷ b'X' ∷ []) 3 4 3)
    ∷ (entry (b'E' ∷ b'S' ∷ b'P' ∷ []) 4 4 4)
    ∷ (entry (b'E' ∷ b'B' ∷ b'P' ∷ []) 5 4 5)
    ∷ (entry (b'E' ∷ b'S' ∷ b'I' ∷ []) 6 4 6)
    ∷ (entry (b'E' ∷ b'D' ∷ b'I' ∷ []) 7 4 7)
    ∷ (entry (b'A' ∷ b'X' ∷ []) 8 2 0)
    ∷ (entry (b'C' ∷ b'X' ∷ []) 9 2 1)
    ∷ (entry (b'D' ∷ b'X' ∷ []) 10 2 2)
    ∷ (entry (b'B' ∷ b'X' ∷ []) 11 2 3)
    ∷ (entry (b'S' ∷ b'P' ∷ []) 12 2 4)
    ∷ (entry (b'B' ∷ b'P' ∷ []) 13 2 5)
    ∷ (entry (b'S' ∷ b'I' ∷ []) 14 2 6)
    ∷ (entry (b'D' ∷ b'I' ∷ []) 15 2 7)
    ∷ (entry (b'A' ∷ b'L' ∷ []) 16 1 0)
    ∷ (entry (b'C' ∷ b'L' ∷ []) 17 1 1)
    ∷ (entry (b'D' ∷ b'L' ∷ []) 18 1 2)
    ∷ (entry (b'B' ∷ b'L' ∷ []) 19 1 3)
    ∷ (entry (b'A' ∷ b'H' ∷ []) 20 1 4)
    ∷ (entry (b'C' ∷ b'H' ∷ []) 21 1 5)
    ∷ (entry (b'D' ∷ b'H' ∷ []) 22 1 6)
    ∷ (entry (b'B' ∷ b'H' ∷ []) 23 1 7)
    ∷ (entry (b'E' ∷ b'S' ∷ []) 24 2 0)
    ∷ (entry (b'C' ∷ b'S' ∷ []) 25 2 1)
    ∷ (entry (b'S' ∷ b'S' ∷ []) 26 2 2)
    ∷ (entry (b'D' ∷ b'S' ∷ []) 27 2 3)
    ∷ (entry (b'F' ∷ b'S' ∷ []) 28 2 4)
    ∷ (entry (b'G' ∷ b'S' ∷ []) 29 2 5)
    ∷ []

abbrev pub first_entry : (RegEntry → Bool) → List RegEntry → Option RegEntry
first_entry test [] = none
first_entry test (e ∷ es) = let rest = first_entry test es in if test e then some e else rest

-- The register with its size and encoding; `REG_NONE` for a name that is not in the table.
unfoldable pub lookup_reg : List ℕ → ℕ × ℕ × ℕ
lookup_reg name = elim (first_entry (λ (e : RegEntry). strcasecmp_eq name e.name) registers) [
  | none ↦ (reg_none, 0, 0)
  | some e ↦ (e.reg, e.size, e.encoding)
]

unfoldable pub reg_encoding : ℕ → ℕ
reg_encoding reg = elim (first_entry (λ (e : RegEntry). e.reg == reg) registers) [
  | none ↦ 0
  | some e ↦ e.encoding
]

unfoldable pub reg_size : ℕ → ℕ
reg_size reg = elim (first_entry (λ (e : RegEntry). e.reg == reg) registers) [
  | none ↦ 4
  | some e ↦ e.size
]
