-- ===== src/Assembler/Fixups.antt =====
-- include/rfasm.h: where `rfasm_resolve_fixups` stores.
use retrofuture_os.Base.{
  ℕ, ◌+◌, ◌≤◌, not, ◌&&◌, ◌≡◌, inl, inr, refl, ◌∙◌, List, [], ◌∷◌, arith, ◌==◌, Memory, Bool-cases,
  Option-cases,
}
use retrofuture_os.Assembler.State.{
  State, Fixup, search_labels, label_at, fixup_value, fits_byte, patch, resolve_from,
  resolve_fixups,
}

-- Every one of the references lies before `limit`.
abbrev pub LieBefore : ℕ → List Fixup → Type 0
LieBefore limit [] = limit ≡ limit
LieBefore limit (f ∷ fs) = (f.location + f.size ≤ limit) × LieBefore limit fs

patch_outside :
    (size loc value a : ℕ) (output : Memory)
    → loc + size ≤ a
    → patch size loc value output a ≡ output a
unfolding patch
patch_outside size loc value a output h = ground arith

resolve_from-outside :
    (fixups : List Fixup) (s : State) (limit a : ℕ)
    → LieBefore limit fixups
    → limit ≤ a
    → (resolve_from fixups s).1.output a ≡ s.output a
unfolding resolve_from
resolve_from-outside [] s limit a all h = refl
resolve_from-outside (f ∷ fs) s limit a (first, all) h =
    elim (Option-cases (search_labels s.labels f.label)) [
      | inl unknown ↦ rw (resolve_from, unknown) refl
      | inr (i, known) ↦ elim (Bool-cases (not (label_at s i).defined)) [
        | inl u ↦ rw (resolve_from, known) (rw u refl)
        | inr d ↦
            elim (Bool-cases (f.size == 1 && not (fits_byte (fixup_value f (label_at s i))))) [
              | inl far ↦ rw (resolve_from, known) (rw (d, far) refl)
              | inr near ↦
                  rw (resolve_from, known)
                    (rw (d, near)
                      (resolve_from-outside fs
                          (record s {
                            output =
                                patch f.size f.location (fixup_value f (label_at s i)) s.output;
                          })
                          limit a all h
                        ∙ patch_outside f.size f.location (fixup_value f (label_at s i)) a s.output
                            (omega arith)))
            ]
      ]
    ]

-- rfasm_resolve_fixups stores nothing at or behind a limit that every reference lies before.
pub resolve_fixups-LieBefore :
    (s : State) (limit a : ℕ)
    → LieBefore limit s.fixups
    → limit ≤ a
    → (resolve_fixups s).1.output a ≡ s.output a
unfolding resolve_fixups
resolve_fixups-LieBefore s limit a all h = resolve_from-outside s.fixups s limit a all h
