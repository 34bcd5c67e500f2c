-- ===== src/RamDisk/Delete.antt =====
-- `ramdisk_delete`: how it ends, what it does to the map from names to files, and that it keeps
-- the invariant.
use retrofuture_os.Base.{
  ℕ, ◌≡◌, ◌≢◌, refl, sym, ◌∙◌, Bool, true, false, not, ◌&&◌, Option, none, some, List, [], set,
  find_index, arith, inl, inr, ◌⊎◌, Option-cases, Bool-cases, if◌then◌else◌, find_index-none,
  find_index-some, find_index_absent, get_or-set_self, get_or-set_ne, get_or-default, has_flag,
  count-set, count-le-length, take_all,
}
use native.Mathlib.Decide.{ℕ_discrete}
use retrofuture_os.RamDisk.Types.{
  Error, File, Disk, entry, fail, blank_file, is_used, strcasecmp_eq, file_readonly, file_free,
}
use retrofuture_os.RamDisk.Table.{is_named, create, delete, new_file, put_new, put_deleted}
use retrofuture_os.RamDisk.Find.{strcasecmp_eq_congr, strcasecmp_eq_symm}
use retrofuture_os.RamDisk.Valid.{IsValid, IsValid-congr, IsValid-set, entry-set}
use retrofuture_os.RamDisk.Create.{lookup, create_cases, is_named_congr, lookup-set-false}

-- No two files in use have names that are equal up to case.
abbrev pub HasUniqueNames : Disk → Type 0
HasUniqueNames rd =
    (i j : ℕ)
    → i ≢ j
    → is_used (entry rd i) ≡ true
    → is_used (entry rd j) ≡ true
    → strcasecmp_eq (entry rd i).name (entry rd j).name ≡ false

abbrev deleted_file : Disk → ℕ → File
deleted_file rd i = record (entry rd i) { flags = file_free; name = [] }

abbrev pub Deleted : Disk → List ℕ → Bool × Disk → Type 0
Deleted rd name r =
    (i : ℕ) × (find_index (is_named name) rd.files ≡ some i)
    × (has_flag (entry rd i).flags file_readonly ≡ false)
    × (r ≡ (true, put_deleted rd i))

-- It fails and changes only the error code, or frees the entry of a file that is not read-only.
pub delete_cases :
    (rd : Disk) (name : List ℕ)
    → ((e : Error) × (delete rd name ≡ (false, fail rd e))) ⊎ Deleted rd name (delete rd name)
unfolding delete
delete_cases rd name = elim (Bool-cases rd.initialized) [
  | inr off ↦ inl (Error.not_init, ground arith)
  | inl on ↦ elim (Option-cases (find_index (is_named name) rd.files)) [
    | inl e ↦ inl (Error.not_found, ground arith)
    | inr (i, e) ↦ elim (Bool-cases (has_flag (entry rd i).flags file_readonly)) [
      | inl locked ↦ inl (Error.readonly, ground arith)
      | inr free ↦ inr (i, e, free, ground arith)
    ]
  ]
]

pub delete-IsValid : (rd : Disk) (name : List ℕ) → IsValid rd → IsValid (delete rd name).1
delete-IsValid rd name v = elim (delete_cases rd name) [
  | inl (e, r) ↦ rw r (IsValid-congr refl refl refl refl refl v)
  | inr (i, e, free, r) ↦
      let f = deleted_file rd i in
      let s = find_index-some (is_named name) rd.files i blank_file e in
      rw r (
        IsValid-set rd (put_deleted rd i) i f v refl
          (ground (
            arith,
            count-set is_used rd.files i f blank_file s.0,
            count-le-length is_used rd.files,
            v.slots,
            v.counted,
            s.1,
          ))
          v.packed (omega arith) v.in_area refl (v.placed i) (v.sized i) (λ j ne. v.apart i j ne))
]

module _ (rd : Disk) (name : List ℕ) (i : ℕ) (unique : HasUniqueNames rd)
    (found : find_index (is_named name) rd.files ≡ some i) where
  -- No entry but the one found answers to the name.
  not-is_named_other : (j : ℕ) → i ≢ j → is_named name (entry rd j) ≡ false
  not-is_named_other j ne =
      let s = find_index-some (is_named name) rd.files i blank_file found in
      ground (
        arith,
        s.1,
        unique i j ne,
        strcasecmp_eq_congr (entry rd i).name name (entry rd j).name,
        strcasecmp_eq_symm (entry rd j).name name,
      )

  pub gone : find_index (is_named name) (put_deleted rd i).files ≡ none
  gone = find_index_absent (is_named name) (put_deleted rd i).files blank_file λ j q.
      elim (ℕ_discrete i j) [
        | yes e ↦
            let s = find_index-some (is_named name) rd.files i blank_file found in
            rw (← e, get_or-set_self rd.files i (deleted_file rd i) blank_file s.0) refl
        | no ne ↦
            rw (get_or-set_ne rd.files i j (deleted_file rd i) blank_file ne)
              (not-is_named_other j ne)
      ]

lookup-delete :
    (rd : Disk) (name n : List ℕ)
    → HasUniqueNames rd
    → (delete rd name).0 ≡ true
    → lookup (delete rd name).1 n ≡ (if strcasecmp_eq name n then none else lookup rd n)
lookup-delete rd name n unique done = elim (delete_cases rd name) [
  | inl (e, r) ↦ absurd (cc)
  | inr (i, e, free, r) ↦ elim (Bool-cases (strcasecmp_eq name n)) [
    | inl same ↦ rw (r, same, is_named_congr name n same, gone rd name i unique e)
    | inr other ↦
        let s = find_index-some (is_named name) rd.files i blank_file e in
        rw (r, other)
          (lookup-set-false rd (put_deleted rd i) i (deleted_file rd i) n refl
            (ground (arith, s.1, strcasecmp_eq_congr (entry rd i).name name n)) refl)
  ]
]

-- There is a file, and it is not read-only.
abbrev pub is_removable : Option File → Bool
is_removable none = false
is_removable (some f) = not (has_flag f.flags file_readonly)

delete-is_removable :
    (rd : Disk) (name : List ℕ)
    → (delete rd name).0 ≡ (rd.initialized && is_removable (lookup rd name))
unfolding delete
delete-is_removable rd name = elim (Bool-cases rd.initialized) [
  | inr off ↦ ground arith
  | inl on ↦ elim (Option-cases (find_index (is_named name) rd.files)) [
    | inl e ↦ ground arith
    | inr (i, e) ↦ ground arith
  ]
]

-- On a disk whose names are unique up to case, `ramdisk_delete` succeeds exactly if the disk is set
-- up and the name, in any case of letters, stands for a file that is not read-only. It then stands
-- for nothing; every other name, and every name when the call fails, stands for what it did before.
pub delete-lookup :
    (rd : Disk) (name n : List ℕ)
    → HasUniqueNames rd
    → ((delete rd name).0 ≡ (rd.initialized && is_removable (lookup rd name)))
      × (lookup (delete rd name).1 n
          ≡ (if (delete rd name).0 && strcasecmp_eq name n then none else lookup rd n))
delete-lookup rd name n unique = (
  delete-is_removable rd name,
  elim (Bool-cases (delete rd name).0) [
    | inl done ↦ rw done (lookup-delete rd name n unique done)
    | inr failed ↦
        rw failed (elim (delete_cases rd name) [
          | inl (e, r) ↦ rw r refl
          | inr (i, e, free, r) ↦ absurd (cc)
        ])
  ],
)

-- One entry is replaced by a file whose name, if it is in use, no other file in use has.
HasUniqueNames-set :
    (rd rd' : Disk) (i : ℕ) (f : File)
    → rd'.files ≡ set rd.files i f
    → HasUniqueNames rd
    → ((j : ℕ)
        → i ≢ j
        → is_used f ≡ true
        → is_used (entry rd j) ≡ true
        → strcasecmp_eq f.name (entry rd j).name ≡ false)
    → HasUniqueNames rd'
HasUniqueNames-set rd rd' i f fs unique fresh j k ne = rw fs (elim (entry-set rd.files i j f) [
  | inl (h, ej) ↦ elim (entry-set rd.files i k f) [
    | inl (h', ek) ↦ absurd (ne (sym ej ∙ ek))
    | inr h' ↦ rw (h, h') (fresh k (rw ej ne))
  ]
  | inr h ↦ elim (entry-set rd.files i k f) [
    | inl (h', ek) ↦
        rw (h, h')
          λ uj uf.
            strcasecmp_eq_symm (entry rd j).name f.name ∙ fresh j (λ e. ne (sym e ∙ ek)) uf uj
    | inr h' ↦ rw (h, h') (unique j k ne)
  ]
])

-- `ramdisk_create` and `ramdisk_delete` keep the names unique up to case, whether they succeed or
-- fail.
pub create-delete-HasUniqueNames :
    (now : ℕ) (rd : Disk) (name : List ℕ) (flags : ℕ)
    → HasUniqueNames rd
    → HasUniqueNames (create now rd name flags).1 × HasUniqueNames (delete rd name).1
create-delete-HasUniqueNames now rd name flags unique = (
  elim (create_cases now rd name flags) [
    | inl (e, r) ↦ rw r unique
    | inr (slot, q, free, absent, small, r) ↦ rw r (
        HasUniqueNames-set rd (put_new now rd slot name flags) slot (new_file now name flags) refl
          unique
          λ j ne uf uj. ground (
            arith,
            take_all 31 name,
            strcasecmp_eq_symm name (entry rd j).name,
            find_index-none (is_named name) rd.files j blank_file absent,
            get_or-default rd.files j blank_file,
          ))
  ],
  elim (delete_cases rd name) [
    | inl (e, r) ↦ rw r unique
    | inr (i, e, free, r) ↦ rw r (
        HasUniqueNames-set rd (put_deleted rd i) i (deleted_file rd i) refl unique
          λ j ne uf uj. absurd (cc (uf)))
  ],
)
