-- ===== src/RamDisk/Create.antt =====
-- `ramdisk_create` and `ramdisk_delete`: how they end, what they do to the map from names to
-- files, and that they keep the invariant.
use retrofuture_os.Base.{
  ℕ, ◌<◌, ◌≡◌, refl, ◌∙◌, Bool, true, false, not, ◌||◌, ◌&&◌, ltb, bit_or, Option, none, some, List,
  length, set, find_index, arith, inl, inr, ◌⊎◌, Option-cases, Bool-cases, if◌then◌else◌, leb, ◌==◌,
  find_index-some, find_index-set-false, find_index-set-true, get_or-set_self, get_or-set_ne,
  length-set, has_flag-or_one, take_all, count-set, count-le-length, ap,
}
use mathlib.Core.Option
use mathlib.Core.Path.{fun_ext}
use retrofuture_os.RamDisk.Types.{
  Error, File, Disk, entry, fail, blank_file, is_used, strcasecmp_eq,
}
use retrofuture_os.RamDisk.Table.{is_named, create, new_file, put_new}
use retrofuture_os.RamDisk.Find.{strcasecmp_eq_congr, strcasecmp_eq_symm}
use retrofuture_os.RamDisk.Valid.{IsValid, IsValid-congr, IsValid-set}

abbrev pub is_none {ℓ} : {A : Type ℓ} → Option A → Bool
is_none none = true
is_none (some f) = false

-- The abstract view of the table: the file that a name stands for, if any.
abbrev pub lookup : Disk → List ℕ → Option File
lookup rd name = Option.map (entry rd) (find_index (is_named name) rd.files)

abbrev pub Made : ℕ → Disk → List ℕ → ℕ → Bool × Disk → Type 0
Made now rd name flags r =
    (slot : ℕ) × (slot < length rd.files)
    × (is_used (entry rd slot) ≡ false)
    × (find_index (is_named name) rd.files ≡ none)
    × (length name < 32)
    × (r ≡ (true, put_new now rd slot name flags))

-- It fails and changes only the error code, or writes one entry that was free.
pub create_cases :
    (now : ℕ) (rd : Disk) (name : List ℕ) (flags : ℕ)
    → ((e : Error) × (create now rd name flags ≡ (false, fail rd e)))
      ⊎ Made now rd name flags (create now rd name flags)
unfolding create
create_cases now rd name flags = elim (Bool-cases rd.initialized) [
  | inr off ↦ inl (Error.not_init, ground arith)
  | inl on ↦ elim (Bool-cases (length name == 0 || leb 32 (length name))) [
    | inl bad ↦ inl (Error.invalid, ground arith)
    | inr good ↦ elim (Option-cases (find_index (is_named name) rd.files)) [
      | inr (i, e) ↦ inl (Error.exists, ground arith)
      | inl e ↦ elim (Option-cases (find_index (λ f. not (is_used f)) rd.files)) [
        | inl full ↦ inl (Error.no_slots, ground arith)
        | inr (slot, free) ↦
            let s = find_index-some (λ f. not (is_used f)) rd.files slot blank_file free in
            inr (slot, s.0, ground arith, e, ground arith, ground arith)
      ]
    ]
  ]
]

-- A name answers to the same entries as another that is equal to it up to case.
pub is_named_congr : (name n : List ℕ) → strcasecmp_eq name n ≡ true → is_named n ≡ is_named name
is_named_congr name n e = fun_ext λ f. ground (
  arith,
  strcasecmp_eq_congr name n f.name e,
  strcasecmp_eq_symm f.name n,
  strcasecmp_eq_symm f.name name,
)

-- A write to an entry that a name does not answer to, before or after, leaves what it stands for.
pub lookup-set-false :
    (rd rd' : Disk) (i : ℕ) (f : File) (n : List ℕ)
    → rd'.files ≡ set rd.files i f
    → is_named n (entry rd i) ≡ false
    → is_named n f ≡ false
    → lookup rd' n ≡ lookup rd n
lookup-set-false rd rd' i f n fs old new =
    rw (fs, find_index-set-false (is_named n) rd.files i f blank_file old new)
      (elim (Option-cases (find_index (is_named n) rd.files)) [
        | inl e ↦ rw e
        | inr (k, e) ↦
            let s = find_index-some (is_named n) rd.files k blank_file e in
            rw e (
              ap some (
                get_or-set_ne rd.files i k f blank_file
                  λ same. absurd (cc (ap (λ j. is_named n (entry rd j)) same, s.1))))
      ])

module _ (now : ℕ) (rd : Disk) (name : List ℕ) (flags : ℕ) where
  -- The entry that is written answers to the names that are equal to its own up to case.
  pub is_named-new :
      (n : List ℕ) → length name < 32 → is_named n (new_file now name flags) ≡ strcasecmp_eq name n
  is_named-new n small = rw (has_flag-or_one flags, take_all 31 name (omega arith))

  pub lookup-put_new :
      (slot : ℕ) (n : List ℕ)
      → slot < length rd.files
      → is_used (entry rd slot) ≡ false
      → find_index (is_named name) rd.files ≡ none
      → length name < 32
      → lookup (put_new now rd slot name flags) n
        ≡ (if strcasecmp_eq name n then some (new_file now name flags) else lookup rd n)
  lookup-put_new slot n q free absent small = elim (Bool-cases (strcasecmp_eq name n)) [
    | inl same ↦
        let absent' : find_index (is_named n) rd.files ≡ none =
          rw (is_named_congr name n same) absent in
        rw (
          same,
          find_index-set-true (is_named n) rd.files slot (new_file now name flags) q absent'
              (is_named-new n small ∙ same),
          get_or-set_self rd.files slot (new_file now name flags) blank_file q,
        )
    | inr other ↦ rw other (
        lookup-set-false rd (put_new now rd slot name flags) slot (new_file now name flags) n refl
          (rw free) (is_named-new n small ∙ other))
  ]

-- What `ramdisk_create` asks for before it makes a file.
abbrev pub is_creatable : Disk → List ℕ → Bool
is_creatable rd name =
    rd.initialized
    && (ltb 0 (length name)
        && (ltb (length name) 32
            && (is_none (lookup rd name)
                && not (is_none (find_index (λ f. not (is_used f)) rd.files)))))

create-is_creatable :
    (now : ℕ) (rd : Disk) (name : List ℕ) (flags : ℕ)
    → (create now rd name flags).0 ≡ is_creatable rd name
unfolding create
create-is_creatable now rd name flags = elim (Bool-cases rd.initialized) [
  | inr off ↦ ground arith
  | inl on ↦ elim (Bool-cases (length name == 0 || leb 32 (length name))) [
    | inl bad ↦ ground arith
    | inr good ↦ elim (Option-cases (find_index (is_named name) rd.files)) [
      | inr (i, e) ↦ ground arith
      | inl e ↦ elim (Option-cases (find_index (λ f. not (is_used f)) rd.files)) [
        | inl full ↦ ground arith
        | inr (slot, free) ↦ ground arith
      ]
    ]
  ]
]

-- `ramdisk_create` succeeds exactly if the disk is set up, the name has 1 to 31 characters and stands
-- for no file, and an entry is free. The name, in any case of letters, then stands for a file of
-- size 0 without allocated space, with that name, the flags asked for and USED, created and modified
-- now; every other name, and every name when the call fails, stands for what it did before.
pub create-lookup :
    (now : ℕ) (rd : Disk) (name : List ℕ) (flags : ℕ) (n : List ℕ)
    → ((create now rd name flags).0 ≡ is_creatable rd name)
      × (lookup (create now rd name flags).1 n ≡ (
          if (create now rd name flags).0 && strcasecmp_eq name n
          then some (record {
            name = name;
            size = 0;
            offset = 0;
            allocated = 0;
            flags = bit_or 1 flags;
            created = now;
            modified = now;
          })
          else lookup rd n))
create-lookup now rd name flags n = (
  create-is_creatable now rd name flags,
  elim (create_cases now rd name flags) [
    | inl (e, r) ↦ rw r refl
    | inr (slot, q, free, absent, small, r) ↦ rw r (
        lookup-put_new now rd name flags slot n q free absent small
        ∙ ap (λ s. if strcasecmp_eq name n then some (stored s) else lookup rd n)
            (take_all 31 name (omega arith)))
  ],
)
  where
    stored : List ℕ → File
    stored s = record {
      name = s;
      size = 0;
      offset = 0;
      allocated = 0;
      flags = bit_or 1 flags;
      created = now;
      modified = now;
    }

pub create-IsValid :
    (now : ℕ) (rd : Disk) (name : List ℕ) (flags : ℕ)
    → IsValid rd
    → IsValid (create now rd name flags).1
create-IsValid now rd name flags v = elim (create_cases now rd name flags) [
  | inl (e, r) ↦ rw r (IsValid-congr refl refl refl refl refl v)
  | inr (slot, q, free, absent, small, r) ↦
      let f = new_file now name flags in
      let more = count-set is_used rd.files slot f blank_file q in
      let few = count-le-length is_used (set rd.files slot f) in
      rw r (
        IsValid-set rd (put_new now rd slot name flags) slot f v refl
          (ground (
            arith,
            more,
            few,
            v.slots,
            v.counted,
            length-set rd.files slot f,
            has_flag-or_one flags,
          ))
          v.packed (omega arith) v.in_area refl (omega arith) (omega arith)
          (λ j ne. inl (omega arith)))
]
