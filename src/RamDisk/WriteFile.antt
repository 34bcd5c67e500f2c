-- ===== src/RamDisk/WriteFile.antt =====
-- `ramdisk_open` for writing, and `ramdisk_write_file` followed by `ramdisk_read_file`.
use retrofuture_os.Base.{
  ℕ, ◌+◌, ◌^◌, ◌<◌, ◌≤◌, ◌≡◌, refl, sym, ◌∙◌, ap, true, false, none, some, List, ◌++◌, length,
  find_index, arith, inl, inr, ◌⊎◌, min, Bool-cases, Option-cases, if◌then◌else◌, has_flag, take,
  take-min, drop_all, length-peek, get_or-set_self, find_index-set-true, find_index-some,
  find_index-least, find_index_first, append-nil,
}
use native.Mathlib.Decide.{ℕ_discrete}
use retrofuture_os.RamDisk.Types.{
  ok, Disk, Handle, entry, fail, blank_file, blank_handle, is_used, max_files, file_readonly,
  not_found, readonly,
}
use retrofuture_os.RamDisk.Table.{is_named, find, create, delete, new_file, put_new, put_deleted}
use retrofuture_os.RamDisk.Handle.{open_at, open_new, open_file, opened, read, write}
use retrofuture_os.RamDisk.Files.{read_file, write_file}
use retrofuture_os.RamDisk.Valid.{IsValid, IsValid-congr}
use retrofuture_os.RamDisk.Create.{create_cases, create-IsValid, is_named-new}
use retrofuture_os.RamDisk.Delete.{HasUniqueNames, delete-IsValid, gone}
use retrofuture_os.RamDisk.Find.{strcasecmp_eq_refl}
use retrofuture_os.RamDisk.Contents.{content, overwrite, Wrote, write-Wrote}
use retrofuture_os.RamDisk.Roundtrip.{read-DidRead}

-- The name stands for a new, empty file.
record IsFresh (rd : Disk) (name : List ℕ) (slot : ℕ) : Type 0 where
  valid : IsValid rd
  on : rd.initialized ≡ true
  in_table : slot < max_files
  named : find_index (is_named name) rd.files ≡ some slot
  empty : (entry rd slot).size ≡ 0
  unlocked : has_flag (entry rd slot).flags file_readonly ≡ false

module _ (now : ℕ) (rd : Disk) (name : List ℕ) (v : IsValid rd) (on : rd.initialized ≡ true) where
  made-IsFresh :
      (slot : ℕ)
      → slot < length rd.files
      → is_used (entry rd slot) ≡ false
      → find_index (is_named name) rd.files ≡ none
      → length name < 32
      → IsValid (put_new now rd slot name 0)
      → IsFresh (put_new now rd slot name 0) name slot
  made-IsFresh slot q free absent small valid =
      let self = get_or-set_self rd.files slot (new_file now name 0) blank_file q in
      record {
        valid = valid;
        on = on;
        in_table = omega (arith, v.slots);
        named =
            find_index-set-true (is_named name) rd.files slot (new_file now name 0) q absent
              (is_named-new now rd name 0 name small ∙ strcasecmp_eq_refl name);
        empty = rw self refl;
        unlocked = rw self refl;
      }

  find_absent :
      find_index (is_named name) rd.files ≡ none → find rd name ≡ (none, fail rd not_found)
  unfolding find
  find_absent absent = ground arith

  find_present :
      (i : ℕ) → find_index (is_named name) rd.files ≡ some i → find rd name ≡ (some i, rd)
  unfolding find
  find_present i found = ground arith

  open_absent-eq :
      (h : Handle)
      → find_index (is_named name) rd.files ≡ none
      → open_file now rd name h true ≡ open_new now (fail rd not_found) name true
  unfolding open_file
  open_absent-eq h absent = ground (arith, find_absent absent)

  open_locked :
      (h : Handle) (i : ℕ)
      → find_index (is_named name) rd.files ≡ some i
      → has_flag (entry rd i).flags file_readonly ≡ true
      → (open_file now rd name h true).0 ≡ false
  unfolding open_file open_at
  open_locked h i found locked = ground (arith, find_present i found)

  open_new-eq :
      (rd1 : Disk) (slot : ℕ)
      → create now rd name 0 ≡ (true, rd1)
      → find rd1 name ≡ (some slot, rd1)
      → open_new now rd name true ≡ open_at rd1 slot true
  unfolding open_new
  open_new-eq rd1 slot made found = ground arith

  open_new_fails :
      (rd1 : Disk) → create now rd name 0 ≡ (false, rd1) → (open_new now rd name true).0 ≡ false
  unfolding open_new
  open_new_fails rd1 refused = rw refused

-- Opening a name that stands for nothing for writing fails, or creates the file.
open_absent :
    (now : ℕ) (rd : Disk) (name : List ℕ) (h : Handle)
    → IsValid rd
    → rd.initialized ≡ true
    → find_index (is_named name) rd.files ≡ none
    → ((open_file now rd name h true).0 ≡ false)
      ⊎ ((rd1 : Disk) × (slot : ℕ) × IsFresh rd1 name slot
          × (open_file now rd name h true ≡ open_at rd1 slot true))
open_absent now rd name h v on absent =
    let rdf = fail rd not_found in
    let vf : IsValid rdf = IsValid-congr refl refl refl refl refl v in
    rw (open_absent-eq now rd name v on h absent) (elim (create_cases now rdf name 0) [
      | inl (e, r) ↦ inl (open_new_fails now rdf name vf on (fail rdf e) r)
      | inr (slot, q, free, none_yet, small, r) ↦
          let rd1 = put_new now rdf slot name 0 in
          let fresh =
            made-IsFresh now rdf name vf on slot q free none_yet small
              (rw r at (create-IsValid now rdf name 0 vf)) in
          inr (
            rd1,
            slot,
            fresh,
            open_new-eq now rdf name vf on rd1 slot r
                (find_present now rd1 name fresh.valid fresh.on slot fresh.named),
          )
    ])

module _ (rd : Disk) (name : List ℕ) (on : rd.initialized ≡ true) where
  delete_absent :
      find_index (is_named name) rd.files ≡ none → delete rd name ≡ (false, fail rd not_found)
  unfolding delete find
  delete_absent absent = ground arith

  delete_present :
      (i : ℕ)
      → find_index (is_named name) rd.files ≡ some i
      → delete rd name ≡ (
          if has_flag (entry rd i).flags file_readonly
          then (false, fail rd readonly)
          else (true, put_deleted rd i))
  unfolding delete find
  delete_present i found = ground arith

-- `ramdisk_delete` leaves the name standing for nothing, or for a file that is read-only.
delete_then :
    (rd : Disk) (name : List ℕ)
    → rd.initialized ≡ true
    → HasUniqueNames rd
    → let rd' = (delete rd name).1 in
      (rd'.initialized ≡ true)
      × ((find_index (is_named name) rd'.files ≡ none)
          ⊎ ((i : ℕ) × (find_index (is_named name) rd'.files ≡ some i)
              × (has_flag (entry rd' i).flags file_readonly ≡ true)))
delete_then rd name on unique = elim (Option-cases (find_index (is_named name) rd.files)) [
  | inl absent ↦ rw (delete_absent rd name on absent) (on, inl absent)
  | inr (i, found) ↦ elim (Bool-cases (has_flag (entry rd i).flags file_readonly)) [
    | inl locked ↦ rw (delete_present rd name on i found, locked) (on, inr (i, found, locked))
    | inr free ↦
        rw (delete_present rd name on i found, free) (on, inl (gone rd name i unique found))
  ]
]

-- `ramdisk_read_file` gives as much of the file that the name stands for as the buffer holds.
pub read_file-content :
    (now : ℕ) (rd : Disk) (name : List ℕ) (cap i : ℕ)
    → IsValid rd
    → rd.initialized ≡ true
    → find_index (is_named name) rd.files ≡ some i
    → (read_file now rd name cap).0 ≡ take cap (content rd i)
unfolding read_file open_file open_at
read_file-content now rd name cap i v on found =
    let rd1 = fail rd ok in
    let size = (entry rd i).size in
    let did =
      read-DidRead rd1 (opened i false) i (min size cap) (IsValid-congr refl refl refl refl refl v)
        refl refl (omega arith) in
    let size_eq : length (content rd i) ≡ size = length-peek rd.bytes (entry rd i).offset size in
    let opens : open_file now rd name blank_handle false ≡ (true, opened i false, rd1) =
      ground (arith, find_present now rd name v on i found) in
    let reads : (read_file now rd name cap).0 ≡ (read rd1 (opened i false) (min size cap)).0 =
      ground (arith, opens) in
    reads
    ∙ did.0
    ∙ ap (λ k. take (min k cap) (content rd i)) (sym size_eq)
    ∙ take-min cap (content rd i)

-- A new file that was written in one go.
fresh_written :
    (rd1 : Disk) (name : List ℕ) (slot : ℕ) (buf : List ℕ) (n : ℕ) (h' : Handle) (rd2 : Disk)
    → IsFresh rd1 name slot
    → Wrote rd1 (opened slot true) slot buf n h' rd2
    → (n ≡ 0)
      ⊎ (n ≡ length buf)
        × IsValid rd2
        × (rd2.initialized ≡ true)
        × (find_index (is_named name) rd2.files ≡ some slot)
        × (content rd2 slot ≡ buf)
fresh_written rd1 name slot buf n h' rd2 fresh w = elim w.result [
  | inr (z, _, _, _) ↦ inl z
  | inl (full, _, c) ↦ inr (full, w.valid, w.same_on ∙ fresh.on, named, c ∙ whole)
]
  where
    same_name : (j : ℕ) → is_named name (entry rd2 j) ≡ is_named name (entry rd1 j)
    same_name j = elim (ℕ_discrete slot j) [
      | yes e ↦ rw (← e, w.same_file.0, w.same_file.1) refl
      | no ne ↦ let o = w.others j ne in rw (o.1, o.2) refl
    ]

    named : find_index (is_named name) rd2.files ≡ some slot
    named =
        find_index_first (is_named name) rd2.files slot blank_file
          (omega (arith, w.valid.slots, fresh.in_table))
          (same_name slot
            ∙ (find_index-some (is_named name) rd1.files slot blank_file fresh.named).1)
          (λ j less.
            same_name j
            ∙ find_index-least (is_named name) rd1.files slot j blank_file fresh.named less)

    whole : overwrite 0 buf (content rd1 slot) ≡ buf
    whole =
        ap (λ t. buf ++ t)
          (drop_all (0 + length buf) (content rd1 slot) (
            omega (
              arith,
              length-peek rd1.bytes (entry rd1 slot).offset (entry rd1 slot).size,
              fresh.empty,
            )))
        ∙ append-nil buf

module _ (now : ℕ) (rd : Disk) (name buf : List ℕ) where
  write_file_opened :
      (h : Handle) (rd1 : Disk)
      → open_file now (delete rd name).1 name blank_handle true ≡ (true, h, rd1)
      → write_file now rd name buf ≡ ((write now rd1 h buf).0, (write now rd1 h buf).2)
  unfolding write_file
  write_file_opened h rd1 e = ground arith

  write_file_refused :
      (open_file now (delete rd name).1 name blank_handle true).0 ≡ false
      → (write_file now rd name buf).0 ≡ 0
  unfolding write_file
  write_file_refused e = ground arith

-- A disk on which a new file was opened for writing.
opened-IsFresh :
    (rd1 : Disk) (name : List ℕ) (slot : ℕ)
    → IsFresh rd1 name slot
    → (open_at rd1 slot true ≡ (true, opened slot true, fail rd1 ok))
      × IsFresh (fail rd1 ok) name slot
unfolding open_at
opened-IsFresh rd1 name slot fresh = (
  rw fresh.unlocked,
  record {
    valid = IsValid-congr refl refl refl refl refl fresh.valid;
    on = fresh.on;
    in_table = fresh.in_table;
    named = fresh.named;
    empty = fresh.empty;
    unlocked = fresh.unlocked;
  },
)

-- On a valid disk that is set up and has unique names `ramdisk_write_file` of some bytes, at most 2 ^ 30, returns 0
-- or their number. In the second case `ramdisk_read_file` of the name gives them back, as many as
-- its buffer holds.
pub read_file-write_file :
    (now later : ℕ) (rd : Disk) (name buf : List ℕ) (cap : ℕ)
    → IsValid rd
    → HasUniqueNames rd
    → rd.initialized ≡ true
    → 0 < length buf
    → length buf ≤ 2 ^ 30
    → let (n, rd') = write_file now rd name buf in
      (n ≡ 0) ⊎ (n ≡ length buf) × ((read_file later rd' name cap).0 ≡ take cap buf)
read_file-write_file now later rd name buf cap v unique on some_bytes small =
    let rd0 = (delete rd name).1 in
    let v0 : IsValid rd0 = delete-IsValid rd name v in
    let then_ = delete_then rd name on unique in
    elim then_.1 [
      | inr (i, found, locked) ↦ inl (
          write_file_refused now rd name buf
            (open_locked now rd0 name v0 then_.0 blank_handle i found locked))
      | inl absent ↦ elim (open_absent now rd0 name blank_handle v0 then_.0 absent) [
        | inl refused ↦ inl (write_file_refused now rd name buf refused)
        | inr (rd1, slot, fresh, opens) ↦
            let at = opened-IsFresh rd1 name slot fresh in
            let rd2 = fail rd1 ok in
            let h = opened slot true in
            let done =
              fresh_written rd2 name slot buf (write now rd2 h buf).0 (write now rd2 h buf).1
                (write now rd2 h buf).2 at.1
                (write-Wrote now rd2 h slot buf at.1.valid at.1.in_table refl refl refl some_bytes
                  (omega arith) (omega arith)) in
            rw (write_file_opened now rd name buf h rd2 (opens ∙ at.0)) (elim done [
              | inl z ↦ inl z
              | inr (full, valid, still_on, named, whole) ↦ inr (
                full,
                read_file-content later (write now rd2 h buf).2 name cap slot valid still_on named
                    ∙ ap (take cap) whole,
              )
            ])
      ]
    ]
