-- ===== src/RamDisk/Reach.antt =====
-- The RAM disk as a transition system: every disk that the operations lead to from a fresh one
-- keeps the invariant.
use retrofuture_os.Base.{
  ℕ, ◌+◌, ◌^◌, ◌<◌, ◌≤◌, ◌≡◌, refl, ap, true, false, some, List, length, get_or, arith, inl, Memory,
  get_or-replicate, replicate, ltb,
}
use native.Mathlib.Decide.{ℕ_discrete}
use retrofuture_os.RamDisk.Types.{File, Disk, Handle, entry, blank_file, is_used, max_files}
use retrofuture_os.RamDisk.Table.{init, create, delete}
use retrofuture_os.RamDisk.Handle.{read, write}
use retrofuture_os.RamDisk.Valid.{IsValid}
use retrofuture_os.RamDisk.Create.{create-IsValid}
use retrofuture_os.RamDisk.Delete.{HasUniqueNames, delete-IsValid, create-delete-HasUniqueNames}
use retrofuture_os.RamDisk.Contents.{write-Wrote}
use retrofuture_os.RamDisk.Roundtrip.{read-DidRead}

-- A handle that was opened on entry `i`, at a position up to the file's size.
abbrev pub IsOpenAt : Disk → Handle → ℕ → Type 0
IsOpenAt rd h i =
    (h.is_open ≡ true) × (h.file ≡ some i) × (i < max_files) × (h.position ≤ (entry rd i).size)

-- The calls that a client makes, with any names, flags, bytes and open handles.
pub data Step (rd : Disk) : Disk → Type 0 where
  created : (now : ℕ) (name : List ℕ) (flags : ℕ) → Step rd (create now rd name flags).1
  deleted : (name : List ℕ) → Step rd (delete rd name).1
  wrote :
      (now : ℕ) (h : Handle) (i : ℕ) (buf : List ℕ)
      → IsOpenAt rd h i
      → h.write_mode ≡ true
      → 0 < length buf
      → h.position + length buf ≤ 2 ^ 30
      → Step rd (write now rd h buf).2
  did_read : (h : Handle) (i size : ℕ) → IsOpenAt rd h i → Step rd (read rd h size).2

pub data Reach (rd : Disk) : Disk → Type 0 where
  here : Reach rd rd
  next : {a b : Disk} → Reach rd a → Step a b → Reach rd b

init-IsValid :
    (rd : Disk) (area : Memory) (size : ℕ)
    → 512 ≤ size
    → size < 2 ^ 31
    → IsValid (init rd area size).1 × HasUniqueNames (init rd area size).1
unfolding init
init-IsValid rd area size lo hi =
    let room : ltb size 512 ≡ false = ground arith in
    rw room (
      record {
        slots = refl;
        counted = refl;
        packed = refl;
        in_area = omega arith;
        area_small = hi;
        placed = λ i. omega (arith, ap (λ (f : File). f.offset + f.allocated) (blank i));
        sized = λ i. rw (blank i) (omega arith);
        apart = λ i j ne. rw (blank i) (inl (omega arith));
      },
      λ i j ne used.
          absurd (unused (get_or (replicate max_files blank_file) i blank_file) (blank i) used),
    )
  where
    blank : (i : ℕ) → get_or (replicate max_files blank_file) i blank_file ≡ blank_file
    blank i = get_or-replicate max_files i blank_file

    unused : (f : File) → f ≡ blank_file → is_used f ≡ true → ⊥
    unused f e used = cc (ap is_used e)

Step-IsValid : {a b : Disk} → Step a b → IsValid a → IsValid b
Step-IsValid (created now name flags) v = create-IsValid now _ name flags v
Step-IsValid (deleted name) v = delete-IsValid _ name v
Step-IsValid (wrote now h i buf at w some_bytes small) v =
    (write-Wrote now _ h i buf v at.2 at.0 w at.1 some_bytes at.3 small).valid
Step-IsValid (did_read h i size at) v =
    (read-DidRead _ h i size v at.0 at.1
      (omega (arith, at.3, v.sized i, v.placed i, v.in_area, v.area_small))).3

HasUniqueNames-congr :
    (a b : Disk)
    → ((j : ℕ) → ((entry b j).name ≡ (entry a j).name) × ((entry b j).flags ≡ (entry a j).flags))
    → HasUniqueNames a
    → HasUniqueNames b
HasUniqueNames-congr a b same unique i j ne =
    rw ((same i).0, (same i).1, (same j).0, (same j).1) (unique i j ne)

files-read : (rd : Disk) (h : Handle) (size : ℕ) → (read rd h size).2.files ≡ rd.files
unfolding read
files-read rd h size = ground arith

Step-HasUniqueNames : {a b : Disk} → Step a b → IsValid a → HasUniqueNames a → HasUniqueNames b
Step-HasUniqueNames (created now name flags) v u =
    (create-delete-HasUniqueNames now _ name flags u).0
Step-HasUniqueNames (deleted name) v u = (create-delete-HasUniqueNames 0 _ name 0 u).1
Step-HasUniqueNames {a} (wrote now h i buf at w some_bytes small) v u =
    let d = write-Wrote now a h i buf v at.2 at.0 w at.1 some_bytes at.3 small in
    HasUniqueNames-congr a (write now a h buf).2
      (λ j. elim (ℕ_discrete i j) [
        | yes e ↦ rw (← e) d.same_file
        | no ne ↦ let o = d.others j ne in (o.1, o.2)
      ])
      u
Step-HasUniqueNames {a} (did_read h i size at) v u =
    let same = files-read a h size in
    HasUniqueNames-congr a (read a h size).2
      (λ j. (
        ap (λ fs. (get_or fs j blank_file).name) same,
        ap (λ fs. (get_or fs j blank_file).flags) same,
      ))
      u

-- Whatever files are created, deleted, read and written on a disk of less than 2 ^ 31 bytes, by
-- writes that start at most at the end of their file and end below 2 ^ 30: the counters stay right,
-- each file keeps a stretch of the data area to itself, and no two files have the same name.
pub Reach-IsValid :
    (rd : Disk) (area : Memory) (size : ℕ)
    → 512 ≤ size
    → size < 2 ^ 31
    → {b : Disk} → Reach (init rd area size).1 b
    → IsValid b × HasUniqueNames b
Reach-IsValid rd area size lo hi here = init-IsValid rd area size lo hi
Reach-IsValid rd area size lo hi (next r s) =
    let before = Reach-IsValid rd area size lo hi r in
    (Step-IsValid s before.0, Step-HasUniqueNames s before.0 before.1)
