-- ===== src/RamDisk/Rename.antt =====
-- `ramdisk_rename`, whose new name is cut off at 31 bytes, and `ramdisk_truncate`, whose position
-- is not checked.
use retrofuture_os.Base.{
  ℕ, ◌<◌, ◌≡◌, ◌≢◌, refl, ap, true, false, none, some, List, length, set, find_index, arith,
  get_or-set_self, get_or-set_ne, find_index-some, take,
}
use retrofuture_os.RamDisk.Types.{
  ok, File, Disk, Handle, entry, blank_file, is_used, strcasecmp_eq, max_files,
}
use retrofuture_os.RamDisk.Table.{is_named, find, file_exists, rename}
use retrofuture_os.RamDisk.Handle.{seek, truncate}
use retrofuture_os.RamDisk.Valid.{IsValid}
use retrofuture_os.RamDisk.Find.{strcasecmp_eq_refl}
use retrofuture_os.RamDisk.Delete.{HasUniqueNames}

abbrev pub renamed_file : ℕ → Disk → ℕ → List ℕ → File
renamed_file now rd i new_name = record (entry rd i) { name = take 31 new_name; modified = now }

abbrev pub put_renamed : ℕ → Disk → ℕ → List ℕ → Disk
put_renamed now rd i new_name = record rd {
  files = set rd.files i (renamed_file now rd i new_name);
  last_error = ok;
}

module _ (now : ℕ) (rd : Disk) (old_name new_name : List ℕ) (i : ℕ) (on : rd.initialized ≡ true)
    (found : find_index (is_named old_name) rd.files ≡ some i)
    (absent : find_index (is_named new_name) rd.files ≡ none) where
  rename-eq : rename now rd old_name new_name ≡ (true, put_renamed now rd i new_name)
  unfolding rename find file_exists
  rename-eq = ground arith

  found_lem : (i < length rd.files) × (is_named old_name (entry rd i) ≡ true)
  found_lem = find_index-some (is_named old_name) rd.files i blank_file found

  -- On a disk that is set up, with a file of the old name and none of the new one, of which another
  -- file has the first 31 bytes for its name: the call succeeds, and two files in use have the same
  -- name.
  pub rename-not-HasUniqueNames :
      (j : ℕ)
      → i ≢ j
      → is_used (entry rd j) ≡ true
      → (entry rd j).name ≡ take 31 new_name
      → ((rename now rd old_name new_name).0 ≡ true)
        × (HasUniqueNames (rename now rd old_name new_name).1 → ⊥)
  rename-not-HasUniqueNames j ne used same = rw rename-eq (refl, clash)
    where
      self : entry (put_renamed now rd i new_name) i ≡ renamed_file now rd i new_name
      self = get_or-set_self rd.files i (renamed_file now rd i new_name) blank_file found_lem.0

      other : entry (put_renamed now rd i new_name) j ≡ entry rd j
      other = get_or-set_ne rd.files i j (renamed_file now rd i new_name) blank_file ne

      clash : HasUniqueNames (put_renamed now rd i new_name) → ⊥
      clash unique =
          let no_match : strcasecmp_eq (take 31 new_name) (entry rd j).name ≡ false =
            rw (self, other) at
              (unique i j ne (rw self (ground (arith, found_lem.1))) (rw other used)) in
          cc (
            no_match,
            strcasecmp_eq_refl (take 31 new_name),
            ap (strcasecmp_eq (take 31 new_name)) same,
          )

-- On a valid disk and a file that is open for writing, a seek past the space that the file owns succeeds, and the
-- truncation that follows leaves the file larger than that space: the invariant is lost.
pub truncate-not-IsValid :
    (now : ℕ) (rd : Disk) (h : Handle) (i position : ℕ)
    → IsValid rd
    → i < max_files
    → h.is_open ≡ true
    → h.write_mode ≡ true
    → h.file ≡ some i
    → (entry rd i).allocated < position
    → ((seek rd h position).0 ≡ true)
      × ((truncate now rd (seek rd h position).1).0 ≡ true)
      × (IsValid (truncate now rd (seek rd h position).1).1 → ⊥)
unfolding seek truncate
truncate-not-IsValid now rd h i position v q on w f past = rw (on, w, f) (refl, refl, too_large)
  where
    g : File
    g = record (entry rd i) { size = position; modified = now }

    too_large : IsValid (record rd { files = set rd.files i g }) → ⊥
    too_large valid =
        let s = valid.sized i in
        let self = get_or-set_self rd.files i g blank_file (omega (arith, v.slots)) in
        absurd (omega (arith, rw self at s))
