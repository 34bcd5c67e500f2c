-- ===== src/RamDisk/Tests.antt =====
-- Runs of the RAM disk on small inputs, and its theorems at such inputs.
use retrofuture_os.Base.{
  ℕ, ◌<◌, ◌≡◌, refl, true, false, none, some, List, [], ◌∷◌, ◌⊎◌, replicate, peek, poke, arith,
  if◌then◌else◌, drop, ◌&&◌, bit_or,
}
use retrofuture_os.RamDisk.Types.{Disk, ok, entry, max_files, blank_file, strcasecmp_eq}
use retrofuture_os.RamDisk.Table.{
  init, create, delete, find, find_free_slot, file_exists, stat, rename,
}
use retrofuture_os.RamDisk.Files.{read_file, write_file, append_file, copy, copy_loop}
use retrofuture_os.RamDisk.Handle.{
  open_file, open_new, open_at, open_append, opened, read, write, seek, truncate,
}
use retrofuture_os.RamDisk.Dir.{readdir, opendir}
use retrofuture_os.RamDisk.Valid.{IsValid}
use retrofuture_os.RamDisk.Create.{lookup, is_creatable, create-lookup}
use retrofuture_os.RamDisk.Delete.{HasUniqueNames, is_removable, delete-lookup}
use retrofuture_os.RamDisk.Contents.{Wrote, write-Wrote}
use retrofuture_os.RamDisk.Roundtrip.{DidRead, read-DidRead}
use retrofuture_os.RamDisk.WriteFile.{read_file-write_file}
use retrofuture_os.RamDisk.Rename.{rename-not-HasUniqueNames, truncate-not-IsValid}
use retrofuture_os.RamDisk.Listing.{Splits, readdir-Splits}
use retrofuture_os.RamDisk.Reach.{Reach-IsValid, here, next, created, deleted}

abbrev fresh : Disk
fresh = record {
  files = replicate max_files blank_file;
  file_count = 0;
  bytes = λ a. 0;
  data_size = 16384;
  data_used = 0;
  data_ptr = 0;
  total_reads = 0;
  total_writes = 0;
  total_created = 0;
  total_deleted = 0;
  bytes_read = 0;
  bytes_written = 0;
  initialized = true;
  last_error = ok;
}

-- The disk that `ramdisk_init` sets up over 16 KB.
abbrev disk : Disk
disk = (init fresh (λ a. 7) 16384).1

abbrev name_a : List ℕ
name_a = b'a' ∷ b'.' ∷ b't' ∷ []

abbrev name_upper : List ℕ
name_upper = b'A' ∷ b'.' ∷ b'T' ∷ []

abbrev name_b : List ℕ
name_b = b'b' ∷ []

abbrev text : List ℕ
text = 1 ∷ 2 ∷ 3 ∷ []

write_then_read : (read_file 9 (write_file 5 fresh name_a text).1 name_upper 100).0 ≡ 1 ∷ 2 ∷ 3 ∷ []
unfolding write_file append_file read_file copy copy_loop open_file open_new open_at open_append
    find create delete stat file_exists read write strcasecmp_eq peek poke
write_then_read = refl

append_then_read :
    (read_file 9 (append_file 6 (write_file 5 fresh name_a text).1 name_a text).1 name_a 100).0
    ≡ 1 ∷ 2 ∷ 3 ∷ 1 ∷ 2 ∷ 3 ∷ []
unfolding write_file append_file read_file copy copy_loop open_file open_new open_at open_append
    find create delete stat file_exists read write strcasecmp_eq peek poke
append_then_read = refl

copy_then_read :
    (read_file 9 (copy 6 (write_file 5 fresh name_a text).1 name_a name_b).1 name_b 100).0 ≡ text
unfolding write_file append_file read_file copy copy_loop open_file open_new open_at open_append
    find create delete stat file_exists read write strcasecmp_eq peek poke
copy_then_read = refl

disk_ok : IsValid disk × HasUniqueNames disk
disk_ok = Reach-IsValid fresh (λ a. 7) 16384 (omega arith) (omega arith) here

disk_on : disk.initialized ≡ true
unfolding init
disk_on = refl

created_disk : (create 5 disk name_a 0).0 ≡ true
unfolding init create find file_exists find_free_slot strcasecmp_eq
created_disk = refl

abbrev disk1 : Disk
disk1 = (create 5 disk name_a 0).1

disk1_ok : IsValid disk1 × HasUniqueNames disk1
disk1_ok =
    Reach-IsValid fresh (λ a. 7) 16384 (omega arith) (omega arith) (next here (created 5 name_a 0))

disk1_on : disk1.initialized ≡ true
unfolding init create find file_exists find_free_slot strcasecmp_eq
disk1_on = refl

deleted_disk : (delete disk1 name_upper).0 ≡ true
unfolding init create find file_exists find_free_slot delete strcasecmp_eq
deleted_disk = refl

read_file-write_file_example :
    let (n, rd') = write_file 5 disk name_a text in
    (n ≡ 0) ⊎ (n ≡ 3) × ((read_file 9 rd' name_a 2).0 ≡ 1 ∷ 2 ∷ [])
read_file-write_file_example =
    read_file-write_file 5 9 disk name_a text 2 disk_ok.0 disk_ok.1 disk_on (omega arith)
      (omega arith)

write-Wrote_example :
    let (n, h', rd') = write 6 disk1 (opened 0 true) text in
    Wrote disk1 (opened 0 true) 0 text n h' rd'
write-Wrote_example =
    write-Wrote 6 disk1 (opened 0 true) 0 text disk1_ok.0 (omega arith) refl refl refl (omega arith)
      (omega arith) (omega arith)

read-DidRead_example : DidRead disk1 (opened 0 false) 0 10 (read disk1 (opened 0 false) 10)
read-DidRead_example = read-DidRead disk1 (opened 0 false) 0 10 disk1_ok.0 refl refl (omega arith)

Reach-IsValid_example : IsValid (delete disk1 name_a).1 × HasUniqueNames (delete disk1 name_a).1
Reach-IsValid_example =
    Reach-IsValid fresh (λ a. 7) 16384 (omega arith) (omega arith)
      (next (next here (created 5 name_a 0)) (deleted name_a))

create-lookup_example :
    ((create 5 disk name_a 0).0 ≡ is_creatable disk name_a)
    × (lookup (create 5 disk name_a 0).1 name_upper ≡ (
        if (create 5 disk name_a 0).0 && strcasecmp_eq name_a name_upper
        then some (record {
          name = name_a;
          size = 0;
          offset = 0;
          allocated = 0;
          flags = bit_or 1 0;
          created = 5;
          modified = 5;
        })
        else lookup disk name_upper))
create-lookup_example = create-lookup 5 disk name_a 0 name_upper

delete-lookup_example :
    ((delete disk1 name_upper).0 ≡ (disk1.initialized && is_removable (lookup disk1 name_upper)))
    × (lookup (delete disk1 name_upper).1 name_a ≡ (
        if (delete disk1 name_upper).0 && strcasecmp_eq name_upper name_a
        then none
        else lookup disk1 name_a))
delete-lookup_example = delete-lookup disk1 name_upper name_a disk1_ok.1

readdir-Splits_example :
    let (out, dir') = readdir disk1 (opendir false) in
    Splits false disk1.files (drop 0 disk1.files) 0 (out, dir'.index) × (dir'.show_hidden ≡ false)
readdir-Splits_example = readdir-Splits disk1 (opendir false)

truncate-not-IsValid_example :
    ((seek disk1 (opened 0 true) 5000).0 ≡ true)
    × ((truncate 6 disk1 (seek disk1 (opened 0 true) 5000).1).0 ≡ true)
    × (IsValid (truncate 6 disk1 (seek disk1 (opened 0 true) 5000).1).1 → ⊥)
truncate-not-IsValid_example =
    truncate-not-IsValid 6 disk1 (opened 0 true) 0 5000 disk1_ok.0 (omega arith) refl refl refl
      small
  where
    small : (entry disk1 0).allocated < 5000
    small =
        let a : (entry disk1 0).allocated ≡ 0 =
          unfold init create find file_exists find_free_slot strcasecmp_eq in refl in
        omega (arith, a)

-- A name of 31 letters, and one of 32 that begins with it.
abbrev long_name : List ℕ
long_name = replicate 31 b'x'

abbrev longer_name : List ℕ
longer_name = replicate 32 b'x'

abbrev disk2 : Disk
disk2 = (create 6 disk1 long_name 0).1

rename-not-HasUniqueNames_example :
    ((rename 7 disk2 name_a longer_name).0 ≡ true)
    × (HasUniqueNames (rename 7 disk2 name_a longer_name).1 → ⊥)
unfolding init create find file_exists find_free_slot strcasecmp_eq
rename-not-HasUniqueNames_example =
    rename-not-HasUniqueNames 7 disk2 name_a longer_name 0 refl refl refl 1 (λ e. cc) refl refl
