-- ===== src/RamDisk/Table.antt =====
-- include/ramdisk.h: setting up the disk, and the file table: find, create, delete, rename and
-- the flags. A function returns its C result and the disk that it leaves; `now` is
-- `g_ramdisk_ticks`.
use retrofuture_os.Base.{
  ℕ, ◌-◌, Bool, true, false, not, ◌&&◌, ◌||◌, Option, none, some, List, [], length, ltb, leb, ◌==◌,
  if◌then◌else◌, has_flag, find_index, set, replicate, Memory, clear, add32, sub32, not32, bit_and,
  bit_or,
}
use retrofuture_os.RamDisk.Types.{
  ok, not_init, not_found, exists, no_slots, readonly, invalid, File, Disk, entry, is_used, fail,
  blank_file, strcasecmp_eq, strncpy, max_files, max_filename, block_size, file_free, file_used,
  file_readonly, disk_size,
}

-- `area` is what the memory holds before; the call fails without a change on a small area.
unfoldable pub init : Disk → Memory → ℕ → Bool × Disk
init rd area size = if ltb size block_size then (false, rd) else (
  true,
  record {
    files = replicate max_files blank_file;
    file_count = 0;
    bytes = clear area size;
    data_size = size;
    data_used = 0;
    data_ptr = 0;
    total_reads = 0;
    total_writes = 0;
    total_created = 0;
    total_deleted = 0;
    bytes_read = 0;
    bytes_written = 0;
    initialized = true;
    last_error = ok;
  },
)

unfoldable pub init_global : Disk → Memory → Bool × Disk
unfolding init
init_global rd area = init rd area disk_size

-- The test of the loop in `ramdisk_find`.
abbrev pub is_named : List ℕ → File → Bool
is_named name f = is_used f && strcasecmp_eq f.name name

unfoldable pub find : Disk → List ℕ → Option ℕ × Disk
find rd name =
    if not rd.initialized
    then (none, fail rd not_init)
    else elim (find_index (is_named name) rd.files) [
      | some i ↦ (some i, rd)
      | none ↦ (none, fail rd not_found)
    ]

unfoldable pub find_free_slot : Disk → Option ℕ × Disk
find_free_slot rd = elim (find_index (λ f. not (is_used f)) rd.files) [
  | some i ↦ (some i, rd)
  | none ↦ (none, fail rd no_slots)
]

unfoldable pub file_exists : Disk → List ℕ → Bool × Disk
unfolding find
file_exists rd name =
    let (got, rd') = find rd name in elim got [ some i ↦ (true, fail rd' ok) | none ↦ (false, rd') ]

-- The entry that `ramdisk_create` writes.
abbrev pub new_file : ℕ → List ℕ → ℕ → File
new_file now name flags = record {
  name = strncpy name (max_filename - 1);
  size = 0;
  offset = 0;
  allocated = 0;
  flags = bit_or file_used flags;
  created = now;
  modified = now;
}

abbrev pub put_new : ℕ → Disk → ℕ → List ℕ → ℕ → Disk
put_new now rd slot name flags = record rd {
  files = set rd.files slot (new_file now name flags);
  file_count = add32 rd.file_count 1;
  total_created = add32 rd.total_created 1;
  last_error = ok;
}

unfoldable pub create : ℕ → Disk → List ℕ → ℕ → Bool × Disk
unfolding find file_exists find_free_slot
create now rd name flags =
    if not rd.initialized
    then (false, fail rd not_init)
    else if length name == 0 || leb max_filename (length name)
    then (false, fail rd invalid)
    else let (done, rd') = file_exists rd name in
      elim done [
        | true ↦ (false, fail rd' exists)
        | false ↦
            let (got, rd'') = find_free_slot rd' in
            elim got [ none ↦ (false, rd'') | some slot ↦ (true, put_new now rd'' slot name flags) ]
      ]

abbrev pub put_deleted : Disk → ℕ → Disk
put_deleted rd i = record rd {
  files = set rd.files i (record (entry rd i) { flags = file_free; name = [] });
  file_count = sub32 rd.file_count 1;
  total_deleted = add32 rd.total_deleted 1;
  last_error = ok;
}

unfoldable pub delete : Disk → List ℕ → Bool × Disk
unfolding find
delete rd name =
    if not rd.initialized
    then (false, fail rd not_init)
    else let (got, rd') = find rd name in
      elim got [
        | none ↦ (false, rd')
        | some i ↦
            if has_flag (entry rd' i).flags file_readonly
            then (false, fail rd' readonly)
            else (true, put_deleted rd' i)
      ]

-- The new name is not checked, as `ramdisk_create` checks it.
unfoldable pub rename : ℕ → Disk → List ℕ → List ℕ → Bool × Disk
unfolding find file_exists
rename now rd old_name new_name =
    if not rd.initialized
    then (false, fail rd invalid)
    else let (done, rd') = file_exists rd new_name in
      elim done [
        | true ↦ (false, fail rd' exists)
        | false ↦
            let (got, rd'') = find rd' old_name in
            elim got [
              | none ↦ (false, rd'')
              | some i ↦ (
                true,
                record rd'' {
                  files = set rd''.files i (record (entry rd'' i) {
                    name = strncpy new_name (max_filename - 1);
                    modified = now;
                  });
                  last_error = ok;
                },
              )
            ]
      ]

abbrev pub put_flags : Disk → ℕ → ℕ → Disk
put_flags rd i flags = record rd { files = set rd.files i (record (entry rd i) { flags = flags }) }

-- `USED | (flags & ~USED)`
abbrev pub used_with : ℕ → ℕ
used_with flags = bit_or file_used (bit_and flags (not32 file_used))

unfoldable pub set_flags : Disk → List ℕ → ℕ → Bool × Disk
unfolding find
set_flags rd name flags =
    let (got, rd') = find rd name in
    elim got [ none ↦ (false, rd') | some i ↦ (true, put_flags rd' i (used_with flags)) ]

unfoldable pub clear_flags : Disk → List ℕ → ℕ → Bool × Disk
unfolding find
clear_flags rd name flags =
    let (got, rd') = find rd name in
    elim got [
      | none ↦ (false, rd')
      | some i ↦
          (true, put_flags rd' i (bit_or file_used (bit_and (entry rd' i).flags (not32 flags))))
    ]

-- `size` and `flags` through the pointers, on success.
unfoldable pub stat : Disk → List ℕ → Option (ℕ × ℕ) × Disk
unfolding find
stat rd name =
    let (got, rd') = find rd name in
    elim got [
      | none ↦ (none, rd')
      | some i ↦ (some ((entry rd' i).size, (entry rd' i).flags), fail rd' ok)
    ]

unfoldable pub stat_full : Disk → List ℕ → Option File × Disk
unfolding find
stat_full rd name =
    let (got, rd') = find rd name in
    elim got [ none ↦ (none, rd') | some i ↦ (some (entry rd' i), fail rd' ok) ]
