-- ===== src/Fat12/Change.antt =====
-- include/fat12_write.h: writing to open files, and removing and renaming entries of the root
-- directory: fat12_write, _flush, _delete, _rmdir, _write_file, _append_file, _rename. A result is
-- none where a loop over a directory or over the clusters does not end.
use retrofuture_os.Base.{
  ℕ, zero, suc, ◌+◌, ◌-◌, ◌*◌, ◌/◌, ◌%◌, Bool, true, false, not, ◌&&◌, ◌||◌, Option, none, some,
  List, ◌++◌, min, poke, take, drop, update, ltb, leb, ◌==◌, if◌then◌else◌, add32, length, Memory,
  has_flag, get_or,
}
use retrofuture_os.Fat12.Types.{
  Fs, Dirent, sector_size, attr_directory, attr_archive, attr_lfn, deleted_mark,
}
use retrofuture_os.Fat12.Table.{
  load, read_fat, is_eof, alloc_cluster, extend_chain, free_chain, cluster_to_sector,
}
use retrofuture_os.Fat12.Names.{string_to_name, name_match}
use retrofuture_os.Fat12.Mount.{sync}
use retrofuture_os.Fat12.Dir.{
  Dir, dirent_at, open_root, open_dir, find_in_dir, read_dir, skip_slash,
}
use retrofuture_os.Fat12.File.{File, open_path, cluster_size, seek}
use retrofuture_os.Fat12.Write.{store, bytes2, bytes4, create_file}

-- What the loop over the entries of a sector comes to: an entry, the end of the directory, or the
-- end of the sector.
pub data Scan : Type 0 where
  hit : ℕ → Scan
  over : Scan
  through : Scan

-- The entries of a sector from `i` on; `stops` at an entry whose name starts with 0.
unfoldable pub scan_sector : Bool → (Memory → ℕ → Bool) → ℕ → Memory → ℕ → Scan
scan_sector stops test zero m i = through
scan_sector stops test (suc n) m i =
    let rest = scan_sector stops test n m (i + 1) in
    if stops && m (i * 32) == 0 then over else if test m (i * 32) then hit i else rest

-- The tests of the five searches on the entry at an address.
abbrev pub has_name : List ℕ → Memory → ℕ → Bool
has_name path m a = let (name, ext) = string_to_name path in name_match (dirent_at m a) name ext

abbrev pub is_used : Memory → ℕ → Bool
is_used m a = not (m a == deleted_mark)

abbrev pub is_deletable : List ℕ → Memory → ℕ → Bool
is_deletable path m a = is_used m a && (not (m (a + 11) == attr_lfn) && has_name path m a)

abbrev pub is_named_dir : List ℕ → Memory → ℕ → Bool
is_named_dir path m a = is_used m a && (has_name path m a && has_flag (m (a + 11)) attr_directory)

abbrev pub is_renamable : List ℕ → Memory → ℕ → Bool
is_renamable path m a = is_used m a && has_name path m a

abbrev pub is_dot_entry : Dirent → Bool
is_dot_entry de =
    let first = get_or de.name 0 0 in
    let next = get_or de.name 1 0 in first == b'.' && (next == b' ' || next == b'.')

module _ {W : Type 0} where
  -- The loop over `n` sectors of the root directory. With `ends`, the end of the directory ends the
  -- search, and without it only the sector.
  unfoldable pub scan_from :
      Bool → Bool → (Memory → ℕ → Bool) → ℕ → Fs W → ℕ → Option (ℕ × ℕ) × Fs W
  scan_from stops ends test zero fs sector = (none, fs)
  scan_from stops ends test (suc n) fs sector =
      let fs' = load fs sector in
      let rest = scan_from stops ends test n fs' (add32 sector 1) in
      elim (scan_sector stops test 16 fs'.sector_buf 0) [
        | hit i ↦ (some (sector, i * 32), fs')
        | over ↦ if ends then (none, fs') else rest
        | through ↦ rest
      ]

  unfoldable pub scan_root : Bool → Bool → (Memory → ℕ → Bool) → Fs W → Option (ℕ × ℕ) × Fs W
  scan_root stops ends test fs = scan_from stops ends test fs.root_sectors fs fs.root_start

  -- `Mark entry as deleted`
  unfoldable pub erase : Fs W → ℕ → ℕ → Fs W
  erase fs sector at =
      let fs' = load fs sector in
      sync (store (record fs' { sector_buf = update fs'.sector_buf at deleted_mark }) sector).1

  unfoldable pub delete : Fs W → List ℕ → Option (Bool × Fs W)
  delete fs path =
      let path' = skip_slash path in
      let deleted : Option (Bool × Fs W) =
        let (place, fs') = scan_root true false (is_deletable path') fs in
        elim place as (λ r. Option (Bool × Fs W)) [
          | none ↦ some (false, fs')
          | some (sector, at) ↦
              let de = dirent_at fs'.sector_buf at in
              let freed = elim (free_chain fs' de.cluster_low) as (λ r. Option (Bool × Fs W)) [
                | none ↦ none
                | some fs'' ↦ some (true, erase fs'' sector at)
              ] in
              if has_flag de.attributes attr_directory
              then some (false, fs')
              else if leb 2 de.cluster_low
              then freed
              else some (true, erase fs' sector at)
        ] in
      if length path' == 0 then some (false, fs) else deleted

  -- `Check if directory is empty`: the loop, which counts the entries that are not `.` or `..`.
  unfoldable pub count_entries : ℕ → ℕ → Fs W → Dir → Option (ℕ × Fs W)
  count_entries zero inner fs dir = none
  count_entries (suc fuel) inner fs dir = elim (read_dir inner fs dir) [
    | none ↦ none
    | some (none, dir', fs') ↦ some (0, fs')
    | some (some child, dir', fs') ↦ elim (count_entries fuel inner fs' dir') [
      | none ↦ none
      | some (n, fs'') ↦ some (if is_dot_entry child then n else suc n, fs'')
    ]
  ]

  unfoldable pub rmdir : ℕ → Fs W → List ℕ → Option (Bool × Fs W)
  rmdir fuel fs path =
      let path' = skip_slash path in
      let removed : Option (Bool × Fs W) =
        let (place, fs') = scan_root true false (is_named_dir path') fs in
        elim place as (λ r. Option (Bool × Fs W)) [
          | none ↦ some (false, fs')
          | some (sector, at) ↦
              let cluster = (dirent_at fs'.sector_buf at).cluster_low in
              elim (count_entries fuel fuel fs' (open_dir fs' cluster)) [
                | none ↦ none
                | some (suc n, fs'') ↦ some (false, fs'')
                | some (zero, fs'') ↦ elim (free_chain fs'' cluster) [
                  | none ↦ none
                  | some fs3 ↦ some (true, erase fs3 sector at)
                ]
              ]
        ] in
      if length path' == 0 then some (false, fs) else removed

  -- `Need to allocate first cluster?`: whether there is one.
  unfoldable pub first_cluster : Fs W → File → Option (Bool × File × Fs W)
  first_cluster fs file =
      let allocated = elim (alloc_cluster fs) as (λ r. Option (Bool × File × Fs W)) [
        | none ↦ none
        | some (cluster, fs') ↦
            let file' : File = record file {
              dirent = record file.dirent { cluster_low = cluster };
              cluster = cluster;
              cluster_offset = 0;
              dirty = true;
            } in
            some (if cluster == 0 then (false, file, fs') else (true, file', fs'))
      ] in
      if file.cluster == 0 then allocated else some (true, file, fs)

  -- `Need to allocate next cluster?`: whether the position is in a cluster.
  unfoldable pub enter_cluster : Fs W → File → Option (Bool × File × Fs W)
  enter_cluster fs file =
      let (next, fs') = read_fat fs file.cluster in
      let moved : ℕ → File = λ cluster. record file { cluster = cluster; cluster_offset = 0 } in
      let extended = elim (extend_chain fs' file.cluster) as (λ r. Option (Bool × File × Fs W)) [
        | none ↦ none
        | some (cluster, fs'') ↦
            some (if cluster == 0 then (false, file, fs'') else (true, moved cluster, fs''))
      ] in
      if leb (cluster_size fs) file.cluster_offset
      then if is_eof next then extended else some (true, moved next, fs')
      else some (true, file, fs)

  -- A sector of `bytes`, or less: how many were written, with 0 for a failure.
  unfoldable pub write_sector : Fs W → File → List ℕ → ℕ × File × Fs W
  write_sector fs file bytes =
      let sector = add32 (cluster_to_sector fs file.cluster) (file.cluster_offset / sector_size) in
      let offset = file.cluster_offset % sector_size in
      let fs1 =
        if not (offset == 0) || ltb (length bytes) sector_size then load fs sector else fs in
      let count = min (sector_size - offset) (length bytes) in
      let (written, fs2) =
        store (record fs1 { sector_buf = poke fs1.sector_buf offset (take count bytes) }) sector in
      let position' = add32 file.position count in
      let grown = ltb file.dirent.file_size position' in
      let file' : File = record file {
        position = position';
        cluster_offset = add32 file.cluster_offset count;
        dirent = if grown then record file.dirent { file_size = position' } else file.dirent;
        dirty = grown || file.dirty;
      } in
      if written then (count, file', fs2) else (0, file, fs2)

  -- The loop of `fat12_write`. A round writes a byte at least or leaves it, so that one round more
  -- than there are bytes is fuel enough.
  unfoldable pub write_from : ℕ → Fs W → File → List ℕ → Option (ℕ × File × Fs W)
  write_from zero fs file bytes = none
  write_from (suc fuel) fs file bytes =
      if length bytes == 0 then some (0, file, fs) else elim (first_cluster fs file) [
        | none ↦ none
        | some (false, file1, fs1) ↦ some (0, file1, fs1)
        | some (true, file1, fs1) ↦ elim (enter_cluster fs1 file1) [
          | none ↦ none
          | some (false, file2, fs2) ↦ some (0, file2, fs2)
          | some (true, file2, fs2) ↦
              let (count, file3, fs3) = write_sector fs2 file2 bytes in
              if count == 0
              then some (0, file3, fs3)
              else elim (write_from fuel fs3 file3 (drop count bytes)) [
                | none ↦ none
                | some (more, file4, fs4) ↦ some (count + more, file4, fs4)
              ]
        ]
      ]

  unfoldable pub write_bytes : Fs W → File → List ℕ → Option (ℕ × File × Fs W)
  write_bytes fs file bytes =
      if not file.is_open then some (0, file, fs) else write_from (suc (length bytes)) fs file bytes

  unfoldable pub flush : Fs W → File → Bool × File × Fs W
  flush fs file =
      let fs' = load fs file.dir_sector in
      let m1 = poke fs'.sector_buf (file.dir_offset + 28) (bytes4 file.dirent.file_size) in
      let m2 = poke m1 (file.dir_offset + 26) (bytes2 file.dirent.cluster_low) in
      let m3 = poke m2 (file.dir_offset + 20) (bytes2 file.dirent.cluster_high) in
      let (written, fs'') = store (record fs' { sector_buf = m3 }) file.dir_sector in
      if not file.is_open || not file.dirty
      then (true, file, fs)
      else if written
      then (true, record file { dirty = false }, sync fs'')
      else (false, file, fs'')

  -- `Re-find entry to get sector/offset`, by the whole path, with the slash that it may begin with.
  unfoldable pub locate_entry : Fs W → List ℕ → File → File × Fs W
  locate_entry fs path file =
      let (place, fs') = scan_root false false (has_name path) fs in
      elim place as (λ r. File × Fs W) [
        | none ↦ (file, fs')
        | some (sector, at) ↦ (record file { dir_sector = sector; dir_offset = at }, fs')
      ]

  -- The end of `fat12_write_file` and `fat12_append_file`.
  unfoldable pub write_and_flush : Fs W → List ℕ → File → List ℕ → Option (ℕ × Fs W)
  write_and_flush fs path file bytes =
      let (located, fs') = locate_entry fs path file in
      elim (write_bytes fs' located bytes) [
        | none ↦ none
        | some (written, file', fs'') ↦
            let (flushed, file3, fs3) = flush fs'' file' in some (written, fs3)
      ]

  -- `file` is what the local variable holds before it is opened.
  unfoldable pub write_file : ℕ → Fs W → List ℕ → List ℕ → File → Option (ℕ × Fs W)
  write_file fuel fs path bytes file = elim (delete fs path) [
    | none ↦ none
    | some (deleted, fs1) ↦ elim (create_file fuel fs1 path attr_archive) [
      | none ↦ none
      | some (false, fs2) ↦ some (0, fs2)
      | some (true, fs2) ↦ elim (open_path fuel fs2 path file) [
        | none ↦ none
        | some (false, file', fs3) ↦ some (0, fs3)
        | some (true, file', fs3) ↦ write_and_flush fs3 path file' bytes
      ]
    ]
  ]

  unfoldable pub append_file : ℕ → Fs W → List ℕ → List ℕ → File → Option (ℕ × Fs W)
  append_file fuel fs path bytes file = elim (open_path fuel fs path file) [
    | none ↦ none
    | some (false, file1, fs1) ↦ some (0, fs1)
    | some (true, file1, fs1) ↦ elim (seek fs1 file1 file1.dirent.file_size) [
      | none ↦ none
      | some (sought, file2, fs2) ↦ write_and_flush fs2 path file2 bytes
    ]
  ]

  unfoldable pub rename : ℕ → Fs W → List ℕ → List ℕ → Option (Bool × Fs W)
  rename fuel fs old_path new_path =
      let (name, ext) = string_to_name (skip_slash new_path) in
      elim (find_in_dir fuel fs (open_root fs) (skip_slash new_path)) [
        | none ↦ none
        | some (some existing, dir, fs1) ↦ some (false, fs1)
        | some (none, dir, fs1) ↦
            let (place, fs2) = scan_root true true (is_renamable (skip_slash old_path)) fs1 in
            elim place as (λ r. Option (Bool × Fs W)) [
              | none ↦ some (false, fs2)
              | some (sector, at) ↦
                  let fs3 =
                    (store (record fs2 { sector_buf = poke fs2.sector_buf at (name ++ ext) })
                      sector).1 in
                  some (true, sync fs3)
            ]
      ]
