-- ===== src/Fat12/Write.antt =====
-- include/fat12_write.h: new entries of the root directory: fat12_write_entry, _create_file, _mkdir.
-- A result is none where a loop over a directory or over the clusters does not end.
use retrofuture_os.Base.{
  ℕ, zero, suc, ◌/◌, ◌%◌, ◌^◌, Bool, true, false, not, Option, none, some, List, [], ◌∷◌, ◌++◌,
  peek, poke, replicate, ◌==◌, if◌then◌else◌, add32, length,
}
use retrofuture_os.Fat12.Types.{Fs, sector_size, cluster_free, attr_directory, attr_archive}
use retrofuture_os.Fat12.Table.{load, write_fat, alloc_cluster, cluster_to_sector}
use retrofuture_os.Fat12.Names.{string_to_name}
use retrofuture_os.Fat12.Mount.{sync}
use retrofuture_os.Fat12.Dir.{open_root, find_in_dir, skip_slash}
use retrofuture_os.Fat12.Entry.{find_free_entry}

-- A number as its two or four bytes, the lowest first.
abbrev pub bytes2 : ℕ → List ℕ
bytes2 n = n % 256 ∷ n / 256 % 256 ∷ []

abbrev pub bytes4 : ℕ → List ℕ
bytes4 n = bytes2 (n % 2 ^ 16) ++ bytes2 (n / 2 ^ 16)

-- `(1 << 5) | 1`
abbrev pub first_date : ℕ
first_date = 33

-- A new entry, with one date for its creation and the last change, and the date of the last access.
unfoldable pub entry_bytes : ℕ → ℕ → List ℕ → List ℕ → ℕ → ℕ → List ℕ
entry_bytes date accessed name ext attributes cluster =
    name
    ++ (ext
        ++ (attributes
            ∷ 0
            ∷ 0
            ∷ (bytes2 0
                ++ (bytes2 date
                    ++ (bytes2 accessed
                        ++ (bytes2 0
                            ++ (bytes2 0 ++ (bytes2 date ++ (bytes2 cluster ++ bytes4 0)))))))))

-- The first sector of a new directory, with `.` and `..`.
abbrev pub dot_entries : ℕ → List ℕ
dot_entries cluster =
    entry_bytes 0 0 (b'.' ∷ replicate 7 b' ') (replicate 3 b' ') attr_directory cluster
    ++ (entry_bytes 0 0 (b'.' ∷ (b'.' ∷ replicate 6 b' ')) (replicate 3 b' ') attr_directory 0
        ++ replicate 448 0)

module _ {W : Type 0} where
  -- `fs->write_sectors(lba, 1, fs->sector_buf) == 1`
  unfoldable pub store : Fs W → ℕ → Bool × Fs W
  store fs lba =
      let (count, w) = fs.write_sectors lba 1 (peek fs.sector_buf 0 sector_size) fs.world in
      (count == 1, record fs { world = w })

  unfoldable pub write_entry : Fs W → ℕ → ℕ → List ℕ → Bool × Fs W
  write_entry fs sector offset entry =
      let fs' = load fs sector in
      store (record fs' { sector_buf = poke fs'.sector_buf offset entry }) sector

  -- `Check if file already exists`, then `Find free entry`: none where the call fails.
  unfoldable pub free_place : ℕ → Fs W → List ℕ → Option (Option (ℕ × ℕ) × Fs W)
  free_place fuel fs path = elim (find_in_dir fuel fs (open_root fs) path) [
    | none ↦ none
    | some (some existing, dir, fs') ↦ some (none, fs')
    | some (none, dir, fs') ↦ some (find_free_entry fs' 0)
  ]

  unfoldable pub create_file : ℕ → Fs W → List ℕ → ℕ → Option (Bool × Fs W)
  create_file fuel fs path attr =
      let path' = skip_slash path in
      let (name, ext) = string_to_name path' in
      let entry =
        entry_bytes first_date first_date name ext (if not (attr == 0) then attr else attr_archive)
          0 in
      let made = elim (free_place fuel fs path') as (λ r. Option (Bool × Fs W)) [
        | none ↦ none
        | some (none, fs') ↦ some (false, fs')
        | some (some (sector, offset), fs') ↦
            let (written, fs'') = write_entry fs' sector offset entry in
            some (if written then (true, sync fs'') else (false, fs''))
      ] in
      if length path' == 0 then some (false, fs) else made

  -- `Write all sectors in cluster`: the first one is given, the others are zero.
  unfoldable pub write_sectors_from : ℕ → Fs W → ℕ → List ℕ → Bool × Fs W
  write_sectors_from zero fs lba bytes = (true, fs)
  write_sectors_from (suc n) fs lba bytes =
      let (count, w) = fs.write_sectors lba 1 bytes fs.world in
      let rest = write_sectors_from n (record fs { world = w }) (add32 lba 1) (replicate 512 0) in
      if count == 1 then rest else (false, record fs { world = w })

  -- `fat12_mkdir` with the cluster and the place of the new entry.
  unfoldable pub mkdir_at : Fs W → List ℕ → ℕ → ℕ → ℕ → Bool × Fs W
  mkdir_at fs path cluster sector offset =
      let (name, ext) = string_to_name path in
      let (written, fs') =
        write_entry fs sector offset (entry_bytes first_date 0 name ext attr_directory cluster) in
      let (filled, fs'') =
        write_sectors_from fs'.bpb.sectors_per_cluster fs' (cluster_to_sector fs' cluster)
          (dot_entries cluster) in
      if not written
      then (false, write_fat fs' cluster cluster_free)
      else if filled
      then (true, sync fs'')
      else (false, fs'')

  -- `fat12_mkdir` once the name is not in use.
  unfoldable pub mkdir_new : Fs W → List ℕ → Option (Bool × Fs W)
  mkdir_new fs path = elim (alloc_cluster fs) [
    | none ↦ none
    | some (cluster, fs') ↦
        let (place, fs'') = find_free_entry fs' 0 in
        let made = elim place as (λ r. Bool × Fs W) [
          | none ↦ (false, write_fat fs'' cluster cluster_free)
          | some (sector, offset) ↦ mkdir_at fs'' path cluster sector offset
        ] in
        some (if cluster == 0 then (false, fs') else made)
  ]

  unfoldable pub mkdir : ℕ → Fs W → List ℕ → Option (Bool × Fs W)
  mkdir fuel fs path =
      let path' = skip_slash path in
      let made = elim (find_in_dir fuel fs (open_root fs) path') as (λ r. Option (Bool × Fs W)) [
        | none ↦ none
        | some (some existing, dir, fs') ↦ some (false, fs')
        | some (none, dir, fs') ↦ mkdir_new fs' path'
      ] in
      if length path' == 0 then some (false, fs) else made
