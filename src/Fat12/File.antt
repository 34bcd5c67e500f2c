-- ===== src/Fat12/File.antt =====
-- include/fat12.h: open files: fat12_open, _seek, _read, _size, _close; labels and free space.
use retrofuture_os.Base.{
  ℕ, zero, suc, ◌+◌, ◌-◌, ◌*◌, ◌/◌, ◌%◌, ◌^◌, Bool, true, false, not, ◌||◌, Option, none, some,
  List, [], ◌++◌, min, peek, ltb, leb, ◌==◌, if◌then◌else◌, add32, sub32, length,
}
use retrofuture_os.Fat12.Types.{Fs, Dirent, sector_size, cluster_free}
use retrofuture_os.Fat12.Table.{load, read_fat, is_eof, cluster_to_sector}
use retrofuture_os.Fat12.Dir.{Dir, open_root, open_dir, find_in_dir, is_dir, component, skip_slash}

-- `fs` is passed beside the handle.
pub record File : Type 0 where
  pub dirent : Dirent
  pub dir_sector : ℕ
  pub dir_offset : ℕ
  pub position : ℕ
  pub cluster : ℕ
  pub cluster_offset : ℕ
  pub is_open : Bool
  pub dirty : Bool

-- The end of `fat12_open`: the place of the entry on the disk is left as it was.
unfoldable pub opened : File → Dirent → File
opened file de = record file {
  dirent = de;
  position = 0;
  cluster = de.cluster_low;
  cluster_offset = 0;
  is_open = true;
  dirty = false;
}

unfoldable pub file_size_of : File → ℕ
file_size_of file = if file.is_open then file.dirent.file_size else 0

unfoldable pub close : File → File
close file = record file { is_open = false }

module _ {W : Type 0} where
  -- The loop over the components of a path that is not empty. Each takes a character at least,
  -- so the length of the path is fuel enough for it; `inner` is for the directories.
  unfoldable pub walk : ℕ → ℕ → Fs W → Dir → List ℕ → Option (Option Dirent × Fs W)
  walk zero inner fs dir path = none
  walk (suc fuel) inner fs dir path =
      let (part, rest) = component 12 path in
      elim (find_in_dir inner fs dir part) [
        | none ↦ none
        | some (none, dir', fs') ↦ some (none, fs')
        | some (some de, dir', fs') ↦
            let deeper = walk fuel inner fs' (open_dir fs' de.cluster_low) (skip_slash rest) in
            if length (skip_slash rest) == 0
            then some (some de, fs')
            else if is_dir de
            then deeper
            else some (none, fs')
      ]

  unfoldable pub open_path : ℕ → Fs W → List ℕ → File → Option (Bool × File × Fs W)
  open_path inner fs path file =
      if length (skip_slash path) == 0
      then some (false, file, fs)
      else elim (walk (length path) inner fs (open_root fs) (skip_slash path)) [
        | none ↦ none
        | some (none, fs') ↦ some (false, file, fs')
        | some (some de, fs') ↦ some (true, opened file de, fs')
      ]

  unfoldable pub cluster_size : Fs W → ℕ
  cluster_size fs = fs.bpb.sectors_per_cluster * sector_size

  -- The loop of `fat12_seek`: the cluster, the position of its first byte, the volume.
  unfoldable pub seek_from : ℕ → Fs W → ℕ → ℕ → ℕ → Option (ℕ × ℕ × Fs W)
  seek_from zero fs cluster start target = none
  seek_from (suc fuel) fs cluster start target =
      let (next, fs') = read_fat fs cluster in
      let rest = seek_from fuel fs' next (add32 start (cluster_size fs)) target in
      if leb (add32 start (cluster_size fs)) target
      then if is_eof next then some (cluster, start, fs') else rest
      else some (cluster, start, fs)

  -- A round moves on by a byte at least where clusters are not empty and positions do not wrap.
  unfoldable pub seek : Fs W → File → ℕ → Option (Bool × File × Fs W)
  seek fs file target =
      if not file.is_open || ltb file.dirent.file_size target
      then some (false, file, fs)
      else elim (seek_from (suc target) fs file.dirent.cluster_low 0 target) [
        | none ↦ none
        | some (cluster, start, fs') ↦ some (
          true,
          record file { cluster = cluster; cluster_offset = sub32 target start; position = target },
          fs',
        )
      ]

  -- The inner loop of `fat12_read`: the bytes of `n` that stand from `offset` of a sector on. Each
  -- round takes one at least, as the offset is below the size of a sector.
  unfoldable pub read_run : ℕ → Fs W → ℕ → ℕ → ℕ → List ℕ × Fs W
  read_run zero fs sector offset n = ([], fs)
  read_run (suc fuel) fs sector offset n =
      let fs' = load fs sector in
      let chunk = min (sector_size - offset) n in
      let (bytes, fs'') = read_run fuel fs' (add32 sector 1) 0 (n - chunk) in
      if n == 0 then ([], fs) else (peek fs'.sector_buf offset chunk ++ bytes, fs'')

  -- `Handle cluster boundary`: none where the loop is left.
  unfoldable pub next_cluster : Fs W → File → Option File × Fs W
  next_cluster fs file =
      let (next, fs') = read_fat fs file.cluster in
      if leb (cluster_size fs) file.cluster_offset
      then if is_eof next
        then (none, fs')
        else (some (record file { cluster = next; cluster_offset = 0 }), fs')
      else (some file, fs)

  -- A round of the outer loop, with `size` cut to what remains of the file.
  unfoldable pub read_round : Fs W → File → ℕ → List ℕ × File × Fs W
  read_round fs file size =
      let n = min (cluster_size fs - file.cluster_offset) size in
      let sector = add32 (cluster_to_sector fs file.cluster) (file.cluster_offset / sector_size) in
      let (bytes, fs') = read_run n fs sector (file.cluster_offset % sector_size) n in
      (
        bytes,
        record file {
          position = add32 file.position n;
          cluster_offset = add32 file.cluster_offset n;
        },
        fs',
      )

  -- The outer loop: the bytes that arrive, the handle, the volume.
  unfoldable pub read_from : ℕ → Fs W → File → ℕ → Option (List ℕ × File × Fs W)
  read_from zero fs file size = none
  read_from (suc fuel) fs file size =
      if size == 0 || leb file.dirent.file_size file.position
      then some ([], file, fs)
      else let left = min size (file.dirent.file_size - file.position) in
        let (here, fs1) = next_cluster fs file in
        elim here [
          | none ↦ some ([], file, fs1)
          | some at ↦
              let (bytes, file', fs2) = read_round fs1 at left in
              elim (read_from fuel fs2 file' (left - length bytes)) [
                | none ↦ none
                | some (more, file'', fs3) ↦ some (bytes ++ more, file'', fs3)
              ]
        ]

  unfoldable pub read_bytes : Fs W → File → ℕ → Option (List ℕ × File × Fs W)
  read_bytes fs file size =
      if not file.is_open then some ([], file, fs) else read_from (suc size) fs file size

  -- The loop of `fat12_free_space` from the cluster `i` on; the counter of 16 bits wraps.
  unfoldable pub count_free : ℕ → Fs W → ℕ → Option (ℕ × Fs W)
  count_free zero fs i = none
  count_free (suc fuel) fs i =
      let (entry, fs') = read_fat fs i in
      if ltb i (add32 fs.total_clusters 2)
      then elim (count_free fuel fs' ((i + 1) % 2 ^ 16)) [
        | none ↦ none
        | some (n, fs'') ↦ some (if entry == cluster_free then n + 1 else n, fs'')
      ]
      else some (0, fs)

  unfoldable pub free_space : Fs W → Option (ℕ × Fs W)
  free_space fs = elim (count_free (2 ^ 16) fs 2) [
    | none ↦ none
    | some (n, fs') ↦ some (n * fs.bpb.sectors_per_cluster * sector_size % 2 ^ 32, fs')
  ]
