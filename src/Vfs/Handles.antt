-- ===== src/Vfs/Handles.antt =====
-- include/vfs.h: the calls on open files and directories, which are named by their slots in the tables
-- of handles. A signed result is an integer, and -1 stands for failure.
use retrofuture_os.Base.{
  ℕ, ◌+◌, ◌-◌, ◌%◌, ◌^◌, Bool, false, not, ◌&&◌, Option, none, some, List, [], ltb, ◌==◌,
  if◌then◌else◌, set,
}
use retrofuture_os.Base.Int.{ℤ, pos, negsuc, pos_part, neg_part}
use retrofuture_os.Vfs.Types.{Vfs, Ops, File, Dir, Dirent, mount_at, file_at, dir_at}

abbrev pub failed : ℤ
failed = negsuc 0

-- A number of 32 bits as a signed number.
abbrev pub to_signed : ℕ → ℤ
to_signed n = if ltb n (2 ^ 31) then pos n else negsuc (2 ^ 32 - 1 - n)

-- Signed numbers with their overflow; the sum of an unsigned and a signed number is unsigned.
abbrev pub add_signed : ℕ → ℤ → ℤ
add_signed n k = to_signed ((n + (pos_part k + (2 ^ 32 - neg_part k))) % 2 ^ 32)

-- The default of `vfs_seek`: where `whence` leads, as a signed number; none for another value.
unfoldable pub seek_target : File → ℤ → ℕ → Option ℤ
seek_target file offset whence =
    if whence == 0
    then some offset
    else if whence == 1
    then some (add_signed file.position offset)
    else if whence == 2
    then some (add_signed file.node.size offset)
    else none

module _ {W : Type 0} where
  -- The operations of the file system that an open file is on.
  abbrev pub ops_of : Vfs W → Option ℕ → Option (Ops W)
  ops_of v none = none
  ops_of v (some i) = some (mount_at v i).ops

  unfoldable pub close : Vfs W → ℕ → Vfs W
  close v k =
      let file = file_at v k in
      let (file', w) = elim (ops_of v file.mount) as (λ o. File × W) [
        | none ↦ (file, v.world)
        | some ops ↦ elim ops.close_file as (λ o. File × W) [
          | none ↦ (file, v.world)
          | some f ↦ f file v.world
        ]
      ] in
      if file.is_open
      then record v { world = w; files = set v.files k (record file' { is_open = false }) }
      else v

  unfoldable pub read : Vfs W → ℕ → ℕ → ℤ × List ℕ × Vfs W
  read v k size =
      let file = file_at v k in
      let refused : ℤ × List ℕ × Vfs W = (failed, [], v) in
      let got = elim (ops_of v file.mount) as (λ o. ℤ × List ℕ × Vfs W) [
        | none ↦ refused
        | some ops ↦ elim ops.read as (λ o. ℤ × List ℕ × Vfs W) [
          | none ↦ refused
          | some f ↦
              let (n, bytes, file', w) = f file size v.world in
              (n, bytes, record v { world = w; files = set v.files k file' })
        ]
      ] in
      if file.is_open then got else refused

  -- The mount point of an open file is read-only.
  abbrev pub is_readonly : Vfs W → Option ℕ → Bool
  is_readonly v none = false
  is_readonly v (some i) = (mount_at v i).readonly

  unfoldable pub write : Vfs W → ℕ → List ℕ → ℤ × Vfs W
  write v k bytes =
      let file = file_at v k in
      let refused : ℤ × Vfs W = (failed, v) in
      let done = elim (ops_of v file.mount) as (λ o. ℤ × Vfs W) [
        | none ↦ refused
        | some ops ↦ elim ops.write as (λ o. ℤ × Vfs W) [
          | none ↦ refused
          | some f ↦
              let (n, file', w) = f file bytes v.world in
              (n, record v { world = w; files = set v.files k file' })
        ]
      ] in
      if file.is_open && not (is_readonly v file.mount) then done else refused

  unfoldable pub seek_default : Vfs W → ℕ → ℤ → ℕ → ℤ × Vfs W
  seek_default v k offset whence = elim (seek_target (file_at v k) offset whence) [
    | none ↦ (failed, v)
    | some (negsuc n) ↦ (failed, v)
    | some (pos n) ↦
        (pos n, record v { files = set v.files k (record (file_at v k) { position = n }) })
  ]

  unfoldable pub seek : Vfs W → ℕ → ℤ → ℕ → ℤ × Vfs W
  seek v k offset whence =
      let file = file_at v k in
      let moved = elim (ops_of v file.mount) as (λ o. ℤ × Vfs W) [
        | none ↦ seek_default v k offset whence
        | some ops ↦ elim ops.seek as (λ o. ℤ × Vfs W) [
          | none ↦ seek_default v k offset whence
          | some f ↦
              let (n, file', w) = f file offset (pos whence) v.world in
              (n, record v { world = w; files = set v.files k file' })
        ]
      ] in
      if file.is_open then moved else (failed, v)

  unfoldable pub closedir : Vfs W → ℕ → Vfs W
  closedir v k =
      let dir = dir_at v k in
      let (dir', w) = elim (ops_of v dir.mount) as (λ o. Dir × W) [
        | none ↦ (dir, v.world)
        | some ops ↦ elim ops.closedir as (λ o. Dir × W) [
          | none ↦ (dir, v.world)
          | some f ↦ f dir v.world
        ]
      ] in
      if dir.is_open
      then record v { world = w; dirs = set v.dirs k (record dir' { is_open = false }) }
      else v

  -- The entry that the caller passes is returned as the file system leaves it.
  unfoldable pub readdir : Vfs W → ℕ → Dirent → Bool × Dirent × Vfs W
  readdir v k entry =
      let dir = dir_at v k in
      let refused : Bool × Dirent × Vfs W = (false, entry, v) in
      let got = elim (ops_of v dir.mount) as (λ o. Bool × Dirent × Vfs W) [
        | none ↦ refused
        | some ops ↦ elim ops.readdir as (λ o. Bool × Dirent × Vfs W) [
          | none ↦ refused
          | some f ↦
              let (found, entry', dir', w) = f dir entry v.world in
              (found, entry', record v { world = w; dirs = set v.dirs k dir' })
        ]
      ] in
      if dir.is_open then got else refused
