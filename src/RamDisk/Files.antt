-- ===== src/RamDisk/Files.antt =====
-- include/ramdisk.h: whole files by name.
use retrofuture_os.Base.{
  ℕ, zero, suc, ◌+◌, ◌-◌, Bool, true, false, not, none, some, List, [], length, ltb, ◌==◌,
  if◌then◌else◌, min,
}
use retrofuture_os.RamDisk.Types.{exists, Disk, Handle, fail, blank_handle}
use retrofuture_os.RamDisk.Table.{find, file_exists, delete, stat, put_flags, used_with}
use retrofuture_os.RamDisk.Handle.{file_of, open_file, open_append, read, write}

-- The bytes that reach the buffer of `buf_size` bytes.
unfoldable pub read_file : ℕ → Disk → List ℕ → ℕ → List ℕ × Disk
read_file now rd name buf_size =
    let (done, h, rd') = open_file now rd name blank_handle false in
    elim done [
      | false ↦ ([], rd')
      | true ↦
          let (bytes, _, rd'') = read rd' h (min (file_of rd' h).size buf_size) in (bytes, rd'')
    ]

unfoldable pub write_file : ℕ → Disk → List ℕ → List ℕ → ℕ × Disk
write_file now rd name buf =
    let (_, rd0) = delete rd name in
    let (done, h, rd') = open_file now rd0 name blank_handle true in
    elim done [ false ↦ (0, rd') | true ↦ let (n, _, rd'') = write now rd' h buf in (n, rd'') ]

unfoldable pub append_file : ℕ → Disk → List ℕ → List ℕ → ℕ × Disk
append_file now rd name buf =
    let (done, h, rd') = open_append now rd name blank_handle in
    elim done [ false ↦ (0, rd') | true ↦ let (n, _, rd'') = write now rd' h buf in (n, rd'') ]

-- The chunk loop of `ramdisk_copy`: what remains, and the disk. Each round moves at least one
-- byte or leaves, so `remaining` rounds are enough.
unfoldable pub copy_loop : ℕ → ℕ → Disk → Handle → Handle → ℕ → ℕ × Disk
copy_loop now zero rd src dst remaining = (remaining, rd)
copy_loop now (suc fuel) rd src dst remaining =
    let (bytes, src', rd') = read rd src (if ltb 512 remaining then 512 else remaining) in
    let (written, dst', rd'') = write now rd' dst bytes in
    let rest = copy_loop now fuel rd'' src' dst' (remaining - length bytes) in
    if remaining == 0
    then (0, rd)
    else if length bytes == 0
    then (remaining, rd')
    else if not (written == length bytes)
    then (remaining, rd'')
    else rest

abbrev pub copy_flags : Disk → List ℕ → ℕ → Disk
copy_flags rd dst_name flags =
    let (got, rd') = find rd dst_name in
    elim got [ none ↦ rd' | some i ↦ put_flags rd' i (used_with flags) ]

unfoldable pub copy : ℕ → Disk → List ℕ → List ℕ → Bool × Disk
copy now rd src_name dst_name =
    let (got, rd1) = stat rd src_name in
    elim got [
      | none ↦ (false, rd1)
      | some (size, flags) ↦
          let (done, rd2) = file_exists rd1 dst_name in
          elim done [
            | true ↦ (false, fail rd2 exists)
            | false ↦
                let (done, src, rd3) = open_file now rd2 src_name blank_handle false in
                elim done [
                  | false ↦ (false, rd3)
                  | true ↦
                      let (done, dst, rd4) = open_file now rd3 dst_name blank_handle true in
                      elim done [
                        | false ↦ (false, rd4)
                        | true ↦
                            let (remaining, rd5) = copy_loop now (size + 1) rd4 src dst size in
                            (remaining == 0, copy_flags rd5 dst_name flags)
                      ]
                ]
          ]
    ]
