-- ===== src/RamDisk/Dir.antt =====
-- include/ramdisk.h: the directory listing, the statistics and the file extensions.
use retrofuture_os.Base.{
  ℕ, ◌+◌, Bool, false, not, ◌&&◌, ◌||◌, Option, none, some, List, [], ◌∷◌, ◌==◌, if◌then◌else◌,
  has_flag, add32, sub32, drop,
}
use retrofuture_os.RamDisk.Types.{
  File, Disk, is_used, file_hidden, file_executable, max_files, strcasecmp_eq,
}
use retrofuture_os.RamDisk.Table.{stat}

pub record DirIter : Type 0 where
  pub index : ℕ
  pub show_hidden : Bool

abbrev pub opendir : Bool → DirIter
opendir show_hidden = record { index = 0; show_hidden = show_hidden }

-- The two `continue`s of the loop let these files through.
abbrev pub is_shown : Bool → File → Bool
is_shown show_hidden f = is_used f && (show_hidden || not (has_flag f.flags file_hidden))

-- The loop over the files from `index` on: the next one that is shown, and the new index.
unfoldable pub scan : Bool → List File → ℕ → Option File × ℕ
scan show_hidden [] index = (none, index)
scan show_hidden (f ∷ fs) index =
    let rest = scan show_hidden fs (index + 1) in
    if is_shown show_hidden f then (some f, index + 1) else rest

unfoldable pub readdir : Disk → DirIter → Option File × DirIter
unfolding scan
readdir rd dir =
    let (out, index) = scan dir.show_hidden (drop dir.index rd.files) dir.index in
    (out, record dir { index = index })

pub record Stats : Type 0 where
  pub total_size : ℕ
  pub used_size : ℕ
  pub free_size : ℕ
  pub file_count : ℕ
  pub max_files : ℕ
  pub total_reads : ℕ
  pub total_writes : ℕ
  pub bytes_read : ℕ
  pub bytes_written : ℕ
  pub fragmented_bytes : ℕ

-- The sum of the sizes of the files in use.
unfoldable pub sum_sizes : List File → ℕ → ℕ
sum_sizes [] total = total
sum_sizes (f ∷ fs) total = sum_sizes fs (if is_used f then add32 total f.size else total)

unfoldable pub get_stats : Disk → Stats
unfolding sum_sizes
get_stats rd = record {
  total_size = rd.data_size;
  used_size = rd.data_used;
  free_size = sub32 rd.data_size rd.data_used;
  file_count = rd.file_count;
  max_files = max_files;
  total_reads = rd.total_reads;
  total_writes = rd.total_writes;
  bytes_read = rd.bytes_read;
  bytes_written = rd.bytes_written;
  fragmented_bytes = sub32 rd.data_used (sum_sizes rd.files 0);
}

-- What stands behind the last dot; `dot` is what stood behind the last one so far.
unfoldable pub ext_from : List ℕ → List ℕ → List ℕ
ext_from [] dot = dot
ext_from (c ∷ cs) dot = ext_from cs (if c == b'.' then cs else dot)

unfoldable pub get_ext : List ℕ → List ℕ
unfolding ext_from
get_ext filename = ext_from filename []

unfoldable pub has_ext : List ℕ → List ℕ → Bool
unfolding get_ext strcasecmp_eq
has_ext filename ext = strcasecmp_eq (get_ext filename) ext

abbrev pub exe_ext : List ℕ
exe_ext = b'e' ∷ b'x' ∷ b'e' ∷ []

abbrev pub elf_ext : List ℕ
elf_ext = b'e' ∷ b'l' ∷ b'f' ∷ []

abbrev pub com_ext : List ℕ
com_ext = b'c' ∷ b'o' ∷ b'm' ∷ []

abbrev pub bin_ext : List ℕ
bin_ext = b'b' ∷ b'i' ∷ b'n' ∷ []

unfoldable pub is_executable : Disk → List ℕ → Bool × Disk
unfolding stat has_ext
is_executable rd name =
    let (got, rd') = stat rd name in
    elim got [
      | none ↦ (false, rd')
      | some (size, flags) ↦ (
        has_flag flags file_executable
            || has_ext name exe_ext
            || has_ext name elf_ext
            || has_ext name com_ext
            || has_ext name bin_ext,
        rd',
      )
    ]
