-- ===== src/RamDisk/Types.antt =====
-- include/ramdisk.h: constants, error codes, the structures, and the string helpers.
-- A C string is the list of its bytes before the terminator. The data area is a memory whose
-- address 0 is `rd->data`; a pointer to an entry of the file table is the entry's index, and
-- NULL is `none`. Pointers that a caller passes are taken to be valid.
use retrofuture_os.Base.{
  ℕ, ◌+◌, ◌*◌, Bool, true, false, ◌&&◌, Option, none, List, [], ◌∷◌, leb, ◌==◌, if◌then◌else◌,
  has_flag, get_or, take, Memory,
}

abbrev pub max_files : ℕ
max_files = 128

abbrev pub max_filename : ℕ
max_filename = 32

abbrev pub disk_size : ℕ
disk_size = 1024 * 1024

abbrev pub block_size : ℕ
block_size = 512

abbrev pub file_free : ℕ
file_free = 0x00

abbrev pub file_used : ℕ
file_used = 0x01

abbrev pub file_readonly : ℕ
file_readonly = 0x04

abbrev pub file_hidden : ℕ
file_hidden = 0x08

abbrev pub file_executable : ℕ
file_executable = 0x20

pub data Error : Type 0 where
  ok not_init not_found exists no_space no_slots readonly invalid not_open too_large : Error

pub record File : Type 0 where
  pub name : List ℕ
  pub size : ℕ
  pub offset : ℕ
  pub allocated : ℕ
  pub flags : ℕ
  pub created : ℕ
  pub modified : ℕ

pub record Disk : Type 0 where
  pub files : List File
  pub file_count : ℕ
  pub bytes : Memory
  pub data_size : ℕ
  pub data_used : ℕ
  pub data_ptr : ℕ
  pub total_reads : ℕ
  pub total_writes : ℕ
  pub total_created : ℕ
  pub total_deleted : ℕ
  pub bytes_read : ℕ
  pub bytes_written : ℕ
  pub initialized : Bool
  pub last_error : Error

pub record Handle : Type 0 where
  pub file : Option ℕ
  pub position : ℕ
  pub file_index : ℕ
  pub is_open : Bool
  pub write_mode : Bool
  pub append_mode : Bool

-- An entry, and a handle, of zero bytes.
abbrev pub blank_file : File
blank_file = record {
  name = [];
  size = 0;
  offset = 0;
  allocated = 0;
  flags = 0;
  created = 0;
  modified = 0;
}

abbrev pub blank_handle : Handle
blank_handle = record {
  file = none;
  position = 0;
  file_index = 0;
  is_open = false;
  write_mode = false;
  append_mode = false;
}

-- `rd->files[i]`
abbrev pub entry : Disk → ℕ → File
entry rd i = get_or rd.files i blank_file

abbrev pub is_used : File → Bool
is_used f = has_flag f.flags file_used

abbrev pub fail : Disk → Error → Disk
fail rd e = record rd { last_error = e }

unfoldable pub to_lower : ℕ → ℕ
to_lower c = if leb b'A' c && leb c b'Z' then c + 32 else c

-- `rd_strcasecmp(a, b) == 0`, the only use that is made of the result.
unfoldable pub strcasecmp_eq : List ℕ → List ℕ → Bool
unfolding to_lower
strcasecmp_eq [] [] = true
strcasecmp_eq [] (b ∷ ys) = false
strcasecmp_eq (a ∷ xs) [] = false
strcasecmp_eq (a ∷ xs) (b ∷ ys) = to_lower a == to_lower b && strcasecmp_eq xs ys

-- The string that `rd_strncpy(dst, src, n)` leaves in `dst`.
abbrev pub strncpy : List ℕ → ℕ → List ℕ
strncpy src n = take n src
