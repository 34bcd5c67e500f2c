-- ===== src/Fat12/Types.antt =====
-- include/fat12.h: the structures. A block device is the pair of functions that `fat12_mount`
-- is given, over a state `W` of the device; `fat_cache` is none for the NULL pointer.
use retrofuture_os.Base.{ℕ, ◌+◌, ◌*◌, ◌/◌, ◌%◌, Bool, Option, List, Memory, update}

abbrev pub sector_size : ℕ
sector_size = 512

abbrev pub cluster_free : ℕ
cluster_free = 0x000

abbrev pub cluster_eof_min : ℕ
cluster_eof_min = 0xFF8

abbrev pub cluster_eof : ℕ
cluster_eof = 0xFFF

abbrev pub attr_volume_id : ℕ
attr_volume_id = 0x08

abbrev pub attr_directory : ℕ
attr_directory = 0x10

abbrev pub attr_archive : ℕ
attr_archive = 0x20

abbrev pub attr_lfn : ℕ
attr_lfn = 0x0F

abbrev pub deleted_mark : ℕ
deleted_mark = 0xE5

-- The fields of the boot sector that the driver reads.
pub record Bpb : Type 0 where
  pub bytes_per_sector : ℕ
  pub sectors_per_cluster : ℕ
  pub reserved_sectors : ℕ
  pub num_fats : ℕ
  pub root_entry_count : ℕ
  pub total_sectors_16 : ℕ
  pub fat_size_16 : ℕ
  pub total_sectors_32 : ℕ
  pub boot_signature : ℕ
  pub volume_label : List ℕ

-- The fields of a directory entry that the driver looks at.
pub record Dirent : Type 0 where
  pub name : List ℕ
  pub ext : List ℕ
  pub attributes : ℕ
  pub cluster_high : ℕ
  pub cluster_low : ℕ
  pub file_size : ℕ

-- `read_sectors lba count` gives the count that was read and the bytes that arrive in the buffer.
pub record Fs (W : Type 0) : Type 0 where
  pub read_sectors : ℕ → ℕ → W → ℕ × List ℕ × W
  pub write_sectors : ℕ → ℕ → List ℕ → W → ℕ × W
  pub world : W
  pub bpb : Bpb
  pub fat_start : ℕ
  pub root_start : ℕ
  pub data_start : ℕ
  pub root_sectors : ℕ
  pub total_clusters : ℕ
  pub fat_cache : Option Memory
  pub fat_dirty : Bool
  pub sector_buf : Memory
  pub mounted : Bool

-- `*(uint16_t *)&m[a]`, read and assigned.
abbrev pub word : Memory → ℕ → ℕ
word m a = m a + m (a + 1) * 256

abbrev pub put_word : Memory → ℕ → ℕ → Memory
put_word m a x = update (update m a (x % 256)) (a + 1) (x / 256 % 256)
