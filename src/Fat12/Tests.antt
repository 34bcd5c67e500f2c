-- ===== src/Fat12/Tests.antt =====
-- The theorems on the FAT12 driver at concrete inputs, and runs of it on a small volume.
use retrofuture_os.Base.{
  ℕ, ◌+◌, ◌*◌, ◌^◌, Option, ◌%◌, ◌≡◌, refl, true, false, none, some, List, [], ◌∷◌, replicate, ◌++◌,
  arith, Memory, inl, ◌==◌, if◌then◌else◌,
}
use retrofuture_os.Base.{poke}
use retrofuture_os.Fat12.Write.{entry_bytes}
use retrofuture_os.Fat12.NewEntry.{dirent_at-entry_bytes}
use retrofuture_os.Fat12.Types.{Fs, Bpb, Dirent, cluster_eof}
use retrofuture_os.Fat12.Table.{read_fat, write_fat, extend_chain, free_chain, unpack, pack}
use retrofuture_os.Fat12.Names.{
  pad, string_to_name, name_to_string, named, string_to_name-name_to_string,
}
use retrofuture_os.Fat12.Params.{Params, calc_params}
use retrofuture_os.Fat12.Format.{Fits, calc_params-Fits, calc_params_diverges}
use retrofuture_os.Fat12.Packed.{IsBytes, entry_of, stored, stored-IsBytes}
use retrofuture_os.Fat12.Cached.{read_fat-write_fat}
use retrofuture_os.Fat12.Chain.{Run}
use retrofuture_os.Fat12.Extend.{Extended, extend_chain-Extended}
use retrofuture_os.Fat12.Mount.{mount}
use retrofuture_os.Fat12.Lost.{HasNoPointer, mount-loses_cache}
use retrofuture_os.Fat12.Dir.{Dir, dirent_at, open_root, read_dir}
use retrofuture_os.Fat12.File.{File, cluster_size, seek, free_space}
use retrofuture_os.Fat12.Seek.{seek-Run}
use retrofuture_os.Fat12.Walk.{read_dir-returns}
use retrofuture_os.Fat12.Space.{free_among, free_space-free_among}
use retrofuture_os.Fat12.Free.{Freed, free_chain-Freed, free_chain-returns}

-- A table in which cluster 2 goes on at cluster 3, where the chain ends.
abbrev table : Memory
table = stored (stored (λ _. 0) 2 3) 3 cluster_eof

table_ok : IsBytes table
table_ok =
    stored-IsBytes (stored (λ _. 0) 2 3) 3 cluster_eof
      (stored-IsBytes (λ _. 0) 2 3 (λ a. omega arith))

abbrev boot : Bpb
boot = record {
  bytes_per_sector = 512;
  sectors_per_cluster = 1;
  reserved_sectors = 1;
  num_fats = 2;
  root_entry_count = 16;
  total_sectors_16 = 14;
  fat_size_16 = 1;
  total_sectors_32 = 0;
  boot_signature = 0x29;
  volume_label = [];
}

-- A device that reads zeros and counts what is written.
abbrev volume : Fs ℕ
volume = record {
  read_sectors = λ lba count w. (1, replicate 512 0, w);
  write_sectors = λ lba count bytes w. (1, w + 1);
  world = 0;
  bpb = boot;
  fat_start = 1;
  root_start = 3;
  data_start = 4;
  root_sectors = 1;
  total_clusters = 10;
  fat_cache = some table;
  fat_dirty = false;
  sector_buf = λ _. 0;
  mounted = true;
}

entry_2 : entry_of table 2 ≡ 3
unfolding entry_of stored unpack pack
entry_2 = refl

entry_3 : entry_of table 3 ≡ 0xFFF
unfolding entry_of stored unpack pack
entry_3 = refl

chain_2 : Run (entry_of table) 2 (2 ∷ (3 ∷ [])) (entry_of table 3)
unfolding entry_of stored unpack pack
chain_2 = (refl, refl, (refl, refl, refl))

read_fat-write_fat_example :
    read_fat (write_fat volume 3 0x1234) 2
    ≡ (if 2 == 3 then 0x1234 % 4096 else (read_fat volume 2).0, write_fat volume 3 0x1234)
read_fat-write_fat_example = read_fat-write_fat volume table 3 0x1234 2 refl table_ok

extend_chain-Extended_example : Extended volume table 2 (2 ∷ []) 3 (extend_chain volume 3)
extend_chain-Extended_example =
    extend_chain-Extended volume table 2 (2 ∷ []) 3 refl table_ok (omega arith)
      (omega (arith, entry_3)) chain_2

free_chain-Freed_example : Freed volume table (2 ∷ (3 ∷ [])) (free_chain volume 2)
free_chain-Freed_example =
    free_chain-Freed volume table 2 (2 ∷ (3 ∷ [])) (entry_of table 3) refl table_ok
      (rw entry_3 refl) chain_2

free_chain-returns_example : (left : Fs ℕ) × (free_chain volume 2 ≡ some left)
free_chain-returns_example = free_chain-returns volume table 2 refl table_ok

abbrev readme : List ℕ
readme = b'R' ∷ b'E' ∷ b'A' ∷ []

abbrev text : List ℕ
text = b'T' ∷ b'X' ∷ []

string_to_name-name_to_string_example :
    string_to_name (name_to_string (named readme text)) ≡ (pad 8 readme, pad 3 text)
string_to_name-name_to_string_example =
    string_to_name-name_to_string readme text (omega arith) (omega arith) refl refl

calc_params-Fits_example : (p : Params) × (calc_params 1 7 2880 ≡ some p) × Fits 2880 p
calc_params-Fits_example = calc_params-Fits 0 7 2880 (omega arith) (omega arith)

calc_params_diverges_example : calc_params 100 7 5000 ≡ none
calc_params_diverges_example = calc_params_diverges 100 7 5000 (inl (omega arith, omega arith))

-- A boot sector as fat12_mount accepts it, zero from its byte 20 on.
abbrev sector : List ℕ
sector = replicate 11 0 ++ (0 ∷ 2 ∷ 1 ∷ 1 ∷ 0 ∷ 2 ∷ 16 ∷ 0 ∷ 14 ∷ []) ++ replicate 492 0

sector_ok : HasNoPointer sector
sector_ok = record {
  sector_bytes = refl;
  some_table = λ e. absurd (omega (arith, e));
  some_sectors = λ e. absurd (omega (arith, e));
  zeros = refl;
}

mount-loses_cache_example :
    (fs' : Fs ℕ) × (mount
        (λ _ _. 0)
        volume
        (λ lba count w. (1, sector, w))
        (λ lba count bytes w. (1, w))
        (some table)
      ≡ some (true, fs'))
    × (fs'.fat_cache ≡ none)
    × ((c v : ℕ) → write_fat fs' c v ≡ fs')
mount-loses_cache_example =
    mount-loses_cache (λ _ _. 0) volume (λ lba count w. (1, sector, w))
      (λ lba count bytes w. (1, w)) (some table) sector 0 refl sector_ok

-- A file of 700 bytes in the clusters 2 and 3.
abbrev handle : File
handle = record {
  dirent = record (named readme text) { cluster_low = 2; file_size = 700 };
  dir_sector = 3;
  dir_offset = 0;
  position = 0;
  cluster = 2;
  cluster_offset = 0;
  is_open = true;
  dirty = false;
}

size_512 : cluster_size volume ≡ 512
unfolding cluster_size
size_512 = refl

seek-Run_example :
    seek volume handle (1 * cluster_size volume + 88)
    ≡ some (
      true,
      record handle { cluster = 3; cluster_offset = 88; position = 1 * cluster_size volume + 88 },
      volume,
    )
seek-Run_example =
    seek-Run volume table refl handle 1 88 (2 ∷ (3 ∷ [])) (entry_of table 3) refl chain_2
      (omega arith) (omega (arith, size_512)) (omega (arith, size_512)) (omega (arith, size_512))

read_dir-returns_example :
    (r : Option Dirent × Dir × Fs ℕ) × (read_dir 17 volume (open_root volume) ≡ some r)
unfolding open_root
read_dir-returns_example =
    read_dir-returns 17 volume (open_root volume) refl (omega arith) (omega arith) (omega arith)
      (omega arith)

free_space-free_among_example :
    free_space volume ≡ some (free_among (entry_of table) 2 10 * 1 * 512 % 2 ^ 32, volume)
free_space-free_among_example = free_space-free_among volume table refl (omega arith)

dirent_at-entry_bytes_example :
    dirent_at (poke (λ _. 9) 32 (entry_bytes 33 0 (pad 8 readme) (pad 3 text) 32 2)) 32 ≡ record {
      name = pad 8 readme;
      ext = pad 3 text;
      attributes = 32;
      cluster_high = 0;
      cluster_low = 2;
      file_size = 0;
    }
unfolding pad
dirent_at-entry_bytes_example =
    dirent_at-entry_bytes (λ _. 9) 32 33 0 (pad 8 readme) (pad 3 text) 32 2 refl refl (omega arith)
