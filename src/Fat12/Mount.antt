-- ===== src/Fat12/Mount.antt =====
-- include/fat12.h: mounting, writing the table back, unmounting.
-- The boot sector is read into `fs->bpb`, which has 62 bytes, while a sector has 512: with the
-- 4-byte pointers of the kernel's target the rest lands in the fields behind it, `fat_cache` at
-- byte 84 of the sector, `fat_dirty` at 88 and `sector_buf` from 89 on. `at_address` stands for
-- the memory that a pointer value points to.
use retrofuture_os.Base.{
  ℕ, zero, suc, ◌+◌, ◌*◌, ◌/◌, ◌^◌, Bool, true, false, not, Option, none, some, List, Memory, poke,
  peek, take, drop, get_or, ◌==◌, if◌then◌else◌, add32, sub32,
}
use retrofuture_os.Fat12.Types.{Fs, Bpb, sector_size}

-- Numbers of two and four bytes in the boot sector.
abbrev pub half_at : List ℕ → ℕ → ℕ
half_at sector k = get_or sector k 0 + get_or sector (k + 1) 0 * 2 ^ 8

abbrev pub whole_at : List ℕ → ℕ → ℕ
whole_at sector k = half_at sector k + half_at sector (k + 2) * 2 ^ 16

unfoldable pub bpb_of : List ℕ → Bpb
bpb_of sector = record {
  bytes_per_sector = half_at sector 11;
  sectors_per_cluster = get_or sector 13 0;
  reserved_sectors = half_at sector 14;
  num_fats = get_or sector 16 0;
  root_entry_count = half_at sector 17;
  total_sectors_16 = half_at sector 19;
  fat_size_16 = half_at sector 22;
  total_sectors_32 = whole_at sector 32;
  boot_signature = get_or sector 38 0;
  volume_label = take 11 (drop 43 sector);
}

abbrev pub null_or : (ℕ → Memory) → ℕ → Option Memory
null_or at_address p = if p == 0 then none else some (at_address p)

module _ {W : Type 0} where
  -- The state after the sector was copied over `bpb` and what stands behind it. The numbers
  -- between, from byte 64 to 83, are computed anew unless the mount fails.
  unfoldable pub overlay : (ℕ → Memory) → List ℕ → Fs W → Fs W
  overlay at_address sector fs = record fs {
    bpb = bpb_of sector;
    fat_start = whole_at sector 64;
    root_start = whole_at sector 68;
    data_start = whole_at sector 72;
    root_sectors = whole_at sector 76;
    total_clusters = whole_at sector 80;
    fat_cache = null_or at_address (whole_at sector 84);
    fat_dirty = not (get_or sector 88 0 == 0);
    sector_buf = poke fs.sector_buf 0 (drop 89 sector);
  }

  -- `Calculate layout`
  unfoldable pub lay_out : Fs W → Fs W
  lay_out fs =
      let b = fs.bpb in
      let root_sectors = (b.root_entry_count * 32 + 511) / 512 in
      let root_start = b.reserved_sectors + b.num_fats * b.fat_size_16 in
      let data_start = root_start + root_sectors in
      let total = if b.total_sectors_16 == 0 then b.total_sectors_32 else b.total_sectors_16 in
      record fs {
        fat_start = b.reserved_sectors;
        root_sectors = root_sectors;
        root_start = root_start;
        data_start = data_start;
        total_clusters = sub32 total data_start / b.sectors_per_cluster;
      }

  -- The loop that loads `n` sectors of the table from the sector `i` of it on.
  unfoldable pub load_table : ℕ → ℕ → Fs W → Memory → Fs W
  load_table zero i fs m = record fs { fat_cache = some m }
  load_table (suc n) i fs m =
      let (_, bytes, w) = fs.read_sectors (fs.fat_start + i) 1 fs.world in
      load_table n (i + 1) (record fs { world = w }) (poke m (i * sector_size) bytes)

  unfoldable pub load_cache : Fs W → Fs W
  load_cache fs = elim fs.fat_cache [ none ↦ fs | some m ↦ load_table fs.bpb.fat_size_16 0 fs m ]

  -- The part after the boot sector was read; none for a division by zero, which the processor
  -- refuses.
  unfoldable pub mount_read : Fs W → Option (Bool × Fs W)
  mount_read fs =
      if not (fs.bpb.bytes_per_sector == 512)
      then some (false, fs)
      else if fs.bpb.num_fats == 0
      then some (false, fs)
      else if fs.bpb.sectors_per_cluster == 0
      then none
      else some (true, record (load_cache (lay_out fs)) { mounted = true })

  -- A read that fails is taken to leave the memory as it is.
  unfoldable pub mount :
      (ℕ → Memory)
      → Fs W
      → (ℕ → ℕ → W → ℕ × List ℕ × W)
      → (ℕ → ℕ → List ℕ → W → ℕ × W)
      → Option Memory
      → Option (Bool × Fs W)
  mount at_address fs read_fn write_fn fat_cache_buf =
      let fs0 = record fs {
        read_sectors = read_fn;
        write_sectors = write_fn;
        fat_cache = fat_cache_buf;
        fat_dirty = false;
        mounted = false;
      } in
      let (count, sector, w) = read_fn 0 1 fs.world in
      if not (count == 1)
      then some (false, record fs0 { world = w })
      else mount_read (overlay at_address sector (record fs0 { world = w }))

  -- The inner loop of `fat12_sync`: `n` sectors of the table from its sector `i` on.
  unfoldable pub write_table : ℕ → ℕ → ℕ → Memory → Fs W → Fs W
  write_table zero i fat_sector m fs = fs
  write_table (suc n) i fat_sector m fs =
      let (_, w) =
        fs.write_sectors (add32 fat_sector i) 1 (peek m (i * sector_size) sector_size) fs.world in
      write_table n (i + 1) fat_sector m (record fs { world = w })

  -- The outer loop: `n` tables from the table `f` on.
  unfoldable pub write_tables : ℕ → ℕ → Memory → Fs W → Fs W
  write_tables zero f m fs = fs
  write_tables (suc n) f m fs =
      write_tables n (f + 1) m
        (write_table fs.bpb.fat_size_16 0 (add32 fs.fat_start (f * fs.bpb.fat_size_16)) m fs)

  unfoldable pub sync : Fs W → Fs W
  sync fs = elim fs.fat_cache [
    | none ↦ fs
    | some m ↦
        if fs.fat_dirty
        then record (write_tables fs.bpb.num_fats 0 m fs) { fat_dirty = false }
        else fs
  ]

  unfoldable pub unmount : Fs W → Fs W
  unmount fs = record (sync fs) { mounted = false }
