-- ===== src/Fat12/Table.antt =====
-- include/fat12.h and include/fat12_write.h: the file allocation table and its clusters.
-- A loop whose end depends on the disk gives none when it does not end.
use retrofuture_os.Base.{
  ℕ, zero, suc, ◌+◌, ◌-◌, ◌*◌, ◌/◌, ◌%◌, ◌^◌, Bool, true, ◌&&◌, Option, none, some, ltb, leb, ◌==◌,
  if◌then◌else◌, has_flag, bit_and, bit_or, add32, sub32, poke,
}
use retrofuture_os.Fat12.Types.{
  Fs, word, put_word, sector_size, cluster_free, cluster_eof, cluster_eof_min,
}

-- `cluster + (cluster / 2)`: an entry has a byte and a half.
abbrev pub fat_offset : ℕ → ℕ
fat_offset cluster = cluster + cluster / 2

-- The end of `fat12_read_fat`: the twelve bits of a cluster in its word.
unfoldable pub unpack : ℕ → ℕ → ℕ
unpack cluster value = if has_flag cluster 1 then value / 2 ^ 4 else bit_and value 0x0FFF

-- The word that `fat12_write_fat` assigns.
unfoldable pub pack : ℕ → ℕ → ℕ → ℕ
pack cluster old value =
    if has_flag cluster 1
    then bit_or (bit_and old 0x000F) (value * 2 ^ 4) % 2 ^ 16
    else bit_or (bit_and old 0xF000) (bit_and value 0x0FFF)

unfoldable pub is_eof : ℕ → Bool
is_eof cluster = leb cluster_eof_min cluster

-- The test of the loop in `fat12_free_chain`.
abbrev pub in_chain : ℕ → Bool
in_chain cluster = leb 2 cluster && ltb cluster cluster_eof_min

module _ {W : Type 0} where
  -- Without a cache nothing is written.
  unfoldable pub write_fat : Fs W → ℕ → ℕ → Fs W
  write_fat fs cluster value = elim fs.fat_cache [
    | none ↦ fs
    | some m ↦
        let at = fat_offset cluster in
        record fs {
          fat_cache = some (put_word m at (pack cluster (word m at) value));
          fat_dirty = true;
        }
  ]

  -- `fs->read_sectors(lba, 1, fs->sector_buf)`
  unfoldable pub load : Fs W → ℕ → Fs W
  load fs lba =
      let (_, bytes, w) = fs.read_sectors lba 1 fs.world in
      record fs { world = w; sector_buf = poke fs.sector_buf 0 bytes }

  -- The entry's word from the disk, which may lie across two sectors.
  unfoldable pub load_word : Fs W → ℕ → ℕ × Fs W
  load_word fs at =
      let sector = add32 fs.fat_start (at / sector_size) in
      let offset = at % sector_size in
      let fs1 = load fs sector in
      if offset == sector_size - 1
      then (let fs2 = load fs1 (add32 sector 1) in
          (bit_or (fs1.sector_buf offset) (fs2.sector_buf 0 * 2 ^ 8), fs2))
      else (word fs1.sector_buf offset, fs1)

  unfoldable pub read_fat : Fs W → ℕ → ℕ × Fs W
  read_fat fs cluster = elim fs.fat_cache [
    | some m ↦ (unpack cluster (word m (fat_offset cluster)), fs)
    | none ↦ let (value, fs') = load_word fs (fat_offset cluster) in (unpack cluster value, fs')
  ]

  -- The loop from the cluster `i` on; the counter of 16 bits wraps. 0 stands for no free cluster.
  unfoldable pub find_free_from : ℕ → Fs W → ℕ → Option (ℕ × Fs W)
  find_free_from zero fs i = none
  find_free_from (suc fuel) fs i =
      let rest = find_free_from fuel (read_fat fs i).1 ((i + 1) % 2 ^ 16) in
      if ltb i (add32 fs.total_clusters 2)
      then if (read_fat fs i).0 == cluster_free then some (i, (read_fat fs i).1) else rest
      else some (0, fs)

  unfoldable pub find_free_cluster : Fs W → Option (ℕ × Fs W)
  find_free_cluster fs = find_free_from (2 ^ 16) fs 2

  unfoldable pub alloc_cluster : Fs W → Option (ℕ × Fs W)
  alloc_cluster fs = elim (find_free_cluster fs) [
    | none ↦ none
    | some (cluster, fs') ↦
        if cluster == 0 then some (0, fs') else some (cluster, write_fat fs' cluster cluster_eof)
  ]

  unfoldable pub extend_chain : Fs W → ℕ → Option (ℕ × Fs W)
  extend_chain fs last = elim (alloc_cluster fs) [
    | none ↦ none
    | some (cluster, fs') ↦
        if cluster == 0 then some (0, fs') else some (cluster, write_fat fs' last cluster)
  ]

  unfoldable pub free_from : ℕ → Fs W → ℕ → Option (Fs W)
  free_from zero fs cluster = none
  free_from (suc fuel) fs cluster =
      let (next, fs') = read_fat fs cluster in
      let rest = free_from fuel (write_fat fs' cluster cluster_free) next in
      if in_chain cluster then rest else some fs

  -- 2 ^ 12 rounds are enough with a cache: a cluster that was freed ends the chain.
  unfoldable pub free_chain : Fs W → ℕ → Option (Fs W)
  free_chain fs cluster = free_from (2 ^ 12) fs cluster

  unfoldable pub cluster_to_sector : Fs W → ℕ → ℕ
  cluster_to_sector fs cluster =
      add32 fs.data_start (sub32 cluster 2 * fs.bpb.sectors_per_cluster % 2 ^ 32)
