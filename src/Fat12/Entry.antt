-- ===== src/Fat12/Entry.antt =====
-- include/fat12.h and include/fat12_write.h: the volume label and the search for a free entry.
use retrofuture_os.Base.{
  ℕ, zero, suc, ◌+◌, ◌-◌, ◌*◌, Bool, true, false, ◌||◌, ◌&&◌, Option, none, some, List, [], ◌∷◌,
  ◌++◌, Memory, leb, ◌==◌, if◌then◌else◌, add32, length,
}
use retrofuture_os.Fat12.Types.{Fs, attr_volume_id, deleted_mark}
use retrofuture_os.Fat12.Table.{load, cluster_to_sector}
use retrofuture_os.Fat12.Dir.{Dir, open_root, read_dir}

-- `Trim trailing spaces`
unfoldable pub trim : List ℕ → List ℕ
trim [] = []
trim (c ∷ cs) = let rest = trim cs in if length rest == 0 && c == b' ' then [] else c ∷ rest

-- The test for a free entry at an address of a sector.
unfoldable pub is_free_entry : Memory → ℕ → Bool
is_free_entry m a = m a == 0 || m a == deleted_mark

-- The loop over the entries of a sector from the entry `i` on: at most `n`, and at most `left`.
unfoldable pub free_in_sector : ℕ → Memory → ℕ → ℕ → Option ℕ
free_in_sector zero m i left = none
free_in_sector (suc n) m i left =
    let rest = free_in_sector n m (i + 1) (left - 1) in
    if left == 0 then none else if is_free_entry m (i * 32) then some (i * 32) else rest

module _ {W : Type 0} where
  -- The loop of `fat12_get_label` over the root directory.
  unfoldable pub label_from : ℕ → ℕ → Fs W → Dir → Option (Bool × List ℕ × Fs W)
  label_from zero inner fs dir = none
  label_from (suc fuel) inner fs dir = elim (read_dir inner fs dir) [
    | none ↦ none
    | some (none, dir', fs') ↦ some (false, [], fs')
    | some (some de, dir', fs') ↦
        let rest = label_from fuel inner fs' dir' in
        if de.attributes == attr_volume_id then some (true, de.name ++ de.ext, fs') else rest
  ]

  -- The label is what stands before the terminator that is written last.
  unfoldable pub get_label : ℕ → Fs W → Option (Bool × List ℕ × Fs W)
  get_label fuel fs =
      let in_root = label_from fuel fuel fs (open_root fs) in
      if fs.bpb.boot_signature == 0x29 then some (true, trim fs.bpb.volume_label, fs) else in_root

  -- The loop over sectors, with `left` for `max_entries - entries_checked`. A round checks an entry
  -- at least, so fuel for every entry is enough.
  unfoldable pub free_entry_from : ℕ → Fs W → Bool → ℕ → ℕ → Option (ℕ × ℕ) × Fs W
  free_entry_from zero fs in_root sector left = (none, fs)
  free_entry_from (suc fuel) fs in_root sector left =
      let fs' = load fs sector in
      let rest = free_entry_from fuel fs' in_root (add32 sector 1) (left - 16) in
      if left == 0 then (none, fs) else elim (free_in_sector 16 fs'.sector_buf 0 left) [
        | some offset ↦ (some (sector, offset), fs')
        | none ↦
            if in_root
            then if leb (add32 fs'.root_start fs'.root_sectors) (add32 sector 1)
              then (none, fs')
              else rest
            else (none, fs')
      ]

  -- The sector and the offset of the entry, or none.
  unfoldable pub find_free_entry : Fs W → ℕ → Option (ℕ × ℕ) × Fs W
  find_free_entry fs dir_cluster =
      if dir_cluster == 0
      then free_entry_from fs.bpb.root_entry_count fs true fs.root_start fs.bpb.root_entry_count
      else free_entry_from (16 * fs.bpb.sectors_per_cluster) fs false
          (cluster_to_sector fs dir_cluster) (16 * fs.bpb.sectors_per_cluster)
