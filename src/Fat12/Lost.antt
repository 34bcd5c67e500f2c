-- ===== src/Fat12/Lost.antt =====
-- include/fat12.h: what the read of the boot sector in `fat12_mount` does to the cache.
use retrofuture_os.Base.{
  ℕ, true, false, Option, none, some, ◌≡◌, ◌≢◌, refl, ap, List, Memory, arith, get_or, ◌==◌,
}
use retrofuture_os.Fat12.Types.{Fs}
use retrofuture_os.Fat12.Table.{write_fat}
use retrofuture_os.Fat12.Mount.{
  half_at, whole_at, bpb_of, null_or, overlay, lay_out, load_cache, mount_read, mount,
}

-- A boot sector that fat12_mount accepts and that has zeros where the cache's pointer comes to
-- lie, as those that fat12_format writes do.
pub record HasNoPointer (sector : List ℕ) : Type 0 where
  pub sector_bytes : half_at sector 11 ≡ 512
  pub some_table : get_or sector 16 0 ≢ 0
  pub some_sectors : get_or sector 13 0 ≢ 0
  pub zeros : whole_at sector 84 ≡ 0

null_or_zero : (at_address : ℕ → Memory) (p : ℕ) → p ≡ 0 → null_or at_address p ≡ none
null_or_zero at_address p h = rw h refl

module _ {W : Type 0} where
  load_cache-none : (fs : Fs W) → fs.fat_cache ≡ none → load_cache fs ≡ fs
  unfolding load_cache
  load_cache-none fs h = rw h refl

  write_fat-none : (fs : Fs W) (c v : ℕ) → fs.fat_cache ≡ none → write_fat fs c v ≡ fs
  unfolding write_fat
  write_fat-none fs c v h = rw h refl

  mounted_lost :
      (at_address : ℕ → Memory) (sector : List ℕ) (fs : Fs W)
      → HasNoPointer sector
      → mount_read (overlay at_address sector fs)
        ≡ some (true, record (lay_out (overlay at_address sector fs)) { mounted = true })
  unfolding mount_read overlay lay_out bpb_of
  mounted_lost at_address sector fs h =
      let size : (half_at sector 11 == 512) ≡ true = let e = h.sector_bytes in ground arith in
      let tables : (get_or sector 16 0 == 0) ≡ false = let e = h.some_table in ground arith in
      let sectors : (get_or sector 13 0 == 0) ≡ false = let e = h.some_sectors in ground arith in
      let loaded =
        load_cache-none (lay_out (overlay at_address sector fs))
          (null_or_zero at_address (whole_at sector 84) h.zeros) in
      rw (size, tables, sectors) (ap (λ fs'. some (true, record fs' { mounted = true })) loaded)

  -- When the boot sector is accepted and has zeros from byte 84 to 87, fat12_mount returns true
  -- with no cache, whatever buffer it was given, and then fat12_write_fat changes nothing.
  pub mount-loses_cache :
      (at_address : ℕ → Memory) (fs : Fs W) (read_fn : ℕ → ℕ → W → ℕ × List ℕ × W)
      (write_fn : ℕ → ℕ → List ℕ → W → ℕ × W) (buffer : Option Memory) (sector : List ℕ) (w : W)
      → read_fn 0 1 fs.world ≡ (1, sector, w)
      → HasNoPointer sector
      → (fs' : Fs W) × (mount at_address fs read_fn write_fn buffer ≡ some (true, fs'))
        × (fs'.fat_cache ≡ none)
        × ((c v : ℕ) → write_fat fs' c v ≡ fs')
  unfolding mount overlay lay_out
  mount-loses_cache at_address fs read_fn write_fn buffer sector w r h =
      let fs0 = record fs {
        read_sectors = read_fn;
        write_sectors = write_fn;
        fat_cache = buffer;
        fat_dirty = false;
        mounted = false;
        world = w;
      } in
      let fs' = record (lay_out (overlay at_address sector fs0)) { mounted = true } in
      let lost = null_or_zero at_address (whole_at sector 84) h.zeros in
      (
        fs',
        rw (mount, r) (mounted_lost at_address sector fs0 h),
        lost,
        λ c v. write_fat-none fs' c v lost,
      )
