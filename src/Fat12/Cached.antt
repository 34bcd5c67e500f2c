-- ===== src/Fat12/Cached.antt =====
-- include/fat12.h with the table in memory: `fat12_read_fat` and `fat12_write_fat` on `fat_cache`.
use retrofuture_os.Base.{ℕ, ◌%◌, true, some, ◌≡◌, refl, ap, Memory, ◌==◌, if◌then◌else◌}
use retrofuture_os.Fat12.Types.{Fs}
use retrofuture_os.Fat12.Table.{read_fat, write_fat}
use retrofuture_os.Fat12.Packed.{IsBytes, entry_of, stored, entry_of-stored}

module _ {W : Type 0} where
  abbrev pub with_table : Fs W → Memory → Fs W
  with_table fs m = record fs { fat_cache = some m; fat_dirty = true }

  pub read_fat-cached :
      (fs : Fs W) (m : Memory) (c : ℕ) → fs.fat_cache ≡ some m → read_fat fs c ≡ (entry_of m c, fs)
  unfolding read_fat entry_of
  read_fat-cached fs m c h = rw h refl

  pub write_fat-cached :
      (fs : Fs W) (m : Memory) (c v : ℕ)
      → fs.fat_cache ≡ some m
      → write_fat fs c v ≡ with_table fs (stored m c v)
  unfolding write_fat stored
  write_fat-cached fs m c v h = rw h refl

  -- With a cache of bytes, an entry that fat12_write_fat wrote is read back cut to twelve bits,
  -- every other entry is read as before, and reading changes nothing.
  pub read_fat-write_fat :
      (fs : Fs W) (m : Memory) (c v d : ℕ)
      → fs.fat_cache ≡ some m
      → IsBytes m
      → read_fat (write_fat fs c v) d
        ≡ (if d == c then v % 4096 else (read_fat fs d).0, write_fat fs c v)
  read_fat-write_fat fs m c v d h b =
      rw
        (
          write_fat-cached fs m c v h,
          read_fat-cached fs m d h,
          read_fat-cached (with_table fs (stored m c v)) (stored m c v) d refl,
        )
        (ap (λ n. (n, with_table fs (stored m c v))) (entry_of-stored m c v d b))
