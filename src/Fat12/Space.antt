-- ===== src/Fat12/Space.antt =====
-- include/fat12.h: what `fat12_free_space` counts.
use retrofuture_os.Base.{
  ℕ, zero, suc, ◌+◌, ◌*◌, ◌%◌, ◌^◌, ◌<◌, true, false, some, ◌≡◌, refl, ap, arith, Memory, ltb, ◌==◌,
  if◌then◌else◌, add32,
}
use retrofuture_os.Fat12.Types.{Fs, sector_size}
use retrofuture_os.Fat12.Table.{read_fat}
use retrofuture_os.Fat12.File.{count_free, free_space}
use retrofuture_os.Fat12.Packed.{entry_of}
use retrofuture_os.Fat12.Cached.{read_fat-cached}

-- The number of free entries among the `n` clusters from `i` on.
unfoldable pub free_among : (ℕ → ℕ) → ℕ → ℕ → ℕ
free_among f i zero = 0
free_among f i (suc n) = (if f i == 0 then 1 else 0) + free_among f (i + 1) n

module _ {W : Type 0} (fs : Fs W) (m : Memory) (h : fs.fat_cache ≡ some m) where
  counted :
      (fuel i n : ℕ)
      → i + n ≡ fs.total_clusters + 2
      → fs.total_clusters + 2 < 2 ^ 16
      → n < fuel
      → count_free fuel fs i ≡ some (free_among (entry_of m) i n, fs)
  unfolding count_free free_among
  counted zero i n e small q = absurd (omega arith)
  counted (suc fuel) i zero e small q =
      let total : add32 fs.total_clusters 2 ≡ fs.total_clusters + 2 = omega arith in
      let stop : ltb i (fs.total_clusters + 2) ≡ false = ground arith in
      rw (read_fat-cached fs m i h, total, stop) refl
  counted (suc fuel) i (suc n) e small q =
      let total : add32 fs.total_clusters 2 ≡ fs.total_clusters + 2 = omega arith in
      let more : ltb i (fs.total_clusters + 2) ≡ true = ground arith in
      let entry : (read_fat fs i).0 ≡ entry_of m i = ap (λ p. p.0) (read_fat-cached fs m i h) in
      let next : (i + 1) % 2 ^ 16 ≡ i + 1 = omega arith in
      rw
        (
          read_fat-cached fs m i h,
          total,
          more,
          next,
          counted fuel (i + 1) n (omega arith) small (omega arith),
        )
        (ap (λ c. some (c, fs)) (ground arith))

  -- On a volume whose clusters can be counted in 16 bits, with a cache, fat12_free_space returns
  -- the number of free clusters times the bytes of a cluster, as a number of 32 bits.
  pub free_space-free_among :
      fs.total_clusters + 2 < 2 ^ 16
      → free_space fs
        ≡ some (
          free_among (entry_of m) 2 fs.total_clusters
              * fs.bpb.sectors_per_cluster
              * sector_size
              % 2 ^ 32,
          fs,
        )
  unfolding free_space
  free_space-free_among small =
      rw (free_space, counted (2 ^ 16) 2 fs.total_clusters (omega arith) small (omega arith)) refl
