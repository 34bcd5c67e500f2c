-- ===== src/Fat12/Seek.antt =====
-- include/fat12.h: where `fat12_seek` arrives in a file's chain of clusters.
use retrofuture_os.Base.{
  ℕ, zero, suc, ◌+◌, ◌-◌, ◌*◌, ◌^◌, ◌≤◌, ◌<◌, true, false, not, ◌||◌, some, ◌≡◌, refl, sym, ap, ap₂,
  ◌∙◌, List, [], ◌∷◌, arith, Memory, length, get_or, ltb, leb, if◌then◌else◌, add32, sub32,
}
use retrofuture_os.Fat12.Types.{Fs}
use retrofuture_os.Fat12.Table.{is_eof}
use retrofuture_os.Fat12.File.{File, cluster_size, seek_from, seek}
use retrofuture_os.Fat12.Packed.{entry_of}
use retrofuture_os.Fat12.Cached.{read_fat-cached}
use retrofuture_os.Fat12.Chain.{Run}

times_suc : (k n : ℕ) → suc k * n ≡ n + k * n
times_suc k n = grind arith

below_times : (k n : ℕ) → 1 ≤ n → k ≤ k * n
below_times zero n h = omega arith
below_times (suc k) n h = omega (arith, below_times k n h, times_suc k n)

goes_on :
    (f : ℕ → ℕ) (c k : ℕ) (xs : List ℕ) (e : ℕ) → k < length xs → Run f c xs e → is_eof c ≡ false
unfolding is_eof
goes_on f c k [] e h run = absurd (omega arith)
goes_on f c k (x ∷ xs) e h (same, inside, rest) = ground arith

module _ {W : Type 0} (fs : Fs W) (m : Memory) (h : fs.fat_cache ≡ some m) where
  seek_round :
      (fuel c start target : ℕ)
      → seek_from (suc fuel) fs c start target ≡ (
          if leb (add32 start (cluster_size fs)) target
          then if is_eof (entry_of m c)
            then some (c, start, fs)
            else seek_from fuel fs (entry_of m c) (add32 start (cluster_size fs)) target
          else some (c, start, fs))
  unfolding seek_from
  seek_round fuel c start target = rw (read_fat-cached fs m c h) refl

  seek_from-Run :
      (fuel c start k off target : ℕ) (xs : List ℕ) (e : ℕ)
      → Run (entry_of m) c xs e
      → k < length xs
      → off < cluster_size fs
      → target ≡ start + (k * cluster_size fs + off)
      → target + cluster_size fs < 2 ^ 32
      → k < fuel
      → seek_from fuel fs c start target ≡ some (get_or xs k 0, target - off, fs)
  seek_from-Run zero c start k off target xs e run q r t s enough = absurd (omega arith)
  seek_from-Run (suc fuel) c start k off target [] e run q r t s enough = absurd (omega arith)
  seek_from-Run (suc fuel) c start zero off target (x ∷ xs) e (same, inside, rest) q r t s enough =
      let stop : leb (add32 start (cluster_size fs)) target ≡ false = ground arith in
      let here : start ≡ target - off = omega arith in
      seek_round fuel c start target ∙ rw stop (ap₂ (λ x p. some (x, p, fs)) (sym same) here)
  seek_from-Run (suc fuel) c start (suc k) off target (x ∷ xs) e (same, inside, rest) q r t s
        enough =
      let product = times_suc k (cluster_size fs) in
      let more : leb (add32 start (cluster_size fs)) target ≡ true = ground arith in
      let on = goes_on (entry_of m) (entry_of m c) k xs e (omega arith) rest in
      seek_round fuel c start target
      ∙ rw (more, on)
          (seek_from-Run fuel (entry_of m c) (add32 start (cluster_size fs)) k off target xs e rest
            (omega arith) r (omega arith) s (omega arith))

  -- On an open file with its table in memory, fat12_seek to the byte `off` of the cluster number
  -- `k` of the file's chain returns true, and the handle then stands at that byte of the cluster, if
  -- the byte is not past the size of the file and that leaves room for a cluster below 2 ^ 32.
  pub seek-Run :
      (file : File) (k off : ℕ) (xs : List ℕ) (e : ℕ)
      → file.is_open ≡ true
      → Run (entry_of m) file.dirent.cluster_low xs e
      → k < length xs
      → off < cluster_size fs
      → k * cluster_size fs + off ≤ file.dirent.file_size
      → file.dirent.file_size + cluster_size fs < 2 ^ 32
      → seek fs file (k * cluster_size fs + off)
        ≡ some (
          true,
          record file {
            cluster = get_or xs k 0;
            cluster_offset = off;
            position = k * cluster_size fs + off;
          },
          fs,
        )
  unfolding seek
  seek-Run file k off xs e on run q r inside small =
      let target = k * cluster_size fs + off in
      let test : (not file.is_open || ltb file.dirent.file_size target) ≡ false = ground arith in
      let found =
        seek_from-Run (suc target) file.dirent.cluster_low 0 k off target xs e run q r (omega arith)
          (omega arith) (omega (arith, below_times k (cluster_size fs) (omega arith))) in
      let offset : sub32 target (target - off) ≡ off = ground arith in
      rw (test, found)
        (ap
          (λ o. some (
            true,
            record file { cluster = get_or xs k 0; cluster_offset = o; position = target },
            fs,
          ))
          offset)
