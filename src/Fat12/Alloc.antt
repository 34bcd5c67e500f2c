-- ===== src/Fat12/Alloc.antt =====
-- include/fat12.h and include/fat12_write.h: the search for a free cluster, and its allocation.
use retrofuture_os.Base.{
  ℕ, zero, suc, ◌+◌, ◌%◌, ◌^◌, ◌≤◌, ◌<◌, false, Option, some, ◌≡◌, ◌≢◌, ◌⊎◌, inl, inr, ap, subst,
  sym, refl, ◌∙◌, arith, Bool-cases, Memory, ltb, ◌==◌, if◌then◌else◌, add32,
}
use retrofuture_os.Fat12.Types.{Fs, cluster_eof}
use retrofuture_os.Fat12.Table.{find_free_from, find_free_cluster, alloc_cluster}
use retrofuture_os.Fat12.Packed.{IsBytes, entry_of, stored, entry_of-stored}
use retrofuture_os.Fat12.Cached.{with_table, read_fat-cached, write_fat-cached}

-- `c` is the lowest free cluster of the volume.
pub record IsFirstFree (m : Memory) (total c : ℕ) : Type 0 where
  pub above : 2 ≤ c
  pub below : c < total + 2
  pub is_free : entry_of m c ≡ 0
  pub lower_used : (j : ℕ) → 2 ≤ j → j < c → entry_of m j ≢ 0

abbrev pub IsAllUsed : Memory → ℕ → Type 0
IsAllUsed m total = (j : ℕ) → 2 ≤ j → j < total + 2 → entry_of m j ≢ 0

module _ {W : Type 0} where
  abbrev pub Searched : Fs W → Memory → Option (ℕ × Fs W) → Type 0
  Searched fs m r =
      ((c : ℕ) × (r ≡ some (c, fs)) × IsFirstFree m fs.total_clusters c)
      ⊎ ((r ≡ some (0, fs)) × IsAllUsed m fs.total_clusters)

  module _ (fs : Fs W) (m : Memory) (h : fs.fat_cache ≡ some m)
      (small : fs.total_clusters + 2 < 2 ^ 16) where
    next_round :
        (fuel i : ℕ)
        → find_free_from (suc fuel) fs i ≡ (
            if ltb i (fs.total_clusters + 2)
            then if entry_of m i == 0
              then some (i, fs)
              else find_free_from fuel fs ((i + 1) % 2 ^ 16)
            else some (0, fs))
    unfolding find_free_from
    next_round fuel i =
        let e : add32 fs.total_clusters 2 ≡ fs.total_clusters + 2 = omega arith in
        rw (e, read_fat-cached fs m i h) refl

    more_used :
        (i : ℕ)
        → (entry_of m i == 0) ≡ false
        → ((j : ℕ) → 2 ≤ j → j < i → entry_of m j ≢ 0)
        → (j : ℕ) → 2 ≤ j
        → j < i + 1
        → entry_of m j ≢ 0
    more_used i used before j two less e = elim (Bool-cases (j == i)) [
      | inl same ↦
          let at : entry_of m j ≡ entry_of m i = ap (entry_of m) (ground arith) in ground arith
      | inr other ↦ before j two (ground arith) e
    ]

    search_from_lem :
        (fuel i : ℕ)
        → 2 ≤ i
        → i ≤ fs.total_clusters + 2
        → fs.total_clusters + 2 < fuel + i
        → ((j : ℕ) → 2 ≤ j → j < i → entry_of m j ≢ 0)
        → Searched fs m (find_free_from fuel fs i)
    search_from_lem zero i q r s before = absurd (omega arith)
    search_from_lem (suc fuel) i q r s before = elim (Bool-cases (ltb i (fs.total_clusters + 2))) [
      | inr over ↦ inr (next_round fuel i ∙ rw over refl, λ j two less. before j two (ground arith))
      | inl more ↦ elim (Bool-cases (entry_of m i == 0)) [
        | inl free ↦ inl (
          i,
          next_round fuel i ∙ rw (more, free) refl,
          record { above = q; below = ground arith; is_free = ground arith; lower_used = before },
        )
        | inr used ↦
            let e : (i + 1) % 2 ^ 16 ≡ i + 1 = ground arith in
            let step : find_free_from (suc fuel) fs i ≡ find_free_from fuel fs (i + 1) =
              next_round fuel i ∙ rw (more, used, e) refl in
            subst (Searched fs m) (sym step) (
              search_from_lem fuel (i + 1) (omega arith) (ground arith) (omega arith)
                (more_used i used before))
      ]
    ]

    pub find_free_cluster-Searched : Searched fs m (find_free_cluster fs)
    unfolding find_free_cluster
    find_free_cluster-Searched =
        search_from_lem (2 ^ 16) 2 (omega arith) (omega arith) (omega arith)
          (λ j two less. absurd (omega arith))

  -- What an allocation leaves: either the lowest free cluster `c` was taken and is now the end of
  -- a chain, or no cluster is free and nothing changed.
  pub data Allocated (fs : Fs W) (m : Memory) (r : Option (ℕ × Fs W)) : Type 0 where
    took :
        (c : ℕ)
        → IsFirstFree m fs.total_clusters c
        → r ≡ some (c, with_table fs (stored m c cluster_eof))
        → ((d : ℕ)
            → entry_of (stored m c cluster_eof) d ≡ (if d == c then cluster_eof else entry_of m d))
        → Allocated fs m r
    full : IsAllUsed m fs.total_clusters → r ≡ some (0, fs) → Allocated fs m r

  -- On a volume whose clusters can be counted in 16 bits, with a cache of bytes, the search of
  -- fat12_alloc_cluster ends. It takes the lowest free cluster, which becomes the end of a chain
  -- while every other entry is kept, or it returns 0 without a change and no cluster is free.
  pub alloc_cluster-Allocated :
      (fs : Fs W) (m : Memory)
      → fs.fat_cache ≡ some m
      → IsBytes m
      → fs.total_clusters + 2 < 2 ^ 16
      → Allocated fs m (alloc_cluster fs)
  unfolding alloc_cluster
  alloc_cluster-Allocated fs m h b small = elim (find_free_cluster-Searched fs m h small) [
    | inl (c, e, first) ↦
        let nonzero : (c == 0) ≡ false = let two = first.above in ground arith in
        took c first
          (rw (alloc_cluster, e)
            (rw nonzero (ap (λ fs'. some (c, fs')) (write_fat-cached fs m c cluster_eof h))))
          (λ d. entry_of-stored m c cluster_eof d b)
    | inr (e, used) ↦ full used (rw (alloc_cluster, e) refl)
  ]
