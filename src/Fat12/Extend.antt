-- ===== src/Fat12/Extend.antt =====
-- include/fat12_write.h: a chain is extended by a cluster (`fat12_extend_chain`).
use retrofuture_os.Base.{
  ℕ, ◌≤◌, ◌<◌, Option, some, ◌≡◌, inl, inr, ap, refl, ◌∙◌, List, [], ◌∷◌, ◌++◌, arith, Bool-cases,
  Memory, ◌==◌, if◌then◌else◌, false,
}
use retrofuture_os.Fat12.Types.{Fs, cluster_eof}
use retrofuture_os.Fat12.Table.{extend_chain, in_chain}
use retrofuture_os.Fat12.Packed.{IsBytes, entry_of, stored, entry_of-stored, stored-IsBytes}
use retrofuture_os.Fat12.Cached.{with_table, write_fat-cached}
use retrofuture_os.Fat12.Alloc.{IsFirstFree, IsAllUsed, took, full, alloc_cluster-Allocated}
use retrofuture_os.Fat12.Chain.{Run, relink, Run-ext, Run-append, Run-relink-free, Run-relink-last}

-- The table after an extension at `last` by `c`.
abbrev pub extended : Memory → ℕ → ℕ → Memory
extended m last c = stored (stored m c cluster_eof) last c

-- The new entries, once the cluster's number fits in twelve bits.
entry_of-extended :
    (m : Memory) (last c d : ℕ)
    → IsBytes m
    → c < 4096
    → entry_of (extended m last c) d ≡ relink (relink (entry_of m) c cluster_eof) last c d
entry_of-extended m last c d b small =
    entry_of-stored (stored m c cluster_eof) last c d (stored-IsBytes m c cluster_eof b)
    ∙ ground (arith, entry_of-stored m c cluster_eof d b)

distinct : (f : ℕ → ℕ) (last c : ℕ) → f c ≡ 0 → 0 < f last → (last == c) ≡ false
distinct f last c free pos = elim (Bool-cases (last == c)) [
  | inl same ↦ let at : f last ≡ f c = ap f (ground arith) in absurd (omega arith)
  | inr e ↦ e
]

-- The chain goes on with the new cluster.
chain-extended :
    (m : Memory) (first last c e : ℕ) (xs : List ℕ)
    → IsBytes m
    → 2 ≤ c
    → c < 0xFF8
    → entry_of m c ≡ 0
    → entry_of m last ≡ e
    → in_chain e ≡ false
    → 0 < e
    → Run (entry_of m) first (xs ++ (last ∷ [])) e
    → Run (entry_of (extended m last c)) first ((xs ++ (last ∷ [])) ++ (c ∷ [])) cluster_eof
chain-extended m first last c e xs b low high free at out pos run =
    let f = entry_of m in
    let g = relink f c cluster_eof in
    let apart = distinct (entry_of m) last c free (omega arith) in
    let step1 = Run-relink-free f c cluster_eof first (xs ++ (last ∷ [])) e free pos run in
    let step2 = Run-relink-last g last c first xs e (rw apart at) out step1 in
    let ends : relink g last c c ≡ cluster_eof = ground arith in
    Run-ext (relink g last c) (entry_of (extended m last c)) first ((xs ++ (last ∷ [])) ++ (c ∷ []))
      cluster_eof (λ d. entry_of-extended m last c d b (omega arith))
      (Run-append (relink g last c) first (xs ++ (last ∷ [])) (c ∷ []) c cluster_eof step2
        (refl, ground arith, ends))

module _ {W : Type 0} where
  -- What an extension of the chain `xs` and then `last` leaves.
  pub data Extended (fs : Fs W) (m : Memory) (first : ℕ) (xs : List ℕ) (last : ℕ)
      (r : Option (ℕ × Fs W)) : Type 0 where
    grew :
        (c : ℕ)
        → IsFirstFree m fs.total_clusters c
        → r ≡ some (c, with_table fs (extended m last c))
        → Run (entry_of (extended m last c)) first ((xs ++ (last ∷ [])) ++ (c ∷ [])) cluster_eof
        → ((d : ℕ)
            → entry_of (extended m last c) d
              ≡ (if d == last then c else if d == c then cluster_eof else entry_of m d))
        → Extended fs m first xs last r
    no_room : IsAllUsed m fs.total_clusters → r ≡ some (0, fs) → Extended fs m first xs last r

  -- On a FAT12 volume of at most 4084 clusters, fat12_extend_chain at the last cluster of a chain
  -- that ends properly makes the chain one cluster longer. The new cluster was the lowest free
  -- one, the chain ends behind it, and every entry but the two is kept. If no cluster is free it
  -- returns 0 without a change.
  pub extend_chain-Extended :
      (fs : Fs W) (m : Memory) (first : ℕ) (xs : List ℕ) (last : ℕ)
      → fs.fat_cache ≡ some m
      → IsBytes m
      → fs.total_clusters ≤ 4084
      → 0xFF8 ≤ entry_of m last
      → Run (entry_of m) first (xs ++ (last ∷ [])) (entry_of m last)
      → Extended fs m first xs last (extend_chain fs last)
  unfolding extend_chain
  extend_chain-Extended fs m first xs last h b few ends run =
      elim (alloc_cluster-Allocated fs m h b (omega arith)) [
        | took c fresh e kept ↦
            let low = fresh.above in
            let high = fresh.below in
            let nonzero : (c == 0) ≡ false = ground arith in
            grew c fresh
              (rw (extend_chain, e)
                (rw nonzero (
                  ap (λ fs'. some (c, fs'))
                    (write_fat-cached (with_table fs (stored m c cluster_eof))
                      (stored m c cluster_eof) last c refl))))
              (chain-extended m first last c (entry_of m last) xs b low (omega arith) fresh.is_free
                refl (ground arith) (omega arith) run)
              (λ d. entry_of-extended m last c d b (omega arith))
        | full used e ↦ no_room used (rw (extend_chain, e) refl)
      ]
