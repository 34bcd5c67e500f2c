-- ===== src/Fat12/Free.antt =====
-- include/fat12_write.h: a chain is freed (`fat12_free_chain`).
use retrofuture_os.Base.{
  ℕ, zero, suc, ◌+◌, ◌≤◌, ◌<◌, ◌^◌, true, false, Option, some, ◌≡◌, inl, inr, ap, refl, ◌∙◌, List,
  [], ◌∷◌, arith, Bool-cases, Memory, length, ◌==◌, if◌then◌else◌,
}
use retrofuture_os.Fat12.Types.{Fs}
use retrofuture_os.Fat12.Table.{free_from, free_chain, in_chain}
use retrofuture_os.Fat12.Packed.{IsBytes, entry_of, stored, entry_of-stored, stored-IsBytes}
use retrofuture_os.Fat12.Cached.{with_table, read_fat-cached, write_fat-cached}
use retrofuture_os.Fat12.Chain.{Run, mem, relink, Run-ext, Run-relink-short}

-- The number of entries below `n` that are not free.
unfoldable used_below : ℕ → (ℕ → ℕ) → ℕ
used_below zero f = 0
used_below (suc n) f = (if f n == 0 then 0 else 1) + used_below n f

used_below-bounded : (n : ℕ) (f : ℕ → ℕ) → used_below n f ≤ n
unfolding used_below
used_below-bounded zero f = omega arith
used_below-bounded (suc n) f = ground (arith, used_below-bounded n f)

-- Freeing a used entry leaves one less.
used_below-relink :
    (n : ℕ) (f g : ℕ → ℕ) (c : ℕ)
    → ((d : ℕ) → g d ≡ (if d == c then 0 else f d))
    → (used_below n g ≤ used_below n f) × (c < n → 0 < f c → used_below n g + 1 ≤ used_below n f)
unfolding used_below
used_below-relink zero f g c h = (omega arith, λ q p. absurd (omega arith))
used_below-relink (suc n) f g c h =
    let (kept, less) = used_below-relink n f g c h in
    elim (Bool-cases (n == c)) [
      | inl at ↦
          let e : n ≡ c = ground arith in
          let same : f n ≡ f c = ap f e in (ground (arith, h n), λ q p. ground (arith, h n))
      | inr ne ↦ (ground (arith, h n), λ q p. ground (arith, h n, less (ground arith) p))
    ]

-- A chain that goes on is at a cluster.
nonzero : (f : ℕ → ℕ) (c : ℕ) (xs : List ℕ) (e : ℕ) → 0 < length xs → Run f c xs e → 0 < c
nonzero f c [] e more run = absurd (omega arith)
nonzero f c (x ∷ xs) e more (same, inside, rest) = ground arith

module _ {W : Type 0} where
  next_free :
      (fuel : ℕ) (fs : Fs W) (m : Memory) (c : ℕ)
      → fs.fat_cache ≡ some m
      → free_from (suc fuel) fs c ≡ (
          if in_chain c
          then free_from fuel (with_table fs (stored m c 0)) (entry_of m c)
          else some fs)
  unfolding free_from
  next_free fuel fs m c h = rw (read_fat-cached fs m c h) (rw (write_fat-cached fs m c 0 h) refl)

  -- The chain is freed and nothing else: what the loop leaves when it frees the clusters `xs`.
  pub record Freed (fs : Fs W) (m : Memory) (xs : List ℕ) (r : Option (Fs W)) : Type 0 where
    pub table : Memory
    pub left : Fs W
    pub returns : r ≡ some left
    pub cached : left.fat_cache ≡ some table
    pub same_volume : with_table left table ≡ with_table fs table
    pub frees : (d : ℕ) → entry_of table d ≡ (if mem d xs then 0 else entry_of m d)

  free_from-Freed :
      (fuel : ℕ) (fs : Fs W) (m : Memory) (c : ℕ) (xs : List ℕ) (e : ℕ)
      → fs.fat_cache ≡ some m
      → IsBytes m
      → in_chain e ≡ false
      → Run (entry_of m) c xs e
      → 1 ≤ fuel
      → (0 < length xs → used_below 0xFF8 (entry_of m) + 2 ≤ fuel)
      → Freed fs m xs (free_from fuel fs c)
  free_from-Freed zero fs m c xs e h b out run some_fuel enough = absurd (omega arith)
  free_from-Freed (suc fuel) fs m c [] e h b out run some_fuel enough =
      let ended : in_chain c ≡ false = ap in_chain run ∙ out in
      record {
        table = m;
        left = fs;
        returns = next_free fuel fs m c h ∙ rw ended refl;
        cached = h;
        same_volume = refl;
        frees = λ d. refl;
      }
  free_from-Freed (suc fuel) fs m c (x ∷ xs) e h b out (same, inside, rest) some_fuel enough =
      let m' = stored m c 0 in
      let fs' = with_table fs m' in
      let table' : (d : ℕ) → entry_of m' d ≡ relink (entry_of m) c 0 d =
        λ d. entry_of-stored m c 0 d b in
      let run' = Run-ext (relink (entry_of m) c 0) (entry_of m') (entry_of m c) xs e table' (
        Run-relink-short (entry_of m) c 0 (entry_of m c) xs (x ∷ xs) e out (same, inside, rest)
          (omega arith) rest) in
      let done =
        free_from-Freed fuel fs' m' (entry_of m c) xs e refl (stored-IsBytes m c 0 b) out run'
          (omega (arith, enough (omega arith)))
          (λ more. omega (
            arith,
            enough (omega arith),
            (used_below-relink 0xFF8 (entry_of m) (entry_of m') c table').1 (ground arith)
                (nonzero (entry_of m) (entry_of m c) xs e more rest),
          )) in
      record {
        table = done.table;
        left = done.left;
        returns = next_free fuel fs m c h ∙ rw inside done.returns;
        cached = done.cached;
        same_volume = done.same_volume;
        frees = λ d. done.frees d ∙ ground (arith, table' d);
      }

  -- With a cache of bytes, fat12_free_chain on a chain that ends properly returns, the entries of
  -- exactly its clusters are free afterwards, every other entry is kept, and of the volume only
  -- the cache and its dirty flag change.
  pub free_chain-Freed :
      (fs : Fs W) (m : Memory) (c : ℕ) (xs : List ℕ) (e : ℕ)
      → fs.fat_cache ≡ some m
      → IsBytes m
      → in_chain e ≡ false
      → Run (entry_of m) c xs e
      → Freed fs m xs (free_chain fs c)
  unfolding free_chain
  free_chain-Freed fs m c xs e h b out run =
      free_from-Freed (2 ^ 12) fs m c xs e h b out run (omega arith)
        (λ more. omega (arith, used_below-bounded 0xFF8 (entry_of m)))

  free_from-returns :
      (fuel : ℕ) (fs : Fs W) (m : Memory) (c : ℕ)
      → fs.fat_cache ≡ some m
      → IsBytes m
      → 1 ≤ fuel
      → (in_chain c ≡ true → used_below 0xFF8 (entry_of m) + 2 ≤ fuel)
      → (left : Fs W) × (free_from fuel fs c ≡ some left)
  free_from-returns zero fs m c h b some_fuel enough = absurd (omega arith)
  free_from-returns (suc fuel) fs m c h b some_fuel enough = elim (Bool-cases (in_chain c)) [
    | inr out ↦ (fs, next_free fuel fs m c h ∙ rw out refl)
    | inl inside ↦
        let less =
          used_below-relink 0xFF8 (entry_of m) (entry_of (stored m c 0)) c
            (λ d. entry_of-stored m c 0 d b) in
        let (left, e) =
          free_from-returns fuel (with_table fs (stored m c 0)) (stored m c 0) (entry_of m c) refl
            (stored-IsBytes m c 0 b) (omega (arith, enough inside))
            (λ again. omega (arith, enough inside, less.1 (ground arith) (ground arith))) in
        (left, next_free fuel fs m c h ∙ rw inside e)
  ]

  -- With a cache of bytes fat12_free_chain returns from any cluster, also where the chain is
  -- damaged and runs in a circle or into a free cluster.
  pub free_chain-returns :
      (fs : Fs W) (m : Memory) (c : ℕ)
      → fs.fat_cache ≡ some m
      → IsBytes m
      → (left : Fs W) × (free_chain fs c ≡ some left)
  unfolding free_chain
  free_chain-returns fs m c h b =
      free_from-returns (2 ^ 12) fs m c h b (omega arith)
        (λ inside. omega (arith, used_below-bounded 0xFF8 (entry_of m)))
