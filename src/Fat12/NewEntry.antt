-- ===== src/Fat12/NewEntry.antt =====
-- include/fat12_write.h: the bytes of a new entry, and what is read back from them.
use retrofuture_os.Base.{
  ℕ, ◌+◌, ◌*◌, ◌^◌, ◌<◌, ◌≡◌, refl, ap, ap₂, subst, ◌∙◌, List, [], ◌∷◌, ◌++◌, arith, Memory, peek,
  poke, poke_inside, get_or, get_or_ext, get_or-append, get_or-peek, length-peek, length-append,
  length,
}
use retrofuture_os.Fat12.Types.{word}
use retrofuture_os.Fat12.Dir.{dirent_at}
use retrofuture_os.Fat12.Write.{entry_bytes, bytes2, bytes4}

-- The middle of what was stored is read back.
peek-poke_middle :
    (m : Memory) (a : ℕ) (xs ys zs : List ℕ)
    → peek (poke m a (xs ++ (ys ++ zs))) (a + length xs) (length ys) ≡ ys
peek-poke_middle m a xs ys zs =
    get_or_ext 0 (peek (poke m a (xs ++ (ys ++ zs))) (a + length xs) (length ys)) ys
      (length-peek _ (a + length xs) (length ys))
      λ j q.
        let r : j < length ys =
          omega (arith, length-peek (poke m a (xs ++ (ys ++ zs))) (a + length xs) (length ys)) in
        get_or-peek (poke m a (xs ++ (ys ++ zs))) (a + length xs) (length ys) j r
        ∙ poke_inside m a (xs ++ (ys ++ zs)) (length xs + j) (a + length xs + j)
            (omega (arith, length-append xs (ys ++ zs), length-append ys zs)) (omega arith)
        ∙ ground (arith, get_or-append xs (ys ++ zs) (length xs + j) 0, get_or-append ys zs j 0)

-- A byte behind the two names.
byte_behind :
    (m : Memory) (a : ℕ) (name ext tail : List ℕ) (j : ℕ)
    → length name ≡ 8
    → length ext ≡ 3
    → j < length tail
    → poke m a (name ++ (ext ++ tail)) (a + (11 + j)) ≡ get_or tail j 0
byte_behind m a name ext tail j n e q =
    poke_inside m a (name ++ (ext ++ tail)) (11 + j) (a + (11 + j))
      (omega (arith, length-append name (ext ++ tail), length-append ext tail)) refl
    ∙ ground (arith, get_or-append name (ext ++ tail) (11 + j) 0, get_or-append ext tail (3 + j) 0)

-- What stands behind the two names of an entry.
abbrev pub entry_tail : ℕ → ℕ → ℕ → ℕ → List ℕ
entry_tail date accessed attributes cluster =
    attributes
    ∷ 0
    ∷ 0
    ∷ (bytes2 0
        ++ (bytes2 date
            ++ (bytes2 accessed
                ++ (bytes2 0 ++ (bytes2 0 ++ (bytes2 date ++ (bytes2 cluster ++ bytes4 0)))))))

-- An entry that is stored with a name of 8 bytes, an extension of 3 and a cluster of 16 bits is read
-- back with these, its attributes and the size 0, whatever the memory held.
pub dirent_at-entry_bytes :
    (m : Memory) (a date accessed : ℕ) (name ext : List ℕ) (attributes cluster : ℕ)
    → length name ≡ 8
    → length ext ≡ 3
    → cluster < 2 ^ 16
    → dirent_at (poke m a (entry_bytes date accessed name ext attributes cluster)) a ≡ record {
      name = name;
      ext = ext;
      attributes = attributes;
      cluster_high = 0;
      cluster_low = cluster;
      file_size = 0;
    }
unfolding dirent_at entry_bytes
dirent_at-entry_bytes m a date accessed name ext attributes cluster n e q =
    let stored = poke m a (name ++ (ext ++ entry_tail date accessed attributes cluster)) in
    let at : (j : ℕ)
        → j < 21
        → stored (a + (11 + j)) ≡ get_or (entry_tail date accessed attributes cluster) j 0 =
      λ j r. byte_behind m a name ext (entry_tail date accessed attributes cluster) j n e r in
    let both : (k : ℕ)
        → k < 20
        → stored (a + (11 + k)) + stored (a + (11 + k) + 1) * 256
          ≡ get_or (entry_tail date accessed attributes cluster) k 0
            + get_or (entry_tail date accessed attributes cluster) (k + 1) 0 * 256 =
      λ k r.
        ap₂ (λ x y. x + y * 256) (at k (omega arith))
          (ap stored (omega arith) ∙ at (k + 1) (omega arith)) in
    let same_name : peek stored a 8 ≡ name =
      subst (λ k. peek stored a k ≡ name) n
        (subst (λ b. peek stored b (length name) ≡ name) (omega arith)
          (peek-poke_middle m a [] name (ext ++ entry_tail date accessed attributes cluster))) in
    let same_ext : peek stored (a + 8) 3 ≡ ext =
      subst (λ k. peek stored (a + 8) k ≡ ext) e
        (subst (λ k. peek stored (a + k) (length ext) ≡ ext) n
          (peek-poke_middle m a name ext (entry_tail date accessed attributes cluster))) in
    let low : word stored (a + 26) ≡ cluster = both 15 (omega arith) ∙ omega arith in
    let high : word stored (a + 20) ≡ 0 = both 9 (omega arith) in
    let size : word stored (a + 28) + word stored (a + 30) * 2 ^ 16 ≡ 0 =
      ap₂ (λ x y. x + y * 2 ^ 16) (both 17 (omega arith)) (both 19 (omega arith)) in
    λ i. record {
      name = same_name i;
      ext = same_ext i;
      attributes = at 0 (omega arith) i;
      cluster_high = high i;
      cluster_low = low i;
      file_size = size i;
    }
