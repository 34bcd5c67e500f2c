-- ===== src/Vfs/Longest.antt =====
-- include/vfs.h: the mount point of a path (`vfs_find_mount`).
use retrofuture_os.Base.{
  ℕ, zero, suc, ◌+◌, ◌≤◌, ◌<◌, min, true, ◌&&◌, Option, none, some, ◌≡◌, inl, inr, refl, ap, subst,
  ◌∙◌, List, [], ◌∷◌, arith, length, get_or, ltb, Bool-cases,
}
use retrofuture_os.Vfs.Types.{Vfs, Mount, no_mount, mount_at}
use retrofuture_os.Vfs.Mounts.{covers, best_from, scanned, find_mount}

module _ {W : Type 0} where
  length-scanned : (n : ℕ) (ms : List (Mount W)) → length (scanned n ms) ≡ min n (length ms)
  unfolding scanned
  length-scanned zero ms = omega arith
  length-scanned (suc n) [] = omega arith
  length-scanned (suc n) (m ∷ ms) = omega (arith, length-scanned n ms)

  get_or-scanned :
      (n k : ℕ) (ms : List (Mount W))
      → k < n
      → get_or (scanned n ms) k no_mount ≡ get_or ms k no_mount
  unfolding scanned
  get_or-scanned zero k ms q = absurd (omega arith)
  get_or-scanned (suc n) k [] q = refl
  get_or-scanned (suc n) zero (m ∷ ms) q = refl
  get_or-scanned (suc n) (suc k) (m ∷ ms) q = get_or-scanned n k ms (omega arith)

  abbrev pub path_length : Mount W → ℕ
  path_length m = length m.path

  -- A property of the first `n` of `ms` and of one more in front.
  cons_all :
      (P : Mount W → Type 0) (m : Mount W) (ms : List (Mount W)) (n : ℕ)
      → P m
      → ((j : ℕ) → j < n → P (get_or ms j no_mount))
      → (j : ℕ) → j < suc n
      → P (get_or (m ∷ ms) j no_mount)
  cons_all P m ms n h all zero q = h
  cons_all P m ms n h all (suc j) q = all j (omega arith)

  abbrev pub AtMost : List ℕ → ℕ → Mount W → Type 0
  AtMost path n m = covers path m ≡ true → path_length m ≤ n

  abbrev pub Below : List ℕ → ℕ → Mount W → Type 0
  Below path n m = covers path m ≡ true → path_length m < n

  -- What the loop finds among `ms`, whose first slot is `i`.
  data Best (path : List ℕ) (i : ℕ) (ms : List (Mount W)) (best : Option ℕ) (best_len : ℕ)
      (r : Option ℕ) : Type 0 where
    kept :
        r ≡ best
        → ((j : ℕ) → j < length ms → AtMost path best_len (get_or ms j no_mount))
        → Best path i ms best best_len r
    better :
        (k : ℕ)
        → r ≡ some (i + k)
        → k < length ms
        → covers path (get_or ms k no_mount) ≡ true
        → best_len < path_length (get_or ms k no_mount)
        → ((j : ℕ)
            → j < length ms
            → AtMost path (path_length (get_or ms k no_mount)) (get_or ms j no_mount))
        → ((j : ℕ) → j < k → Below path (path_length (get_or ms k no_mount)) (get_or ms j no_mount))
        → Best path i ms best best_len r

  best_from-Best :
      (path : List ℕ) (i : ℕ) (ms : List (Mount W)) (best : Option ℕ) (best_len : ℕ)
      → Best path i ms best best_len (best_from path i ms best best_len)
  unfolding best_from
  best_from-Best path i [] best best_len = kept refl (λ j q. absurd (omega arith))
  best_from-Best path i (m ∷ ms) best best_len =
      elim (Bool-cases (covers path m && ltb best_len (path_length m))) [
        | inl longer ↦ rw longer (elim (best_from-Best path (i + 1) ms (some i) (path_length m)) [
          | kept e below ↦
              better zero (e ∙ ap some (omega arith)) (omega arith) (ground arith) (ground arith)
                (cons_all (AtMost path (path_length m)) m ms (length ms) (λ c. omega arith) below)
                (λ j q. absurd (omega arith))
          | better k e q c l below before ↦
              better (suc k) (e ∙ ap some (omega arith)) (omega arith) c (ground arith)
                (cons_all (AtMost path (path_length (get_or ms k no_mount))) m ms (length ms)
                  (λ c. omega arith) below)
                (cons_all (Below path (path_length (get_or ms k no_mount))) m ms k (λ c. l) before)
        ])
        | inr shorter ↦ rw shorter (elim (best_from-Best path (i + 1) ms best best_len) [
          | kept e below ↦
              kept e (cons_all (AtMost path best_len) m ms (length ms) (λ c. ground arith) below)
          | better k e q c l below before ↦
              better (suc k) (e ∙ ap some (omega arith)) (omega arith) c l
                (cons_all (AtMost path (path_length (get_or ms k no_mount))) m ms (length ms)
                  (λ c. ground arith) below)
                (cons_all (Below path (path_length (get_or ms k no_mount))) m ms k
                  (λ c. ground arith) before)
        ])
      ]

  -- The slots that the loop looks at.
  abbrev pub slots : Vfs W → ℕ
  slots v = min v.mount_count (length v.mounts)

  -- The answer for a path: the first of the covering mount points with the longest path, or the
  -- root when no covering mount point has a path that is not empty.
  pub data Found (v : Vfs W) (path : List ℕ) (r : Option ℕ) : Type 0 where
    longest :
        (k : ℕ)
        → r ≡ some k
        → k < slots v
        → covers path (mount_at v k) ≡ true
        → 0 < path_length (mount_at v k)
        → ((j : ℕ) → j < slots v → AtMost path (path_length (mount_at v k)) (mount_at v j))
        → ((j : ℕ) → j < k → Below path (path_length (mount_at v k)) (mount_at v j))
        → Found v path r
    default :
        r ≡ v.root_mount → ((j : ℕ) → j < slots v → AtMost path 0 (mount_at v j)) → Found v path r

  -- vfs_find_mount returns, among the first mount_count slots, the first of the mounted ones whose
  -- path is a prefix of the given path and is the longest such, or the root mount if there is none
  -- with a path that is not empty.
  pub find_mount-Found : (v : Vfs W) (path : List ℕ) → Found v path (find_mount v path)
  unfolding find_mount
  find_mount-Found v path =
      let n = length-scanned v.mount_count v.mounts in
      let same : (j : ℕ)
          → j < slots v
          → get_or (scanned v.mount_count v.mounts) j no_mount ≡ mount_at v j =
        λ j q. get_or-scanned v.mount_count j v.mounts (omega arith) in
      elim (best_from-Best path 0 (scanned v.mount_count v.mounts) none 0) [
        | kept e below ↦
            default (rw (find_mount, e) refl)
              (λ j q. subst (AtMost path 0) (same j q) (below j (omega arith)))
        | better k e q c l below before ↦
            let q' : k < slots v = omega arith in
            let s = same k q' in
            longest k (rw (find_mount, e) (ap some (omega arith))) q'
              (subst (λ m. covers path m ≡ true) s c) (subst (λ m. 0 < path_length m) s l)
              (λ j r.
                subst (λ m. AtMost path (path_length m) (mount_at v j)) s
                  (subst
                    (AtMost path (path_length (get_or (scanned v.mount_count v.mounts) k no_mount)))
                    (same j r) (below j (omega arith))))
              (λ j r.
                subst (λ m. Below path (path_length m) (mount_at v j)) s
                  (subst
                    (Below path (path_length (get_or (scanned v.mount_count v.mounts) k no_mount)))
                    (same j (omega arith)) (before j r)))
      ]
