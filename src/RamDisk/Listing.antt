-- ===== src/RamDisk/Listing.antt =====
-- `ramdisk_readdir`: the listing gives the files that are to be shown, each once and in order.
use retrofuture_os.Base.{
  ℕ, zero, suc, ◌+◌, ◌<◌, ◌≤◌, ◌≡◌, refl, sym, subst, Bool, true, false, Option, none, some, List,
  [], ◌∷◌, drop, arith, inl, inr, Bool-cases, if◌then◌else◌,
}
use retrofuture_os.RamDisk.Types.{File, Disk}
use retrofuture_os.RamDisk.Dir.{DirIter, is_shown, scan, readdir}

-- The files that a listing is to give.
abbrev pub shown : Bool → List File → List File
shown hidden [] = []
shown hidden (f ∷ fs) = if is_shown hidden f then f ∷ shown hidden fs else shown hidden fs

drop-suc :
    (k : ℕ) (xs : List File) (y : File) (ys : List File) → drop k xs ≡ y ∷ ys → drop (k + 1) xs ≡ ys
drop-suc zero [] y ys e = absurd (cc)
drop-suc zero (x ∷ xs) y ys e = cc
drop-suc (suc k) [] y ys e = absurd (cc)
drop-suc (suc k) (x ∷ xs) y ys e =
    let next : suc k + 1 ≡ suc (k + 1) = omega arith in rw next (drop-suc k xs y ys e)

-- What remains to be listed is what the scan found, then what stands from the new index on.
abbrev pub Splits : Bool → List File → List File → ℕ → Option File × ℕ → Type 0
Splits hidden xs fs k r =
    let (out, k') = r in
    (shown hidden fs ≡ elim out [ none ↦ [] | some f ↦ f ∷ shown hidden (drop k' xs) ])
    × elim out [ none ↦ k ≤ k' | some f ↦ k < k' ]

module _ (hidden : Bool) (g : File) (fs : List File) (k : ℕ) where
  scan_hit : is_shown hidden g ≡ true → scan hidden (g ∷ fs) k ≡ (some g, k + 1)
  unfolding scan
  scan_hit h = rw h

  scan_miss : is_shown hidden g ≡ false → scan hidden (g ∷ fs) k ≡ scan hidden fs (k + 1)
  unfolding scan
  scan_miss h = rw h

scan-Splits :
    (hidden : Bool) (xs fs : List File) (k : ℕ)
    → drop k xs ≡ fs
    → Splits hidden xs fs k (scan hidden fs k)
scan-Splits hidden xs [] k e = unfold scan in (refl, omega arith)
scan-Splits hidden xs (g ∷ fs) k e =
    let next = drop-suc k xs g fs e in
    elim (Bool-cases (is_shown hidden g)) [
      | inl yes_ ↦
          subst (Splits hidden xs (g ∷ fs) k) (sym (scan_hit hidden g fs k yes_)) (hit yes_ next)
      | inr no_ ↦
          subst (Splits hidden xs (g ∷ fs) k) (sym (scan_miss hidden g fs k no_))
            (weaken no_ (scan hidden fs (k + 1)) (scan-Splits hidden xs fs (k + 1) next))
    ]
  where
    hit :
        is_shown hidden g ≡ true
        → drop (k + 1) xs ≡ fs
        → Splits hidden xs (g ∷ fs) k (some g, k + 1)
    hit h next = rw (h, next) (refl, omega arith)

    weaken :
        is_shown hidden g ≡ false
        → (r : Option File × ℕ) → Splits hidden xs fs (k + 1) r
        → Splits hidden xs (g ∷ fs) k r
    weaken n (none, k') h = rw n (h.0, omega (arith, h.1))
    weaken n (some f, k') h = rw n (h.0, omega (arith, h.1))

-- Each call of `ramdisk_readdir` gives the first of the files that remain to be listed, those in
-- use from the index on, without the hidden ones unless they are asked for; then the index has
-- grown and the others remain. It returns false exactly when none remains.
pub readdir-Splits :
    (rd : Disk) (dir : DirIter)
    → let (out, dir') = readdir rd dir in
      Splits dir.show_hidden rd.files (drop dir.index rd.files) dir.index (out, dir'.index)
      × (dir'.show_hidden ≡ dir.show_hidden)
unfolding readdir
readdir-Splits rd dir =
    (scan-Splits dir.show_hidden rd.files (drop dir.index rd.files) dir.index refl, refl)
