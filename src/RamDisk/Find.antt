-- ===== src/RamDisk/Find.antt =====
-- What the searches of the file table find.
use retrofuture_os.Base.{
  ℕ, ◌<◌, ◌≡◌, refl, sym, ◌∙◌, Bool, true, false, Option, none, some, List, [], ◌∷◌, length,
  find_index, arith, find_index-none, find_index-some, find_index-least, inl, inr, Option-cases,
  map, ◌↔◌,
}
use retrofuture_os.RamDisk.Types.{Disk, entry, fail, not_found, blank_file, strcasecmp_eq, to_lower}
use retrofuture_os.RamDisk.Table.{is_named, find}

-- `r` is what a search for a file that passes `p` may return on `rd`.
abbrev pub IsFirst : Disk → (ℕ → Bool) → Option ℕ → Type 0
IsFirst rd p none = (j : ℕ) → j < length rd.files → p j ≡ false
IsFirst rd p (some i) = (i < length rd.files) × (p i ≡ true) × ((j : ℕ) → j < i → p j ≡ false)

-- On an initialised disk `ramdisk_find` returns the first entry in use whose name is the one
-- sought up to the case of letters, or fails with NOT_FOUND if there is none; a success leaves the
-- disk as it was.
pub find-IsFirst :
    (rd : Disk) (name : List ℕ)
    → rd.initialized ≡ true
    → let (r, rd') = find rd name in
      IsFirst rd (λ i. is_named name (entry rd i)) r
      × (rd' ≡ elim r [ none ↦ fail rd not_found | some _ ↦ rd ])
unfolding find
find-IsFirst rd name on = elim (Option-cases (find_index (is_named name) rd.files)) [
  | inl e ↦ rw (on, e) ((λ j q. find_index-none (is_named name) rd.files j blank_file e q), refl)
  | inr (i, e) ↦
      let s = find_index-some (is_named name) rd.files i blank_file e in
      rw (on, e)
        ((s.0, s.1, λ j q. find_index-least (is_named name) rd.files i j blank_file e q), refl)
]

-- Two strings compare as equal exactly if their letters are the same up to case.
pub strcasecmp_eq_iff :
    (xs ys : List ℕ) → (strcasecmp_eq xs ys ≡ true) ↔ (map to_lower xs ≡ map to_lower ys)
unfolding strcasecmp_eq
strcasecmp_eq_iff [] [] = ((λ _. refl), λ _. refl)
strcasecmp_eq_iff [] (b ∷ ys) = ((λ h. absurd (cc)), λ h. absurd (cc))
strcasecmp_eq_iff (a ∷ xs) [] = ((λ h. absurd (cc)), λ h. absurd (cc))
strcasecmp_eq_iff (a ∷ xs) (b ∷ ys) = ground (arith, strcasecmp_eq_iff xs ys)

pub strcasecmp_eq_refl : (xs : List ℕ) → strcasecmp_eq xs xs ≡ true
strcasecmp_eq_refl xs = (strcasecmp_eq_iff xs xs).1 refl

Bool-eq_iff : (a b : Bool) → ((a ≡ true) ↔ (b ≡ true)) → a ≡ b
Bool-eq_iff a b h = ground arith

pub strcasecmp_eq_symm : (xs ys : List ℕ) → strcasecmp_eq xs ys ≡ strcasecmp_eq ys xs
strcasecmp_eq_symm xs ys = Bool-eq_iff _ _ (
  (λ h. (strcasecmp_eq_iff ys xs).1 (sym ((strcasecmp_eq_iff xs ys).0 h))),
  λ h. (strcasecmp_eq_iff xs ys).1 (sym ((strcasecmp_eq_iff ys xs).0 h)),
)

-- Strings that compare as equal compare alike with any third.
pub strcasecmp_eq_congr :
    (xs ys zs : List ℕ) → strcasecmp_eq xs ys ≡ true → strcasecmp_eq xs zs ≡ strcasecmp_eq ys zs
strcasecmp_eq_congr xs ys zs e =
    let l = (strcasecmp_eq_iff xs ys).0 e in
    Bool-eq_iff _ _ (
      (λ h. (strcasecmp_eq_iff ys zs).1 (sym l ∙ (strcasecmp_eq_iff xs zs).0 h)),
      λ h. (strcasecmp_eq_iff xs zs).1 (l ∙ (strcasecmp_eq_iff ys zs).0 h),
    )
