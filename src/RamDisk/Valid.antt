-- ===== src/RamDisk/Valid.antt =====
-- The invariant of a RAM disk: the counters are right, and each file has a stretch of the data
-- area to itself, below the place where the next one will be allocated.
use retrofuture_os.Base.{
  ℕ, ◌+◌, ◌^◌, ◌<◌, ◌≤◌, ◌≡◌, ◌≢◌, refl, ◌⊎◌, inl, inr, List, length, get_or, set, count, arith,
  get_or-set, length-set, sym, ◌∙◌,
}
use retrofuture_os.RamDisk.Types.{File, Disk, entry, blank_file, is_used, max_files}

abbrev pub Apart : File → File → Type 0
Apart f g = (f.offset + f.allocated ≤ g.offset) ⊎ (g.offset + g.allocated ≤ f.offset)

Apart-symm : (f g : File) → Apart f g → Apart g f
Apart-symm f g (inl p) = inr p
Apart-symm f g (inr p) = inl p

pub record IsValid (rd : Disk) : Type 0 where
  pub slots : length rd.files ≡ max_files
  pub counted : rd.file_count ≡ count is_used rd.files
  pub packed : rd.data_used ≡ rd.data_ptr
  pub in_area : rd.data_ptr ≤ rd.data_size
  pub area_small : rd.data_size < 2 ^ 31
  pub placed : (i : ℕ) → (entry rd i).offset + (entry rd i).allocated ≤ rd.data_ptr
  pub sized : (i : ℕ) → (entry rd i).size ≤ (entry rd i).allocated
  pub apart : (i j : ℕ) → i ≢ j → Apart (entry rd i) (entry rd j)

-- A disk with the same table and the same bounds.
pub IsValid-congr :
    {rd rd' : Disk}
    → rd'.files ≡ rd.files
    → rd'.file_count ≡ rd.file_count
    → rd'.data_used ≡ rd.data_used
    → rd'.data_ptr ≡ rd.data_ptr
    → rd'.data_size ≡ rd.data_size
    → IsValid rd
    → IsValid rd'
IsValid-congr {rd} {rd'} e1 e2 e3 e4 e5 v = record {
  slots = rw e1 v.slots;
  counted = rw (e1, e2) v.counted;
  packed = omega (arith, v.packed);
  in_area = omega (arith, v.in_area);
  area_small = omega (arith, v.area_small);
  placed = λ i. rw (e1, e4) (v.placed i);
  sized = λ i. rw e1 (v.sized i);
  apart = λ i j ne. rw e1 (v.apart i j ne);
}

pub entry-set :
    (fs : List File) (i j : ℕ) (f : File)
    → (get_or (set fs i f) j blank_file ≡ f) × (i ≡ j)
      ⊎ (get_or (set fs i f) j blank_file ≡ get_or fs j blank_file)
entry-set fs i j f = ground (arith, get_or-set fs i j f blank_file)

-- The entry that stands at `i` is replaced by one with a stretch of its own.
module _ (rd rd' : Disk) (i : ℕ) (f : File) (v : IsValid rd)
    (files_eq : rd'.files ≡ set rd.files i f)
    (count_eq : rd'.file_count ≡ count is_used (set rd.files i f))
    (packed : rd'.data_used ≡ rd'.data_ptr) (grows : rd.data_ptr ≤ rd'.data_ptr)
    (in_area : rd'.data_ptr ≤ rd'.data_size) (same_area : rd'.data_size ≡ rd.data_size)
    (f_placed : f.offset + f.allocated ≤ rd'.data_ptr) (f_sized : f.size ≤ f.allocated)
    (f_apart : (j : ℕ) → i ≢ j → Apart f (entry rd j)) where
  set_placed :
      (j : ℕ) (g : File)
      → g ≡ get_or (set rd.files i f) j blank_file
      → (g.offset + g.allocated ≤ rd'.data_ptr) × (g.size ≤ g.allocated)
  set_placed j g e = elim (entry-set rd.files i j f) [
    | inl (h, _) ↦ rw (e ∙ h) (f_placed, f_sized)
    | inr h ↦ rw (e ∙ h) (omega (arith, v.placed j), v.sized j)
  ]

  set-Apart :
      (j k : ℕ)
      → j ≢ k
      → Apart (get_or (set rd.files i f) j blank_file) (get_or (set rd.files i f) k blank_file)
  set-Apart j k ne = elim (entry-set rd.files i j f) [
    | inl (h, ej) ↦ elim (entry-set rd.files i k f) [
      | inl (h', ek) ↦ absurd (ne (sym ej ∙ ek))
      | inr h' ↦ rw (h, h') (f_apart k (rw ej ne))
    ]
    | inr h ↦ elim (entry-set rd.files i k f) [
      | inl (h', ek) ↦ rw (h, h') (Apart-symm f (entry rd j) (f_apart j (λ e. ne (sym e ∙ ek))))
      | inr h' ↦ rw (h, h') (v.apart j k ne)
    ]
  ]

  pub IsValid-set : IsValid rd'
  IsValid-set = record {
    slots = rw (files_eq, length-set) v.slots;
    counted = rw files_eq count_eq;
    packed = packed;
    in_area = in_area;
    area_small = omega (arith, v.area_small);
    placed = λ j. rw files_eq ((set_placed j _ refl).0);
    sized = λ j. rw files_eq ((set_placed j _ refl).1);
    apart = λ j k ne. rw files_eq (set-Apart j k ne);
  }
