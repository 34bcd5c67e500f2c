-- ===== src/RamDisk/Write.antt =====
-- `ramdisk_write`: where the bytes go, and that no other file and no other memory is changed.
use retrofuture_os.Base.{
  ℕ, ◌+◌, ◌^◌, ◌<◌, ◌≤◌, ◌≡◌, ◌≢◌, refl, sym, ◌∙◌, ap, ◌||◌, none, some, length, set, count, arith,
  inl, inr, ◌⊎◌, Bool-cases, ltb, ◌==◌, get_or-set_self, get_or-set_ne, count-set, length-set,
  add32, memcpy_inside, memcpy_outside,
}
use native.Mathlib.Decide.{ℕ_discrete}
use retrofuture_os.RamDisk.Types.{File, Disk, entry, blank_file, is_used, max_files}
use retrofuture_os.RamDisk.Handle.{reserve, relocate, needed_for}
use retrofuture_os.RamDisk.Valid.{IsValid, IsValid-set}

-- A byte of a file.
abbrev pub byte : Disk → ℕ → ℕ → ℕ
byte rd j k = rd.bytes ((entry rd j).offset + k)

-- The entry changes no flag that counts files.
pub count_same :
    (rd : Disk) (i : ℕ) (f : File)
    → i < length rd.files
    → f.flags ≡ (entry rd i).flags
    → count is_used (set rd.files i f) ≡ count is_used rd.files
count_same rd i f q e =
    let c = count-set is_used rd.files i f blank_file q in
    let s : is_used f ≡ is_used (entry rd i) = rw e refl in ground (arith, c, s)

-- What `reserve` gives: room for the write, with every byte of every file as it was.
pub record Reserved (rd : Disk) (i new_end : ℕ) (rd' : Disk) : Type 0 where
  pub valid : IsValid rd'
  pub room : new_end ≤ (entry rd' i).allocated
  pub same_entry :
      (entry rd' i)
      ≡ record (entry rd i) { offset = (entry rd' i).offset; allocated = (entry rd' i).allocated }
  pub others : (j : ℕ) → i ≢ j → entry rd' j ≡ entry rd j
  pub kept : (j k : ℕ) → k < (entry rd j).size → byte rd' j k ≡ byte rd j k
  pub outside : (x : ℕ) → rd.data_size ≤ x → rd'.bytes x ≡ rd.bytes x
  pub same_area : rd'.data_size ≡ rd.data_size
  pub same_slots : length rd'.files ≡ length rd.files
  pub same_on : rd'.initialized ≡ rd.initialized

module _ (rd : Disk) (i new_end : ℕ) (v : IsValid rd) (q : i < max_files)
    (small : new_end ≤ 2 ^ 30) where
  abbrev moved : Disk
  moved = relocate rd i (needed_for new_end)

  abbrev moved_file : File
  moved_file = record (entry rd i) { offset = rd.data_ptr; allocated = needed_for new_end }

  moved-IsValid :
      rd.data_ptr + needed_for new_end ≤ rd.data_size
      → (entry rd i).size ≤ needed_for new_end
      → IsValid moved
  moved-IsValid fits sized =
      IsValid-set rd moved i moved_file v refl
        (v.counted ∙ sym (count_same rd i moved_file (omega (arith, v.slots)) refl))
        (ap (λ d. add32 d (needed_for new_end)) v.packed) (omega (arith, v.in_area, v.area_small))
        (omega (arith, v.in_area, v.area_small)) refl (omega (arith, v.in_area, v.area_small)) sized
        (λ j ne. inr (v.placed j))

  -- The copy moves the file's own bytes, and leaves those below the old end of the area.
  moved_bytes : (k : ℕ) → k < (entry rd i).size → moved.bytes (rd.data_ptr + k) ≡ byte rd i k
  moved_bytes k h =
      let p = v.placed i in
      let s = v.sized i in
      let c =
        memcpy_inside rd.bytes rd.data_ptr (entry rd i).offset (entry rd i).size k (rd.data_ptr + k)
          ((entry rd i).offset + k) (omega arith) h refl refl in
      ground (arith, c, s)

  moved_below : (x : ℕ) → x < rd.data_ptr → moved.bytes x ≡ rd.bytes x
  moved_below x h =
      ground
        (arith, memcpy_outside rd.bytes rd.data_ptr (entry rd i).offset (entry rd i).size x (inl h))

  moved_above :
      rd.data_ptr + needed_for new_end ≤ rd.data_size
      → (entry rd i).size ≤ needed_for new_end
      → (x : ℕ) → rd.data_size ≤ x
      → moved.bytes x ≡ rd.bytes x
  moved_above fits sized x h = ground (
    arith,
    memcpy_outside rd.bytes rd.data_ptr (entry rd i).offset (entry rd i).size x (inr (omega arith)),
  )

  moved_self : entry moved i ≡ moved_file
  moved_self = get_or-set_self rd.files i moved_file blank_file (omega (arith, v.slots))

  moved_other : (j : ℕ) → i ≢ j → entry moved j ≡ entry rd j
  moved_other j ne = get_or-set_ne rd.files i j moved_file blank_file ne

  moved_kept : (j k : ℕ) → k < (entry rd j).size → byte moved j k ≡ byte rd j k
  moved_kept j k h = elim (ℕ_discrete i j) [
    | yes e ↦ rw (← e, moved_self) (moved_bytes k (rw e h))
    | no ne ↦
        rw (moved_other j ne)
          (moved_below ((entry rd j).offset + k) (omega (arith, v.placed j, v.sized j)))
  ]

  moved-Reserved :
      rd.data_ptr + needed_for new_end ≤ rd.data_size
      → (entry rd i).size ≤ needed_for new_end
      → Reserved rd i new_end moved
  moved-Reserved fits sized = record {
    valid = moved-IsValid fits sized;
    room = rw moved_self (omega arith);
    same_entry = rw moved_self refl;
    others = moved_other;
    kept = moved_kept;
    outside = moved_above fits sized;
    same_area = refl;
    same_slots = length-set rd.files i moved_file;
    same_on = refl;
  }

  stay-Reserved : new_end ≤ (entry rd i).allocated → Reserved rd i new_end rd
  stay-Reserved room = record {
    valid = v;
    room = room;
    same_entry = refl;
    others = λ j ne. refl;
    kept = λ j k h. refl;
    outside = λ x h. refl;
    same_area = refl;
    same_slots = refl;
    same_on = refl;
  }

  -- Either the area has no room, or the disk returned has.
  pub reserve_cases :
      (reserve rd i new_end ≡ none) × (rd.data_size < rd.data_ptr + needed_for new_end)
      ⊎ ((rd' : Disk) × (reserve rd i new_end ≡ some rd') × Reserved rd i new_end rd')
  unfolding reserve
  reserve_cases =
      elim (Bool-cases ((entry rd i).allocated == 0 || ltb (entry rd i).allocated new_end)) [
        | inr enough ↦ inr (rd, rw enough, stay-Reserved (ground arith))
        | inl more ↦ elim (Bool-cases (ltb rd.data_size (add32 rd.data_ptr (needed_for new_end)))) [
          | inl full ↦ inl (rw (more, full), ground (arith, v.in_area, v.area_small))
          | inr fits ↦ inr (
            moved,
            rw (more, fits),
            moved-Reserved (ground (arith, v.in_area, v.area_small)) (ground (arith, v.sized i)),
          )
        ]
      ]
