-- ===== src/RamDisk/Contents.antt =====
-- `ramdisk_write` and `ramdisk_read` against the abstract view of a file: a list of bytes.
use retrofuture_os.Base.{
  ℕ, ◌+◌, ◌-◌, ◌^◌, ◌<◌, ◌≤◌, ◌≡◌, ◌≢◌, refl, sym, ◌∙◌, ap, true, false, not, ◌||◌, none, some,
  List, ◌++◌, length, get_or, arith, inl, inr, ◌⊎◌, max, if◌then◌else◌, ltb, ◌==◌, get_or-set_self,
  get_or-set_ne, add32, peek, poke_inside, poke_outside, take, drop, get_or-append, get_or-take,
  get_or-drop, length-drop, length-append, length-take_of_le, get_or_ext, length-peek, get_or-peek,
  peek_congr,
}
use native.Mathlib.Decide.{ℕ_discrete}
use retrofuture_os.RamDisk.Types.{File, Disk, Handle, entry, fail, blank_file, max_files, no_space}
use retrofuture_os.RamDisk.Handle.{reserve, store, write}
use retrofuture_os.RamDisk.Valid.{IsValid, IsValid-set, IsValid-congr}
use retrofuture_os.RamDisk.Write.{byte, count_same, Reserved, reserve_cases}

-- The abstract file.
abbrev pub content : Disk → ℕ → List ℕ
content rd i = peek rd.bytes (entry rd i).offset (entry rd i).size

-- What a write of `buf` at a position does to it.
abbrev pub overwrite : ℕ → List ℕ → List ℕ → List ℕ
overwrite position buf xs = take position xs ++ (buf ++ drop (position + length buf) xs)

get_or-overwrite :
    (position : ℕ) (buf xs : List ℕ) (j : ℕ)
    → position ≤ length xs
    → get_or (overwrite position buf xs) j 0 ≡ (
        if ltb j position
        then get_or xs j 0
        else if ltb j (position + length buf)
        then get_or buf (j - position) 0
        else get_or xs j 0)
get_or-overwrite position buf xs j h = ground (
  arith,
  get_or-append (take position xs) (buf ++ drop (position + length buf) xs) j 0,
  length-take_of_le position xs,
  get_or-take position j xs 0,
  get_or-append buf (drop (position + length buf) xs) (j - position) 0,
  get_or-drop (position + length buf) (j - position - length buf) xs 0,
  ap (λ k. get_or xs k 0) (back j),
)
  where
    back :
        (k : ℕ)
        → position + length buf + (k - position - length buf) ≡ max k (position + length buf)
    back k = omega arith

length-overwrite :
    (position : ℕ) (buf xs : List ℕ)
    → position ≤ length xs
    → length (overwrite position buf xs) ≡ max (length xs) (position + length buf)
length-overwrite position buf xs h = omega (
  arith,
  length-append (take position xs) (buf ++ drop (position + length buf) xs),
  length-take_of_le position xs h,
  length-append buf (drop (position + length buf) xs),
  length-drop (position + length buf) xs,
)

module _ (now : ℕ) (rd : Disk) (i position : ℕ) (buf : List ℕ) (v : IsValid rd) (q : i < max_files)
    (room : position + length buf ≤ (entry rd i).allocated) where
  abbrev stored : Disk
  stored = store now rd i position buf

  abbrev stored_file : File
  stored_file = record (entry rd i) {
    size = max (entry rd i).size (add32 position (length buf));
    modified = now;
  }

  stored_self : entry stored i ≡ stored_file
  unfolding store
  stored_self = get_or-set_self rd.files i stored_file blank_file (omega (arith, v.slots))

  stored_other : (j : ℕ) → i ≢ j → entry stored j ≡ entry rd j
  unfolding store
  stored_other j ne = get_or-set_ne rd.files i j stored_file blank_file ne

  stored-IsValid : IsValid stored
  unfolding store
  stored-IsValid =
      IsValid-set rd stored i stored_file v refl
        (v.counted ∙ sym (count_same rd i stored_file (omega (arith, v.slots)) refl)) v.packed
        (omega arith) v.in_area refl (v.placed i)
        (omega (arith, v.sized i, v.placed i, v.in_area, v.area_small)) (λ j ne. v.apart i j ne)

  -- The address of the first byte does not wrap.
  start : add32 (entry rd i).offset position ≡ (entry rd i).offset + position
  start = omega (arith, v.placed i, v.in_area, v.area_small)

  stored_elsewhere :
      (x : ℕ)
      → (x < (entry rd i).offset + position) ⊎ ((entry rd i).offset + position + length buf ≤ x)
      → stored.bytes x ≡ rd.bytes x
  unfolding store
  stored_elsewhere x h =
      poke_outside rd.bytes (add32 (entry rd i).offset position) buf x (omega (arith, start))

  stored_apart : (j k : ℕ) → i ≢ j → k < (entry rd j).size → byte stored j k ≡ byte rd j k
  unfolding store
  stored_apart j k ne h = rw (stored_other j ne) (
      stored_elsewhere ((entry rd j).offset + k)
        (omega (arith, v.apart i j ne, v.sized j, v.placed i, v.placed j)))

  stored_size : (entry stored i).size ≡ max (entry rd i).size (position + length buf)
  stored_size = rw stored_self (omega (arith, v.sized i, v.placed i, v.in_area, v.area_small))

  stored-byte_in :
      (j : ℕ)
      → position ≤ j
      → j < position + length buf
      → byte stored i j ≡ get_or buf (j - position) 0
  unfolding store
  stored-byte_in j lo hi = rw stored_self (
      poke_inside rd.bytes (add32 (entry rd i).offset position) buf (j - position)
        ((entry rd i).offset + j) (omega arith) (omega (arith, start)))

  stored-byte_out :
      (j : ℕ) → (j < position) ⊎ (position + length buf ≤ j) → byte stored i j ≡ byte rd i j
  unfolding store
  stored-byte_out j h = rw stored_self (stored_elsewhere ((entry rd i).offset + j) (omega arith))

  stored-content :
      position ≤ (entry rd i).size → content stored i ≡ overwrite position buf (content rd i)
  stored-content h =
      get_or_ext 0 (content stored i) (overwrite position buf (content rd i))
        (omega (arith, lengths.0, lengths.1, stored_size))
        λ j q.
          let inside : j < (entry stored i).size = omega (arith, lengths.0) in
          get_or-peek stored.bytes (entry stored i).offset (entry stored i).size j inside
          ∙ pointwise j (omega (arith, stored_size))
          ∙ sym (get_or-overwrite position buf (content rd i) j (omega (arith, old_length)))
    where
      old_length : length (content rd i) ≡ (entry rd i).size
      old_length = length-peek rd.bytes (entry rd i).offset (entry rd i).size

      lengths :
          (length (content stored i) ≡ (entry stored i).size)
          × (length (overwrite position buf (content rd i))
              ≡ max (entry rd i).size (position + length buf))
      lengths = (
        length-peek stored.bytes (entry stored i).offset (entry stored i).size,
        omega (arith, length-overwrite position buf (content rd i), old_length),
      )

      pointwise :
          (j : ℕ)
          → j < max (entry rd i).size (position + length buf)
          → byte stored i j ≡ (
              if ltb j position
              then get_or (content rd i) j 0
              else if ltb j (position + length buf)
              then get_or buf (j - position) 0
              else get_or (content rd i) j 0)
      pointwise j less = ground (
        arith,
        stored-byte_in j,
        stored-byte_out j,
        get_or-peek rd.bytes (entry rd i).offset (entry rd i).size j,
      )

  stored-content_other : (j : ℕ) → i ≢ j → content stored j ≡ content rd j
  stored-content_other j ne = rw (ap (λ (f : File). f.size) (stored_other j ne)) (
      peek_congr stored.bytes rd.bytes (entry stored j).offset (entry rd j).offset (entry rd j).size
        (λ k h. stored_apart j k ne h))

  stored_on : stored.initialized ≡ rd.initialized
  unfolding store
  stored_on = refl

-- What a call of `ramdisk_write` leaves, when it returns `n`.
pub record Wrote (rd : Disk) (h : Handle) (i : ℕ) (buf : List ℕ) (n : ℕ) (h' : Handle) (rd' : Disk)
    : Type 0 where
  pub valid : IsValid rd'
  pub result :
      (n ≡ length buf)
        × (h' ≡ record h { position = h.position + length buf })
        × (content rd' i ≡ overwrite h.position buf (content rd i))
      ⊎ (n ≡ 0) × (h' ≡ h) × (content rd' i ≡ content rd i) × (rd'.last_error ≡ no_space)
  pub others :
      (j : ℕ)
      → i ≢ j
      → (content rd' j ≡ content rd j)
        × ((entry rd' j).name ≡ (entry rd j).name)
        × ((entry rd' j).flags ≡ (entry rd j).flags)
  pub same_file :
      ((entry rd' i).name ≡ (entry rd i).name) × ((entry rd' i).flags ≡ (entry rd i).flags)
  pub outside : (x : ℕ) → rd.data_size ≤ x → rd'.bytes x ≡ rd.bytes x
  pub same_on : rd'.initialized ≡ rd.initialized

Reserved-content :
    (rd : Disk) (i e : ℕ) (rd' : Disk)
    → Reserved rd i e rd'
    → (j : ℕ) → (entry rd' j).size ≡ (entry rd j).size
    → content rd' j ≡ content rd j
Reserved-content rd i e rd' r j same = rw same (
    peek_congr rd'.bytes rd.bytes (entry rd' j).offset (entry rd j).offset (entry rd j).size
      (λ k h. r.kept j k h))

write-eq :
    (now : ℕ) (rd : Disk) (h : Handle) (i : ℕ) (buf : List ℕ)
    → h.is_open ≡ true
    → h.write_mode ≡ true
    → h.file ≡ some i
    → 0 < length buf
    → h.position + length buf ≤ 2 ^ 30
    → write now rd h buf ≡ elim (reserve rd i (h.position + length buf)) [
      | none ↦ (0, h, fail rd no_space)
      | some r ↦ (
        length buf,
        record h { position = h.position + length buf },
        store now r i h.position buf,
      )
    ]
unfolding write
write-eq now rd h i buf on w f some_bytes small =
    let wrap : add32 h.position (length buf) ≡ h.position + length buf = omega arith in
    let guard : (not h.is_open || not h.write_mode || length buf == 0) ≡ false = ground arith in
    rw (guard, wrap) (ground arith)

module _ (rd : Disk) (i e : ℕ) (r : Disk) (R : Reserved rd i e r) where
  reserved_size : (j : ℕ) → (entry r j).size ≡ (entry rd j).size
  reserved_size j = elim (ℕ_discrete i j) [
    | yes same ↦ rw (← same) (ap (λ (f : File). f.size) R.same_entry)
    | no ne ↦ ap (λ (f : File). f.size) (R.others j ne)
  ]

  reserved_names :
      (j : ℕ) → ((entry r j).name ≡ (entry rd j).name) × ((entry r j).flags ≡ (entry rd j).flags)
  reserved_names j = elim (ℕ_discrete i j) [
    | yes same ↦
        rw (← same)
          (ap (λ (f : File). f.name) R.same_entry, ap (λ (f : File). f.flags) R.same_entry)
    | no ne ↦
        (ap (λ (f : File). f.name) (R.others j ne), ap (λ (f : File). f.flags) (R.others j ne))
  ]

  -- The file after the reservation and the store.
  reserved-Wrote :
      (now : ℕ) (h : Handle) (buf : List ℕ)
      → i < max_files
      → e ≡ h.position + length buf
      → h.position ≤ (entry rd i).size
      → Wrote rd h i buf
          (length buf)
          (record h { position = h.position + length buf })
          (store now r i h.position buf)
  reserved-Wrote now h buf q ee at = record {
    valid = stored-IsValid now r i h.position buf R.valid q room;
    result = inl (
      refl,
      refl,
      stored-content now r i h.position buf R.valid q room (rw (reserved_size i) at)
          ∙ ap (overwrite h.position buf) (same_content i),
    );
    others = λ j ne.
        let names = reserved_names j in
        let other = stored_other now r i h.position buf R.valid q room j ne in
        (
          stored-content_other now r i h.position buf R.valid q room j ne ∙ same_content j,
          ap (λ (f : File). f.name) other ∙ names.0,
          ap (λ (f : File). f.flags) other ∙ names.1,
        );
    same_file =
        let names = reserved_names i in
        let self = stored_self now r i h.position buf R.valid q room in
        (ap (λ (f : File). f.name) self ∙ names.0, ap (λ (f : File). f.flags) self ∙ names.1);
    outside = λ x far.
        stored_elsewhere now r i h.position buf R.valid q room x
          (inr (omega (arith, R.valid.placed i, R.valid.in_area, R.same_area)))
        ∙ R.outside x far;
    same_on = stored_on now r i h.position buf R.valid q room ∙ R.same_on;
  }
    where
      room : h.position + length buf ≤ (entry r i).allocated
      room = omega (arith, R.room)

      same_content : (j : ℕ) → content r j ≡ content rd j
      same_content j = Reserved-content rd i e r R j (reserved_size j)

-- On a valid disk, a write of some bytes through a handle that is open for writing, at a position up to
-- the file's size and ending below 2 ^ 30, either puts all of them at the position and moves the position
-- past them, or finds no space, returns 0 and changes no file. The invariant is kept; no other
-- file's bytes, name or flags change, and no byte past the data area.
pub write-Wrote :
    (now : ℕ) (rd : Disk) (h : Handle) (i : ℕ) (buf : List ℕ)
    → IsValid rd
    → i < max_files
    → h.is_open ≡ true
    → h.write_mode ≡ true
    → h.file ≡ some i
    → 0 < length buf
    → h.position ≤ (entry rd i).size
    → h.position + length buf ≤ 2 ^ 30
    → let (n, h', rd') = write now rd h buf in Wrote rd h i buf n h' rd'
write-Wrote now rd h i buf v q on w f some_bytes at small =
    rw (write-eq now rd h i buf on w f some_bytes small)
      (elim (reserve_cases rd i (h.position + length buf) v q small) [
        | inl (e, _) ↦ rw e (record {
          valid = IsValid-congr refl refl refl refl refl v;
          result = inr (refl, refl, refl, refl);
          others = λ j ne. (refl, refl, refl);
          same_file = (refl, refl);
          outside = λ x q. refl;
          same_on = refl;
        })
        | inr (r, e, R) ↦
            rw e (reserved-Wrote rd i (h.position + length buf) r R now h buf q refl at)
      ])
