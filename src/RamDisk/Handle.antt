-- ===== src/RamDisk/Handle.antt =====
-- include/ramdisk.h: open files. `rd` is `handle->disk`, the disk that the handle was opened on.
use retrofuture_os.Base.{
  ℕ, ◌-◌, ◌*◌, ◌/◌, Bool, true, false, not, ◌&&◌, ◌||◌, Option, none, some, List, [], ◌∷◌, length,
  ltb, leb, ◌==◌, if◌then◌else◌, has_flag, set, memcpy, poke, peek, add32, max, min,
}
use retrofuture_os.Base.Int.{ℤ, pos, negsuc, ◌+ℤ◌}
use retrofuture_os.RamDisk.Types.{
  ok, no_space, readonly, invalid, File, Disk, Handle, entry, fail, blank_file, blank_handle,
  block_size, file_readonly,
}
use retrofuture_os.RamDisk.Table.{find, create}

-- `handle->file`, dereferenced
abbrev pub file_of : Disk → Handle → File
file_of rd h = elim h.file [ none ↦ blank_file | some i ↦ entry rd i ]

abbrev pub opened : ℕ → Bool → Handle
opened i writing = record {
  file = some i;
  position = 0;
  file_index = i;
  is_open = true;
  write_mode = writing;
  append_mode = false;
}

-- The end of `ramdisk_open`, once the file's index is known.
unfoldable pub open_at : Disk → ℕ → Bool → Bool × Handle × Disk
open_at rd i writing =
    if writing && has_flag (entry rd i).flags file_readonly
    then (false, blank_handle, fail rd readonly)
    else (true, opened i writing, fail rd ok)

-- The part of `ramdisk_open` for a name that is not there: in write mode the file is created.
unfoldable pub open_new : ℕ → Disk → List ℕ → Bool → Bool × Handle × Disk
open_new now rd name writing =
    if not writing
    then (false, blank_handle, rd)
    else let (done, rd') = create now rd name 0 in
      elim done [
        | false ↦ (false, blank_handle, rd')
        | true ↦
            let (got, rd'') = find rd' name in
            elim got [ none ↦ (false, blank_handle, rd'') | some i ↦ open_at rd'' i writing ]
      ]

unfoldable pub open_file : ℕ → Disk → List ℕ → Handle → Bool → Bool × Handle × Disk
open_file now rd name h writing =
    if not rd.initialized
    then (false, h, fail rd invalid)
    else let (got, rd') = find rd name in
      elim got [ some i ↦ open_at rd' i writing | none ↦ open_new now rd' name writing ]

unfoldable pub open_append : ℕ → Disk → List ℕ → Handle → Bool × Handle × Disk
open_append now rd name h =
    let (done, h', rd') = open_file now rd name h true in
    elim done [
      | false ↦ (false, h', rd')
      | true ↦ (true, record h' { position = (file_of rd' h').size; append_mode = true }, rd')
    ]

abbrev pub close : Handle → Handle
close h = record h { is_open = false; file = none }

-- The bytes that reach `buf` (their number is the result), the handle and the disk.
unfoldable pub read : Disk → Handle → ℕ → List ℕ × Handle × Disk
read rd h size =
    if not h.is_open || size == 0
    then ([], h, rd)
    else if leb (file_of rd h).size h.position
    then ([], h, rd)
    else let n = min size ((file_of rd h).size - h.position) in
      (
        peek rd.bytes (add32 (file_of rd h).offset h.position) n,
        record h { position = add32 h.position n },
        record rd {
          total_reads = add32 rd.total_reads 1;
          bytes_read = add32 rd.bytes_read n;
          last_error = ok;
        },
      )

-- `(n + 511) & ~511`, which clears the low nine bits, and the least allocation.
abbrev pub needed_for : ℕ → ℕ
needed_for n = max 4096 (add32 n (block_size - 1) / block_size * block_size)

-- The file's data is moved to the end of the used area if it has any.
abbrev pub relocate : Disk → ℕ → ℕ → Disk
relocate rd i needed = record rd {
  files = set rd.files i (record (entry rd i) { offset = rd.data_ptr; allocated = needed });
  bytes =
      if ltb 0 (entry rd i).size && ltb 0 (entry rd i).allocated
      then memcpy rd.bytes rd.data_ptr (entry rd i).offset (entry rd i).size
      else rd.bytes;
  data_ptr = add32 rd.data_ptr needed;
  data_used = add32 rd.data_used needed;
}

-- Space for `new_end` bytes; `none` when the area has no room.
unfoldable pub reserve : Disk → ℕ → ℕ → Option Disk
reserve rd i new_end =
    if (entry rd i).allocated == 0 || ltb (entry rd i).allocated new_end
    then if ltb rd.data_size (add32 rd.data_ptr (needed_for new_end))
      then none
      else some (relocate rd i (needed_for new_end))
    else some rd

-- The bytes go to their place, and the file grows if they end past it.
unfoldable pub store : ℕ → Disk → ℕ → ℕ → List ℕ → Disk
store now rd i position buf = record rd {
  bytes = poke rd.bytes (add32 (entry rd i).offset position) buf;
  files = set rd.files i (record (entry rd i) {
    size = max (entry rd i).size (add32 position (length buf));
    modified = now;
  });
  total_writes = add32 rd.total_writes 1;
  bytes_written = add32 rd.bytes_written (length buf);
  last_error = ok;
}

-- `handle->file` of an open handle; `buf` holds the `size` bytes.
abbrev pub slot_of : Handle → ℕ
slot_of h = elim h.file [ none ↦ 0 | some i ↦ i ]

unfoldable pub write : ℕ → Disk → Handle → List ℕ → ℕ × Handle × Disk
unfolding reserve store
write now rd h buf =
    if not h.is_open || not h.write_mode || length buf == 0
    then (0, h, rd)
    else elim (reserve rd (slot_of h) (add32 h.position (length buf))) [
      | none ↦ (0, h, fail rd no_space)
      | some rd' ↦ (
        length buf,
        record h { position = add32 h.position (length buf) },
        store now rd' (slot_of h) h.position buf,
      )
    ]

unfoldable pub putc : ℕ → Disk → Handle → ℕ → Bool × Handle × Disk
unfolding write
putc now rd h c = let (n, h', rd') = write now rd h (c ∷ []) in (n == 1, h', rd')

unfoldable pub putline : ℕ → Disk → Handle → List ℕ → ℕ × Handle × Disk
unfolding write
putline now rd h s =
    let (n, h', rd') = write now rd h s in
    let (k, h'', rd'') = write now rd' h' (10 ∷ []) in (add32 n k, h'', rd'')

-- `none` is the -1 of the end of the file.
unfoldable pub getc : Disk → Handle → Option ℕ × Handle × Disk
unfolding read
getc rd h =
    let (got, h', rd') = read rd h 1 in
    elim got [ [] ↦ (none, h', rd') | c ∷ _ ↦ (some c, h', rd') ]

unfoldable pub seek : Disk → Handle → ℕ → Bool × Handle
seek rd h position =
    if not h.is_open
    then (false, h)
    else if not h.write_mode && ltb (file_of rd h).size position
    then (false, h)
    else (true, record h { position = position })

-- `(uint32_t)` of the sum in 64 bits, or 0 for a negative one.
unfoldable pub seek_target : ℕ → ℤ → ℕ
seek_target position offset = elim (pos position +ℤ offset) [ pos n ↦ add32 n 0 | negsuc _ ↦ 0 ]

unfoldable pub seek_rel : Disk → Handle → ℤ → Bool × Handle
unfolding seek seek_target
seek_rel rd h offset =
    if not h.is_open then (false, h) else seek rd h (seek_target h.position offset)

unfoldable pub seek_end : Disk → Handle → Bool × Handle
seek_end rd h =
    if not h.is_open then (false, h) else (true, record h { position = (file_of rd h).size })

unfoldable pub tell : Handle → ℕ
tell h = if not h.is_open then 0 else h.position

unfoldable pub file_size : Disk → Handle → ℕ
file_size rd h = if not h.is_open then 0 else (file_of rd h).size

unfoldable pub eof : Disk → Handle → Bool
eof rd h = if not h.is_open then true else leb (file_of rd h).size h.position

unfoldable pub truncate : ℕ → Disk → Handle → Bool × Disk
truncate now rd h = if not h.is_open || not h.write_mode then (false, rd) else (
  true,
  record rd {
    files = set rd.files (slot_of h) (record (file_of rd h) { size = h.position; modified = now });
  },
)
