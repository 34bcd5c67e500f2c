-- ===== src/RamDisk/Roundtrip.antt =====
-- `ramdisk_read`, and `ramdisk_write_file` followed by `ramdisk_read_file`.
use retrofuture_os.Base.{
  ℕ, ◌+◌, ◌-◌, ◌^◌, ◌<◌, ◌≤◌, ◌≡◌, ◌≢◌, refl, sym, ◌∙◌, ap, true, some, List, [], length, arith,
  inl, inr, ◌⊎◌, min, add32, peek, take, drop, length-take, length-drop, nil_of_length, length-peek,
  peek_part,
}
use native.Mathlib.Decide.{ℕ_discrete, dec_lt}
use retrofuture_os.RamDisk.Types.{ok, Disk, Handle, entry}
use retrofuture_os.RamDisk.Handle.{read}
use retrofuture_os.RamDisk.Valid.{IsValid, IsValid-congr}
use retrofuture_os.RamDisk.Contents.{content}

abbrev pub DidRead : Disk → Handle → ℕ → ℕ → List ℕ × Handle × Disk → Type 0
DidRead rd h i size r =
    let (out, h', rd') = r in
    (out ≡ take size (drop h.position (content rd i)))
    × (h' ≡ record h { position = h.position + length out })
    × ((j : ℕ) → content rd' j ≡ content rd j)
    × IsValid rd'

module _ (rd : Disk) (h : Handle) (i size : ℕ) (v : IsValid rd) (on : h.is_open ≡ true)
    (f : h.file ≡ some i) (small : h.position < 2 ^ 31) where
  abbrev there : ℕ
  there = min size ((entry rd i).size - h.position)

  -- Nothing was asked for or is there.
  read-nothing : (size ≡ 0) ⊎ ((entry rd i).size ≤ h.position) → read rd h size ≡ ([], h, rd)
  unfolding read
  read-nothing none_left = rw f (ground arith)

  abbrev after_read : List ℕ × Handle × Disk
  after_read = (
    peek rd.bytes (add32 (entry rd i).offset h.position) there,
    record h { position = add32 h.position there },
    record rd {
      total_reads = add32 rd.total_reads 1;
      bytes_read = add32 rd.bytes_read there;
      last_error = ok;
    },
  )

  read-something : size ≢ 0 → h.position < (entry rd i).size → read rd h size ≡ after_read
  unfolding read
  read-something some_asked some_left = rw f (ground arith)

  part_length : length (take size (drop h.position (content rd i))) ≡ there
  part_length = omega (
    arith,
    length-take size (drop h.position (content rd i)),
    length-drop h.position (content rd i),
    length-peek rd.bytes (entry rd i).offset (entry rd i).size,
  )

  nothing-DidRead : (size ≡ 0) ⊎ ((entry rd i).size ≤ h.position) → DidRead rd h i size ([], h, rd)
  nothing-DidRead none_left = (
    sym (nil_of_length (take size (drop h.position (content rd i))) (omega (arith, part_length))),
    ap (λ p. record h { position = p }) (omega arith),
    (λ j. refl),
    v,
  )

  something-DidRead : h.position < (entry rd i).size → DidRead rd h i size after_read
  something-DidRead some_left = (
    ap (λ a. peek rd.bytes a there) (omega (arith, v.sized i, v.placed i, v.in_area, v.area_small))
        ∙ peek_part rd.bytes (entry rd i).offset (entry rd i).size h.position size,
    ap (λ p. record h { position = p })
        (omega (
          arith,
          length-peek rd.bytes (add32 (entry rd i).offset h.position) there,
          v.sized i,
          v.placed i,
          v.in_area,
          v.area_small,
        )),
    (λ j. refl),
    IsValid-congr refl refl refl refl refl v,
  )

-- On a valid disk, a read through an open handle at a position below 2 ^ 31 gives the bytes of the file from the position on, as many as were
-- asked for and are there, moves the position past them, and changes no file.
pub read-DidRead :
    (rd : Disk) (h : Handle) (i size : ℕ)
    → IsValid rd
    → h.is_open ≡ true
    → h.file ≡ some i
    → h.position < 2 ^ 31
    → DidRead rd h i size (read rd h size)
read-DidRead rd h i size v on f small = elim (ℕ_discrete size 0) [
  | yes z ↦
      rw (read-nothing rd h i size v on f small (inl z))
        (nothing-DidRead rd h i size v on f small (inl z))
  | no nz ↦ elim (dec_lt h.position (entry rd i).size) [
    | yes less ↦
        rw (read-something rd h i size v on f small nz less)
          (something-DidRead rd h i size v on f small less)
    | no past ↦
        rw (read-nothing rd h i size v on f small (inr (omega arith)))
          (nothing-DidRead rd h i size v on f small (inr (omega arith)))
  ]
]
