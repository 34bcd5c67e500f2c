-- ===== src/Vfs/Guarded/Handles.antt =====
-- include/vfs.h: the calls on handles and storage that no writable mount point changes.
use retrofuture_os.Base.{
  ℕ, false, not, ◌&&◌, some, ◌≡◌, refl, ◌∙◌, inl, inr, List, find_index, Bool-cases, Option-cases,
  arith, ap,
}
use retrofuture_os.Base.Int.{ℤ, pos, negsuc}
use retrofuture_os.Vfs.Guarded.{IsGuarded, Keeps}
use retrofuture_os.Vfs.Types.{Vfs, Dir, Node, Dirent, mount_at, file_at, dir_at}
use retrofuture_os.Vfs.Calls.{locate, opendir_in, opendir}
use retrofuture_os.Vfs.Handles.{
  ops_of, is_readonly, write, read, close, seek, seek_default, seek_target, closedir, readdir,
}

module _ {W S : Type 0} (stored : W → S) (v : Vfs W)
    (guard : (i : ℕ) → IsGuarded stored (mount_at v i) i) where
  pub read-Keeps : (k size : ℕ) → Keeps stored v (read v k size).2
  unfolding read
  read-Keeps k size = elim (Bool-cases (file_at v k).is_open) [
    | inr shut ↦ rw (read, shut) (refl, refl)
    | inl on ↦ elim (Option-cases (file_at v k).mount) [
      | inl m ↦ rw (read, on, ops_of, m) (refl, refl)
      | inr (i, m) ↦ elim (Option-cases (mount_at v i).ops.read) [
        | inl o ↦ rw (read, on, ops_of, m, o) (refl, refl)
        | inr (f, o) ↦ rw (read, on, ops_of, m, o) (refl, (guard i).reading.read f o _ size _)
      ]
    ]
  ]

  pub write-Keeps : (k : ℕ) (bytes : List ℕ) → Keeps stored v (write v k bytes).1
  unfolding write
  write-Keeps k bytes =
      elim (Bool-cases ((file_at v k).is_open && not (is_readonly v (file_at v k).mount))) [
        | inr shut ↦ rw (write, shut) (refl, refl)
        | inl on ↦ elim (Option-cases (file_at v k).mount) [
          | inl m ↦ rw (write, on, ops_of, m) (refl, refl)
          | inr (i, m) ↦ elim (Option-cases (mount_at v i).ops.write) [
            | inl o ↦ rw (write, on, ops_of, m, o) (refl, refl)
            | inr (f, o) ↦
                let free : (mount_at v i).readonly ≡ false = ground (arith, ap (is_readonly v) m) in
                rw (write, on, ops_of, m, o) (refl, ((guard i).changing free).write f o _ bytes _ m)
          ]
        ]
      ]

  seek_default-Keeps :
      (k : ℕ) (offset : ℤ) (whence : ℕ) → Keeps stored v (seek_default v k offset whence).1
  unfolding seek_default
  seek_default-Keeps k offset whence =
      elim (Option-cases (seek_target (file_at v k) offset whence)) [
        | inl e ↦ rw (seek_default, e) (refl, refl)
        | inr (pos n, e) ↦ rw (seek_default, e) (refl, refl)
        | inr (negsuc n, e) ↦ rw (seek_default, e) (refl, refl)
      ]

  pub seek-Keeps : (k : ℕ) (offset : ℤ) (whence : ℕ) → Keeps stored v (seek v k offset whence).1
  unfolding seek
  seek-Keeps k offset whence = elim (Bool-cases (file_at v k).is_open) [
    | inr shut ↦ rw (seek, shut) (refl, refl)
    | inl on ↦ elim (Option-cases (file_at v k).mount) [
      | inl m ↦ rw (seek, on, ops_of, m) (seek_default-Keeps k offset whence)
      | inr (i, m) ↦ elim (Option-cases (mount_at v i).ops.seek) [
        | inl o ↦ rw (seek, on, ops_of, m, o) (seek_default-Keeps k offset whence)
        | inr (f, o) ↦ rw (seek, on, ops_of, m, o) (refl, (guard i).reading.seek f o _ offset _ _)
      ]
    ]
  ]

  pub close-Keeps : (k : ℕ) → Keeps stored v (close v k)
  unfolding close
  close-Keeps k = elim (Bool-cases (file_at v k).is_open) [
    | inr shut ↦ rw (close, shut) (refl, refl)
    | inl on ↦ elim (Option-cases (file_at v k).mount) [
      | inl m ↦ rw (close, on, ops_of, m) (refl, refl)
      | inr (i, m) ↦ elim (Option-cases (mount_at v i).ops.close_file) [
        | inl o ↦ rw (close, on, ops_of, m, o) (refl, refl)
        | inr (f, o) ↦ rw (close, on, ops_of, m, o) (refl, (guard i).reading.close_file f o _ _)
      ]
    ]
  ]

  pub closedir-Keeps : (k : ℕ) → Keeps stored v (closedir v k)
  unfolding closedir
  closedir-Keeps k = elim (Bool-cases (dir_at v k).is_open) [
    | inr shut ↦ rw (closedir, shut) (refl, refl)
    | inl on ↦ elim (Option-cases (dir_at v k).mount) [
      | inl m ↦ rw (closedir, on, ops_of, m) (refl, refl)
      | inr (i, m) ↦ elim (Option-cases (mount_at v i).ops.closedir) [
        | inl o ↦ rw (closedir, on, ops_of, m, o) (refl, refl)
        | inr (f, o) ↦ rw (closedir, on, ops_of, m, o) (refl, (guard i).reading.closedir f o _ _)
      ]
    ]
  ]

  pub readdir-Keeps : (k : ℕ) (entry : Dirent) → Keeps stored v (readdir v k entry).2
  unfolding readdir
  readdir-Keeps k entry = elim (Bool-cases (dir_at v k).is_open) [
    | inr shut ↦ rw (readdir, shut) (refl, refl)
    | inl on ↦ elim (Option-cases (dir_at v k).mount) [
      | inl m ↦ rw (readdir, on, ops_of, m) (refl, refl)
      | inr (i, m) ↦ elim (Option-cases (mount_at v i).ops.readdir) [
        | inl o ↦ rw (readdir, on, ops_of, m, o) (refl, refl)
        | inr (f, o) ↦
            rw (readdir, on, ops_of, m, o) (refl, (guard i).reading.readdir f o _ entry _)
      ]
    ]
  ]

  opendir_in-Keeps :
      (i k : ℕ) (node : Node) (w : W)
      → stored w ≡ stored v.world
      → Keeps stored v (opendir_in v i k node w).1
  unfolding opendir_in
  opendir_in-Keeps i k node w same = elim (Option-cases (mount_at v i).ops.opendir) [
    | inl o ↦ rw (opendir_in, o) (refl, same)
    | inr (f, o) ↦
        elim (Bool-cases
          (f (record (dir_at v k) { node = node; mount = some i; position = 0 }) w).0) [
            | inl q ↦ rw (opendir_in, o, q) (refl, (guard i).reading.opendir f o _ w ∙ same)
            | inr q ↦ rw (opendir_in, o, q) (refl, (guard i).reading.opendir f o _ w ∙ same)
          ]
  ]

  pub opendir-Keeps : (path : List ℕ) → Keeps stored v (opendir v path).1
  unfolding opendir
  opendir-Keeps path = elim (Option-cases (locate v path)) [
    | inl e ↦ rw (opendir, e) (refl, refl)
    | inr ((i, rel), e) ↦ elim (Option-cases (find_index (λ (d : Dir). not d.is_open) v.dirs)) [
      | inl full ↦ rw (opendir, e, full) (refl, refl)
      | inr (k, got) ↦ elim (Option-cases (mount_at v i).ops.lookup) [
        | inl o ↦ rw (opendir, e, got, o) (opendir_in-Keeps i k _ v.world refl)
        | inr (f, o) ↦ elim (Bool-cases (f i rel (dir_at v k).node v.world).0) [
          | inl found ↦
              rw (opendir, e, got, o, found)
                (opendir_in-Keeps i k _ _ ((guard i).reading.lookup f o rel _ v.world))
          | inr missing ↦
              rw (opendir, e, got, o, missing) (refl, (guard i).reading.lookup f o rel _ v.world)
        ]
      ]
    ]
  ]
