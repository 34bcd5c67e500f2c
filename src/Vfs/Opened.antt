-- ===== src/Vfs/Opened.antt =====
-- include/vfs.h: what opening and closing a file does to the table of handles.
use retrofuture_os.Base.{
  ℕ, ◌<◌, Bool, true, false, not, Option, none, some, ◌≡◌, ◌≢◌, inl, inr, refl, ap, ◌∙◌, List,
  arith, length, set, get_or-set_self, get_or-set_ne, find_index, find_index-some, Bool-cases,
  Option-cases,
}
use retrofuture_os.Vfs.Types.{Vfs, File, Node, mount_at, file_at, no_file}
use retrofuture_os.Vfs.Calls.{locate, find_or_create, open_in, open_path}

module _ {W : Type 0} where
  -- Only the handle in slot `k` differs.
  pub record OtherFilesSame (v v' : Vfs W) (k : ℕ) : Type 0 where
    pub others : (j : ℕ) → k ≢ j → file_at v' j ≡ file_at v j
    pub same_mounts : v'.mounts ≡ v.mounts
    pub same_count : v'.mount_count ≡ v.mount_count
    pub same_root : v'.root_mount ≡ v.root_mount
    pub same_dirs : v'.dirs ≡ v.dirs

  -- What `vfs_open` returns and leaves.
  pub data Opened (v : Vfs W) (r : Option ℕ × Vfs W) : Type 0 where
    opened :
        (k : ℕ)
        → r.0 ≡ some k
        → k < length v.files
        → (file_at v k).is_open ≡ false
        → (file_at r.1 k).is_open ≡ true
        → OtherFilesSame v r.1 k
        → Opened v r
    untouched : r.0 ≡ none → r.1 ≡ v → Opened v r
    refused :
        (k : ℕ)
        → r.0 ≡ none
        → k < length v.files
        → (file_at v k).is_open ≡ false
        → OtherFilesSame v r.1 k
        → Opened v r

  put_file :
      (v v' : Vfs W) (k : ℕ) (f : File)
      → v' ≡ record v { world = v'.world; files = set v.files k f }
      → OtherFilesSame v v' k
  put_file v v' k f e = record {
    others = λ j ne. ap (λ (u : Vfs W). file_at u j) e ∙ get_or-set_ne v.files k j f no_file ne;
    same_mounts = ap (λ (u : Vfs W). u.mounts) e;
    same_count = ap (λ (u : Vfs W). u.mount_count) e;
    same_root = ap (λ (u : Vfs W). u.root_mount) e;
    same_dirs = ap (λ (u : Vfs W). u.dirs) e;
  }

  open_in-Opened :
      (v : Vfs W) (i k : ℕ) (node : Node) (flags : ℕ) (w : W)
      → k < length v.files
      → (file_at v k).is_open ≡ false
      → Opened v (open_in v i k node flags w)
  unfolding open_in
  open_in-Opened v i k node flags w q free = elim (Bool-cases result.0) [
    | inl done ↦ rw done (
        opened k refl q free
          (ap (λ (f : File). f.is_open)
            (get_or-set_self v.files k (record result.1 { is_open = true }) no_file q))
          (put_file v _ k (record result.1 { is_open = true }) refl))
    | inr failed ↦ rw failed (refused k refl q free (put_file v _ k result.1 refl))
  ]
    where
      file : File
      file = record (file_at v k) {
        node = node;
        mount = some i;
        flags = flags;
        position = 0;
        dirty = false;
      }

      result : Bool × File × W
      result = elim (mount_at v i).ops.open_file as (λ o. Bool × File × W) [
        | none ↦ (true, file, w)
        | some f ↦ f file flags w
      ]

  -- vfs_open either gives a handle that was not in use and is open then, or returns NULL; in both
  -- cases every other handle, every open directory and the table of mount points are as before.
  pub open_path-Opened : (v : Vfs W) (path : List ℕ) (flags : ℕ) → Opened v (open_path v path flags)
  unfolding open_path
  open_path-Opened v path flags = elim (Option-cases (locate v path)) [
    | inl e ↦ rw (open_path, e) (untouched refl refl)
    | inr ((i, rel), e) ↦ elim (Option-cases (find_index (λ (f : File). not f.is_open) v.files)) [
      | inl full ↦ rw (open_path, e, full) (untouched refl refl)
      | inr (k, got) ↦
          let (q, shut) = find_index-some (λ (f : File). not f.is_open) v.files k no_file got in
          let free : (file_at v k).is_open ≡ false = ground arith in
          elim (Bool-cases (find_or_create v i rel (file_at v k).node flags).0) [
            | inl found ↦ rw (open_path, e, got, found) (open_in-Opened v i k _ flags _ q free)
            | inr missing ↦
                rw (open_path, e, got, missing) (refused k refl q free (put_file v _ k _ refl))
          ]
    ]
  ]
