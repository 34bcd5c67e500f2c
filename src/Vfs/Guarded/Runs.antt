-- ===== src/Vfs/Guarded/Runs.antt =====
-- include/vfs.h: runs of calls, and storage that only read-only mount points could change.
use retrofuture_os.Base.{ℕ, false, ◌≡◌, refl, subst, sym, ◌∙◌, List, has_flag, get_or}
use retrofuture_os.Base.Int.{ℤ}
use retrofuture_os.Vfs.Guarded.{IsGuarded, Keeps}
use retrofuture_os.Vfs.Guarded.Paths.{
  create-Keeps, mkdir-Keeps, unlink-Keeps, rmdir-Keeps, rename-Keeps, stat-Keeps, open_path-Keeps,
}
use retrofuture_os.Vfs.Guarded.Handles.{
  read-Keeps, write-Keeps, seek-Keeps, close-Keeps, opendir-Keeps, closedir-Keeps, readdir-Keeps,
}
use retrofuture_os.Vfs.Types.{Vfs, Mount, Node, Dirent, mount_at, no_mount, o_creat}
use retrofuture_os.Vfs.Calls.{create, mkdir, unlink, rmdir, rename, open_path, opendir, stat}
use retrofuture_os.Vfs.Handles.{write, read, close, seek, closedir, readdir}

module _ {W : Type 0} where
  -- One call, whatever it returns. `vfs_open` is called without `VFS_O_CREAT`.
  pub data Call (v : Vfs W) : Vfs W → Type 0 where
    created : (path : List ℕ) → Call v (create v path).1
    made : (path : List ℕ) → Call v (mkdir v path).1
    unlinked : (path : List ℕ) → Call v (unlink v path).1
    removed : (path : List ℕ) → Call v (rmdir v path).1
    renamed : (old_path new_path : List ℕ) → Call v (rename v old_path new_path).1
    looked : (path : List ℕ) (node : Node) → Call v (stat v path node).1
    opened :
        (path : List ℕ) (flags : ℕ)
        → has_flag flags o_creat ≡ false
        → Call v (open_path v path flags).1
    closed : (k : ℕ) → Call v (close v k)
    got : (k size : ℕ) → Call v (read v k size).2
    wrote : (k : ℕ) (bytes : List ℕ) → Call v (write v k bytes).1
    moved : (k : ℕ) (offset : ℤ) (whence : ℕ) → Call v (seek v k offset whence).1
    dir_opened : (path : List ℕ) → Call v (opendir v path).1
    dir_closed : (k : ℕ) → Call v (closedir v k)
    listed : (k : ℕ) (entry : Dirent) → Call v (readdir v k entry).2

  pub data Run (v : Vfs W) : Vfs W → Type 0 where
    here : Run v v
    next : (v1 v2 : Vfs W) → Run v v1 → Call v1 v2 → Run v v2

  module _ {S : Type 0} (stored : W → S) where
    Call-Keeps :
        (v v' : Vfs W)
        → ((i : ℕ) → IsGuarded stored (mount_at v i) i)
        → Call v v'
        → Keeps stored v v'
    Call-Keeps v _ g (created path) = create-Keeps stored v g path
    Call-Keeps v _ g (made path) = mkdir-Keeps stored v g path
    Call-Keeps v _ g (unlinked path) = unlink-Keeps stored v g path
    Call-Keeps v _ g (removed path) = rmdir-Keeps stored v g path
    Call-Keeps v _ g (renamed old_path new_path) = rename-Keeps stored v g old_path new_path
    Call-Keeps v _ g (looked path node) = stat-Keeps stored v g path node
    Call-Keeps v _ g (opened path flags plain) = open_path-Keeps stored v g path flags plain
    Call-Keeps v _ g (closed k) = close-Keeps stored v g k
    Call-Keeps v _ g (got k size) = read-Keeps stored v g k size
    Call-Keeps v _ g (wrote k bytes) = write-Keeps stored v g k bytes
    Call-Keeps v _ g (moved k offset whence) = seek-Keeps stored v g k offset whence
    Call-Keeps v _ g (dir_opened path) = opendir-Keeps stored v g path
    Call-Keeps v _ g (dir_closed k) = closedir-Keeps stored v g k
    Call-Keeps v _ g (listed k entry) = readdir-Keeps stored v g k entry

    IsGuarded-mounts :
        (v v' : Vfs W) (i : ℕ)
        → v'.mounts ≡ v.mounts
        → IsGuarded stored (mount_at v i) i
        → IsGuarded stored (mount_at v' i) i
    IsGuarded-mounts v v' i e g =
        subst (λ (ms : List (Mount W)). IsGuarded stored (get_or ms i no_mount) i) (sym e) g

    -- Suppose that the reading operations of every mount point keep what is stored, and that those
    -- that change files, called for a mount point that is not read-only, keep it too: it is the
    -- storage of read-only mount points. Then it is kept by any run of the calls on paths, files and
    -- directories, as long as vfs_open is called without VFS_O_CREAT, and so is the table of mount
    -- points.
    pub Run-Keeps :
        (v v' : Vfs W)
        → ((i : ℕ) → IsGuarded stored (mount_at v i) i)
        → Run v v'
        → Keeps stored v v'
    Run-Keeps v _ g here = (refl, refl)
    Run-Keeps v _ g (next v1 v2 run call) =
        let before = Run-Keeps v v1 g run in
        let after = Call-Keeps v1 v2 (λ i. IsGuarded-mounts v v1 i before.0 (g i)) call in
        (after.0 ∙ before.0, after.1 ∙ before.1)
