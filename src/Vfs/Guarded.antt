-- ===== src/Vfs/Guarded.antt =====
-- include/vfs.h: storage that no operation of a writable mount point changes, for the calls on
-- paths (Paths), those on handles (Handles) and runs of them (Runs).
use retrofuture_os.Base.{ℕ, Bool, false, Option, some, ◌≡◌, List}
use retrofuture_os.Base.Int.{ℤ}
use retrofuture_os.Vfs.Types.{Vfs, Mount, Ops, File, Dir, Node, Stat, Dirent}
pub mod Paths
pub mod Handles
pub mod Runs
mod Tests

module _ {W S : Type 0} (stored : W → S) where
  -- The operations that only read keep what is stored.
  pub record IsQuiet (ops : Ops W) (i : ℕ) : Type 0 where
    pub lookup :
        (f : ℕ → List ℕ → Node → W → Bool × Node × W)
        → ops.lookup ≡ some f
        → (rel : List ℕ) (node : Node) (w : W) → stored (f i rel node w).2 ≡ stored w
    pub stat :
        (f : Node → W → Bool × Stat × W)
        → ops.stat ≡ some f
        → (node : Node) (w : W) → stored (f node w).2 ≡ stored w
    pub open_file :
        (f : File → ℕ → W → Bool × File × W)
        → ops.open_file ≡ some f
        → (file : File) (flags : ℕ) (w : W) → stored (f file flags w).2 ≡ stored w
    pub close_file :
        (f : File → W → File × W)
        → ops.close_file ≡ some f
        → (file : File) (w : W) → stored (f file w).1 ≡ stored w
    pub read :
        (f : File → ℕ → W → ℤ × List ℕ × File × W)
        → ops.read ≡ some f
        → (file : File) (size : ℕ) (w : W) → stored (f file size w).3 ≡ stored w
    pub seek :
        (f : File → ℤ → ℤ → W → ℤ × File × W)
        → ops.seek ≡ some f
        → (file : File) (offset whence : ℤ) (w : W) → stored (f file offset whence w).2 ≡ stored w
    pub opendir :
        (f : Dir → W → Bool × Dir × W)
        → ops.opendir ≡ some f
        → (dir : Dir) (w : W) → stored (f dir w).2 ≡ stored w
    pub closedir :
        (f : Dir → W → Dir × W)
        → ops.closedir ≡ some f
        → (dir : Dir) (w : W) → stored (f dir w).1 ≡ stored w
    pub readdir :
        (f : Dir → Dirent → W → Bool × Dirent × Dir × W)
        → ops.readdir ≡ some f
        → (dir : Dir) (entry : Dirent) (w : W) → stored (f dir entry w).3 ≡ stored w

  -- The operations that change files, called for this mount point, keep what is stored.
  pub record IsElsewhere (ops : Ops W) (i : ℕ) : Type 0 where
    pub create :
        (f : ℕ → List ℕ → ℕ → W → Bool × W)
        → ops.create ≡ some f
        → (rel : List ℕ) (kind : ℕ) (w : W) → stored (f i rel kind w).1 ≡ stored w
    pub unlink :
        (f : ℕ → List ℕ → W → Bool × W)
        → ops.unlink ≡ some f
        → (rel : List ℕ) (w : W) → stored (f i rel w).1 ≡ stored w
    pub mkdir :
        (f : ℕ → List ℕ → W → Bool × W)
        → ops.mkdir ≡ some f
        → (rel : List ℕ) (w : W) → stored (f i rel w).1 ≡ stored w
    pub rmdir :
        (f : ℕ → List ℕ → W → Bool × W)
        → ops.rmdir ≡ some f
        → (rel : List ℕ) (w : W) → stored (f i rel w).1 ≡ stored w
    pub rename :
        (f : ℕ → List ℕ → List ℕ → W → Bool × W)
        → ops.rename ≡ some f
        → (old new : List ℕ) (w : W) → stored (f i old new w).1 ≡ stored w
    pub write :
        (f : File → List ℕ → W → ℤ × File × W)
        → ops.write ≡ some f
        → (file : File) (bytes : List ℕ) (w : W) → file.mount ≡ some i
        → stored (f file bytes w).2 ≡ stored w

  -- Of the operations of the mount point in slot `i`, only those that change files may change what is
  -- stored, and only if it is read-only.
  pub record IsGuarded (m : Mount W) (i : ℕ) : Type 0 where
    pub reading : IsQuiet m.ops i
    pub changing : m.readonly ≡ false → IsElsewhere m.ops i

  -- A call leaves what is stored and the table of mount points as they were.
  abbrev pub Keeps : Vfs W → Vfs W → Type 0
  Keeps v v' = (v'.mounts ≡ v.mounts) × (stored v'.world ≡ stored v.world)
