-- ===== src/Vfs/Types.antt =====
-- include/vfs.h: the structures. A mount point and an open file are named by their slots, which
-- stand for pointers to them; NULL is none. `fs_data` and the device belong to the file system
-- and are part of its state `W`, which every operation of a file system is given and leaves.
use retrofuture_os.Base.{ℕ, Bool, false, Option, none, List, [], get_or}
use retrofuture_os.Base.Int.{ℤ}

abbrev pub max_mounts : ℕ
max_mounts = 8

abbrev pub max_open_files : ℕ
max_open_files = 32

abbrev pub node_file : ℕ
node_file = 0x01

abbrev pub o_creat : ℕ
o_creat = 0x0100

pub record Node : Type 0 where
  pub name : List ℕ
  pub kind : ℕ
  pub size : ℕ
  pub inode : ℕ
  pub cluster : ℕ

pub record File : Type 0 where
  pub node : Node
  pub mount : Option ℕ
  pub flags : ℕ
  pub position : ℕ
  pub is_open : Bool
  pub dirty : Bool
  pub dir_sector : ℕ
  pub dir_offset : ℕ

pub record Dir : Type 0 where
  pub node : Node
  pub mount : Option ℕ
  pub position : ℕ
  pub is_open : Bool

pub record Stat : Type 0 where
  pub size : ℕ
  pub kind : ℕ
  pub permissions : ℕ
  pub uid : ℕ
  pub gid : ℕ
  pub atime : ℕ
  pub mtime : ℕ
  pub ctime : ℕ
  pub blocks : ℕ
  pub block_size : ℕ

pub record Dirent : Type 0 where
  pub name : List ℕ
  pub inode : ℕ
  pub kind : ℕ
  pub size : ℕ

-- The operations that a file system provides and the calls use; none for a NULL pointer. A mount point is passed as
-- its slot. What C leaves in an object through a pointer is returned.
pub record Ops (W : Type 0) : Type 0 where
  pub mount : Option (ℕ → W → Bool × W)
  pub unmount : Option (ℕ → W → W)
  pub sync : Option (ℕ → W → Bool × W)
  pub lookup : Option (ℕ → List ℕ → Node → W → Bool × Node × W)
  pub stat : Option (Node → W → Bool × Stat × W)
  pub create : Option (ℕ → List ℕ → ℕ → W → Bool × W)
  pub unlink : Option (ℕ → List ℕ → W → Bool × W)
  pub rename : Option (ℕ → List ℕ → List ℕ → W → Bool × W)
  pub mkdir : Option (ℕ → List ℕ → W → Bool × W)
  pub rmdir : Option (ℕ → List ℕ → W → Bool × W)
  pub open_file : Option (File → ℕ → W → Bool × File × W)
  pub close_file : Option (File → W → File × W)
  pub read : Option (File → ℕ → W → ℤ × List ℕ × File × W)
  pub write : Option (File → List ℕ → W → ℤ × File × W)
  pub seek : Option (File → ℤ → ℤ → W → ℤ × File × W)
  pub opendir : Option (Dir → W → Bool × Dir × W)
  pub closedir : Option (Dir → W → Dir × W)
  pub readdir : Option (Dir → Dirent → W → Bool × Dirent × Dir × W)

-- The caller's device is read-only or not; the buffers belong to the file system's state.
pub record Mount (W : Type 0) : Type 0 where
  pub path : List ℕ
  pub ops : Ops W
  pub mounted : Bool
  pub readonly : Bool

-- `g_vfs` and the state of the file systems.
pub record Vfs (W : Type 0) : Type 0 where
  pub mounts : List (Mount W)
  pub mount_count : ℕ
  pub root_mount : Option ℕ
  pub files : List File
  pub dirs : List Dir
  pub world : W

abbrev pub no_node : Node
no_node = record { name = []; kind = 0; size = 0; inode = 0; cluster = 0 }

abbrev pub no_file : File
no_file = record {
  node = no_node;
  mount = none;
  flags = 0;
  position = 0;
  is_open = false;
  dirty = false;
  dir_sector = 0;
  dir_offset = 0;
}

abbrev pub no_dir : Dir
no_dir = record { node = no_node; mount = none; position = 0; is_open = false }

module _ {W : Type 0} where
  abbrev pub no_ops : Ops W
  no_ops = record {
    mount = none;
    unmount = none;
    sync = none;
    lookup = none;
    stat = none;
    create = none;
    unlink = none;
    rename = none;
    mkdir = none;
    rmdir = none;
    open_file = none;
    close_file = none;
    read = none;
    write = none;
    seek = none;
    opendir = none;
    closedir = none;
    readdir = none;
  }

  abbrev pub no_mount : Mount W
  no_mount = record { path = []; ops = no_ops; mounted = false; readonly = false }

  -- `&g_vfs.mounts[i]` and the two tables of handles, dereferenced.
  abbrev pub mount_at : Vfs W → ℕ → Mount W
  mount_at v i = get_or v.mounts i no_mount

  abbrev pub file_at : Vfs W → ℕ → File
  file_at v i = get_or v.files i no_file

  abbrev pub dir_at : Vfs W → ℕ → Dir
  dir_at v i = get_or v.dirs i no_dir
