-- ===== src/Vfs/Tests.antt =====
-- The theorems on the virtual file system at concrete inputs, and runs of its functions on paths.
use retrofuture_os.Base.{ℕ, true, false, some, ◌≡◌, ◌≢◌, refl, List, [], ◌∷◌, arith}
use mathlib.Core.List.{reverse}
use retrofuture_os.Vfs.Path.{normalize_path, append_path, start_buffer, copy_component, slash}
use retrofuture_os.Vfs.Words.{names, resolve, words}
use retrofuture_os.Vfs.Resolve.{normalize_path-resolve}
use retrofuture_os.Vfs.Types.{Vfs, Mount, File, no_ops, no_file, no_dir, mount_at}
use retrofuture_os.Vfs.Mounts.{find_mount, unmount_slot}
use retrofuture_os.Vfs.Calls.{open_path}
use retrofuture_os.Vfs.Longest.{Found, find_mount-Found}
use retrofuture_os.Vfs.Opened.{Opened, open_path-Opened}
use retrofuture_os.Vfs.Refused.{find_mount-unmount_slot}

-- `/a/../b`
abbrev up_and_down : List ℕ
up_and_down = b'/' ∷ b'a' ∷ b'/' ∷ b'.' ∷ b'.' ∷ b'/' ∷ b'b' ∷ []

up : normalize_path up_and_down (b'/' ∷ []) ≡ b'/' ∷ b'b' ∷ []
unfolding normalize_path append_path start_buffer copy_component
up = refl

normalize_path-resolve_example :
    names (normalize_path up_and_down (slash ∷ [])) ≡ reverse (resolve [] (words up_and_down))
normalize_path-resolve_example = normalize_path-resolve up_and_down (omega arith)

-- Two file systems, at `/a` and at `/b`; the one at `/b` can only be read.
abbrev at_a : Mount ℕ
at_a = record { path = b'/' ∷ b'a' ∷ []; ops = no_ops; mounted = true; readonly = false }

abbrev at_b : Mount ℕ
at_b = record { path = b'/' ∷ b'b' ∷ []; ops = no_ops; mounted = true; readonly = true }

-- A file on the second is open.
abbrev on_b : File
on_b = record no_file { mount = some 1; is_open = true }

abbrev system : Vfs ℕ
system = record {
  mounts = at_a ∷ at_b ∷ [];
  mount_count = 2;
  root_mount = some 0;
  files = on_b ∷ no_file ∷ [];
  dirs = no_dir ∷ [];
  world = 0;
}

abbrev file_on_b : List ℕ
file_on_b = b'/' ∷ b'b' ∷ b'/' ∷ b'x' ∷ []

find_mount-Found_example : Found system file_on_b (find_mount system file_on_b)
find_mount-Found_example = find_mount-Found system file_on_b

open_path-Opened_example : Opened system (open_path system file_on_b 0)
open_path-Opened_example = open_path-Opened system file_on_b 0

find_mount-unmount_slot_example :
    ((mount_at (unmount_slot system 0) 1).mounted ≡ true)
    × (find_mount (unmount_slot system 0) file_on_b ≢ some 1)
find_mount-unmount_slot_example =
    find_mount-unmount_slot system at_a at_b [] file_on_b refl refl refl
      (λ e. absurd (ground arith))
