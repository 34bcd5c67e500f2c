-- ===== src/Vfs/Mounts.antt =====
-- include/vfs.h: the table of mount points: vfs_init, _find_mount, _mount, _unmount, _sync_all.
use retrofuture_os.Base.{
  ℕ, zero, suc, ◌+◌, ◌-◌, Bool, true, false, not, ◌&&◌, Option, none, some, List, [], ◌∷◌, length,
  ltb, ◌==◌, if◌then◌else◌, set, map, find_index,
}
use retrofuture_os.Vfs.Path.{slash, has_prefix}
use retrofuture_os.Vfs.Types.{Vfs, Mount, Ops, File, Dir, mount_at}

-- Two strings are equal: `vfs_strcmp` returns 0.
unfoldable pub strcmp_eq : List ℕ → List ℕ → Bool
strcmp_eq [] [] = true
strcmp_eq [] (d ∷ b) = false
strcmp_eq (c ∷ a) [] = false
strcmp_eq (c ∷ a) (d ∷ b) = c == d && strcmp_eq a b

-- Two pointers to mount points, or NULL.
abbrev pub same_slot : Option ℕ → ℕ → Bool
same_slot none i = false
same_slot (some j) i = j == i

module _ {W : Type 0} where
  -- The test of the loop in `vfs_find_mount`.
  abbrev pub covers : List ℕ → Mount W → Bool
  covers path m = m.mounted && has_prefix path m.path

  -- The loop over the slots from `i` on, with the best one so far and the length of its path.
  unfoldable pub best_from : List ℕ → ℕ → List (Mount W) → Option ℕ → ℕ → Option ℕ
  best_from path i [] best best_len = best
  best_from path i (m ∷ ms) best best_len =
      let longer = covers path m && ltb best_len (length m.path) in
      best_from path (i + 1) ms (if longer then some i else best)
        (if longer then length m.path else best_len)

  -- `g_vfs.mounts[i]` for `i < g_vfs.mount_count`
  unfoldable pub scanned : ℕ → List (Mount W) → List (Mount W)
  scanned zero ms = []
  scanned (suc n) [] = []
  scanned (suc n) (m ∷ ms) = m ∷ scanned n ms

  unfoldable pub find_mount : Vfs W → List ℕ → Option ℕ
  find_mount v path = elim (best_from path 0 (scanned v.mount_count v.mounts) none 0) [
    | some i ↦ some i
    | none ↦ v.root_mount
  ]

  unfoldable pub init : Vfs W → Vfs W
  init v = record v {
    mounts = map (λ (m : Mount W). let m' : Mount W = record m { mounted = false } in m') v.mounts;
    files = map (λ (f : File). let f' : File = record f { is_open = false } in f') v.files;
    dirs = map (λ (d : Dir). let d' : Dir = record d { is_open = false } in d') v.dirs;
    mount_count = 0;
    root_mount = none;
  }

  -- What `vfs_mount` does to the slot that it found; `readonly` is that of the device.
  unfoldable pub mount_in : Vfs W → ℕ → List ℕ → Ops W → Bool → Option ℕ × Vfs W
  mount_in v i path ops readonly =
      let filled : Mount W = record {
        path = path;
        ops = ops;
        mounted = false;
        readonly = readonly;
      } in
      let v1 = record v { mounts = set v.mounts i filled } in
      let (done, w) = elim ops.mount as (λ o. Bool × W) [
        | none ↦ (true, v1.world)
        | some f ↦ f i v1.world
      ] in
      if not done then (none, record v1 { world = w }) else (
        some i,
        record v1 {
          world = w;
          mounts = set v.mounts i (record filled { mounted = true });
          mount_count = v.mount_count + 1;
          root_mount = if strcmp_eq path (slash ∷ []) then some i else v.root_mount;
        },
      )

  unfoldable pub mount : Vfs W → List ℕ → Ops W → Bool → Option ℕ × Vfs W
  mount v path ops readonly = elim (find_index (λ (m : Mount W). not m.mounted) v.mounts) [
    | none ↦ (none, v)
    | some i ↦ mount_in v i path ops readonly
  ]

  -- `Close any open files on this mount`
  unfoldable pub close_files : Ops W → ℕ → List File → W → List File × W
  close_files ops i [] w = ([], w)
  close_files ops i (f ∷ fs) w =
      let here = f.is_open && same_slot f.mount i in
      let (f', w') = elim ops.close_file as (λ o. File × W) [ none ↦ (f, w) | some g ↦ g f w ] in
      let w1 = if here then w' else w in
      let f1 = if here then record f' { is_open = false } else f in
      let (fs', w2) = close_files ops i fs w1 in (f1 ∷ fs', w2)

  unfoldable pub unmount_slot : Vfs W → ℕ → Vfs W
  unmount_slot v i =
      let ops = (mount_at v i).ops in
      let (files', w) = close_files ops i v.files v.world in
      let w' = elim ops.unmount as (λ o. W) [ none ↦ w | some f ↦ f i w ] in
      record v {
        files = files';
        world = w';
        mounts = set v.mounts i (record (mount_at v i) { mounted = false });
        mount_count = v.mount_count - 1;
        root_mount = if same_slot v.root_mount i then none else v.root_mount;
      }

  unfoldable pub unmount : Vfs W → List ℕ → Bool × Vfs W
  unmount v path = elim (find_mount v path) [
    | none ↦ (false, v)
    | some i ↦ if (mount_at v i).mounted then (true, unmount_slot v i) else (false, v)
  ]

  -- The loop of `vfs_sync_all` over the slots from `i` on.
  unfoldable pub sync_from : ℕ → List (Mount W) → W → W
  sync_from i [] w = w
  sync_from i (m ∷ ms) w =
      let w' = elim m.ops.sync as (λ o. W) [ none ↦ w | some f ↦ (f i w).1 ] in
      sync_from (i + 1) ms (if m.mounted then w' else w)

  unfoldable pub sync_all : Vfs W → Vfs W
  sync_all v = record v { world = sync_from 0 v.mounts v.world }
