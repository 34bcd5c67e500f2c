-- ===== src/Vfs/Calls.antt =====
-- include/vfs.h: the calls on paths. A file or directory that is opened is named by its slot in the
-- table of handles.
use retrofuture_os.Base.{
  ℕ, ◌+◌, ◌/◌, ◌%◌, ◌^◌, Bool, true, false, not, Option, none, some, List, [], ◌∷◌, ◌==◌,
  if◌then◌else◌, set, find_index, has_flag,
}
use retrofuture_os.Vfs.Path.{slash, normalize_path, relative_path}
use retrofuture_os.Vfs.Types.{
  Vfs, Ops, File, Dir, Node, Stat, mount_at, file_at, dir_at, node_file, o_creat,
}
use retrofuture_os.Vfs.Mounts.{find_mount}

-- `Fill basic info from node`
abbrev pub basic_stat : Node → Stat
basic_stat node = record {
  size = node.size;
  kind = node.kind;
  permissions = 0;
  uid = 0;
  gid = 0;
  atime = 0;
  mtime = 0;
  ctime = 0;
  blocks = (node.size + 511) % 2 ^ 32 / 512;
  block_size = 512;
}

module _ {W : Type 0} where
  -- The head of every call on a path: the mounted slot and the path on it.
  unfoldable pub locate : Vfs W → List ℕ → Option (ℕ × List ℕ)
  locate v path =
      let normalized = normalize_path path (slash ∷ []) in
      elim (find_mount v normalized) [
        | none ↦ none
        | some i ↦
            if (mount_at v i).mounted
            then some (i, relative_path (mount_at v i).path normalized)
            else none
      ]

  -- `mnt->ops->lookup`, which fails where it is missing.
  abbrev pub look_up : Vfs W → ℕ → List ℕ → Node → Bool × Node × W
  look_up v i rel node = elim (mount_at v i).ops.lookup as (λ o. Bool × Node × W) [
    | none ↦ (false, node, v.world)
    | some f ↦ f i rel node v.world
  ]

  -- An operation on a path that may be missing.
  abbrev pub on_path : Option (ℕ → List ℕ → W → Bool × W) → ℕ → List ℕ → Vfs W → Bool × Vfs W
  on_path op i rel v = elim op [
    | none ↦ (false, v)
    | some f ↦ let (done, w) = f i rel v.world in (done, record v { world = w })
  ]

  -- A call that changes the file system: refused on a read-only mount.
  unfoldable pub change :
      (Ops W → Option (ℕ → List ℕ → W → Bool × W)) → Vfs W → List ℕ → Bool × Vfs W
  change op v path = elim (locate v path) [
    | none ↦ (false, v)
    | some (i, rel) ↦
        if (mount_at v i).readonly then (false, v) else on_path (op (mount_at v i).ops) i rel v
  ]

  -- `ops->create` with the type of a file.
  abbrev pub creator : Ops W → Option (ℕ → List ℕ → W → Bool × W)
  creator ops = elim ops.create [ none ↦ none | some f ↦ some (λ i rel w. f i rel node_file w) ]

  unfoldable pub create : Vfs W → List ℕ → Bool × Vfs W
  unfolding change
  create v path = change creator v path

  unfoldable pub mkdir : Vfs W → List ℕ → Bool × Vfs W
  unfolding change
  mkdir v path = change (λ ops. ops.mkdir) v path

  unfoldable pub unlink : Vfs W → List ℕ → Bool × Vfs W
  unfolding change
  unlink v path = change (λ ops. ops.unlink) v path

  unfoldable pub rmdir : Vfs W → List ℕ → Bool × Vfs W
  unfolding change
  rmdir v path = change (λ ops. ops.rmdir) v path

  unfoldable pub rename : Vfs W → List ℕ → List ℕ → Bool × Vfs W
  rename v old_path new_path =
      let new_norm = normalize_path new_path (slash ∷ []) in
      elim (locate v old_path) [
        | none ↦ (false, v)
        | some (i, old_rel) ↦
            if (mount_at v i).readonly then (false, v) else elim (mount_at v i).ops.rename [
              | none ↦ (false, v)
              | some f ↦ elim (find_mount v new_norm) [
                | none ↦ (false, v)
                | some j ↦
                    let (done, w) =
                      f i old_rel (relative_path (mount_at v i).path new_norm) v.world in
                    if i == j then (done, record v { world = w }) else (false, v)
              ]
            ]
      ]

  -- The node of an existing file, or of one that is created because `flags` asks for it. A missing
  -- `lookup` is taken to fail the second time too, where the source calls it without a test.
  unfoldable pub find_or_create : Vfs W → ℕ → List ℕ → Node → ℕ → Bool × Node × W
  find_or_create v i rel node flags =
      let (found, node', w) = look_up v i rel node in
      let (made, v') = on_path (creator (mount_at v i).ops) i rel (record v { world = w }) in
      let again = look_up v' i rel node' in
      if found
      then (true, node', w)
      else if has_flag flags o_creat
      then if made then again else (false, node', v'.world)
      else (false, node', w)

  -- The end of `vfs_open`, in the slot `k`.
  unfoldable pub open_in : Vfs W → ℕ → ℕ → Node → ℕ → W → Option ℕ × Vfs W
  open_in v i k node flags w =
      let file = record (file_at v k) {
        node = node;
        mount = some i;
        flags = flags;
        position = 0;
        dirty = false;
      } in
      let (done, file', w') = elim (mount_at v i).ops.open_file as (λ o. Bool × File × W) [
        | none ↦ (true, file, w)
        | some f ↦ f file flags w
      ] in
      if done
      then (
        some k,
        record v { world = w'; files = set v.files k (record file' { is_open = true }) },
      )
      else (none, record v { world = w'; files = set v.files k file' })

  unfoldable pub open_path : Vfs W → List ℕ → ℕ → Option ℕ × Vfs W
  open_path v path flags = elim (locate v path) [
    | none ↦ (none, v)
    | some (i, rel) ↦ elim (find_index (λ (f : File). not f.is_open) v.files) [
      | none ↦ (none, v)
      | some k ↦
          let (found, node, w) = find_or_create v i rel (file_at v k).node flags in
          if found then open_in v i k node flags w else (
            none,
            record v { world = w; files = set v.files k (record (file_at v k) { node = node }) },
          )
    ]
  ]

  -- The end of `vfs_opendir`, in the slot `k`.
  unfoldable pub opendir_in : Vfs W → ℕ → ℕ → Node → W → Option ℕ × Vfs W
  opendir_in v i k node w =
      let dir = record (dir_at v k) { node = node; mount = some i; position = 0 } in
      let (done, dir', w') = elim (mount_at v i).ops.opendir as (λ o. Bool × Dir × W) [
        | none ↦ (true, dir, w)
        | some f ↦ f dir w
      ] in
      if done
      then (some k, record v { world = w'; dirs = set v.dirs k (record dir' { is_open = true }) })
      else (none, record v { world = w'; dirs = set v.dirs k dir' })

  unfoldable pub opendir : Vfs W → List ℕ → Option ℕ × Vfs W
  opendir v path = elim (locate v path) [
    | none ↦ (none, v)
    | some (i, rel) ↦ elim (find_index (λ (d : Dir). not d.is_open) v.dirs) [
      | none ↦ (none, v)
      | some k ↦ elim (mount_at v i).ops.lookup [
        | none ↦ opendir_in v i k (dir_at v k).node v.world
        | some f ↦
            let (found, node, w) = f i rel (dir_at v k).node v.world in
            if found then opendir_in v i k node w else (
              none,
              record v { world = w; dirs = set v.dirs k (record (dir_at v k) { node = node }) },
            )
      ]
    ]
  ]

  -- `node` is what the local variable holds before the lookup.
  unfoldable pub stat : Vfs W → List ℕ → Node → Option Stat × Vfs W
  stat v path node = elim (locate v path) [
    | none ↦ (none, v)
    | some (i, rel) ↦
        let (found, node', w) = look_up v i rel node in
        let (done, info, w') = elim (mount_at v i).ops.stat as (λ o. Bool × Stat × W) [
          | none ↦ (true, basic_stat node', w)
          | some f ↦ f node' w
        ] in
        if found
        then (if done then some info else none, record v { world = w' })
        else (none, record v { world = w })
  ]
