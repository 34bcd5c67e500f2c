-- ===== src/Vfs/Guarded/Paths.antt =====
-- include/vfs.h: the calls on paths and storage that no writable mount point changes.
use retrofuture_os.Base.{
  ℕ, Bool, false, not, Option, none, some, ◌≡◌, refl, ◌∙◌, inl, inr, List, [], ◌∷◌, ◌==◌,
  find_index, has_flag, Bool-cases, Option-cases,
}
use retrofuture_os.Vfs.Guarded.{IsGuarded, IsElsewhere, Keeps}
use retrofuture_os.Vfs.Types.{Vfs, Ops, File, Node, mount_at, file_at, node_file, o_creat}
use retrofuture_os.Vfs.Calls.{
  locate, look_up, on_path, change, create, mkdir, unlink, rmdir, rename, creator, find_or_create,
  open_in, open_path, stat,
}
use retrofuture_os.Vfs.Mounts.{find_mount}
use retrofuture_os.Vfs.Path.{slash, normalize_path}

module _ {W S : Type 0} (stored : W → S) where
  -- An operation on a path, if there is one, keeps what is stored.
  abbrev KeptBy : Option (ℕ → List ℕ → W → Bool × W) → ℕ → List ℕ → Type 0
  KeptBy none i rel = (w : W) → stored w ≡ stored w
  KeptBy (some f) i rel = (w : W) → stored (f i rel w).1 ≡ stored w

  on_path-Keeps :
      (v : Vfs W) (op : Option (ℕ → List ℕ → W → Bool × W)) (i : ℕ) (rel : List ℕ)
      → KeptBy op i rel
      → Keeps stored v (on_path op i rel v).1
  on_path-Keeps v none i rel kept = (refl, refl)
  on_path-Keeps v (some f) i rel kept = (refl, kept v.world)

  change-Keeps :
      (v : Vfs W) (op : Ops W → Option (ℕ → List ℕ → W → Bool × W)) (path : List ℕ)
      → ((i : ℕ) (rel : List ℕ)
          → (mount_at v i).readonly ≡ false
          → KeptBy (op (mount_at v i).ops) i rel)
      → Keeps stored v (change op v path).1
  unfolding change
  change-Keeps v op path kept = elim (Option-cases (locate v path)) [
    | inl e ↦ rw (change, e) (refl, refl)
    | inr ((i, rel), e) ↦ elim (Bool-cases (mount_at v i).readonly) [
      | inl r ↦ rw (change, e, r) (refl, refl)
      | inr r ↦ rw (change, e, r) (on_path-Keeps v (op (mount_at v i).ops) i rel (kept i rel r))
    ]
  ]

  KeptBy-cases :
      (op : Option (ℕ → List ℕ → W → Bool × W)) (i : ℕ) (rel : List ℕ)
      → ((f : ℕ → List ℕ → W → Bool × W)
          → op ≡ some f
          → (rel' : List ℕ) (w : W) → stored (f i rel' w).1 ≡ stored w)
      → KeptBy op i rel
  KeptBy-cases none i rel kept = λ w. refl
  KeptBy-cases (some f) i rel kept = λ w. kept f refl rel w

  KeptBy-creator :
      (ops : Ops W) (i : ℕ) (rel : List ℕ) → IsElsewhere stored ops i → KeptBy (creator ops) i rel
  KeptBy-creator ops i rel k = elim (Option-cases ops.create) [
    | inl e ↦ rw (creator, e) λ w. refl
    | inr (g, e) ↦ rw (creator, e) λ w. k.create g e rel node_file w
  ]

  module _ (v : Vfs W) (guard : (i : ℕ) → IsGuarded stored (mount_at v i) i) where
    pub create-Keeps : (path : List ℕ) → Keeps stored v (create v path).1
    unfolding create
    create-Keeps path =
        change-Keeps v creator path λ i rel r. KeptBy-creator _ i rel ((guard i).changing r)

    pub mkdir-Keeps : (path : List ℕ) → Keeps stored v (mkdir v path).1
    unfolding mkdir
    mkdir-Keeps path =
        change-Keeps v (λ ops. ops.mkdir) path
          λ i rel r. KeptBy-cases _ i rel ((guard i).changing r).mkdir

    pub unlink-Keeps : (path : List ℕ) → Keeps stored v (unlink v path).1
    unfolding unlink
    unlink-Keeps path =
        change-Keeps v (λ ops. ops.unlink) path
          λ i rel r. KeptBy-cases _ i rel ((guard i).changing r).unlink

    pub rmdir-Keeps : (path : List ℕ) → Keeps stored v (rmdir v path).1
    unfolding rmdir
    rmdir-Keeps path =
        change-Keeps v (λ ops. ops.rmdir) path
          λ i rel r. KeptBy-cases _ i rel ((guard i).changing r).rmdir

    pub rename-Keeps : (path new_path : List ℕ) → Keeps stored v (rename v path new_path).1
    unfolding rename
    rename-Keeps path new_path = elim (Option-cases (locate v path)) [
      | inl e ↦ rw (rename, e) (refl, refl)
      | inr ((i, rel), e) ↦ elim (Bool-cases (mount_at v i).readonly) [
        | inl r ↦ rw (rename, e, r) (refl, refl)
        | inr r ↦ elim (Option-cases (mount_at v i).ops.rename) [
          | inl o ↦ rw (rename, e, r, o) (refl, refl)
          | inr (f, o) ↦ elim (Option-cases (find_mount v (normalize_path new_path (slash ∷ [])))) [
            | inl t ↦ rw (rename, e, r, o, t) (refl, refl)
            | inr (j, t) ↦ elim (Bool-cases (i == j)) [
              | inl q ↦
                  rw (rename, e, r, o, t, q) (refl, ((guard i).changing r).rename f o rel _ v.world)
              | inr q ↦ rw (rename, e, r, o, t, q) (refl, refl)
            ]
          ]
        ]
      ]
    ]

    look_up-kept :
        (i : ℕ) (rel : List ℕ) (node : Node) → stored (look_up v i rel node).2 ≡ stored v.world
    look_up-kept i rel node = elim (Option-cases (mount_at v i).ops.lookup) [
      | inl e ↦ rw (look_up, e) refl
      | inr (f, e) ↦ rw (look_up, e) ((guard i).reading.lookup f e rel node v.world)
    ]

    pub stat-Keeps : (path : List ℕ) (node : Node) → Keeps stored v (stat v path node).1
    unfolding stat
    stat-Keeps path node = elim (Option-cases (locate v path)) [
      | inl e ↦ rw (stat, e) (refl, refl)
      | inr ((i, rel), e) ↦ elim (Bool-cases (look_up v i rel node).0) [
        | inr q ↦ rw (stat, e, q) (refl, look_up-kept i rel node)
        | inl q ↦ elim (Option-cases (mount_at v i).ops.stat) [
          | inl o ↦ rw (stat, e, q, o) (refl, look_up-kept i rel node)
          | inr (f, o) ↦
              rw (stat, e, q, o) (refl, (guard i).reading.stat f o _ _ ∙ look_up-kept i rel node)
        ]
      ]
    ]

    open_in-Keeps :
        (i k : ℕ) (node : Node) (flags : ℕ) (w : W)
        → stored w ≡ stored v.world
        → Keeps stored v (open_in v i k node flags w).1
    unfolding open_in
    open_in-Keeps i k node flags w same = elim (Option-cases (mount_at v i).ops.open_file) [
      | inl o ↦ rw (open_in, o) (refl, same)
      | inr (f, o) ↦
          elim (Bool-cases
            (f
              (record (file_at v k) {
                node = node;
                mount = some i;
                flags = flags;
                position = 0;
                dirty = false;
              })
              flags w).0) [
                | inl q ↦
                    rw (open_in, o, q) (refl, (guard i).reading.open_file f o _ flags w ∙ same)
                | inr q ↦
                    rw (open_in, o, q) (refl, (guard i).reading.open_file f o _ flags w ∙ same)
              ]
    ]

    pub open_path-Keeps :
        (path : List ℕ) (flags : ℕ)
        → has_flag flags o_creat ≡ false
        → Keeps stored v (open_path v path flags).1
    unfolding open_path find_or_create
    open_path-Keeps path flags plain = elim (Option-cases (locate v path)) [
      | inl e ↦ rw (open_path, e) (refl, refl)
      | inr ((i, rel), e) ↦ elim (Option-cases (find_index (λ (f : File). not f.is_open) v.files)) [
        | inl full ↦ rw (open_path, e, full) (refl, refl)
        | inr (k, got) ↦ elim (Bool-cases (look_up v i rel (file_at v k).node).0) [
          | inl found ↦
              rw (open_path, e, got, find_or_create, found)
                (open_in-Keeps i k _ flags _ (look_up-kept i rel (file_at v k).node))
          | inr missing ↦
              rw (open_path, e, got, find_or_create, missing, plain)
                (refl, look_up-kept i rel (file_at v k).node)
        ]
      ]
    ]
