-- ===== src/Vfs/Refused.antt =====
-- include/vfs.h: mount points that vfs_find_mount misses because one before them was taken away.
use retrofuture_os.Base.{
  ℕ, zero, suc, true, false, Option, none, some, ◌≡◌, ◌≢◌, refl, sym, ap, subst, ◌∙◌, List, [], ◌∷◌,
  arith, ◌==◌, if◌then◌else◌, set, get_or, get_or-set_ne,
}
use retrofuture_os.Vfs.Types.{Vfs, Mount, mount_at, no_mount}
use retrofuture_os.Vfs.Mounts.{best_from, scanned, find_mount, unmount_slot, same_slot}

root_left : (root : Option ℕ) → root ≢ some 1 → (if same_slot root 0 then none else root) ≢ some 1
root_left none ne e = absurd (ground arith)
root_left (some zero) ne e = absurd (ground arith)
root_left (some (suc i)) ne e =
    let other : (suc i == 0) ≡ false = ground arith in
    ne (subst (λ b. (if b then none else some (suc i)) ≡ some 1) other e)

module _ {W : Type 0} where
  first_unmounted :
      (path : List ℕ) (ms : List (Mount W)) (m : Mount W)
      → best_from path 0 (scanned 1 (set ms 0 (record m { mounted = false }))) none 0 ≡ none
  unfolding best_from scanned
  first_unmounted path [] m = refl
  first_unmounted path (n ∷ ms) m = refl

  -- With file systems in the first two slots, vfs_unmount of the first hides the second: it is
  -- still mounted, and vfs_find_mount does not find it for any path, unless it is the root mount.
  pub find_mount-unmount_slot :
      (v : Vfs W) (m n : Mount W) (ms : List (Mount W)) (path : List ℕ)
      → v.mounts ≡ m ∷ (n ∷ ms)
      → v.mount_count ≡ 2
      → n.mounted ≡ true
      → v.root_mount ≢ some 1
      → ((mount_at (unmount_slot v 0) 1).mounted ≡ true)
        × (find_mount (unmount_slot v 0) path ≢ some 1)
  unfolding find_mount unmount_slot
  find_mount-unmount_slot v m n ms path e two mounted root =
      let hidden : find_mount (unmount_slot v 0) path
          ≡ (if same_slot v.root_mount 0 then none else v.root_mount) =
        rw (two, find_mount, first_unmounted path v.mounts (mount_at v 0)) refl in
      (
        ap (λ (x : Mount W). x.mounted)
              (get_or-set_ne v.mounts 0 1 (record (mount_at v 0) { mounted = false }) no_mount
                (omega arith))
            ∙ ap (λ (xs : List (Mount W)). (get_or xs 1 no_mount).mounted) e
            ∙ mounted,
        λ f. root_left v.root_mount root (sym hidden ∙ f),
      )
