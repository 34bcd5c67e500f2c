-- ===== src/Vfs/Guarded/Tests.antt =====
-- A run of calls on a writable and a read-only mount point of one driver.
use retrofuture_os.Base.{
  ℕ, zero, suc, ◌+◌, Bool, true, false, Option, none, some, ◌≡◌, refl, ap, subst, List, [], ◌∷◌,
  arith, ◌==◌, ◌||◌, not,
}
use retrofuture_os.Base.Int.{ℤ, pos}
use retrofuture_os.Vfs.Guarded.{IsQuiet, IsElsewhere, IsGuarded, Keeps}
use retrofuture_os.Vfs.Guarded.Runs.{Run-Keeps, here, next, created, opened, wrote}
use retrofuture_os.Vfs.Types.{Vfs, Ops, File, Node, no_ops, no_file, no_dir, mount_at, o_creat}
use retrofuture_os.Vfs.Path.{
  normalize_path, append_path, start_buffer, copy_component, has_prefix, relative_path,
  past_slashes,
}
use retrofuture_os.Vfs.Mounts.{find_mount, best_from, scanned}
use retrofuture_os.Vfs.Calls.{create, open_path, open_in, find_or_create, locate, change}
use retrofuture_os.Vfs.Handles.{write}

-- The numbers of files on the two devices of the driver, which finds any file where there is one.
abbrev count_in : Option ℕ → ℕ × ℕ → ℕ × ℕ
count_in none w = w
count_in (some zero) (a, b) = (a + 1, b)
count_in (some (suc i)) (a, b) = (a, b + 1)

abbrev do_lookup : ℕ → List ℕ → Node → ℕ × ℕ → Bool × Node × (ℕ × ℕ)
do_lookup i rel node w = (i == 0 || not (w.1 == 0), node, w)

abbrev do_create : ℕ → List ℕ → ℕ → ℕ × ℕ → Bool × (ℕ × ℕ)
do_create i rel kind w = (true, count_in (some i) w)

abbrev do_read : File → ℕ → ℕ × ℕ → ℤ × List ℕ × File × (ℕ × ℕ)
do_read file size w = (pos 0, [], file, w)

abbrev do_write : File → List ℕ → ℕ × ℕ → ℤ × File × (ℕ × ℕ)
do_write file bytes w = (pos 0, file, count_in file.mount w)

abbrev driver : Ops (ℕ × ℕ)
driver = record no_ops {
  lookup = some do_lookup;
  create = some do_create;
  read = some do_read;
  write = some do_write;
}

abbrev system : Vfs (ℕ × ℕ)
system = record {
  mounts =
      record { path = b'/' ∷ b'a' ∷ []; ops = driver; mounted = true; readonly = false }
      ∷ record { path = b'/' ∷ b'b' ∷ []; ops = driver; mounted = true; readonly = true }
      ∷ [];
  mount_count = 2;
  root_mount = some 0;
  files = no_file ∷ no_file ∷ [];
  dirs = no_dir ∷ [];
  world = (0, 3);
}

-- What is on the second device, which is mounted read-only.
abbrev second : ℕ × ℕ → ℕ
second w = w.1

from_some : {A : Type 0} (f g : A) (P : A → Type 0) → P f → some f ≡ some g → P g
from_some f g P p e = subst P (ap (λ o. elim o [ none ↦ f | some h ↦ h ]) e) p

driver-IsQuiet : (i : ℕ) → IsQuiet second driver i
driver-IsQuiet i = record {
  lookup =
      λ f e rel node w. from_some do_lookup f (λ g. second (g i rel node w).2 ≡ second w) refl e;
  stat = λ f e. absurd (ground arith);
  open_file = λ f e. absurd (ground arith);
  close_file = λ f e. absurd (ground arith);
  read = λ f e file size w. from_some do_read f (λ g. second (g file size w).3 ≡ second w) refl e;
  seek = λ f e. absurd (ground arith);
  opendir = λ f e. absurd (ground arith);
  closedir = λ f e. absurd (ground arith);
  readdir = λ f e. absurd (ground arith);
}

driver-IsElsewhere : IsElsewhere second driver 0
driver-IsElsewhere = record {
  create =
      λ f e rel kind w. from_some do_create f (λ g. second (g 0 rel kind w).1 ≡ second w) refl e;
  unlink = λ f e. absurd (ground arith);
  mkdir = λ f e. absurd (ground arith);
  rmdir = λ f e. absurd (ground arith);
  rename = λ f e. absurd (ground arith);
  write = λ f e file bytes w on.
      from_some do_write f (λ g. second (g file bytes w).2 ≡ second w)
        (ap (λ m. second (count_in m w)) on) e;
}

missing-IsGuarded : (i : ℕ) → IsGuarded second (mount_at system (suc (suc i))) (suc (suc i))
missing-IsGuarded i = record {
  reading = record {
    lookup = λ f e. absurd (ground arith);
    stat = λ f e. absurd (ground arith);
    open_file = λ f e. absurd (ground arith);
    close_file = λ f e. absurd (ground arith);
    read = λ f e. absurd (ground arith);
    seek = λ f e. absurd (ground arith);
    opendir = λ f e. absurd (ground arith);
    closedir = λ f e. absurd (ground arith);
    readdir = λ f e. absurd (ground arith);
  };
  changing = λ r. record {
    create = λ f e. absurd (ground arith);
    unlink = λ f e. absurd (ground arith);
    mkdir = λ f e. absurd (ground arith);
    rmdir = λ f e. absurd (ground arith);
    rename = λ f e. absurd (ground arith);
    write = λ f e. absurd (ground arith);
  };
}

system-IsGuarded : (i : ℕ) → IsGuarded second (mount_at system i) i
system-IsGuarded zero = record { reading = driver-IsQuiet 0; changing = λ r. driver-IsElsewhere }
system-IsGuarded (suc zero) = record {
  reading = driver-IsQuiet 1;
  changing = λ r. absurd (ground arith);
}
system-IsGuarded (suc (suc i)) = missing-IsGuarded i

-- A file is made on the first, one is refused on the second and opened there, and written to in vain.
abbrev on_a : List ℕ
on_a = b'/' ∷ b'a' ∷ b'/' ∷ b'x' ∷ []

abbrev on_b : List ℕ
on_b = b'/' ∷ b'b' ∷ b'/' ∷ b'x' ∷ []

abbrev changed : Vfs (ℕ × ℕ)
changed = (create (create system on_a).1 on_b).1

abbrev ended : Vfs (ℕ × ℕ)
ended = (write (open_path changed on_b 0).1 0 (1 ∷ [])).1

Run-Keeps_example : Keeps second system ended
Run-Keeps_example = Run-Keeps second system ended system-IsGuarded (
    next _ _
      (next _ _ (next _ _ (next _ _ here (created on_a)) (created on_b)) (opened on_b 0 refl))
      (wrote 0 (1 ∷ [])))

-- With VFS_O_CREAT the read-only mount point is changed.
opened_and_created : (open_path (record system { world = (0, 0) }) on_b o_creat).1.world ≡ (0, 1)
unfolding open_path open_in find_or_create locate find_mount best_from scanned has_prefix
    relative_path past_slashes normalize_path append_path start_buffer copy_component
opened_and_created = refl

ended_world : ended.world ≡ (1, 3)
unfolding open_path open_in find_or_create locate find_mount best_from scanned has_prefix
    relative_path past_slashes normalize_path append_path start_buffer copy_component change create
    write
ended_world = refl
