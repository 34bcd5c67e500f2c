-- ===== src/Fat12/Dir.antt =====
-- include/fat12.h: reading directories, finding a name in them, following a path.
-- A directory's chain may run in a circle, so the loops take fuel: none where it does not suffice.
use retrofuture_os.Base.{
  ℕ, zero, suc, ◌+◌, ◌*◌, ◌^◌, Bool, true, false, ◌||◌, Option, none, some, List, [], ◌∷◌, Memory,
  peek, leb, ◌==◌, if◌then◌else◌, has_flag, add32,
}
use retrofuture_os.Fat12.Types.{Fs, Dirent, word, attr_directory, attr_lfn, deleted_mark}
use retrofuture_os.Fat12.Table.{load, read_fat, is_eof, cluster_to_sector}
use retrofuture_os.Fat12.Names.{string_to_name, name_match}

-- `fs` is passed beside the iterator.
pub record Dir : Type 0 where
  pub sector : ℕ
  pub entry : ℕ
  pub cluster : ℕ
  pub is_root : Bool

-- The fields of the packed structure at an address.
unfoldable pub dirent_at : Memory → ℕ → Dirent
dirent_at m a = record {
  name = peek m a 8;
  ext = peek m (a + 8) 3;
  attributes = m (a + 11);
  cluster_high = word m (a + 20);
  cluster_low = word m (a + 26);
  file_size = word m (a + 28) + word m (a + 30) * 2 ^ 16;
}

unfoldable pub is_dir : Dirent → Bool
is_dir de = has_flag de.attributes attr_directory

-- `dir->entry++` and what follows it.
unfoldable pub advance : Dir → Dir
advance dir =
    if leb 16 (dir.entry + 1)
    then record dir { entry = 0; sector = add32 dir.sector 1 }
    else record dir { entry = dir.entry + 1 }

-- What an entry makes `fat12_read_dir` do.
pub data Seen : Type 0 where
  finish skip found : Seen

unfoldable pub seen_at : Memory → ℕ → Seen
seen_at m a =
    if m a == 0
    then finish
    else if m a == deleted_mark || m (a + 11) == attr_lfn
    then skip
    else found

module _ {W : Type 0} where
  unfoldable pub open_root : Fs W → Dir
  open_root fs = record { sector = fs.root_start; entry = 0; cluster = 0; is_root = true }

  unfoldable pub open_dir : Fs W → ℕ → Dir
  open_dir fs cluster = record {
    sector = cluster_to_sector fs cluster;
    entry = 0;
    cluster = cluster;
    is_root = false;
  }

  -- The bounds check at the head of the loop: none at the end of the directory.
  unfoldable pub check_bounds : Fs W → Dir → Option Dir × Fs W
  check_bounds fs dir =
      let (next, fs') = read_fat fs dir.cluster in
      if dir.is_root
      then if leb (add32 fs.root_start fs.root_sectors) dir.sector
        then (none, fs)
        else (some dir, fs)
      else if leb (add32 (cluster_to_sector fs dir.cluster) fs.bpb.sectors_per_cluster) dir.sector
      then if is_eof next
        then (none, fs')
        else (some (record dir { cluster = next; sector = cluster_to_sector fs' next }), fs')
      else (some dir, fs)

  -- `Read sector if needed`
  unfoldable pub fetch : Fs W → Dir → Fs W
  fetch fs dir = if dir.entry == 0 then load fs dir.sector else fs

  -- The entry is none where the source returns false.
  unfoldable pub read_dir : ℕ → Fs W → Dir → Option (Option Dirent × Dir × Fs W)
  read_dir zero fs dir = none
  read_dir (suc fuel) fs dir =
      let (inside, fs1) = check_bounds fs dir in
      elim inside [
        | none ↦ some (none, dir, fs1)
        | some d ↦
            let fs2 = fetch fs1 d in
            elim (seen_at fs2.sector_buf (d.entry * 32)) [
              | finish ↦ some (none, advance d, fs2)
              | skip ↦ read_dir fuel fs2 (advance d)
              | found ↦ some (some (dirent_at fs2.sector_buf (d.entry * 32)), advance d, fs2)
            ]
      ]

  -- The loop of `fat12_find_in_dir`; each of its steps reads one entry.
  unfoldable pub find_from :
      ℕ → ℕ → Fs W → Dir → List ℕ → List ℕ → Option (Option Dirent × Dir × Fs W)
  find_from zero inner fs dir name ext = none
  find_from (suc fuel) inner fs dir name ext = elim (read_dir inner fs dir) [
    | none ↦ none
    | some (none, dir', fs') ↦ some (none, dir', fs')
    | some (some de, dir', fs') ↦
        let rest = find_from fuel inner fs' dir' name ext in
        if name_match de name ext then some (some de, dir', fs') else rest
  ]

  unfoldable pub find_in_dir : ℕ → Fs W → Dir → List ℕ → Option (Option Dirent × Dir × Fs W)
  find_in_dir fuel fs dir filename =
      let (name, ext) = string_to_name filename in find_from fuel fuel fs dir name ext

-- A component of a path of at most `n` characters, and what is left.
unfoldable pub component : ℕ → List ℕ → List ℕ × List ℕ
component zero path = ([], path)
component (suc n) [] = ([], [])
component (suc n) (c ∷ path) =
    let (part, rest) = component n path in if c == b'/' then ([], c ∷ path) else (c ∷ part, rest)

-- `if (*path == '/') path++;`
unfoldable pub skip_slash : List ℕ → List ℕ
skip_slash [] = []
skip_slash (c ∷ path) = if c == b'/' then path else c ∷ path
