-- ===== src/Vfs/Path.antt =====
-- include/vfs.h: paths. A C string is the list of its bytes before the terminator; the buffer of
-- `vfs_normalize_path` is the list of its `len` bytes, the last one first.
use retrofuture_os.Base.{
  ℕ, zero, suc, ◌-◌, Bool, true, false, not, ◌&&◌, ◌||◌, List, [], ◌∷◌, length, drop, ltb, ◌==◌,
  if◌then◌else◌,
}
use mathlib.Core.List.{reverse}

abbrev pub max_path : ℕ
max_path = 256

abbrev pub slash : ℕ
slash = b'/'

abbrev pub dot : ℕ
dot = b'.'

-- `*p == '/'`
abbrev pub at_slash : List ℕ → Bool
at_slash [] = false
at_slash (c ∷ cs) = c == slash

-- `*p == '/' || *p == '\0'`
abbrev pub at_end : List ℕ → Bool
at_end [] = true
at_end (c ∷ cs) = c == slash

-- `if (*path == '/') path++;`
abbrev pub past_slash : List ℕ → List ℕ
past_slash [] = []
past_slash (c ∷ cs) = if c == slash then cs else c ∷ cs

abbrev pub is_dot : List ℕ → Bool
is_dot [] = false
is_dot (c ∷ cs) = c == dot && at_end cs

abbrev pub is_dotdot : List ℕ → Bool
is_dotdot [] = false
is_dotdot (c ∷ []) = false
is_dotdot (c ∷ (d ∷ cs)) = c == dot && (d == dot && at_end cs)

-- `while (len > 0 && buf[len-1] != '/') len--;`
abbrev pub to_slash : List ℕ → List ℕ
to_slash [] = []
to_slash (c ∷ buf) = if c == slash then c ∷ buf else to_slash buf

-- `Go up one level`
abbrev pub go_up : List ℕ → List ℕ
go_up buf = if ltb 1 (length buf) then to_slash (drop 1 buf) else buf

-- `Copy path component`: what is left of the path, and the buffer.
unfoldable pub copy_component : List ℕ → List ℕ → List ℕ × List ℕ
copy_component [] buf = ([], buf)
copy_component (c ∷ path) buf =
    let rest = copy_component path (c ∷ buf) in
    if c == slash || not (ltb (length buf) (max_path - 1)) then (c ∷ path, buf) else rest

-- The loop over the path. A round takes a byte of it at least, so its length is fuel enough.
unfoldable pub append_path : ℕ → List ℕ → List ℕ → List ℕ
append_path zero path buf = buf
append_path (suc fuel) path buf =
    let slashed = append_path fuel (drop 1 path) (if at_slash buf then buf else slash ∷ buf) in
    let skipped = append_path fuel (past_slash (drop 1 path)) buf in
    let upward = append_path fuel (past_slash (drop 2 path)) (go_up buf) in
    let (left, longer) = copy_component path buf in
    let copied = append_path fuel left longer in
    if length path == 0 || not (ltb (length buf) (max_path - 1))
    then buf
    else if at_slash path
    then slashed
    else if is_dot path
    then skipped
    else if is_dotdot path
    then upward
    else copied

-- `Handle relative paths`
unfoldable pub start_buffer : List ℕ → List ℕ → List ℕ
start_buffer path cwd =
    if at_slash path
    then []
    else let buf = reverse cwd in
      if not (length buf == 0) && not (at_slash buf) then slash ∷ buf else buf

unfoldable pub normalize_path : List ℕ → List ℕ → List ℕ
normalize_path path cwd =
    let buf = append_path (length path) path (start_buffer path cwd) in
    if length buf == 0 then slash ∷ [] else reverse buf

-- `vfs_strncmp(path, prefix, vfs_strlen(prefix)) == 0`
unfoldable pub has_prefix : List ℕ → List ℕ → Bool
has_prefix path [] = true
has_prefix [] (q ∷ prefix) = false
has_prefix (p ∷ path) (q ∷ prefix) = p == q && has_prefix path prefix

-- `while (*path == '/') path++;`
unfoldable pub past_slashes : List ℕ → List ℕ
past_slashes [] = []
past_slashes (c ∷ path) = let rest = past_slashes path in if c == slash then rest else c ∷ path

unfoldable pub relative_path : List ℕ → List ℕ → List ℕ
relative_path mount_path path =
    if has_prefix path mount_path then past_slashes (drop (length mount_path) path) else path
