-- ===== src/Fat12/Names.antt =====
-- include/fat12.h and include/fat12_write.h: names of eight and three characters.
use retrofuture_os.Base.{
  ℕ, zero, suc, ◌-◌, ◌≤◌, Bool, true, false, not, ◌&&◌, ◌≡◌, refl, sym, ap, ap₂, ◌∙◌, List, [], ◌∷◌,
  ◌++◌, map, append-nil, arith, length, leb, ◌==◌, if◌then◌else◌,
}
use retrofuture_os.Fat12.Types.{Dirent}

-- `if (c >= 'a' && c <= 'z') c -= 32;`
abbrev pub upper : ℕ → ℕ
upper c = if leb b'a' c && leb c b'z' then c - 32 else c

-- A field of `n` bytes: spaces, and then the list copied over them.
unfoldable pub pad : ℕ → List ℕ → List ℕ
pad zero cs = []
pad (suc n) [] = b' ' ∷ pad n []
pad (suc n) (c ∷ cs) = c ∷ pad n cs

unfoldable pub copy_padded : List ℕ → ℕ → List ℕ
copy_padded src len = pad len (map upper src)

-- The loop over the name part: the characters that are copied, at most `n`, and what is left.
unfoldable pub copy_stem : ℕ → List ℕ → List ℕ × List ℕ
copy_stem zero str = ([], str)
copy_stem (suc n) [] = ([], [])
copy_stem (suc n) (c ∷ cs) =
    let (stem, rest) = copy_stem n cs in if c == b'.' then ([], c ∷ cs) else (upper c ∷ stem, rest)

-- The loop to the extension: what stands behind the first point.
unfoldable pub after_point : List ℕ → List ℕ
after_point [] = []
after_point (c ∷ cs) = if c == b'.' then cs else after_point cs

unfoldable pub string_to_name : List ℕ → List ℕ × List ℕ
string_to_name str =
    let (stem, rest) = copy_stem 8 str in (pad 8 stem, pad 3 (map upper (after_point rest)))

-- The loops of `fat12_name_to_string`, over an array of the field's length.
unfoldable pub until_space : List ℕ → List ℕ
until_space [] = []
until_space (c ∷ cs) = if c == b' ' then [] else c ∷ until_space cs

abbrev pub starts_with_space : List ℕ → Bool
starts_with_space [] = true
starts_with_space (c ∷ cs) = c == b' '

-- What the array `out` holds as a C string: the bytes before the first zero.
unfoldable pub until_nul : List ℕ → List ℕ
until_nul [] = []
until_nul (c ∷ cs) = let rest = until_nul cs in if c == 0 then [] else c ∷ rest

unfoldable pub name_to_string : Dirent → List ℕ
unfolding until_nul
name_to_string de = until_nul (
    if starts_with_space de.ext
    then until_space de.name
    else until_space de.name ++ (b'.' ∷ until_space de.ext))

-- The comparison of two fields of `n` bytes.
unfoldable pub bytes_eq : List ℕ → List ℕ → Bool
bytes_eq [] [] = true
bytes_eq (x ∷ xs) (y ∷ ys) = x == y && bytes_eq xs ys
bytes_eq [] (y ∷ ys) = false
bytes_eq (x ∷ xs) [] = false

unfoldable pub name_match : Dirent → List ℕ → List ℕ → Bool
name_match de name ext = bytes_eq de.name name && bytes_eq de.ext ext

-- A character that stands for itself in a name.
abbrev pub is_plain : ℕ → Bool
is_plain c = not (c == 0) && (not (c == b' ') && (not (c == b'.') && (upper c == c)))

abbrev pub all_plain : List ℕ → Bool
all_plain [] = true
all_plain (c ∷ cs) = is_plain c && all_plain cs

until_space-pad_nil : (n : ℕ) → until_space (pad n []) ≡ []
unfolding until_space pad
until_space-pad_nil zero = refl
until_space-pad_nil (suc n) = refl

until_space-pad :
    (n : ℕ) (cs : List ℕ) → length cs ≤ n → all_plain cs ≡ true → until_space (pad n cs) ≡ cs
unfolding until_space pad
until_space-pad n [] h p = until_space-pad_nil n
until_space-pad zero (c ∷ cs) h p = absurd (omega arith)
until_space-pad (suc n) (c ∷ cs) h p =
    let rec = until_space-pad n cs (omega arith) (ground arith) in
    let ne : (c == b' ') ≡ false = ground arith in rw ne (ap (λ t. c ∷ t) rec)

until_nul-plain :
    (cs rest : List ℕ) → all_plain cs ≡ true → until_nul (cs ++ rest) ≡ cs ++ until_nul rest
unfolding until_nul
until_nul-plain [] rest p = refl
until_nul-plain (c ∷ cs) rest p =
    let byte : (c == 0) ≡ false = ground arith in
    rw byte (ap (λ t. c ∷ t) (until_nul-plain cs rest (ground arith)))

until_nul_all : (cs : List ℕ) → all_plain cs ≡ true → until_nul cs ≡ cs
until_nul_all cs p =
    ap until_nul (sym (append-nil cs))
    ∙ until_nul-plain cs [] p
    ∙ ap (λ t. cs ++ t) nul_nil
    ∙ append-nil cs
  where
    nul_nil : until_nul [] ≡ []
    nul_nil = unfold until_nul in refl

map-upper : (cs : List ℕ) → all_plain cs ≡ true → map upper cs ≡ cs
map-upper [] p = refl
map-upper (c ∷ cs) p = ap₂ ◌∷◌ (ground arith) (map-upper cs (ground arith))

-- Behind the name part the string has ended, or a point stands there.
copy_stem_all :
    (n : ℕ) (cs rest : List ℕ)
    → length cs ≤ n
    → all_plain cs ≡ true
    → ((k : ℕ) → copy_stem k rest ≡ ([], rest))
    → copy_stem n (cs ++ rest) ≡ (cs, rest)
unfolding copy_stem
copy_stem_all n [] rest h p stop = stop n
copy_stem_all zero (c ∷ cs) rest h p stop = absurd (omega arith)
copy_stem_all (suc n) (c ∷ cs) rest h p stop =
    let rec = copy_stem_all n cs rest (omega arith) (ground arith) stop in
    let point : (c == b'.') ≡ false = ground arith in
    let same : upper c ≡ c = ground arith in rw (rec, point) (ap (λ x. (x ∷ cs, rest)) same)

stop_nil : (k : ℕ) → copy_stem k [] ≡ ([], [])
unfolding copy_stem
stop_nil zero = refl
stop_nil (suc k) = refl

stop_point : (ext : List ℕ) (k : ℕ) → copy_stem k (b'.' ∷ ext) ≡ ([], b'.' ∷ ext)
unfolding copy_stem
stop_point ext zero = refl
stop_point ext (suc k) = refl

-- The entry of a file with the given name and extension.
abbrev pub named : List ℕ → List ℕ → Dirent
named stem ext = record {
  name = pad 8 stem;
  ext = pad 3 ext;
  attributes = 0;
  cluster_low = 0;
  cluster_high = 0;
  file_size = 0;
}

module _ (stem : List ℕ) (hs : length stem ≤ 8) (ps : all_plain stem ≡ true) where
  printed_nil : name_to_string (named stem []) ≡ stem
  unfolding name_to_string pad
  printed_nil = ap until_nul (until_space-pad 8 stem hs ps) ∙ until_nul_all stem ps

  parsed_nil : string_to_name stem ≡ (pad 8 stem, pad 3 [])
  unfolding string_to_name after_point
  parsed_nil =
      let parts =
        ap (copy_stem 8) (sym (append-nil stem)) ∙ copy_stem_all 8 stem [] hs ps stop_nil in
      rw parts refl

  point_first : (ext : List ℕ) → all_plain ext ≡ true → until_nul (b'.' ∷ ext) ≡ b'.' ∷ ext
  unfolding until_nul
  point_first ext pe = ap (λ t. b'.' ∷ t) (until_nul_all ext pe)

  printed_cons :
      (c : ℕ) (cs : List ℕ)
      → length (c ∷ cs) ≤ 3
      → all_plain (c ∷ cs) ≡ true
      → name_to_string (named stem (c ∷ cs)) ≡ stem ++ (b'.' ∷ (c ∷ cs))
  unfolding name_to_string pad
  printed_cons c cs he pe =
      let shown : (c == b' ') ≡ false = ground arith in
      rw shown (
        ap₂ (λ x y. until_nul (x ++ (b'.' ∷ y))) (until_space-pad 8 stem hs ps)
          (until_space-pad 3 (c ∷ cs) he pe)
        ∙ until_nul-plain stem (b'.' ∷ (c ∷ cs)) ps
        ∙ ap (λ t. stem ++ t) (point_first (c ∷ cs) pe))

  parsed_cons :
      (ext : List ℕ)
      → all_plain ext ≡ true
      → string_to_name (stem ++ (b'.' ∷ ext)) ≡ (pad 8 stem, pad 3 ext)
  unfolding string_to_name after_point
  parsed_cons ext pe =
      rw (copy_stem_all 8 stem (b'.' ∷ ext) hs ps (stop_point ext))
        (ap (λ e. (pad 8 stem, pad 3 e)) (map-upper ext pe))

-- A name of at most eight characters with an extension of at most three, none of them zero, a
-- space, a point or a small letter, survives fat12_name_to_string followed by fat12_string_to_name.
pub string_to_name-name_to_string :
    (stem ext : List ℕ)
    → length stem ≤ 8
    → length ext ≤ 3
    → all_plain stem ≡ true
    → all_plain ext ≡ true
    → string_to_name (name_to_string (named stem ext)) ≡ (pad 8 stem, pad 3 ext)
string_to_name-name_to_string stem [] hs he ps pe =
    ap string_to_name (printed_nil stem hs ps) ∙ parsed_nil stem hs ps
string_to_name-name_to_string stem (c ∷ cs) hs he ps pe =
    ap string_to_name (printed_cons stem hs ps c cs he pe) ∙ parsed_cons stem hs ps (c ∷ cs) pe
