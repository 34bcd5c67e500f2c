-- ===== src/Fat12/Params.antt =====
-- include/fat12_write.h: the parameters of a format (`fat12_calc_params`). The counters of the
-- timer that `fat12_generate_volume_id` reads are the argument `volume_id`.
use retrofuture_os.Base.{
  ℕ, zero, suc, ◌+◌, ◌*◌, ◌/◌, ◌%◌, ◌^◌, Option, none, some, List, [], ◌∷◌, Bool, ltb, leb,
  if◌then◌else◌, sub32,
}
use retrofuture_os.Fat12.Names.{copy_padded}

pub record Params : Type 0 where
  pub total_sectors : ℕ
  pub bytes_per_sector : ℕ
  pub sectors_per_cluster : ℕ
  pub reserved_sectors : ℕ
  pub num_fats : ℕ
  pub root_entry_count : ℕ
  pub sectors_per_fat : ℕ
  pub sectors_per_track : ℕ
  pub num_heads : ℕ
  pub media_type : ℕ
  pub volume_label : List ℕ
  pub volume_id : ℕ

abbrev pub no_name : List ℕ
no_name = b'N' ∷ b'O' ∷ b' ' ∷ b'N' ∷ b'A' ∷ b'M' ∷ b'E' ∷ []

-- The table of sizes: sectors per cluster, root entries, sectors per track, heads, media type.
unfoldable pub geometry : ℕ → ℕ × ℕ × ℕ × ℕ × ℕ
geometry total =
    if leb total 2880
    then (1, 224, 18, 2, 0xF0)
    else if leb total 8192
    then (1, 512, 32, 16, 0xF8)
    else if leb total 16384
    then (2, 512, 32, 16, 0xF8)
    else (4, 512, 63, 16, 0xF8)

abbrev pub root_sectors_of : ℕ → ℕ
root_sectors_of entries = (entries * 32 + 511) / 512

-- `total_sectors - reserved_sectors - root_sectors`
abbrev pub data_sectors_of : ℕ → ℕ → ℕ
data_sectors_of total entries = sub32 (sub32 total 1) (root_sectors_of entries)

abbrev pub sectors_per_fat_of : ℕ → ℕ → ℕ
sectors_per_fat_of sectors per_cluster =
    (((sectors / per_cluster * 3 + 1) % 2 ^ 32 / 2 + 3 + 511) % 2 ^ 32 / 512) % 2 ^ 16

abbrev pub final_clusters_of : ℕ → ℕ → ℕ
final_clusters_of sectors per_cluster =
    sub32 sectors (2 * sectors_per_fat_of sectors per_cluster) / per_cluster

-- The fields as they stand when the number of clusters is tested, and the label and serial number
-- of the end.
unfoldable pub params_of : ℕ → ℕ → Params
params_of volume_id total =
    let (per_cluster, entries, track, heads, media) = geometry total in
    record {
      total_sectors = total;
      bytes_per_sector = 512;
      sectors_per_cluster = per_cluster;
      reserved_sectors = 1;
      num_fats = 2;
      root_entry_count = entries;
      sectors_per_fat = sectors_per_fat_of (data_sectors_of total entries) per_cluster;
      sectors_per_track = track;
      num_heads = heads;
      media_type = media;
      volume_label = copy_padded no_name 11;
      volume_id = volume_id;
    }

-- `final_clusters > 4084`
unfoldable pub is_over_limit : ℕ → Bool
is_over_limit total =
    let (per_cluster, entries, _, _, _) = geometry total in
    ltb 4084 (final_clusters_of (data_sectors_of total entries) per_cluster)

-- A call that would recalculate starts the same calculation again, which sets every field anew.
unfoldable pub calc_params : ℕ → ℕ → ℕ → Option Params
calc_params zero volume_id total = none
calc_params (suc fuel) volume_id total =
    let again = calc_params fuel volume_id total in
    if is_over_limit total then again else some (params_of volume_id total)
