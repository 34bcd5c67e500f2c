-- ===== src/Fat12/Format.antt =====
-- include/fat12_write.h: for which sizes `fat12_calc_params` returns, and what it then gives.
use retrofuture_os.Base.{
  ℕ, zero, suc, ◌+◌, ◌-◌, ◌*◌, ◌/◌, ◌≤◌, ◌<◌, ◌⊎◌, inl, inr, none, some, ◌≡◌, refl, arith, leb,
  true, false, Bool-cases,
}
use retrofuture_os.Fat12.Params.{
  Params, geometry, is_over_limit, params_of, calc_params, root_sectors_of,
}

-- The number of clusters of a format, as fat12_mount computes it.
abbrev pub clusters_of : Params → ℕ
clusters_of p =
    (p.total_sectors - (1 + 2 * p.sectors_per_fat + root_sectors_of p.root_entry_count))
    / p.sectors_per_cluster

-- Everything lies on the disk, no cluster has a number with another meaning, and each has its
-- entry of a byte and a half in the table.
pub record Fits (total : ℕ) (p : Params) : Type 0 where
  pub whole : p.total_sectors ≡ total
  pub on_disk :
      1
        + 2 * p.sectors_per_fat
        + root_sectors_of p.root_entry_count
        + clusters_of p * p.sectors_per_cluster
      ≤ total
  pub few : clusters_of p ≤ 4084
  pub has_entries : (clusters_of p + 2) * 3 ≤ p.sectors_per_fat * 512 * 2

-- With one sector in a cluster the layout fits.
one_sector_layout :
    (volume_id total track heads media : ℕ) (entries : ℕ)
    → ((entries ≡ 224) × (total ≤ 2880)) ⊎ (entries ≡ 512)
    → root_sectors_of entries + 3 ≤ total
    → total ≤ 4143
    → geometry total ≡ (1, entries, track, heads, media)
    → (is_over_limit total ≡ false) × Fits total (params_of volume_id total)
unfolding is_over_limit params_of
one_sector_layout volume_id total track heads media entries (inl (e, few)) low high g =
    rw (g, e)
      (
        ground arith,
        record {
          whole = refl;
          on_disk = omega arith;
          few = omega arith;
          has_entries = omega arith;
        },
      )
one_sector_layout volume_id total track heads media entries (inr e) low high g =
    rw (g, e)
      (
        ground arith,
        record {
          whole = refl;
          on_disk = omega arith;
          few = omega arith;
          has_entries = omega arith;
        },
      )

floppy_geometry : (total : ℕ) → total ≤ 2880 → geometry total ≡ (1, 224, 18, 2, 0xF0)
unfolding geometry
floppy_geometry total h = let b : leb total 2880 ≡ true = ground arith in rw b refl

small_geometry : (total : ℕ) → 2880 < total → total ≤ 8192 → geometry total ≡ (1, 512, 32, 16, 0xF8)
unfolding geometry
small_geometry total h k =
    let b : leb total 2880 ≡ false = ground arith in
    let c : leb total 8192 ≡ true = ground arith in rw (b, c) refl

layout_lem :
    (volume_id total : ℕ)
    → 17 ≤ total
    → total ≤ 4143
    → (is_over_limit total ≡ false) × Fits total (params_of volume_id total)
layout_lem volume_id total low high = elim (Bool-cases (leb total 2880)) [
  | inl floppy ↦
      one_sector_layout volume_id total 18 2 0xF0 224 (inl (refl, ground arith)) (omega arith) high
        (floppy_geometry total (ground arith))
  | inr larger ↦
      one_sector_layout volume_id total 32 16 0xF8 512 (inr refl) (ground arith) high
        (small_geometry total (ground arith) (omega arith))
]

-- On 17 to 4143 sectors fat12_calc_params returns without a second round, and the layout fits.
pub calc_params-Fits :
    (fuel volume_id total : ℕ)
    → 17 ≤ total
    → total ≤ 4143
    → (p : Params) × (calc_params (suc fuel) volume_id total ≡ some p) × Fits total p
unfolding calc_params
calc_params-Fits fuel volume_id total low high =
    let (small, fit) = layout_lem volume_id total low high in
    (params_of volume_id total, rw small refl, fit)

medium_geometry :
    (total : ℕ) → 8192 < total → total ≤ 16384 → geometry total ≡ (2, 512, 32, 16, 0xF8)
unfolding geometry
medium_geometry total h k =
    let b : leb total 2880 ≡ false = ground arith in
    let c : leb total 8192 ≡ false = ground arith in
    let d : leb total 16384 ≡ true = ground arith in rw (b, c, d) refl

large_geometry : (total : ℕ) → 16384 < total → geometry total ≡ (4, 512, 63, 16, 0xF8)
unfolding geometry
large_geometry total h =
    let b : leb total 2880 ≡ false = ground arith in
    let c : leb total 8192 ≡ false = ground arith in
    let d : leb total 16384 ≡ false = ground arith in rw (b, c, d) refl

-- The sizes up to the limit of 32680 sectors for which there are more than 4084 clusters at first.
abbrev pub IsTooFine : ℕ → Type 0
IsTooFine total =
    ((4144 ≤ total) × (total ≤ 8192))
    ⊎ (((8229 ≤ total) × (total ≤ 16384)) ⊎ ((16397 ≤ total) × (total ≤ 32680)))

too_fine : (total : ℕ) → IsTooFine total → is_over_limit total ≡ true
unfolding is_over_limit
too_fine total (inl (a, b)) = rw (small_geometry total (omega arith) b) (ground arith)
too_fine total (inr (inl (a, b))) = rw (medium_geometry total (omega arith) b) (ground arith)
too_fine total (inr (inr (a, b))) = rw (large_geometry total (omega arith)) (ground arith)

-- On 4144 to 8192, 8229 to 16384 or 16397 to 32680 sectors fat12_calc_params never returns.
pub calc_params_diverges :
    (fuel volume_id total : ℕ) → IsTooFine total → calc_params fuel volume_id total ≡ none
unfolding calc_params
calc_params_diverges zero volume_id total h = refl
calc_params_diverges (suc fuel) volume_id total h =
    rw (too_fine total h) (calc_params_diverges fuel volume_id total h)
