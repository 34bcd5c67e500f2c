-- ===== src/Fat12/Walk.antt =====
-- include/fat12.h: reading the root directory ends (`fat12_read_dir`).
use retrofuture_os.Base.{
  ℕ, zero, suc, ◌+◌, ◌*◌, ◌^◌, ◌≤◌, ◌<◌, true, Option, none, some, ◌≡◌, ◌⊎◌, inl, inr, refl, ap,
  ◌∙◌, arith, Bool-cases, leb, if◌then◌else◌, add32, ◌==◌,
}
use retrofuture_os.Fat12.Types.{Fs, Dirent}
use retrofuture_os.Fat12.Table.{load}
use retrofuture_os.Fat12.Dir.{
  Dir, Seen, finish, skip, found, seen_at, advance, check_bounds, fetch, read_dir, dirent_at,
}

Seen-cases : (s : Seen) → (s ≡ finish) ⊎ ((s ≡ skip) ⊎ (s ≡ found))
Seen-cases finish = inl refl
Seen-cases skip = inr (inl refl)
Seen-cases found = inr (inr refl)

-- The number of the entry that an iterator stands at, counted from sector 0.
abbrev pub place : Dir → ℕ
place dir = dir.sector * 16 + dir.entry

advance-place :
    (dir : Dir)
    → dir.entry < 16
    → dir.sector + 1 < 2 ^ 32
    → (place (advance dir) ≡ place dir + 1)
      × ((advance dir).entry < 16)
      × ((advance dir).is_root ≡ dir.is_root)
unfolding advance
advance-place dir h q = elim (Bool-cases (leb 16 (dir.entry + 1))) [
  | inl last ↦ rw last (ground arith, omega arith, refl)
  | inr more ↦ rw more (omega arith, ground arith, refl)
]

module _ {W : Type 0} where
  fetch-root :
      (fs : Fs W) (dir : Dir)
      → ((fetch fs dir).root_start ≡ fs.root_start)
        × ((fetch fs dir).root_sectors ≡ fs.root_sectors)
  unfolding fetch load
  fetch-root fs dir = elim (Bool-cases (dir.entry == 0)) [
    | inl e ↦ rw e (refl, refl)
    | inr e ↦ rw e (refl, refl)
  ]

  check_bounds-root :
      (fs : Fs W) (dir : Dir)
      → dir.is_root ≡ true
      → check_bounds fs dir ≡ (
          if leb (add32 fs.root_start fs.root_sectors) dir.sector
          then (none, fs)
          else (some dir, fs))
  unfolding check_bounds
  check_bounds-root fs dir root = rw root refl

  skip_round :
      (fuel : ℕ) (fs : Fs W) (dir : Dir)
      → check_bounds fs dir ≡ (some dir, fs)
      → seen_at (fetch (check_bounds fs dir).1 dir).sector_buf (dir.entry * 32) ≡ skip
      → read_dir (suc fuel) fs dir ≡ read_dir fuel (fetch (check_bounds fs dir).1 dir) (advance dir)
  unfolding read_dir
  skip_round fuel fs dir bounds e = rw (read_dir, ap (λ p. p.0) bounds) (rw e refl)

  -- From a place in the root directory fat12_read_dir returns: each round goes one entry on, so it
  -- needs no more rounds than there are entries from there to the end, and one to notice the end. The
  -- place is one of the 16 entries of a sector, and the sectors of the directory end below 2 ^ 32.
  pub read_dir-returns :
      (fuel : ℕ) (fs : Fs W) (dir : Dir)
      → dir.is_root ≡ true
      → dir.entry < 16
      → fs.root_start + fs.root_sectors < 2 ^ 32
      → (fs.root_start + fs.root_sectors) * 16 < fuel + place dir
      → 1 ≤ fuel
      → (r : Option Dirent × Dir × Fs W) × (read_dir fuel fs dir ≡ some r)
  unfolding read_dir
  read_dir-returns zero fs dir root low small enough some_fuel = absurd (omega arith)
  read_dir-returns (suc fuel) fs dir root low small enough some_fuel =
      elim (Bool-cases (leb (add32 fs.root_start fs.root_sectors) dir.sector)) [
        | inl over ↦ (
          (none, dir, fs),
          let bounds : check_bounds fs dir ≡ (none, fs) =
                check_bounds-root fs dir root ∙ rw over refl in
              rw (read_dir, bounds) (ap (λ left. some (none, dir, left)) (ap (λ p. p.1) bounds)),
        )
        | inr inside ↦
            let bounds : check_bounds fs dir ≡ (some dir, fs) =
              check_bounds-root fs dir root ∙ rw inside refl in
            let kept : (check_bounds fs dir).1 ≡ fs = ap (λ p. p.1) bounds in
            let fs1 = (check_bounds fs dir).1 in
            let fs2 = fetch fs1 dir in
            elim (Seen-cases (seen_at fs2.sector_buf (dir.entry * 32))) [
              | inl e ↦ (
                (none, advance dir, fs2),
                rw (read_dir, bounds) (rw e (ap (λ v. some (none, advance dir, fetch v dir)) kept)),
              )
              | inr (inr e) ↦ (
                (some (dirent_at fs2.sector_buf (dir.entry * 32)), advance dir, fs2),
                rw (read_dir, bounds)
                    (rw e (
                      ap
                        (λ v. some (
                          some (dirent_at (fetch v dir).sector_buf (dir.entry * 32)),
                          advance dir,
                          fetch v dir,
                        ))
                        kept)),
              )
              | inr (inl e) ↦
                  let (moved, low', root') = advance-place dir low (ground arith) in
                  let (start, sectors) = fetch-root fs1 dir in
                  let start' : fs2.root_start ≡ fs.root_start =
                    start ∙ ap (λ v. v.root_start) kept in
                  let sectors' : fs2.root_sectors ≡ fs.root_sectors =
                    sectors ∙ ap (λ v. v.root_sectors) kept in
                  let (r, done) =
                    read_dir-returns fuel fs2 (advance dir) (root' ∙ root) low' (omega arith)
                      (omega arith) (ground arith) in
                  (r, skip_round fuel fs dir bounds e ∙ done)
            ]
      ]
