-- ===== src/Fat12/Chain.antt =====
-- include/fat12.h: chains of clusters in a table, as lists.
use retrofuture_os.Base.{
  ℕ, suc, ◌<◌, Bool, true, false, ◌||◌, ◌≡◌, refl, sym, ap, subst, ◌∙◌, inl, inr, List, [], ◌∷◌,
  ◌++◌, arith, Bool-cases, length, ◌==◌, if◌then◌else◌,
}
use retrofuture_os.Fat12.Table.{in_chain}

-- Following `next` from `c` passes through the clusters `xs` and ends at `e`.
abbrev pub Run : (ℕ → ℕ) → ℕ → List ℕ → ℕ → Type 0
Run next c [] e = c ≡ e
Run next c (x ∷ xs) e = (x ≡ c) × (in_chain c ≡ true) × Run next (next c) xs e

-- Whether a cluster is among those of a chain.
abbrev pub mem : ℕ → List ℕ → Bool
mem d [] = false
mem d (x ∷ xs) = d == x || mem d xs

-- `next` with the entry of one cluster changed.
abbrev pub relink : (ℕ → ℕ) → ℕ → ℕ → ℕ → ℕ
relink next c v d = if d == c then v else next d

pub Run-ext :
    (f g : ℕ → ℕ) (c : ℕ) (xs : List ℕ) (e : ℕ)
    → ((d : ℕ) → g d ≡ f d)
    → Run f c xs e
    → Run g c xs e
Run-ext f g c [] e h run = run
Run-ext f g c (x ∷ xs) e h (same, inside, rest) =
    (same, inside, Run-ext f g (g c) xs e h (subst (λ n. Run f n xs e) (sym (h c)) rest))

pub Run-append :
    (f : ℕ → ℕ) (c : ℕ) (xs ys : List ℕ) (d e : ℕ)
    → Run f c xs d
    → Run f d ys e
    → Run f c (xs ++ ys) e
Run-append f c [] ys d e p q = subst (λ n. Run f n ys e) (sym p) q
Run-append f c (x ∷ xs) ys d e (same, inside, rest) q =
    (same, inside, Run-append f (f c) xs ys d e rest q)

-- A cluster that is no cluster of a chain ends it at once.
outside_end : (f : ℕ → ℕ) (c : ℕ) (xs : List ℕ) (e : ℕ) → in_chain c ≡ false → Run f c xs e → c ≡ e
outside_end f c [] e out run = run
outside_end f c (x ∷ xs) e out (same, inside, rest) = ground arith

-- A free entry is not met by a chain that ends elsewhere, so it can be changed.
pub Run-relink-free :
    (f : ℕ → ℕ) (z v c : ℕ) (xs : List ℕ) (e : ℕ)
    → f z ≡ 0
    → 0 < e
    → Run f c xs e
    → Run (relink f z v) c xs e
Run-relink-free f z v c [] e free pos run = run
Run-relink-free f z v c (x ∷ xs) e free pos (same, inside, rest) = elim (Bool-cases (c == z)) [
  | inl at ↦
      let zeroed : f c ≡ 0 = ap f (ground arith) ∙ free in
      let ended = outside_end f (f c) xs e (rw zeroed refl) rest in absurd (omega arith)
  | inr ne ↦
      let kept : relink f z v c ≡ f c = rw ne refl in
      (
        same,
        inside,
        subst (λ n. Run (relink f z v) n xs e) (sym kept)
            (Run-relink-free f z v (f c) xs e free pos rest),
      )
]

starts_inside :
    (f : ℕ → ℕ) (c : ℕ) (xs : List ℕ) (last e : ℕ)
    → Run f c (xs ++ (last ∷ [])) e
    → in_chain c ≡ true
starts_inside f c [] last e (same, inside, rest) = inside
starts_inside f c (x ∷ xs) last e (same, inside, rest) = inside

-- The last entry of a chain decides where it goes on.
pub Run-relink-last :
    (f : ℕ → ℕ) (last new c : ℕ) (xs : List ℕ) (e : ℕ)
    → f last ≡ e
    → in_chain e ≡ false
    → Run f c (xs ++ (last ∷ [])) e
    → Run (relink f last new) c (xs ++ (last ∷ [])) new
Run-relink-last f last new c [] e at out (same, inside, rest) = (same, inside, ground arith)
Run-relink-last f last new c (x ∷ xs) e at out (same, inside, rest) =
    elim (Bool-cases (c == last)) [
      | inl here ↦
          let arrived : f c ≡ e = ap f (ground arith) ∙ at in
          let goes_on = starts_inside f (f c) xs last e rest in
          let goes_on' : in_chain e ≡ true = sym (ap in_chain arrived) ∙ goes_on in absurd (cc)
      | inr ne ↦
          let kept : relink f last new c ≡ f c = rw ne refl in
          (
            same,
            inside,
            subst (λ n. Run (relink f last new) n (xs ++ (last ∷ [])) new) (sym kept)
                (Run-relink-last f last new (f c) xs e at out rest),
          )
    ]

-- The clusters of a chain are determined by its start.
pub Run-length :
    (f : ℕ → ℕ) (c : ℕ) (xs ys : List ℕ) (e : ℕ)
    → in_chain e ≡ false
    → Run f c xs e
    → Run f c ys e
    → length xs ≡ length ys
Run-length f c [] [] e out p q = refl
Run-length f c [] (y ∷ ys) e out p (same, inside, rest) = let q = ap in_chain p in absurd (cc)
Run-length f c (x ∷ xs) [] e out (same, inside, rest) q = let q' = ap in_chain q in absurd (cc)
Run-length f c (x ∷ xs) (y ∷ ys) e out (s, i, p) (s', i', q) =
    ap suc (Run-length f (f c) xs ys e out p q)

-- A chain that is shorter than the chain from `z` does not meet `z`.
pub Run-relink-short :
    (f : ℕ → ℕ) (z v c : ℕ) (xs zs : List ℕ) (e : ℕ)
    → in_chain e ≡ false
    → Run f z zs e
    → length xs < length zs
    → Run f c xs e
    → Run (relink f z v) c xs e
Run-relink-short f z v c [] zs e out whole short run = run
Run-relink-short f z v c (x ∷ xs) zs e out whole short (same, inside, rest) =
    elim (Bool-cases (c == z)) [
      | inl at ↦
          let here : Run f z (x ∷ xs) e =
            subst (λ n. Run f n (x ∷ xs) e) (ground arith) (same, inside, rest) in
          let len = Run-length f z (x ∷ xs) zs e out here whole in absurd (omega arith)
      | inr ne ↦
          let kept : relink f z v c ≡ f c = rw ne refl in
          (
            same,
            inside,
            subst (λ n. Run (relink f z v) n xs e) (sym kept)
                (Run-relink-short f z v (f c) xs zs e out whole (omega arith) rest),
          )
    ]
