-- ===== src/IntrusiveList/Reverse.antt =====
-- include/intrusive_list.h: a list is reversed in place (`ilist_reverse`), and its loops end.
use retrofuture_os.Base.{
  ℕ, zero, suc, ◌<◌, true, false, ◌||◌, some, ◌≡◌, inl, inr, refl, sym, subst, ◌∙◌, List, [], ◌∷◌,
  arith, ◌==◌, mem, distinct, mem-append, distinct-append_comm, if◌then◌else◌, Bool-cases, length,
}
use mathlib.Core.List.{reverse, reverse-cons}
use retrofuture_os.IntrusiveList.Nodes.{
  Heap, is_empty, is_singular, flip, flip_from, reverse as reverse_list,
}
use retrofuture_os.IntrusiveList.Links.{Links, IsList, Links-append, Links-last}

-- The links forward.
abbrev pub Forward : Heap → ℕ → List ℕ → ℕ → Type 0
Forward h p [] q = h.next p ≡ q
Forward h p (x ∷ xs) q = (h.next p ≡ x) × Forward h x xs q

Links-Forward : (h : Heap) (p q : ℕ) (xs : List ℕ) → Links h p xs q → Forward h p xs q
Links-Forward h p q [] (next, prev) = next
Links-Forward h p q (x ∷ xs) (next, prev, links) = (next, Links-Forward h x q xs links)

Forward-flip :
    (h : Heap) (c p q : ℕ) (xs : List ℕ)
    → mem c (p ∷ xs) ≡ false
    → Forward h p xs q
    → Forward (flip c h) p xs q
Forward-flip h c p q [] out next = ground arith
Forward-flip h c p q (x ∷ xs) out (next, links) =
    (ground arith, Forward-flip h c x q xs (ground arith) links)

-- `g` is `h` with the two fields of each of the nodes exchanged.
pub record Flipped (h g : Heap) (xs : List ℕ) : Type 0 where
  pub nexts : (x : ℕ) → g.next x ≡ (if mem x xs then h.prev x else h.next x)
  pub prevs : (x : ℕ) → g.prev x ≡ (if mem x xs then h.next x else h.prev x)

flip_from-Flipped :
    (fuel : ℕ) (h : Heap) (head c : ℕ) (xs : List ℕ)
    → Forward h c xs head
    → distinct (c ∷ xs) ≡ true
    → mem head xs ≡ false
    → length xs < fuel
    → (g : Heap) × (flip_from fuel head c h ≡ some g) × Flipped h g (c ∷ xs)
unfolding flip_from
flip_from-Flipped zero h head c xs f d out q = absurd (omega arith)
flip_from-Flipped (suc fuel) h head c [] next d out q =
    let stop : (h.next c == head) ≡ true = ground arith in
    (flip c h, rw stop refl, record { nexts = λ x. ground arith; prevs = λ x. ground arith })
flip_from-Flipped (suc fuel) h head c (x ∷ xs) (next, f) d out q =
    let more : (h.next c == head) ≡ false = ground arith in
    let (g, e, flipped) =
      flip_from-Flipped fuel (flip c h) head x xs (Forward-flip h c x head xs (ground arith) f)
        (ground arith) (ground arith) (omega arith) in
    (
      g,
      rw more (subst (λ n. flip_from fuel head n (flip c h) ≡ some g) (sym next) e),
      record {
        nexts = λ y. ground (arith, flipped.nexts y);
        prevs = λ y. ground (arith, flipped.prevs y);
      },
    )

mem-reverse : (x : ℕ) (xs : List ℕ) → mem x (reverse xs) ≡ mem x xs
mem-reverse x [] = refl
mem-reverse x (y ∷ xs) =
    rw (reverse-cons y xs) (ground (arith, mem-append x (reverse xs) (y ∷ []), mem-reverse x xs))

distinct-reverse : (xs : List ℕ) → distinct (reverse xs) ≡ distinct xs
distinct-reverse [] = refl
distinct-reverse (y ∷ xs) = rw (reverse-cons y xs) (
    distinct-append_comm (reverse xs) (y ∷ [])
    ∙ ground (arith, mem-reverse y xs, distinct-reverse xs))

Links-reverse :
    (h g : Heap) (p q : ℕ) (xs : List ℕ)
    → Links h p xs q
    → ((x : ℕ) → mem x (q ∷ xs) ≡ true → g.next x ≡ h.prev x)
    → ((x : ℕ) → mem x (p ∷ xs) ≡ true → g.prev x ≡ h.next x)
    → Links g q (reverse xs) p
Links-reverse h g p q [] (next, prev) to from =
    (to q (ground arith) ∙ prev, from p (ground arith) ∙ next)
Links-reverse h g p q (x ∷ xs) (next, prev, links) to from = rw (reverse-cons x xs) (
    Links-append g q x p (reverse xs) []
      (Links-reverse h g x q xs links (λ y m. to y (ground arith)) (λ y m. from y (ground arith)))
      (to x (ground arith) ∙ prev, from p (ground arith) ∙ next))

-- What is returned at once has one node at most.
reverse-short :
    (h : Heap) (head : ℕ) (xs : List ℕ)
    → IsList h head xs
    → (is_empty head h || is_singular head h) ≡ true
    → reverse xs ≡ xs
reverse-short h head [] l short = refl
reverse-short h head (x ∷ []) l short = refl
reverse-short h head (x ∷ (y ∷ ys)) l short =
    let (next, prev, (next', prev', rest)) = l.links in
    let last = Links-last h y head ys rest in absurd (ground (arith, l.each_once))

-- On a well-formed list, with a round for each node and the head, ilist_reverse returns and leaves its nodes
-- in the opposite order.
pub reverse_list-IsList :
    (fuel : ℕ) (h : Heap) (head : ℕ) (xs : List ℕ)
    → IsList h head xs
    → length xs < fuel
    → (g : Heap) × (reverse_list fuel head h ≡ some g) × IsList g head (reverse xs)
unfolding reverse_list
reverse_list-IsList fuel h head xs l q = elim (Bool-cases (is_empty head h || is_singular head h)) [
  | inl short ↦ (h, rw short refl, subst (IsList h head) (sym (reverse-short h head xs l short)) l)
  | inr long ↦
      let (g, e, flipped) =
        flip_from-Flipped fuel h head head xs (Links-Forward h head head xs l.links) l.each_once
          (ground (arith, l.each_once)) q in
      (
        g,
        rw long e,
        record {
          links =
              Links-reverse h g head head xs l.links (λ x m. ground (arith, flipped.nexts x))
                (λ x m. ground (arith, flipped.prevs x));
          each_once = ground (arith, mem-reverse head xs, distinct-reverse xs, l.each_once);
        },
      )
]
