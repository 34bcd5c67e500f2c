-- ===== src/IntrusiveList/Links.antt =====
-- include/intrusive_list.h: chains of nodes that are linked in both directions.
use retrofuture_os.Base.{
  ℕ, true, ◌≡◌, ◌≢◌, sym, ap, subst, ◌∙◌, List, [], ◌∷◌, ◌++◌, arith, mem, distinct,
}
use retrofuture_os.IntrusiveList.Nodes.{Heap}

-- From `p` the links lead through `xs` to `q`, and back.
abbrev pub Links : Heap → ℕ → List ℕ → ℕ → Type 0
Links h p [] q = (h.next p ≡ q) × (h.prev q ≡ p)
Links h p (x ∷ xs) q = (h.next p ≡ x) × (h.prev x ≡ p) × Links h x xs q

-- The nodes `xs` stand in the list with the sentinel `head`, in this order, each once.
pub record IsList (h : Heap) (head : ℕ) (xs : List ℕ) : Type 0 where
  pub links : Links h head xs head
  pub each_once : distinct (head ∷ xs) ≡ true

module _ (h : Heap) where
  pub Links-append :
      (p y q : ℕ) (xs ys : List ℕ) → Links h p xs y → Links h y ys q → Links h p (xs ++ (y ∷ ys)) q
  Links-append p y q [] ys (next, prev) rest = (next, prev, rest)
  Links-append p y q (x ∷ xs) ys (next, prev, links) rest =
      (next, prev, Links-append x y q xs ys links rest)

  pub Links-split :
      (p y q : ℕ) (xs ys : List ℕ) → Links h p (xs ++ (y ∷ ys)) q → Links h p xs y × Links h y ys q
  Links-split p y q [] ys (next, prev, rest) = ((next, prev), rest)
  Links-split p y q (x ∷ xs) ys (next, prev, links) =
      let (front, rest) = Links-split x y q xs ys links in ((next, prev, front), rest)

  -- The node before the end is the start or on the way.
  pub Links-last : (p q : ℕ) (xs : List ℕ) → Links h p xs q → mem (h.prev q) (p ∷ xs) ≡ true
  Links-last p q [] (next, prev) = ground arith
  Links-last p q (x ∷ xs) (next, prev, links) = ground (arith, Links-last x q xs links)

  not_last :
      (p x q : ℕ) (xs : List ℕ) → Links h x xs q → distinct (p ∷ (x ∷ xs)) ≡ true → p ≢ h.prev q
  not_last p x q xs links d e =
      let m : mem p (x ∷ xs) ≡ true =
        subst (λ y. mem y (x ∷ xs) ≡ true) (sym e) (Links-last x q xs links) in
      ground arith

  -- Another heap with the same links but the last, which leads to `t`.
  pub Links-retarget :
      (g : Heap) (p q t : ℕ) (xs : List ℕ)
      → Links h p xs q
      → distinct (p ∷ xs) ≡ true
      → ((x : ℕ) → mem x (p ∷ xs) ≡ true → x ≢ h.prev q → g.next x ≡ h.next x)
      → ((x : ℕ) → mem x xs ≡ true → g.prev x ≡ h.prev x)
      → g.next (h.prev q) ≡ t
      → g.prev t ≡ h.prev q
      → Links g p xs t
  Links-retarget g p q t [] (next, prev) d same_next same_prev to from =
      (ap g.next (sym prev) ∙ to, from ∙ prev)
  Links-retarget g p q t (x ∷ xs) (next, prev, links) d same_next same_prev to from = (
    same_next p (ground arith) (not_last p x q xs links d) ∙ next,
    same_prev x (ground arith) ∙ prev,
    Links-retarget g x q t xs links (ground arith) (λ y m ne. same_next y (ground arith) ne)
        (λ y m. same_prev y (ground arith)) to from,
  )

  -- Another heap with the same links.
  pub Links-frame :
      (g : Heap) (p q : ℕ) (xs : List ℕ)
      → Links h p xs q
      → ((x : ℕ) → mem x (p ∷ xs) ≡ true → g.next x ≡ h.next x)
      → ((x : ℕ) → mem x (q ∷ xs) ≡ true → g.prev x ≡ h.prev x)
      → Links g p xs q
  Links-frame g p q [] (next, prev) same_next same_prev =
      (same_next p (ground arith) ∙ next, same_prev q (ground arith) ∙ prev)
  Links-frame g p q (x ∷ xs) (next, prev, links) same_next same_prev = (
    same_next p (ground arith) ∙ next,
    same_prev x (ground arith) ∙ prev,
    Links-frame g x q xs links (λ y m. same_next y (ground arith))
        (λ y m. same_prev y ground arith),
  )
