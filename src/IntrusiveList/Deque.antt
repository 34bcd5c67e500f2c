-- ===== src/IntrusiveList/Deque.antt =====
-- include/intrusive_list.h: a list as a queue with two ends.
use retrofuture_os.Base.{
  ℕ, true, false, Option, none, some, ◌≡◌, refl, sym, ap, subst, List, [], ◌∷◌, ◌++◌, arith, mem,
}
use mathlib.Core.List.{append-nil}
use retrofuture_os.IntrusiveList.Nodes.{
  Heap, is_empty, push_front, push_back, pop_front, pop_back, remove,
}
use retrofuture_os.IntrusiveList.Links.{Links, IsList}
use retrofuture_os.IntrusiveList.Insert.{
  push_front-IsList, push_back-IsList, remove-IsList, respell,
}

-- The first and the last element, and what is left without it.
abbrev pub first_of : List ℕ → Option ℕ
first_of [] = none
first_of (x ∷ xs) = some x

abbrev pub rest_of : List ℕ → List ℕ
rest_of [] = []
rest_of (x ∷ xs) = xs

abbrev pub last_in : ℕ → List ℕ → ℕ
last_in x [] = x
last_in x (y ∷ ys) = last_in y ys

abbrev pub all_but_last : ℕ → List ℕ → List ℕ
all_but_last x [] = []
all_but_last x (y ∷ ys) = x ∷ all_but_last y ys

abbrev pub last_of : List ℕ → Option ℕ
last_of [] = none
last_of (x ∷ xs) = some (last_in x xs)

abbrev pub front_of : List ℕ → List ℕ
front_of [] = []
front_of (x ∷ xs) = all_but_last x xs

split_last : (x : ℕ) (xs : List ℕ) → x ∷ xs ≡ all_but_last x xs ++ (last_in x xs ∷ [])
split_last x [] = refl
split_last x (y ∷ ys) = ap (λ t. x ∷ t) (split_last y ys)

prev_last : (h : Heap) (p q x : ℕ) (xs : List ℕ) → Links h p (x ∷ xs) q → h.prev q ≡ last_in x xs
prev_last h p q x [] (next, prev, (next', prev')) = prev'
prev_last h p q x (y ∷ ys) (next, prev, links) = prev_last h x q y ys links

-- What the four operations do to the list `xs`, of which `node` is no member.
pub record IsDeque (h : Heap) (head node : ℕ) (xs : List ℕ) : Type 0 where
  pub pushes_front : IsList (push_front head node h) head (node ∷ xs)
  pub pushes_back : IsList (push_back head node h) head (xs ++ (node ∷ []))
  pub gives_first : (pop_front head h).0 ≡ first_of xs
  pub leaves_rest : IsList (pop_front head h).1 head (rest_of xs)
  pub gives_last : (pop_back head h).0 ≡ last_of xs
  pub leaves_front : IsList (pop_back head h).1 head (front_of xs)

not_empty : (h : Heap) (head x : ℕ) (xs : List ℕ) → IsList h head (x ∷ xs) → is_empty head h ≡ false
not_empty h head x xs l = let (next, prev, rest) = l.links in ground (arith, l.each_once)

module _ (h : Heap) (head : ℕ) where
  pop_front-IsList :
      (xs : List ℕ)
      → IsList h head xs
      → ((pop_front head h).0 ≡ first_of xs) × IsList (pop_front head h).1 head (rest_of xs)
  unfolding pop_front
  pop_front-IsList [] l =
      let (next, prev) = l.links in
      let empty : is_empty head h ≡ true = ground arith in rw empty (refl, l)
  pop_front-IsList (x ∷ xs) l =
      let (next, prev, rest) = l.links in
      rw (not_empty h head x xs l) (
        ap some next,
        subst (λ n. IsList (remove n h) head xs) (sym next) (remove-IsList h head x [] xs l),
      )

  pop_back-IsList :
      (xs : List ℕ)
      → IsList h head xs
      → ((pop_back head h).0 ≡ last_of xs) × IsList (pop_back head h).1 head (front_of xs)
  unfolding pop_back
  pop_back-IsList [] l =
      let (next, prev) = l.links in
      let empty : is_empty head h ≡ true = ground arith in rw empty (refl, l)
  pop_back-IsList (x ∷ xs) l =
      let last = prev_last h head head x xs l.links in
      let left =
        remove-IsList h head (last_in x xs) (all_but_last x xs) [] (
          respell h head (x ∷ xs) (all_but_last x xs ++ (last_in x xs ∷ [])) (split_last x xs) l) in
      rw (not_empty h head x xs l) (
        ap some last,
        subst (λ n. IsList (remove n h) head (all_but_last x xs)) (sym last)
            (respell (remove (last_in x xs) h) head (all_but_last x xs ++ []) (all_but_last x xs)
              (append-nil (all_but_last x xs)) left),
      )

  -- On a list with the nodes `xs` and a node outside it, ilist_push_front and ilist_push_back put
  -- the node at the two ends, and ilist_pop_front and ilist_pop_back take the first and the last
  -- node out, or return NULL for an empty list and leave it empty.
  pub list-IsDeque :
      (node : ℕ) (xs : List ℕ)
      → IsList h head xs
      → mem node (head ∷ xs) ≡ false
      → IsDeque h head node xs
  list-IsDeque node xs l fresh =
      let (first, rest) = pop_front-IsList xs l in
      let (last, front) = pop_back-IsList xs l in
      record {
        pushes_front = push_front-IsList h head node xs l fresh;
        pushes_back = push_back-IsList h head node xs l fresh;
        gives_first = first;
        leaves_rest = rest;
        gives_last = last;
        leaves_front = front;
      }
