-- ===== src/IntrusiveList/Insert.antt =====
-- include/intrusive_list.h: a node enters a list, and a node leaves it.
use retrofuture_os.Base.{
  ℕ, false, ◌≡◌, sym, subst, ◌∙◌, List, [], ◌∷◌, ◌++◌, arith, mem, mem-append, distinct-append_comm,
}
use mathlib.Core.List.{append-nil, append_assoc}
use retrofuture_os.IntrusiveList.Nodes.{
  Heap, insert, unlink, insert_before, remove, push_back, push_front,
}
use retrofuture_os.IntrusiveList.Links.{
  IsList, Links-append, Links-split, Links-retarget, Links-last,
}

-- A list may be read from any of its nodes.
pub IsList-rotate :
    (h : Heap) (a b : ℕ) (xs ys : List ℕ)
    → IsList h a (xs ++ (b ∷ ys))
    → IsList h b (ys ++ (a ∷ xs))
IsList-rotate h a b xs ys l =
    let (front, back) = Links-split h a b a xs ys l.links in
    record {
      links = Links-append h b a b ys xs back front;
      each_once = sym (distinct-append_comm (a ∷ xs) (b ∷ ys)) ∙ l.each_once;
    }

-- `insert` between the last node of a list and its head.
pub insert-IsList :
    (h : Heap) (head node : ℕ) (xs : List ℕ)
    → IsList h head xs
    → mem node (head ∷ xs) ≡ false
    → IsList (insert node (h.prev head) head h) head (xs ++ (node ∷ []))
unfolding insert
insert-IsList h head node xs l fresh =
    let g = insert node (h.prev head) head h in
    let last = Links-last h head head xs l.links in
    record {
      links =
          Links-append g head node head xs []
            (Links-retarget h g head head node xs l.links l.each_once (λ x m ne. ground arith)
              (λ x m. ground arith) (ground arith) (ground arith))
            (ground arith, ground arith);
      each_once = distinct-append_comm (head ∷ xs) (node ∷ []) ∙ ground (arith, l.each_once);
    }

-- Another spelling of the list.
pub respell : (h : Heap) (head : ℕ) (xs ys : List ℕ) → xs ≡ ys → IsList h head xs → IsList h head ys
respell h head xs ys e l = subst (IsList h head) e l

-- `ilist_insert_before` in the middle of a list.
pub insert_before-IsList :
    (h : Heap) (head ref node : ℕ) (xs ys : List ℕ)
    → IsList h head (xs ++ (ref ∷ ys))
    → mem node (head ∷ (xs ++ (ref ∷ ys))) ≡ false
    → IsList (insert_before ref node h) head (xs ++ (node ∷ (ref ∷ ys)))
unfolding insert_before
insert_before-IsList h head ref node xs ys l fresh =
    let g = insert node (h.prev ref) ref h in
    let turned = IsList-rotate h head ref xs ys l in
    let grown =
      insert-IsList h ref node (ys ++ (head ∷ xs)) turned
        (ground (arith, mem-append node xs (ref ∷ ys), mem-append node ys (head ∷ xs))) in
    let spelled =
      respell g ref ((ys ++ (head ∷ xs)) ++ (node ∷ [])) (ys ++ (head ∷ (xs ++ (node ∷ []))))
        (append_assoc ys (head ∷ xs) (node ∷ [])) grown in
    respell g head ((xs ++ (node ∷ [])) ++ (ref ∷ ys)) (xs ++ (node ∷ (ref ∷ ys)))
      (append_assoc xs (node ∷ []) (ref ∷ ys))
      (IsList-rotate g ref head ys (xs ++ (node ∷ [])) spelled)

pub push_back-IsList :
    (h : Heap) (head node : ℕ) (xs : List ℕ)
    → IsList h head xs
    → mem node (head ∷ xs) ≡ false
    → IsList (push_back head node h) head (xs ++ (node ∷ []))
unfolding push_back
push_back-IsList h head node xs l fresh = insert-IsList h head node xs l fresh

pub push_front-IsList :
    (h : Heap) (head node : ℕ) (xs : List ℕ)
    → IsList h head xs
    → mem node (head ∷ xs) ≡ false
    → IsList (push_front head node h) head (node ∷ xs)
unfolding push_front insert_before
push_front-IsList h head node [] l fresh =
    let (next, prev) = l.links in
    subst (λ b. IsList (insert node head b h) head (node ∷ [])) (sym next)
      (subst (λ a. IsList (insert node a head h) head (node ∷ [])) prev
        (insert-IsList h head node [] l fresh))
push_front-IsList h head node (x ∷ xs) l fresh =
    let (next, prev, rest) = l.links in
    subst (λ b. IsList (insert node head b h) head (node ∷ (x ∷ xs))) (sym next)
      (subst (λ a. IsList (insert node a x h) head (node ∷ (x ∷ xs))) prev
        (insert_before-IsList h head x node [] xs l fresh))

remove_first : (h : Heap) (n z : ℕ) (zs : List ℕ) → IsList h n (z ∷ zs) → IsList (remove n h) z zs
unfolding remove unlink
remove_first h n z zs l =
    let (next, prev, rest) = l.links in
    let g = unlink (h.prev n) (h.next n) h in
    record {
      links =
          Links-retarget h g z n z zs rest (ground (arith, l.each_once)) (λ x m ne. ground arith)
            (λ x m. ground (arith, l.each_once)) (ground arith) (ground arith);
      each_once = ground (arith, l.each_once);
    }

-- `ilist_remove` takes the node out and keeps the others in their order.
pub remove-IsList :
    (h : Heap) (head node : ℕ) (xs ys : List ℕ)
    → IsList h head (xs ++ (node ∷ ys))
    → IsList (remove node h) head (xs ++ ys)
remove-IsList h head node xs [] l =
    respell (remove node h) head xs (xs ++ []) (sym (append-nil xs))
      (remove_first h node head xs (IsList-rotate h head node xs [] l))
remove-IsList h head node xs (y ∷ ys) l =
    IsList-rotate (remove node h) y head ys xs
      (remove_first h node y (ys ++ (head ∷ xs)) (IsList-rotate h head node xs (y ∷ ys) l))
