-- ===== src/IntrusiveList/Splice.antt =====
-- include/intrusive_list.h: a list is moved to the end of another (`ilist_splice_back`).
use retrofuture_os.Base.{
  ℕ, true, false, ◌≡◌, refl, sym, List, [], ◌∷◌, ◌++◌, arith, mem, distinct, mem-append,
  distinct-insert,
}
use mathlib.Core.List.{append-nil}
use retrofuture_os.IntrusiveList.Nodes.{Heap, is_empty, init_head, splice, splice_back}
use retrofuture_os.IntrusiveList.Links.{IsList, Links-append, Links-retarget, Links-last}
use retrofuture_os.IntrusiveList.Insert.{respell}

-- The members of two lists without a node in common.
apart : (x : ℕ) (xs ys : List ℕ) → distinct (xs ++ ys) ≡ true → mem x xs ≡ true → mem x ys ≡ false
apart x [] ys d m = absurd (cc)
apart x (z ∷ xs) ys d m = ground (arith, apart x xs ys, mem-append z xs ys)

-- When the two lists have no node in common, ilist_splice_back puts the nodes of the first behind
-- those of the second, both in their order, and leaves the first list empty.
pub splice_back-IsList :
    (h : Heap) (src dst : ℕ) (xs ys : List ℕ)
    → IsList h src xs
    → IsList h dst ys
    → distinct ((dst ∷ ys) ++ (src ∷ xs)) ≡ true
    → IsList (splice_back src dst h) dst (ys ++ xs) × IsList (splice_back src dst h) src []
unfolding splice_back splice init_head
splice_back-IsList h src dst [] ys l k d =
    let (next, prev) = l.links in
    let empty : is_empty src h ≡ true = ground arith in
    rw empty (respell h dst ys (ys ++ []) (sym (append-nil ys)) k, l)
splice_back-IsList h src dst (x ∷ xs) ys l k d =
    let (next, prev, rest) = l.links in
    let full : is_empty src h ≡ false = ground (arith, l.each_once) in
    let g = init_head src (splice src (h.prev dst) dst h) in
    let last_src = Links-last h x src xs rest in
    let last_dst = Links-last h dst dst ys k.links in
    let far = apart_src (h.prev dst) last_dst in
    let far' = apart_src dst (ground arith) in
    rw full (
      record {
        links =
            Links-append g dst x dst ys xs
              (Links-retarget h g dst dst x ys k.links k.each_once
                (λ z m ne. let out = apart_src z m in ground arith)
                (λ z m. let out = apart_src z (ground arith) in ground (arith, k.each_once))
                (ground arith) (ground arith))
              (Links-retarget h g x src dst xs rest (ground (arith, l.each_once))
                (λ z m ne. ground (arith, l.each_once)) (λ z m. ground (arith, l.each_once))
                (ground (arith, l.each_once)) (ground arith));
        each_once = distinct_parts_middle;
      },
      record { links = (ground arith, ground arith); each_once = refl },
    )
  where
    apart_src : (z : ℕ) → mem z (dst ∷ ys) ≡ true → mem z (src ∷ (x ∷ xs)) ≡ false
    apart_src z m = apart z (dst ∷ ys) (src ∷ (x ∷ xs)) d m

    distinct_parts_middle : distinct ((dst ∷ ys) ++ (x ∷ xs)) ≡ true
    distinct_parts_middle = ground (arith, distinct-insert src (dst ∷ ys) (x ∷ xs))
