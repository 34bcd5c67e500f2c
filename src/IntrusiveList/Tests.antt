-- ===== src/IntrusiveList/Tests.antt =====
-- The theorems on intrusive lists at a list of two nodes, and at two lists.
use retrofuture_os.Base.{some, ◌≡◌, refl, [], ◌∷◌, ◌++◌, arith, if◌then◌else◌, ◌==◌}
use mathlib.Core.List.{reverse}
use retrofuture_os.IntrusiveList.Nodes.{
  Heap, splice_back, reverse as reverse_list, swap, cut_before,
}
use retrofuture_os.IntrusiveList.Links.{IsList}
use retrofuture_os.IntrusiveList.Deque.{IsDeque, list-IsDeque}
use retrofuture_os.IntrusiveList.Splice.{splice_back-IsList}
use retrofuture_os.IntrusiveList.Reverse.{reverse_list-IsList}
use retrofuture_os.IntrusiveList.Walk.{IsWalked, list-IsWalked}

-- The list head 1 with the nodes 2 and 3, and the list head 4 with the node 5.
abbrev heap : Heap
heap = record {
  next = λ p.
      if p == 1
      then 2
      else if p == 2
      then 3
      else if p == 3
      then 1
      else if p == 4
      then 5
      else if p == 5
      then 4
      else 0;
  prev = λ p.
      if p == 1
      then 3
      else if p == 2
      then 1
      else if p == 3
      then 2
      else if p == 4
      then 5
      else if p == 5
      then 4
      else 0;
}

two_nodes : IsList heap 1 (2 ∷ (3 ∷ []))
two_nodes = record { links = (refl, refl, (refl, refl, (refl, refl))); each_once = refl }

one_node : IsList heap 4 (5 ∷ [])
one_node = record { links = (refl, refl, (refl, refl)); each_once = refl }

list-IsDeque_example : IsDeque heap 1 6 (2 ∷ (3 ∷ []))
list-IsDeque_example = list-IsDeque heap 1 6 (2 ∷ (3 ∷ [])) two_nodes refl

splice_back-IsList_example :
    IsList (splice_back 1 4 heap) 4 ((5 ∷ []) ++ (2 ∷ (3 ∷ [])))
    × IsList (splice_back 1 4 heap) 1 []
splice_back-IsList_example =
    splice_back-IsList heap 1 4 (2 ∷ (3 ∷ [])) (5 ∷ []) two_nodes one_node refl

reverse_list-IsList_example :
    (g : Heap) × (reverse_list 3 1 heap ≡ some g) × IsList g 1 (reverse (2 ∷ (3 ∷ [])))
reverse_list-IsList_example = reverse_list-IsList 3 heap 1 (2 ∷ (3 ∷ [])) two_nodes (omega arith)

list-IsWalked_example : IsWalked heap 1 3 (2 ∷ (3 ∷ []))
list-IsWalked_example = list-IsWalked heap 1 3 (2 ∷ (3 ∷ [])) two_nodes (omega arith)

-- Runs of functions that no theorem is about.
swapped : (swap 2 3 heap).next 1 ≡ 3
unfolding swap
swapped = refl

cut : (cut_before 1 6 3 heap).next 6 ≡ 2
unfolding cut_before
cut = refl
