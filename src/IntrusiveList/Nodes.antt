-- ===== src/IntrusiveList/Nodes.antt =====
-- include/intrusive_list.h: the functions on nodes and list heads. A pointer is a number, and the
-- two fields of all nodes are two functions of the pointer; a list head is its sentinel node.
-- The pointers that a function is given are taken to be valid, so NULL is not followed.
use retrofuture_os.Base.{
  ℕ, zero, suc, Bool, true, false, not, ◌&&◌, ◌||◌, Option, none, some, ◌==◌, if◌then◌else◌, update,
}

pub record Heap : Type 0 where
  pub next : ℕ → ℕ
  pub prev : ℕ → ℕ

abbrev pub null : ℕ
null = 0

-- `p->next = q` and `p->prev = q`
abbrev pub set_next : ℕ → ℕ → Heap → Heap
set_next p q h = record h { next = update h.next p q }

abbrev pub set_prev : ℕ → ℕ → Heap → Heap
set_prev p q h = record h { prev = update h.prev p q }

unfoldable pub init_head : ℕ → Heap → Heap
init_head head h = set_prev head head (set_next head head h)

unfoldable pub init_node : ℕ → Heap → Heap
init_node node h = set_prev node null (set_next node null h)

unfoldable pub init_node_self : ℕ → Heap → Heap
init_node_self node h = set_prev node node (set_next node node h)

abbrev pub is_empty : ℕ → Heap → Bool
is_empty head h = h.next head == head

abbrev pub is_singular : ℕ → Heap → Bool
is_singular head h = not (is_empty head h) && h.next head == h.prev head

abbrev pub is_linked : ℕ → Heap → Bool
is_linked node h = not (h.next node == null)

abbrev pub is_first : ℕ → ℕ → Heap → Bool
is_first node head h = h.prev node == head

abbrev pub is_last : ℕ → ℕ → Heap → Bool
is_last node head h = h.next node == head

abbrev pub is_head : ℕ → ℕ → Bool
is_head node head = node == head

-- `__ilist_insert` and `__ilist_remove`
unfoldable pub insert : ℕ → ℕ → ℕ → Heap → Heap
insert node prev next h =
    set_next prev node (set_prev node prev (set_next node next (set_prev next node h)))

unfoldable pub unlink : ℕ → ℕ → Heap → Heap
unlink prev next h = set_next prev next (set_prev next prev h)

unfoldable pub insert_after : ℕ → ℕ → Heap → Heap
insert_after ref node h = insert node ref (h.next ref) h

unfoldable pub insert_before : ℕ → ℕ → Heap → Heap
insert_before ref node h = insert node (h.prev ref) ref h

unfoldable pub push_front : ℕ → ℕ → Heap → Heap
push_front head node h = insert node head (h.next head) h

unfoldable pub push_back : ℕ → ℕ → Heap → Heap
push_back head node h = insert node (h.prev head) head h

unfoldable pub remove : ℕ → Heap → Heap
remove node h = unlink (h.prev node) (h.next node) h

unfoldable pub remove_init : ℕ → Heap → Heap
remove_init node h = init_node node (unlink (h.prev node) (h.next node) h)

unfoldable pub pop_front : ℕ → Heap → Option ℕ × Heap
pop_front head h =
    if is_empty head h then (none, h) else (some (h.next head), remove (h.next head) h)

unfoldable pub pop_back : ℕ → Heap → Option ℕ × Heap
pop_back head h =
    if is_empty head h then (none, h) else (some (h.prev head), remove (h.prev head) h)

unfoldable pub move_to_front : ℕ → ℕ → Heap → Heap
move_to_front head node h = push_front head node (remove node h)

unfoldable pub move_to_back : ℕ → ℕ → Heap → Heap
move_to_back head node h = push_back head node (remove node h)

-- The writes of `ilist_replace` in order; each reads what the one before left.
unfoldable pub replace : ℕ → ℕ → Heap → Heap
replace old new h =
    let h1 = set_next new (h.next old) h in
    let h2 = set_prev (h1.next new) new h1 in
    let h3 = set_prev new (h2.prev old) h2 in set_next (h3.prev new) new h3

unfoldable pub replace_init : ℕ → ℕ → Heap → Heap
replace_init old new h = init_node old (replace old new h)

unfoldable pub swap : ℕ → ℕ → Heap → Heap
swap a b h =
    let a_prev = h.prev a in
    let a_next = h.next a in
    let b_prev = h.prev b in
    let b_next = h.next b in
    if a == b
    then h
    else if a_next == b
    then set_prev b_next a
        (set_next a_prev b (set_prev b a_prev (set_next b a (set_prev a b (set_next a b_next h)))))
    else if b_next == a
    then set_prev a_next b
        (set_next b_prev a (set_prev a b_prev (set_next a b (set_prev b a (set_next b a_next h)))))
    else set_prev b_next a (
        set_next b_prev a (
          set_prev a_next b (
            set_next a_prev b
              (set_next b a_next (set_prev b a_prev (set_next a b_next (set_prev a b_prev h)))))))

-- `__ilist_splice`
unfoldable pub splice : ℕ → ℕ → ℕ → Heap → Heap
splice list prev next h =
    let first = h.next list in
    let last = h.prev list in
    set_prev next last (set_next last next (set_next prev first (set_prev first prev h)))

unfoldable pub splice_front : ℕ → ℕ → Heap → Heap
splice_front src dst h =
    if not (is_empty src h) then init_head src (splice src dst (h.next dst) h) else h

unfoldable pub splice_back : ℕ → ℕ → Heap → Heap
splice_back src dst h =
    if not (is_empty src h) then init_head src (splice src (h.prev dst) dst h) else h

unfoldable pub cut_before : ℕ → ℕ → ℕ → Heap → Heap
cut_before head new_head node h =
    if is_empty head h || node == h.next head
    then init_head new_head h
    else let h1 = set_next new_head (h.next head) h in
      let h2 = set_prev (h1.next new_head) new_head h1 in
      let h3 = set_prev new_head (h2.prev node) h2 in
      let h4 = set_next (h3.prev new_head) new_head h3 in set_prev node head (set_next head node h4)

unfoldable pub rotate_left : ℕ → Heap → Heap
rotate_left head h = if not (is_empty head h) then move_to_back head (h.next head) h else h

unfoldable pub rotate_right : ℕ → Heap → Heap
rotate_right head h = if not (is_empty head h) then move_to_front head (h.prev head) h else h

-- A loop along a list that is damaged need not end: none where the fuel does not suffice.
unfoldable pub count_from : ℕ → ℕ → ℕ → Heap → Option ℕ
count_from zero head node h = none
count_from (suc fuel) head node h =
    let rest = count_from fuel head (h.next node) h in
    if node == head then some 0 else elim rest [ none ↦ none | some n ↦ some (suc n) ]

unfoldable pub count : ℕ → ℕ → Heap → Option ℕ
count fuel head h = count_from fuel head (h.next head) h

-- The body of the loop of `ilist_reverse`, and the loop.
abbrev pub flip : ℕ → Heap → Heap
flip node h = set_prev node (h.next node) (set_next node (h.prev node) h)

unfoldable pub flip_from : ℕ → ℕ → ℕ → Heap → Option Heap
flip_from zero head node h = none
flip_from (suc fuel) head node h =
    let tmp = h.next node in
    let rest = flip_from fuel head tmp (flip node h) in
    if tmp == head then some (flip node h) else rest

unfoldable pub reverse : ℕ → ℕ → Heap → Option Heap
reverse fuel head h =
    if is_empty head h || is_singular head h then some h else flip_from fuel head head h

-- The loop of `ilist_nth` goes `n` nodes at most.
unfoldable pub nth_from : ℕ → ℕ → ℕ → Heap → ℕ
nth_from zero head node h = node
nth_from (suc n) head node h =
    let rest = nth_from n head (h.next node) h in if node == head then node else rest

unfoldable pub nth : ℕ → ℕ → Heap → Option ℕ
nth head n h =
    let node = nth_from n head (h.next head) h in if node == head then none else some node

-- The bound on the rounds of `ilist_validate`.
abbrev pub max_iter : ℕ
max_iter = 1000000

-- The loop of `ilist_validate`, which goes one round at least.
unfoldable pub validate_from : ℕ → ℕ → ℕ → ℕ → Heap → Bool
validate_from zero head node prev h = node == head
validate_from (suc rounds) head node prev h =
    let rest = validate_from rounds head (h.next node) node h in
    if not (h.prev node == prev)
    then false
    else if not (h.prev (h.next node) == node)
    then false
    else if h.next node == head
    then true
    else rest

unfoldable pub validate : ℕ → Heap → Bool
validate head h = validate_from max_iter head head (h.prev head) h
