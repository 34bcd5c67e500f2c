-- ===== src/IntrusiveList/Walk.antt =====
-- include/intrusive_list.h: the loops that only read: counting, the nth node, the validation.
use retrofuture_os.Base.{
  ℕ, zero, suc, ◌<◌, true, false, Option, none, some, ◌≡◌, refl, sym, ap, ap₂, ◌∙◌, List, [], ◌∷◌,
  arith, ltb, ◌==◌, mem, if◌then◌else◌, length,
}
use retrofuture_os.IntrusiveList.Nodes.{
  Heap, count_from, count, nth_from, nth, max_iter, validate_from, validate,
}
use retrofuture_os.IntrusiveList.Links.{Links, IsList}

-- The element number `n`.
abbrev pub get_elem? : List ℕ → ℕ → Option ℕ
get_elem? [] n = none
get_elem? (x ∷ xs) zero = some x
get_elem? (x ∷ xs) (suc n) = get_elem? xs n

module _ (h : Heap) (head : ℕ) where
  count_from-length :
      (fuel p : ℕ) (xs : List ℕ)
      → Links h p xs head
      → mem head xs ≡ false
      → length xs < fuel
      → count_from fuel head (h.next p) h ≡ some (length xs)
  unfolding count_from
  count_from-length zero p xs l out q = absurd (omega arith)
  count_from-length (suc fuel) p [] (next, prev) out q =
      let stop : (h.next p == head) ≡ true = ground arith in rw stop refl
  count_from-length (suc fuel) p (x ∷ xs) (next, prev, links) out q =
      let more : (x == head) ≡ false = ground arith in
      rw next (rw (more, count_from-length fuel x xs links (ground arith) (omega arith)) refl)

  nth_from-get_elem? :
      (n p : ℕ) (xs : List ℕ)
      → Links h p xs head
      → mem head xs ≡ false
      → (let node = nth_from n head (h.next p) h in if node == head then none else some node)
        ≡ get_elem? xs n
  unfolding nth_from
  nth_from-get_elem? zero p [] (next, prev) out = ground arith
  nth_from-get_elem? zero p (x ∷ xs) (next, prev, links) out = ground arith
  nth_from-get_elem? (suc n) p [] (next, prev) out = ground arith
  nth_from-get_elem? (suc n) p (x ∷ xs) (next, prev, links) out =
      let more : (x == head) ≡ false = ground arith in
      rw next (rw more (nth_from-get_elem? n x xs links (ground arith)))

  -- A round at a node with right links: the last one, and one that goes on.
  validate_from-last :
      (rounds p : ℕ) → Links h p [] head → validate_from (suc rounds) head p (h.prev p) h ≡ true
  unfolding validate_from
  validate_from-last rounds p (next, prev) =
      let same : (h.prev p == h.prev p) ≡ true = ground arith in
      let back : (h.prev (h.next p) == p) ≡ true = ground (arith, ap h.prev next) in
      let stop : (h.next p == head) ≡ true = ground arith in rw (same, back, stop) refl

  validate_from-next :
      (rounds p x : ℕ) (xs : List ℕ)
      → Links h p (x ∷ xs) head
      → (x == head) ≡ false
      → validate_from (suc rounds) head p (h.prev p) h ≡ validate_from rounds head x (h.prev x) h
  unfolding validate_from
  validate_from-next rounds p x xs (next, prev, links) more =
      let same : (h.prev p == h.prev p) ≡ true = ground arith in
      let back : (h.prev (h.next p) == p) ≡ true = ground (arith, ap h.prev next) in
      let on : (h.next p == head) ≡ false = ground arith in
      rw (same, back, on) (ap₂ (λ n b. validate_from rounds head n b h) next (sym prev))

  validate_from-zero : (node p : ℕ) → validate_from zero head node p h ≡ (node == head)
  unfolding validate_from
  validate_from-zero node p = refl

  -- The rounds suffice exactly if the list is shorter than that.
  validate_from-ltb :
      (rounds p : ℕ) (xs : List ℕ)
      → Links h p xs head
      → mem head xs ≡ false
      → validate_from (suc rounds) head p (h.prev p) h ≡ ltb (length xs) (suc rounds)
  validate_from-ltb rounds p [] l out =
      let few : ltb zero (suc rounds) ≡ true = ground arith in
      validate_from-last rounds p l ∙ sym few
  validate_from-ltb zero p (x ∷ xs) l out =
      let more : (x == head) ≡ false = ground arith in
      let many : ltb (suc (length xs)) 1 ≡ false = ground arith in
      validate_from-next zero p x xs l more ∙ validate_from-zero x (h.prev x) ∙ more ∙ sym many
  validate_from-ltb (suc rounds) p (x ∷ xs) (next, prev, links) out =
      let more : (x == head) ≡ false = ground arith in
      let shorter : ltb (length xs) (suc rounds) ≡ ltb (suc (length xs)) (suc (suc rounds)) =
        ground arith in
      validate_from-next (suc rounds) p x xs (next, prev, links) more
      ∙ validate_from-ltb rounds x xs links (ground arith)
      ∙ shorter

  validate-ltb : (xs : List ℕ) → IsList h head xs → validate head h ≡ ltb (length xs) max_iter
  unfolding validate
  validate-ltb xs l = validate_from-ltb 999999 head xs l.links (ground (arith, l.each_once))

  -- What the three functions return for a list with the nodes `xs`.
  pub record IsWalked (fuel : ℕ) (xs : List ℕ) : Type 0 where
    pub counted : count fuel head h ≡ some (length xs)
    pub indexed : (n : ℕ) → nth head n h ≡ get_elem? xs n
    pub accepted : validate head h ≡ ltb (length xs) max_iter

  -- On a well-formed list, with a round for each node and one to see the end, ilist_count returns
  -- the number of nodes, and ilist_nth the node at the index or NULL behind the end; ilist_validate
  -- accepts the list exactly if it has less than 1000000 nodes.
  pub list-IsWalked :
      (fuel : ℕ) (xs : List ℕ) → IsList h head xs → length xs < fuel → IsWalked fuel xs
  unfolding count nth
  list-IsWalked fuel xs l q =
      let out : mem head xs ≡ false = ground (arith, l.each_once) in
      record {
        counted = count_from-length fuel head xs l.links out q;
        indexed = λ n. nth_from-get_elem? n head xs l.links out;
        accepted = validate-ltb xs l;
      }
