-- ===== src/Fat12/Packed.antt =====
-- The entries of twelve bits that include/fat12.h packs two to three bytes.
use retrofuture_os.Base.{
  ℕ, ◌+◌, ◌*◌, ◌/◌, ◌%◌, ◌<◌, ◌≡◌, ◌⊎◌, ◌≢◌, Bool-cases, ap, ◌∙◌, inl, inr, arith, Memory, ◌==◌,
  if◌then◌else◌, bit_and-one, bit_and-0x000F, bit_and-0x0FFF, bit_and-0xF000, bit_or_above_4,
  bit_or_below_12,
}
use retrofuture_os.Fat12.Types.{word, put_word}
use retrofuture_os.Fat12.Table.{fat_offset, unpack, pack}

abbrev pub IsBytes : Memory → Type 0
IsBytes m = (a : ℕ) → m a < 256

-- The entry of a cluster in a table.
unfoldable pub entry_of : Memory → ℕ → ℕ
entry_of m cluster = unpack cluster (word m (fat_offset cluster))

-- The table after `fat12_write_fat`.
unfoldable pub stored : Memory → ℕ → ℕ → Memory
stored m cluster value =
    put_word m (fat_offset cluster) (pack cluster (word m (fat_offset cluster)) value)

pub unpack-arith : (c x : ℕ) → unpack c x ≡ (if c % 2 == 1 then x / 16 else x % 4096)
unfolding unpack
unpack-arith c x = rw (bit_and-0x0FFF x) (ground (arith, bit_and-one c))

pub pack-arith :
    (c x v : ℕ)
    → x < 65536
    → pack c x v ≡ (if c % 2 == 1 then (x % 16 + v * 16) % 65536 else x / 4096 * 4096 + v % 4096)
unfolding pack
pack-arith c x v h =
    rw
      (
        bit_and-0x0FFF v,
        bit_and-0x000F x,
        bit_and-0xF000 x h,
        bit_or_above_4 (x % 16) v (omega arith),
        bit_or_below_12 (x / 4096) (v % 4096) (omega arith),
      )
      (ground (arith, bit_and-one c))

pub pack-bounded : (c x v : ℕ) → x < 65536 → pack c x v < 65536
pack-bounded c x v h = rw (pack-arith c x v h) (ground arith)

pub stored-IsBytes : (m : Memory) (c v : ℕ) → IsBytes m → IsBytes (stored m c v)
unfolding stored
stored-IsBytes m c v b a = let h = b a in ground arith

-- Words that overlap an assigned word.
module _ (m : Memory) (a x : ℕ) (h : x < 65536) where
  word-put_word : word (put_word m a x) a ≡ x
  word-put_word = ground arith

  word-put_word_apart : (b : ℕ) → (a + 1 < b) ⊎ (b + 1 < a) → word (put_word m a x) b ≡ word m b
  word-put_word_apart b q = ground arith

  word-put_word_next : (b : ℕ) → b ≡ a + 1 → word (put_word m a x) b ≡ x / 256 + m (b + 1) * 256
  word-put_word_next b e = ground arith

  word-put_word_prev : (b : ℕ) → b + 1 ≡ a → word (put_word m a x) b ≡ m b + x % 256 * 256
  word-put_word_prev b e = ground arith

module _ (m : Memory) (c v d : ℕ) (b : IsBytes m) where
  old : ℕ
  old = word m (fat_offset c)

  old-bounded : old < 65536
  unfolding old
  old-bounded = omega (arith, b (fat_offset c), b (fat_offset c + 1))

  entry_same : d ≡ c → unpack d (word (stored m c v) (fat_offset d)) ≡ v % 4096
  unfolding old stored
  entry_same e = rw e (
      rw (word-put_word m (fat_offset c) (pack c old v) (pack-bounded c old v old-bounded))
        (unpack-arith c (pack c old v) ∙ ground (arith, pack-arith c old v old-bounded)))

  entry_apart :
      (fat_offset c + 1 < fat_offset d) ⊎ (fat_offset d + 1 < fat_offset c)
      → word (stored m c v) (fat_offset d) ≡ word m (fat_offset d)
  unfolding old stored
  entry_apart q =
      word-put_word_apart m (fat_offset c) (pack c old v) (pack-bounded c old v old-bounded)
        (fat_offset d) q

  -- The odd entry above an even one.
  entry_next :
      c % 2 ≡ 0
      → d ≡ c + 1
      → unpack d (word (stored m c v) (fat_offset d)) ≡ unpack d (word m (fat_offset d))
  unfolding old stored
  entry_next even e =
      let now =
        word-put_word_next m (fat_offset c) (pack c old v) (pack-bounded c old v old-bounded)
          (fat_offset d) (omega arith) in
      let at : m (fat_offset d) ≡ m (fat_offset c + 1) = ap m (omega arith) in
      let put = pack-arith c old v old-bounded in
      rw
        (
          now,
          unpack-arith d (pack c old v / 256 + m (fat_offset d + 1) * 256),
          unpack-arith d (word m (fat_offset d)),
        )
        (ground (arith, b (fat_offset c)))

  -- The even entry below an odd one.
  entry_prev :
      c % 2 ≡ 1
      → d + 1 ≡ c
      → unpack d (word (stored m c v) (fat_offset d)) ≡ unpack d (word m (fat_offset d))
  unfolding old stored
  entry_prev odd e =
      let now =
        word-put_word_prev m (fat_offset c) (pack c old v) (pack-bounded c old v old-bounded)
          (fat_offset d) (omega arith) in
      let at : m (fat_offset d + 1) ≡ m (fat_offset c) = ap m (omega arith) in
      let put = pack-arith c old v old-bounded in
      rw
        (
          now,
          unpack-arith d (m (fat_offset d) + pack c old v % 256 * 256),
          unpack-arith d (word m (fat_offset d)),
        )
        (ground (arith, b (fat_offset d)))

  positions :
      d ≢ c
      → ((fat_offset c + 1 < fat_offset d) ⊎ (fat_offset d + 1 < fat_offset c))
        ⊎ (((c % 2 ≡ 0) × (d ≡ c + 1)) ⊎ ((c % 2 ≡ 1) × (d + 1 ≡ c)))
  positions ne = ground arith

-- What was written is read back, and the entries that share its bytes are kept.
pub entry_of-stored :
    (m : Memory) (c v d : ℕ)
    → IsBytes m
    → entry_of (stored m c v) d ≡ (if d == c then v % 4096 else entry_of m d)
unfolding entry_of
entry_of-stored m c v d b = elim (Bool-cases (d == c)) [
  | inl e ↦ entry_same m c v d b (ground arith) ∙ ground arith
  | inr ne ↦ other (positions m c v d b (ground arith)) ∙ ground arith
]
  where
    other :
        ((fat_offset c + 1 < fat_offset d) ⊎ (fat_offset d + 1 < fat_offset c))
          ⊎ (((c % 2 ≡ 0) × (d ≡ c + 1)) ⊎ ((c % 2 ≡ 1) × (d + 1 ≡ c)))
        → unpack d (word (stored m c v) (fat_offset d)) ≡ unpack d (word m (fat_offset d))
    other (inl q) = ap (unpack d) (entry_apart m c v d b q)
    other (inr (inl (even, e))) = entry_next m c v d b even e
    other (inr (inr (odd, e))) = entry_prev m c v d b odd e

pub entry_of-bounded : (m : Memory) (c : ℕ) → IsBytes m → entry_of m c < 4096
unfolding entry_of
entry_of-bounded m c b =
    ground (arith, unpack-arith c (word m (fat_offset c)), b (fat_offset c), b (fat_offset c + 1))
