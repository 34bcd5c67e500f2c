-- ===== src/Base/Bytes.antt =====
-- Byte memory as a function of the address, with the byte loops that copy into it.
use Prim.Native.Nat.{ℕ, zero, suc, ◌+◌, ◌-◌, ◌<◌, ◌≤◌, min}
use mathlib.Core.Path.{◌≡◌, refl, sym, ap, ◌∙◌}
use mathlib.Core.Logic.{◌⊎◌}
use mathlib.Core.List.{List, [], ◌∷◌}
use native.Mathlib.Omega.{arith}
use retrofuture_os.Base.Tests.{◌==◌, ltb, if◌then◌else◌}
use retrofuture_os.Base.Lists.{
  length, get_or, get_or_ext, take, drop, length-take, length-drop, get_or-take, get_or-drop,
}

abbrev pub Memory : Type 0
Memory = ℕ → ℕ

-- `m[a] = v`
abbrev pub update : Memory → ℕ → ℕ → Memory
update m a v x = if a == x then v else m x

-- The loop of a copy inside the memory.
unfoldable pub memcpy : Memory → ℕ → ℕ → ℕ → Memory
memcpy m dst src zero = m
memcpy m dst src (suc n) = memcpy (update m dst (m src)) (dst + 1) (src + 1) n

-- The same loop with its source outside: the list holds the source's bytes.
unfoldable pub poke : Memory → ℕ → List ℕ → Memory
poke m dst [] = m
poke m dst (b ∷ bs) = poke (update m dst b) (dst + 1) bs

-- The same loop with its destination outside: the bytes that arrive there.
unfoldable pub peek : Memory → ℕ → ℕ → List ℕ
peek m src zero = []
peek m src (suc n) = m src ∷ peek m (src + 1) n

-- `n` bytes from address 0 are set to zero.
unfoldable pub clear : Memory → ℕ → Memory
clear m n x = if ltb x n then 0 else m x

pub memcpy_outside :
    (m : Memory) (dst src n x : ℕ) → (x < dst) ⊎ (dst + n ≤ x) → memcpy m dst src n x ≡ m x
unfolding memcpy
memcpy_outside m dst src zero x h = refl
memcpy_outside m dst src (suc n) x h =
    memcpy_outside (update m dst (m src)) (dst + 1) (src + 1) n x (omega arith) ∙ ground arith

pub poke_outside :
    (m : Memory) (dst : ℕ) (bs : List ℕ) (x : ℕ)
    → (x < dst) ⊎ (dst + length bs ≤ x)
    → poke m dst bs x ≡ m x
unfolding poke
poke_outside m dst [] x h = refl
poke_outside m dst (b ∷ bs) x h =
    poke_outside (update m dst b) (dst + 1) bs x (omega arith) ∙ ground arith

-- A copy upwards to a place past the source moves every byte.
pub memcpy_inside :
    (m : Memory) (dst src n j x y : ℕ)
    → src + n ≤ dst
    → j < n
    → x ≡ dst + j
    → y ≡ src + j
    → memcpy m dst src n x ≡ m y
unfolding memcpy
memcpy_inside m dst src zero j x y h q ex ey = absurd (omega arith)
memcpy_inside m dst src (suc n) zero x y h q ex ey =
    memcpy_outside (update m dst (m src)) (dst + 1) (src + 1) n x (omega arith) ∙ ground arith
memcpy_inside m dst src (suc n) (suc j) x y h q ex ey =
    memcpy_inside (update m dst (m src)) (dst + 1) (src + 1) n j x y (omega arith) (omega arith)
      (omega arith) (omega arith)
    ∙ ground arith

pub poke_inside :
    (m : Memory) (dst : ℕ) (bs : List ℕ) (j x : ℕ)
    → j < length bs
    → x ≡ dst + j
    → poke m dst bs x ≡ get_or bs j 0
unfolding poke
poke_inside m dst [] j x q e = absurd (omega arith)
poke_inside m dst (b ∷ bs) zero x q e =
    poke_outside (update m dst b) (dst + 1) bs x (omega arith) ∙ ground arith
poke_inside m dst (b ∷ bs) (suc j) x q e =
    poke_inside (update m dst b) (dst + 1) bs j x (omega arith) (omega arith)

pub length-peek : (m : Memory) (src n : ℕ) → length (peek m src n) ≡ n
unfolding peek
length-peek m src zero = refl
length-peek m src (suc n) = ap suc (length-peek m (src + 1) n)

pub get_or-peek : (m : Memory) (src n j : ℕ) → j < n → get_or (peek m src n) j 0 ≡ m (src + j)
unfolding peek
get_or-peek m src zero j h = absurd (omega arith)
get_or-peek m src (suc n) zero h = ground arith
get_or-peek m src (suc n) (suc j) h = get_or-peek m (src + 1) n j (omega arith) ∙ ap m (omega arith)

-- Two stretches of memory with the same bytes are read alike.
pub peek_congr :
    (m k : Memory) (a b n : ℕ) → ((j : ℕ) → j < n → m (a + j) ≡ k (b + j)) → peek m a n ≡ peek k b n
peek_congr m k a b n h =
    get_or_ext 0 (peek m a n) (peek k b n) (length-peek m a n ∙ sym (length-peek k b n)) λ j q.
      let q' : j < n = omega (arith, length-peek m a n) in
      get_or-peek m a n j q' ∙ h j q' ∙ sym (get_or-peek k b n j q')

-- What was written is read back.
pub peek-poke : (m : Memory) (dst : ℕ) (bs : List ℕ) → peek (poke m dst bs) dst (length bs) ≡ bs
peek-poke m dst bs =
    get_or_ext 0 (peek (poke m dst bs) dst (length bs)) bs (length-peek _ dst (length bs)) λ j q.
      let q' : j < length bs = omega (arith, length-peek (poke m dst bs) dst (length bs)) in
      get_or-peek (poke m dst bs) dst (length bs) j q' ∙ poke_inside m dst bs j (dst + j) q' refl

-- A part of a stretch is a part of the list that is read from it.
pub peek_part :
    (m : Memory) (a n p s : ℕ) → peek m (a + p) (min s (n - p)) ≡ take s (drop p (peek m a n))
peek_part m a n p s =
    get_or_ext 0 (peek m (a + p) (min s (n - p))) (take s (drop p (peek m a n)))
      (omega (
        arith,
        left,
        length-take s (drop p (peek m a n)),
        length-drop p (peek m a n),
        length-peek m a n,
      ))
      λ j q.
        let q' : j < min s (n - p) = omega (arith, left) in
        get_or-peek m (a + p) (min s (n - p)) j q'
        ∙ ap m (omega arith)
        ∙ sym (get_or-peek m a n (p + j) (omega arith))
        ∙ sym (get_or-drop p j (peek m a n) 0)
        ∙ sym (get_or-take s j (drop p (peek m a n)) 0 (omega arith))
  where
    left : length (peek m (a + p) (min s (n - p))) ≡ min s (n - p)
    left = length-peek m (a + p) (min s (n - p))
