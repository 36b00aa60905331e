-- ===== src/Group/Rand/Perm.antt =====
-- `RandomPerm` draws distinct indices, whatever the hash is.
use gocoin.Group.Rand.{Rand, swap, modulo, random_perm, iota, shuffle, deri, big_endian}
use native.Mathlib.Decide.{ℕ_discrete}
use gocoin.Common.{
  Bytes, List, [], ap, arith, get_elem?, get_elem?-lt, get_elem?-set_ne, get_elem?-set_self,
  if◌then◌else◌, leb, length, length-set, length-take, ltb, ok, refl, set, some, suc, take, zero, ℕ,
  ◌%◌, ◌&&◌, ◌+◌, ◌-◌, ◌<◌, ◌==◌, ◌∙◌, ◌∷◌, ◌≡◌, ◌≤◌,
}

-- How often a number occurs.
abbrev pub hit : ℕ → ℕ → ℕ
hit a x = if a == x then 1 else 0

unfoldable pub count : ℕ → List ℕ → ℕ
count a [] = 0
count a (x ∷ xs) = hit a x + count a xs

count-set :
    (l : List ℕ) (i a x y : ℕ)
    → get_elem? l i ≡ some x
    → count a (set l i y) + hit a x ≡ count a l + hit a y
unfolding count
count-set [] i a x y h = cc
count-set (z ∷ l) zero a x y h = ground arith
count-set (z ∷ l) (suc i) a x y h = omega (arith, count-set l i a x y h)

count-take-le : (k a : ℕ) (l : List ℕ) → count a (take k l) ≤ count a l
unfolding count
count-take-le zero a l = omega arith
count-take-le (suc k) a [] = omega arith
count-take-le (suc k) a (x ∷ l) = omega (arith, count-take-le k a l)

-- After the first write of an exchange the second place still holds what goes to the first.
after_first :
    (l : List ℕ) (i j y : ℕ)
    → i < length l
    → get_elem? l j ≡ some y
    → get_elem? (set l i y) j ≡ some y
after_first l i j y h e = elim (ℕ_discrete i j) [
  | yes p ↦ rw (← p) (get_elem?-set_self l i y h)
  | no p ↦ get_elem?-set_ne l y p ∙ e
]

-- An exchange keeps every count and the length, and is in range.
pub swap-ok :
    (l : List ℕ) (i j : ℕ)
    → i < length l
    → j < length l
    → (l' : List ℕ) × (swap l i j ≡ ok l')
      × ((a : ℕ) → count a l' ≡ count a l)
      × (length l' ≡ length l)
unfolding swap
swap-ok l i j hi hj =
    let (x, ex) = get_elem?-lt l i hi in
    let (y, ey) = get_elem?-lt l j hj in
    (
      set (set l i y) j x,
      ground arith,
      λ a. omega (
        arith,
        count-set l i a x y ex,
        count-set (set l i y) j a y x (after_first l i j y hi ey),
      ),
      length-set (set l i y) j x ∙ length-set l i y,
    )

count-iota : (n i a : ℕ) → count a (iota i n) ≡ (if leb i a && ltb a (i + n) then 1 else 0)
unfolding count iota
count-iota zero i a = ground arith
count-iota (suc n) i a = ground (arith, count-iota n (i + 1) a)

length-iota : (n i : ℕ) → length (iota i n) ≡ n
unfolding iota
length-iota zero i = refl
length-iota (suc n) i = ap suc (length-iota n (i + 1))

module _ (keccak : Bytes → Bytes) (r : Rand) where
  modulo-ok : (s : Rand) (n : ℕ) → 0 < n → (m : ℕ) × (modulo s n ≡ ok m) × (m < n)
  unfolding modulo
  modulo-ok s zero h = absurd (omega arith)
  modulo-ok s (suc n) h = (big_endian 0 s % suc n, refl, omega arith)

  shuffle-ok :
      (k n i : ℕ) (l : List ℕ)
      → length l ≡ n
      → i + k ≤ n
      → (l' : List ℕ) × (shuffle keccak r n i k l ≡ ok l')
        × ((a : ℕ) → count a l' ≡ count a l)
        × (length l' ≡ n)
  unfolding shuffle
  shuffle-ok zero n i l e h = (l, refl, λ a. refl, e)
  shuffle-ok (suc k) n i l e h =
      let (m, em, lt) = modulo-ok (deri keccak r i) (n - i) (omega arith) in
      let (l1, e1, c1, n1) = swap-ok l i (m + i) (omega arith) (omega arith) in
      let (l2, e2, c2, n2) = shuffle-ok k n (i + 1) l1 (n1 ∙ e) (omega arith) in
      (l2, rw (em, e1) e2, λ a. c2 a ∙ c1 a, n2)

  -- For k ≤ n, whatever the hash, `RandomPerm(n, k)` comes back with k indices that lie below n
  -- and are distinct.
  pub random_perm-ok :
      (n k : ℕ)
      → k ≤ n
      → (l : List ℕ) × (random_perm keccak r n k ≡ ok l)
        × (length l ≡ k)
        × ((a : ℕ) → count a l ≤ (if ltb a n then 1 else 0))
  unfolding random_perm
  random_perm-ok n k h =
      let (l, e, c, len) = shuffle-ok k n 0 (iota 0 n) (length-iota n 0) (omega arith) in
      (
        take k l,
        ground arith,
        length-take k l (omega arith),
        λ a. ground (arith, c a, count-take-le k a l, count-iota n 0 a),
      )
