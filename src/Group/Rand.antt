-- ===== src/Group/Rand.antt =====
-- Random numbers and permutations that are derived from a hash
-- (libraries/chain/validategroup/validategroup.go). The hash is `crypto.Keccak256`, a parameter.
pub mod Perm
use gocoin.Common.{
  Bytes, List, Result, [], division_by_zero, get_elem?, if◌then◌else◌, index_out_of_range, leb,
  length, ltb, none, ok, panic, set, some, suc, take, zero, ℕ, ◌%◌, ◌*◌, ◌++◌, ◌+◌, ◌-◌, ◌/◌, ◌∷◌,
  ◌>>=◌,
}

abbrev pub Rand : Type 0
Rand = Bytes

abbrev rand_length : ℕ
rand_length = 32

-- `make([]byte, RandLength)` with as much of `h` copied into it as fits.
fit : ℕ → Bytes → Bytes
fit zero h = []
fit (suc n) [] = 0 ∷ fit n []
fit (suc n) (x ∷ h) = x ∷ fit n h

-- `strconv.Itoa` on a number that is not negative; `fuel` bounds the number of digits.
unfoldable pub itoa_digits : ℕ → ℕ → Bytes → Bytes
itoa_digits zero n rest = rest
itoa_digits (suc fuel) n rest =
    let more = itoa_digits fuel (n / 10) ((48 + n % 10) ∷ rest) in
    if ltb n 10 then (48 + n) ∷ rest else more

unfoldable pub itoa : ℕ → Bytes
unfolding itoa_digits
itoa n = itoa_digits (n + 1) n []

-- `big.Int.SetBytes`
pub big_endian : ℕ → Bytes → ℕ
big_endian acc [] = acc
big_endian acc (x ∷ r) = big_endian (acc * 256 + x) r

-- `big.Int.Mod`, which panics for the modulus 0.
unfoldable pub modulo : Rand → ℕ → Result ℕ
unfolding big_endian
modulo r zero = panic division_by_zero
modulo r (suc n) = ok (big_endian 0 r % suc n)

unfoldable pub iota : ℕ → ℕ → List ℕ
iota i zero = []
iota i (suc n) = i ∷ iota (i + 1) n

-- `l[i], l[j] = l[j], l[i]`
unfoldable pub swap : List ℕ → ℕ → ℕ → Result (List ℕ)
swap l i j = elim (get_elem? l i) [
  | none ↦ panic index_out_of_range
  | some x ↦ elim (get_elem? l j) [
    | none ↦ panic index_out_of_range
    | some y ↦ ok (set (set l i y) j x)
  ]
]

module _ (keccak : Bytes → Bytes) where
  unfoldable pub rand_from_bytes : Bytes → Rand
  unfolding fit
  rand_from_bytes b = fit rand_length (keccak b)

  unfoldable pub derived_rand : Rand → Bytes → Rand
  derived_rand r idx = rand_from_bytes (keccak (take rand_length r ++ idx))

  unfoldable pub deri : Rand → ℕ → Rand
  unfolding derived_rand itoa
  deri r i = derived_rand r (itoa i)

  -- The loop of `RandomPerm`, with `k` rounds left, at round `i`; `n - i` is a Go `int` that a
  -- round reaches only while it is not negative.
  unfoldable pub shuffle : Rand → ℕ → ℕ → ℕ → List ℕ → Result (List ℕ)
  unfolding modulo swap
  shuffle r n i zero l = ok l
  shuffle r n i (suc k) l = do
    m ← modulo (deri r i) (n - i)
    l' ← swap l i (m + i)
    shuffle r n (i + 1) k l'

  -- `RandomPerm`: `k` of the indices below `n`.
  unfoldable pub random_perm : Rand → ℕ → ℕ → Result (List ℕ)
  unfolding shuffle iota
  random_perm r n k = do
    l ← shuffle r n 0 k (iota 0 n)
    if leb k (length l) then ok (take k l) else panic index_out_of_range
