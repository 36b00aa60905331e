-- ===== src/Chain/Vrf/Turns.antt =====
-- The turns of the proposers: `ValidateBlock` of libraries/chain/vrf/vrf.go.
use gocoin.Chain.Vrf.{shift_left, sort_index_from, Hashes, validate_turn, Vrf}
use gocoin.Common.{
  List, [], ap, arith, false, get_elem?, if◌then◌else◌, length, ltb, ok, refl, some, suc, true,
  zero, ℕ, ◌%◌, ◌*◌, ◌+◌, ◌-◌, ◌<◌, ◌==◌, ◌^◌, ◌∙◌, ◌∷◌, ◌≡◌, ◌≢◌, ◌⊎◌,
}

-- How far a position is from the one that is drawn, around the group.
abbrev pub turn : ℕ → ℕ → ℕ → ℕ
turn i index n = if ltb i index then n - index + i else i - index

sort_index-outsider :
    (i : ℕ) (addrs : List ℕ) (a index n found : ℕ)
    → ((j : ℕ) → get_elem? addrs j ≢ some a)
    → sort_index_from i addrs a index n found ≡ found
unfolding sort_index_from
sort_index-outsider i [] a index n found absent = refl
sort_index-outsider i (b ∷ bs) a index n found absent =
    let other : b ≢ a = λ e. absent 0 (ap some e) in
    let at_head : (b == a) ≡ false = ground arith in
    rw at_head (sort_index-outsider (i + 1) bs a index n found (λ j. absent (suc j)))

sort_index-member :
    (i : ℕ) (addrs : List ℕ) (a index n found j : ℕ)
    → get_elem? addrs j ≡ some a
    → ((k : ℕ) → get_elem? addrs k ≡ some a → k ≡ j)
    → sort_index_from i addrs a index n found ≡ turn (i + j) index n
unfolding sort_index_from
sort_index-member i [] a index n found j e only = ground arith
sort_index-member i (b ∷ bs) a index n found zero e only =
    let at_head : (b == a) ≡ true = ground arith in
    let absent : (k : ℕ) → get_elem? bs k ≢ some a =
      λ k q. absurd (omega (arith, only (suc k) q)) in
    rw at_head (sort_index-outsider (i + 1) bs a index n (turn i index n) absent ∙ ground arith)
sort_index-member i (b ∷ bs) a index n found (suc j) e only =
    let other : b ≢ a = λ q. absurd (omega (arith, only 0 (ap some q))) in
    let at_head : (b == a) ≡ false = ground arith in
    rw at_head (
      sort_index-member (i + 1) bs a index n found j e (λ k q. omega (arith, only (suc k) q))
      ∙ ground arith)

shift_left_pow : (k sum : ℕ) → shift_left k sum ≡ sum * 2 ^ k
unfolding shift_left
shift_left_pow zero sum = omega arith
shift_left_pow (suc k) sum = grind (arith, shift_left_pow k (sum * 2))

-- The group has no address twice.
abbrev pub AreDistinct : List ℕ → Type 0
AreDistinct addrs = (j k a : ℕ) → get_elem? addrs j ≡ some a → get_elem? addrs k ≡ some a → k ≡ j

get_elem?-some-lt : (xs : List ℕ) (j a : ℕ) → get_elem? xs j ≡ some a → j < length xs
get_elem?-some-lt [] j a e = ground arith
get_elem?-some-lt (y ∷ ys) zero a e = omega arith
get_elem?-some-lt (y ∷ ys) (suc j) a e = omega (arith, get_elem?-some-lt ys j a e)

abbrev pub capped : ℕ → ℕ
capped k = if ltb 10 k then 10 else k

module _ (x : Hashes) where
  -- In a group without repetitions, `ValidateBlock` gives the member at a position the distance
  -- of that position, around the group, from the one that the hash draws, capped at 10, and the
  -- coefficient is one over two to that power.
  pub validate_turn-member :
      (number blockhash address j : ℕ) (f : Vrf)
      → AreDistinct f.group_address
      → get_elem? f.group_address j ≡ some address
      → (k : ℕ) × (validate_turn x number blockhash address f ≡ ok (2 ^ capped k, capped k))
        × (k < length f.group_address)
        × ((k + x.of_block number blockhash % length f.group_address ≡ j)
            ⊎ (k + x.of_block number blockhash % length f.group_address
                ≡ j + length f.group_address))
  unfolding validate_turn
  validate_turn-member number blockhash address j f distinct e =
      let n = length f.group_address in
      let index = x.of_block number blockhash % n in
      let lt = get_elem?-some-lt f.group_address j address e in
      let found =
        sort_index-member 0 f.group_address address index n 0 j e
          (λ k q. distinct j k address e q) in
      let pow = shift_left_pow (capped (turn j index n)) 1 in
      (turn j index n, ground (arith, found, pow), ground arith, ground arith)

  -- `ValidateBlock` gives every address outside a group that is not empty the index 0 and the
  -- coefficient 1.
  pub validate_turn-outsider :
      (number blockhash address : ℕ) (f : Vrf)
      → 0 < length f.group_address
      → ((j : ℕ) → get_elem? f.group_address j ≢ some address)
      → validate_turn x number blockhash address f ≡ ok (1, 0)
  unfolding validate_turn shift_left
  validate_turn-outsider number blockhash address f nonempty absent =
      let index = x.of_block number blockhash % length f.group_address in
      ground (
        arith,
        sort_index-outsider 0 f.group_address address index (length f.group_address) 0 absent,
      )
