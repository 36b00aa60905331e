-- ===== src/Chain/Vrf/Sort.antt =====
-- The order of a group's addresses: `sortByHex`, `SortAddresses` and `NewVrf` in
-- libraries/chain/vrf/vrf.go. The comparison of two addresses by `Hex` is a parameter. The end of
-- a range and the place that moves down are one more than in the code, where they may be -1.
pub mod Ranges
pub mod Scans
pub mod Exchange
pub mod Split
pub mod Round
pub mod Partition
pub mod Sorted
pub mod Unique
use gocoin.Common.{
  Bool, List, Result, [], drop, get_elem?, if◌then◌else◌, index_out_of_range, length, ltb, none, ok,
  out_of_fuel, panic, some, suc, zero, ℕ, ◌+◌, ◌-◌, ◌/◌, ◌∷◌, ◌>>=◌,
}
use gocoin.Chain.Vrf.{Vrf}
use gocoin.Group.Rand.{swap}

-- `addresses[i]`
abbrev pub address_at : List ℕ → ℕ → Result ℕ
address_at xs i = elim (get_elem? xs i) [ none ↦ panic index_out_of_range | some x ↦ ok x ]

module _ (less : ℕ → ℕ → Bool) where
  -- `for addresses[i].Hex() < pivot { i++ }`, on the addresses from `i` on.
  unfoldable pub scan_up : ℕ → ℕ → List ℕ → Result ℕ
  scan_up pivot i [] = panic index_out_of_range
  scan_up pivot i (x ∷ xs) =
      let further = scan_up pivot (i + 1) xs in if less x pivot then further else ok i

  -- `for addresses[j].Hex() > pivot { j-- }`
  unfoldable pub scan_down : ℕ → List ℕ → ℕ → Result ℕ
  scan_down pivot xs zero = panic index_out_of_range
  scan_down pivot xs (suc j) =
      let further = scan_down pivot xs j in
      elim (get_elem? xs j) [
        | none ↦ panic index_out_of_range
        | some y ↦ if less pivot y then further else ok (suc j)
      ]

  -- `if i <= j { ... }`: the exchange, and the two steps.
  abbrev pub exchange : List ℕ → ℕ → ℕ → Result (List ℕ × ℕ × ℕ)
  unfolding swap
  exchange xs i j =
      if ltb i j then (do ys ← swap xs i (j - 1); ok (ys, i + 1, j - 1)) else ok (xs, i, j)

  -- The loop `for i <= j`, for at most `fuel` rounds; a loop that needs more of them does not come
  -- back.
  unfoldable pub partition : ℕ → ℕ → List ℕ → ℕ → ℕ → Result (List ℕ × ℕ × ℕ)
  unfolding scan_up scan_down
  partition zero pivot xs i j = if ltb i j then panic out_of_fuel else ok (xs, i, j)
  partition (suc fuel) pivot xs i j =
      if ltb i j
      then (do
        i' ← scan_up pivot i (drop i xs)
        j' ← scan_down pivot xs j
        (ys, i', j') ← exchange xs i' j'
        partition fuel pivot ys i' j')
      else ok (xs, i, j)

  -- `sortByHex`, with calls nested at most `fuel` deep; one that needs to go deeper does not come
  -- back.
  unfoldable pub sort_by_hex : ℕ → List ℕ → ℕ → ℕ → Result (List ℕ)
  unfolding partition
  sort_by_hex zero xs l r = if ltb (l + 1) r then panic out_of_fuel else ok xs
  sort_by_hex (suc fuel) xs l r =
      if ltb (l + 1) r
      then (do
        pivot ← address_at xs ((l + (r - 1)) / 2)
        (ys, i, j) ← partition (length xs) pivot xs l r
        zs ← if ltb (l + 1) j then sort_by_hex fuel ys l j else ok ys
        if ltb (i + 1) r then sort_by_hex fuel zs i r else ok zs)
      else ok xs

  -- `SortAddresses`
  unfoldable pub sort_addresses : List ℕ → Result (List ℕ)
  unfolding sort_by_hex
  sort_addresses xs = sort_by_hex (length xs) xs 0 (length xs)

  -- `NewVrf`
  unfoldable pub new_vrf : ℕ → ℕ → List ℕ → Result Vrf
  unfolding sort_addresses
  new_vrf id addr addrs = do
    sorted ← sort_addresses addrs
    ok (record { group_id = id; address = addr; group_address = sorted; coin_validate_info = [] })
