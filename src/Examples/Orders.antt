-- ===== src/Examples/Orders.antt =====
-- The order of a group's addresses at concrete inputs.
use gocoin.Common.{Bool, List, [], arith, length, ltb, ok, ℕ, ◌∷◌, ◌≡◌}
use gocoin.Chain.Vrf.{Vrf}
use gocoin.Chain.Vrf.Sort.{sort_addresses, new_vrf}
use gocoin.Chain.Vrf.Sort.Exchange.{Order}
use gocoin.Chain.Vrf.Sort.Sorted.{SortedIn, sort_addresses-sorted}
use gocoin.Chain.Vrf.Sort.Unique.{new_vrf-agree}
use gocoin.Group.Rand.Perm.{count}

abbrev pub less : ℕ → ℕ → Bool
less a b = ltb a b

less-Order : Order less
less-Order = record {
  asymmetric = λ a b h. ground arith;
  transitive = λ a b c h g. ground arith;
  antisymmetric = λ a b h g. ground arith;
}

sort_addresses-sorted_example :
    (ys : List ℕ) × (sort_addresses less (30 ∷ 10 ∷ 20 ∷ 10 ∷ []) ≡ ok ys)
    × ((v : ℕ) → count v ys ≡ count v (30 ∷ 10 ∷ 20 ∷ 10 ∷ []))
    × SortedIn less 0 (length ys) ys
sort_addresses-sorted_example = sort_addresses-sorted less less-Order (30 ∷ 10 ∷ 20 ∷ 10 ∷ [])

same_counts : (v : ℕ) → count v (30 ∷ 10 ∷ 20 ∷ []) ≡ count v (20 ∷ 30 ∷ 10 ∷ [])
unfolding count
same_counts v = ground arith

new_vrf-agree_example :
    (f : Vrf) × (new_vrf less 7 20 (30 ∷ 10 ∷ 20 ∷ []) ≡ ok f)
    × (new_vrf less 7 20 (20 ∷ 30 ∷ 10 ∷ []) ≡ ok f)
new_vrf-agree_example =
    new_vrf-agree less less-Order 7 20 (30 ∷ 10 ∷ 20 ∷ []) (20 ∷ 30 ∷ 10 ∷ []) same_counts
