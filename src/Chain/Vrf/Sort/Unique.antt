-- ===== src/Chain/Vrf/Sort/Unique.antt =====
-- Every node puts the addresses of a group into the same order (libraries/chain/vrf/vrf.go).
use gocoin.Common.{
  Bool, Bool-cases, List, [], ap, arith, false, get_elem?, inl, inr, length, ok, refl, some, suc,
  sym, zero, ℕ, ◌<◌, ◌==◌, ◌∙◌, ◌∷◌, ◌≡◌,
}
use gocoin.Group.Rand.Perm.{count}
use gocoin.Chain.Vrf.{Vrf}
use gocoin.Chain.Vrf.Sort.{new_vrf}
use gocoin.Chain.Vrf.Sort.Exchange.{Order}
use gocoin.Chain.Vrf.Sort.Sorted.{SortedIn, sort_addresses-sorted}

-- An address that is counted stands somewhere.
counted :
    (v : ℕ) (xs : List ℕ) → 0 < count v xs → (k : ℕ) × (k < length xs) × (get_elem? xs k ≡ some v)
unfolding count
counted v [] h = absurd (omega arith)
counted v (x ∷ xs) h = elim (Bool-cases (v == x)) [
  | inl e ↦ (0, omega arith, ap some (ground arith))
  | inr e ↦ let (k, lt, at) = counted v xs (ground arith) in (suc k, omega arith, at)
]

module _ (less : ℕ → ℕ → Bool) (order : Order less) where
  -- The head of a sorted list is at most what stands at any place.
  head_least :
      (x y : ℕ) (xs : List ℕ) (k : ℕ)
      → SortedIn less 0 (length (x ∷ xs)) (x ∷ xs)
      → k < length (x ∷ xs)
      → get_elem? (x ∷ xs) k ≡ some y
      → less y x ≡ false
  unfolding SortedIn
  head_least x y xs zero s lt at = elim (Bool-cases (less y x)) [
    | inl h ↦ let g = order.asymmetric y x h in cc
    | inr h ↦ h
  ]
  head_least x y xs (suc k) s lt at = s 0 (suc k) x y (omega arith) (omega arith) lt refl at

  least :
      (x y : ℕ) (xs : List ℕ)
      → SortedIn less 0 (length (x ∷ xs)) (x ∷ xs)
      → 0 < count y (x ∷ xs)
      → less y x ≡ false
  least x y xs s h = let (k, lt, at) = counted y (x ∷ xs) h in head_least x y xs k s lt at

  tail-SortedIn :
      (x : ℕ) (xs : List ℕ)
      → SortedIn less 0 (length (x ∷ xs)) (x ∷ xs)
      → SortedIn less 0 (length xs) xs
  unfolding SortedIn
  tail-SortedIn x xs s k m a b h lt hm ea eb =
      s (suc k) (suc m) a b (omega arith) (omega arith) (omega arith) ea eb

  -- Sorted lists with the same addresses are the same.
  pub sorted_unique :
      (xs ys : List ℕ)
      → SortedIn less 0 (length xs) xs
      → SortedIn less 0 (length ys) ys
      → ((v : ℕ) → count v xs ≡ count v ys)
      → xs ≡ ys
  unfolding count
  sorted_unique [] [] s t c = refl
  sorted_unique [] (y ∷ ys) s t c = absurd (ground (arith, c y))
  sorted_unique (x ∷ xs) [] s t c = absurd (ground (arith, c x))
  sorted_unique (x ∷ xs) (y ∷ ys) s t c =
      let e : x ≡ y =
        order.antisymmetric x y (least y x ys t (ground (arith, c x)))
          (least x y xs s (ground (arith, c y))) in
      let rest : xs ≡ ys =
        sorted_unique xs ys (tail-SortedIn x xs s) (tail-SortedIn y ys t)
          (λ v. ground (arith, c v)) in
      cc

  -- If the order of the hexadecimal addresses is total, `NewVrf` comes back with the same result
  -- on any two lists that have the same addresses equally often, so that all nodes with one
  -- group take the same turns.
  pub new_vrf-agree :
      (id addr : ℕ) (xs ys : List ℕ)
      → ((v : ℕ) → count v xs ≡ count v ys)
      → (f : Vrf) × (new_vrf less id addr xs ≡ ok f) × (new_vrf less id addr ys ≡ ok f)
  unfolding new_vrf
  new_vrf-agree id addr xs ys c =
      let (xs', ex, cx, sx) = sort_addresses-sorted less order xs in
      let (ys', ey, cy, sy) = sort_addresses-sorted less order ys in
      let same = sorted_unique xs' ys' sx sy (λ v. cx v ∙ c v ∙ sym (cy v)) in
      (
        record { group_id = id; address = addr; group_address = xs'; coin_validate_info = [] },
        ground arith,
        ground arith,
      )
