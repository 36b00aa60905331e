-- ===== src/Chain/Vrf/Sort/Sorted.antt =====
-- `sortByHex` and `SortAddresses` sort (libraries/chain/vrf/vrf.go).
use gocoin.Chain.Vrf.Sort.Partition.{partition-ok}
use gocoin.Group.Rand.Perm.{count}
use gocoin.Common.{
  Bool, Bool-cases, List, Result, arith, false, get_elem?, get_elem?-lt, if◌then◌else◌, inl, inr,
  length, ltb, ok, refl, some, subst, suc, sym, zero, ℕ, ◌+◌, ◌-◌, ◌/◌, ◌<◌, ◌∙◌, ◌≡◌, ◌≤◌,
}
use gocoin.Chain.Vrf.Sort.{sort_by_hex, sort_addresses}
use gocoin.Chain.Vrf.Sort.Ranges.{
  Rearranged, NoneIn, same_Rearranged, widen_Rearranged, then_Rearranged,
}
use gocoin.Chain.Vrf.Sort.Exchange.{Order}
use gocoin.Chain.Vrf.Sort.Split.{Split}

-- The addresses at the places from `a` to `b` are in order.
unfoldable pub SortedIn : (ℕ → ℕ → Bool) → ℕ → ℕ → List ℕ → Type 0
SortedIn less a b xs =
    (k m x y : ℕ)
    → a ≤ k
    → k < m
    → m < b
    → get_elem? xs k ≡ some x
    → get_elem? xs m ≡ some y
    → less y x ≡ false

module _ (less : ℕ → ℕ → Bool) (order : Order less) where
  -- What a sort of a range comes to.
  record Done (result : Result (List ℕ)) (l r : ℕ) (xs ys : List ℕ) : Type 0 where
    returns : result ≡ ok ys
    moved : Rearranged l r xs ys
    sorted : SortedIn less l r ys

  -- A range of fewer than two addresses.
  short-Done : (xs : List ℕ) (l r : ℕ) → r ≤ l + 1 → Done (ok xs) l r xs xs
  unfolding SortedIn
  short-Done xs l r h = record {
    returns = refl;
    moved = same_Rearranged l r xs;
    sorted = λ k m x y a b c. absurd (omega arith);
  }

  -- Where everything on the left is at most the pivot and everything on the right is at least the
  -- pivot, the two sorted parts make a sorted range.
  joined :
      {pivot l r i j : ℕ} {ys zs ws : List ℕ}
      → Split less order pivot l r ys i j
      → j ≤ i
      → Rearranged l j ys zs
      → SortedIn less l j zs
      → Rearranged i r zs ws
      → SortedIn less i r ws
      → SortedIn less l r ws
  unfolding SortedIn NoneIn
  joined {pivot} {l} {r} {i} {j} {ys} {zs} {ws} s ji left ls right rs k m x y lk km mr ek em =
      let jr = s.to_right in
      let low : NoneIn (λ v. less pivot v) l i zs =
        (widen_Rearranged (omega arith) ji left).inside (λ v. less pivot v) s.on_left in
      let high : NoneIn (λ v. less v pivot) j r ws =
        (widen_Rearranged {c = j} ji (omega arith) right).inside (λ v. less v pivot)
          (λ k v a b e. s.on_right k v a b (sym (left.outside k (inr a)) ∙ e)) in
      elim (Bool-cases (ltb m j)) [
        | inl g ↦
            ls k m x y lk km (ground arith) (sym (right.outside k (inl (ground arith))) ∙ ek)
              (sym (right.outside m (inl (ground arith))) ∙ em)
        | inr g ↦ elim (Bool-cases (ltb k i)) [
          | inr h ↦ rs k m x y (ground arith) km mr ek em
          | inl h ↦
              order.transitive x pivot y
                (low k x lk (ground arith) (sym (right.outside k (inl (ground arith))) ∙ ek))
                (high m y (ground arith) mr em)
        ]
      ]

  -- The calls of the function by itself, with their guards.
  call-ok :
      (fuel : ℕ) (xs : List ℕ) (l r : ℕ)
      → (ys : List ℕ) × Done (sort_by_hex less fuel xs l r) l r xs ys
      → (ys : List ℕ) × Done
          (if ltb (l + 1) r then sort_by_hex less fuel xs l r else ok xs)
          l
          r
          xs
          ys
  call-ok fuel xs l r (ys, d) = elim (Bool-cases (ltb (l + 1) r)) [
    | inl h ↦ (
      ys,
      record { returns = let e = d.returns in ground arith; moved = d.moved; sorted = d.sorted },
    )
    | inr h ↦
        let d = short-Done xs l r (ground arith) in
        (xs, record { returns = ground arith; moved = d.moved; sorted = d.sorted })
  ]

  -- Calls nested as deep as the range is long are enough.
  sort-ok :
      (fuel : ℕ) (xs : List ℕ) (l r : ℕ)
      → r ≤ length xs
      → r - l ≤ fuel
      → (ys : List ℕ) × Done (sort_by_hex less fuel xs l r) l r xs ys
  unfolding sort_by_hex
  sort-ok zero xs l r hr hf =
      let d = short-Done xs l r (omega arith) in
      (xs, record { returns = ground arith; moved = d.moved; sorted = d.sorted })
  sort-ok (suc fuel) xs l r hr hf = elim (Bool-cases (ltb (l + 1) r)) [
    | inr h ↦
        let d = short-Done xs l r (ground arith) in
        (xs, record { returns = ground arith; moved = d.moved; sorted = d.sorted })
    | inl h ↦
        let (pivot, at) = get_elem?-lt xs ((l + (r - 1)) / 2) (ground arith) in
        let (ys, i, j, p) =
          partition-ok less order pivot l r xs ((l + (r - 1)) / 2) hr (ground arith) (ground arith)
            at in
        let (ji, li, jr) = p.passed in
        let n = p.moved.same_length in
        let (zs, left) = call-ok fuel ys l j (sort-ok fuel ys l j (omega arith) (omega arith)) in
        let n' = left.moved.same_length in
        let (ws, right) = call-ok fuel zs i r (sort-ok fuel zs i r (omega arith) (omega arith)) in
        (
          ws,
          record {
            returns =
                (let a = p.returns in
                  let b = left.returns in let c = right.returns in ground arith);
            moved = then_Rearranged p.moved (
                then_Rearranged (widen_Rearranged (omega arith) (omega arith) left.moved)
                  (widen_Rearranged (omega arith) (omega arith) right.moved));
            sorted = joined p.split ji left.moved left.sorted right.moved right.sorted;
          },
        )
  ]

  -- If the order of the hexadecimal addresses is total, `SortAddresses` comes back on every
  -- group, within bounds: no loop needs more rounds than there are addresses and no call of
  -- `sortByHex` more calls inside one another, which would be a fault of its own. What it leaves
  -- has every address as often as before and is in order.
  pub sort_addresses-sorted :
      (xs : List ℕ)
      → (ys : List ℕ) × (sort_addresses less xs ≡ ok ys)
        × ((v : ℕ) → count v ys ≡ count v xs)
        × SortedIn less 0 (length ys) ys
  unfolding sort_addresses
  sort_addresses-sorted xs =
      let (ys, d) = sort-ok (length xs) xs 0 (length xs) (omega arith) (omega arith) in
      (
        ys,
        d.returns,
        d.moved.same_count,
        subst (λ n. SortedIn less 0 n ys) (sym d.moved.same_length) d.sorted,
      )
