-- ===== src/Chain/Vrf/Sort/Partition.antt =====
-- The partition of a range in `sortByHex` (libraries/chain/vrf/vrf.go).
use gocoin.Chain.Vrf.Sort.Round.{Round-ok}
use gocoin.Chain.Vrf.Sort.Split.{Split, Ahead, Passed, used_up}
use gocoin.Chain.Vrf.Sort.{partition}
use gocoin.Common.{
  Bool, Bool-cases, List, ap, arith, false, get_elem?, inl, inr, length, ltb, ok, some, subst, suc,
  sym, zero, ℕ, ◌-◌, ◌<◌, ◌∙◌, ◌≡◌, ◌≤◌, ◌⊎◌,
}
use gocoin.Chain.Vrf.Sort.Ranges.{Rearranged, same_Rearranged, then_Rearranged, NoneIn}
use gocoin.Chain.Vrf.Sort.Exchange.{Order}

module _ (less : ℕ → ℕ → Bool) (order : Order less) (pivot l r : ℕ) where
  -- What the loop comes to.
  pub record Parted (fuel : ℕ) (xs : List ℕ) (i j : ℕ) (ys : List ℕ) (i' j' : ℕ) : Type 0 where
    pub returns : partition less fuel pivot xs i j ≡ ok (ys, i', j')
    pub moved : Rearranged l r xs ys
    pub split : Split less order pivot l r ys i' j'
    pub passed : Passed less order pivot l r i' j'

  -- A number of rounds that is at least the length of the range is enough.
  loop-ok :
      (fuel : ℕ) (xs : List ℕ) (i j : ℕ)
      → r ≤ length xs
      → j - i ≤ fuel
      → Split less order pivot l r xs i j
      → Ahead less order pivot l r xs i j ⊎ Passed less order pivot l r i j
      → (ys : List ℕ) × (i' : ℕ) × (j' : ℕ) × Parted fuel xs i j ys i' j'
  unfolding partition
  loop-ok zero xs i j hr hf s next = (
    xs,
    i,
    j,
    record {
      returns =
          (let done = used_up less order pivot l r next (omega arith) in
            let at_end = done.0 in ground arith);
      moved = same_Rearranged l r xs;
      split = s;
      passed = used_up less order pivot l r next (omega arith);
    },
  )
  loop-ok (suc fuel) xs i j hr hf s next = elim (Bool-cases (ltb i j)) [
    | inl g ↦ elim next [
      | inr p ↦ absurd (ground arith)
      | inl a ↦
          let (ys, i', j', round) = Round-ok less order pivot l r xs i j hr (ground arith) s a in
          let (zs, i2, j2, rest) =
            loop-ok fuel ys i' j' (subst (λ n. r ≤ n) (sym round.moved.same_length) hr)
              (let c = round.closer in omega arith) round.split round.next in
          (
            zs,
            i2,
            j2,
            record {
              returns =
                  (let a = round.goes_up in
                    let b = round.goes_down in
                    let c = round.exchanges in let d = rest.returns in ground arith);
              moved = then_Rearranged round.moved rest.moved;
              split = rest.split;
              passed = rest.passed;
            },
          )
    ]
    | inr g ↦ (
      xs,
      i,
      j,
      record {
        returns = ground arith;
        moved = same_Rearranged l r xs;
        split = s;
        passed = used_up less order pivot l r next (ground arith);
      },
    )
  ]

  -- The whole loop, on the range with the pivot in it.
  pub partition-ok :
      (xs : List ℕ) (m : ℕ)
      → r ≤ length xs
      → l ≤ m
      → m < r
      → get_elem? xs m ≡ some pivot
      → (ys : List ℕ) × (i : ℕ) × (j : ℕ) × Parted (length xs) xs l r ys i j
  unfolding NoneIn
  partition-ok xs m hr lm mr at =
      let same : less pivot pivot ≡ false = elim (Bool-cases (less pivot pivot)) [
        | inl h ↦ order.asymmetric pivot pivot h
        | inr h ↦ h
      ] in
      let start : Split less order pivot l r xs l r = record {
        on_left = λ k v a b. absurd (omega arith);
        on_right = λ k v a b. absurd (omega arith);
        from_left = omega arith;
        to_right = omega arith;
      } in
      let ahead : Ahead less order pivot l r xs l r = record {
        up = m - l;
        down = m;
        stop_up = pivot;
        stop_down = pivot;
        up_lt = omega arith;
        down_lt = mr;
        down_ge = lm;
        at_up = ap (get_elem? xs) (omega arith) ∙ at;
        at_down = at;
        not_below = same;
        not_above = same;
        first = inl (omega arith);
      } in
      loop-ok (length xs) xs l r hr (omega arith) start (inl ahead)
