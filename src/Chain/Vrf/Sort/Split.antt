-- ===== src/Chain/Vrf/Sort/Split.antt =====
-- What the partition of a range keeps to in `sortByHex` (libraries/chain/vrf/vrf.go).
use gocoin.Chain.Vrf.Sort.Scans.{get_elem?-drop}
use gocoin.Common.{
  Bool, Bool-cases, List, ap, arith, drop, false, get_elem?, inl, inr, ltb, some, suc, sym, true, ℕ,
  ◌+◌, ◌-◌, ◌<◌, ◌∙◌, ◌≡◌, ◌≤◌, ◌⊎◌,
}
use gocoin.Chain.Vrf.Sort.Ranges.{NoneIn}
use gocoin.Chain.Vrf.Sort.Exchange.{Order, Swapped}
use native.Mathlib.Decide.{ℕ_discrete}

module _ (less : ℕ → ℕ → Bool) (order : Order less) (pivot l r : ℕ) where
  -- What stands to the left of `i` is not above the pivot, and from `j` on nothing is below it.
  pub record Split (xs : List ℕ) (i j : ℕ) : Type 0 where
    pub on_left : NoneIn (λ v. less pivot v) l i xs
    pub on_right : NoneIn (λ v. less v pivot) j r xs
    pub from_left : l ≤ i
    pub to_right : j ≤ r

  -- What stops both scans, and either a first exchange that is still to come or one that was made.
  pub record Ahead (xs : List ℕ) (i j : ℕ) : Type 0 where
    pub up : ℕ
    pub down : ℕ
    pub stop_up : ℕ
    pub stop_down : ℕ
    pub up_lt : i + up < r
    pub down_lt : down < j
    pub down_ge : l ≤ down
    pub at_up : get_elem? xs (i + up) ≡ some stop_up
    pub at_down : get_elem? xs down ≡ some stop_down
    pub not_below : less stop_up pivot ≡ false
    pub not_above : less pivot stop_down ≡ false
    pub first : i + up ≤ down ⊎ ((l < i) × (j < r))

  -- Both ends have moved, and have passed each other.
  abbrev pub Passed : ℕ → ℕ → Type 0
  Passed i j = (j ≤ i) × (l < i) × (j < r)

  pub scanned_up :
      (xs : List ℕ) (i e : ℕ)
      → NoneIn (λ v. less pivot v) l i xs
      → ((k v : ℕ) → k < e → get_elem? (drop i xs) k ≡ some v → less v pivot ≡ true)
      → NoneIn (λ v. less pivot v) l (i + e) xs
  unfolding NoneIn
  scanned_up xs i e h below k v lk kb at = elim (Bool-cases (ltb k i)) [
    | inl q ↦ h k v lk (ground arith) at
    | inr q ↦ order.asymmetric v pivot (
        below (k - i) v (ground arith)
          (get_elem?-drop i xs (k - i) ∙ ap (get_elem? xs) (ground arith) ∙ at))
  ]

  pub scanned_down :
      (xs : List ℕ) (j e : ℕ)
      → NoneIn (λ v. less v pivot) j r xs
      → ((k v : ℕ) → e < k → k < j → get_elem? xs k ≡ some v → less pivot v ≡ true)
      → NoneIn (λ v. less v pivot) (suc e) r xs
  unfolding NoneIn
  scanned_down xs j e h above k v lk kb at = elim (Bool-cases (ltb k j)) [
    | inl q ↦ order.asymmetric pivot v (above k v (ground arith) (ground arith) at)
    | inr q ↦ h k v (ground arith) kb at
  ]

  -- The exchange takes one more address to each side.
  pub exchanged :
      {xs ys : List ℕ} {i j x y : ℕ}
      → Swapped xs ys i j x y
      → i ≤ j
      → less pivot y ≡ false
      → less x pivot ≡ false
      → NoneIn (λ v. less pivot v) l i xs
      → NoneIn (λ v. less v pivot) (suc j) r xs
      → NoneIn (λ v. less pivot v) l (i + 1) ys × NoneIn (λ v. less v pivot) j r ys
  unfolding NoneIn
  exchanged {xs} {ys} {i} {j} {x} {y} p ij hy hx left right = (
    λ k v lk kb at. elim (ℕ_discrete k i) [
      | yes q ↦ let e = p.at_first in cc
      | no q ↦ left k v lk (omega arith) (sym (p.elsewhere k q (λ e. absurd (omega arith))) ∙ at)
    ],
    λ k v lk kb at. elim (ℕ_discrete k j) [
      | yes q ↦ let e = p.at_second in cc
      | no q ↦ right k v (omega arith) kb (sym (p.elsewhere k (λ e. absurd (omega arith)) q) ∙ at)
    ],
  )

  -- A range that is used up has been passed.
  pub used_up : {xs : List ℕ} {i j : ℕ} → Ahead xs i j ⊎ Passed i j → j ≤ i → Passed i j
  used_up (inr p) h = p
  used_up (inl a) h =
      let d = a.down_lt in elim a.first [ inl q ↦ absurd (omega arith) | inr q ↦ (h, q.0, q.1) ]
