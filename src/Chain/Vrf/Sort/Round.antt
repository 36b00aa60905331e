-- ===== src/Chain/Vrf/Sort/Round.antt =====
-- One round of the loop of `sortByHex` (libraries/chain/vrf/vrf.go).
use gocoin.Chain.Vrf.Sort.Split.{Split, Ahead, Passed, scanned_up, scanned_down, exchanged}
use gocoin.Chain.Vrf.Sort.{exchange, scan_up, scan_down}
use gocoin.Chain.Vrf.Sort.Scans.{get_elem?-drop, scan_up-ok, scan_down-ok}
use gocoin.Common.{
  Bool, Bool-cases, List, ap, arith, drop, false, get_elem?, inl, inr, length, ltb, ok, set, suc,
  sym, ℕ, ◌+◌, ◌-◌, ◌<◌, ◌∙◌, ◌≡◌, ◌≤◌, ◌⊎◌,
}
use gocoin.Chain.Vrf.Sort.Ranges.{Rearranged, same_Rearranged}
use gocoin.Chain.Vrf.Sort.Exchange.{Order, swap-Swapped, exchange-Rearranged, Swapped}

module _ (less : ℕ → ℕ → Bool) (order : Order less) (pivot l r : ℕ) where
  -- What one round of the loop comes to.
  pub record Round (xs : List ℕ) (i j : ℕ) (ys : List ℕ) (i' j' : ℕ) : Type 0 where
    pub i1 : ℕ
    pub j1 : ℕ
    pub goes_up : scan_up less pivot i (drop i xs) ≡ ok i1
    pub goes_down : scan_down less pivot xs j ≡ ok j1
    pub exchanges : exchange less xs i1 j1 ≡ ok (ys, i', j')
    pub moved : Rearranged l r xs ys
    pub split : Split less order pivot l r ys i' j'
    pub next : Ahead less order pivot l r ys i' j' ⊎ Passed less order pivot l r i' j'
    pub closer : j' - i' < j - i

  -- After an exchange the two addresses stop the next scans, if the range is not used up.
  exchanged-next :
      {xs ys : List ℕ} {i f x y : ℕ}
      → Swapped xs ys i f x y
      → l ≤ i
      → i ≤ f
      → f < r
      → less x pivot ≡ false
      → less pivot y ≡ false
      → Ahead less order pivot l r ys (i + 1) f ⊎ Passed less order pivot l r (i + 1) f
  exchanged-next {xs} {ys} {i} {f} {x} {y} p li if_le fr low high = elim (Bool-cases (ltb i f)) [
    | inl m ↦ inl (record {
      up = f - (i + 1);
      down = i;
      stop_up = x;
      stop_down = y;
      up_lt = ground arith;
      down_lt = ground arith;
      down_ge = li;
      at_up = ap (get_elem? ys) (ground arith) ∙ p.at_second;
      at_down = p.at_first;
      not_below = low;
      not_above = high;
      first = inr (omega arith, omega arith);
    })
    | inr m ↦ inr (ground arith, omega arith, omega arith)
  ]

  -- A round comes back, and keeps what it is to keep.
  pub Round-ok :
      (xs : List ℕ) (i j : ℕ)
      → r ≤ length xs
      → i < j
      → Split less order pivot l r xs i j
      → Ahead less order pivot l r xs i j
      → (ys : List ℕ) × (i' : ℕ) × (j' : ℕ) × Round xs i j ys i' j'
  unfolding exchange
  Round-ok xs i j hr ij s a =
      let (e, x, goes_up, le, at_x, low, below) =
        scan_up-ok less pivot i (drop i xs) a.up a.stop_up (get_elem?-drop i xs a.up ∙ a.at_up)
          a.not_below in
      let jr = s.to_right in
      let li = s.from_left in
      let first = a.first in
      let ge_l = a.down_ge in
      let up_r = a.up_lt in
      let (f, y, goes_down, ge, lt, at_y, high, above) =
        scan_down-ok less pivot xs j a.down a.stop_down (omega arith) a.down_lt a.at_down
          a.not_above in
      let left = scanned_up less order pivot l r xs i e s.on_left below in
      let right = scanned_down less order pivot l r xs j f s.on_right above in
      let here = sym (get_elem?-drop i xs e) ∙ at_x in
      elim (Bool-cases (ltb (i + e) (suc f))) [
        | inl g ↦
            let p = swap-Swapped xs (i + e) f x y (ground arith) (omega arith) here at_y in
            let (left', right') =
              exchanged less order pivot l r p (ground arith) high low left right in
            (
              set (set xs (i + e) y) f x,
              i + e + 1,
              f,
              record {
                i1 = i + e;
                j1 = suc f;
                goes_up = goes_up;
                goes_down = goes_down;
                exchanges = let q = p.swaps in ground arith;
                moved =
                    exchange-Rearranged l r (omega arith) (ground arith) (omega arith) (omega arith)
                      hr here at_y p;
                split = record {
                  on_left = left';
                  on_right = right';
                  from_left = omega arith;
                  to_right = omega arith;
                };
                next = exchanged-next p (omega arith) (ground arith) (omega arith) low high;
                closer = ground arith;
              },
            )
        | inr g ↦ (
          xs,
          i + e,
          suc f,
          record {
            i1 = i + e;
            j1 = suc f;
            goes_up = goes_up;
            goes_down = goes_down;
            exchanges = ground arith;
            moved = same_Rearranged l r xs;
            split = record {
              on_left = left;
              on_right = right;
              from_left = omega arith;
              to_right = omega arith;
            };
            next = inr (
              ground arith,
              elim first [ inl q ↦ ground arith | inr q ↦ ground arith ],
              elim first [ inl q ↦ ground arith | inr q ↦ ground arith ],
            );
            closer = ground arith;
          },
        )
      ]
