-- ===== src/Chain/Vrf/Sort/Exchange.antt =====
-- The exchange of two addresses in `sortByHex` (libraries/chain/vrf/vrf.go).
use gocoin.Common.{
  Bool, List, ap, arith, false, get_elem?, get_elem?-set_ne, get_elem?-set_self, inl, inr, length,
  length-set, ok, set, some, subst, sym, true, ℕ, ◌<◌, ◌∙◌, ◌≡◌, ◌≢◌, ◌≤◌,
}
use gocoin.Group.Rand.{swap}
use gocoin.Group.Rand.Perm.{swap-ok, count}
use gocoin.Chain.Vrf.Sort.Ranges.{Rearranged, NoneIn}
use native.Mathlib.Decide.{ℕ_discrete}

-- What the order of the hexadecimal strings of addresses promises.
pub record Order (less : ℕ → ℕ → Bool) : Type 0 where
  pub asymmetric : (a b : ℕ) → less a b ≡ true → less b a ≡ false
  pub transitive : (a b c : ℕ) → less b a ≡ false → less c b ≡ false → less c a ≡ false
  pub antisymmetric : (a b : ℕ) → less a b ≡ false → less b a ≡ false → a ≡ b

-- Where an exchange at `i` and `j` leaves the addresses.
pub record Swapped (xs ys : List ℕ) (i j : ℕ) (x y : ℕ) : Type 0 where
  pub swaps : swap xs i j ≡ ok ys
  pub at_first : get_elem? ys i ≡ some y
  pub at_second : get_elem? ys j ≡ some x
  pub elsewhere : (k : ℕ) → k ≢ i → k ≢ j → get_elem? ys k ≡ get_elem? xs k

pub swap-Swapped :
    (xs : List ℕ) (i j x y : ℕ)
    → i < length xs
    → j < length xs
    → get_elem? xs i ≡ some x
    → get_elem? xs j ≡ some y
    → Swapped xs (set (set xs i y) j x) i j x y
unfolding swap
swap-Swapped xs i j x y hi hj ex ey =
    let here =
      get_elem?-set_self (set xs i y) j x (subst (λ n. j < n) (sym (length-set xs i y)) hj) in
    record {
      swaps = ground arith;
      at_first = elim (ℕ_discrete j i) [
        | yes p ↦ cc
        | no p ↦ get_elem?-set_ne (set xs i y) x p ∙ get_elem?-set_self xs i y hi
      ];
      at_second = here;
      elsewhere = λ k p q.
          get_elem?-set_ne (set xs i y) x (λ e. q (sym e)) ∙ get_elem?-set_ne xs y (λ e. p (sym e));
    }

ok-inj : {x y : List ℕ} → ok x ≡ ok y → x ≡ y
ok-inj e = cc

-- An exchange within a range rearranges the range.
pub exchange-Rearranged :
    {xs ys : List ℕ} {i j x y : ℕ} (a b : ℕ)
    → a ≤ i
    → i < b
    → a ≤ j
    → j < b
    → b ≤ length xs
    → get_elem? xs i ≡ some x
    → get_elem? xs j ≡ some y
    → Swapped xs ys i j x y
    → Rearranged a b xs ys
unfolding NoneIn
exchange-Rearranged {xs} {ys} {i} {j} {x} {y} a b ai ib aj jb hb ex ey p =
    let (ys', e, c, n) = swap-ok xs i j (omega arith) (omega arith) in
    let same : ys' ≡ ys = ok-inj (sym e ∙ p.swaps) in
    record {
      same_length = subst (λ (l : List ℕ). length l ≡ length xs) same n;
      same_count = λ v. subst (λ (l : List ℕ). count v l ≡ count v xs) same (c v);
      outside = λ k out.
          p.elsewhere k
            (λ q. elim out [ inl h ↦ absurd (omega arith) | inr h ↦ absurd (omega arith) ])
            (λ q. elim out [ inl h ↦ absurd (omega arith) | inr h ↦ absurd (omega arith) ]);
      inside = λ f h k v ak kb at. elim (ℕ_discrete k i) [
        | yes q ↦ h j v aj jb (ey ∙ sym p.at_first ∙ ap (get_elem? ys) (sym q) ∙ at)
        | no q ↦ elim (ℕ_discrete k j) [
          | yes r ↦ h i v ai ib (ex ∙ sym p.at_second ∙ ap (get_elem? ys) (sym r) ∙ at)
          | no r ↦ h k v ak kb (sym (p.elsewhere k q r) ∙ at)
        ]
      ];
    }
