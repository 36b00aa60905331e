-- ===== src/Chain/Vrf/Sort/Scans.antt =====
-- The two scans for an exchange in `sortByHex` (libraries/chain/vrf/vrf.go).
use gocoin.Common.{
  Bool, Bool-cases, List, [], ap, arith, drop, false, get_elem?, get_elem?-lt, inl, inr, length, ok,
  refl, some, suc, true, zero, ℕ, ◌+◌, ◌<◌, ◌∙◌, ◌∷◌, ◌≡◌, ◌≤◌,
}
use native.Mathlib.Decide.{ℕ_discrete}
use gocoin.Chain.Vrf.Sort.{scan_up, scan_down}

pub get_elem?-drop : (n : ℕ) (xs : List ℕ) (k : ℕ) → get_elem? (drop n xs) k ≡ get_elem? xs (n + k)
get_elem?-drop zero xs k = ap (get_elem? xs) (omega arith)
get_elem?-drop (suc n) [] k = refl
get_elem?-drop (suc n) (x ∷ xs) k =
    get_elem?-drop n xs k ∙ ap (get_elem? (x ∷ xs)) {x = suc (n + k)} (omega arith)

-- A test that holds at the head and at the first `e` places after it.
holds_next :
    (f : ℕ → Bool) (x : ℕ) (s : List ℕ) (e : ℕ)
    → f x ≡ true
    → ((k v : ℕ) → k < e → get_elem? s k ≡ some v → f v ≡ true)
    → (k v : ℕ) → k < suc e
    → get_elem? (x ∷ s) k ≡ some v
    → f v ≡ true
holds_next f x s e h g zero v lt at = cc
holds_next f x s e h g (suc k) v lt at = g k v (omega arith) at

module _ (less : ℕ → ℕ → Bool) where
  -- Where an address that does not lie below the pivot is ahead, the scan up stops at the first
  -- such address.
  pub scan_up-ok :
      (pivot i : ℕ) (s : List ℕ) (d u : ℕ)
      → get_elem? s d ≡ some u
      → less u pivot ≡ false
      → (e x : ℕ) × (scan_up less pivot i s ≡ ok (i + e))
        × (e ≤ d)
        × (get_elem? s e ≡ some x)
        × (less x pivot ≡ false)
        × ((k v : ℕ) → k < e → get_elem? s k ≡ some v → less v pivot ≡ true)
  unfolding scan_up
  scan_up-ok pivot i [] d u h f = cc
  scan_up-ok pivot i (x ∷ s) zero u h f =
      (0, x, ground arith, omega arith, refl, cc, λ k v lt. absurd (omega arith))
  scan_up-ok pivot i (x ∷ s) (suc d) u h f = elim (Bool-cases (less x pivot)) [
    | inr g ↦ (0, x, ground arith, omega arith, refl, g, λ k v lt. absurd (omega arith))
    | inl g ↦
        let (e, y, q, le, at, low, below) = scan_up-ok pivot (i + 1) s d u h f in
        (suc e, y, ground arith, omega arith, at, low, holds_next (λ v. less v pivot) x s e g below)
  ]

  -- Where an address that does not lie above the pivot is below the place, the scan down stops at
  -- the last such address.
  pub scan_down-ok :
      (pivot : ℕ) (xs : List ℕ) (j d u : ℕ)
      → j ≤ length xs
      → d < j
      → get_elem? xs d ≡ some u
      → less pivot u ≡ false
      → (e y : ℕ) × (scan_down less pivot xs j ≡ ok (suc e))
        × (d ≤ e)
        × (e < j)
        × (get_elem? xs e ≡ some y)
        × (less pivot y ≡ false)
        × ((k v : ℕ) → e < k → k < j → get_elem? xs k ≡ some v → less pivot v ≡ true)
  unfolding scan_down
  scan_down-ok pivot xs zero d u hj lt h f = absurd (omega arith)
  scan_down-ok pivot xs (suc j) d u hj lt h f =
      let (y, at) = get_elem?-lt xs j (omega arith) in
      elim (Bool-cases (less pivot y)) [
        | inr g ↦
            (j, y, ground arith, omega arith, omega arith, at, g, λ k v a b. absurd (omega arith))
        | inl g ↦ elim (ℕ_discrete d j) [
          | yes p ↦ cc
          | no p ↦
              let (e, z, q, de, ej, here, low, above) =
                scan_down-ok pivot xs j d u (omega arith) (omega arith) h f in
              (
                e,
                z,
                ground arith,
                de,
                omega arith,
                here,
                low,
                λ k v a b m. elim (ℕ_discrete k j) [
                  | yes p ↦ cc
                  | no p ↦ above k v a (omega arith) m
                ],
              )
        ]
      ]
