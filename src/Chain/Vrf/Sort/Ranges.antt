-- ===== src/Chain/Vrf/Sort/Ranges.antt =====
-- Rearrangements within a range of a list, for the sort of libraries/chain/vrf/vrf.go.
use gocoin.Common.{
  Bool, Bool-cases, List, arith, false, get_elem?, inl, inr, length, ltb, refl, some, sym, ℕ, ◌<◌,
  ◌∙◌, ◌≡◌, ◌≤◌, ◌⊎◌,
}
use gocoin.Group.Rand.Perm.{count}

-- No address at the places from `a` to `b` passes the test.
unfoldable pub NoneIn : (ℕ → Bool) → ℕ → ℕ → List ℕ → Type 0
NoneIn f a b xs = (k v : ℕ) → a ≤ k → k < b → get_elem? xs k ≡ some v → f v ≡ false

-- The second list has the addresses of the first, moved only within the range.
pub record Rearranged (a b : ℕ) (xs ys : List ℕ) : Type 0 where
  pub same_length : length ys ≡ length xs
  pub same_count : (v : ℕ) → count v ys ≡ count v xs
  pub outside : (k : ℕ) → k < a ⊎ b ≤ k → get_elem? ys k ≡ get_elem? xs k
  pub inside : (f : ℕ → Bool) → NoneIn f a b xs → NoneIn f a b ys

pub same_Rearranged : (a b : ℕ) (xs : List ℕ) → Rearranged a b xs xs
same_Rearranged a b xs = record {
  same_length = refl;
  same_count = λ v. refl;
  outside = λ k h. refl;
  inside = λ f h. h;
}

pub then_Rearranged :
    {a b : ℕ} {xs ys zs : List ℕ}
    → Rearranged a b xs ys
    → Rearranged a b ys zs
    → Rearranged a b xs zs
then_Rearranged p q = record {
  same_length = q.same_length ∙ p.same_length;
  same_count = λ v. q.same_count v ∙ p.same_count v;
  outside = λ k h. q.outside k h ∙ p.outside k h;
  inside = λ f h. q.inside f (p.inside f h);
}

-- Where a place is, seen from a range.
place_cases : (a b k : ℕ) → (k < a ⊎ b ≤ k) ⊎ ((a ≤ k) × (k < b))
place_cases a b k = elim (Bool-cases (ltb k a)) [
  | inl h ↦ inl (inl (ground arith))
  | inr h ↦ elim (Bool-cases (ltb k b)) [
    | inl g ↦ inr (ground arith, ground arith)
    | inr g ↦ inl (inr (ground arith))
  ]
]

-- A rearrangement of a range is one of any range around it.
pub widen_Rearranged :
    {a b c d : ℕ} {xs ys : List ℕ} → c ≤ a → b ≤ d → Rearranged a b xs ys → Rearranged c d xs ys
unfolding NoneIn
widen_Rearranged {a} {b} {c} {d} ca bd p = record {
  same_length = p.same_length;
  same_count = p.same_count;
  outside = λ k h. p.outside k (elim h [ inl h ↦ inl (omega arith) | inr h ↦ inr (omega arith) ]);
  inside = λ f h k v ck kd e. elim (place_cases a b k) [
    | inl out ↦ h k v ck kd (sym (p.outside k out) ∙ e)
    | inr (ak, kb) ↦ p.inside f (λ k v ak kb e. h k v (omega arith) (omega arith) e) k v ak kb e
  ];
}
