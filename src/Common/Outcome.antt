-- ===== src/Common/Outcome.antt =====
-- What a Go call that may panic comes back with.
use mathlib.Core.Path.{◌≡◌, refl, ap, ◌∙◌}

-- An index out of range, a nil pointer that is dereferenced, a division by zero in `big.Int.Mod`,
-- `panic(fmt.Errorf("can't encode object ..."))`, and the end of the process in `log.Crit`. The last
-- one is no fault of the code: a loop that is modelled with fuel needs more rounds than it is given.
pub data Fault : Type 0 where
  index_out_of_range nil_pointer division_by_zero encode_failed process_exit out_of_fuel : Fault

-- A call's value, or the fault that ended it.
pub data Result {ℓ} (A : Type ℓ) : Type ℓ where
  panic : Fault → Result A
  ok : A → Result A

-- A panic ends the calls that follow.
infixl 5 ◌>>=◌
abbrev pub ◌>>=◌ {ℓ κ} : {A : Type ℓ} {B : Type κ} → Result A → (A → Result B) → Result B
panic fault >>= k = panic fault
ok x >>= k = k x

module _ {ℓ κ} {A : Type ℓ} {B : Type κ} where
  -- Inversion of a bind that came back.
  pub >>=-eq-ok :
      (r : Result A) (k : A → Result B) {y : B}
      → (r >>= k) ≡ ok y
      → (x : A) × (r ≡ ok x) × (k x ≡ ok y)
  >>=-eq-ok (panic fault) k e = cc
  >>=-eq-ok (ok x) k e = (x, refl, e)

  -- Two continuations that agree on what a call comes back with.
  pub >>=-same :
      (r : Result A) {k k' : A → Result B}
      → ((x : A) → r ≡ ok x → k x ≡ k' x)
      → (r >>= k) ≡ (r >>= k')
  >>=-same (panic fault) h = refl
  >>=-same (ok x) h = h x refl

  -- The same after a call that is replaced by an equal one.
  pub >>=-cong :
      {r r' : Result A} {k k' : A → Result B}
      → r' ≡ r
      → ((x : A) → r ≡ ok x → k' x ≡ k x)
      → (r' >>= k') ≡ (r >>= k)
  >>=-cong {r} {k' = k'} same h = ap (λ z. z >>= k') same ∙ >>=-same r h
