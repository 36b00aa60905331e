-- ===== src/State/Refine.antt =====
-- Each operation of the state, as an operation on the ledger that the state stands for.
use gocoin.State.Ops.{
  add_balance, add_balance_gas, on_pointer, set_attribute_of, get_balance, set_balance_of,
  sub_balance, sub_balance_gas, del_attribute_of,
}
use gocoin.Common.{
  Bool-cases, Bytes, Option, Option-cases, arith, false, if◌then◌else◌, inl, inr, int_laws, lookup,
  lookup-insert, negsuc, none, pos, refl, some, suc, true, zero, ℕ, ℤ, ◌+ℤ◌, ◌-ℤ◌, ◌==◌, ◌≡◌, ◌≢◌,
  nat_eq,
}
use gocoin.State.Account.{AccountObject, is_zero, set_balance_gas, del_attribute, set_attribute}
use gocoin.State.Backend.{Backend}
use gocoin.State.Db.{StateDb, modify_account, get_account_object}
use gocoin.State.View.{
  content, map_option, view, get_account_object-view, get_account_object-cached,
}

-- What the operations do to an account of the ledger.
abbrev pub credit : ℤ → AccountObject → AccountObject
credit x o = record o { balance = o.balance +ℤ x }

abbrev pub debit : ℤ → AccountObject → AccountObject
debit x o = record o { balance = o.balance -ℤ x }

-- The ledger in which `f` was done to one account, if there is such an account.
abbrev pub updated :
    ℕ → (AccountObject → AccountObject) → (ℕ → Option AccountObject) → ℕ → Option AccountObject
updated a f m j = if j == a then map_option f (m a) else m j

is_zero-eq : (x : ℤ) → is_zero x ≡ true → x ≡ pos 0
is_zero-eq (pos zero) h = refl
is_zero-eq (pos (suc n)) h = cc
is_zero-eq (negsuc n) h = cc

+ℤ-zero : (x : ℤ) → x +ℤ pos 0 ≡ x
+ℤ-zero x = omega int_laws

-ℤ-zero : (x : ℤ) → x -ℤ pos 0 ≡ x
-ℤ-zero x = omega int_laws

updated_same :
    (a j : ℕ) (f : AccountObject → AccountObject) (m : ℕ → Option AccountObject)
    → ((o : AccountObject) → f o ≡ o)
    → m j ≡ updated a f m j
updated_same a j f m h = elim (Option-cases (m a)) [
  | inl e ↦ ground arith
  | inr (o, e) ↦ ground (arith, h o)
]

credit_zero : (x : ℤ) → is_zero x ≡ true → (o : AccountObject) → credit x o ≡ o
credit_zero x z o = ground (arith, is_zero-eq x z, +ℤ-zero o.balance)

debit_zero : (x : ℤ) → is_zero x ≡ true → (o : AccountObject) → debit x o ≡ o
debit_zero x z o = ground (arith, is_zero-eq x z, -ℤ-zero o.balance)

module _ {T : Type 0} (b : Backend T) where
  pub view_cached :
      (a : ℕ) (s : StateDb T) (o : AccountObject)
      → lookup a s.account_objects ≡ some o
      → view b s a ≡ some (content o)
  unfolding view
  view_cached a s o h = rw (h, view)

  -- A setter that does not look at the callback acts on the ledger as it acts on the object.
  pub modify_account-view :
      (a j : ℕ) (f : AccountObject → AccountObject) (s : StateDb T)
      → ((o : AccountObject) → content (record (f o) { on_dirty = false }) ≡ f (content o))
      → lookup a s.account_objects ≢ none
      → view b (modify_account a f s) j ≡ updated a f (view b s) j
  unfolding modify_account view
  modify_account-view a j f s h found = elim (Option-cases (lookup a s.account_objects)) [
    | inl e ↦ absurd (found e)
    | inr (o, e) ↦ grind (arith, lookup-insert, h o)
  ]

  -- A lookup followed by a step on what it found.
  pub on_pointer-view :
      (a j : ℕ) (f : AccountObject → AccountObject) (g : ℕ → StateDb T → StateDb T) (s : StateDb T)
      → ((s' : StateDb T)
          → lookup a s'.account_objects ≢ none
          → view b (g a s') j ≡ updated a f (view b s') j)
      → let (p, _, s') = get_account_object b a s in
        view b (on_pointer p g s') j ≡ updated a f (view b s) j
  on_pointer-view a j f g s h =
      let (p, _, s') = get_account_object b a s in
      elim (Option-cases p) [
        | inl e ↦ grind (arith, get_account_object-view b a a s, get_account_object-view b a j s)
        | inr (a', e) ↦ grind (
          arith,
          get_account_object-view b a a s,
          get_account_object-view b a j s,
          get_account_object-cached b a a' s,
          h s',
        )
      ]

  add_balance_gas-view :
      (a j : ℕ) (x : ℤ) (s : StateDb T)
      → lookup a s.account_objects ≢ none
      → view b (add_balance_gas x a s) j ≡ updated a (credit x) (view b s) j
  unfolding add_balance_gas set_balance_gas
  add_balance_gas-view a j x s found = elim (Bool-cases (is_zero x)) [
    | inl z ↦ rw z (updated_same a j (credit x) (view b s) (credit_zero x z))
    | inr nz ↦ rw nz (modify_account-view a j (credit x) s (λ o. refl) found)
  ]

  sub_balance_gas-view :
      (a j : ℕ) (x : ℤ) (s : StateDb T)
      → lookup a s.account_objects ≢ none
      → view b (sub_balance_gas x a s) j ≡ updated a (debit x) (view b s) j
  unfolding sub_balance_gas set_balance_gas
  sub_balance_gas-view a j x s found = elim (Bool-cases (is_zero x)) [
    | inl z ↦ rw z (updated_same a j (debit x) (view b s) (debit_zero x z))
    | inr nz ↦ rw nz (modify_account-view a j (debit x) s (λ o. refl) found)
  ]

  -- `AddBalance` raises the balance of its account by the amount, if the ledger has that
  -- account, and changes no other account and nothing else of it.
  pub add_balance-view :
      (a j : ℕ) (x : ℤ) (s : StateDb T)
      → view b (add_balance b a x s).1 j ≡ updated a (credit x) (view b s) j
  unfolding add_balance
  add_balance-view a j x s =
      on_pointer-view a j (credit x) (add_balance_gas x) s (add_balance_gas-view a j x)

  -- `SubBalance` lowers the balance of its account by the amount, below zero too, if the ledger
  -- has that account, and changes no other account and nothing else of it.
  pub sub_balance-view :
      (a j : ℕ) (x : ℤ) (s : StateDb T)
      → view b (sub_balance b a x s).1 j ≡ updated a (debit x) (view b s) j
  unfolding sub_balance
  sub_balance-view a j x s =
      on_pointer-view a j (debit x) (sub_balance_gas x) s (sub_balance_gas-view a j x)

  -- `SetBalance` sets the balance of its account, if the ledger has that account, and changes no
  -- other account and nothing else of it.
  pub set_balance_of-view :
      (a j : ℕ) (x : ℤ) (s : StateDb T)
      → view b (set_balance_of b a x s).1 j ≡ updated a (set_balance_gas x) (view b s) j
  unfolding set_balance_of set_balance_gas
  set_balance_of-view a j x s =
      on_pointer-view a j (set_balance_gas x) (λ k. modify_account k (set_balance_gas x)) s
        (λ s'. modify_account-view a j (set_balance_gas x) s' (λ o. refl))

  -- `SetAttribute` sets one attribute of its account, if the ledger has that account, and
  -- changes no other account and nothing else of it.
  pub set_attribute_of-view :
      (a j : ℕ) (k v : Bytes) (s : StateDb T)
      → view b (set_attribute_of b a k v s).1 j ≡ updated a (set_attribute k v) (view b s) j
  unfolding set_attribute_of set_attribute
  set_attribute_of-view a j k v s =
      on_pointer-view a j (set_attribute k v) (λ i. modify_account i (set_attribute k v)) s
        (λ s'. modify_account-view a j (set_attribute k v) s' (λ o. refl))

  pub del_attribute_of-view :
      (a j : ℕ) (k : Bytes) (s : StateDb T)
      → view b (del_attribute_of b a k s).1 j ≡ updated a (del_attribute k) (view b s) j
  unfolding del_attribute_of del_attribute
  del_attribute_of-view a j k s =
      on_pointer-view a j (del_attribute k) (λ i. modify_account i (del_attribute k)) s
        (λ s'. modify_account-view a j (del_attribute k) s' (λ o. refl))

  -- `GetBalance` returns the balance that the ledger has for the account, 0 if it has none, and
  -- changes no account of the ledger.
  pub get_balance-view :
      (a j : ℕ) (s : StateDb T)
      → let (x, _, s') = get_balance b a s in
        (x ≡ elim (view b s a) [ none ↦ pos 0 | some o ↦ o.balance ]) × (view b s' j ≡ view b s j)
  unfolding get_balance
  get_balance-view a j s =
      let (p, _, s') = get_account_object b a s in
      elim (Option-cases p) [
        | inl e ↦ grind (arith, get_account_object-view b a a s, get_account_object-view b a j s)
        | inr (a', e) ↦ elim (Option-cases (lookup a' s'.account_objects)) [
          | inl gone ↦ absurd ((get_account_object-cached b a a' s e).1 gone)
          | inr (o, hit) ↦ grind (
            arith,
            get_account_object-view b a a s,
            get_account_object-view b a j s,
            get_account_object-cached b a a' s e,
            view_cached a' s' o hit,
          )
        ]
      ]
