-- ===== src/State/Tracked/Ops.antt =====
-- The operations of `StateDB` on accounts (libraries/chain/space/state/statemanage.go) keep
-- track of what they change.
use gocoin.State.Tracked.{IsTracked, modify_account-IsTracked, on_pointer-IsTracked}
use gocoin.State.Attributes.{insert-IsDistinct, erase-IsDistinct}
use gocoin.State.Account.{is_zero, set_balance_gas, set_attribute, del_attribute}
use gocoin.State.Ops.{
  add_balance, add_balance_gas, sub_balance, sub_balance_gas, set_balance_of, set_attribute_of,
  del_attribute_of,
}
use gocoin.State.Backend.{Backend}
use gocoin.State.Db.{StateDb, modify_account}
use gocoin.Common.{Bool-cases, Bytes, inl, inr, refl, ℕ, ℤ, ◌+ℤ◌, ◌-ℤ◌}

module _ {T : Type 0} (b : Backend T) where
  pub set_balance_gas-IsTracked :
      (x : ℤ) (a : ℕ) (s : StateDb T)
      → IsTracked b s
      → IsTracked b (modify_account a (set_balance_gas x) s)
  unfolding set_balance_gas
  set_balance_gas-IsTracked x a s h =
      modify_account-IsTracked b a (set_balance_gas x) s (λ o. refl) (λ o d. d) h

  pub add_balance_gas-IsTracked :
      (x : ℤ) (a : ℕ) (s : StateDb T) → IsTracked b s → IsTracked b (add_balance_gas x a s)
  unfolding add_balance_gas set_balance_gas
  add_balance_gas-IsTracked x a s h = elim (Bool-cases (is_zero x)) [
    | inl z ↦ rw z h
    | inr nz ↦ rw nz (
        modify_account-IsTracked b a (λ o. set_balance_gas (o.balance +ℤ x) o) s (λ o. refl)
          (λ o d. d) h)
  ]

  pub sub_balance_gas-IsTracked :
      (x : ℤ) (a : ℕ) (s : StateDb T) → IsTracked b s → IsTracked b (sub_balance_gas x a s)
  unfolding sub_balance_gas set_balance_gas
  sub_balance_gas-IsTracked x a s h = elim (Bool-cases (is_zero x)) [
    | inl z ↦ rw z h
    | inr nz ↦ rw nz (
        modify_account-IsTracked b a (λ o. set_balance_gas (o.balance -ℤ x) o) s (λ o. refl)
          (λ o d. d) h)
  ]

  -- `AddBalance`, `SubBalance` and `SetBalance` on a tracked state leave a tracked state.
  pub balances-IsTracked :
      (a : ℕ) (x : ℤ) (s : StateDb T)
      → IsTracked b s
      → IsTracked b (add_balance b a x s).1
        × IsTracked b (sub_balance b a x s).1
        × IsTracked b (set_balance_of b a x s).1
  unfolding add_balance sub_balance set_balance_of
  balances-IsTracked a x s h = (
    on_pointer-IsTracked b a (add_balance_gas x) s (λ s' h' k. add_balance_gas-IsTracked x k s' h')
        h,
    on_pointer-IsTracked b a (sub_balance_gas x) s (λ s' h' k. sub_balance_gas-IsTracked x k s' h')
        h,
    on_pointer-IsTracked b a (λ k. modify_account k (set_balance_gas x)) s
        (λ s' h' k. set_balance_gas-IsTracked x k s' h') h,
  )

  -- `SetAttribute` and `DelAttribute` on a tracked state leave a tracked state.
  pub attributes-IsTracked :
      (a : ℕ) (k v : Bytes) (s : StateDb T)
      → IsTracked b s
      → IsTracked b (set_attribute_of b a k v s).1 × IsTracked b (del_attribute_of b a k s).1
  unfolding set_attribute_of del_attribute_of set_attribute del_attribute
  attributes-IsTracked a k v s h = (
    on_pointer-IsTracked b a (λ j. modify_account j (set_attribute k v)) s
        (λ s' h' j.
          modify_account-IsTracked b j (set_attribute k v) s' (λ o. refl)
            (λ o d. insert-IsDistinct k v o.attribute d) h')
        h,
    on_pointer-IsTracked b a (λ j. modify_account j (del_attribute k)) s
        (λ s' h' j.
          modify_account-IsTracked b j (del_attribute k) s' (λ o. refl)
            (λ o d. erase-IsDistinct k o.attribute d) h')
        h,
  )
