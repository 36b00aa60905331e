-- ===== src/State/Ops.antt =====
-- The operations of `StateDB` on balances and attributes. Each returns the error beside the state.
use gocoin.Common.{
  Bool, Bytes, Option, [], false, if◌then◌else◌, lookup, none, pos, some, ℕ, ℤ, ◌+ℤ◌, ◌-ℤ◌, nat_eq,
}
use gocoin.State.Account.{is_zero, set_balance_gas, get_attribute, set_attribute, del_attribute}
use gocoin.State.Space.{set_balance}
use gocoin.State.Backend.{Backend}
use gocoin.State.Db.{StateDb, get_account_object, get_space_object, modify_account, modify_space}

module _ {T : Type 0} where
  -- What is done to the object behind a pointer that may be nil.
  abbrev pub on_pointer : Option ℕ → (ℕ → StateDb T → StateDb T) → StateDb T → StateDb T
  on_pointer none f s = s
  on_pointer (some a) f s = f a s

  -- `AddBalance_gas`, which leaves the object alone for the amount 0.
  unfoldable pub add_balance_gas : ℤ → ℕ → StateDb T → StateDb T
  add_balance_gas x a s =
      if is_zero x then s else modify_account a (λ o. set_balance_gas (o.balance +ℤ x) o) s

  -- `SubBalance_gas`, which does not look at the balance.
  unfoldable pub sub_balance_gas : ℤ → ℕ → StateDb T → StateDb T
  sub_balance_gas x a s =
      if is_zero x then s else modify_account a (λ o. set_balance_gas (o.balance -ℤ x) o) s

  abbrev balance_at : Option ℕ → StateDb T → ℤ
  balance_at none s = pos 0
  balance_at (some a) s = elim (lookup a s.account_objects) [ none ↦ pos 0 | some o ↦ o.balance ]

  -- `GetBalance`
  unfoldable pub get_balance : Backend T → ℕ → StateDb T → ℤ × Bool × StateDb T
  get_balance b addr s =
      let (p, err, s') = get_account_object b addr s in
      (balance_at p s', elim p [ none ↦ err | some _ ↦ false ], s')

  -- `AddBalance`
  unfoldable pub add_balance : Backend T → ℕ → ℤ → StateDb T → Bool × StateDb T
  add_balance b addr x s =
      let (p, err, s') = get_account_object b addr s in (err, on_pointer p (add_balance_gas x) s')

  -- `SubBalance`
  unfoldable pub sub_balance : Backend T → ℕ → ℤ → StateDb T → Bool × StateDb T
  sub_balance b addr x s =
      let (p, err, s') = get_account_object b addr s in (err, on_pointer p (sub_balance_gas x) s')

  -- `SetBalance`
  unfoldable pub set_balance_of : Backend T → ℕ → ℤ → StateDb T → Bool × StateDb T
  set_balance_of b addr x s =
      let (p, err, s') = get_account_object b addr s in
      (err, on_pointer p (λ a. modify_account a (set_balance_gas x)) s')

  abbrev wallet_at : Option ℕ → StateDb T → ℕ
  wallet_at none s = 0
  wallet_at (some a) s = elim (lookup a s.account_objects) [ none ↦ 0 | some o ↦ o.wallet_id ]

  -- `GetWalletID`
  unfoldable pub get_wallet_id : Backend T → ℕ → StateDb T → ℕ × Bool × StateDb T
  get_wallet_id b addr s =
      let (p, err, s') = get_account_object b addr s in
      (wallet_at p s', elim p [ none ↦ err | some _ ↦ false ], s')

  abbrev attribute_at : Option ℕ → Bytes → StateDb T → Bytes
  attribute_at none k s = []
  attribute_at (some a) k s = elim (lookup a s.account_objects) [
    | none ↦ []
    | some o ↦ get_attribute k o
  ]

  -- `GetAttribute`
  unfoldable pub get_attribute_of : Backend T → ℕ → Bytes → StateDb T → Bytes × Bool × StateDb T
  unfolding get_attribute
  get_attribute_of b addr k s =
      let (p, err, s') = get_account_object b addr s in (attribute_at p k s', err, s')

  -- `SetAttribute`
  unfoldable pub set_attribute_of : Backend T → ℕ → Bytes → Bytes → StateDb T → Bool × StateDb T
  set_attribute_of b addr k v s =
      let (p, err, s') = get_account_object b addr s in
      (err, on_pointer p (λ a. modify_account a (set_attribute k v)) s')

  -- `DelAttribute`
  unfoldable pub del_attribute_of : Backend T → ℕ → Bytes → StateDb T → Bool × StateDb T
  del_attribute_of b addr k s =
      let (p, err, s') = get_account_object b addr s in
      (err, on_pointer p (λ a. modify_account a (del_attribute k)) s')

  -- `AddBalance` and `SubBalance` of a space object.
  unfoldable pub add_space_balance : ℤ → ℕ → StateDb T → StateDb T
  add_space_balance x k s =
      if is_zero x then s else modify_space k (λ o. set_balance (o.balance +ℤ x) o) s

  unfoldable pub sub_space_balance : ℤ → ℕ → StateDb T → StateDb T
  sub_space_balance x k s =
      if is_zero x then s else modify_space k (λ o. set_balance (o.balance -ℤ x) o) s

  abbrev pub space_balance_at : Option ℕ → StateDb T → ℤ
  space_balance_at none s = pos 0
  space_balance_at (some k) s = elim (lookup k s.space_objects) [
    | none ↦ pos 0
    | some o ↦ o.balance
  ]

  -- `GetSpaceBalanceByID`
  unfoldable pub get_space_balance_by_id : Backend T → ℕ → StateDb T → ℤ × Bool × StateDb T
  get_space_balance_by_id b id s =
      let (p, err, s') = get_space_object b id s in
      (space_balance_at p s', elim p [ none ↦ err | some _ ↦ false ], s')

  -- `AddSpaceBalanceByID`
  unfoldable pub add_space_balance_by_id : Backend T → ℕ → ℤ → StateDb T → Bool × StateDb T
  add_space_balance_by_id b id x s =
      let (p, err, s') = get_space_object b id s in (err, on_pointer p (add_space_balance x) s')

  -- `SubSpaceBalanceByID`
  unfoldable pub sub_space_balance_by_id : Backend T → ℕ → ℤ → StateDb T → Bool × StateDb T
  sub_space_balance_by_id b id x s =
      let (p, err, s') = get_space_object b id s in (err, on_pointer p (sub_space_balance x) s')
