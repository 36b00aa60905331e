-- ===== src/State/ByAddress.antt =====
-- The operations of `StateDB` on the space that an account is bound to
-- (libraries/chain/space/state/statemanage.go).
use gocoin.State.Ops.{on_pointer, space_balance_at, add_space_balance, sub_space_balance}
use gocoin.State.Space.{set_balance}
use gocoin.State.Backend.{Backend}
use gocoin.State.Db.{StateDb, get_account_object, get_space_object, modify_space}
use gocoin.Common.{Bool, Option, false, lookup, none, some, ℕ, ℤ, nat_eq}

module _ {T : Type 0} where
  -- `getSpaceObjectByAddr`
  unfoldable pub get_space_object_by_addr : Backend T → ℕ → StateDb T → Option ℕ × Bool × StateDb T
  get_space_object_by_addr b addr s =
      let (p, err, s') = get_account_object b addr s in
      elim p [
        | none ↦ (none, err, s')
        | some a ↦ elim (lookup a s'.account_objects) [
          | none ↦ (none, err, s')
          | some o ↦ get_space_object b o.bind_space_id s'
        ]
      ]

  -- `GetSpaceBalanceByAddress`
  unfoldable pub get_space_balance_by_address : Backend T → ℕ → StateDb T → ℤ × Bool × StateDb T
  get_space_balance_by_address b addr s =
      let (p, err, s') = get_space_object_by_addr b addr s in
      (space_balance_at p s', elim p [ none ↦ err | some _ ↦ false ], s')

  -- `AddSpaceBalanceByAddress`
  unfoldable pub add_space_balance_by_address : Backend T → ℕ → ℤ → StateDb T → Bool × StateDb T
  add_space_balance_by_address b addr x s =
      let (p, err, s') = get_space_object_by_addr b addr s in
      (err, on_pointer p (add_space_balance x) s')

  -- `SubSpaceBalanceByAddress`
  unfoldable pub sub_space_balance_by_address : Backend T → ℕ → ℤ → StateDb T → Bool × StateDb T
  sub_space_balance_by_address b addr x s =
      let (p, err, s') = get_space_object_by_addr b addr s in
      (err, on_pointer p (sub_space_balance x) s')

  -- `SetSpaceBalanceByAddress`
  unfoldable pub set_space_balance_by_address : Backend T → ℕ → ℤ → StateDb T → Bool × StateDb T
  set_space_balance_by_address b addr x s =
      let (p, err, s') = get_space_object_by_addr b addr s in
      (err, on_pointer p (λ k. modify_space k (set_balance x)) s')
