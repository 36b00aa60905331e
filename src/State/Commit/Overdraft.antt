-- ===== src/State/Commit/Overdraft.antt =====
-- An account that is overdrawn is found out only when the block is committed
-- (`SubBalance` and `CommitTo`, libraries/chain/space/state/statemanage.go).
use gocoin.State.Commit.Panics.{account_finalise_ok_iff}
use gocoin.State.Commit.{account_finalise}
use gocoin.State.Tracked.{IsTracked}
use gocoin.State.Tracked.Ops.{balances-IsTracked}
use gocoin.State.Account.{AccountObject, is_zero, set_balance_gas}
use gocoin.State.Refine.{debit}
use gocoin.State.View.{view}
use gocoin.State.Ops.{sub_balance, sub_balance_gas}
use gocoin.State.Backend.{Backend, IsCodec}
use gocoin.State.Db.{StateDb, modify_account, get_account_object}
use gocoin.Common.{
  Bool, arith, false, lookup, lookup-insert, ok, pos, refl, some, ℕ, ℤ, ◌-ℤ◌, ◌≡◌, ◌≤ℤ◌, nat_eq,
}

above_zero : (x y : ℤ) → pos 0 ≤ℤ y → ¬ (x ≤ℤ y) → is_zero x ≡ false
above_zero x y h n = ground arith

below_zero : (x y : ℤ) → ¬ (x ≤ℤ y) → ¬ (pos 0 ≤ℤ (y -ℤ x))
unfolding ◌-ℤ◌
below_zero x y n h = ground arith

module _ {T : Type 0} (b : Backend T) where
  sub_balance-cached :
      (a : ℕ) (x : ℤ) (s : StateDb T) (o : AccountObject)
      → is_zero x ≡ false
      → view b s a ≡ some o
      → lookup a (sub_balance b a x s).1.account_objects
        ≡ some (record (debit x o) { on_dirty = false })
  unfolding view sub_balance sub_balance_gas modify_account get_account_object set_balance_gas
  sub_balance-cached a x s o nz e = grind (arith, lookup-insert)

  -- If `SubBalance` takes more than the account's balance, which is not negative, from a tracked
  -- state, then `AccountFinalise` on the state that it leaves does not come back, with a codec
  -- that keeps `IsCodec`.
  pub sub_balance-overdraft :
      (codec : IsCodec b) (del : Bool) (a : ℕ) (x : ℤ) (s : StateDb T) (o : AccountObject)
      → IsTracked b s
      → view b s a ≡ some o
      → pos 0 ≤ℤ o.balance
      → ¬ (x ≤ℤ o.balance)
      → ¬ ((s' : StateDb T) × (account_finalise b del (sub_balance b a x s).1 ≡ ok s'))
  sub_balance-overdraft codec del a x s o h e nonneg more r =
      let s1 = (sub_balance b a x s).1 in
      let h1 : IsTracked b s1 = (balances-IsTracked b a x s h).1 in
      let hit = sub_balance-cached a x s o (above_zero x o.balance nonneg more) e in
      let o' : AccountObject = record (debit x o) { on_dirty = false } in
      below_zero x o.balance more
        ((account_finalise_ok_iff b codec del s1 h1).0 r a o' (h1.changed a o' hit refl) hit)
