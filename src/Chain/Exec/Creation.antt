-- ===== src/Chain/Exec/Creation.antt =====
-- The transaction that creates a space (case 1 of the switches in
-- libraries/chain/space/worker.go and libraries/chain/space/blockchain.go).
use gocoin.Chain.Exec.{Run, create_space}
use gocoin.Chain.Tx.{Services}
use gocoin.State.Account.{AccountObject, set_balance_gas}
use gocoin.State.Bind.{create_space_and_bind_addr}
use gocoin.State.Refine.{set_balance_of-view}
use gocoin.State.View.{view}
use gocoin.State.Backend.{Backend}
use gocoin.Common.{Option-cases, arith, inl, inr, pos, some, ℕ, ◌≡◌}

module _ {T R : Type 0} (b : Backend T) (v : Services R) where
  -- After the transaction that creates a space, the recipient's account in the ledger, if there
  -- is one, has the balance 0, whatever it was before.
  pub create_space-balance :
      (to : ℕ) (run : Run T) (o : AccountObject)
      → view b (create_space b v to run).state to ≡ some o
      → o.balance ≡ pos 0
  unfolding create_space set_balance_gas
  create_space-balance to run o e =
      let s1 = (create_space_and_bind_addr b run.space_id run.wallet_id to run.state).1 in
      let set_to_zero = set_balance_of-view b to to (pos 0) s1 in
      elim (Option-cases (view b s1 to)) [
        | inl f ↦ grind (arith, set_to_zero)
        | inr (p, f) ↦ grind (arith, set_to_zero)
      ]
