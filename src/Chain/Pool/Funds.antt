-- ===== src/Chain/Pool/Funds.antt =====
-- The funds check of `validateTx` (libraries/chain/space/tx_pool.go).
use gocoin.State.Ops.{get_balance}
use gocoin.State.Db.{StateDb, new_state}
use gocoin.Chain.Tx.{uint64, Block, Tx}
use gocoin.Chain.Pool.{
  PoolServices, pool_validate_tx, check_funds, uint64, Block, Tx, new_state, get_balance,
}
use gocoin.Common.{arith, false, none, pos, some, ℕ, ◌*◌, ◌-◌, ◌<◌, ◌^◌, ◌≡◌, ◌≤◌}

module _ {T R : Type 0} (p : PoolServices T R) where
  -- A transaction of a positive cost of at most 10000 whose amount is 2^64 less the cost passes
  -- `validateTx` whatever the balance of its sender is, if it has at most 32768 bytes, the state
  -- at the head opens and the lookup of the balance reports no error.
  pub pool_validate_tx_wraps :
      (head : Block) (s : StateDb T) (tx : Tx) (from cost : ℕ)
      → p.size tx ≤ 32 * 1024
      → cost ≤ 10000
      → 0 < cost
      → tx.cost ≡ pos cost
      → tx.amount ≡ pos (2 ^ 64 - cost)
      → p.services.sender tx ≡ some from
      → new_state p.backend head.header.space_root head.header.acc_root ≡ some s
      → (get_balance p.backend from s).1 ≡ false
      → pool_validate_tx p (some head) tx ≡ (none, from)
  unfolding pool_validate_tx check_funds uint64
  pool_validate_tx_wraps head s tx from cost size lo hi ec ea es eo eb = ground arith
