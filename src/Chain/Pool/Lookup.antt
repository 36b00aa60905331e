-- ===== src/Chain/Pool/Lookup.antt =====
-- Adding a transaction and looking it up (libraries/chain/space/tx_pool.go).
use gocoin.Common.{
  Option, Option-cases, arith, inl, inr, lookup, lookup-insert, none, ok, some, ℕ, ◌∷◌, ◌≡◌, ◌≢◌,
  ◌⊎◌, nat_eq,
}
use gocoin.Chain.Pool.{
  TxPool, PoolServices, pool_add, enqueue_tx, pool_get, Block, Tx, PoolError, kind,
  known_transaction, pool_validate_tx,
}
use gocoin.Chain.Tx.{epoch_tx, stell_report, Block, Tx, kind}

module _ {T R : Type 0} (p : PoolServices T R) where
  -- If `add` comes back with an error, the pool is what it was. If it comes back without one,
  -- the hash was not known, and then the transaction is found under its hash, or it is an epoch
  -- transaction, or it is a liquidation report whose download was started; no other hash
  -- changes.
  pub pool_get-pool_add :
      (head : Option Block) (tx : Tx) (pool : TxPool) (err : Option PoolError) (pool' : TxPool)
      → pool_add p head tx pool ≡ ok (err, pool')
      → ((e : PoolError) × (err ≡ some e) × (pool' ≡ pool))
        ⊎ ((err ≡ none)
            × (pool_get (p.services.tx_hash tx) pool ≡ none)
            × ((pool_get (p.services.tx_hash tx) pool' ≡ some tx)
                ⊎ (kind tx.payload ≡ ok epoch_tx)
                ⊎ ((kind tx.payload ≡ ok stell_report) × (pool'.downloads ≡ tx ∷ pool.downloads)))
            × ((hash : ℕ)
                → hash ≢ p.services.tx_hash tx
                → pool_get hash pool' ≡ pool_get hash pool))
  unfolding pool_add enqueue_tx pool_get
  pool_get-pool_add head tx pool err pool' e =
      elim (Option-cases (lookup (p.services.tx_hash tx) pool.all)) [
        | inr (known, q) ↦ inl (known_transaction, ground arith, ground arith)
        | inl new ↦ elim (Option-cases (pool_validate_tx p head tx).0) [
          | inr (bad, q) ↦ inl (bad, ground arith, ground arith)
          | inl fine ↦ inr (
            ground arith,
            new,
            ground
                (arith, lookup-insert (p.services.tx_hash tx) (p.services.tx_hash tx) tx pool.all),
            λ hash other. ground (arith, lookup-insert hash (p.services.tx_hash tx) tx pool.all),
          )
        ]
      ]
