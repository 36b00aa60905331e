-- ===== src/Chain/Pool/Admitted.antt =====
-- What is in the pool (libraries/chain/space/tx_pool.go): an invariant of its operations.
use gocoin.Chain.Tx.{Tx, uint64, Block, kind}
use gocoin.Common.{
  >>=-eq-ok, Bool-cases, Dict, List, Option, Option-cases, [], arith, false, inl, inr, insert,
  lookup, lookup-insert, ltb_ℤ, none, ok, pos, refl, some, subst, sym, ℕ, ◌*◌, ◌==◌, ◌∷◌, ◌≡◌, ◌≢◌,
  ◌≤◌, ◌⊎◌, nat_eq,
}
use gocoin.Chain.Pool.{
  TxPool, PoolServices, Tx, pool_validate_tx, uint64, Block, enqueue_tx, kind, pool_add, PoolError,
  send_epoch, add_txs_locked, add_each, promote_executables,
}

module _ {T R : Type 0} (p : PoolServices T R) where
  -- What the checks of `add` leave of a transaction: a payload, an amount that is not negative, the
  -- size, a cost under the limit, and a sender.
  unfoldable pub IsAdmitted : Tx → Type 0
  IsAdmitted tx =
      (tx.payload ≢ [])
      × (ltb_ℤ tx.amount (pos 0) ≡ false)
      × (p.size tx ≤ 32 * 1024)
      × (uint64 tx.cost ≤ 10000)
      × (p.services.sender tx ≢ none)

  unfoldable pub AllAdmitted : List Tx → Type 0
  AllAdmitted [] = Unit {0}
  AllAdmitted (tx ∷ txs) = IsAdmitted tx × AllAdmitted txs

  -- Every transaction of the pool stands under its hash and is admitted, also those whose report is
  -- on its way, and the pending and the queued lists are empty.
  unfoldable pub IsPool : TxPool → Type 0
  IsPool pool =
      ((hash : ℕ) (tx : Tx)
        → lookup hash pool.all ≡ some tx
        → (p.services.tx_hash tx ≡ hash) × IsAdmitted tx)
      × AllAdmitted pool.downloads
      × (pool.txpending ≡ [])
      × (pool.txqueue ≡ [])

  validated :
      (head : Option Block) (tx : Tx)
      → (pool_validate_tx p head tx).0 ≡ none
      → (ltb_ℤ tx.amount (pos 0) ≡ false)
        × (p.size tx ≤ 32 * 1024)
        × (uint64 tx.cost ≤ 10000)
        × (p.services.sender tx ≢ none)
  unfolding pool_validate_tx
  validated head tx e = (ground arith, ground arith, ground arith, λ n. ground arith)

  abbrev pub put_all : ℕ → Tx → TxPool → TxPool
  put_all hash tx pool = record pool { all = insert hash tx pool.all }

  pub put_all-IsPool :
      (tx : Tx) (pool : TxPool)
      → IsAdmitted tx
      → IsPool pool
      → IsPool (put_all (p.services.tx_hash tx) tx pool)
  unfolding IsPool
  put_all-IsPool tx pool a (each, down, np, nq) = (
    λ hash u e. elim (Bool-cases (hash == p.services.tx_hash tx)) [
      | inl same ↦
          let q : tx ≡ u = ground (arith, lookup-insert hash (p.services.tx_hash tx) tx pool.all) in
          (ground arith, subst IsAdmitted q a)
      | inr other ↦
          each hash u (ground (arith, lookup-insert hash (p.services.tx_hash tx) tx pool.all))
    ],
    down,
    np,
    nq,
  )

  enqueue_tx-eq_ok :
      (hash : ℕ) (tx : Tx) (pool : TxPool) {pool' : TxPool}
      → enqueue_tx p hash tx pool ≡ ok pool'
      → (tx.payload ≢ [])
        × ((pool' ≡ record pool { downloads = tx ∷ pool.downloads })
            ⊎ (pool' ≡ put_all hash tx pool))
  unfolding enqueue_tx kind
  enqueue_tx-eq_ok hash tx pool e = (λ n. ground arith, ground arith)

  enqueue_tx-IsPool :
      (tx : Tx) (pool : TxPool) {pool' : TxPool}
      → (tx.payload ≢ [] → IsAdmitted tx)
      → IsPool pool
      → enqueue_tx p (p.services.tx_hash tx) tx pool ≡ ok pool'
      → IsPool pool'
  unfolding IsPool AllAdmitted
  enqueue_tx-IsPool tx pool a (each, down, np, nq) e =
      let (full, result) = enqueue_tx-eq_ok (p.services.tx_hash tx) tx pool e in
      elim result [
        | inl q ↦ subst IsPool (sym q) (each, (a full, down), np, nq)
        | inr q ↦ subst IsPool (sym q) (put_all-IsPool tx pool (a full) (each, down, np, nq))
      ]

  -- `add` keeps the pool valid.
  pool_add-IsPool :
      (head : Option Block) (tx : Tx) (pool : TxPool) {err : Option PoolError} {pool' : TxPool}
      → IsPool pool
      → pool_add p head tx pool ≡ ok (err, pool')
      → IsPool pool'
  unfolding pool_add IsPool IsAdmitted
  pool_add-IsPool head tx pool {err = err} {pool' = pool'} valid e =
      elim (Option-cases (lookup (p.services.tx_hash tx) pool.all)) [
        | inr (known, q) ↦ subst IsPool {x = pool} {y = pool'} (ground arith) valid
        | inl new ↦ elim (Option-cases (pool_validate_tx p head tx).0) [
          | inr (bad, q) ↦ subst IsPool {x = pool} {y = pool'} (ground arith) valid
          | inl fine ↦
              let result : (pool' ≡ record pool { epoch = send_epoch p tx pool.epoch })
                  ⊎ (enqueue_tx p (p.services.tx_hash tx) tx pool ≡ ok pool') =
                ground arith in
              elim result [
                | inl sent ↦ subst IsPool (sym sent) valid
                | inr queued ↦
                    enqueue_tx-IsPool tx pool
                      (λ full.
                        let (a1, a2, a3, a4) = validated head tx fine in (full, a1, a2, a3, a4))
                      valid queued
              ]
        ]
      ]

  add_each-IsPool :
      (head : Option Block) (txs : List Tx) (pool : TxPool) {errs : List (Option PoolError)}
      {dirty : List ℕ} {pool' : TxPool}
      → IsPool pool
      → add_each p head txs pool ≡ ok (errs, dirty, pool')
      → IsPool pool'
  unfolding add_each
  add_each-IsPool head [] pool {pool' = pool'} valid e =
      subst IsPool {x = pool} {y = pool'} (ground arith) valid
  add_each-IsPool head (tx ∷ txs) pool {pool' = pool'} valid e =
      let ((err, pool1), e1, r1) = >>=-eq-ok (pool_add p head tx pool) _ e in
      let ((errs, dirty, pool2), e2, r2) = >>=-eq-ok (add_each p head txs pool1) _ r1 in
      subst IsPool {x = pool2} {y = pool'} (ground arith)
        (add_each-IsPool head txs pool1 (pool_add-IsPool head tx pool valid e1) e2)

  pub no_list : (addr : ℕ) (lists : Dict ℕ (List Tx)) → lists ≡ [] → lookup addr lists ≡ none
  unfolding lookup
  no_list addr lists e = rw e

  -- Nothing is ever queued, and so nothing is promoted.
  promote_executables_empty :
      (addrs : List ℕ) (pool : TxPool) → pool.txqueue ≡ [] → promote_executables p addrs pool ≡ pool
  unfolding promote_executables
  promote_executables_empty [] pool q = refl
  promote_executables_empty (addr ∷ addrs) pool q =
      ground (arith, no_list addr pool.txqueue q, promote_executables_empty addrs pool q)

  pub add_txs_locked-IsPool :
      (head : Option Block) (txs : List Tx) (pool : TxPool) {errs : List (Option PoolError)}
      {pool' : TxPool}
      → IsPool pool
      → add_txs_locked p head txs pool ≡ ok (errs, pool')
      → IsPool pool'
  unfolding add_txs_locked IsPool
  add_txs_locked-IsPool head txs pool {pool' = pool'} valid e =
      let ((errs, dirty, pool1), e1, r1) = >>=-eq-ok (add_each p head txs pool) _ e in
      let (each, down, np, nq) = add_each-IsPool head txs pool valid e1 in
      subst IsPool {x = pool1} {y = pool'}
        (ground (arith, promote_executables_empty dirty pool1 nq)) (each, down, np, nq)
