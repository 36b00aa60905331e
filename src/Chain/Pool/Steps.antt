-- ===== src/Chain/Pool/Steps.antt =====
-- The steps of the pool (libraries/chain/space/tx_pool.go), in any order.
use gocoin.Chain.Tx.{Block, Tx, sender_of}
use gocoin.Chain.Pool.Admitted.{
  IsPool, AllAdmitted, IsAdmitted, add_txs_locked-IsPool, no_list, put_all, put_all-IsPool,
}
use gocoin.Common.{
  Bytes, List, Option, Option-cases, [], ap, arith, erase, inl, inr, lookup, lookup-erase, ok, refl,
  subst, sym, ℕ, ◌++◌, ◌∷◌, ◌≡◌, ◌⊎◌, nat_eq,
}
use gocoin.Chain.Pool.{
  TxPool, PoolServices, Tx, remove_tx, remove_all, Block, down_load, new_tx_pool, PoolError,
  add_txs_locked, sender_of, demote_unexecutables, set_epoch, without_empty,
}

module _ {T R : Type 0} (p : PoolServices T R) where
  erase-IsPool :
      (hash : ℕ) (pool : TxPool)
      → IsPool p pool
      → IsPool p (record pool { all = erase hash pool.all })
  unfolding IsPool
  erase-IsPool hash pool (each, down, np, nq) =
      (λ h tx e. each h tx (ground (arith, lookup-erase h hash pool.all)), down, np, nq)

  remove_all-IsPool :
      (hashes : List ℕ) (pool : TxPool) → IsPool p pool → IsPool p (remove_all hashes pool)
  unfolding remove_all
  remove_all-IsPool [] pool valid = valid
  remove_all-IsPool (hash ∷ hashes) pool valid =
      remove_all-IsPool hashes (record pool { all = erase hash pool.all })
        (erase-IsPool hash pool valid)

  -- `removeTx` comes to a deletion from `all`.
  remove_tx_all :
      (hash : ℕ) (pool : TxPool)
      → IsPool p pool
      → (remove_tx p hash pool ≡ pool)
        ⊎ (remove_tx p hash pool ≡ record pool { all = erase hash pool.all })
  unfolding remove_tx IsPool
  remove_tx_all hash pool (each, down, np, nq) = elim (Option-cases (lookup hash pool.all)) [
    | inl gone ↦ ground arith
    | inr (tx, e) ↦ ground (
      arith,
      no_list p (sender_of p.services tx) pool.txpending np,
      no_list p (sender_of p.services tx) pool.txqueue nq,
    )
  ]

  remove_tx-IsPool : (hash : ℕ) (pool : TxPool) → IsPool p pool → IsPool p (remove_tx p hash pool)
  remove_tx-IsPool hash pool valid = elim (remove_tx_all hash pool valid) [
    | inl e ↦ subst (IsPool p) (sym e) valid
    | inr e ↦ subst (IsPool p) (sym e) (erase-IsPool hash pool valid)
  ]

  down_load-IsPool :
      (tx : Tx) (rep : R) (save : R → ℕ → Bytes → R) (pool : TxPool) {pool' : TxPool} {rep' : R}
      → IsAdmitted p tx
      → IsPool p pool
      → down_load p tx rep save pool ≡ ok (pool', rep')
      → IsPool p pool'
  unfolding down_load
  down_load-IsPool tx rep save pool {pool' = pool'} a valid e =
      let result : (pool' ≡ pool) ⊎ (pool' ≡ put_all p (p.services.tx_hash tx) tx pool) =
        ground arith in
      elim result [
        | inl q ↦ subst (IsPool p) (sym q) valid
        | inr q ↦ subst (IsPool p) (sym q) (put_all-IsPool p tx pool a valid)
      ]

  -- A step of the pool: transactions come in, one is removed, those of a block are removed, empty
  -- lists are dropped, the epoch is set, or the files of a report arrive, whose download is kept in
  -- the list.
  pub data Step : TxPool → TxPool → Type 0 where
    add_step :
        (head : Option Block) (txs : List Tx) (errs : List (Option PoolError)) (pool pool' : TxPool)
        → add_txs_locked p head txs pool ≡ ok (errs, pool')
        → Step pool pool'
    remove_step : (hash : ℕ) (pool : TxPool) → Step pool (remove_tx p hash pool)
    block_step : (hashes : List ℕ) (pool : TxPool) → Step pool (remove_all hashes pool)
    demote_step : (pool : TxPool) → Step pool (demote_unexecutables pool)
    epoch_step : (pool : TxPool) → Step pool (set_epoch pool)
    download_step :
        (before after : List Tx) (tx : Tx) (rep rep' : R) (save : R → ℕ → Bytes → R)
        (pool pool' : TxPool)
        → pool.downloads ≡ before ++ (tx ∷ after)
        → down_load p tx rep save pool ≡ ok (pool', rep')
        → Step pool pool'

  -- What the pool comes to from its start.
  pub data Reachable : TxPool → Type 0 where
    at_start : (sent : Option (List Tx)) → Reachable (record new_tx_pool { epoch = sent })
    by_step : (pool pool' : TxPool) → Reachable pool → Step pool pool' → Reachable pool'

  downloads-IsAdmitted :
      (before after : List Tx) (tx : Tx) → AllAdmitted p (before ++ (tx ∷ after)) → IsAdmitted p tx
  unfolding AllAdmitted
  downloads-IsAdmitted [] after tx (a, rest) = a
  downloads-IsAdmitted (t ∷ before) after tx (a, rest) = downloads-IsAdmitted before after tx rest

  Step-IsPool : (pool pool' : TxPool) → Step pool pool' → IsPool p pool → IsPool p pool'
  unfolding IsPool demote_unexecutables set_epoch without_empty
  Step-IsPool pool pool' (add_step head txs errs _ _ e) valid =
      add_txs_locked-IsPool p head txs pool valid e
  Step-IsPool pool _ (remove_step hash _) valid = remove_tx-IsPool hash pool valid
  Step-IsPool pool _ (block_step hashes _) valid = remove_all-IsPool hashes pool valid
  Step-IsPool pool _ (demote_step _) (each, down, np, nq) = (each, down, ap without_empty np, nq)
  Step-IsPool pool _ (epoch_step _) (each, down, np, nq) = (each, down, np, nq)
  Step-IsPool pool pool' (download_step before after tx rep rep' save _ _ q e)
        (each, down, np, nq) =
      down_load-IsPool tx rep save pool
        (downloads-IsAdmitted before after tx (subst (AllAdmitted p) q down)) (each, down, np, nq) e

  -- After any sequence of additions, removals, new blocks, demotions, settings of the epoch and
  -- downloads that were started, every transaction of the pool stands under its own hash, has a
  -- payload, an amount that is not negative, at most 32768 bytes, a cost of at most 10000 in the
  -- low 64 bits, and a sender; so have those whose report is awaited; and the pending and the
  -- queued lists are empty.
  pub Reachable-IsPool : (pool : TxPool) → Reachable pool → IsPool p pool
  unfolding IsPool AllAdmitted lookup
  Reachable-IsPool _ (at_start sent) = (λ hash tx e. ground arith, tt, refl, refl)
  Reachable-IsPool pool' (by_step pool _ before step) =
      Step-IsPool pool pool' step (Reachable-IsPool pool before)
