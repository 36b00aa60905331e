-- ===== src/Chain/Pool.antt =====
-- The transaction pool: libraries/chain/space/tx_pool.go and tx_list.go. A call holds the lock of
-- the pool while it runs, and so is one step.
use gocoin.State.Ops.{get_balance}
use gocoin.State.Db.{mark, new_state}
use gocoin.State.Backend.{Backend}
use gocoin.Common.{
  Bool, Bytes, Dict, List, Option, Result, [], drop, erase, false, if◌then◌else◌,
  index_out_of_range, insert, leb, length, lookup, ltb, ltb_ℤ, none, ok, panic, pos, some, take,
  true, ℕ, ◌%◌, ◌&&◌, ◌*◌, ◌++◌, ◌+◌, ◌==◌, ◌>>=◌, ◌^◌, ◌∷◌, nat_eq,
}
pub mod Admitted
pub mod Funds
pub mod Steps
pub mod Lookup
use mathlib.Core.Bool.{not}
use gocoin.Chain.Exec.Agree.{messages_of}
use gocoin.Chain.Tx.{epoch_tx, stell_report, Tx, BlockTx, sender_of, Block, kind, Services, uint64}

-- The errors of `add`: that the hash is known, the ones of `validateTx`, and an error of the
-- ledger.
pub data PoolError : Type 0 where
  known_transaction oversized_data negative_value cost_limit invalid_sender : PoolError
  insufficient_funds state_error : PoolError

-- `TxPool`. A list of transactions is a `txList`. The epoch is nil until it is set, and then holds
-- the transactions that it was sent; `downloads` are the goroutines that `enqueueTx` started.
pub record TxPool : Type 0 where
  pub txpending : Dict ℕ (List Tx)
  pub txqueue : Dict ℕ (List Tx)
  pub all : Dict ℕ Tx
  pub epoch : Option (List Tx)
  pub downloads : List Tx

abbrev pub current_max_cost : ℕ
current_max_cost = 10000

-- What the pool calls: the ledger at the head of the chain, the length of a transaction's RLP,
-- `ipfs.Get` with reading the file, the number of the signatures of a report, `IsStellMember`, and
-- `sort.Sort` by falling cost.
pub record PoolServices (T R : Type 0) : Type 0 where
  pub backend : Backend T
  pub services : Services R
  pub size : Tx → ℕ
  pub fetch : Bytes → Option Bytes
  pub signatures : Bytes → ℕ
  pub is_stell_member : ℕ → Bool
  pub sort_by_cost : List Tx → List Tx

abbrev pub new_tx_pool : TxPool
new_tx_pool = record { txpending = []; txqueue = []; all = []; epoch = none; downloads = [] }

-- An error, or the sender.
abbrev pub Checked : Type 0
Checked = Option PoolError × ℕ

module _ {T R : Type 0} (p : PoolServices T R) where
  abbrev hash_of : Tx → ℕ
  hash_of tx = p.services.tx_hash tx

  -- The balance against the cost and the value, whose sum is a uint64.
  unfoldable pub check_funds : Option Block → Tx → ℕ → Checked
  check_funds none tx from = (none, from)
  check_funds (some head) tx from =
      elim (new_state p.backend head.header.space_root head.header.acc_root) [
        | none ↦ (some invalid_sender, 0)
        | some s ↦
            let (balance, err, _) = get_balance p.backend from s in
            if err
            then (some state_error, 0)
            else if ltb (uint64 balance) ((uint64 tx.cost + uint64 tx.amount) % 2 ^ 64)
            then (some insufficient_funds, 0)
            else (none, from)
      ]

  -- `validateTx`, with the current block of the chain.
  unfoldable pub pool_validate_tx : Option Block → Tx → Checked
  unfolding check_funds
  pool_validate_tx head tx =
      if ltb (32 * 1024) (p.size tx)
      then (some oversized_data, 0)
      else if ltb_ℤ tx.amount (pos 0)
      then (some negative_value, 0)
      else if ltb current_max_cost (uint64 tx.cost)
      then (some cost_limit, 0)
      else elim (p.services.sender tx) [
        | none ↦ (some invalid_sender, 0)
        | some from ↦ check_funds head tx from
      ]

  -- `enqueueTx`
  unfoldable pub enqueue_tx : ℕ → Tx → TxPool → Result TxPool
  enqueue_tx hash tx pool = do
    k ← kind tx.payload
    elim k [
      | stell_report ↦ ok (record pool { downloads = tx ∷ pool.downloads })
      | _ ↦ ok (record pool { all = insert hash tx pool.all })
    ]

  abbrev pub send_epoch : Tx → Option (List Tx) → Option (List Tx)
  send_epoch tx none = none
  send_epoch tx (some sent) = some (tx ∷ sent)

  -- `add`: the error, and the pool. It never replaces a transaction.
  unfoldable pub pool_add : Option Block → Tx → TxPool → Result (Option PoolError × TxPool)
  unfolding enqueue_tx pool_validate_tx
  pool_add head tx pool = elim (lookup (hash_of tx) pool.all) [
    | some known ↦ ok (some known_transaction, pool)
    | none ↦ elim (pool_validate_tx head tx).0 [
      | some err ↦ ok (some err, pool)
      | none ↦ do
        k ← kind tx.payload
        elim k [
          | epoch_tx ↦ ok (none, record pool { epoch = send_epoch tx pool.epoch })
          | _ ↦ enqueue_tx (hash_of tx) tx pool >>= λ pool'. ok (none, pool')
        ]
    ]
  ]

  -- `promoteTx`: `txList.Add` always inserts, and replaces nothing.
  unfoldable pub promote_tx : ℕ → ℕ → Tx → TxPool → TxPool
  promote_tx addr hash tx pool =
      let pending : List Tx = elim (lookup addr pool.txpending) [ none ↦ [] | some txs ↦ txs ] in
      record pool {
        txpending = insert addr (pending ++ (tx ∷ [])) pool.txpending;
        all = elim (lookup hash pool.all) [
          | none ↦ insert hash tx pool.all
          | some known ↦ pool.all
        ];
      }

  unfoldable pub promote_txs : ℕ → List Tx → TxPool → TxPool
  unfolding promote_tx
  promote_txs addr [] pool = pool
  promote_txs addr (tx ∷ txs) pool = promote_txs addr txs (promote_tx addr (hash_of tx) tx pool)

  -- `promoteExecutables`, for accounts that are given.
  unfoldable pub promote_executables : List ℕ → TxPool → TxPool
  unfolding promote_txs
  promote_executables [] pool = pool
  promote_executables (addr ∷ addrs) pool = elim (lookup addr pool.txqueue) [
    | none ↦ promote_executables addrs pool
    | some list ↦
        let pool' = promote_txs addr (p.sort_by_cost list) pool in
        promote_executables addrs (elim list [
          | [] ↦ record pool' { txqueue = erase addr pool'.txqueue }
          | tx ∷ txs ↦ pool'
        ])
  ]

  -- The loop of `addTxsLocked`: the errors, the senders of what was added, and the pool.
  unfoldable pub add_each :
      Option Block → List Tx → TxPool → Result (List (Option PoolError) × List ℕ × TxPool)
  unfolding pool_add
  add_each head [] pool = ok ([], [], pool)
  add_each head (tx ∷ txs) pool = do
    (err, pool1) ← pool_add head tx pool
    (errs, dirty, pool2) ← add_each head txs pool1
    ok (
      err ∷ errs,
      elim err [ none ↦ mark (sender_of p.services tx) dirty | some e ↦ dirty ],
      pool2,
    )

  -- `addTxsLocked`. Go ranges over the senders in an order that it does not fix.
  unfoldable pub add_txs_locked :
      Option Block → List Tx → TxPool → Result (List (Option PoolError) × TxPool)
  unfolding add_each promote_executables
  add_txs_locked head txs pool = do
    (errs, dirty, pool') ← add_each head txs pool
    ok (errs, promote_executables dirty pool')

  -- `downLoad`, once both files are there: with the report, or without it. The sender of every
  -- signature is the zero address.
  abbrev saved : Tx → R → (R → ℕ → Bytes → R) → Option Bytes → Option Bytes → TxPool → TxPool × R
  saved tx rep save (some file) (some sport) pool =
      if leb 1 (p.signatures sport) && not (p.is_stell_member 0)
      then (pool, rep)
      else (record pool { all = insert (hash_of tx) tx pool.all }, save rep (hash_of tx) file)
  saved tx rep save _ _ pool = (pool, rep)

  unfoldable pub down_load : Tx → R → (R → ℕ → Bytes → R) → TxPool → Result (TxPool × R)
  down_load tx rep save pool =
      if ltb (length tx.payload) 47
      then panic index_out_of_range
      else ok (
          saved tx rep save (p.fetch (take 46 (drop 1 tx.payload))) (p.fetch (drop 47 tx.payload))
            pool)

  abbrev pooled : Dict ℕ Tx → List Tx
  pooled [] = []
  pooled ((hash, tx) ∷ rest) = tx ∷ pooled rest

  -- `GetAllTx`: the messages that `buildBlock` works on. Go ranges over the map in an order that it
  -- does not fix; here it is the one of the list.
  unfoldable pub get_all_tx : TxPool → List BlockTx
  get_all_tx pool = messages_of p.services (pooled pool.all)

  -- `txList.Remove`: the last transaction with the hash goes, if there is one.
  unfoldable pub list_remove : Tx → List Tx → Bool × List Tx
  list_remove tx [] = (false, [])
  list_remove tx (t ∷ ts) =
      let (removed, ts') = list_remove tx ts in
      if removed
      then (true, t ∷ ts')
      else if hash_of t == hash_of tx
      then (true, ts)
      else (false, t ∷ ts)

  abbrev set_list : ℕ → List Tx → Dict ℕ (List Tx) → Dict ℕ (List Tx)
  set_list addr [] lists = erase addr lists
  set_list addr (t ∷ ts) lists = insert addr (t ∷ ts) lists

  abbrev remove_queued : ℕ → Tx → TxPool → TxPool
  remove_queued addr tx pool = elim (lookup addr pool.txqueue) [
    | none ↦ pool
    | some list ↦ record pool { txqueue = set_list addr (list_remove tx list).1 pool.txqueue }
  ]

  -- `removeTx`
  unfoldable pub remove_tx : ℕ → TxPool → TxPool
  unfolding list_remove
  remove_tx hash pool = elim (lookup hash pool.all) [
    | none ↦ pool
    | some tx ↦
        let addr = sender_of p.services tx in
        let pool' : TxPool = record pool { all = erase hash pool.all } in
        elim (lookup addr pool'.txpending) [
          | none ↦ remove_queued addr tx pool'
          | some list ↦
              let (removed, list') = list_remove tx list in
              if removed
              then record pool' { txpending = set_list addr list' pool'.txpending }
              else remove_queued addr tx pool'
        ]
  ]

-- `RemoveTx`, of the hashes of the transactions of a new block.
unfoldable pub remove_all : List ℕ → TxPool → TxPool
remove_all [] pool = pool
remove_all (hash ∷ hashes) pool = remove_all hashes (record pool { all = erase hash pool.all })

-- `Get`
unfoldable pub pool_get : ℕ → TxPool → Option Tx
pool_get hash pool = lookup hash pool.all

-- `demoteUnexecutables`: an empty list of pending transactions is dropped.
unfoldable pub without_empty : Dict ℕ (List Tx) → Dict ℕ (List Tx)
without_empty [] = []
without_empty ((addr, []) ∷ rest) = without_empty rest
without_empty ((addr, tx ∷ txs) ∷ rest) = (addr, tx ∷ txs) ∷ without_empty rest

unfoldable pub demote_unexecutables : TxPool → TxPool
unfolding without_empty
demote_unexecutables pool = record pool { txpending = without_empty pool.txpending }

-- `SetEpoch`, of an epoch that was sent nothing.
unfoldable pub set_epoch : TxPool → TxPool
set_epoch pool = record pool { epoch = some [] }

-- `GetTxsCount`
unfoldable pub get_txs_count : TxPool → ℕ
get_txs_count pool = length pool.all
