-- ===== src/Chain/Exec.antt =====
-- The effect of a transaction on the ledger, which the source writes three times: where a node
-- builds a block and where it validates one (libraries/chain/space/worker.go), and where it
-- inserts one (libraries/chain/space/blockchain.go).
pub mod Agree
pub mod Effect
pub mod Orders
pub mod Creation
pub mod Tracked
pub mod Committed
use gocoin.State.Bind.{create_space_and_bind_addr}
use gocoin.State.Ops.{
  get_space_balance_by_id, set_balance_of, sub_space_balance_by_id, sub_balance, add_balance,
  set_attribute_of,
}
use gocoin.Chain.Tx.{
  space_creation, recharge, attr_set, create_group, publish_coin, epoch_tx, epoch_sig_tx,
  apply_group, stell_report, stell_group, coin_group, transaction_group, other_kind, Services,
  BlockTx, Kind, Tx, kind, uint64, deref, sender_of, rest_of,
}
use gocoin.State.Db.{StateDb}
use gocoin.State.Backend.{Backend}
use gocoin.Common.{
  Bytes, List, Result, [], if◌then◌else◌, ltb, none, ok, pos, some, ℕ, ℤ, ◌%◌, ◌+ℤ◌, ◌+◌, ◌>>=◌,
  ◌^◌, ◌∷◌,
}

-- The variables of the three loops: the next space id, the next wallet id, the cost so far, and
-- the state.
pub record Run (T : Type 0) : Type 0 where
  pub space_id : ℕ
  pub wallet_id : ℕ
  pub cost : ℤ
  pub state : StateDb T

abbrev pub with_state : {T : Type 0} → (StateDb T → StateDb T) → Run T → Run T
with_state f run = record run { state = f run.state }

module _ {T R : Type 0} (b : Backend T) (v : Services R) where
  -- One report of `LiquidationToState`: the gas is taken from the space, or all that it has.
  unfoldable pub liquidate : ℕ × ℕ → StateDb T → StateDb T
  liquidate (gas, space_id) s =
      let (balance, _, s1) = get_space_balance_by_id b space_id s in
      if ltb (gas % 2 ^ 64) (uint64 balance)
      then (sub_space_balance_by_id b space_id (pos gas) s1).1
      else (sub_space_balance_by_id b space_id balance s1).1

  unfoldable pub liquidate_all : List (ℕ × ℕ) → StateDb T → StateDb T
  unfolding liquidate
  liquidate_all [] s = s
  liquidate_all (r ∷ rs) s = liquidate_all rs (liquidate r s)

  -- `LiquidationToState`, of the worker and of the block chain alike.
  unfoldable pub liquidation_to_state : Bytes → StateDb T → StateDb T
  unfolding liquidate_all
  liquidation_to_state bytes s = elim (v.decode_reports bytes) [
    | none ↦ s
    | some reports ↦ liquidate_all reports s
  ]

  -- `if len(Liquidationdata) > 0`
  unfoldable pub liquidate_report : Bytes → StateDb T → StateDb T
  liquidate_report [] s = s
  liquidate_report (c ∷ cs) s = liquidation_to_state (c ∷ cs) s

  -- Case 1 of the three switches.
  unfoldable pub create_space : ℕ → Run T → Run T
  create_space to run =
      let (walletid, s1) = create_space_and_bind_addr b run.space_id run.wallet_id to run.state in
      record run {
        wallet_id = walletid;
        space_id = run.space_id + 1;
        state = (set_balance_of b to (pos 0) s1).1;
      }

  -- The switch of `Worker.validateBlock`.
  unfoldable pub validate_kind : R → Kind → Tx → Run T → Result (Run T)
  validate_kind rep space_creation tx run = do to ← deref tx.recipient; ok (create_space to run)
  validate_kind rep recharge tx run = do
    to ← deref tx.recipient
    ok (
        with_state
          (λ s. (sub_balance b (sender_of v tx) tx.cost (add_balance b to tx.amount s).1).1) run)
  validate_kind rep attr_set tx run = do
    to ← deref tx.recipient
    let (k, x) = v.decode_attr (rest_of tx.payload)
    ok (
        with_state (λ s. (sub_balance b (sender_of v tx) tx.cost (set_attribute_of b to k x s).1).1)
          run)
  validate_kind rep create_group tx run =
      ok (with_state (λ s. (sub_balance b (sender_of v tx) tx.cost s).1) run)
  validate_kind rep publish_coin tx run =
      ok (with_state (λ s. (sub_balance b (sender_of v tx) tx.cost s).1) run)
  validate_kind rep epoch_tx tx run = ok run
  validate_kind rep epoch_sig_tx tx run =
      ok (with_state (λ s. (sub_balance b (sender_of v tx) tx.cost s).1) run)
  validate_kind rep apply_group tx run =
      ok (with_state (λ s. (sub_balance b (sender_of v tx) tx.cost s).1) run)
  validate_kind rep stell_report tx run =
      ok (with_state (liquidate_report (v.get_report rep (v.tx_hash tx))) run)
  validate_kind rep stell_group tx run =
      ok (with_state (λ s. (sub_balance b (sender_of v tx) tx.cost s).1) run)
  validate_kind rep coin_group tx run =
      ok (with_state (λ s. (sub_balance b (sender_of v tx) tx.cost s).1) run)
  validate_kind rep transaction_group tx run =
      ok (with_state (λ s. (sub_balance b (sender_of v tx) tx.cost s).1) run)
  validate_kind rep other_kind tx run = ok run

  -- One round of the loop of `Worker.validateBlock`.
  unfoldable pub validate_tx : R → Tx → Run T → Result (Run T)
  unfolding validate_kind
  validate_tx rep tx run = do
    k ← kind tx.payload
    validate_kind rep k tx (record run { cost = run.cost +ℤ tx.cost })

  unfoldable pub validate_txs : R → List Tx → Run T → Result (Run T)
  validate_txs rep [] run = ok run
  validate_txs rep (tx ∷ txs) run = validate_tx rep tx run >>= validate_txs rep txs

  -- The switch of `Worker.buildBlock`, on the messages of the pool.
  unfoldable pub build_kind : R → Kind → BlockTx → Run T → Result (Run T)
  build_kind rep space_creation m run = do to ← deref m.to; ok (create_space to run)
  build_kind rep recharge m run = do
    to ← deref m.to
    ok (with_state (λ s. (sub_balance b m.sender m.cost (add_balance b to m.amount s).1).1) run)
  build_kind rep attr_set m run = do
    let (k, x) = v.decode_attr (rest_of m.payload)
    to ← deref m.to
    ok (with_state (λ s. (sub_balance b m.sender m.cost (set_attribute_of b to k x s).1).1) run)
  build_kind rep create_group m run = ok (with_state (λ s. (sub_balance b m.sender m.cost s).1) run)
  build_kind rep publish_coin m run = ok (with_state (λ s. (sub_balance b m.sender m.cost s).1) run)
  build_kind rep epoch_tx m run = ok run
  build_kind rep epoch_sig_tx m run = ok (with_state (λ s. (sub_balance b m.sender m.cost s).1) run)
  build_kind rep apply_group m run = ok (with_state (λ s. (sub_balance b m.sender m.cost s).1) run)
  build_kind rep stell_report m run =
      ok (with_state (liquidate_report (v.get_report rep (v.tx_hash m.tx))) run)
  build_kind rep stell_group m run = ok (with_state (λ s. (sub_balance b m.sender m.cost s).1) run)
  build_kind rep coin_group m run = ok (with_state (λ s. (sub_balance b m.sender m.cost s).1) run)
  build_kind rep transaction_group m run =
      ok (with_state (λ s. (sub_balance b m.sender m.cost s).1) run)
  build_kind rep other_kind m run = ok run

  -- One round of the loop of `Worker.buildBlock`.
  unfoldable pub build_tx : R → BlockTx → Run T → Result (Run T)
  unfolding build_kind
  build_tx rep m run = do
    k ← kind m.payload
    build_kind rep k m (record run { cost = run.cost +ℤ m.cost })

  unfoldable pub build_txs : R → List BlockTx → Run T → Result (Run T)
  build_txs rep [] run = ok run
  build_txs rep (m ∷ ms) run = build_tx rep m run >>= build_txs rep ms
