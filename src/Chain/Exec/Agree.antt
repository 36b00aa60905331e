-- ===== src/Chain/Exec/Agree.antt =====
-- The three copies of the transaction switch agree.
use gocoin.Chain.Exec.{
  build_kind, build_txs, Run, validate_kind, BlockTx, validate_txs, Kind, build_tx, validate_tx,
}
use gocoin.Chain.Tx.{
  sender_of, Services, Tx, BlockTx, Kind, kind, space_creation, recharge, attr_set, create_group,
  publish_coin, epoch_tx, epoch_sig_tx, apply_group, stell_report, stell_group, coin_group,
  transaction_group, other_kind,
}
use gocoin.State.Backend.{Backend}
use gocoin.Common.{List, Result, [], ap, ok, panic, refl, ◌+ℤ◌, ◌>>=◌, ◌∙◌, ◌∷◌, ◌≡◌}

-- What `GetAllTx` reads off a transaction of the pool.
unfoldable pub message_of : {R : Type 0} → Services R → Tx → BlockTx
unfolding sender_of
message_of v tx = record {
  hash = v.tx_hash tx;
  to = tx.recipient;
  sender = sender_of v tx;
  cost = tx.cost;
  amount = tx.amount;
  payload = tx.payload;
  tx = tx;
}

unfoldable pub messages_of : {R : Type 0} → Services R → List Tx → List BlockTx
messages_of v [] = []
messages_of v (tx ∷ txs) = message_of v tx ∷ messages_of v txs

pub bind-cong :
    {A B : Type 0} {f g : A → Result B} (r : Result A)
    → ((a : A) → f a ≡ g a)
    → (r >>= f) ≡ (r >>= g)
bind-cong (ok a) eq = eq a
bind-cong (panic e) eq = refl

module _ {T R : Type 0} (b : Backend T) (v : Services R) where
  build_kind-eq-validate_kind :
      (rep : R) (k : Kind) (tx : Tx) (run : Run T)
      → build_kind b v rep k (message_of v tx) run ≡ validate_kind b v rep k tx run
  unfolding build_kind validate_kind message_of
  build_kind-eq-validate_kind rep space_creation tx run = refl
  build_kind-eq-validate_kind rep recharge tx run = refl
  build_kind-eq-validate_kind rep attr_set tx run = refl
  build_kind-eq-validate_kind rep create_group tx run = refl
  build_kind-eq-validate_kind rep publish_coin tx run = refl
  build_kind-eq-validate_kind rep epoch_tx tx run = refl
  build_kind-eq-validate_kind rep epoch_sig_tx tx run = refl
  build_kind-eq-validate_kind rep apply_group tx run = refl
  build_kind-eq-validate_kind rep stell_report tx run = refl
  build_kind-eq-validate_kind rep stell_group tx run = refl
  build_kind-eq-validate_kind rep coin_group tx run = refl
  build_kind-eq-validate_kind rep transaction_group tx run = refl
  build_kind-eq-validate_kind rep other_kind tx run = refl

  build_tx-eq-validate_tx :
      (rep : R) (tx : Tx) (run : Run T)
      → build_tx b v rep (message_of v tx) run ≡ validate_tx b v rep tx run
  unfolding build_tx validate_tx message_of
  build_tx-eq-validate_tx rep tx run =
      bind-cong (kind tx.payload)
        (λ k. build_kind-eq-validate_kind rep k tx (record run { cost = run.cost +ℤ tx.cost }))

  -- The loop of `buildBlock` on the messages of some transactions and the loop of
  -- `validateBlock` on the transactions come to the same result: state, ids and cost, or panic.
  pub build_txs-eq-validate_txs :
      (rep : R) (txs : List Tx) (run : Run T)
      → build_txs b v rep (messages_of v txs) run ≡ validate_txs b v rep txs run
  unfolding build_txs validate_txs messages_of
  build_txs-eq-validate_txs rep [] run = refl
  build_txs-eq-validate_txs rep (tx ∷ txs) run =
      ap (λ r. r >>= build_txs b v rep (messages_of v txs)) (build_tx-eq-validate_tx rep tx run)
      ∙ bind-cong (validate_tx b v rep tx run) (build_txs-eq-validate_txs rep txs)
