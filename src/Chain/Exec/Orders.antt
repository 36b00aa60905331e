-- ===== src/Chain/Exec/Orders.antt =====
-- Running transactions does not encode an account (`validateBlock`,
-- libraries/chain/space/worker.go): the run is the same with any encoder.
use gocoin.State.Db.{StateDb, get_space_object, get_account_object}
use gocoin.State.Bind.{
  create_space_and_bind_addr, create_space_object, create_account_object,
  associate_space_and_account, detach,
}
use gocoin.State.Ops.{
  sub_balance, get_space_balance_by_id, add_balance, sub_space_balance_by_id, set_attribute_of,
  set_balance_of,
}
use gocoin.Common.{
  >>=-cong, >>=-same, Bytes, List, Option, Option-cases, [], ap, arith, inl, inr, ok, refl, ℕ, ◌+ℤ◌,
  ◌∷◌, ◌≡◌,
}
use gocoin.State.Account.{Account}
use gocoin.State.Backend.{Backend}
use gocoin.State.Commit.Orders.{with_encoder}
use gocoin.Chain.Exec.{
  validate_txs, create_space, liquidate_report, validate_tx, validate_kind, liquidate_all, Tx,
  liquidate, create_space_and_bind_addr, sub_balance, liquidation_to_state, Run,
  get_space_balance_by_id, StateDb, add_balance, sub_space_balance_by_id, kind, set_attribute_of,
  Kind, deref, set_balance_of,
}
use gocoin.Chain.Tx.{
  space_creation, recharge, attr_set, create_group, publish_coin, epoch_tx, epoch_sig_tx,
  apply_group, stell_report, stell_group, coin_group, transaction_group, other_kind, Services, Tx,
  kind, Kind, deref,
}

module _ {T R : Type 0} (b : Backend T) (v : Services R) (enc : Account → Option Bytes) where
  liquidate_all-same :
      (l : List (ℕ × ℕ)) (s : StateDb T)
      → liquidate_all (with_encoder enc b) v l s ≡ liquidate_all b v l s
  unfolding liquidate_all liquidate get_space_balance_by_id sub_space_balance_by_id get_space_object
  liquidate_all-same [] s = refl
  liquidate_all-same (r ∷ rs) s = liquidate_all-same rs (liquidate b v r s)

  liquidate_report-same :
      (bytes : Bytes) (s : StateDb T)
      → liquidate_report (with_encoder enc b) v bytes s ≡ liquidate_report b v bytes s
  unfolding liquidate_report liquidation_to_state
  liquidate_report-same [] s = refl
  liquidate_report-same (c ∷ cs) s = elim (Option-cases (v.decode_reports (c ∷ cs))) [
    | inl none_read ↦ ground arith
    | inr (l, read) ↦ (let same = liquidate_all-same l s in ground arith)
  ]

  create_space-same :
      (to : ℕ) (run : Run T) → create_space (with_encoder enc b) v to run ≡ create_space b v to run
  unfolding create_space create_space_and_bind_addr create_space_object create_account_object
      associate_space_and_account detach set_balance_of get_space_object get_account_object
  create_space-same to run = refl

  validate_kind-same :
      (rep : R) (k : Kind) (tx : Tx) (run : Run T)
      → validate_kind (with_encoder enc b) v rep k tx run ≡ validate_kind b v rep k tx run
  unfolding validate_kind sub_balance add_balance set_attribute_of get_account_object
  validate_kind-same rep space_creation tx run =
      >>=-same (deref tx.recipient) (λ to e. ap ok (create_space-same to run))
  validate_kind-same rep recharge tx run = refl
  validate_kind-same rep attr_set tx run = refl
  validate_kind-same rep create_group tx run = refl
  validate_kind-same rep publish_coin tx run = refl
  validate_kind-same rep epoch_tx tx run = refl
  validate_kind-same rep epoch_sig_tx tx run = refl
  validate_kind-same rep apply_group tx run = refl
  validate_kind-same rep stell_report tx run =
      ap (λ s. ok (record run { state = s }))
        (liquidate_report-same (v.get_report rep (v.tx_hash tx)) run.state)
  validate_kind-same rep stell_group tx run = refl
  validate_kind-same rep coin_group tx run = refl
  validate_kind-same rep transaction_group tx run = refl
  validate_kind-same rep other_kind tx run = refl

  pub validate_txs-same :
      (rep : R) (txs : List Tx) (run : Run T)
      → validate_txs (with_encoder enc b) v rep txs run ≡ validate_txs b v rep txs run
  unfolding validate_txs validate_tx
  validate_txs-same rep [] run = refl
  validate_txs-same rep (tx ∷ txs) run =
      >>=-cong
        (>>=-same (kind tx.payload)
          (λ k e. validate_kind-same rep k tx (record run { cost = run.cost +ℤ tx.cost })))
        (λ run' e. validate_txs-same rep txs run')
