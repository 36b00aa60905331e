-- ===== src/Chain/Make/Dispatch.antt =====
-- How the switches of the block worker and the block chain take the transactions that
-- libraries/chain/space/protocol/tx.go constructs.
use gocoin.Chain.Make.{
  new_settle_hash_tx, new_space_creation, create_contract_tx, run_contract_tx, apply_stell_group,
  apply_coin_group, apply_transaction_group, apply_validate_group, new_recharge, new_attr_set,
  new_create_group, new_publish_con, new_epoch_tx,
}
use gocoin.Chain.Tx.{
  kind, new_tx, space_creation, recharge, attr_set, create_group, publish_coin, epoch_tx,
  apply_group, stell_report, stell_group, coin_group, transaction_group, other_kind,
}
use gocoin.Common.{Bytes, ok, refl, ℕ, ℤ, ◌≡◌}

-- The switch takes the transaction of each constructor in the case meant for it, and those that
-- create or run a contract in the default case.
pub kind-constructors :
    (to now : ℕ) (amount cost : ℤ) (bytes : Bytes)
    → (kind (new_space_creation cost to now).payload ≡ ok space_creation)
      × (kind (new_recharge to amount cost now).payload ≡ ok recharge)
      × (kind (new_attr_set to cost bytes now).payload ≡ ok attr_set)
      × (kind (new_create_group to now).payload ≡ ok create_group)
      × (kind (new_publish_con amount cost bytes now).payload ≡ ok publish_coin)
      × (kind (new_epoch_tx cost bytes now).payload ≡ ok epoch_tx)
      × (kind (apply_validate_group to amount cost now).payload ≡ ok apply_group)
      × (kind (new_settle_hash_tx bytes now).payload ≡ ok stell_report)
      × (kind (apply_stell_group to amount cost now).payload ≡ ok stell_group)
      × (kind (apply_coin_group to amount cost now).payload ≡ ok coin_group)
      × (kind (apply_transaction_group to amount cost now).payload ≡ ok transaction_group)
      × (kind (create_contract_tx cost bytes now).payload ≡ ok other_kind)
      × (kind (run_contract_tx to amount cost bytes now).payload ≡ ok other_kind)
unfolding kind new_tx new_space_creation new_recharge new_attr_set new_create_group new_publish_con
    new_epoch_tx apply_validate_group new_settle_hash_tx apply_stell_group apply_coin_group
    apply_transaction_group create_contract_tx run_contract_tx
kind-constructors to now amount cost bytes =
    (refl, refl, refl, refl, refl, refl, refl, refl, refl, refl, refl, refl, refl)
