-- ===== src/Examples/Commits.antt =====
-- Transactions that are committed, at concrete inputs.
use gocoin.State.Ops.{sub_balance, add_balance, set_balance_of}
use gocoin.State.View.{view, stored}
use gocoin.Examples.Store.{Store, store, store-IsTrie, store-IsCodec}
use gocoin.Examples.Ledger.{opened, new_state-opened}
use gocoin.Chain.Tx.{sender_of, kind, kind_of, uint64, Tx, Block}
use gocoin.Chain.Exec.{
  create_space, validate_tx, liquidate_report, liquidation_to_state, liquidate_all, liquidate, Run,
  validate_txs, validate_kind, build_txs, build_tx, build_kind,
}
use gocoin.State.Commit.{
  commit_state, space_finalise, account_finalise, finalise_space, finalise_account,
  update_account_object, update_space_object, delete_account_object,
}
use gocoin.State.Account.{
  account_of, account_empty, new_account_object, fill_attributes, set_balance_gas, AccountObject,
  set_space_id,
}
use gocoin.State.Space.{new_space_object, set_balance, space_of, space_empty, append_address}
use gocoin.State.Ops.{
  sub_balance, add_balance, sub_balance_gas, add_balance_gas, get_space_balance_by_id,
  sub_space_balance_by_id, sub_space_balance,
}
use gocoin.State.Db.{
  new_state, get_account_object, modify_account, set_account_object, mark, unmark, elem,
  get_space_object, modify_space, set_space_object, StateDb,
}
use gocoin.Chain.Exec.Committed.{commit_state-ledger}
use gocoin.Examples.Blocks.{head, proposer, tx_of, services, reports, txs, begin}
use gocoin.State.View.{view, stored}
use gocoin.State.Bind.{
  create_space_and_bind_addr, create_account_object, create_space_object,
  associate_space_and_account, detach, unassociate_space_and_account,
}
use gocoin.Chain.Blocks.Panics.{validate_block-panics}
use gocoin.Chain.Blocks.{build_block, validate_block}
use gocoin.Chain.Exec.Agree.{messages_of, message_of}
use gocoin.Common.{
  Bool, Result, [], arith, encode_failed, erase, false, insert, lookup, ok, panic, pos, refl, some,
  true, ℕ, ◌+ℤ◌, ◌-ℤ◌, ◌∷◌, ◌≡◌, nat_eq,
}

abbrev run_or : Run Store → Result (Run Store) → Run Store
run_or run (ok r) = r
run_or run (panic f) = run

abbrev after : Run Store
after = run_or begin (validate_txs store services reports txs begin)

ran_after : validate_txs store services reports txs begin ≡ ok after
unfolding validate_txs validate_tx validate_kind kind kind_of sender_of new_state commit_state
    space_finalise account_finalise finalise_space finalise_account update_account_object
    update_space_object delete_account_object account_of account_empty sub_balance add_balance
    sub_balance_gas add_balance_gas get_account_object modify_account set_account_object
    new_account_object fill_attributes set_balance_gas mark unmark elem lookup insert erase
    liquidate_report liquidation_to_state liquidate_all liquidate get_space_balance_by_id
    sub_space_balance_by_id sub_space_balance get_space_object modify_space set_space_object
    new_space_object set_balance space_of space_empty uint64 ◌+ℤ◌ ◌-ℤ◌
ran_after = refl

abbrev commit_or : Result (ℕ × ℕ × Bool × StateDb Store) → ℕ × ℕ × Bool × StateDb Store
commit_or (ok c) = c
commit_or (panic f) = (0, 0, false, opened)

abbrev committed : ℕ × ℕ × Bool × StateDb Store
committed = commit_or (commit_state store after.state)

did_commit :
    commit_state store after.state ≡ ok (committed.0, committed.1, committed.2, committed.3)
unfolding validate_txs validate_tx validate_kind kind kind_of sender_of new_state commit_state
    space_finalise account_finalise finalise_space finalise_account update_account_object
    update_space_object delete_account_object account_of account_empty sub_balance add_balance
    sub_balance_gas add_balance_gas get_account_object modify_account set_account_object
    new_account_object fill_attributes set_balance_gas mark unmark elem lookup insert erase
    liquidate_report liquidation_to_state liquidate_all liquidate get_space_balance_by_id
    sub_space_balance_by_id sub_space_balance get_space_object modify_space set_space_object
    new_space_object set_balance space_of space_empty uint64 ◌+ℤ◌ ◌-ℤ◌
did_commit = refl

commit_state-ledger_example :
    ((o : AccountObject)
      → account_empty o ≡ false
      → view store after.state 8 ≡ some o
      → stored store committed.3.trie_account 8 ≡ some o)
    × ((o : AccountObject)
        → stored store committed.3.trie_account 8 ≡ some o
        → view store after.state 8 ≡ some o)
commit_state-ledger_example =
    commit_state-ledger store services store-IsTrie store-IsCodec reports 1 1 opened txs begin after
      committed.0 committed.1 committed.2 committed.3 8 new_state-opened refl ran_after did_commit

-- Account 7, which had the balance 20, after the creation of the space 1 for it.
abbrev owner : AccountObject
owner = record {
  address = 7;
  bind_space_id = 1;
  balance = pos 0;
  wallet_id = 3;
  code_hash = [];
  attribute = [];
  on_dirty = true;
}

owner_after : view store (create_space store services 7 begin).state 7 ≡ some owner
unfolding view create_space create_space_and_bind_addr create_account_object create_space_object
    associate_space_and_account detach unassociate_space_and_account set_space_id append_address
    set_balance_of validate_txs validate_tx validate_kind kind kind_of sender_of new_state
    commit_state space_finalise account_finalise finalise_space finalise_account
    update_account_object update_space_object delete_account_object account_of account_empty
    sub_balance add_balance sub_balance_gas add_balance_gas get_account_object modify_account
    set_account_object new_account_object fill_attributes set_balance_gas mark unmark elem lookup
    insert erase liquidate_report liquidation_to_state liquidate_all liquidate
    get_space_balance_by_id sub_space_balance_by_id sub_space_balance get_space_object modify_space
    set_space_object new_space_object set_balance space_of space_empty uint64 ◌+ℤ◌ ◌-ℤ◌
owner_after = refl

-- A transaction that costs more than account 7 has, and a block of it.
abbrev dear : Tx
dear = record (tx_of 11 4) { cost = pos 30 }

abbrev dear_block : Block
dear_block = record {
  header = record (head.header) { uncle_hash = 4; number = 5 };
  transactions = dear ∷ [];
  extra_data = [];
}

dear-panics :
    build_block store services reports proposer (some head) (messages_of services (dear ∷ []))
    ≡ panic encode_failed
unfolding build_block messages_of message_of build_txs build_tx build_kind kind kind_of sender_of
    new_state commit_state space_finalise account_finalise finalise_space finalise_account
    update_account_object update_space_object delete_account_object account_of account_empty
    sub_balance add_balance sub_balance_gas add_balance_gas get_account_object modify_account
    set_account_object new_account_object fill_attributes set_balance_gas mark unmark elem lookup
    insert erase liquidate_report liquidation_to_state liquidate_all liquidate
    get_space_balance_by_id sub_space_balance_by_id sub_space_balance get_space_object modify_space
    set_space_object new_space_object set_balance space_of space_empty uint64 ◌+ℤ◌ ◌-ℤ◌
dear-panics = refl

validate_block-panics_example :
    validate_block store services reports (some head) dear_block ≡ panic encode_failed
validate_block-panics_example =
    validate_block-panics store services reports proposer head dear_block dear [] encode_failed
      (omega arith) refl refl refl dear-panics
