-- ===== src/Examples/Blocks.antt =====
-- Blocks at concrete inputs.
use gocoin.State.Ops.{sub_balance, add_balance}
use gocoin.State.View.{view}
use gocoin.Examples.Store.{Store, store}
use gocoin.Examples.Ledger.{opened}
use gocoin.Examples.Groups.{Log, log, group}
use gocoin.Chain.Tx.{Tx, Block, Services, recharge, sender_of, kind, kind_of, uint64}
use gocoin.Chain.Exec.{
  liquidate_report, liquidation_to_state, liquidate_all, liquidate, Run, build_txs, validate_txs,
  validate_kind, build_tx, build_kind, validate_tx,
}
use gocoin.Chain.Exec.Agree.{messages_of, build_txs-eq-validate_txs, message_of}
use gocoin.Chain.Exec.Effect.{validate_kind-effect, effect}
use gocoin.Chain.Apply.{Chain, apply_transactions}
use gocoin.Chain.Apply.Agree.{
  apply_transactions-run, IsReports, IsOnce, once_nil, once_cons, fresh_nil, fresh_cons, run_of,
}
use gocoin.Chain.Blocks.{build_block, validate_block, Proposer, start, open_state}
use gocoin.Chain.Blocks.Honest.{validate_block-build_block}
use gocoin.State.Commit.{
  commit_state, space_finalise, account_finalise, finalise_space, finalise_account,
  update_account_object, update_space_object, delete_account_object,
}
use gocoin.State.Account.{
  account_of, account_empty, new_account_object, fill_attributes, set_balance_gas,
}
use gocoin.State.Space.{new_space_object, set_balance, space_of, space_empty}
use gocoin.State.Ops.{
  sub_balance, add_balance, sub_balance_gas, add_balance_gas, get_space_balance_by_id,
  sub_space_balance_by_id, sub_space_balance,
}
use gocoin.State.Db.{
  new_state, get_account_object, modify_account, set_account_object, mark, unmark, elem,
  get_space_object, modify_space, set_space_object, StateDb,
}
use gocoin.Chain.Tx.{Tx}
use gocoin.Examples.Few.{encode_back, ends_few, encode_back-AgreesOnFew, ends_few-FewAttributes}
use gocoin.State.Commit.Orders.{with_encoder, AgreesOnFew, FewAttributes}
use gocoin.Chain.Blocks.Accepted.{validate_block-insert}
use mathlib.Core.Path.{subst}
use gocoin.Common.{
  Bool, Bytes, Dict, List, Option, Result, [], ap, arith, erase, insert, length, lookup,
  lookup-erase, none, ok, pos, refl, some, subst, sym, true, ℕ, ◌+ℤ◌, ◌-ℤ◌, ◌>>=◌, ◌∙◌, ◌∷◌, ◌≡◌,
  nat_eq,
}

-- The reports that are kept, by the hash of their transaction.
abbrev pub Reports : Type 0
Reports = Dict ℕ Bytes

abbrev report_or_nothing : Option Bytes → Bytes
report_or_nothing none = []
report_or_nothing (some bytes) = bytes

abbrev reports_in : Bytes → Option (List (ℕ × ℕ))
reports_in [] = none
reports_in (gas ∷ rest) = some ((gas, 7) ∷ [])

-- Account 7 sends every transaction, and the hash of one is its time.
abbrev pub services : Services Reports
services = record {
  sender = λ tx. some 7;
  tx_hash = λ tx. tx.txtime;
  header_hash = λ h. h.number;
  derive_sha = λ txs. length txs;
  decode_attr = λ bytes. (bytes, bytes);
  decode_reports = reports_in;
  get_report = λ r h. report_or_nothing (lookup h r);
  delete_report = λ r h. erase h r;
}

services-IsReports : IsReports services
services-IsReports = record { delete_other = λ r h h' ne. ground (arith, lookup-erase h' h r) }

abbrev pub tx_of : ℕ → ℕ → Tx
tx_of time ptype = record {
  cost = pos 1;
  recipient = some 8;
  amount = pos 5;
  txtime = time;
  payload = ptype ∷ [];
  v = pos 0;
  r = pos 0;
  s = pos 0;
}

-- A recharge, a report, and an application.
abbrev pub txs : List Tx
txs = tx_of 11 2 ∷ tx_of 12 9 ∷ tx_of 13 8 ∷ []

abbrev pub reports : Reports
reports = (12, 4 ∷ []) ∷ []

abbrev pub head : Block
head = record {
  header = record {
    uncle_hash = 3;
    number = 4;
    id_index = 1;
    wallet_id = 4;
    group_id = 0;
    timestamp = 100;
    gas_used = pos 0;
    version = [];
    percent = [];
    pk = [];
    sign = [];
    liquidation_hash = [];
    extra_index = [];
    space_root = 1;
    acc_root = 1;
    group_root = 0;
    coin_root = 0;
    tx_root = 0;
    consensus_group_hash = 0;
    extra_hash = 0;
  };
  transactions = [];
  extra_data = [];
}

abbrev pub proposer : Proposer
proposer = record { now = 105; group_hash = 6; percent = []; pk = [] }

abbrev pub begin : Run Store
begin = start store services head opened

build_txs-eq-validate_txs_example :
    build_txs store services reports (messages_of services txs) begin
    ≡ validate_txs store services reports txs begin
build_txs-eq-validate_txs_example = build_txs-eq-validate_txs store services reports txs begin

abbrev chain : Chain Store Log Reports
chain = record { run = begin; group_id = 0; group = some group; reports = reports }

txs-IsOnce : IsOnce services txs
txs-IsOnce =
    once_cons (tx_of 11 2) (tx_of 12 9 ∷ tx_of 13 8 ∷ [])
      (fresh_cons (tx_of 12 9) (tx_of 13 8 ∷ []) (λ e. omega arith)
        (fresh_cons (tx_of 13 8) [] (λ e. omega arith) fresh_nil))
      (once_cons (tx_of 12 9) (tx_of 13 8 ∷ [])
        (fresh_cons (tx_of 13 8) [] (λ e. omega arith) fresh_nil)
        (once_cons (tx_of 13 8) [] fresh_nil once_nil))

apply_transactions-run_example :
    run_of (apply_transactions store services log txs chain)
    ≡ validate_txs store services reports txs begin
apply_transactions-run_example =
    apply_transactions-run store services log services-IsReports txs chain txs-IsOnce

abbrev made_from : Result (Option Block) → Block
made_from (ok (some blk)) = blk
made_from _ = head

abbrev made : Block
made =
    made_from (build_block store services reports proposer (some head) (messages_of services txs))

made-is_built :
    build_block store services reports proposer (some head) (messages_of services txs)
    ≡ ok (some made)
unfolding build_block messages_of message_of build_txs build_tx build_kind kind kind_of sender_of
    new_state commit_state space_finalise account_finalise finalise_space finalise_account
    update_account_object update_space_object delete_account_object account_of account_empty
    sub_balance add_balance sub_balance_gas add_balance_gas get_account_object modify_account
    set_account_object new_account_object fill_attributes set_balance_gas mark unmark elem lookup
    insert erase liquidate_report liquidation_to_state liquidate_all liquidate
    get_space_balance_by_id sub_space_balance_by_id sub_space_balance get_space_object modify_space
    set_space_object new_space_object set_balance space_of space_empty uint64 ◌+ℤ◌ ◌-ℤ◌
made-is_built = refl

-- The run of the transactions gives no account two attributes.
run-ends_few :
    ends_few (
      open_state store services head >>= λ s.
      validate_txs store services reports txs (start store services head s))
    ≡ true
unfolding validate_txs validate_tx validate_kind build_block messages_of message_of build_txs
    build_tx build_kind kind kind_of sender_of new_state commit_state space_finalise
    account_finalise finalise_space finalise_account update_account_object update_space_object
    delete_account_object account_of account_empty sub_balance add_balance sub_balance_gas
    add_balance_gas get_account_object modify_account set_account_object new_account_object
    fill_attributes set_balance_gas mark unmark elem lookup insert erase liquidate_report
    liquidation_to_state liquidate_all liquidate get_space_balance_by_id sub_space_balance_by_id
    sub_space_balance get_space_object modify_space set_space_object new_space_object set_balance
    space_of space_empty uint64 ◌+ℤ◌ ◌-ℤ◌
run-ends_few = refl

run-FewAttributes :
    (s : StateDb Store) (run : Run Store)
    → open_state store services head ≡ ok s
    → validate_txs store services reports txs (start store services head s) ≡ ok run
    → FewAttributes run.state
run-FewAttributes s run e1 e2 = ends_few-FewAttributes run (
    ap ends_few (
      sym e2
      ∙ ap (λ r. r >>= λ s. validate_txs store services reports txs (start store services head s))
          (sym e1))
    ∙ run-ends_few)

validate_block-build_block_example :
    validate_block (with_encoder encode_back store) services reports (some head) made ≡ ok true
validate_block-build_block_example =
    validate_block-build_block store services encode_back reports proposer head txs made
      (omega arith) encode_back-AgreesOnFew run-FewAttributes made-is_built

abbrev recharged : Run Store
recharged = record begin {
  state = (sub_balance store 7 (pos 1) (add_balance store 8 (pos 5) opened).1).1;
}

validate_kind-effect_example :
    view store recharged.state 8 ≡ effect services recharge (tx_of 11 2) (view store opened) 8
unfolding validate_kind sender_of
validate_kind-effect_example =
    validate_kind-effect store services reports recharge (tx_of 11 2) begin recharged 8 (λ e. cc)
      refl

store-AgreesOnFew : AgreesOnFew store.encode_account store.encode_account
unfolding AgreesOnFew
store-AgreesOnFew o few = refl

made_accepted : validate_block store services reports (some head) made ≡ ok true
made_accepted =
    validate_block-build_block store services store.encode_account reports proposer head txs made
      (omega arith) store-AgreesOnFew run-FewAttributes made-is_built

made_transactions : txs ≡ made.transactions
unfolding build_block messages_of message_of build_txs build_tx build_kind kind kind_of sender_of
    new_state commit_state space_finalise account_finalise finalise_space finalise_account
    update_account_object update_space_object delete_account_object account_of account_empty
    sub_balance add_balance sub_balance_gas add_balance_gas get_account_object modify_account
    set_account_object new_account_object fill_attributes set_balance_gas mark unmark elem lookup
    insert erase liquidate_report liquidation_to_state liquidate_all liquidate
    get_space_balance_by_id sub_space_balance_by_id sub_space_balance get_space_object modify_space
    set_space_object new_space_object set_balance space_of space_empty uint64 ◌+ℤ◌ ◌-ℤ◌
made_transactions = refl

made-IsOnce : IsOnce services made.transactions
made-IsOnce = subst (λ l. IsOnce services l) made_transactions txs-IsOnce

begun : (open_state store services head >>= λ s. ok (start store services head s)) ≡ ok chain.run
unfolding new_state
begun = refl

made-FewAttributes :
    (s : StateDb Store) (run : Run Store)
    → open_state store services head ≡ ok s
    → validate_txs store services reports made.transactions (start store services head s) ≡ ok run
    → FewAttributes run.state
made-FewAttributes =
    subst
      (λ (l : List Tx).
        (s : StateDb Store) (run : Run Store)
        → open_state store services head ≡ ok s
        → validate_txs store services reports l (start store services head s) ≡ ok run
        → FewAttributes run.state)
      made_transactions run-FewAttributes

validate_block-insert_example :
    (c' : Chain Store Log Reports) × (err : Bool) × (s' : StateDb Store) × (apply_transactions
        (with_encoder encode_back store)
        services
        log
        made.transactions
        chain
      ≡ ok c')
    × (commit_state (with_encoder encode_back store) c'.run.state
        ≡ ok (made.header.space_root, made.header.acc_root, err, s'))
validate_block-insert_example =
    validate_block-insert store services log services-IsReports encode_back head made chain
      made-IsOnce encode_back-AgreesOnFew made-FewAttributes made_accepted begun
