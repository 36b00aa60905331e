-- ===== src/Chain/Apply.antt =====
-- Inserting a block: `ApplyTransaction` and `Process` of libraries/chain/space/blockchain.go,
-- with the consensus groups and the liquidation reports.
pub mod Agree
pub mod Epoch
use gocoin.Group.Select.{select_thresholds, select_coin_thresholds, select_tx_thresholds}
use gocoin.State.Ops.{sub_balance, add_balance, set_attribute_of}
use gocoin.Group.Reset.{reset, is_quorum, reset_coin_group, reset_tx_group}
use gocoin.Group.Store.{Database, GroupMembers, GroupMember}
use gocoin.Chain.Tx.{
  space_creation, recharge, attr_set, create_group, publish_coin, epoch_tx, epoch_sig_tx,
  apply_group, stell_report, stell_group, coin_group, transaction_group, other_kind, Services, Tx,
  Kind, deref, Block, kind, sender_of, rest_of,
}
use gocoin.Group.Defs.{ValidateGroup, Externals, add, add_stell, add_coin, add_transaction}
use gocoin.Chain.Exec.{Run, with_state, liquidation_to_state, create_space}
use gocoin.State.Backend.{Backend}
use mathlib.Core.Bool.{not}
use gocoin.Common.{
  Bytes, List, Option, Result, [], if◌then◌else◌, ltb, negsuc, none, ok, pos, some, ℕ, ℤ, ◌%◌, ◌&&◌,
  ◌++◌, ◌+ℤ◌, ◌-◌, ◌==◌, ◌>>=◌, ◌^◌, ◌∷◌,
}

-- The parts of the block chain that `Process` changes, next to the ledger. The group is nil until
-- it is set.
pub record Chain (T D R : Type 0) : Type 0 where
  pub run : Run T
  pub group_id : ℕ
  pub group : Option (ValidateGroup D)
  pub reports : R

-- `big.NewInt(int64(n))` of a uint64.
unfoldable pub int64 : ℕ → ℤ
int64 n = if ltb n (2 ^ 63) then pos n else negsuc (2 ^ 64 - n - 1)

abbrev pub epoch_length : ℕ
epoch_length = 3

-- A `CreatethresholdEvent`, without its hash: the group id and the addresses.
abbrev pub Event : Type 0
Event = ℕ × List ℕ

-- `if ...Size() >= 3` with the selection and the event that is sent.
abbrev pub announce : ℕ → GroupMembers → Result (List ℕ) → Result (List Event)
announce gid ms selection =
    if is_quorum ms then (selection >>= λ committee. ok ((gid, committee) ∷ [])) else ok []

module _ {D : Type 0} (d : Database D) where
  -- What `Process` does with the groups at the end of an epoch.
  unfoldable pub next_epoch :
      Externals → ℕ → ℕ → ValidateGroup D → Result (List Event × ValidateGroup D)
  next_epoch x number hash vg = do
    let vg1 = reset d x hash vg
    e1 ← announce 0 vg1.thresholdgroupmembers (select_thresholds x number vg1)
    let vg2 = reset_coin_group d x vg1
    e2 ← announce 1 vg2.thresholdcoingroupmembers (select_coin_thresholds x number vg2)
    let vg3 = reset_tx_group d x vg2
    e3 ← announce 2 vg3.thresholdtxgroupmembers (select_tx_thresholds x number vg3)
    ok (e1 ++ (e2 ++ e3), vg3)

module _ {T D R : Type 0} (b : Backend T) (v : Services R) (d : Database D) where
  -- The applicant of a transaction.
  abbrev pub member_of : Tx → GroupMember
  member_of tx = record { address = sender_of v tx; time = int64 tx.txtime }

  abbrev pub in_group :
      (ValidateGroup D → ValidateGroup D) → Option (ValidateGroup D) → Option (ValidateGroup D)
  in_group f none = none
  in_group f (some vg) = some (f vg)

  abbrev charged : Tx → Chain T D R → Chain T D R
  charged tx c = record c {
    run = with_state (λ s. (sub_balance b (sender_of v tx) tx.cost s).1) c.run;
  }

  -- Case 9: a report that is there is carried out, and deleted.
  abbrev pub settle : ℕ → Bytes → Chain T D R → Chain T D R
  settle hash [] c = c
  settle hash (x ∷ xs) c = record c {
    run = with_state (liquidation_to_state b v (x ∷ xs)) c.run;
    reports = v.delete_report c.reports hash;
  }

  -- The switch of `ApplyTransaction`.
  unfoldable pub apply_kind : Kind → Tx → Chain T D R → Result (Chain T D R)
  apply_kind space_creation tx c = do
    to ← deref tx.recipient
    ok (record c { run = create_space b v to c.run })
  apply_kind recharge tx c = do
    to ← deref tx.recipient
    ok (record c {
      run =
          with_state
            (λ s. (sub_balance b (sender_of v tx) tx.cost (add_balance b to tx.amount s).1).1)
            c.run;
    })
  apply_kind attr_set tx c = do
    let (k, x) = v.decode_attr (rest_of tx.payload)
    to ← deref tx.recipient
    ok (record c {
      run =
          with_state
            (λ s. (sub_balance b (sender_of v tx) tx.cost (set_attribute_of b to k x s).1).1) c.run;
    })
  apply_kind create_group tx c = ok (charged tx c)
  apply_kind publish_coin tx c = ok (charged tx c)
  apply_kind epoch_tx tx c = ok c
  apply_kind epoch_sig_tx tx c = ok (charged tx c)
  apply_kind apply_group tx c =
      ok (record (charged tx c) { group = in_group (add d (member_of tx)) c.group })
  apply_kind stell_report tx c =
      ok (settle (v.tx_hash tx) (v.get_report c.reports (v.tx_hash tx)) c)
  apply_kind stell_group tx c =
      ok (record (charged tx c) { group = in_group (add_stell d (member_of tx)) c.group })
  apply_kind coin_group tx c =
      ok (record (charged tx c) { group = in_group (add_coin d (member_of tx)) c.group })
  apply_kind transaction_group tx c =
      ok (record (charged tx c) { group = in_group (add_transaction d (member_of tx)) c.group })
  apply_kind other_kind tx c = ok c

  -- `ApplyTransaction`
  unfoldable pub apply_transaction : Tx → Chain T D R → Result (Chain T D R)
  unfolding apply_kind
  apply_transaction tx c = do
    k ← kind tx.payload
    apply_kind k tx (record c { run = record (c.run) { cost = c.run.cost +ℤ tx.cost } })

  unfoldable pub apply_transactions : List Tx → Chain T D R → Result (Chain T D R)
  apply_transactions [] c = ok c
  apply_transactions (tx ∷ txs) c = apply_transaction tx c >>= apply_transactions txs

  abbrev epoch_step :
      Externals → ℕ → ℕ → Chain T D R → Option (ValidateGroup D) → Result (List Event × Chain T D R)
  epoch_step x number hash c none = ok ([], c)
  epoch_step x number hash c (some vg) = do
    (events, vg') ← next_epoch d x number hash vg
    ok (events, record c { group = some vg' })

  -- `Process`, on a run that starts from the current block's ids at cost 0.
  unfoldable pub process : Externals → Block → Chain T D R → Result (List Event × Chain T D R)
  unfolding apply_transactions next_epoch
  process x block c = do
    c' ← apply_transactions block.transactions c
    let number = block.header.number % 2 ^ 64
    if number % epoch_length == 0 && not (number == 0)
        then epoch_step x number block.header.consensus_group_hash c' c'.group
        else ok ([], c')
