-- ===== src/Group/Reset.antt =====
-- The change of members at an epoch, and the start from what the database holds
-- (libraries/chain/validategroup/validategroup.go).
use gocoin.Group.Defs.{Externals, ValidateGroup, include_all}
use gocoin.Group.Store.{
  Database, GroupMembers, delete_new_tx_members, get_group_const, delete_coin_validate_group,
  write_group_const, delete_validate_group, write_threshold_tx_members, write_threshold_coin_group,
  write_threshold_group, get_threshold_group, write_coin_group, get_validate_group,
  write_transaction_group, get_stell_group, get_coin_group, get_coin_validate_group,
  get_threshold_coin_group, get_transaction_group, get_new_tx_members, get_threshold_tx_members,
}
use mathlib.Core.Bool.{not}
use gocoin.Common.{
  Bool, Result, [], false, if◌then◌else◌, index_out_of_range, leb, length, ok, panic, true, ℕ, ◌&&◌,
  ◌++◌, ◌==◌, ◌||◌, ◌∷◌,
}

-- `len(...) >= 3`, from which number on the waiting members become members.
abbrev pub is_quorum : GroupMembers → Bool
is_quorum ms = leb 3 (length ms)

abbrev is_present : GroupMembers → Bool
is_present [] = false
is_present (m ∷ ms) = true

module _ {D : Type 0} (b : Database D) (x : Externals) where
  -- What `Reset(hash, true)` does with the sorted members, of which it reads the first.
  abbrev install : ℕ → GroupMembers → D → ValidateGroup D → Result (ValidateGroup D)
  install hash [] db vg = panic index_out_of_range
  install hash (first ∷ rest) db vg =
      if x.hash_address first.address == hash
      then ok (record vg {
        groupmembers = first ∷ rest;
        newgroupmembers = [];
        no_validate = true;
        group_db = (write_group_const b hash (first ∷ rest) db).1;
      })
      else ok (record vg {
        groupmembers = first ∷ rest;
        newgroupmembers = [];
        no_validate = false;
        group_db = db;
      })

  -- `Reset(hash, true)`
  unfoldable pub reset_init : ℕ → ValidateGroup D → Result (ValidateGroup D)
  reset_init hash vg =
      let vg1 : ValidateGroup D = record vg { consensus_members = []; consensus_address = [] } in
      if is_present vg.newgroupmembers
      then install hash (x.sort_by_time (vg.groupmembers ++ vg.newgroupmembers))
          (delete_validate_group b vg.group_db).0 vg1
      else ok vg1

  -- The first part of `Reset(hash, false)`: the waiting members move on.
  unfoldable pub advance : ValidateGroup D → ValidateGroup D
  advance vg =
      let members =
        if is_quorum vg.thresholdgroupmembers then vg.thresholdgroupmembers else vg.groupmembers in
      let threshold = vg.thresholdgroupmembers ++ vg.newgroupmembers in
      elim vg.newgroupmembers [
        | [] ↦ record vg { groupmembers = members }
        | _ ∷ _ ↦ record vg {
          groupmembers = members;
          thresholdgroupmembers = threshold;
          newgroupmembers = [];
          group_db = (delete_validate_group b (write_threshold_group b threshold vg.group_db).1).0;
        }
      ]

  -- `Reset(hash, false)`
  unfoldable pub reset : ℕ → ValidateGroup D → ValidateGroup D
  unfolding advance
  reset hash vg =
      let vg1 = advance vg in
      let sorted = x.sort_by_time vg1.groupmembers in
      let db1 = (write_group_const b hash sorted vg1.group_db).1 in
      let db2 =
        if x.hash_members sorted == hash
        then db1
        else (write_group_const b (x.hash_members sorted) sorted db1).1 in
      record vg1 {
        groupmembers = sorted;
        no_validate = true;
        group_db = if is_quorum vg.thresholdgroupmembers then db2 else vg1.group_db;
        consensus_members = [];
        consensus_address = [];
      }

  -- `ResetCoinGroup`
  unfoldable pub reset_coin_group : ValidateGroup D → ValidateGroup D
  reset_coin_group vg =
      let quorum = is_quorum vg.thresholdcoingroupmembers in
      let threshold = vg.thresholdcoingroupmembers ++ vg.newcoingroupmembers in
      let moved = is_present vg.newcoingroupmembers in
      let members =
        x.sort_by_time (if quorum then vg.thresholdcoingroupmembers else vg.coingroupmembers) in
      let db1 =
        if moved
        then (delete_coin_validate_group b (write_threshold_coin_group b threshold vg.group_db).1).0
        else vg.group_db in
      record vg {
        coingroupmembers = members;
        thresholdcoingroupmembers = if moved then threshold else vg.thresholdcoingroupmembers;
        newcoingroupmembers = [];
        no_validate = true;
        group_db = if quorum then (write_coin_group b members db1).1 else db1;
        validate_members = [];
        validate_address = [];
      }

  -- `ResetTxGroup`
  unfoldable pub reset_tx_group : ValidateGroup D → ValidateGroup D
  reset_tx_group vg =
      let quorum = is_quorum vg.thresholdtxgroupmembers in
      let threshold = vg.thresholdtxgroupmembers ++ vg.newtxgroupmembers in
      let moved = is_present vg.newtxgroupmembers in
      let members =
        x.sort_by_time
          (if quorum then vg.thresholdtxgroupmembers else vg.transactiongroupmembers) in
      let db1 =
        if moved
        then (delete_new_tx_members b (write_threshold_tx_members b threshold vg.group_db).1).0
        else vg.group_db in
      record vg {
        transactiongroupmembers = members;
        thresholdtxgroupmembers = if moved then threshold else vg.thresholdtxgroupmembers;
        newtxgroupmembers = [];
        no_validate = true;
        group_db = if quorum then (write_transaction_group b members db1).1 else db1;
        consensus_tx_members = [];
        consensus_tx_address = [];
      }

  -- `SetlastGroupHash`
  unfoldable pub set_last_group_hash : ℕ → ValidateGroup D → ValidateGroup D
  set_last_group_hash hash vg = record vg {
    group_db = (write_group_const b hash vg.groupmembers vg.group_db).1;
  }

  -- `NewValidateGroup`
  unfoldable pub new_validate_group : ℕ → D → ValidateGroup D
  new_validate_group hash db =
      let (err, size, saved) = get_group_const b hash db in
      let (_, _, threshold) = get_threshold_group b db in
      let (_, _, fresh) = get_validate_group b db in
      let (_, _, stell) = get_stell_group b db in
      let (_, _, coin) = get_coin_group b db in
      let (_, _, fresh_coin) = get_coin_validate_group b db in
      let (_, _, threshold_coin) = get_threshold_coin_group b db in
      let (_, _, transaction) = get_transaction_group b db in
      let (_, _, fresh_tx) = get_new_tx_members b db in
      let (_, _, threshold_tx) = get_threshold_tx_members b db in
      let members = if err || not (is_present saved) then saved else x.sort_by_time saved in
      record {
        group_size = if err then 0 else size;
        number = 0;
        no_validate = not err && is_present saved && x.hash_members (x.sort_by_time saved) == hash;
        groupmembers = members;
        newgroupmembers = fresh;
        thresholdgroupmembers = threshold;
        consensus_members = [];
        consensus_address = [];
        members_address = include_all fresh (include_all threshold (include_all saved []));
        coingroupmembers = coin;
        newcoingroupmembers = fresh_coin;
        thresholdcoingroupmembers = threshold_coin;
        validate_members = [];
        validate_address = [];
        coin_addresses = include_all threshold_coin (include_all fresh_coin (include_all coin []));
        transactiongroupmembers = transaction;
        newtxgroupmembers = fresh_tx;
        thresholdtxgroupmembers = threshold_tx;
        consensus_tx_members = [];
        consensus_tx_address = [];
        transaction_addresses =
            include_all threshold_tx (include_all fresh_tx (include_all transaction []));
        stellgroupmembers = stell;
        stell_addresses = include_all stell [];
        group_db = db;
      }
