-- ===== src/Examples/Ledger.antt =====
-- The ledger state at concrete inputs.
use gocoin.Examples.Store.{Store, store, store-IsTrie, store-IsCodec, seven}
use gocoin.State.Account.{
  AccountObject, new_account_object, fill_attributes, set_balance_gas, account_empty,
}
use gocoin.State.View.{view, stored}
use gocoin.State.Tracked.{IsTracked, new_state-IsTracked}
use gocoin.State.Tracked.Ops.{balances-IsTracked}
use gocoin.State.Commit.{account_finalise}
use gocoin.State.Commit.Accounts.{account_finalise-view}
use gocoin.State.Commit.Panics.{account_finalise_ok_iff, IsCovered}
use gocoin.State.Commit.Overdraft.{sub_balance-overdraft}
use gocoin.State.Ops.{add_balance, sub_balance, add_balance_gas}
use gocoin.State.Db.{
  StateDb, new_state, get_account_object, elem, modify_account, set_account_object, mark,
}
use gocoin.Common.{
  [], arith, false, insert, lookup, ok, pos, refl, some, true, ℤ, ◌+ℤ◌, ◌↔◌, ◌∷◌, ◌≡◌, nat_eq,
  bytes_eq,
}

abbrev pub opened : StateDb Store
opened = record {
  trie_space = (7, seven) ∷ (8, seven) ∷ [];
  trie_account = (7, seven) ∷ (8, seven) ∷ [];
  space_objects = [];
  account_objects = [];
  space_objects_dirty = [];
  account_objects_dirty = [];
  db_err = false;
}

abbrev account_with : ℤ → AccountObject
account_with x = record {
  address = 7;
  bind_space_id = 0;
  balance = x;
  wallet_id = 3;
  code_hash = [];
  attribute = [];
  on_dirty = true;
}

pub new_state-opened : new_state store 1 1 ≡ some opened
unfolding new_state
new_state-opened = refl

view_seven : view store opened 7 ≡ some (account_with (pos 20))
unfolding view lookup new_account_object fill_attributes
view_seven = refl

pub opened-IsTracked : IsTracked store opened
opened-IsTracked = new_state-IsTracked store 1 1 opened new_state-opened

-- Account 7 has 5 more.
abbrev changed : StateDb Store
changed = (add_balance store 7 (pos 5) opened).1

changed-IsTracked : IsTracked store changed
changed-IsTracked = (balances-IsTracked store 7 (pos 5) opened opened-IsTracked).0

changed-IsCovered : IsCovered changed changed.account_objects_dirty
unfolding elem lookup insert add_balance add_balance_gas get_account_object modify_account
    new_account_object set_account_object mark set_balance_gas fill_attributes ◌+ℤ◌
changed-IsCovered a o m f = ground arith

finalised : (s' : StateDb Store) × (account_finalise store true changed ≡ ok s')
finalised =
    (account_finalise_ok_iff store store-IsCodec true changed changed-IsTracked).1 changed-IsCovered

account_finalise_ok_iff_example :
    ((s' : StateDb Store) × (account_finalise store true changed ≡ ok s'))
    ↔ IsCovered changed changed.account_objects_dirty
account_finalise_ok_iff_example =
    account_finalise_ok_iff store store-IsCodec true changed changed-IsTracked

account_finalise-view_example :
    ((o : AccountObject)
      → account_empty o ≡ false
      → view store changed 7 ≡ some o
      → stored store finalised.0.trie_account 7 ≡ some o)
    × ((o : AccountObject)
        → stored store finalised.0.trie_account 7 ≡ some o
        → view store changed 7 ≡ some o)
account_finalise-view_example =
    account_finalise-view store store-IsTrie store-IsCodec true changed finalised.0 7
      changed-IsTracked finalised.1

sub_balance-overdraft_example : ¬ (
    (s' : StateDb Store) × (account_finalise store true (sub_balance store 7 (pos 30) opened).1
      ≡ ok s'))
sub_balance-overdraft_example =
    sub_balance-overdraft store store-IsCodec true 7 (pos 30) opened (account_with (pos 20))
      opened-IsTracked view_seven (omega arith) (λ h. omega arith)
