-- ===== src/State/Account.antt =====
-- Accounts: libraries/chain/space/state/account_object.go. An `accountObject` is the copy of a
-- stored account that the state works on. Addresses are only compared, so they are numbers.
use gocoin.Common.{
  Bool, Bytes, Dict, List, Option, [], erase, false, insert, lookup, none, pos, some, true, zero, ℕ,
  ℤ, ◌&&◌, ◌==◌, ◌∷◌, bytes_eq,
}

-- `Account`, as it is encoded in the trie. Go's nil big integers are `none`.
pub record Account : Type 0 where
  pub bind_space_id : Option ℕ
  pub balance : Option ℤ
  pub wallet_id : ℕ
  pub code_hash : Bytes
  pub account_key : List Bytes
  pub account_value : List Bytes

-- `accountObject`. `on_dirty` says whether the callback that marks the object dirty is still
-- set: it runs once and is then nil. The key and value lists of `data` are those that were
-- decoded.
pub record AccountObject : Type 0 where
  pub address : ℕ
  pub bind_space_id : ℕ
  pub balance : ℤ
  pub wallet_id : ℕ
  pub code_hash : Bytes
  pub attribute : Dict Bytes Bytes
  pub on_dirty : Bool

-- The loop of `newAccountObject` over the shorter of the two lists.
unfoldable pub fill_attributes : List Bytes → List Bytes → Dict Bytes Bytes → Dict Bytes Bytes
fill_attributes [] vs d = d
fill_attributes (k ∷ ks) [] d = d
fill_attributes (k ∷ ks) (v ∷ vs) d = fill_attributes ks vs (insert k v d)

abbrev or_zero_id : Option ℕ → ℕ
or_zero_id none = 0
or_zero_id (some n) = n

abbrev or_zero : Option ℤ → ℤ
or_zero none = pos 0
or_zero (some x) = x

unfoldable pub new_account_object : ℕ → Account → AccountObject
new_account_object addr acc = record {
  address = addr;
  bind_space_id = or_zero_id acc.bind_space_id;
  balance = or_zero acc.balance;
  wallet_id = acc.wallet_id;
  code_hash = acc.code_hash;
  attribute = fill_attributes acc.account_key acc.account_value [];
  on_dirty = true;
}

-- The keys and the values of a map, in the order of one iteration.
abbrev pub keys : Dict Bytes Bytes → List Bytes
keys [] = []
keys ((k, v) ∷ d) = k ∷ keys d

abbrev pub values : Dict Bytes Bytes → List Bytes
values [] = []
values ((k, v) ∷ d) = v ∷ values d

-- The value that `EncodeRLP` hands to the encoder, with the map as the list of its entries. Go ranges
-- over the map in an order that it does not fix: the list has the entries in the order of one
-- iteration, and an encoder that takes another order is another encoder of the same value, for which
-- State.Commit.Orders has `with_encoder`.
unfoldable pub account_of : AccountObject → Account
account_of o = record {
  bind_space_id = some o.bind_space_id;
  balance = some o.balance;
  wallet_id = o.wallet_id;
  code_hash = o.code_hash;
  account_key = keys o.attribute;
  account_value = values o.attribute;
}

abbrev is_empty_dict : Dict Bytes Bytes → Bool
is_empty_dict [] = true
is_empty_dict (e ∷ d) = false

abbrev pub is_zero : ℤ → Bool
is_zero (pos zero) = true
is_zero _ = false

-- `empty`
unfoldable pub account_empty : AccountObject → Bool
account_empty o = o.bind_space_id == 0 && is_empty_dict o.attribute && is_zero o.balance

-- The setters change the data; `modify_account` of State.Db uses up the callback.
unfoldable pub set_balance_gas : ℤ → AccountObject → AccountObject
set_balance_gas x o = record o { balance = x }

unfoldable pub set_space_id : ℕ → AccountObject → AccountObject
set_space_id id o = record o { bind_space_id = id }

unfoldable pub get_attribute : Bytes → AccountObject → Bytes
get_attribute k o = elim (lookup k o.attribute) [ none ↦ [] | some v ↦ v ]

unfoldable pub set_attribute : Bytes → Bytes → AccountObject → AccountObject
set_attribute k v o = record o { attribute = insert k v o.attribute }

unfoldable pub del_attribute : Bytes → AccountObject → AccountObject
del_attribute k o = record o { attribute = erase k o.attribute }
