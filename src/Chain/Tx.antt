-- ===== src/Chain/Tx.antt =====
-- Transactions, headers and blocks: libraries/chain/space/protocol/tx.go and block.go. Addresses
-- and hashes are numbers; big integers that may be negative are ℤ.
pub mod Lists
use gocoin.Common.{
  Bytes, List, Option, Result, [], if◌then◌else◌, index_out_of_range, negsuc, nil_pointer, none, ok,
  panic, pos, some, ℕ, ℤ, ◌%◌, ◌+◌, ◌==◌, ◌^◌, ◌∷◌,
}

-- `Txstruct`; a nil recipient is `none`.
pub record Tx : Type 0 where
  pub cost : ℤ
  pub recipient : Option ℕ
  pub amount : ℤ
  pub txtime : ℕ
  pub payload : Bytes
  pub v : ℤ
  pub r : ℤ
  pub s : ℤ

-- The types of a transaction, by the first byte of its payload: the constants from
-- `idtSpaceCreation` on.
pub data Kind : Type 0 where
  space_creation recharge attr_set create_group publish_coin epoch_tx epoch_sig_tx : Kind
  apply_group stell_report stell_group coin_group transaction_group other_kind : Kind

unfoldable pub kind_of : ℕ → Kind
kind_of ptype =
    if ptype == 1
    then space_creation
    else if ptype == 2
    then recharge
    else if ptype == 3
    then attr_set
    else if ptype == 4
    then create_group
    else if ptype == 5
    then publish_coin
    else if ptype == 6
    then epoch_tx
    else if ptype == 7
    then epoch_sig_tx
    else if ptype == 8
    then apply_group
    else if ptype == 9
    then stell_report
    else if ptype == 10
    then stell_group
    else if ptype == 11
    then coin_group
    else if ptype == 12
    then transaction_group
    else other_kind

-- `Message` and `Block_Tx`: a transaction of the pool with what was read off it. `Stell` is never
-- set.
pub record BlockTx : Type 0 where
  pub hash : ℕ
  pub to : Option ℕ
  pub sender : ℕ
  pub cost : ℤ
  pub amount : ℤ
  pub payload : Bytes
  pub tx : Tx

-- `Header`. The extra index is an array of four bytes.
pub record Header : Type 0 where
  pub uncle_hash : ℕ
  pub number : ℕ
  pub id_index : ℕ
  pub wallet_id : ℕ
  pub group_id : ℕ
  pub timestamp : ℕ
  pub gas_used : ℤ
  pub version : Bytes
  pub percent : Bytes
  pub pk : Bytes
  pub sign : Bytes
  pub liquidation_hash : Bytes
  pub extra_index : Bytes
  pub space_root : ℕ
  pub acc_root : ℕ
  pub group_root : ℕ
  pub coin_root : ℕ
  pub tx_root : ℕ
  pub consensus_group_hash : ℕ
  pub extra_hash : ℕ

pub record Block : Type 0 where
  pub header : Header
  pub transactions : List Tx
  pub extra_data : Bytes

-- `big.Int.Uint64`: the low 64 bits of the absolute value.
unfoldable pub uint64 : ℤ → ℕ
uint64 (pos n) = n % 2 ^ 64
uint64 (negsuc n) = (n + 1) % 2 ^ 64

-- What is computed outside these packages: signatures and hashes, and RLP. `R` is the database of
-- the liquidation reports.
pub record Services (R : Type 0) : Type 0 where
  -- `protocol.Sender`, `none` for its error.
  pub sender : Tx → Option ℕ
  pub tx_hash : Tx → ℕ
  pub header_hash : Header → ℕ
  pub derive_sha : List Tx → ℕ
  -- What `rlp.DecodeBytes` leaves in the key and the value of an `Attr`.
  pub decode_attr : Bytes → Bytes × Bytes
  -- The reports: for each the gas, a uint64, and the space id.
  pub decode_reports : Bytes → Option (List (ℕ × ℕ))
  pub get_report : R → ℕ → Bytes
  pub delete_report : R → ℕ → R

-- `from, _ := protocol.Sender(...)`, which is the zero address after an error.
unfoldable pub sender_of : {R : Type 0} → Services R → Tx → ℕ
sender_of v tx = elim (v.sender tx) [ none ↦ 0 | some a ↦ a ]

-- `tx.Data()[0]`
unfoldable pub kind : Bytes → Result Kind
unfolding kind_of
kind [] = panic index_out_of_range
kind (ptype ∷ rest) = ok (kind_of ptype)

-- `tx.Data()[1:]`, of a payload that has a first byte.
abbrev pub rest_of : Bytes → Bytes
rest_of [] = []
rest_of (ptype ∷ rest) = rest

-- `*p`
abbrev pub deref : Option ℕ → Result ℕ
deref none = panic nil_pointer
deref (some a) = ok a

-- `newTx`, for a recipient, an amount and a cost that are given; `now` is the Unix time.
unfoldable pub new_tx : Option ℕ → ℤ → ℤ → Bytes → ℕ → Tx
new_tx to amount cost payload now = record {
  cost = cost;
  recipient = to;
  amount = amount;
  txtime = now;
  payload = payload;
  v = pos 0;
  r = pos 0;
  s = pos 0;
}
