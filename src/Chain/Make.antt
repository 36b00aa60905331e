-- ===== src/Chain/Make.antt =====
-- The constructors of transactions, and `AddEpochSig`: libraries/chain/space/protocol/tx.go.
-- `now` is the Unix time of the call.
pub mod Dispatch
pub mod Signed
use gocoin.Chain.Tx.{Tx, new_tx}
use gocoin.Common.{
  Bytes, Result, [], drop, index_out_of_range, length, ok, panic, pos, some, take, ℕ, ℤ, ◌%◌, ◌++◌,
  ◌/◌, ◌^◌, ◌∷◌,
}

-- `binary.BigEndian.PutUint32`, of a uint32.
unfoldable pub put_uint32 : ℕ → Bytes
put_uint32 n = n / 2 ^ 24 % 256 ∷ n / 2 ^ 16 % 256 ∷ n / 2 ^ 8 % 256 ∷ n % 256 ∷ []

unfoldable pub new_settle_hash_tx : Bytes → ℕ → Tx
unfolding new_tx
new_settle_hash_tx datahash now = new_tx (some 0) (pos 0) (pos 0) (9 ∷ datahash) now

unfoldable pub new_space_creation : ℤ → ℕ → ℕ → Tx
unfolding new_tx
new_space_creation cost addr now = new_tx (some addr) (pos 0) cost (1 ∷ []) now

unfoldable pub create_contract_tx : ℤ → Bytes → ℕ → Tx
unfolding new_tx
create_contract_tx cost payload now = new_tx (some 0) (pos 0) cost (13 ∷ payload) now

unfoldable pub run_contract_tx : ℕ → ℤ → ℤ → Bytes → ℕ → Tx
unfolding new_tx
run_contract_tx to amount cost payload now = new_tx (some to) amount cost (14 ∷ payload) now

unfoldable pub apply_stell_group : ℕ → ℤ → ℤ → ℕ → Tx
unfolding new_tx
apply_stell_group to amount cost now = new_tx (some to) amount cost (10 ∷ []) now

unfoldable pub apply_coin_group : ℕ → ℤ → ℤ → ℕ → Tx
unfolding new_tx
apply_coin_group to amount cost now = new_tx (some to) amount cost (11 ∷ []) now

unfoldable pub apply_transaction_group : ℕ → ℤ → ℤ → ℕ → Tx
unfolding new_tx
apply_transaction_group to amount cost now = new_tx (some to) amount cost (12 ∷ []) now

unfoldable pub apply_validate_group : ℕ → ℤ → ℤ → ℕ → Tx
unfolding new_tx
apply_validate_group to amount cost now = new_tx (some to) amount cost (8 ∷ []) now

unfoldable pub new_recharge : ℕ → ℤ → ℤ → ℕ → Tx
unfolding new_tx
new_recharge to amount cost now = new_tx (some to) amount cost (2 ∷ []) now

-- `NewAttrSet`, of the encoded attribute.
unfoldable pub new_attr_set : ℕ → ℤ → Bytes → ℕ → Tx
unfolding new_tx
new_attr_set to cost encoded now = new_tx (some to) (pos 0) cost (3 ∷ encoded) now

unfoldable pub new_create_group : ℕ → ℕ → Tx
unfolding new_tx
new_create_group gaddr now = new_tx (some gaddr) (pos 0) (pos 0) (4 ∷ []) now

unfoldable pub new_publish_con : ℤ → ℤ → Bytes → ℕ → Tx
unfolding new_tx
new_publish_con amount cost payload now = new_tx (some 0) amount cost (5 ∷ payload) now

unfoldable pub new_epoch_tx : ℤ → Bytes → ℕ → Tx
unfolding new_tx put_uint32
new_epoch_tx cost payload now =
    new_tx (some 0) (pos 0) cost (6 ∷ put_uint32 (length payload % 2 ^ 32) ++ payload) now

-- Go's `copy(dst, src)`, which copies as much as fits.
abbrev pub copy : Bytes → Bytes → Bytes
copy dst src = take (length dst) src ++ drop (length src) dst

-- `AddEpochSig`
unfoldable pub add_epoch_sig : Bytes → Tx → Result Tx
unfolding put_uint32
add_epoch_sig sig tx = elim tx.payload [
  | [] ↦ panic index_out_of_range
  | ptype ∷ rest ↦ ok (record tx {
    payload = copy (ptype ∷ rest) (7 ∷ (rest ++ (put_uint32 (length sig % 2 ^ 32) ++ sig)));
  })
]
