-- ===== src/Chain/Storage.antt =====
-- What is kept of the chain in the key-value database: libraries/chain/space/database_util.go. The
-- database and RLP are parameters.
pub mod Keys
pub mod Laws
pub mod Blocks
pub mod Ancestor
use gocoin.Chain.Tx.{Header, Block, Tx, Services}
use gocoin.Common.{
  Bool, Bytes, List, Option, Result, [], digits, drop, false, if◌then◌else◌, length, none,
  number_from, ok, panic, process_exit, some, true, ℕ, ◌%◌, ◌+◌, ◌-◌, ◌==◌, ◌^◌, ◌∷◌, ◌>>=◌,
}

-- The keys, of numbers that are uint64 and of hashes. `key_bytes` of `Chain.Storage.Keys` writes
-- them as the code does.
pub data Key : Type 0 where
  head_header_key head_block_key head_fast_key : Key
  header_key body_key : ℕ → ℕ → Key
  canonical_key number_key lookup_key liquidation_key : ℕ → Key

-- `Block_Body`
pub record Body : Type 0 where
  pub transactions : List Tx
  pub extra_data : Bytes

-- `TxLookupEntry`
pub record TxLookupEntry : Type 0 where
  pub block_hash : ℕ
  pub block_index : ℕ
  pub index : ℕ

-- `lvldb.Database` for the type `D` of its states, and the RLP of what is stored. `get` gives no
-- bytes for a missing key; `put` and `delete` say whether their error is non-nil. An encoder or a
-- decoder that fails returns `none`.
pub record KeyValue (D : Type 0) : Type 0 where
  pub get : D → Key → Bytes
  pub put : D → Key → Bytes → D × Bool
  pub delete : D → Key → D × Bool
  pub encode_header : Header → Option Bytes
  pub decode_header : Bytes → Option Header
  pub encode_body : Body → Option Bytes
  pub decode_body : Bytes → Option Body
  pub encode_entry : TxLookupEntry → Option Bytes
  pub decode_entry : Bytes → Option TxLookupEntry

-- `hash.Bytes()`, and `BytesToHash`, which keeps the last 32 bytes.
abbrev pub hash_bytes : ℕ → Bytes
hash_bytes = digits 32

abbrev pub bytes_to_hash : Bytes → ℕ
bytes_to_hash bytes = number_from 0 (drop (length bytes - 32) bytes)

-- `encodeBlockNumber`
abbrev pub encode_number : ℕ → Bytes
encode_number = digits 8

abbrev pub missing_number : ℕ
missing_number = 0xffff_ffff_ffff_ffff

-- `Header.Number.Uint64()`
abbrev pub number_of : Header → ℕ
number_of h = h.number % 2 ^ 64

-- `NewBlock`: a copy of the header, with the hash of the transactions. The extra data of the body
-- is not copied.
unfoldable pub new_block : {R : Type 0} → Services R → Header → Body → Block
new_block v header body = record {
  header = record header { tx_root = v.derive_sha body.transactions };
  transactions = body.transactions;
  extra_data = [];
}

-- `BlockBody`
abbrev pub body_of : Block → Body
body_of block = record { transactions = block.transactions; extra_data = block.extra_data }

module _ {D : Type 0} (kv : KeyValue D) where
  abbrev pub hash_at : Bytes → ℕ
  hash_at [] = 0
  hash_at (c ∷ cs) = bytes_to_hash (c ∷ cs)

  unfoldable pub get_canonical_hash : ℕ → D → ℕ
  get_canonical_hash number db = hash_at (kv.get db (canonical_key number))

  unfoldable pub get_head_header_hash : D → ℕ
  get_head_header_hash db = hash_at (kv.get db head_header_key)

  unfoldable pub get_head_block_hash : D → ℕ
  get_head_block_hash db = hash_at (kv.get db head_block_key)

  unfoldable pub get_head_fast_block_hash : D → ℕ
  get_head_fast_block_hash db = hash_at (kv.get db head_fast_key)

  unfoldable pub get_block_number : ℕ → D → ℕ
  get_block_number hash db =
      let bytes = kv.get db (number_key hash) in
      if length bytes == 8 then number_from 0 bytes else missing_number

  abbrev pub header_at : Bytes → Option Header
  header_at [] = none
  header_at (c ∷ cs) = kv.decode_header (c ∷ cs)

  unfoldable pub get_header : ℕ → ℕ → D → Option Header
  get_header hash number db = header_at (kv.get db (header_key number hash))

  abbrev pub body_at : Bytes → Option Body
  body_at [] = none
  body_at (c ∷ cs) = kv.decode_body (c ∷ cs)

  unfoldable pub get_body : ℕ → ℕ → D → Option Body
  get_body hash number db = body_at (kv.get db (body_key number hash))

  abbrev pub assemble : {R : Type 0} → Services R → Option Header → Option Body → Option Block
  assemble v none body = none
  assemble v (some header) none = none
  assemble v (some header) (some body) = some (new_block v header body)

  unfoldable pub get_block : {R : Type 0} → Services R → ℕ → ℕ → D → Option Block
  unfolding get_header get_body new_block
  get_block v hash number db = assemble v (get_header hash number db) (get_body hash number db)

  abbrev pub entry_at : Bytes → ℕ × ℕ × ℕ
  entry_at [] = (0, 0, 0)
  entry_at (c ∷ cs) = elim (kv.decode_entry (c ∷ cs)) [
    | none ↦ (0, 0, 0)
    | some entry ↦ (entry.block_hash, entry.block_index, entry.index)
  ]

  unfoldable pub get_tx_lookup_entry : ℕ → D → ℕ × ℕ × ℕ
  get_tx_lookup_entry hash db = entry_at (kv.get db (lookup_key hash))

  -- `if err := db.Put(...); err != nil { log.Crit(...) }`
  unfoldable pub put_or_exit : Key → Bytes → D → Result D
  put_or_exit k bytes db =
      let (db', err) = kv.put db k bytes in if err then panic process_exit else ok db'

  unfoldable pub write_canonical_hash : ℕ → ℕ → D → Result D
  write_canonical_hash hash number = put_or_exit (canonical_key number) (hash_bytes hash)

  unfoldable pub write_head_header_hash : ℕ → D → Result D
  write_head_header_hash hash = put_or_exit head_header_key (hash_bytes hash)

  unfoldable pub write_head_block_hash : ℕ → D → Result D
  write_head_block_hash hash = put_or_exit head_block_key (hash_bytes hash)

  unfoldable pub write_head_fast_block_hash : ℕ → D → Result D
  write_head_fast_block_hash hash = put_or_exit head_fast_key (hash_bytes hash)

  -- `WriteHeader`: the error, and the database.
  unfoldable pub write_header : {R : Type 0} → Services R → Header → D → Result (Bool × D)
  write_header v header db = elim (kv.encode_header header) [
    | none ↦ ok (true, db)
    | some bytes ↦ do
      db1 ← put_or_exit (number_key (v.header_hash header)) (encode_number (number_of header)) db
      db2 ← put_or_exit (header_key (number_of header) (v.header_hash header)) bytes db1
      ok (false, db2)
  ]

  -- `WriteBody`
  unfoldable pub write_body : ℕ → ℕ → Body → D → Result (Bool × D)
  write_body hash number body db = elim (kv.encode_body body) [
    | none ↦ ok (true, db)
    | some bytes ↦ do db1 ← put_or_exit (body_key number hash) bytes db; ok (false, db1)
  ]

  -- `WriteBlock`
  unfoldable pub write_block : {R : Type 0} → Services R → Block → D → Result (Bool × D)
  unfolding write_header write_body
  write_block v block db = do
    (err, db1) ← write_body (v.header_hash block.header) (number_of block.header) (body_of block) db
    if err then ok (true, db1) else write_header v block.header db1

  -- `WriteTxLookupEntries`, from the index `i` on.
  unfoldable pub write_entries : {R : Type 0} → Services R → Block → ℕ → List Tx → D → Bool × D
  write_entries v block i [] db = (false, db)
  write_entries v block i (tx ∷ txs) db =
      let entry : TxLookupEntry = record {
        block_hash = v.header_hash block.header;
        block_index = number_of block.header;
        index = i;
      } in
      elim (kv.encode_entry entry) [
        | none ↦ (true, db)
        | some bytes ↦
            let (db', err) = kv.put db (lookup_key (v.tx_hash tx)) bytes in
            elim err [ true ↦ (true, db') | false ↦ write_entries v block (i + 1) txs db' ]
      ]

  unfoldable pub write_tx_lookup_entries : {R : Type 0} → Services R → Block → D → Bool × D
  unfolding write_entries
  write_tx_lookup_entries v block db = write_entries v block 0 block.transactions db

  unfoldable pub get_liquidation : ℕ → D → Bytes
  get_liquidation hash db = kv.get db (liquidation_key hash)

  unfoldable pub write_liquidation_hash : ℕ → Bytes → D → Bool × D
  write_liquidation_hash hash bytes db =
      let (db', err) = kv.put db (liquidation_key hash) bytes in (err, db')

  unfoldable pub delete_liquidation_hash : ℕ → D → Bool × D
  delete_liquidation_hash hash db =
      let (db', err) = kv.delete db (liquidation_key hash) in (err, db')

  -- The deletions ignore the errors.
  unfoldable pub delete_canonical_hash : ℕ → D → D
  delete_canonical_hash number db = (kv.delete db (canonical_key number)).0

  unfoldable pub delete_header : ℕ → ℕ → D → D
  delete_header hash number db =
      (kv.delete (kv.delete db (number_key hash)).0 (header_key number hash)).0

  unfoldable pub delete_body : ℕ → ℕ → D → D
  delete_body hash number db = (kv.delete db (body_key number hash)).0

  unfoldable pub delete_block : ℕ → ℕ → D → D
  unfolding delete_header delete_body
  delete_block hash number db = delete_body hash number (delete_header hash number db)

  unfoldable pub delete_tx_lookup_entry : ℕ → D → D
  delete_tx_lookup_entry hash db = (kv.delete db (lookup_key hash)).0
