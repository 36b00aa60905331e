-- ===== src/Chain/Genesis.antt =====
-- The first block: libraries/chain/space/genesis.go, and `NewBlockChain` of
-- libraries/chain/space/blockchain.go. The configuration file is an input, `none` where there is
-- none.
pub mod Written
use gocoin.State.Commit.{commit_state}
use gocoin.Group.Reset.{new_validate_group, reset_init}
use gocoin.State.Ops.{set_balance_of}
use gocoin.Group.Defs.{Externals, add}
use gocoin.State.Bind.{create_space_and_bind_addr}
use gocoin.Group.Store.{Database}
use gocoin.State.Db.{StateDb, new_state}
use gocoin.State.Backend.{Backend}
use gocoin.Chain.Tx.{Services, Block, Header}
use mathlib.Core.Bool.{not}
use gocoin.Common.{
  Bool, Bytes, List, Option, Result, [], false, if◌then◌else◌, nil_pointer, none, ok, panic, pos,
  some, true, ℕ, ◌==◌, ◌∷◌, ◌>>=◌,
}
use gocoin.Chain.Storage.{
  KeyValue, get_head_block_hash, write_block, new_block, write_canonical_hash, number_of,
  write_head_block_hash, write_head_header_hash,
}
use gocoin.Chain.Insert.{BlockChain, Nodes, new_header_chain, load_last_state, get_block_by_number}

-- `AccountConfig`, with the address that `HexToAddress` reads. The numbers are below 2^63.
pub record AccountConfig : Type 0 where
  pub address : ℕ
  pub space_id : ℕ
  pub balance : ℕ
  pub wallet_id : ℕ
  pub group_id : ℕ

-- `genesisVersion`, and the Unix time of the first of January 2018, 8 o'clock.
abbrev pub genesis_version : Bytes
genesis_version = b'2' ∷ b'0' ∷ b'1' ∷ b'8' ∷ b'0' ∷ b'1' ∷ b'0' ∷ b'5' ∷ []

abbrev pub genesis_time : ℕ
genesis_time = 1514793600

-- The address and the group of the first account, zero without one.
abbrev pub first_account : List AccountConfig → ℕ × ℕ
first_account [] = (0, 0)
first_account (ac ∷ acs) = (ac.address, ac.group_id)

module _ {T : Type 0} (b : Backend T) where
  -- The loop of `ToBlock` over the accounts, with the wallet id of the last one.
  unfoldable pub genesis_accounts : List AccountConfig → ℕ → StateDb T → ℕ × StateDb T
  genesis_accounts [] wallet s = (wallet, s)
  genesis_accounts (ac ∷ acs) wallet s =
      let (wallet', s1) = create_space_and_bind_addr b ac.space_id ac.wallet_id ac.address s in
      genesis_accounts acs wallet' (set_balance_of b ac.address (pos ac.balance) s1).1

  -- `state.New` of two empty roots, whose error is ignored.
  abbrev pub open_empty : Result (StateDb T)
  open_empty = elim (new_state b 0 0) [ none ↦ panic nil_pointer | some s ↦ ok s ]

module _ {T K R : Type 0} (nodes : Nodes T K) (kv : KeyValue K) (v : Services R) (d : Database K)
    (x : Externals) where
  -- `ToBlock`: the block and the first address, and the database with the tries.
  unfoldable pub to_block : Option (List AccountConfig) → K → Result (Option (Block × ℕ) × K)
  unfolding genesis_accounts
  to_block none db = ok (none, db)
  to_block (some accounts) db = do
    let b = nodes.backend db
    s ← open_empty b
    let (wallet, s1) = genesis_accounts b accounts 0 s
    (root_space, root_account, _, s2) ← commit_state b s1
    let (address, group) = first_account accounts
    let head : Header = record {
      uncle_hash = 0;
      number = 0;
      id_index = 1;
      wallet_id = wallet;
      group_id = group;
      timestamp = genesis_time;
      gas_used = pos 0;
      version = genesis_version;
      percent = [];
      pk = [];
      sign = [];
      liquidation_hash = [];
      extra_index = 0 ∷ 0 ∷ 0 ∷ 0 ∷ [];
      space_root = root_space;
      acc_root = root_account;
      group_root = 0;
      coin_root = 0;
      tx_root = 0;
      consensus_group_hash = x.hash_address address;
      extra_hash = 0;
    }
    let block = new_block v head (record { transactions = []; extra_data = [] })
    ok (some (block, address), nodes.save s2.trie_account (nodes.save s2.trie_space db))

  -- The three writes that name the block.
  abbrev pub name_genesis : Block → K → Result (Bool × K)
  name_genesis block db = do
    db2 ← write_canonical_hash kv (v.header_hash block.header) (number_of block.header) db
    db3 ← write_head_block_hash kv (v.header_hash block.header) db2
    db4 ← write_head_header_hash kv (v.header_hash block.header) db3
    ok (false, db4)

  -- The four writes of `GetGenesisBlock`: the error, and the database.
  unfoldable pub write_genesis : Block → K → Result (Bool × K)
  write_genesis block db = do
    (err, db1) ← write_block kv v block db
    if err then ok (true, db1) else name_genesis block db1

  -- The group with the first account as its member; `now` is the time in nanoseconds.
  abbrev genesis_group : Block → ℕ → ℕ → K → Result K
  genesis_group block address now db = do
    let vg = new_validate_group d x block.header.consensus_group_hash db
    let vg1 = add d (record { address = address; time = pos now }) vg
    vg2 ← reset_init d x (x.hash_address address) vg1
    ok vg2.group_db

  -- `GetGenesisBlock`: no block after an error, or where the database has a head.
  unfoldable pub get_genesis_block : ℕ → Option (List AccountConfig) → K → Result (Option Block × K)
  unfolding to_block write_genesis get_head_block_hash
  get_genesis_block now config db =
      if not (get_head_block_hash kv db == 0) then ok (none, db) else do
        (made, db1) ← to_block config db
        elim made [
          | none ↦ ok (none, db1)
          | some (block, address) ↦ do
            (err, db2) ← write_genesis block db1
            if err
                then ok (none, db2)
                else (do db3 ← genesis_group block address now db2; ok (some block, db3))
        ]

  -- The rest of `NewBlockChain`, on its genesis block.
  abbrev chain_from : {D : Type 0} → Option Header → Block → K → Result (BlockChain D K)
  chain_from header block db = load_last_state kv v (record {
    db = db;
    genesis_block = block;
    current_block = block;
    current_header = header;
    group = none;
  })

  -- `NewBlockChain`, with no chain for its error.
  unfoldable pub new_block_chain :
      {D : Type 0} → ℕ → Option (List AccountConfig) → K → Result (Option (BlockChain D K))
  unfolding get_genesis_block new_header_chain get_block_by_number load_last_state
  new_block_chain now config db = elim (get_block_by_number kv v 0 db) [
    | some block ↦ do c ← chain_from (new_header_chain kv db) block db; ok (some c)
    | none ↦ do
      (made, db1) ← get_genesis_block now config db
      elim made [
        | none ↦ ok none
        | some block ↦ do c ← chain_from (new_header_chain kv db) block db1; ok (some c)
      ]
  ]
