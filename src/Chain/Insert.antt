-- ===== src/Chain/Insert.antt =====
-- The block chain over its database: libraries/chain/space/blockchain.go and headerchain.go.
pub mod Stored
pub mod Restart
pub mod Stuck
use gocoin.Chain.Exec.{Run}
use gocoin.State.Commit.{commit_state}
use gocoin.State.Db.{StateDb, new_state}
use gocoin.Chain.Apply.{Event, process, Chain}
use gocoin.Group.Store.{Database}
use gocoin.Group.Defs.{ValidateGroup, Externals}
use gocoin.State.Backend.{Backend}
use gocoin.Chain.Tx.{Services, Header, Block}
use gocoin.Common.{
  Bool, Bytes, List, Option, Result, [], bytes_beq, digits, false, if◌then◌else◌,
  index_out_of_range, length, ltb, none, ok, panic, pos, process_exit, some, suc, true, zero, ℕ,
  ◌%◌, ◌&&◌, ◌++◌, ◌+◌, ◌-◌, ◌==◌, ◌^◌, ◌||◌, ◌∷◌, ◌>>=◌,
}
use gocoin.Chain.Storage.{
  KeyValue, get_header, get_head_block_hash, get_block, get_liquidation, get_canonical_hash,
  hash_bytes, write_head_header_hash, number_of, get_head_header_hash, get_block_number,
  delete_liquidation_hash, write_canonical_hash, write_head_block_hash, write_block,
}

-- What the signature of a block is checked with: the hash of a header without its signature,
-- `SignSender`, `none` for its error, and `blsgroup.Verify`.
pub record Verifier : Type 0 where
  pub hash_no_sig : Header → ℕ
  pub sign_sender : ℕ → Bytes → Option ℕ
  pub bls_verify : Bytes → Bytes → Bytes → Bool

-- The nodes of the tries in the database `K`: `state.NewDatabase`, and what `CommitTo` puts there.
pub record Nodes (T K : Type 0) : Type 0 where
  pub backend : K → Backend T
  pub save : T → K → K

-- `BlockChain` and its `HeaderChain`. The current header is nil before there is one, and the group
-- until it is set.
pub record BlockChain (D K : Type 0) : Type 0 where
  pub db : K
  pub genesis_block : Block
  pub current_block : Block
  pub current_header : Option Header
  pub group : Option (ValidateGroup D)

-- `addre.Str()`
abbrev pub address_bytes : ℕ → Bytes
address_bytes = digits 20

module _ (w : Verifier) where
  -- The two cases of the switch, by the rest of the public key.
  abbrev verify_key : Block → ℕ → Bytes → Bool
  verify_key block ptype key =
      if ptype == 1
      then elim (w.sign_sender (w.hash_no_sig block.header) block.header.sign) [
        | none ↦ false
        | some addr ↦ bytes_beq key (address_bytes addr)
      ]
      else if ptype == 2
      then w.bls_verify block.header.sign (hash_bytes (w.hash_no_sig block.header)) key
      else false

  -- `block.GetPK()[0]`
  abbrev verify_with : Block → Bytes → Result Bool
  verify_with block [] = panic index_out_of_range
  verify_with block (ptype ∷ key) = ok (verify_key block ptype key)

  unfoldable pub block_siger_verifier : Block → Result Bool
  block_siger_verifier block =
      if ltb 0 (length block.header.sign) then verify_with block block.header.pk else ok false

-- The reports are in the database of the chain.
abbrev pub chain_services : {K R : Type 0} → KeyValue K → Services R → Services K
chain_services kv v = record {
  sender = v.sender;
  tx_hash = v.tx_hash;
  header_hash = v.header_hash;
  derive_sha = v.derive_sha;
  decode_attr = v.decode_attr;
  decode_reports = v.decode_reports;
  get_report = λ db hash. get_liquidation kv hash db;
  delete_report = λ db hash. (delete_liquidation_hash kv hash db).1;
}

module _ {K : Type 0} (kv : KeyValue K) where
  -- `HeaderChain.GetHeaderByHash` and `GetHeaderByNumber`
  unfoldable pub get_header_by_hash : ℕ → K → Option Header
  unfolding get_header get_block_number
  get_header_by_hash hash db = get_header kv hash (get_block_number kv hash db) db

  unfoldable pub get_header_by_number : ℕ → K → Option Header
  unfolding get_header get_canonical_hash
  get_header_by_number number db =
      let hash = get_canonical_hash kv number db in
      if hash == 0 then none else get_header kv hash number db

  -- `NewHeaderChain`: the current header.
  unfoldable pub new_header_chain : K → Option Header
  unfolding get_header_by_hash get_header_by_number get_head_block_hash
  new_header_chain db =
      let head = get_head_block_hash kv db in
      let genesis = get_header_by_number 0 db in
      if head == 0
      then genesis
      else elim (get_header_by_hash head db) [ none ↦ genesis | some header ↦ some header ]

  -- `GetBlockHashesFromHash`: the loop from a header, for at most `max` rounds.
  unfoldable pub ancestor_hashes : ℕ → Header → K → List ℕ
  unfolding get_header
  ancestor_hashes zero header db = []
  ancestor_hashes (suc max) header db =
      elim (get_header kv header.uncle_hash ((number_of header + (2 ^ 64 - 1)) % 2 ^ 64) db) [
        | none ↦ []
        | some parent ↦
            let rest = ancestor_hashes max parent db in
            if parent.number == 0 then header.uncle_hash ∷ [] else header.uncle_hash ∷ rest
      ]

  unfoldable pub get_block_hashes_from_hash : ℕ → ℕ → K → List ℕ
  unfolding get_header_by_hash ancestor_hashes
  get_block_hashes_from_hash hash max db = elim (get_header_by_hash hash db) [
    | none ↦ []
    | some header ↦ ancestor_hashes max header db
  ]

  module _ {R : Type 0} (v : Services R) where
    unfoldable pub get_block_by_hash : ℕ → K → Option Block
    unfolding get_block get_block_number
    get_block_by_hash hash db = get_block kv v hash (get_block_number kv hash db) db

    unfoldable pub get_block_by_number : ℕ → K → Option Block
    unfolding get_block get_canonical_hash
    get_block_by_number number db =
        let hash = get_canonical_hash kv number db in
        if hash == 0 then none else get_block kv v hash number db

    -- `GetBlocksFromHash`: the loop, for `n` rounds.
    unfoldable pub blocks_from : ℕ → ℕ → ℕ → K → List Block
    unfolding get_block
    blocks_from zero hash number db = []
    blocks_from (suc n) hash number db = elim (get_block kv v hash number db) [
      | none ↦ []
      | some block ↦
          block ∷ blocks_from n block.header.uncle_hash ((number + (2 ^ 64 - 1)) % 2 ^ 64) db
    ]

    unfoldable pub get_blocks_from_hash : ℕ → ℕ → K → List Block
    unfolding blocks_from get_block_number
    get_blocks_from_hash hash n db = blocks_from n hash (get_block_number kv hash db) db

    -- `SetCurrentHeader`
    unfoldable pub set_current_header :
        {D : Type 0} → Header → BlockChain D K → Result (BlockChain D K)
    unfolding write_head_header_hash
    set_current_header head c = do
      db ← write_head_header_hash kv (v.header_hash head) c.db
      ok (record c { db = db; current_header = some head })

    -- The header of the head, or the one of the block.
    abbrev last_header : Block → K → Header
    last_header block db =
        let head = get_head_header_hash kv db in
        if head == 0
        then block.header
        else elim (get_header_by_hash head db) [ none ↦ block.header | some header ↦ header ]

    -- `loadLastState`
    unfoldable pub load_last_state : {D : Type 0} → BlockChain D K → Result (BlockChain D K)
    unfolding get_block_by_hash get_head_block_hash get_head_header_hash set_current_header
        get_header_by_hash
    load_last_state c =
        let head = get_head_block_hash kv c.db in
        if head == 0 then ok c else elim (get_block_by_hash head c.db) [
          | none ↦ ok c
          | some block ↦
              set_current_header (last_header block c.db) (record c { current_block = block })
        ]

  module _ {R : Type 0} (v : Services R) where
    -- The writes at the end of `Insert`.
    unfoldable pub record_block : {D : Type 0} → Block → BlockChain D K → Result (BlockChain D K)
    unfolding set_current_header
    record_block block c = do
      db1 ← write_canonical_hash kv (v.header_hash block.header) (number_of block.header) c.db
      db2 ← write_head_block_hash kv (v.header_hash block.header) db1
      c' ← set_current_header v block.header (record c { db = db2; current_block = block })
      (err, db3) ← write_block kv v block c'.db
      if err then panic process_exit else ok (record c' { db = db3 })

module _ {T D K R : Type 0} (nodes : Nodes T K) (kv : KeyValue K) (v : Services R) (w : Verifier)
    (d : Database D) where
  -- The part of `Insert` that changes the chain, on the state of the current block.
  unfoldable pub extend :
      Externals → Block → StateDb T → BlockChain D K → Result (List Event × BlockChain D K)
  unfolding record_block
  extend x block s c = do
    let b = nodes.backend c.db
    let run : Run T = record {
      space_id = c.current_block.header.id_index;
      wallet_id = c.current_block.header.wallet_id;
      cost = pos 0;
      state = s;
    }
    let chain : Chain T D K = record {
      run = run;
      group_id = c.current_block.header.group_id;
      group = c.group;
      reports = c.db;
    }
    (events, chain') ← process b (chain_services kv v) d x block chain
    (_, _, _, s') ← commit_state b chain'.run.state
    let db = nodes.save s'.trie_account (nodes.save s'.trie_space chain'.reports)
    c' ← record_block kv v block (record c { db = db; group = chain'.group })
    ok (events, c')

  -- `Insert`, of a block whose signature was verified.
  unfoldable pub insert_verified :
      Externals → Block → BlockChain D K → Result (List Event × BlockChain D K)
  unfolding extend
  insert_verified x block c =
      if number_of block.header == number_of c.current_block.header
        || get_canonical_hash kv (number_of block.header) c.db == v.header_hash block.header
      then ok ([], c)
      else elim (new_state (nodes.backend c.db) c.current_block.header.space_root
          c.current_block.header.acc_root) [ none ↦ ok ([], c) | some s ↦ extend x block s c ]

  unfoldable pub insert_block :
      Externals → Block → BlockChain D K → Result (List Event × BlockChain D K)
  unfolding insert_verified block_siger_verifier
  insert_block x block c = do
    verified ← block_siger_verifier w block
    if verified then insert_verified x block c else ok ([], c)

  -- The sanity check of `insertChain`.
  unfoldable pub is_linked : List Block → Bool
  is_linked [] = true
  is_linked (b ∷ []) = true
  is_linked (a ∷ (b ∷ bs)) =
      number_of b.header == (number_of a.header + 1) % 2 ^ 64
      && b.header.uncle_hash == v.header_hash a.header
      && is_linked (b ∷ bs)

  unfoldable pub insert_blocks :
      Externals → List Block → BlockChain D K → Result (List Event × BlockChain D K)
  unfolding insert_block
  insert_blocks x [] c = ok ([], c)
  insert_blocks x (b ∷ bs) c = do
    (e1, c1) ← insert_block x b c
    (e2, c2) ← insert_blocks x bs c1
    ok (e1 ++ e2, c2)

  -- `insertChain`: the number of blocks that it reports, and the chain.
  unfoldable pub insert_chain :
      Externals → List Block → BlockChain D K → Result (ℕ × List Event × BlockChain D K)
  unfolding insert_blocks is_linked
  insert_chain x bs c =
      if is_linked bs
      then (do (e, c') ← insert_blocks x bs c; ok (length bs, e, c'))
      else ok (0, [], c)
