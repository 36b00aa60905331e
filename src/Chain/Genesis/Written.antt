-- ===== src/Chain/Genesis/Written.antt =====
-- The genesis block in the database (libraries/chain/space/genesis.go).
use gocoin.Chain.Storage.Keys.{key_bytes}
use gocoin.Chain.Insert.Restart.{load_last_state-IsStored}
use gocoin.Chain.Insert.Stored.{put_then, IsStored, hash_found}
use gocoin.Chain.Storage.Blocks.{
  IsSealed, number_of_lt, stored_entries, number_found, header_found, body_found, block_found,
  new_block-IsSealed,
}
use gocoin.Chain.Genesis.{
  write_genesis, write_canonical_hash, write_head_block_hash, write_head_header_hash, Block,
  write_block, number_of, name_genesis, BlockChain, new_block_chain, get_head_block_hash,
  AccountConfig, get_block_by_number, new_header_chain,
}
use gocoin.Group.Defs.{Externals}
use gocoin.Group.Store.{Database}
use gocoin.Chain.Tx.{Services, Block}
use gocoin.Chain.Storage.Laws.{IsKeyValue, key_beq, key_beq_refl, key_beq-false}
use gocoin.Chain.Insert.{
  Nodes, BlockChain, get_block_by_hash, get_header_by_hash, get_block_by_number, new_header_chain,
}
use gocoin.Common.{
  >>=-eq-ok, Bool-cases, List, Option, ap, arith, bytes_beq, false, if◌then◌else◌, inl, inr, none,
  ok, some, ℕ, ◌<◌, ◌^◌, ◌∙◌, ◌≡◌, ◌≢◌,
}
use gocoin.Chain.Storage.{
  number_of, head_block_key, head_header_key, canonical_key, KeyValue, write_canonical_hash,
  write_head_block_hash, write_head_header_hash, write_block, Key, hash_bytes, number_of,
  get_head_block_hash, get_head_header_hash, get_canonical_hash, number_key, header_key, body_of,
  body_key, get_header, get_block,
}

module _ {T K R : Type 0} (nodes : Nodes T K) (kv : KeyValue K) (laws : IsKeyValue kv)
    (v : Services R) (d : Database K) (x : Externals) where
  -- The block is stored first, and then the three keys that name its hash.
  write_genesis-eq_ok :
      (block : Block) (db : K) {db' : K}
      → write_genesis nodes kv v d x block db ≡ ok (false, db')
      → (db1 : K) × (write_block kv v block db ≡ ok (false, db1))
        × ((j : Key)
            → kv.get db' j ≡ (
                if key_beq j head_header_key
                then hash_bytes (v.header_hash block.header)
                else if key_beq j head_block_key
                then hash_bytes (v.header_hash block.header)
                else if key_beq j (canonical_key (number_of block.header))
                then hash_bytes (v.header_hash block.header)
                else kv.get db1 j))
  unfolding write_genesis write_canonical_hash write_head_block_hash write_head_header_hash
  write_genesis-eq_ok block db {db' = db'} e =
      let ((err, db1), e1, r1) = >>=-eq-ok (write_block kv v block db) _ e in
      let h = hash_bytes (v.header_hash block.header) in
      elim (Bool-cases err) [
        | inl failed ↦ absurd (ground arith)
        | inr fine ↦
            let named : name_genesis nodes kv v d x block db1 ≡ ok (false, db') = ground arith in
            let (db2, e2, f2) =
              put_then kv laws (canonical_key (number_of block.header)) h db1 _ named in
            let (db3, e3, f3) = put_then kv laws head_block_key h db2 _ e2 in
            let (db4, e4, f4) = put_then kv laws head_header_key h db3 _ e3 in
            (db1, ground arith, λ j. ground (arith, f2 j, f3 j, f4 j))
      ]

  -- The genesis block is the head of the database, and its number names it.
  write_genesis-IsStored :
      {D : Type 0} (block : Block) (db db' : K) (c : BlockChain D K)
      → v.header_hash block.header < 2 ^ 256
      → v.header_hash block.header ≢ 0
      → IsSealed v block
      → write_genesis nodes kv v d x block db ≡ ok (false, db')
      → IsStored kv v (record c { db = db'; current_block = block })
        × (get_block_by_number kv v (number_of block.header) db' ≡ some block)
  unfolding IsStored get_head_block_hash get_head_header_hash get_canonical_hash get_block_by_hash
      get_header_by_hash get_block_by_number bytes_beq key_bytes
  write_genesis-IsStored block db db' c p nz sealed e =
      let h = v.header_hash block.header in
      let n = number_of block.header in
      let n_lt = number_of_lt block.header in
      let (db1, stored, f) = write_genesis-eq_ok block db e in
      let (hb, bb, eh, eb, gh, gb, gn, frame) = stored_entries kv laws v block db db1 p stored in
      let canon =
        hash_found kv laws (canonical_key n) h db' p
          (ground (arith, f (canonical_key n), key_beq_refl (canonical_key n))) in
      let number = number_found kv laws v h n db' n_lt (f (number_key h) ∙ gn) in
      let header = header_found kv laws v h n block.header hb db' eh (
        ground (
          arith,
          f (header_key n h),
          gh,
          key_beq-false (header_key n h) (canonical_key n) (n_lt, p) n_lt (λ q. cc),
        )) in
      let body = body_found kv laws v h n (body_of block) bb db' eb (f (body_key n h) ∙ gb) in
      let whole =
        block_found kv laws v h n block.header (body_of block) db' header body
        ∙ ap some (new_block-IsSealed v block sealed) in
      (
        (
          hash_found kv laws head_block_key h db' p (f head_block_key),
          canon,
          hash_found kv laws head_header_key h db' p (f head_header_key),
          ap (λ m. get_header kv h m db') number ∙ header,
          ap (λ m. get_block kv v h m db') number ∙ whole,
        ),
        ground (arith, canon, whole),
      )

  -- On a database where `GetGenesisBlock` has written the block of number 0 without an error,
  -- `NewBlockChain` comes back with a chain whose genesis block and current block are that
  -- block, whatever the configuration file is, if the block's hash has 256 bits and is not zero,
  -- its root is the hash of its transactions, it has no extra data, and the one further write
  -- succeeds. The database and its codecs keep `IsKeyValue`.
  pub new_block_chain-write_genesis :
      {D : Type 0} (block : Block) (db db' : K) (now : ℕ) (config : Option (List AccountConfig))
      → v.header_hash block.header < 2 ^ 256
      → v.header_hash block.header ≢ 0
      → number_of block.header ≡ 0
      → IsSealed v block
      → write_genesis nodes kv v d x block db ≡ ok (false, db')
      → (kv.put db' head_header_key (hash_bytes (v.header_hash block.header))).1 ≡ false
      → (c : BlockChain D K) × (new_block_chain nodes kv v d x now config db' ≡ ok (some c))
        × (c.current_block ≡ block)
        × (c.genesis_block ≡ block)
  unfolding new_block_chain
  new_block_chain-write_genesis {D = D} block db db' now config p nz zeroth sealed e fine =
      let c0 : BlockChain D K = record {
        db = db';
        genesis_block = block;
        current_block = block;
        current_header = new_header_chain kv db';
        group = none;
      } in
      let (stored, by_number) = write_genesis-IsStored block db db' c0 p nz sealed e in
      let (c, loaded, same, header, genesis) = load_last_state-IsStored kv v c0 c0 stored nz fine in
      (c, ground (arith, ap (λ n. get_block_by_number kv v n db') zeroth), same, genesis)
