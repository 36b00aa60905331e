-- ===== src/Chain/Insert/Restart.antt =====
-- `Insert` and `insertChain` keep the current block in the database, where `loadLastState` finds it
-- (libraries/chain/space/blockchain.go).
use gocoin.State.Commit.{commit_state}
use gocoin.Chain.Apply.{Event, process}
use gocoin.State.Db.{StateDb, new_state}
use gocoin.Group.Defs.{Externals}
use gocoin.Group.Store.{Database}
use gocoin.Chain.Storage.Laws.{IsKeyValue}
use gocoin.Chain.Storage.Blocks.{IsSealed}
use gocoin.Chain.Storage.{
  KeyValue, number_of, get_canonical_hash, write_head_header_hash, put_or_exit, head_header_key,
  hash_bytes,
}
use gocoin.Chain.Tx.{Services, Block}
use gocoin.Common.{
  >>=-eq-ok, Bool-cases, List, Option-cases, [], arith, false, inl, inr, length, ok, refl, some,
  subst, sym, true, ℕ, ◌<◌, ◌==◌, ◌^◌, ◌||◌, ◌∷◌, ◌≡◌, ◌≢◌, ◌⊎◌,
}
use gocoin.Chain.Insert.{
  BlockChain, Nodes, Services, Block, KeyValue, Verifier, Database, insert_block, extend,
  insert_verified, Externals, Event, StateDb, block_siger_verifier, commit_state, number_of,
  record_block, get_canonical_hash, new_state, insert_chain, insert_blocks, load_last_state,
  is_linked, set_current_header, write_head_header_hash, hash_bytes,
}
use gocoin.Chain.Insert.Stored.{IsStored, record_block-IsStored}

-- Blocks as the network hands them over: their hashes have 256 bits, and their roots are those of
-- their transactions.
abbrev pub IsWellFormed : {R : Type 0} → Services R → List Block → Type 0
IsWellFormed v [] = Unit {0}
IsWellFormed v (b ∷ bs) = (v.header_hash b.header < 2 ^ 256) × IsSealed v b × IsWellFormed v bs

module _ {T D K R : Type 0} (nodes : Nodes T K) (kv : KeyValue K) (laws : IsKeyValue kv)
    (v : Services R) (w : Verifier) (d : Database D) where
  extend-IsStored :
      (x : Externals) (block : Block) (s : StateDb T) (c : BlockChain D K) {events : List Event}
      {c' : BlockChain D K}
      → v.header_hash block.header < 2 ^ 256
      → IsSealed v block
      → extend nodes kv v w d x block s c ≡ ok (events, c')
      → IsStored kv v c' × (c'.current_block ≡ block)
  unfolding extend
  extend-IsStored x block s c p sealed e =
      let ((events, chain), e1, r1) = >>=-eq-ok (process _ _ d x block _) _ e in
      let ((rs, ra, err, s'), e2, r2) = >>=-eq-ok (commit_state _ chain.run.state) _ r1 in
      let c0 : BlockChain D K = record c {
        db = nodes.save s'.trie_account (nodes.save s'.trie_space chain.reports);
        group = chain.group;
      } in
      let (c1, e3, r3) = >>=-eq-ok (record_block kv v block c0) _ r2 in
      let (stored, same) = record_block-IsStored kv laws v block c0 p sealed e3 in
      subst (λ (z : BlockChain D K). IsStored kv v z × (z.current_block ≡ block)) (ground arith)
        (stored, same)

  -- If `Insert` comes back on a block whose hash has 256 bits, whose root is the hash of its
  -- transactions and which has no extra data, then the chain is what it was, or the signature of
  -- the block was verified, its number is not the current one, it is the current block, and the
  -- chain is stored: the head, the canonical hash of its number and the head of the headers name
  -- it, and its header and the block itself are read back under its hash. The database and its
  -- codecs keep `IsKeyValue`.
  pub insert_block-IsStored :
      (x : Externals) (block : Block) (c : BlockChain D K) {events : List Event}
      {c' : BlockChain D K}
      → v.header_hash block.header < 2 ^ 256
      → IsSealed v block
      → insert_block nodes kv v w d x block c ≡ ok (events, c')
      → (c' ≡ c)
        ⊎ ((block_siger_verifier w block ≡ ok true)
            × (number_of block.header ≢ number_of c.current_block.header)
            × (c'.current_block ≡ block)
            × IsStored kv v c')
  unfolding insert_block insert_verified
  insert_block-IsStored x block c {events = events} {c' = c'} p sealed e =
      let (verified, e1, rest) = >>=-eq-ok (block_siger_verifier w block) _ e in
      elim (Bool-cases (
        number_of block.header == number_of c.current_block.header
        || get_canonical_hash kv (number_of block.header) c.db == v.header_hash block.header)) [
          | inl known ↦ inl (ground arith)
          | inr new ↦
              elim (Option-cases (
                new_state (nodes.backend c.db) c.current_block.header.space_root
                  c.current_block.header.acc_root)) [
                    | inl gone ↦ inl (ground arith)
                    | inr (s, opened) ↦ elim (Bool-cases verified) [
                      | inl good ↦
                          let (stored, same) =
                            extend-IsStored x block s c {events = events} {c' = c'} p sealed
                              (ground arith) in
                          inr (ground arith, ground arith, same, stored)
                      | inr bad ↦ inl (ground arith)
                    ]
                  ]
        ]

  insert_blocks-IsStored :
      (x : Externals) (bs : List Block) (c : BlockChain D K) {events : List Event}
      {c' : BlockChain D K}
      → IsWellFormed v bs
      → IsStored kv v c
      → insert_blocks nodes kv v w d x bs c ≡ ok (events, c')
      → IsStored kv v c'
  unfolding insert_blocks
  insert_blocks-IsStored x [] c {c' = c'} wf stored e =
      subst (λ z. IsStored kv v z) {x = c} {y = c'} (ground arith) stored
  insert_blocks-IsStored x (b ∷ bs) c {c' = c'} (p, sealed, wf) stored e =
      let ((ev1, c1), e1, r1) = >>=-eq-ok (insert_block nodes kv v w d x b c) _ e in
      let ((ev2, c2), e2, r2) = >>=-eq-ok (insert_blocks nodes kv v w d x bs c1) _ r1 in
      let stored1 : IsStored kv v c1 = elim (insert_block-IsStored x b c p sealed e1) [
        | inl same ↦ subst (λ z. IsStored kv v z) (sym same) stored
        | inr (good, new, block, now) ↦ now
      ] in
      subst (λ z. IsStored kv v z) {x = c2} {y = c'} (ground arith)
        (insert_blocks-IsStored x bs c1 wf stored1 e2)

  -- If `insertChain` comes back, on blocks whose hashes have 256 bits, whose roots are the
  -- hashes of their transactions and which have no extra data, then a chain that was stored is
  -- stored: the head, the canonical hash of its number and the head of the headers name the
  -- current block, and its header and the block itself are read back under its hash. The
  -- database and its codecs keep `IsKeyValue`.
  pub insert_chain-IsStored :
      (x : Externals) (bs : List Block) (c : BlockChain D K) {n : ℕ} {events : List Event}
      {c' : BlockChain D K}
      → IsWellFormed v bs
      → IsStored kv v c
      → insert_chain nodes kv v w d x bs c ≡ ok (n, events, c')
      → IsStored kv v c'
  unfolding insert_chain
  insert_chain-IsStored x bs c {n = n} {events = events} {c' = c'} wf stored e =
      elim (Bool-cases (is_linked nodes kv v w d bs)) [
        | inl linked ↦
            let ((ev, c1), e1, last) =
              >>=-eq-ok {B = ℕ × List Event × BlockChain D K} (insert_blocks nodes kv v w d x bs c)
                (λ (ev, c1). ok (length bs, ev, c1)) {y = (n, events, c')} (ground arith) in
            subst (λ z. IsStored kv v z) {x = c1} {y = c'} (ground arith)
              (insert_blocks-IsStored x bs c wf stored e1)
        | inr broken ↦ subst (λ z. IsStored kv v z) {x = c} {y = c'} (ground arith) stored
      ]

module _ {D K R : Type 0} (kv : KeyValue K) (v : Services R) where
  -- On the database of a stored chain whose current hash is not zero, `loadLastState` comes
  -- back, if the one write it makes succeeds, and its current block and its current header are
  -- those of that chain.
  pub load_last_state-IsStored :
      (c c0 : BlockChain D K)
      → IsStored kv v c
      → v.header_hash c.current_block.header ≢ 0
      → (kv.put c.db head_header_key (hash_bytes (v.header_hash c.current_block.header))).1 ≡ false
      → (c' : BlockChain D K) × (load_last_state kv v (record c0 { db = c.db }) ≡ ok c')
        × (c'.current_block ≡ c.current_block)
        × (c'.current_header ≡ some c.current_block.header)
        × (c'.genesis_block ≡ c0.genesis_block)
  unfolding load_last_state IsStored set_current_header write_head_header_hash put_or_exit
  load_last_state-IsStored c c0 (head, canon, hh, header, found) nz fine =
      let c1 : BlockChain D K = record c0 {
        db = (kv.put c.db head_header_key (hash_bytes (v.header_hash c.current_block.header))).0;
        current_block = c.current_block;
        current_header = some c.current_block.header;
      } in
      (c1, ground arith, refl, refl, refl)
