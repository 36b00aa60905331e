-- ===== src/Chain/Insert/Stuck.antt =====
-- A chain whose state is gone (libraries/chain/space/blockchain.go).
use gocoin.State.Db.{new_state}
use gocoin.Chain.Apply.{Event}
use gocoin.Group.Defs.{Externals}
use gocoin.Group.Store.{Database}
use gocoin.Chain.Tx.{Services, Block}
use gocoin.Chain.Storage.{KeyValue}
use gocoin.Common.{
  >>=-eq-ok, Bool-cases, List, [], ap, arith, inl, inr, length, none, ok, sym, ℕ, ◌∙◌, ◌∷◌, ◌≡◌,
}
use gocoin.Chain.Insert.{
  BlockChain, Nodes, KeyValue, Services, Verifier, Database, insert_block, insert_blocks,
  insert_chain, insert_verified, Externals, Block, Event, new_state, block_siger_verifier,
  is_linked,
}

module _ {T D K R : Type 0} (nodes : Nodes T K) (kv : KeyValue K) (v : Services R) (w : Verifier)
    (d : Database D) where
  insert_block_stuck :
      (x : Externals) (block : Block) (c : BlockChain D K) {events : List Event}
      {c' : BlockChain D K}
      → new_state
          (nodes.backend c.db)
          c.current_block.header.space_root
          c.current_block.header.acc_root
        ≡ none
      → insert_block nodes kv v w d x block c ≡ ok (events, c')
      → (events ≡ []) × (c' ≡ c)
  unfolding insert_block insert_verified
  insert_block_stuck x block c gone e =
      let (verified, e1, rest) = >>=-eq-ok (block_siger_verifier w block) _ e in
      (ground arith, ground arith)

  insert_blocks_stuck :
      (x : Externals) (bs : List Block) (c : BlockChain D K) {events : List Event}
      {c' : BlockChain D K}
      → new_state
          (nodes.backend c.db)
          c.current_block.header.space_root
          c.current_block.header.acc_root
        ≡ none
      → insert_blocks nodes kv v w d x bs c ≡ ok (events, c')
      → (events ≡ []) × (c' ≡ c)
  unfolding insert_blocks
  insert_blocks_stuck x [] c gone e = (ground arith, ground arith)
  insert_blocks_stuck x (b ∷ bs) c gone e =
      let ((ev1, c1), e1, r1) = >>=-eq-ok (insert_block nodes kv v w d x b c) _ e in
      let ((ev2, c2), e2, r2) = >>=-eq-ok (insert_blocks nodes kv v w d x bs c1) _ r1 in
      let (none1, same1) = insert_block_stuck x b c gone e1 in
      let (none2, same2) =
        insert_blocks_stuck x bs c gone (ap (insert_blocks nodes kv v w d x bs) (sym same1) ∙ e2) in
      (ground arith, ground arith)

  -- If the roots in the header of the current block cannot be opened, then `insertChain`, where
  -- it comes back, changes nothing and sends nothing, whatever the blocks are.
  pub insert_chain_stuck :
      (x : Externals) (bs : List Block) (c : BlockChain D K) {n : ℕ} {events : List Event}
      {c' : BlockChain D K}
      → new_state
          (nodes.backend c.db)
          c.current_block.header.space_root
          c.current_block.header.acc_root
        ≡ none
      → insert_chain nodes kv v w d x bs c ≡ ok (n, events, c')
      → (events ≡ []) × (c' ≡ c)
  unfolding insert_chain
  insert_chain_stuck x bs c {n = n} {events = events} {c' = c'} gone e =
      elim (Bool-cases (is_linked nodes kv v w d bs)) [
        | inl linked ↦
            let ((ev, c1), e1, last) =
              >>=-eq-ok {B = ℕ × List Event × BlockChain D K} (insert_blocks nodes kv v w d x bs c)
                (λ (ev, c1). ok (length bs, ev, c1)) {y = (n, events, c')} (ground arith) in
            ground (arith, insert_blocks_stuck x bs c gone e1)
        | inr broken ↦ (ground arith, ground arith)
      ]
