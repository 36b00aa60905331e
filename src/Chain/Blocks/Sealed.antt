-- ===== src/Chain/Blocks/Sealed.antt =====
-- The blocks that `buildBlock` makes (libraries/chain/space/worker.go), as `GetBlock` reads them.
use gocoin.State.Commit.{commit_state}
use gocoin.Chain.Exec.{build_txs}
use gocoin.Chain.Tx.{Services, Block, BlockTx}
use gocoin.State.Backend.{Backend}
use gocoin.Common.{>>=-eq-ok, Bytes, List, Option, [], arith, none, ok, some, ◌∷◌, ◌≡◌}
use gocoin.Chain.Blocks.{
  build_block, Proposer, start, open_state, Backend, Services, Block, BlockTx, build_txs,
  commit_state,
}
use gocoin.Chain.Storage.Blocks.{IsSealed}
use gocoin.Chain.Votes.{set_signer}

module _ {T R : Type 0} (b : Backend T) (v : Services R) where
  -- A block that `buildBlock` makes, and that `SetSigner` then signs, has the hash of its
  -- transactions as its root and no extra data.
  pub build_block-IsSealed :
      (rep : R) (p : Proposer) (head : Option Block) (msgs : List BlockTx) (blk : Block)
      (sig : Bytes)
      → build_block b v rep p head msgs ≡ ok (some blk)
      → IsSealed v (set_signer sig blk)
  unfolding build_block IsSealed set_signer
  build_block-IsSealed rep p none msgs blk sig e = cc
  build_block-IsSealed rep p (some head) [] blk sig e = cc
  build_block-IsSealed rep p (some head) (m ∷ ms) blk sig e =
      let (s, e1, f1) = >>=-eq-ok (open_state b v head) _ e in
      let (run, e2, f2) = >>=-eq-ok (build_txs b v rep (m ∷ ms) (start b v head s)) _ f1 in
      let ((rs, ra, x1, s'), e3, f3) = >>=-eq-ok (commit_state b run.state) _ f2 in
      elim sig [ [] ↦ (ground arith, ground arith) | c ∷ cs ↦ (ground arith, ground arith) ]
