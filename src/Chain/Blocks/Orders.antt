-- ===== src/Chain/Blocks/Orders.antt =====
-- Two nodes that range over the attributes of an account in different orders (`EncodeRLP` of
-- libraries/chain/space/state/account_object.go) and validate the same block (`validateBlock`,
-- libraries/chain/space/worker.go).
use gocoin.State.Db.{new_state, StateDb}
use gocoin.Chain.Tx.{Services, Block}
use gocoin.Common.{
  >>=-cong, Bool-cases, Bytes, Option, inl, inr, leb, ok, refl, some, ◌%◌, ◌==◌, ◌^◌, ◌||◌, ◌≡◌,
}
use gocoin.State.Account.{Account}
use gocoin.State.Backend.{Backend}
use gocoin.State.Commit.Orders.{with_encoder, AgreesOnFew, FewAttributes, commit_state-same}
use gocoin.Chain.Exec.Orders.{validate_txs-same}
use gocoin.Chain.Exec.{validate_txs, Run}
use gocoin.Chain.Blocks.{validate_block, open_state, start, Services, Block, new_state, StateDb}
use mathlib.Core.Bool.{not}

module _ {T R : Type 0} (b : Backend T) (v : Services R) (enc : Account → Option Bytes) where
  open_state-same : (head : Block) → open_state (with_encoder enc b) v head ≡ open_state b v head
  unfolding new_state
  open_state-same head = refl

  -- Where the run leaves no account with two attributes, the order makes no difference.
  pub validate_block-same :
      (rep : R) (head blk : Block)
      → AgreesOnFew b.encode_account enc
      → ((s : StateDb T) (run : Run T)
          → open_state b v head ≡ ok s
          → validate_txs b v rep blk.transactions (start b v head s) ≡ ok run
          → FewAttributes run.state)
      → validate_block (with_encoder enc b) v rep (some head) blk
        ≡ validate_block b v rep (some head) blk
  unfolding validate_block
  validate_block-same rep head blk agrees few =
      elim (Bool-cases (
        not (blk.header.uncle_hash == v.header_hash head.header)
        || leb (blk.header.number % 2 ^ 64) (head.header.number % 2 ^ 64))) [
          | inl g ↦ rw g refl
          | inr g ↦ rw g (
              >>=-cong (open_state-same head) (λ s e1.
                >>=-cong (validate_txs-same b v enc rep blk.transactions (start b v head s))
                  (λ run e2.
                    >>=-cong (commit_state-same b enc agrees run.state (few s run e1 e2))
                      (λ r e3. refl))))
        ]
