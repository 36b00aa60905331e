-- ===== src/Chain/Blocks/Honest.antt =====
-- A block that `buildBlock` makes is one that `validateBlock` accepts:
-- libraries/chain/space/worker.go.
use gocoin.State.Commit.{commit_state}
use gocoin.Chain.Exec.{build_txs, Run, validate_txs}
use gocoin.Chain.Exec.Agree.{messages_of, message_of, build_txs-eq-validate_txs}
use gocoin.Chain.Blocks.{
  build_block, validate_block, txs_of, Proposer, start, open_state, Run, validate_txs,
}
use gocoin.Chain.Tx.{uint64, Services, Block, Tx}
use mathlib.Core.Bool.{not}
use gocoin.State.Db.{StateDb}
use gocoin.State.Backend.{Backend}
use gocoin.State.Account.{Account}
use gocoin.State.Commit.Orders.{with_encoder, AgreesOnFew, FewAttributes}
use gocoin.Chain.Blocks.Orders.{validate_block-same}
use gocoin.Common.{
  >>=-eq-ok, Bool, Bytes, List, Option, Result, [], ap, arith, false, leb, ok, refl, some, sym,
  true, ℕ, ◌%◌, ◌&&◌, ◌+◌, ◌<◌, ◌==◌, ◌^◌, ◌||◌, ◌∙◌, ◌∷◌, ◌≡◌,
}

module _ {T R : Type 0} (b : Backend T) (v : Services R) where
  pub txs_of-messages_of : (txs : List Tx) → txs_of (messages_of v txs) ≡ txs
  unfolding messages_of message_of
  txs_of-messages_of [] = refl
  txs_of-messages_of (tx ∷ txs) = ap (λ l. tx ∷ l) (txs_of-messages_of txs)

  txs_of_tail : (tx : Tx) (txs : List Tx) → txs_of (messages_of v (tx ∷ txs)) ≡ tx ∷ txs
  txs_of_tail tx txs = txs_of-messages_of (tx ∷ txs)

  pub guard_passes :
      (h n m : ℕ)
      → n + 1 < 2 ^ 64
      → m ≡ n + 1
      → (not (h == h) || leb (m % 2 ^ 64) (n % 2 ^ 64)) ≡ false
  guard_passes h n m bound e = ground arith

  same_numbers : (i j k l : ℕ) → (i == i && j == j && k == k && l == l) ≡ true
  same_numbers i j k l = ground arith

  abbrev unpack : Block → Result (Option Block) → Block
  unpack head (ok (some blk)) = blk
  unpack head _ = head

  -- The result of validation, where the guards pass and the run and the commit come back.
  validate_block-result :
      (rep : R) (head blk : Block) (s : StateDb T) (run : Run T) (rs ra : ℕ) (e1 : Bool)
      (s' : StateDb T)
      → head.header.number + 1 < 2 ^ 64
      → blk.header.uncle_hash ≡ v.header_hash head.header
      → blk.header.number ≡ head.header.number + 1
      → open_state b v head ≡ ok s
      → validate_txs b v rep blk.transactions (start b v head s) ≡ ok run
      → commit_state b run.state ≡ ok (rs, ra, e1, s')
      → validate_block b v rep (some head) blk
        ≡ ok (
            blk.header.space_root == rs
            && blk.header.acc_root == ra
            && blk.header.id_index % 2 ^ 64 == run.space_id % 2 ^ 64
            && uint64 blk.header.gas_used == uint64 run.cost)
  unfolding validate_block
  validate_block-result rep head blk s run rs ra x1 s' bound h1 h2 h3 h4 h5 =
      rw
        (
          h1,
          guard_passes (v.header_hash head.header) head.header.number blk.header.number bound h2,
          h3,
          h4,
          h5,
        )
        refl

  build_block-transactions :
      (rep : R) (p : Proposer) (head : Block) (txs : List Tx) (blk : Block)
      → build_block b v rep p (some head) (messages_of v txs) ≡ ok (some blk)
      → blk.transactions ≡ txs
  unfolding build_block messages_of
  build_block-transactions rep p head [] blk e = cc
  build_block-transactions rep p head (tx ∷ txs) blk e =
      let (s, e1, f1) = >>=-eq-ok (open_state b v head) _ e in
      let (run, e2, f2) =
        >>=-eq-ok (build_txs b v rep (messages_of v (tx ∷ txs)) (start b v head s)) _ f1 in
      let ((rs, ra, x1, s'), e3, f3) = >>=-eq-ok (commit_state b run.state) _ f2 in
      ap (λ r. (unpack head r).transactions) (sym f3) ∙ txs_of_tail tx txs

  -- The same node accepts it.
  own_block :
      (rep : R) (p : Proposer) (head : Block) (txs : List Tx) (blk : Block)
      → head.header.number + 1 < 2 ^ 64
      → build_block b v rep p (some head) (messages_of v txs) ≡ ok (some blk)
      → validate_block b v rep (some head) blk ≡ ok true
  unfolding build_block messages_of
  own_block rep p head [] blk bound e = cc
  own_block rep p head (tx ∷ txs) blk bound e =
      let (s, e1, f1) = >>=-eq-ok (open_state b v head) _ e in
      let (run, e2, f2) =
        >>=-eq-ok (build_txs b v rep (messages_of v (tx ∷ txs)) (start b v head s)) _ f1 in
      let ((rs, ra, x1, s'), e3, f3) = >>=-eq-ok (commit_state b run.state) _ f2 in
      let agreed = sym (build_txs-eq-validate_txs b v rep (tx ∷ txs) (start b v head s)) ∙ e2 in
      let made = ap (unpack head) (sym f3) in
      let same : blk.transactions ≡ tx ∷ txs = ap (λ r. r.transactions) made ∙ txs_of_tail tx txs in
      validate_block-result rep head blk s run rs ra x1 s' bound
        (ap (λ r. r.header.uncle_hash) made) (ap (λ r. r.header.number) made) e1
        (ap (λ l. validate_txs b v rep l (start b v head s)) same ∙ agreed) e3
      ∙ ap
          (λ r. ok (
            r.header.space_root == rs
            && r.header.acc_root == ra
            && r.header.id_index % 2 ^ 64 == run.space_id % 2 ^ 64
            && uint64 r.header.gas_used == uint64 run.cost))
          made
      ∙ ap ok (same_numbers rs ra (run.space_id % 2 ^ 64) (uint64 run.cost))

  -- A block that a node builds from its pool, on a head whose number plus one is below 2^64, is
  -- accepted by every node with the same head, tries and reports, whatever order of the
  -- attributes its encoder takes: `validateBlock` returns true on it, if running the
  -- transactions leaves no cached account with two attributes.
  pub validate_block-build_block :
      (enc : Account → Option Bytes) (rep : R) (p : Proposer) (head : Block) (txs : List Tx)
      (blk : Block)
      → head.header.number + 1 < 2 ^ 64
      → AgreesOnFew b.encode_account enc
      → ((s : StateDb T) (run : Run T)
          → open_state b v head ≡ ok s
          → validate_txs b v rep txs (start b v head s) ≡ ok run
          → FewAttributes run.state)
      → build_block b v rep p (some head) (messages_of v txs) ≡ ok (some blk)
      → validate_block (with_encoder enc b) v rep (some head) blk ≡ ok true
  validate_block-build_block enc rep p head txs blk bound agrees few e =
      let same : blk.transactions ≡ txs = build_block-transactions rep p head txs blk e in
      validate_block-same b v enc rep head blk agrees (λ s run e1 e2.
        few s run e1 (ap (λ l. validate_txs b v rep l (start b v head s)) (sym same) ∙ e2))
      ∙ own_block rep p head txs blk bound e
