-- ===== src/Chain/Blocks/Panics.antt =====
-- Where `buildBlock` panics, so does `validateBlock`: libraries/chain/space/worker.go.
use gocoin.State.Commit.{commit_state}
use gocoin.Chain.Exec.{build_txs}
use gocoin.Chain.Exec.Agree.{messages_of, build_txs-eq-validate_txs}
use gocoin.Chain.Blocks.{build_block, validate_block, Proposer, start, open_state}
use gocoin.Chain.Blocks.Honest.{guard_passes}
use gocoin.Chain.Tx.{Services, Block, Tx}
use gocoin.State.Backend.{Backend}
use gocoin.Common.{
  Fault, List, Result, inl, inr, ok, panic, refl, some, sym, ◌+◌, ◌<◌, ◌>>=◌, ◌^◌, ◌∙◌, ◌∷◌, ◌≡◌,
  ◌⊎◌,
}

bind-eq-panic :
    {A B : Type 0} (r : Result A) (k : A → Result B) {f : Fault}
    → (r >>= k) ≡ panic f
    → (r ≡ panic f) ⊎ ((x : A) × (r ≡ ok x) × (k x ≡ panic f))
bind-eq-panic (panic g) k e = inl cc
bind-eq-panic (ok x) k e = inr (x, refl, e)

module _ {T R : Type 0} (b : Backend T) (v : Services R) where
  -- If `buildBlock` panics on the messages of some transactions, then `validateBlock` panics
  -- with the same fault on every block with these transactions that names the head's hash and
  -- has the number after the head's, which is below 2^64.
  pub validate_block-panics :
      (rep : R) (p : Proposer) (head blk : Block) (tx : Tx) (txs : List Tx) (f : Fault)
      → head.header.number + 1 < 2 ^ 64
      → blk.header.uncle_hash ≡ v.header_hash head.header
      → blk.header.number ≡ head.header.number + 1
      → blk.transactions ≡ tx ∷ txs
      → build_block b v rep p (some head) (messages_of v (tx ∷ txs)) ≡ panic f
      → validate_block b v rep (some head) blk ≡ panic f
  unfolding build_block validate_block messages_of
  validate_block-panics rep p head blk tx txs f bound h1 h2 h3 e =
      let guard =
        guard_passes b v (v.header_hash head.header) head.header.number blk.header.number bound
          h2 in
      let agree = build_txs-eq-validate_txs b v rep (tx ∷ txs) in
      elim (bind-eq-panic (open_state b v head) _ e) [
        | inl e1 ↦ rw (h1, guard, e1) refl
        | inr (s, e1, f1) ↦
            elim (bind-eq-panic (build_txs b v rep (messages_of v (tx ∷ txs)) (start b v head s)) _
              f1) [
                | inl e2 ↦ rw (h1, guard, e1, h3, sym (agree (start b v head s)) ∙ e2) refl
                | inr (run, e2, f2) ↦ elim (bind-eq-panic (commit_state b run.state) _ f2) [
                  | inl e3 ↦ rw (h1, guard, e1, h3, sym (agree (start b v head s)) ∙ e2, e3) refl
                  | inr (c, e3, f3) ↦ cc
                ]
              ]
      ]
