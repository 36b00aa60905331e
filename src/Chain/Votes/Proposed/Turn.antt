-- ===== src/Chain/Votes/Proposed/Turn.antt =====
-- The two parts of `buildBlock` around the signature, one after the other: the turn that the node
-- takes, and what it does with its block (libraries/chain/space/worker.go).
use gocoin.Chain.Vrf.Sort.{new_vrf}
use gocoin.Chain.Storage.{number_of}
use gocoin.Group.Select.{select_consensus}
use gocoin.Chain.Votes.{Accepted, not, select_consensus, number_of}
use gocoin.Chain.Vrf.{Vrf, validate_turn}
use gocoin.Chain.Tx.{Services, Block}
use gocoin.Common.{
  >>=-eq-ok, Bool-cases, [], arith, false, if◌then◌else◌, inl, inr, insert, length, ltb, ok, refl,
  some, true, ◌%◌, ◌&&◌, ◌+◌, ◌==◌, ◌^◌, ◌∷◌, ◌≡◌, nat_eq,
}
use gocoin.Chain.Votes.Proposed.{Member, Clock, Services, Vrf, validate_turn, new_vrf}
use gocoin.Chain.Votes.Proposed.Rounds.{prepare_turn, submit_block, in_turn}
use gocoin.Group.Defs.{Externals}

module _ {R D S : Type 0} (v : Services R) (t : Clock S) where
  -- Where the block goes, by the turn that was taken.
  pub record Submitted (block : Block) (w : Member D S) (r : Accepted × Member D S) : Type 0 where
    pub same_coefficient : r.1.coefficient ≡ w.coefficient
    pub same_index : r.1.sort_index ≡ w.sort_index
    pub accepted : r.0 ≡ (
        if w.fixed_address == w.voting.sender && w.fixed
        then (v.header_hash block.header, block) ∷ []
        else [])
    pub kept : r.1.voting.sig_blocks ≡ (
        if w.fixed
        then w.voting.sig_blocks
        else insert (v.header_hash block.header) block w.voting.sig_blocks)
    pub offered : r.1.offered ≡ (
        if not w.fixed && w.sort_index == 0
        then (v.header_hash block.header, block) ∷ w.offered
        else w.offered)

  fixed-Submitted :
      (head block : Block) (w : Member D S)
      → w.fixed ≡ true
      → (r : Accepted × Member D S) × (submit_block v t head block w ≡ ok r) × Submitted block w r
  unfolding submit_block
  fixed-Submitted head block w fixed =
      elim (Bool-cases (w.fixed_address == w.voting.sender && w.fixed)) [
        | inl own ↦ (
          ((v.header_hash block.header, block) ∷ [], record w { block_is_true = false }),
          ground arith,
          record {
            same_coefficient = refl;
            same_index = refl;
            accepted = ground arith;
            kept = ground arith;
            offered = ground arith;
          },
        )
        | inr other ↦ (
          ([], w),
          ground arith,
          record {
            same_coefficient = refl;
            same_index = refl;
            accepted = ground arith;
            kept = ground arith;
            offered = ground arith;
          },
        )
      ]

  turn-Submitted :
      (head block : Block) (w : Member D S) (f : Vrf)
      → w.fixed ≡ false
      → w.block_vrf ≡ some f
      → validate_turn t.hashes (number_of head.header) (v.header_hash head.header) w.voting.sender f
        ≡ ok (w.coefficient, w.sort_index)
      → (r : Accepted × Member D S) × (submit_block v t head block w ≡ ok r) × Submitted block w r
  unfolding submit_block
  turn-Submitted head block w f free has turn = (
    ([], in_turn v t block (w.coefficient, w.sort_index) w),
    ground arith,
    record {
      same_coefficient = refl;
      same_index = refl;
      accepted = ground arith;
      kept = ground arith;
      offered = ground arith;
    },
  )

  -- When `buildBlock` has taken its turn and nothing came in between, what it does with the
  -- signed block does not panic and keeps the coefficient and the index of the turn; it inserts
  -- the block at once exactly if one proposer is fixed and it is the node, keeps it for the
  -- votes exactly if none is fixed, and offers it at once exactly if none is fixed and the index
  -- is 0.
  pub prepare_turn-submit_block :
      (x : Externals) (head block : Block) (w w1 : Member D S)
      → prepare_turn v t x head w ≡ ok w1
      → (r : Accepted × Member D S) × (submit_block v t head block w1 ≡ ok r) × Submitted block w1 r
  unfolding prepare_turn
  prepare_turn-submit_block x head block w w1 e =
      let ((addrs, vg), e1, r1) =
        >>=-eq-ok
          (select_consensus x ((number_of head.header + 1) % 2 ^ 64) w.voting.validate_group) _ e in
      elim (Bool-cases (ltb 2 (length addrs))) [
        | inr small ↦ fixed-Submitted head block w1 (ground arith)
        | inl large ↦
            let (f, e2, r2) =
              >>=-eq-ok (new_vrf t.less 0 w.voting.sender addrs) _ (rw large at r1) in
            let ((divisor, index), e3, r3) =
              >>=-eq-ok
                (validate_turn t.hashes (number_of head.header) (v.header_hash head.header)
                  w.voting.sender f)
                _ r2 in
            turn-Submitted head block w1 f (ground arith) (ground arith) (ground arith)
      ]
