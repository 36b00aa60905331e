-- ===== src/Chain/Votes/Proposed/Built.antt =====
-- What `buildBlock` changes of the votes, and the blocks that the node built itself, at its end
-- (libraries/chain/space/worker.go).
use gocoin.Common.{
  >>=-eq-ok, Bool-cases, Bytes, List, Option-cases, Result, [], ap, arith, get_elem?, inl, inr,
  insert, length, ltb, ok, panic, refl, some, subst, suc, sym, zero, ℕ, ◌%◌, ◌&&◌, ◌++◌, ◌+◌, ◌==◌,
  ◌>>=◌, ◌^◌, ◌∙◌, ◌∷◌, ◌≡◌, ◌⊎◌, nat_eq,
}
use gocoin.Chain.Votes.{set_signer, Accepted}
use gocoin.Chain.Votes.Proposed.{Member, Clock}
use gocoin.Chain.Votes.Proposed.Rounds.{submit_block, in_turn, prepare_turn, reset_validate_group}
use gocoin.Chain.Votes.Proposed.Reached.{WasBuilt, some_inj}
use gocoin.Chain.Vrf.{validate_turn}
use gocoin.Chain.Vrf.Sort.{new_vrf}
use gocoin.Group.Defs.{Externals}
use gocoin.Group.Select.{select_consensus}
use gocoin.Chain.Insert.{Verifier}
use gocoin.Chain.Blocks.{build_block, Proposer}
use gocoin.Chain.Storage.{number_of}
use gocoin.Chain.Tx.{Block, BlockTx, Services}
use gocoin.State.Backend.{Backend}

pub get_elem?-append :
    (xs ys : Accepted) (k : ℕ) (p : ℕ × Block)
    → get_elem? (xs ++ ys) k ≡ some p
    → (get_elem? xs k ≡ some p) ⊎ ((j : ℕ) × (get_elem? ys j ≡ some p))
get_elem?-append [] ys k p at = inr (k, at)
get_elem?-append (x ∷ xs) ys zero p at = inl at
get_elem?-append (x ∷ xs) ys (suc k) p at = get_elem?-append xs ys k p at

module _ {R D S : Type 0} (v : Services R) (t : Clock S) where
  turn-cases :
      (block : Block) (w w' : Member D S) (blocks : Accepted) (r : Result (ℕ × ℕ))
      → ◌>>=◌ {B = Accepted × Member D S} r (λ turn. ok ([], in_turn v t block turn w))
        ≡ ok (blocks, w')
      → ((w'.voting.sig_blocks ≡ w.voting.sig_blocks)
          ⊎ (w'.voting.sig_blocks ≡ insert (v.header_hash block.header) block w.voting.sig_blocks))
        × ((blocks ≡ []) ⊎ (blocks ≡ (v.header_hash block.header, block) ∷ []))
  turn-cases block w w' blocks (panic fault) e = cc
  turn-cases block w w' blocks (ok (divisor, index)) e = (inr (ground arith), inl (ground arith))

  -- What `submit_block` may change, and what it may accept.
  pub submit_block-cases :
      (head block : Block) (w w' : Member D S) (blocks : Accepted)
      → submit_block v t head block w ≡ ok (blocks, w')
      → ((w'.voting.sig_blocks ≡ w.voting.sig_blocks)
          ⊎ (w'.voting.sig_blocks ≡ insert (v.header_hash block.header) block w.voting.sig_blocks))
        × ((blocks ≡ []) ⊎ (blocks ≡ (v.header_hash block.header, block) ∷ []))
  unfolding submit_block
  submit_block-cases head block w w' blocks e =
      elim (Bool-cases (w.fixed_address == w.voting.sender && w.fixed)) [
        | inl own ↦ (inl (ground arith), inr (ground arith))
        | inr other ↦ elim (Bool-cases w.fixed) [
          | inl fixed ↦ (inl (ground arith), inl (ground arith))
          | inr free ↦ elim (Option-cases w.block_vrf) [
            | inl no_vrf ↦ (inl (ground arith), inl (ground arith))
            | inr (f, has) ↦
                turn-cases block w w' blocks
                  (validate_turn t.hashes (number_of head.header) (v.header_hash head.header)
                    w.voting.sender f)
                  (ground arith)
          ]
        ]
      ]

  -- `prepare_turn` leaves the blocks that are voted on.
  pub prepare_turn-sig_blocks :
      (x : Externals) (head : Block) (w w' : Member D S)
      → prepare_turn v t x head w ≡ ok w'
      → w'.voting.sig_blocks ≡ w.voting.sig_blocks
  unfolding prepare_turn
  prepare_turn-sig_blocks x head w w' e =
      let ((addrs, vg), e1, r1) =
        >>=-eq-ok
          (select_consensus x ((number_of head.header + 1) % 2 ^ 64) w.voting.validate_group) _ e in
      elim (Bool-cases (ltb 2 (length addrs))) [
        | inr small ↦ ground arith
        | inl large ↦
            let r1' = rw large at r1 in
            let (f, e2, r2) = >>=-eq-ok (new_vrf t.less 0 w.voting.sender addrs) _ r1' in
            let (turn, e3, r3) =
              >>=-eq-ok
                (validate_turn t.hashes (number_of head.header) (v.header_hash head.header)
                  w.voting.sender f)
                _ r2 in
            ground arith
      ]

module _ {D S : Type 0} where
  pub reset_validate_group-sig_blocks :
      (x : Externals) (number : ℕ) (w w' : Member D S)
      → reset_validate_group x number w ≡ ok w'
      → w'.voting.sig_blocks ≡ w.voting.sig_blocks
  unfolding reset_validate_group
  reset_validate_group-sig_blocks x number w w' e =
      let ((addrs, vg), e1, r1) =
        >>=-eq-ok (select_consensus x number w.voting.validate_group) _ e in
      ground arith

module _ {T R : Type 0} (b : Backend T) (v : Services R) (ver : Verifier) where
  pub own_WasBuilt :
      (rep : R) (q : Proposer) (head : Block) (msgs : List BlockTx) (block : Block) (sig : Bytes)
      → build_block b v rep q (some head) msgs ≡ ok (some block)
      → WasBuilt b v ver (v.header_hash (set_signer sig block).header) (set_signer sig block)
  unfolding WasBuilt
  own_WasBuilt rep q head msgs block sig built =
      (refl, (rep, q, head, msgs, block, sig, built, refl))

  pub only_own :
      (block : Block) (blocks : Accepted)
      → WasBuilt b v ver (v.header_hash block.header) block
      → (blocks ≡ []) ⊎ (blocks ≡ (v.header_hash block.header, block) ∷ [])
      → (k : ℕ) (p : ℕ × Block) → get_elem? blocks k ≡ some p
      → WasBuilt b v ver p.0 p.1
  only_own block blocks built (inl empty) k p at = cc
  only_own block blocks built (inr eq) zero p at =
      subst (λ (z : ℕ × Block). WasBuilt b v ver z.0 z.1)
        (some_inj (ap (λ (l : Accepted). get_elem? l 0) (sym eq) ∙ at)) built
  only_own block blocks built (inr eq) (suc k) p at =
      absurd (ground (arith, ap (λ (l : Accepted). get_elem? l (suc k)) (sym eq) ∙ at))
