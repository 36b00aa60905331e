-- ===== src/Chain/Votes/Proposed/Good.antt =====
-- The blocks that the loop of `Worker.update` accepts
-- (libraries/chain/space/worker.go).
use gocoin.Chain.Votes.Agreed.{IsAgreed, on_sig_info-IsAgreed}
use gocoin.Chain.Votes.Kept.{on_sig_info-Kept}
use gocoin.Chain.Votes.Proposed.Built.{
  submit_block-cases, prepare_turn-sig_blocks, reset_validate_group-sig_blocks, own_WasBuilt,
  only_own, get_elem?-append,
}
use gocoin.Chain.Votes.Proposed.Rounds.{
  prepare_step, submit_step, tick_step, reset_step, size_step, sender_step, group_step, stay, go,
  block_step, vote_step, stop_step, receive_block, receive_vote, WorkerStep, WorkerSteps,
  submit_block,
}
use gocoin.Chain.Votes.Proposed.{Clock, Member, returned}
use gocoin.Chain.Votes.Proposed.Reached.{
  some_inj, IsChecked, on_last_block-IsChecked, Kept-IsChecked, IsKnown, WasBuilt, insert-IsChecked,
}
use gocoin.Chain.Insert.{Verifier}
use gocoin.Chain.Tx.{Block, Services}
use gocoin.State.Backend.{Backend}
use gocoin.Common.{
  Bytes, Dict, List, [], ap, arith, get_elem?, inl, inr, ok, refl, some, subst, suc, sym, true,
  zero, ℕ, ◌∙◌, ◌≡◌, ◌⊎◌, nat_eq,
}
use gocoin.Chain.Votes.{Bls, Voting, Block, Accepted, set_signer, set_last_block, SigInfo, add_vote}

module _ {T R S G : Type 0} (b : Backend T) (v : Services R) (ver : Verifier)
    (bls : G → Bls S) where
  -- A block that is accepted: it was known before it was voted on, and its signature is what
  -- `Verigy` of the group of a round returned as valid for its hash; or the node built it itself.
  unfoldable pub IsGood : ℕ × Block → Type 0
  IsGood p =
      ((block : Block) × (g : G) × (signs : List S) × (sig : Bytes) × (p.1 ≡ set_signer sig block)
        × IsKnown b v ver p.0 block
        × ((bls g).verigy signs p.0 ≡ (true, sig)))
      ⊎ WasBuilt b v ver p.0 p.1

module _ {T R D S G : Type 0} (b : Backend T) (v : Services R) (ver : Verifier) (bls : G → Bls S)
    (t : G → Clock S) where
  set_last-sig_blocks :
      (hash : ℕ) (block : Block) (w : Voting D S)
      → (set_last_block hash block w).sig_blocks ≡ w.sig_blocks
  unfolding set_last_block
  set_last-sig_blocks hash block w = ground arith

  agreed-IsGood :
      (g : G) (w : Voting D S) (infos : Dict ℕ (SigInfo S)) (blocks : Accepted)
      → IsChecked b v ver w
      → IsAgreed (bls g) (bls g).group_threshold w.sig_blocks infos blocks
      → (k : ℕ) (p : ℕ × Block) → get_elem? blocks k ≡ some p
      → IsGood b v ver bls p
  unfolding IsGood IsChecked
  agreed-IsGood g w infos blocks h (hash, block, signs, sig, eq, found, many, valid) zero p at =
      let same : (hash, set_signer sig block) ≡ p =
        some_inj (ap (λ (l : Accepted). get_elem? l 0) (sym eq) ∙ at) in
      subst (λ (z : ℕ × Block). IsGood b v ver bls z) same
        (inl (block, g, signs, sig, refl, h hash block found, valid))
  agreed-IsGood g w infos blocks h (hash, block, signs, sig, eq, found, many, valid) (suc k) p at =
      absurd (ground (arith, ap (λ (l : Accepted). get_elem? l (suc k)) (sym eq) ∙ at))

  submit_block-IsChecked :
      (g : G) (head block : Block) (w w' : Member D S) (blocks : Accepted)
      → WasBuilt b v ver (v.header_hash block.header) block
      → IsChecked b v ver w.voting
      → submit_block v (t g) head block w ≡ ok (blocks, w')
      → IsChecked b v ver w'.voting
  submit_block-IsChecked g head block w w' blocks built h e =
      let (known, accepted) = submit_block-cases v (t g) head block w w' blocks e in
      elim known [
        | inl kept ↦ Kept-IsChecked b v ver w.voting w'.voting (inl kept) h
        | inr put ↦
            insert-IsChecked b v ver (v.header_hash block.header) block w.voting w'.voting
              (inr built) put h
      ]

  -- A step that accepts nothing and leaves the blocks that are voted on.
  quiet :
      (w w' : Member D S)
      → w'.voting.sig_blocks ≡ w.voting.sig_blocks
      → IsChecked b v ver w.voting
      → IsChecked b v ver w'.voting
        × ((k : ℕ) (p : ℕ × Block) → get_elem? [] k ≡ some p → IsGood b v ver bls p)
  quiet w w' same h = (Kept-IsChecked b v ver w.voting w'.voting (inl same) h, λ k p e. cc)

  pub step-IsGood :
      {w : Member D S} {r : Accepted × Member D S}
      → WorkerStep b v ver bls t w r
      → IsChecked b v ver w.voting
      → IsChecked b v ver r.1.voting
        × ((k : ℕ) (p : ℕ × Block) → get_elem? r.0 k ≡ some p → IsGood b v ver bls p)
  unfolding IsGood
  step-IsGood (block_step g rep x cur hash block rest w w' runs_now head e) h = (
    on_last_block-IsChecked b v ver (bls g) (t g) rep x cur hash block
        (record w { voting = record (w.voting) { last_blocks = rest } }) w'
        (Kept-IsChecked b v ver w.voting (record (w.voting) { last_blocks = rest }) (inl refl) h) e,
    λ k p q. cc,
  )
  step-IsGood (vote_step g x info rest w blocks voting runs_now head e) h = (
    Kept-IsChecked b v ver w.voting voting
        (on_sig_info-Kept (bls g) x info w.voting blocks voting e) h,
    λ k p at. elim (on_sig_info-IsAgreed (bls g) x info w.voting blocks voting e) [
      | inl empty ↦ cc
      | inr agreed ↦
          agreed-IsGood g w.voting (add_vote (bls g) info w.voting.sig_infos) blocks h agreed k p at
    ],
  )
  step-IsGood (prepare_step g x head w w' e) h =
      quiet w w' (prepare_turn-sig_blocks v (t g) x head w w' e) h
  step-IsGood (submit_step g rep q head msgs block sig w w' blocks built e) h =
      let mine = own_WasBuilt b v ver rep q head msgs block sig built in
      let (known, accepted) =
        submit_block-cases v (t g) head (set_signer sig block) w w' blocks e in
      (
        submit_block-IsChecked g head (set_signer sig block) w w' blocks mine h e,
        λ k p at. inr (only_own b v ver (set_signer sig block) blocks mine accepted k p at),
      )
  step-IsGood (stop_step w runs_now) h = quiet w (record w { loop = returned }) refl h
  step-IsGood (receive_block hash block w) h =
      quiet w (record w { voting = set_last_block hash block w.voting })
        (set_last-sig_blocks hash block w.voting) h
  step-IsGood (receive_vote info w room) h = (h, λ k p e. cc)
  step-IsGood (tick_step tick block w waits unseen soon) h = (h, λ k p e. cc)
  step-IsGood (reset_step x number w w' e) h =
      quiet w w' (reset_validate_group-sig_blocks x number w w' e) h
  step-IsGood (size_step k w) h =
      quiet w (record w { voting = record (w.voting) { threshold = k } }) refl h
  step-IsGood (sender_step a w) h =
      quiet w (record w { voting = record (w.voting) { sender = a } }) refl h
  step-IsGood (group_step vg w) h =
      quiet w (record w { voting = record (w.voting) { validate_group = vg } }) refl h

  -- Whatever blocks and votes come in, in any order, whatever the node builds, and whatever the
  -- current block, the group of the validators and the group of the signatures are in each
  -- round, every block that the worker sends out as accepted either was signed, was validated on
  -- some current block, and is accepted under the hash of its header without the signature, with
  -- a signature that `Verigy` of the group of some round returned as valid for this hash, or the
  -- node built it itself, if so it is for the blocks that are voted on at the start.
  pub steps-IsGood :
      {w : Member D S} {r : Accepted × Member D S}
      → WorkerSteps b v ver bls t w r
      → IsChecked b v ver w.voting
      → (k : ℕ) (p : ℕ × Block) → get_elem? r.0 k ≡ some p
      → IsGood b v ver bls p
  steps-IsGood (stay w) h k p at = cc
  steps-IsGood (go {blocks = blocks} {rest = rest} s ss) h k p at =
      let (h1, good) = step-IsGood s h in
      elim (get_elem?-append blocks rest k p at) [
        | inl here ↦ good k p here
        | inr (j, later) ↦ steps-IsGood ss h1 j p later
      ]
