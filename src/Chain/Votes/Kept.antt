-- ===== src/Chain/Votes/Kept.antt =====
-- The blocks that are voted on, after the votes of `Worker.update`
-- (libraries/chain/space/worker.go).
use gocoin.Chain.Votes.Agreed.{tally_hash-Round}
use gocoin.State.Db.{elem}
use gocoin.Common.{
  >>=-eq-ok, Bool-cases, Dict, List, Option-cases, [], ap, arith, inl, inr, length, lookup, ltb, ok,
  ℕ, ◌&&◌, ◌∙◌, ◌∷◌, ◌≡◌, ◌⊎◌, nat_eq,
}
use mathlib.Core.Bool.{not}
use gocoin.Chain.Votes.{
  Bls, Voting, SigInfo, on_sig_info, on_vote, tally, tally_hash, Accepted, add_vote, elem,
  voted_hashes,
}
use gocoin.Group.Defs.{Externals}
use gocoin.Group.Select.{select_consensus}
use gocoin.Chain.Storage.{number_of}
use gocoin.Chain.Tx.{Block}

-- The blocks that are voted on stay or are gone.
abbrev pub Kept : {D S : Type 0} → Voting D S → Voting D S → Type 0
Kept w w' = (w'.sig_blocks ≡ w.sig_blocks) ⊎ (w'.sig_blocks ≡ [])

module _ {D S : Type 0} (bls : Bls S) where
  tally-Kept :
      (infos : Dict ℕ (SigInfo S)) (hashes : List ℕ) (signs : List S) (w : Voting D S)
      (blocks : Accepted) (w' : Voting D S)
      → tally bls infos hashes signs w ≡ ok (blocks, w')
      → Kept w w'
  unfolding tally
  tally-Kept infos [] signs w blocks w' e = inl (ground arith)
  tally-Kept infos (hash ∷ hashes) signs w blocks w' e =
      let ((b1, signs1, w1), e1, r1) = >>=-eq-ok (tally_hash bls infos hash signs w) _ e in
      let ((rest, w2), e2, r2) = >>=-eq-ok (tally bls infos hashes signs1 w1) _ r1 in
      let later = tally-Kept infos hashes signs1 w1 rest w2 e2 in
      let (t, round) = tally_hash-Round bls infos hash signs w {w1 = w1} e1 in
      let last : w' ≡ w2 = ground arith in
      elim later [
        | inr gone ↦ inr (ap (λ (z : Voting D S). z.sig_blocks) last ∙ gone)
        | inl same ↦ elim round [
          | inl p ↦ inl (ap (λ (z : Voting D S). z.sig_blocks) last ∙ same ∙ p.1)
          | inr p ↦ inr (ap (λ (z : Voting D S). z.sig_blocks) last ∙ same ∙ p.0)
        ]
      ]

  on_vote-Kept :
      (x : Externals) (info : SigInfo S) (block : Block) (w : Voting D S) (blocks : Accepted)
      (w' : Voting D S)
      → on_vote bls x info block w ≡ ok (blocks, w')
      → Kept w w'
  unfolding on_vote
  on_vote-Kept x info block w blocks w' e =
      let ((addrs, vg), e1, r1) =
        >>=-eq-ok (select_consensus x (number_of block.header) w.validate_group) _ e in
      let infos = add_vote bls info w.sig_infos in
      elim (Bool-cases (not (ltb 1 (length addrs) && elem w.sender addrs))) [
        | inl outside ↦ inl (ground arith)
        | inr inside ↦ elim (Bool-cases (ltb (length infos) w.threshold)) [
          | inl few ↦ inl (ground arith)
          | inr many ↦
              tally-Kept infos (voted_hashes infos) []
                (record w { validate_group = vg; sig_infos = infos }) blocks w' (ground arith)
        ]
      ]

  pub on_sig_info-Kept :
      (x : Externals) (info : SigInfo S) (w : Voting D S) (blocks : Accepted) (w' : Voting D S)
      → on_sig_info bls x info w ≡ ok (blocks, w')
      → Kept w w'
  unfolding on_sig_info
  on_sig_info-Kept x info w blocks w' e =
      elim (Option-cases (lookup info.block_hash w.sig_blocks)) [
        | inl unknown ↦ inl (ground arith)
        | inr (block, found) ↦
            let w0 : Voting D S = record w { threshold = bls.group_threshold } in
            on_vote-Kept x info block w0 blocks w' (ground arith)
      ]
