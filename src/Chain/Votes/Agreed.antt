-- ===== src/Chain/Votes/Agreed.antt =====
-- Which blocks the votes accept (libraries/chain/space/worker.go).
use gocoin.State.Db.{elem}
use gocoin.Chain.Storage.{number_of}
use gocoin.Group.Select.{select_consensus}
use gocoin.Group.Defs.{Externals}
use gocoin.Chain.Tx.{Block}
use gocoin.Common.{
  >>=-eq-ok, Bool, Bool-cases, Bytes, Dict, List, Option-cases, Result, [], ap, arith, false, inl,
  inr, length, lookup, ltb, ok, refl, some, subst, sym, true, ℕ, ◌&&◌, ◌++◌, ◌∙◌, ◌∷◌, ◌≡◌, ◌≤◌,
  ◌⊎◌, nat_eq,
}
use gocoin.Chain.Votes.{
  Bls, tally_hash, Block, SigInfo, Accepted, Voting, set_signer, count_votes, accept, signs_for,
  tally, on_sig_info, Externals, add_vote, on_vote, select_consensus, number_of, not, elem,
  voted_hashes,
}

module _ {S : Type 0} (bls : Bls S) where
  -- One block was accepted: one of those voted on, with a signature that verifies for a hash that
  -- has enough votes.
  abbrev pub IsAgreed : ℕ → Dict ℕ Block → Dict ℕ (SigInfo S) → Accepted → Type 0
  IsAgreed threshold sig_blocks infos blocks =
      (hash : ℕ) × (block : Block) × (signs : List S) × (sig : Bytes) × (blocks
        ≡ (hash, set_signer sig block) ∷ [])
      × (lookup hash sig_blocks ≡ some block)
      × (threshold ≤ count_votes hash infos)
      × (bls.verigy signs hash ≡ (true, sig))

module _ {D S : Type 0} (bls : Bls S) where
  -- A round keeps the threshold, and accepts at most one block, after which there are none.
  abbrev pub Round : Dict ℕ (SigInfo S) → Voting D S → Accepted → Voting D S → Type 0
  Round infos w blocks w1 =
      (w1.threshold ≡ w.threshold)
      × (((blocks ≡ []) × (w1.sig_blocks ≡ w.sig_blocks))
          ⊎ ((w1.sig_blocks ≡ [])
              × ((blocks ≡ []) ⊎ IsAgreed bls w.threshold w.sig_blocks infos blocks)))

  accept-Round :
      (infos : Dict ℕ (SigInfo S)) (hash : ℕ) (signs : List S) (w : Voting D S) (b : Bool)
      (sig : Bytes)
      → w.threshold ≤ count_votes hash infos
      → bls.verigy signs hash ≡ (b, sig)
      → Round infos w (accept bls hash (b, sig) w).0 (accept bls hash (b, sig) w).1
  accept-Round infos hash signs w false sig many v = (refl, inl (refl, refl))
  accept-Round infos hash signs w true sig many v = (
    refl,
    inr (
      refl,
      elim (Option-cases (lookup hash w.sig_blocks)) [
        | inl gone ↦ inl (ground arith)
        | inr (block, found) ↦ inr (hash, block, signs, sig, ground arith, found, many, v)
      ],
    ),
  )

  pub tally_hash-Round :
      (infos : Dict ℕ (SigInfo S)) (hash : ℕ) (signs : List S) (w : Voting D S) {blocks : Accepted}
      {signs1 : List S} {w1 : Voting D S}
      → tally_hash bls infos hash signs w ≡ ok (blocks, signs1, w1)
      → Round infos w blocks w1
  unfolding tally_hash
  tally_hash-Round infos hash signs w {blocks = blocks} {signs1 = signs1} {w1 = w1} e =
      elim (Bool-cases (ltb (count_votes hash infos) w.threshold)) [
        | inl few ↦ (ground arith, inl (ground arith, ground arith))
        | inr enough ↦
            let next : List S → Result (Accepted × List S × Voting D S) = λ more.
              let (bs, w2) =
                accept bls hash (bls.verigy (signs ++ more) hash) (record w { sig_infos = [] }) in
              ok (bs, signs ++ more, w2) in
            let (more, e1, r1) =
              >>=-eq-ok (signs_for hash w.sig_infos) next {y = (blocks, signs1, w1)}
                (ground arith) in
            let (b, sig) = bls.verigy (signs ++ more) hash in
            let round =
              accept-Round infos hash (signs ++ more) (record w { sig_infos = [] }) b sig
                (ground arith) refl in
            subst (λ (z : Accepted × Voting D S). Round infos w z.0 z.1)
              {x = accept bls hash (bls.verigy (signs ++ more) hash) (record w { sig_infos = [] })}
              {y = (blocks, w1)} (ground arith) round
      ]

  Round-empty :
      (infos : Dict ℕ (SigInfo S)) (w : Voting D S) (w1 : Voting D S) {blocks : Accepted}
      → w.sig_blocks ≡ []
      → Round infos w blocks w1
      → (blocks ≡ []) × (w1.sig_blocks ≡ [])
  unfolding lookup
  Round-empty infos w w1 q (t, inl (empty, same)) = (empty, same ∙ q)
  Round-empty infos w w1 q (t, inr (gone, inl empty)) = (empty, gone)
  Round-empty infos w w1 q (t, inr (gone, inr (h, block, sg, sig, eq, found, many, v))) =
      absurd (ground (arith, found, ap (lookup h) q))

  Round-rest :
      (infos : Dict ℕ (SigInfo S)) (w w1 : Voting D S) (b1 rest : Accepted)
      → Round infos w b1 w1
      → (w1.sig_blocks ≡ [] → rest ≡ [])
      → (rest ≡ []) ⊎ IsAgreed bls w1.threshold w1.sig_blocks infos rest
      → (b1 ++ rest ≡ []) ⊎ IsAgreed bls w.threshold w.sig_blocks infos (b1 ++ rest)
  Round-rest infos w w1 b1 rest (t, inl (empty, same)) only (inl none_left) = inl (ground arith)
  Round-rest infos w w1 b1 rest (t, inl (empty, same)) only
        (inr (h, block, sg, sig, eq, found, many, v)) =
      inr (h, block, sg, sig, ground arith, ap (lookup h) (sym same) ∙ found, ground arith, v)
  Round-rest infos w w1 b1 rest (t, inr (gone, inl empty)) only ih = inl (ground (arith, only gone))
  Round-rest infos w w1 b1 rest (t, inr (gone, inr (h, block, sg, sig, eq, found, many, v))) only
        ih =
      inr (h, block, sg, sig, ground (arith, only gone), found, many, v)

  tally_empty :
      (infos : Dict ℕ (SigInfo S)) (hashes : List ℕ) (signs : List S) (w : Voting D S)
      {blocks : Accepted} {w' : Voting D S}
      → w.sig_blocks ≡ []
      → tally bls infos hashes signs w ≡ ok (blocks, w')
      → blocks ≡ []
  unfolding tally lookup
  tally_empty infos [] signs w q e = ground arith
  tally_empty infos (hash ∷ hashes) signs w q e =
      let ((b1, signs1, w1), e1, r1) = >>=-eq-ok (tally_hash bls infos hash signs w) _ e in
      let ((rest, w2), e2, r2) = >>=-eq-ok (tally bls infos hashes signs1 w1) _ r1 in
      let (empty, gone) = Round-empty infos w w1 q (tally_hash-Round infos hash signs w e1) in
      ground (arith, tally_empty infos hashes signs1 w1 gone e2)

  tally-IsAgreed :
      (infos : Dict ℕ (SigInfo S)) (hashes : List ℕ) (signs : List S) (w : Voting D S)
      {blocks : Accepted} {w' : Voting D S}
      → tally bls infos hashes signs w ≡ ok (blocks, w')
      → (blocks ≡ []) ⊎ IsAgreed bls w.threshold w.sig_blocks infos blocks
  unfolding tally
  tally-IsAgreed infos [] signs w e = inl (ground arith)
  tally-IsAgreed infos (hash ∷ hashes) signs w {blocks = blocks} e =
      let ((b1, signs1, w1), e1, r1) = >>=-eq-ok (tally_hash bls infos hash signs w) _ e in
      let ((rest, w2), e2, r2) = >>=-eq-ok (tally bls infos hashes signs1 w1) _ r1 in
      let all =
        Round-rest infos w w1 b1 rest (tally_hash-Round infos hash signs w e1)
          (λ gone. tally_empty infos hashes signs1 w1 gone e2)
          (tally-IsAgreed infos hashes signs1 w1 e2) in
      subst (λ (l : Accepted). (l ≡ []) ⊎ IsAgreed bls w.threshold w.sig_blocks infos l)
        {x = b1 ++ rest} {y = blocks} (ground arith) all

  on_vote-IsAgreed :
      (x : Externals) (info : SigInfo S) (block : Block) (w : Voting D S) (blocks : Accepted)
      (w' : Voting D S)
      → on_vote bls x info block w ≡ ok (blocks, w')
      → (blocks ≡ []) ⊎ IsAgreed bls w.threshold w.sig_blocks (add_vote bls info w.sig_infos) blocks
  unfolding on_vote
  on_vote-IsAgreed x info block w blocks w' e =
      let ((addrs, vg), e1, r1) =
        >>=-eq-ok (select_consensus x (number_of block.header) w.validate_group) _ e in
      let infos = add_vote bls info w.sig_infos in
      elim (Bool-cases (not (ltb 1 (length addrs) && elem w.sender addrs))) [
        | inl outside ↦ inl (ground arith)
        | inr inside ↦ elim (Bool-cases (ltb (length infos) w.threshold)) [
          | inl few ↦ inl (ground arith)
          | inr many ↦
              tally-IsAgreed infos (voted_hashes infos) []
                (record w { validate_group = vg; sig_infos = infos }) {blocks = blocks} {w' = w'}
                (ground arith)
        ]
      ]

  -- If the case of `update` for a vote comes back, it accepts no block or one block, which is
  -- one of those that are voted on, with a signature that `Verigy` returned as valid for its
  -- hash, where at least as many votes as the threshold name this hash.
  pub on_sig_info-IsAgreed :
      (x : Externals) (info : SigInfo S) (w : Voting D S) (blocks : Accepted) (w' : Voting D S)
      → on_sig_info bls x info w ≡ ok (blocks, w')
      → (blocks ≡ [])
        ⊎ IsAgreed bls bls.group_threshold w.sig_blocks (add_vote bls info w.sig_infos) blocks
  unfolding on_sig_info
  on_sig_info-IsAgreed x info w blocks w' e =
      elim (Option-cases (lookup info.block_hash w.sig_blocks)) [
        | inl unknown ↦ inl (ground arith)
        | inr (block, found) ↦
            on_vote-IsAgreed x info block (record w { threshold = bls.group_threshold }) blocks w'
              (ground arith)
      ]
