-- ===== src/Chain/Votes/Proposed/Reached.antt =====
-- What holds of every block that the loop of `Worker.update` accepts
-- (libraries/chain/space/worker.go).
use gocoin.State.Db.{elem}
use gocoin.Group.Select.{select_consensus}
use gocoin.Group.Defs.{Externals}
use gocoin.Chain.Votes.Kept.{Kept}
use gocoin.Chain.Vrf.{validate_turn}
use gocoin.Chain.Vrf.Sort.{new_vrf}
use gocoin.Chain.Blocks.{build_block, Proposer, validate_block}
use gocoin.Chain.Votes.Proposed.{
  Clock, put_to_vote, validate_block, on_own_turn, Member, new_vrf, validate_turn, exceeds,
  on_last_block, on_signed_block,
}
use gocoin.Chain.Insert.{Verifier}
use gocoin.Chain.Storage.{number_of}
use gocoin.Chain.Tx.{Block, Services, BlockTx}
use gocoin.State.Backend.{Backend}
use gocoin.Common.{
  >>=-eq-ok, Bool-cases, Bytes, List, Option, Option-cases, ap, arith, false, if◌then◌else◌, inl,
  inr, insert, length, lookup, lookup-insert, ltb, none, ok, refl, some, subst, sym, true, ℕ, ◌&&◌,
  ◌==◌, ◌∙◌, ◌≡◌, ◌⊎◌, nat_eq,
}
use gocoin.Chain.Votes.{
  Bls, Voting, Block, number_of, Externals, select_consensus, elem, set_signer,
}

pub some_inj {ℓ} : {A : Type ℓ} {x y : A} → some x ≡ some y → x ≡ y
some_inj e = cc

module _ {T R : Type 0} (b : Backend T) (v : Services R) (ver : Verifier) where
  -- A block was checked: it is signed, it is known by the hash of its header without the signature,
  -- and it was validated on some current block.
  unfoldable pub WasChecked : ℕ → Block → Type 0
  WasChecked hash block =
      (ver.hash_no_sig block.header ≡ hash)
      × ((addr : ℕ) × (ver.sign_sender hash block.header.sign ≡ some addr))
      × ((rep : R) × (head : Block) × (validate_block b v rep (some head) block ≡ ok true))

  -- A block that the node built and signed itself, under its hash.
  unfoldable pub WasBuilt : ℕ → Block → Type 0
  WasBuilt hash block =
      (v.header_hash block.header ≡ hash)
      × ((rep : R) × (p : Proposer) × (head : Block) × (msgs : List BlockTx) × (blk : Block)
          × (sig : Bytes) × (build_block b v rep p (some head) msgs ≡ ok (some blk))
          × (block ≡ set_signer sig blk))

  abbrev pub IsKnown : ℕ → Block → Type 0
  IsKnown hash block = WasChecked hash block ⊎ WasBuilt hash block

module _ {T R D S : Type 0} (b : Backend T) (v : Services R) (ver : Verifier) where
  unfoldable pub IsChecked : Voting D S → Type 0
  IsChecked w =
      (hash : ℕ) (block : Block)
      → lookup hash w.sig_blocks ≡ some block
      → IsKnown b v ver hash block

  pub Kept-IsChecked : (w w' : Voting D S) → Kept w w' → IsChecked w → IsChecked w'
  unfolding IsChecked lookup
  Kept-IsChecked w w' (inl same) h hash block e = h hash block (ap (lookup hash) (sym same) ∙ e)
  Kept-IsChecked w w' (inr gone) h hash block e = absurd (ground (arith, ap (lookup hash) gone))

  -- A known block that is added.
  pub insert-IsChecked :
      (hash : ℕ) (block : Block) (w w' : Voting D S)
      → IsKnown b v ver hash block
      → w'.sig_blocks ≡ insert hash block w.sig_blocks
      → IsChecked w
      → IsChecked w'
  unfolding IsChecked
  insert-IsChecked hash block w w' new put h hash' block' e =
      let at : lookup hash' (insert hash block w.sig_blocks) ≡ some block' =
        ap (lookup hash') (sym put) ∙ e in
      elim (Bool-cases (hash' == hash)) [
        | inl same ↦
            let eq : hash ≡ hash' = ground arith in
            let found : some block ≡ some block' =
              ground (arith, at, lookup-insert hash' hash block w.sig_blocks) in
            subst (λ z. IsKnown b v ver z block') eq
              (subst (λ (z : Block). IsKnown b v ver hash z) (some_inj found) new)
        | inr other ↦
            h hash' block' (ground (arith, at, lookup-insert hash' hash block w.sig_blocks))
      ]

module _ {T R D S : Type 0} (b : Backend T) (v : Services R) (ver : Verifier) (bls : Bls S)
    (t : Clock S) where
  on_own_turn-IsChecked :
      (rep : R) (head : Block) (addrs : List ℕ) (addr : ℕ) (block : Block) (w w' : Member D S)
      → ver.sign_sender (ver.hash_no_sig block.header) block.header.sign ≡ some addr
      → IsChecked b v ver w.voting
      → on_own_turn b v ver bls t rep head addrs addr block w ≡ ok w'
      → IsChecked b v ver w'.voting
  unfolding on_own_turn WasChecked put_to_vote
  on_own_turn-IsChecked rep head addrs addr block w w' signed h e =
      let (f, e1, r1) = >>=-eq-ok (new_vrf t.less 0 w.voting.sender addrs) _ e in
      let ((divisor, i), e2, r2) =
        >>=-eq-ok
          (validate_turn t.hashes (number_of head.header) (v.header_hash head.header) addr f) _
          r1 in
      let (valid, e3, r3) =
        >>=-eq-ok
          (if t.is_near block.header.percent divisor
            then validate_block b v rep (some head) block
            else ok false)
          _ r2 in
      elim (Bool-cases valid) [
        | inr bad ↦
            subst (λ (z : Member D S). IsChecked b v ver z.voting)
              {x = record w { block_vrf = some f }} {y = w'} (ground arith) h
        | inl good ↦
            let w1 : Member D S = record w { block_vrf = some f; receive_block_is_true = true } in
            let ready : WasChecked b v ver (ver.hash_no_sig block.header) block =
              (refl, (addr, signed), (rep, head, ground arith)) in
            elim (Bool-cases
              (exceeds bls t block.header.percent (record w { block_vrf = some f }))) [
                | inr low ↦
                    subst (λ (z : Member D S). IsChecked b v ver z.voting) {x = w1} {y = w'}
                      (ground arith) h
                | inl high ↦
                    subst (λ (z : Member D S). IsChecked b v ver z.voting)
                      {x = put_to_vote bls t (ver.hash_no_sig block.header) block w1} {y = w'}
                      (ground arith)
                      (insert-IsChecked b v ver (ver.hash_no_sig block.header) block w1.voting
                        (put_to_vote bls t (ver.hash_no_sig block.header) block w1).voting
                        (inl ready) refl h)
              ]
      ]

  on_signed_block-IsChecked :
      (rep : R) (x : Externals) (cur : Option Block) (addr : ℕ) (block : Block) (w w' : Member D S)
      → ver.sign_sender (ver.hash_no_sig block.header) block.header.sign ≡ some addr
      → IsChecked b v ver w.voting
      → on_signed_block b v ver bls t rep x cur addr block w ≡ ok w'
      → IsChecked b v ver w'.voting
  unfolding on_signed_block
  on_signed_block-IsChecked rep x none addr block w w' signed h e =
      Kept-IsChecked b v ver w.voting w'.voting (inl (ground arith)) h
  on_signed_block-IsChecked rep x (some head) addr block w w' signed h e =
      let ((addrs, vg), e1, r1) =
        >>=-eq-ok (select_consensus x (number_of block.header) w.voting.validate_group) _ e in
      let w1 : Member D S = record w { voting = record (w.voting) { validate_group = vg } } in
      elim (Bool-cases (ltb 1 (length addrs) && elem w.voting.sender addrs)) [
        | inr outside ↦ Kept-IsChecked b v ver w.voting w'.voting (inl (ground arith)) h
        | inl inside ↦
            on_own_turn-IsChecked rep head addrs addr block w1 w' signed
              (Kept-IsChecked b v ver w.voting w1.voting (inl refl) h) (ground arith)
      ]

  pub on_last_block-IsChecked :
      (rep : R) (x : Externals) (cur : Option Block) (hash : ℕ) (block : Block) (w w' : Member D S)
      → IsChecked b v ver w.voting
      → on_last_block b v ver bls t rep x cur hash block w ≡ ok w'
      → IsChecked b v ver w'.voting
  unfolding on_last_block
  on_last_block-IsChecked rep x cur hash block w w' h e =
      let w1 : Member D S = record w {
        voting = record (w.voting) { threshold = bls.group_threshold };
      } in
      elim (Bool-cases (hash == v.header_hash block.header)) [
        | inr other ↦ Kept-IsChecked b v ver w.voting w'.voting (inl (ground arith)) h
        | inl same ↦
            elim (Option-cases (ver.sign_sender (ver.hash_no_sig block.header) block.header.sign)) [
              | inl bad ↦ Kept-IsChecked b v ver w.voting w'.voting (inl (ground arith)) h
              | inr (addr, signed) ↦
                  on_signed_block-IsChecked rep x cur addr block w1 w' signed
                    (Kept-IsChecked b v ver w.voting w1.voting (inl refl) h) (ground arith)
            ]
      ]
