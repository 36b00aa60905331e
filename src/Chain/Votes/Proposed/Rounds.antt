-- ===== src/Chain/Votes/Proposed/Rounds.antt =====
-- The rounds of `Worker.update`, and what else changes what they read: `buildBlock`, the ticks of
-- `timeoutSubmission` and the setters (libraries/chain/space/worker.go).
use gocoin.Common.{
  Bytes, List, Option, Result, [], false, if◌then◌else◌, insert, length, ltb, none, ok, some, true,
  ℕ, ◌%◌, ◌&&◌, ◌++◌, ◌+◌, ◌<◌, ◌==◌, ◌^◌, ◌∷◌, ◌≡◌, ◌≤◌, ◌>>=◌, nat_eq,
}
use gocoin.Chain.Votes.{Bls, Voting, SigInfo, on_sig_info, set_last_block, set_signer, Accepted}
use gocoin.Chain.Votes.Proposed.{Member, Clock, on_last_block, runs, returned, channel_size}
use gocoin.Chain.Vrf.{validate_turn}
use gocoin.Chain.Vrf.Sort.{new_vrf}
use gocoin.Chain.Insert.{Verifier}
use gocoin.Chain.Blocks.{build_block, Proposer}
use gocoin.Chain.Storage.{number_of}
use gocoin.Chain.Tx.{Block, BlockTx, Services}
use gocoin.State.Backend.{Backend}
use gocoin.Group.Defs.{Externals, ValidateGroup}
use gocoin.Group.Select.{select_consensus}

-- `addrs[0]`, or what was there before.
abbrev pub first_or : ℕ → List ℕ → ℕ
first_or old [] = old
first_or old (a ∷ rest) = a

-- `ResetValidateGroup`
unfoldable pub reset_validate_group :
    {D S : Type 0} → Externals → ℕ → Member D S → Result (Member D S)
reset_validate_group x number w = do
  (addrs, vg) ← select_consensus x number w.voting.validate_group
  let one = ltb 0 (length addrs) && ltb (length addrs) 3
  ok (record w {
    voting = record (w.voting) { validate_group = vg };
    fixed = one;
    fixed_address = if one then first_or w.fixed_address addrs else w.fixed_address;
  })

module _ {R D S : Type 0} (v : Services R) (t : Clock S) where
  -- What `buildBlock` sets before it makes the header: with a committee of three or more the turn of
  -- the node in it, and otherwise the one proposer.
  unfoldable pub prepare_turn : Externals → Block → Member D S → Result (Member D S)
  prepare_turn x head w = do
    (addrs, vg) ← select_consensus x ((number_of head.header + 1) % 2 ^ 64) w.voting.validate_group
    let w1 : Member D S = record w { voting = record (w.voting) { validate_group = vg } }
    if ltb 2 (length addrs)
        then (do
          f ← new_vrf t.less 0 w.voting.sender addrs
          (divisor, index) ←
              validate_turn t.hashes (number_of head.header) (v.header_hash head.header)
                w.voting.sender f
          ok (record w1 {
            fixed = false;
            block_vrf = some f;
            coefficient = divisor;
            sort_index = index;
          }))
        else ok (record w1 {
          coefficient = 1;
          fixed = true;
          fixed_address = first_or w.fixed_address addrs;
        })

  -- The turn of the node itself: a block that it built is kept under its hash, and is offered at
  -- once in the turn 0.
  abbrev pub in_turn : Block → ℕ × ℕ → Member D S → Member D S
  in_turn block (divisor, index) w =
      let hash = v.header_hash block.header in
      record w {
        coefficient = divisor;
        sort_index = index;
        voting = record (w.voting) {
          sig_blocks = insert hash block w.voting.sig_blocks;
          last_blocks =
              if index == 0
              then w.voting.last_blocks ++ ((hash, block) ∷ [])
              else w.voting.last_blocks;
        };
        block_is_true = if index == 0 then false else true;
        offered = if index == 0 then (hash, block) ∷ w.offered else w.offered;
      }

  -- The end of `buildBlock`, on the signed block: the one proposer inserts it at once, and a node
  -- of a committee waits for its turn. `SetlastGroupHash` changes the group only.
  unfoldable pub submit_block : Block → Block → Member D S → Result (Accepted × Member D S)
  submit_block head block w =
      if w.fixed_address == w.voting.sender && w.fixed
      then ok ((v.header_hash block.header, block) ∷ [], record w { block_is_true = false })
      else if w.fixed
      then ok ([], w)
      else elim w.block_vrf [
        | none ↦ ok ([], record w { coefficient = 1 })
        | some f ↦ do
          turn ←
              validate_turn t.hashes (number_of head.header) (v.header_hash head.header)
                w.voting.sender f
          ok ([], in_turn block turn w)
      ]

module _ {T R D S G : Type 0} (b : Backend T) (v : Services R) (ver : Verifier) (bls : G → Bls S)
    (t : G → Clock S) where
  -- One round of the loop, one part of a `buildBlock`, or a change from outside, with the blocks
  -- that it accepts. A `G` is what a round finds: the group of the signatures, which is read anew
  -- in each round, and the time. The current block and the reports may be any in each round. The
  -- two parts of `buildBlock` are steps of their own, since the rounds of `update` may come in
  -- between, and the second may take any time, key and percentage for the header.
  pub data WorkerStep : Member D S → Accepted × Member D S → Type 0 where
    block_step :
        (g : G) (rep : R) (x : Externals) (cur : Option Block) (hash : ℕ) (block : Block)
        (rest : List (ℕ × Block)) (w w' : Member D S)
        → w.loop ≡ runs
        → w.voting.last_blocks ≡ (hash, block) ∷ rest
        → on_last_block b v ver
            (bls g)
            (t g)
            rep
            x
            cur
            hash
            block
            (record w { voting = record (w.voting) { last_blocks = rest } })
          ≡ ok w'
        → WorkerStep w ([], w')
    vote_step :
        (g : G) (x : Externals) (info : SigInfo S) (rest : List (SigInfo S)) (w : Member D S)
        (blocks : Accepted) (voting : Voting D S)
        → w.loop ≡ runs
        → w.pending ≡ info ∷ rest
        → on_sig_info (bls g) x info w.voting ≡ ok (blocks, voting)
        → WorkerStep w (blocks, record w { voting = voting; pending = rest })
    prepare_step :
        (g : G) (x : Externals) (head : Block) (w w' : Member D S)
        → prepare_turn v (t g) x head w ≡ ok w'
        → WorkerStep w ([], w')
    submit_step :
        (g : G) (rep : R) (p : Proposer) (head : Block) (msgs : List BlockTx) (block : Block)
        (sig : Bytes) (w w' : Member D S) (blocks : Accepted)
        → build_block b v rep p (some head) msgs ≡ ok (some block)
        → submit_block v (t g) head (set_signer sig block) w ≡ ok (blocks, w')
        → WorkerStep w (blocks, w')
    stop_step : (w : Member D S) → w.loop ≡ runs → WorkerStep w ([], record w { loop = returned })
    -- `SetLastBlockCh`, and `AddSigBlock`.
    receive_block :
        (hash : ℕ) (block : Block) (w : Member D S)
        → WorkerStep w ([], record w { voting = set_last_block hash block w.voting })
    receive_vote :
        (info : SigInfo S) (w : Member D S)
        → length w.pending < channel_size
        → WorkerStep w ([], record w { pending = w.pending ++ (info ∷ []) })
    -- A tick of `timeoutSubmission` that sends the block that was built last.
    tick_step :
        (tick : ℕ) (block : Block) (w : Member D S)
        → w.block_is_true ≡ true
        → w.receive_block_is_true ≡ false
        → tick ≤ w.sort_index + 2
        → WorkerStep w (
          [],
          record w {
            block_is_true = false;
            offered = (v.header_hash block.header, block) ∷ w.offered;
          },
        )
    -- `ResetValidateGroup`, `SetGroupSize` and `SetSenderAddress`.
    reset_step :
        (x : Externals) (number : ℕ) (w w' : Member D S)
        → reset_validate_group x number w ≡ ok w'
        → WorkerStep w ([], w')
    size_step :
        (k : ℕ) (w : Member D S)
        → WorkerStep w ([], record w { voting = record (w.voting) { threshold = k } })
    sender_step :
        (a : ℕ) (w : Member D S)
        → WorkerStep w ([], record w { voting = record (w.voting) { sender = a } })
    -- Whatever the rest of the node does to the shared group of the validators.
    group_step :
        (vg : ValidateGroup D) (w : Member D S)
        → WorkerStep w ([], record w { voting = record (w.voting) { validate_group = vg } })

  -- Steps one after the other, with all the blocks that they accept.
  pub data WorkerSteps : Member D S → Accepted × Member D S → Type 0 where
    stay : (w : Member D S) → WorkerSteps w ([], w)
    go :
        {w w1 w2 : Member D S} {blocks rest : Accepted}
        → WorkerStep w (blocks, w1)
        → WorkerSteps w1 (rest, w2)
        → WorkerSteps w (blocks ++ rest, w2)
