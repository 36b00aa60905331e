-- ===== src/Chain/Votes/Proposed.antt =====
-- A block that is proposed: the first case of `Worker.update` (libraries/chain/space/worker.go),
-- and the loop around the three cases. Floats, the threshold signatures and the clock are
-- parameters; an error or a full channel ends the loop for good.
pub mod Rounds
pub mod Reached
pub mod Built
pub mod Good
pub mod Imported
pub mod Turn
use gocoin.Common.{
  Bool, Bytes, List, Option, Result, [], false, if◌then◌else◌, insert, length, ltb, none, ok, some,
  true, ℕ, ◌&&◌, ◌++◌, ◌==◌, ◌∷◌, ◌>>=◌, nat_eq,
}
use mathlib.Core.Bool.{not}
use gocoin.Chain.Votes.{Bls, Voting, SigInfo}
use gocoin.Chain.Vrf.{Hashes, Vrf, validate_turn}
use gocoin.Chain.Vrf.Sort.{new_vrf}
use gocoin.Chain.Insert.{Verifier}
use gocoin.Chain.Blocks.{validate_block}
use gocoin.Chain.Storage.{number_of}
use gocoin.Chain.Tx.{Block, Services}
use gocoin.State.Backend.{Backend}
use gocoin.Group.Select.{select_consensus}
use gocoin.Group.Defs.{Externals}
use gocoin.State.Db.{elem}

-- Whether the loop goes on, has returned, or waits for its own channel.
pub data Loop : Type 0 where
  runs returned blocked : Loop

-- What the loop reads and writes: besides the votes, `coefficientMax` (which is 0 while the votes
-- say so), whether one fixed proposer is set and which, the divisor of the node's own coefficient
-- and its turn, the blocks and the signatures
-- that it sent and those that wait in `SigInfoCh`.
pub record Member (D S : Type 0) : Type 0 where
  pub voting : Voting D S
  pub coefficient_max : Bytes
  pub block_vrf : Option Vrf
  pub receive_block_is_true : Bool
  pub block_is_true : Bool
  pub fixed : Bool
  pub fixed_address : ℕ
  pub coefficient : ℕ
  pub sort_index : ℕ
  pub offered : List (ℕ × Block)
  pub sent : List (SigInfo S)
  pub pending : List (SigInfo S)
  pub loop : Loop

-- The order of the addresses, the hashes of the turns, whether a percentage is within 0.00001 of
-- one over a number and whether it is above 0, `Sign` of a hash, and the time.
pub record Clock (S : Type 0) : Type 0 where
  pub less : ℕ → ℕ → Bool
  pub hashes : Hashes
  pub is_near : Bytes → ℕ → Bool
  pub is_positive : Bytes → Bool
  pub sign_hash : ℕ → S
  pub now : ℕ

-- `make(chan BlockSigEvent, 32)`
abbrev pub channel_size : ℕ
channel_size = 32

module _ {S : Type 0} (t : Clock S) where
  -- The vote of the node itself.
  abbrev pub own_vote : ℕ → Bytes → ℕ → SigInfo S
  own_vote hash percent sender = record {
    block_hash = hash;
    time = t.now;
    sender = sender;
    percent = percent;
    preknown_sig = some (t.sign_hash hash);
  }

module _ {D S : Type 0} (bls : Bls S) (t : Clock S) where
  -- `self.coefficientMax < types.ByteToFloat32(head.Percent)`
  abbrev pub exceeds : Bytes → Member D S → Bool
  exceeds percent w =
      if w.voting.coefficient_reset
      then t.is_positive percent
      else bls.percent_less w.coefficient_max percent

  -- A block that the node votes for.
  unfoldable pub put_to_vote : ℕ → Block → Member D S → Member D S
  put_to_vote hash block w =
      let info = own_vote t hash block.header.percent w.voting.sender in
      record w {
        voting = record (w.voting) {
          coefficient_reset = false;
          sig_blocks = insert hash block w.voting.sig_blocks;
          sig_infos = insert w.voting.sender info w.voting.sig_infos;
        };
        coefficient_max = block.header.percent;
        sent = info ∷ w.sent;
        pending =
            if ltb (length w.pending) channel_size then w.pending ++ (info ∷ []) else w.pending;
        loop = if ltb (length w.pending) channel_size then w.loop else blocked;
      }

module _ {T R D S : Type 0} (b : Backend T) (v : Services R) (ver : Verifier) (bls : Bls S)
    (t : Clock S) where
  -- What follows once the node is in the committee `addrs` and `addr` has signed the block.
  unfoldable pub on_own_turn : R → Block → List ℕ → ℕ → Block → Member D S → Result (Member D S)
  unfolding put_to_vote
  on_own_turn rep head addrs addr block w = do
    f ← new_vrf t.less 0 w.voting.sender addrs
    (divisor, _) ← validate_turn t.hashes (number_of head.header) (v.header_hash head.header) addr f
    let w1 : Member D S = record w { block_vrf = some f }
    valid ←
        if t.is_near block.header.percent divisor
        then validate_block b v rep (some head) block
        else ok false
    ok (
        if not valid
        then w1
        else if exceeds bls t block.header.percent w1
        then put_to_vote bls t (ver.hash_no_sig block.header) block
            (record w1 { receive_block_is_true = true })
        else record w1 { receive_block_is_true = true })

  -- What follows once the signature of the block is read, on the current block.
  unfoldable pub on_signed_block :
      R → Externals → Option Block → ℕ → Block → Member D S → Result (Member D S)
  unfolding on_own_turn
  on_signed_block rep x none addr block w = ok w
  on_signed_block rep x (some head) addr block w = do
    (addrs, vg) ← select_consensus x (number_of block.header) w.voting.validate_group
    let w1 : Member D S = record w { voting = record (w.voting) { validate_group = vg } }
    if ltb 1 (length addrs) && elem w.voting.sender addrs
        then on_own_turn rep head addrs addr block w1
        else ok w1

  -- The case of a block that comes in with a hash.
  unfoldable pub on_last_block :
      R → Externals → Option Block → ℕ → Block → Member D S → Result (Member D S)
  unfolding on_signed_block
  on_last_block rep x cur hash block w =
      let w1 : Member D S = record w {
        voting = record (w.voting) { threshold = bls.group_threshold };
      } in
      if hash == v.header_hash block.header
      then elim (ver.sign_sender (ver.hash_no_sig block.header) block.header.sign) [
        | none ↦ ok (record w1 { loop = returned })
        | some addr ↦ on_signed_block rep x cur addr block w1
      ]
      else ok w1
