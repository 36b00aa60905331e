-- ===== src/Chain/Votes.antt =====
-- The votes on a block: the case of `Worker.update` (libraries/chain/space/worker.go) for a
-- signature that comes in, and `SetLastBlockCh`. Floats and the threshold signatures `S` are
-- parameters.
pub mod Agreed
pub mod Kept
pub mod Proposed
use mathlib.Core.Bool.{not}
use gocoin.Chain.Storage.{number_of}
use gocoin.Group.Select.{select_consensus}
use gocoin.Group.Defs.{ValidateGroup, Externals}
use gocoin.Chain.Tx.{Block}
use gocoin.State.Db.{mark, elem}
use gocoin.Common.{
  Bool, Bytes, Dict, List, Option, Result, [], false, if◌then◌else◌, insert, length, lookup, ltb,
  nil_pointer, none, ok, panic, some, true, ℕ, ◌&&◌, ◌++◌, ◌+◌, ◌==◌, ◌∷◌, ◌>>=◌, nat_eq,
}

-- `BlockSigInfo`; a nil signature is `none`.
pub record SigInfo (S : Type 0) : Type 0 where
  pub block_hash : ℕ
  pub time : ℕ
  pub sender : ℕ
  pub percent : Bytes
  pub preknown_sig : Option S

-- What the case reads and writes of `Worker`, with whether `coefficientMax` is 0, the blocks that
-- wait in `lastBlockCh`, and the group.
pub record Voting (D S : Type 0) : Type 0 where
  pub sender : ℕ
  pub threshold : ℕ
  pub sig_blocks : Dict ℕ Block
  pub sig_infos : Dict ℕ (SigInfo S)
  pub coefficient_reset : Bool
  pub block_hashs : List ℕ
  pub last_blocks : List (ℕ × Block)
  pub validate_group : ValidateGroup D

-- `Threshold` and `Verigy` of the group of the signatures, and the order of two percentages.
pub record Bls (S : Type 0) : Type 0 where
  pub group_threshold : ℕ
  pub verigy : List S → ℕ → Bool × Bytes
  pub percent_less : Bytes → Bytes → Bool

-- `SetSigner`, which leaves the signature for an empty one.
unfoldable pub set_signer : Bytes → Block → Block
set_signer [] block = block
set_signer (c ∷ cs) block = record block { header = record (block.header) { sign = c ∷ cs } }

-- `SetLastBlockCh`: a block that was seen is dropped.
unfoldable pub set_last_block : {D S : Type 0} → ℕ → Block → Voting D S → Voting D S
set_last_block hash block w = if elem hash w.block_hashs then w else record w {
  block_hashs = hash ∷ w.block_hashs;
  last_blocks = w.last_blocks ++ ((hash, block) ∷ []);
}

module _ {S : Type 0} where
  -- `sigmap`: how many of the votes name each hash.
  unfoldable pub count_votes : ℕ → Dict ℕ (SigInfo S) → ℕ
  count_votes hash [] = 0
  count_votes hash ((sender, info) ∷ infos) =
      if hash == info.block_hash then count_votes hash infos + 1 else count_votes hash infos

  unfoldable pub voted_hashes : Dict ℕ (SigInfo S) → List ℕ
  voted_hashes [] = []
  voted_hashes ((sender, info) ∷ infos) = mark info.block_hash (voted_hashes infos)

  -- The signatures of the votes for a hash.
  unfoldable pub signs_for : ℕ → Dict ℕ (SigInfo S) → Result (List S)
  signs_for hash [] = ok []
  signs_for hash ((sender, info) ∷ infos) = do
    rest ← signs_for hash infos
    if hash == info.block_hash
        then elim info.preknown_sig [ none ↦ panic nil_pointer | some sign ↦ ok (sign ∷ rest) ]
        else ok rest

-- The blocks that are sent out and committed, with the hashes that were voted on.
abbrev pub Accepted : Type 0
Accepted = List (ℕ × Block)

module _ {S : Type 0} (bls : Bls S) where
  -- A vote replaces an earlier one of the same sender only with a higher percentage.
  unfoldable pub add_vote : SigInfo S → Dict ℕ (SigInfo S) → Dict ℕ (SigInfo S)
  add_vote info infos = elim (lookup info.sender infos) [
    | none ↦ insert info.sender info infos
    | some old ↦
        if bls.percent_less old.percent info.percent then insert info.sender info infos else infos
  ]

module _ {D S : Type 0} (bls : Bls S) where
  -- What a success or a failure of `Verigy` comes to.
  abbrev pub accept : ℕ → Bool × Bytes → Voting D S → Accepted × Voting D S
  accept hash (false, sig) w = ([], w)
  accept hash (true, sig) w = (
    elim (lookup hash w.sig_blocks) [ none ↦ [] | some block ↦ (hash, set_signer sig block) ∷ [] ],
    record w { coefficient_reset = true; sig_blocks = [] },
  )

  -- One round of the loop over `sigmap`, whose counts are those of the votes `infos`. The signatures
  -- of one hash are kept for the next, and the votes are gone after the first.
  unfoldable pub tally_hash :
      Dict ℕ (SigInfo S) → ℕ → List S → Voting D S → Result (Accepted × List S × Voting D S)
  unfolding count_votes signs_for
  tally_hash infos hash signs w =
      if ltb (count_votes hash infos) w.threshold then ok ([], signs, w) else do
        more ← signs_for hash w.sig_infos
        let (blocks, w1) =
            accept hash (bls.verigy (signs ++ more) hash) (record w { sig_infos = [] })
        ok (blocks, signs ++ more, w1)

  unfoldable pub tally :
      Dict ℕ (SigInfo S) → List ℕ → List S → Voting D S → Result (Accepted × Voting D S)
  unfolding tally_hash
  tally infos [] signs w = ok ([], w)
  tally infos (hash ∷ hashes) signs w = do
    (blocks, signs1, w1) ← tally_hash infos hash signs w
    (rest, w2) ← tally infos hashes signs1 w1
    ok (blocks ++ rest, w2)

  -- A vote on a block that is known: it counts if the node is in the committee of the block.
  unfoldable pub on_vote :
      Externals → SigInfo S → Block → Voting D S → Result (Accepted × Voting D S)
  unfolding tally add_vote voted_hashes
  on_vote x info block w = do
    (addrs, vg) ← select_consensus x (number_of block.header) w.validate_group
    let w1 : Voting D S = record w { validate_group = vg }
    let infos = add_vote bls info w1.sig_infos
    if not (ltb 1 (length addrs) && elem w.sender addrs)
        then ok ([], w1)
        else if ltb (length infos) w1.threshold
        then ok ([], record w1 { sig_infos = infos })
        else tally infos (voted_hashes infos) [] (record w1 { sig_infos = infos })

  -- The case of a signature that comes in.
  unfoldable pub on_sig_info : Externals → SigInfo S → Voting D S → Result (Accepted × Voting D S)
  unfolding on_vote
  on_sig_info x info w = elim (lookup info.block_hash w.sig_blocks) [
    | none ↦ ok ([], record w { threshold = bls.group_threshold })
    | some block ↦ on_vote x info block (record w { threshold = bls.group_threshold })
  ]
