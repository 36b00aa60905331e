-- ===== src/Chain/Blocks.antt =====
-- Building a block and validating one: `buildBlock` and `validateBlock` of
-- libraries/chain/space/worker.go.
pub mod Orders
pub mod Honest
pub mod Panics
pub mod Accepted
pub mod Sealed
use gocoin.State.Commit.{commit_state}
use gocoin.Chain.Exec.{build_txs, validate_txs, Run}
use gocoin.State.Db.{StateDb, new_state}
use gocoin.Chain.Tx.{Services, Block, BlockTx, Tx, kind, rest_of, uint64, stell_report}
use gocoin.State.Backend.{Backend}
use mathlib.Core.Bool.{not}
use gocoin.Common.{
  Bool, Bytes, List, Option, Result, [], false, if◌then◌else◌, leb, nil_pointer, none, ok, panic,
  pos, some, ℕ, ◌%◌, ◌&&◌, ◌+◌, ◌==◌, ◌^◌, ◌||◌, ◌∷◌, ◌>>=◌,
}

-- What `buildBlock` takes from the rest of the worker: the time, the hash of the group, and the
-- proof of the proposer's turn.
pub record Proposer : Type 0 where
  pub now : ℕ
  pub group_hash : ℕ
  pub percent : Bytes
  pub pk : Bytes

-- The transactions of the messages.
abbrev pub txs_of : List BlockTx → List Tx
txs_of [] = []
txs_of (m ∷ ms) = m.tx ∷ txs_of ms

-- The last payload of a liquidation report among the messages.
abbrev liquidation_hash_of : List BlockTx → Bytes → Bytes
liquidation_hash_of [] acc = acc
liquidation_hash_of (m ∷ ms) acc =
    liquidation_hash_of ms (elim (kind m.payload) [ ok stell_report ↦ rest_of m.payload | _ ↦ acc ])

module _ {T R : Type 0} (b : Backend T) (v : Services R) where
  -- The start of the three loops, from the head block.
  abbrev pub start : Block → StateDb T → Run T
  start head s = record {
    space_id = head.header.id_index;
    wallet_id = head.header.wallet_id;
    cost = pos 0;
    state = s;
  }

  -- `state.New` of the head block's roots. The callers ignore the error, and call a method of nil.
  abbrev pub open_state : Block → Result (StateDb T)
  open_state head = elim (new_state b head.header.space_root head.header.acc_root) [
    | none ↦ panic nil_pointer
    | some s ↦ ok s
  ]

  -- `Worker.validateBlock`; the head block is nil before there is one.
  unfoldable pub validate_block : R → Option Block → Block → Result Bool
  validate_block rep none block = ok false
  validate_block rep (some head) block =
      if not (block.header.uncle_hash == v.header_hash head.header)
        || leb (block.header.number % 2 ^ 64) (head.header.number % 2 ^ 64)
      then ok false
      else do
        s ← open_state head
        run ← validate_txs b v rep block.transactions (start head s)
        (root_space, root_account, _, _) ← commit_state b run.state
        ok (
            block.header.space_root == root_space
            && block.header.acc_root == root_account
            && block.header.id_index % 2 ^ 64 == run.space_id % 2 ^ 64
            && uint64 block.header.gas_used == uint64 run.cost)

  -- `Worker.buildBlock`, up to the signature of the block: nothing without a transaction or a head.
  unfoldable pub build_block : R → Proposer → Option Block → List BlockTx → Result (Option Block)
  build_block rep p none msgs = ok none
  build_block rep p (some head) [] = ok none
  build_block rep p (some head) (m ∷ ms) = do
    s ← open_state head
    run ← build_txs b v rep (m ∷ ms) (start head s)
    (root_space, root_account, _, _) ← commit_state b run.state
    ok (
        some (record {
          header = record {
            uncle_hash = v.header_hash head.header;
            number = head.header.number + 1;
            id_index = run.space_id;
            wallet_id = run.wallet_id;
            group_id = head.header.group_id;
            timestamp = p.now;
            gas_used = run.cost;
            version = head.header.version;
            percent = p.percent;
            pk = p.pk;
            sign = [];
            liquidation_hash = liquidation_hash_of (m ∷ ms) [];
            extra_index = 0 ∷ 0 ∷ 0 ∷ 0 ∷ [];
            space_root = root_space;
            acc_root = root_account;
            group_root = 0;
            coin_root = 0;
            tx_root = v.derive_sha (txs_of (m ∷ ms));
            consensus_group_hash = p.group_hash;
            extra_hash = 0;
          };
          transactions = txs_of (m ∷ ms);
          extra_data = [];
        }))
