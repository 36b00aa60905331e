-- ===== src/Examples/Pools.antt =====
-- The pool, the turns of the proposers and the votes at concrete inputs.
use gocoin.Chain.Ticks.{Ticker, ticks, ticks-sent}
use gocoin.Chain.Votes.Agreed.{IsAgreed, on_sig_info-IsAgreed}
use gocoin.Group.Select.{select_consensus}
use gocoin.Examples.Groups.{Log, group, outside}
use gocoin.Chain.Vrf.Coins.{check_validate_coin-validate_coin, AllFresh}
use gocoin.Chain.Pool.Lookup.{pool_get-pool_add}
use gocoin.Chain.Votes.{
  SigInfo, Bls, Voting, on_sig_info, Accepted, on_vote, tally, tally_hash, count_votes, signs_for,
  voted_hashes, add_vote, set_signer,
}
use gocoin.Chain.Vrf.Turns.{AreDistinct, validate_turn-outsider, capped, validate_turn-member}
use gocoin.Chain.Vrf.{
  Hashes, validate_turn, validate_coin, Vrf, validate_coins, validate_address, check_validate_coin,
}
use gocoin.Chain.Pool.Funds.{pool_validate_tx_wraps}
use gocoin.State.Ops.{get_balance}
use gocoin.State.Db.{new_state, get_account_object, set_account_object, mark, elem}
use gocoin.Examples.Store.{Store, store}
use gocoin.Chain.Pool.Admitted.{IsPool}
use gocoin.Chain.Pool.Steps.{Reachable, by_step, Reachable-IsPool, at_start, add_step}
use gocoin.Chain.Tx.{Tx, kind, kind_of, uint64, epoch_tx, stell_report}
use gocoin.Examples.Ledger.{opened}
use gocoin.Common.{
  Option, [], arith, false, get_elem?, insert, length, lookup, none, ok, pos, refl, some, suc, true,
  zero, ℕ, ◌*◌, ◌+◌, ◌-◌, ◌<◌, ◌==◌, ◌^◌, ◌∷◌, ◌≡◌, ◌≢◌, ◌⊎◌, nat_eq,
}
use gocoin.Chain.Pool.{
  TxPool, PoolServices, add_txs_locked, new_tx_pool, add_each, pool_add, enqueue_tx,
  pool_validate_tx, check_funds, promote_executables, PoolError, pool_get,
}
use gocoin.Examples.Blocks.{services, Reports, tx_of, head}

-- A pool whose transactions have the size 100, and whose files are always found.
abbrev pool_services : PoolServices Store Reports
pool_services = record {
  backend = store;
  services = services;
  size = λ tx. 100;
  fetch = λ key. some key;
  signatures = λ bytes. 0;
  is_stell_member = λ addr. false;
  sort_by_cost = λ txs. txs;
}

abbrev tx11 : Tx
tx11 = tx_of 11 2

abbrev one : TxPool
one = record new_tx_pool { all = (11, tx11) ∷ [] }

added : add_txs_locked pool_services (some head) (tx11 ∷ []) new_tx_pool ≡ ok (none ∷ [], one)
unfolding add_txs_locked add_each pool_add enqueue_tx pool_validate_tx check_funds kind kind_of
    lookup insert new_state get_balance get_account_object set_account_object uint64 mark
    promote_executables
added = refl

one-Reachable : Reachable pool_services one
one-Reachable =
    by_step new_tx_pool one (at_start none)
      (add_step (some head) (tx11 ∷ []) (none ∷ []) new_tx_pool one added)

Reachable-IsPool_example : IsPool pool_services one
Reachable-IsPool_example = Reachable-IsPool pool_services one one-Reachable

abbrev no_error : Option PoolError
no_error = none

pool_get-pool_add_example :
    ((e : PoolError) × (no_error ≡ some e) × (one ≡ new_tx_pool))
    ⊎ ((no_error ≡ none)
        × (pool_get 11 new_tx_pool ≡ none)
        × ((pool_get 11 one ≡ some tx11)
            ⊎ (kind (2 ∷ []) ≡ ok epoch_tx)
            ⊎ ((kind (2 ∷ []) ≡ ok stell_report) × (one.downloads ≡ tx11 ∷ [])))
        × ((hash : ℕ) → hash ≢ 11 → pool_get hash one ≡ pool_get hash new_tx_pool))
unfolding pool_add enqueue_tx pool_validate_tx check_funds kind kind_of lookup insert new_state
    get_balance get_account_object set_account_object uint64
pool_get-pool_add_example =
    pool_get-pool_add pool_services (some head) tx11 new_tx_pool none one refl

-- A transaction of the cost 1 and the value 2^64 - 1.
abbrev rich : Tx
rich = record tx11 { amount = pos (2 ^ 64 - 1) }

pool_validate_tx_wraps_example : pool_validate_tx pool_services (some head) rich ≡ (none, 7)
unfolding new_state get_balance get_account_object set_account_object lookup insert
pool_validate_tx_wraps_example =
    pool_validate_tx_wraps pool_services head opened rich 7 1 (omega arith) (omega arith)
      (omega arith) refl refl refl refl refl

-- A group of four, where the hash of block 5 draws the position 3.
abbrev four : Vrf
four = record {
  group_id = 0;
  address = 20;
  group_address = 20 ∷ 30 ∷ 40 ∷ 50 ∷ [];
  coin_validate_info = [];
}

abbrev hashes : Hashes
hashes = record { of_block = λ number hash. number + 2; of_coin = λ cid a b. cid }

four_at : (j a : ℕ) → get_elem? four.group_address j ≡ some a → a ≡ 20 + 10 * j
four_at zero a e = ground arith
four_at (suc zero) a e = ground arith
four_at (suc (suc zero)) a e = ground arith
four_at (suc (suc (suc zero))) a e = ground arith
four_at (suc (suc (suc (suc j)))) a e = ground arith

four-AreDistinct : AreDistinct four.group_address
four-AreDistinct j k a p q = omega (arith, four_at j a p, four_at k a q)

validate_turn-member_example :
    (k : ℕ) × (validate_turn hashes 5 9 30 four ≡ ok (2 ^ capped k, capped k))
    × (k < 4)
    × ((k + 3 ≡ 1) ⊎ (k + 3 ≡ 5))
validate_turn-member_example = validate_turn-member hashes 5 9 30 1 four four-AreDistinct refl

absent : (j : ℕ) → get_elem? four.group_address j ≢ some 99
absent zero e = ground arith
absent (suc zero) e = ground arith
absent (suc (suc zero)) e = ground arith
absent (suc (suc (suc zero))) e = ground arith
absent (suc (suc (suc (suc j)))) e = ground arith

validate_turn-outsider_example : validate_turn hashes 5 9 99 four ≡ ok (1, 0)
validate_turn-outsider_example = validate_turn-outsider hashes 5 9 99 four (omega arith) absent

coins-AllFresh : AllFresh (4 ∷ 5 ∷ 8 ∷ 10 ∷ [])
coins-AllFresh = (
  ((λ e. omega arith), ((λ e. omega arith), ((λ e. omega arith), tt))),
  (((λ e. omega arith), ((λ e. omega arith), tt)), (((λ e. omega arith), tt), (tt, tt))),
)

-- The coins 4 and 5 are one run that falls to the first address, and 8 is another.
abbrev four_after : Vrf
four_after = record four { coin_validate_info = (4, 20) ∷ (5, 20) ∷ (8, 20) ∷ (10, 40) ∷ [] }

check_validate_coin-validate_coin_example :
    check_validate_coin (4 ∷ 5 ∷ 8 ∷ []) 20 four_after ≡ true
unfolding validate_coin validate_coins validate_address insert
check_validate_coin-validate_coin_example =
    check_validate_coin-validate_coin hashes 1 2 four (4 ∷ 5 ∷ 8 ∷ 10 ∷ []) 4 (5 ∷ 8 ∷ [])
      four_after coins-AllFresh refl

-- Two of three votes are in, and the third one comes.
abbrev vote : ℕ → SigInfo ℕ
vote sender = record {
  block_hash = 77;
  time = 1;
  sender = sender;
  percent = [];
  preknown_sig = some sender;
}

abbrev bls : Bls ℕ
bls = record {
  group_threshold = 3;
  verigy = λ signs hash. (3 == length signs, 9 ∷ []);
  percent_less = λ a b. false;
}

abbrev waiting : Voting Log ℕ
waiting = record {
  sender = 2;
  threshold = 0;
  sig_blocks = (77, head) ∷ [];
  sig_infos = (1, vote 1) ∷ (2, vote 2) ∷ [];
  coefficient_reset = false;
  block_hashs = [];
  last_blocks = [];
  validate_group = record group { number = 0; consensus_members = 1 ∷ 2 ∷ 3 ∷ [] };
}

abbrev decided : Voting Log ℕ
decided = record waiting {
  threshold = 3;
  sig_blocks = [];
  sig_infos = [];
  coefficient_reset = true;
}

abbrev agreed : Accepted
agreed = (77, record head { header = record (head.header) { sign = 9 ∷ [] } }) ∷ []

on_sig_info-IsAgreed_example :
    (agreed ≡ [])
    ⊎ IsAgreed bls 3 waiting.sig_blocks (add_vote bls (vote 3) waiting.sig_infos) agreed
unfolding on_sig_info on_vote select_consensus tally tally_hash count_votes signs_for voted_hashes
    add_vote set_signer insert lookup mark elem
on_sig_info-IsAgreed_example = on_sig_info-IsAgreed bls outside (vote 3) waiting agreed decided refl

-- A block that is ready before the first tick, of the proposer with the turn 5.
abbrev ticker : Ticker
ticker = record {
  b_number = 0;
  block_is_true = true;
  receive_block_is_true = false;
  sort_index = 5;
  curr_block = head;
  sent = [];
}

ticks-sent_example : (ticks services 3 ticker).sent ≡ (4, head) ∷ []
ticks-sent_example = ticks-sent services 2 ticker refl refl
