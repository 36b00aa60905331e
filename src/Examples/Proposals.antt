-- ===== src/Examples/Proposals.antt =====
-- A block that is proposed and voted on, at concrete inputs.
use gocoin.Chain.Storage.{hash_bytes}
use gocoin.State.Db.{elem, new_state, mark}
use gocoin.Chain.Votes.Proposed.Good.{IsGood, steps-IsGood}
use gocoin.Chain.Votes.Proposed.Rounds.{
  stay, go, block_step, vote_step, receive_block, WorkerStep, WorkerSteps,
}
use gocoin.Chain.Votes.Proposed.Reached.{WasBuilt}
use gocoin.Common.{
  Bool, Bytes, List, Result, [], false, insert, lookup, none, ok, panic, refl, some, true, ℕ, ◌∷◌,
  ◌≡◌, ◌≢◌, ◌⊎◌, nat_eq,
}
use gocoin.Chain.Vrf.Sort.{sort_addresses, sort_by_hex, partition, scan_up, scan_down, new_vrf}
use gocoin.Group.Rand.{swap}
use gocoin.Chain.Vrf.{validate_turn, sort_index_from, shift_left}
use gocoin.Group.Select.{select_consensus}
use gocoin.Chain.Exec.{validate_txs}
use gocoin.Chain.Blocks.{validate_block}
use gocoin.State.Commit.{
  commit_state, space_finalise, account_finalise, finalise_spaces, finalise_accounts,
}
use gocoin.Bls.{BlsGroup}
use gocoin.Bls.Signs.{BlsSign, pub_key_of, verigy, read_signs}
use gocoin.Examples.Signers.{curve, group_at, curve-IsReadable}
use gocoin.Examples.Orders.{less}
use gocoin.Examples.Blocks.{services, head, reports}
use gocoin.Examples.Groups.{Log, group, outside}
use gocoin.Examples.Store.{store}
use gocoin.Chain.Insert.{Verifier, block_siger_verifier}
use gocoin.Chain.Tx.{Block, uint64}
use gocoin.Chain.Votes.{
  Bls, Accepted, Voting, on_sig_info, set_last_block, SigInfo, on_vote, tally, tally_hash,
  count_votes, signs_for, voted_hashes, add_vote, set_signer,
}
use gocoin.Chain.Votes.Proposed.Turn.{Submitted, prepare_turn-submit_block}
use gocoin.Chain.Votes.Proposed.Rounds.{prepare_turn, submit_block}
use gocoin.Chain.Votes.Proposed.Reached.{IsChecked}
use gocoin.Chain.Votes.Proposed.{
  runs, Member, Clock, on_last_block, runs, put_to_vote, on_signed_block, on_own_turn,
}
use gocoin.Chain.Votes.Proposed.Imported.{bls_of, verifier_of, steps-block_siger_verifier}

-- The node 2, in a group where one signature is enough.
abbrev signers : BlsGroup ℕ ℕ ℕ
signers = record (group_at 2) { k = 1; n = 1; sec = 6 }

abbrev clock : Clock BlsSign
clock = record {
  less = less;
  hashes = record { of_block = λ n h. n; of_coin = λ c t b. c };
  is_near = λ percent n. true;
  is_positive = λ percent. true;
  sign_hash = λ hash. record { id = 2 ∷ []; sign = 6 ∷ [] };
  now = 100;
}

abbrev percent_less : Bytes → Bytes → Bool
percent_less a b = false

abbrev bls : Bls BlsSign
bls = bls_of curve signers percent_less

-- Two rounds may find two groups: the second one has another secret.
abbrev groups : Bool → BlsGroup ℕ ℕ ℕ
groups true = signers
groups false = record signers { sec = 7 }

abbrev rounds : Bool → Bls BlsSign
rounds g = bls_of curve (groups g) percent_less

abbrev clocks : Bool → Clock BlsSign
clocks g = clock

abbrev verifier : Verifier
verifier = verifier_of curve (λ h. h.number) (λ hash sign. some 1)

-- The next block, without transactions, which the node 1 signed.
abbrev next : Block
next = record head {
  header = record (head.header) {
    uncle_hash = 4;
    number = 5;
    pk = 2 ∷ 5 ∷ [];
    sign = 9 ∷ [];
    space_root = 65;
    acc_root = 65;
  };
}

abbrev w0 : Member Log BlsSign
w0 = record {
  voting = record {
    sender = 2;
    threshold = 1000;
    sig_blocks = [];
    sig_infos = [];
    coefficient_reset = true;
    block_hashs = [];
    last_blocks = [];
    validate_group = record group { number = 0; consensus_members = 1 ∷ 2 ∷ 3 ∷ [] };
  };
  coefficient_max = [];
  block_vrf = none;
  receive_block_is_true = false;
  block_is_true = false;
  fixed = false;
  fixed_address = 0;
  coefficient = 0;
  sort_index = 0;
  offered = [];
  sent = [];
  pending = [];
  loop = runs;
}

abbrev w1 : Member Log BlsSign
w1 = record w0 {
  voting = record (w0.voting) { block_hashs = 5 ∷ []; last_blocks = (5, next) ∷ [] };
}

abbrev vote : SigInfo BlsSign
vote = record {
  block_hash = 5;
  time = 100;
  sender = 2;
  percent = [];
  preknown_sig = some (record { id = 2 ∷ []; sign = 6 ∷ [] });
}

abbrev w2 : Member Log BlsSign
w2 = record w1 {
  voting = record (w1.voting) {
    threshold = 1;
    last_blocks = [];
    coefficient_reset = false;
    sig_blocks = (5, next) ∷ [];
    sig_infos = (2, vote) ∷ [];
  };
  block_vrf = some (record {
    group_id = 0;
    address = 2;
    group_address = 1 ∷ 2 ∷ 3 ∷ [];
    coin_validate_info = [];
  });
  receive_block_is_true = true;
  sent = vote ∷ [];
  pending = vote ∷ [];
}

abbrev signed : Block
signed = record next { header = record (next.header) { sign = 6 ∷ [] } }

abbrev voted : Voting Log BlsSign
voted = record (w2.voting) { sig_blocks = []; sig_infos = []; coefficient_reset = true }

abbrev w3 : Member Log BlsSign
w3 = record w2 { voting = voted; pending = [] }

abbrev LoopSteps : Member Log BlsSign → Accepted × Member Log BlsSign → Type 0
LoopSteps = WorkerSteps store services verifier rounds clocks

received : WorkerStep store services verifier rounds clocks w0 ([], w1)
unfolding set_last_block elem
received = receive_block 5 next w0

proposed :
    on_last_block store services verifier bls clock reports outside
      (some head)
      5
      next
      (record w1 { voting = record (w1.voting) { last_blocks = [] } })
    ≡ ok w2
unfolding on_last_block on_signed_block on_own_turn put_to_vote new_vrf sort_addresses sort_by_hex
    partition scan_up scan_down swap validate_turn sort_index_from shift_left select_consensus
    validate_block validate_txs new_state commit_state space_finalise account_finalise
    finalise_spaces finalise_accounts elem insert lookup uint64
proposed = refl

counted : on_sig_info bls outside vote w2.voting ≡ ok ((5, signed) ∷ [], voted)
unfolding on_sig_info on_vote select_consensus tally tally_hash count_votes signs_for voted_hashes
    add_vote set_signer insert lookup mark elem verigy read_signs
counted = refl

accepted : LoopSteps w0 ((5, signed) ∷ [], w3)
accepted = go received (
    go (block_step true reports outside (some head) 5 next [] w1 w2 refl refl proposed)
      (go (vote_step true outside vote [] w2 ((5, signed) ∷ []) voted refl refl counted) (stay w3)))

w0-IsChecked : IsChecked store services verifier w0.voting
unfolding IsChecked lookup
w0-IsChecked hash block e = cc

steps-IsGood_example : IsGood store services verifier rounds (5, signed)
steps-IsGood_example =
    steps-IsGood store services verifier rounds clocks accepted w0-IsChecked 0 (5, signed) refl

steps-block_siger_verifier_example :
    (block_siger_verifier verifier signed ≡ ok true)
    ⊎ ((block : Block) × (sig : Bytes) × (signed ≡ set_signer sig block)
        × WasBuilt store services verifier 5 block)
    ⊎ ((g : Bool) × (signed.header.pk ≢ 2 ∷ pub_key_of curve (groups g))
        × (signs : List BlsSign) × (verigy curve (groups g) signs (hash_bytes 5)
            ≡ (true, signed.header.sign)))
steps-block_siger_verifier_example =
    steps-block_siger_verifier curve store services clocks groups curve-IsReadable (λ h. h.number)
      (λ hash sign. some 1) percent_less w0 ((5, signed) ∷ [], w3) (λ h s. refl) (λ s e. cc) refl
      accepted 0 (5, signed) refl

-- The turn of the node 2 in the committee of three.
abbrev member_or : Member Log BlsSign → Result (Member Log BlsSign) → Member Log BlsSign
member_or w (ok w') = w'
member_or w (panic fault) = w

abbrev prepared : Member Log BlsSign
prepared = member_or w0 (prepare_turn services clock outside head w0)

prepared_ok : prepare_turn services clock outside head w0 ≡ ok prepared
unfolding prepare_turn new_vrf sort_addresses sort_by_hex partition scan_up scan_down swap
    validate_turn sort_index_from shift_left select_consensus elem
prepared_ok = refl

prepare_turn-submit_block_example :
    (r : Accepted × Member Log BlsSign) × (submit_block services clock head next prepared ≡ ok r)
    × Submitted services clock next prepared r
prepare_turn-submit_block_example =
    prepare_turn-submit_block services clock outside head next w0 prepared prepared_ok
