-- ===== src/Chain/Vrf.antt =====
-- The order of the proposers and the assignment of coins: libraries/chain/vrf/vrf.go. The hashes
-- are parameters.
pub mod Turns
pub mod Coins
pub mod Sort
use gocoin.Common.{
  Bool, Dict, List, Result, [], division_by_zero, false, get_elem?, if◌then◌else◌,
  index_out_of_range, insert, leb, length, lookup, ltb, none, ok, panic, some, suc, true, zero, ℕ,
  ◌%◌, ◌&&◌, ◌*◌, ◌+◌, ◌-◌, ◌==◌, ◌^◌, ◌∷◌, ◌>>=◌, nat_eq,
}

-- `Vrf`; the addresses of the group are in the order that `SortAddresses` gave them.
pub record Vrf : Type 0 where
  pub group_id : ℕ
  pub address : ℕ
  pub group_address : List ℕ
  pub coin_validate_info : Dict ℕ ℕ

-- `rlpHash` of what `ValidateBlock` and `ValidateCoin` list.
pub record Hashes : Type 0 where
  pub of_block : ℕ → ℕ → ℕ
  pub of_coin : ℕ → ℕ → ℕ → ℕ

-- The loop of `ValidateBlock`, from the position `i` on, with what it found so far.
unfoldable pub sort_index_from : ℕ → List ℕ → ℕ → ℕ → ℕ → ℕ → ℕ
sort_index_from i [] address index n found = found
sort_index_from i (addr ∷ addrs) address index n found =
    sort_index_from (i + 1) addrs address index n
      (if addr == address then (if ltb i index then n - index + i else i - index) else found)

-- `sum << 1`, `k` times.
unfoldable pub shift_left : ℕ → ℕ → ℕ
shift_left zero sum = sum
shift_left (suc k) sum = shift_left k (sum * 2)

-- `big.Int.Mod` by the size of the group.
abbrev pub group_index : ℕ → List ℕ → Result ℕ
group_index hash addrs =
    if length addrs == 0 then panic division_by_zero else ok (hash % length addrs)

-- The variables of the loop of `ValidateCoin`.
pub record CoinRun : Type 0 where
  pub continuity : ℕ
  pub oldcid : ℕ
  pub add_flag : Bool
  pub addr : ℕ
  pub info : Dict ℕ ℕ

-- Whether a coin goes on with the run of the last one.
abbrev pub goes_on : ℕ → ℕ → CoinRun → Bool
goes_on limit cid r =
    ltb 0 r.oldcid && (r.oldcid + 1) % 2 ^ 64 == cid && leb (r.continuity + 1) limit

-- The continuity after a coin: back to 0 at the end of a long run.
abbrev pub next_continuity : ℕ → ℕ → CoinRun → ℕ
next_continuity limit cid r =
    if ltb 0 r.oldcid && (r.oldcid + 1) % 2 ^ 64 == cid
    then (if leb (r.continuity + 1) limit then r.continuity + 1 else 0)
    else r.continuity

-- The variables after a coin.
abbrev pub next_run : Vrf → ℕ → ℕ → ℕ → CoinRun → CoinRun
next_run f limit cid addr r = record {
  continuity = next_continuity limit cid r;
  oldcid = cid;
  add_flag = if goes_on limit cid r then r.add_flag else addr == f.address;
  addr = addr;
  info = insert cid addr r.info;
}

abbrev pub coin_start : CoinRun
coin_start = record { continuity = 0; oldcid = 0; add_flag = false; addr = 0; info = [] }

module _ (x : Hashes) where
  -- `ValidateBlock`: the divisor of the coefficient, which is one over it, and the index.
  unfoldable pub validate_turn : ℕ → ℕ → ℕ → Vrf → Result (ℕ × ℕ)
  unfolding sort_index_from shift_left
  validate_turn number blockhash address f = do
    index ← group_index (x.of_block number blockhash) f.group_address
    let sort_index = sort_index_from 0 f.group_address address index (length f.group_address) 0
    let capped = if ltb 10 sort_index then 10 else sort_index
    ok (shift_left capped 1, capped)

  -- `validateAddress`
  unfoldable pub validate_address : ℕ → Vrf → Result ℕ
  validate_address hash f = do
    index ← group_index hash f.group_address
    elim (get_elem? f.group_address index) [ none ↦ panic index_out_of_range | some addr ↦ ok addr ]

  -- `multiplevalidateAddress`, for a number of times that is not negative.
  unfoldable pub multiple_validate_address : ℕ → ℕ → Vrf → Result ℕ
  multiple_validate_address times hash f = do
    base ← group_index hash f.group_address
    let n = length f.group_address
    let index = base + times
    elim (get_elem? f.group_address (if leb n index then index - n else index)) [
      | none ↦ panic index_out_of_range
      | some addr ↦ ok addr
    ]

  -- Who validates a coin.
  abbrev pub coin_address : ℕ → ℕ → Vrf → ℕ → CoinRun → Result ℕ
  coin_address txhash blockhash f cid r =
      if goes_on 4 cid r then ok r.addr else validate_address (x.of_coin cid txhash blockhash) f

  -- The loop of `ValidateCoin`: the coins of the node, and what is known of all.
  unfoldable pub validate_coins : ℕ → ℕ → Vrf → List ℕ → CoinRun → Result (List ℕ × Dict ℕ ℕ)
  unfolding validate_address
  validate_coins txhash blockhash f [] r = ok ([], r.info)
  validate_coins txhash blockhash f (cid ∷ cids) r = do
    addr ← coin_address txhash blockhash f cid r
    (rest, info) ← validate_coins txhash blockhash f cids (next_run f 4 cid addr r)
    ok (if (next_run f 4 cid addr r).add_flag then cid ∷ rest else rest, info)

  -- `ValidateCoin`, which first empties what is known.
  unfoldable pub validate_coin : List ℕ → ℕ → ℕ → Vrf → Result (List ℕ × Vrf)
  unfolding validate_coins
  validate_coin cids txhash blockhash f = do
    (mine, info) ← validate_coins txhash blockhash f cids coin_start
    ok (mine, record f { coin_validate_info = info })

  -- The loop of `MultipleValidateCoin`, without what is known.
  unfoldable pub multiple_validate_coins : ℕ → ℕ → ℕ → Vrf → List ℕ → CoinRun → Result (List ℕ)
  unfolding multiple_validate_address
  multiple_validate_coins times txhash blockhash f [] r = ok []
  multiple_validate_coins times txhash blockhash f (cid ∷ cids) r = do
    addr ←
        if goes_on 5 cid r
        then ok r.addr
        else multiple_validate_address times (x.of_coin cid txhash blockhash) f
    rest ← multiple_validate_coins times txhash blockhash f cids (next_run f 5 cid addr r)
    ok (if (next_run f 5 cid addr r).add_flag then cid ∷ rest else rest)

  unfoldable pub multiple_validate_coin : ℕ → List ℕ → ℕ → ℕ → Vrf → Result (List ℕ)
  unfolding multiple_validate_coins
  multiple_validate_coin times cids txhash blockhash f =
      multiple_validate_coins times txhash blockhash f cids coin_start

-- The loop of `CheckValidateCoin`.
unfoldable pub check_each : List ℕ → ℕ → Dict ℕ ℕ → Bool
check_each [] addr info = true
check_each (cid ∷ cids) addr info = elim (lookup cid info) [
  | none ↦ false
  | some known ↦ known == addr && check_each cids addr info
]

-- `CheckValidateCoin`
unfoldable pub check_validate_coin : List ℕ → ℕ → Vrf → Bool
unfolding check_each
check_validate_coin [] addr f = false
check_validate_coin (cid ∷ cids) addr f = check_each (cid ∷ cids) addr f.coin_validate_info
