-- ===== src/Group/Select.antt =====
-- The committees that are drawn from the groups
-- (libraries/chain/validategroup/validategroup.go). Addresses are numbers, and a set of
-- addresses is a list.
pub mod Committee
use gocoin.Group.Rand.{random_perm, rand_from_bytes}
use gocoin.Group.Store.{GroupMembers}
use gocoin.Group.Defs.{Externals, include, validate_limit, ValidateGroup, block_number_limet}
use gocoin.Common.{
  Bytes, List, Option, Result, [], get_elem?, if◌then◌else◌, index_out_of_range, length, ltb, none,
  ok, panic, some, ℕ, ◌%◌, ◌&&◌, ◌+◌, ◌/◌, ◌==◌, ◌^◌, ◌∷◌, ◌>>=◌,
}

unfoldable pub addresses : GroupMembers → List ℕ
addresses [] = []
addresses (m ∷ ms) = m.address ∷ addresses ms

-- The set of the addresses of a committee.
unfoldable pub address_set : List ℕ → List ℕ
address_set [] = []
address_set (a ∷ rest) = include a (address_set rest)

-- `encodeBlockNumber`: eight bytes, the highest first.
unfoldable pub encode_block_number : ℕ → Bytes
encode_block_number n =
    n / 2 ^ 56 % 256
    ∷ n / 2 ^ 48 % 256
    ∷ n / 2 ^ 40 % 256
    ∷ n / 2 ^ 32 % 256
    ∷ n / 2 ^ 24 % 256
    ∷ n / 2 ^ 16 % 256
    ∷ n / 2 ^ 8 % 256
    ∷ n % 256
    ∷ []

-- The members at the indices that were drawn.
unfoldable pub pick : GroupMembers → List ℕ → Result (List ℕ)
pick ms [] = ok []
pick ms (i ∷ rest) = elim (get_elem? ms i) [
  | none ↦ panic index_out_of_range
  | some m ↦ do chosen ← pick ms rest; ok (m.address ∷ chosen)
]

-- The committee that is used again: the one of an earlier call in the epoch `number`.
abbrev cached : ℕ → ℕ → List ℕ → Option (List ℕ)
cached epoch number [] = none
cached epoch number (a ∷ rest) = if number == epoch then some (a ∷ rest) else none

module _ (x : Externals) where
  -- The committee for an epoch from a group of `validate_limit` members or more.
  unfoldable pub draw : ℕ → GroupMembers → Result (List ℕ)
  unfolding encode_block_number pick
  draw epoch ms = do
    indices ←
        random_perm x.keccak (rand_from_bytes x.keccak (encode_block_number epoch)) (length ms)
          validate_limit
    pick ms indices

  -- The common text of the three `Select...Thresholds`.
  unfoldable pub select_threshold_members : ℕ → GroupMembers → Result (List ℕ)
  unfolding draw addresses
  select_threshold_members number ms =
      if ltb 0 (length ms) && ltb (length ms) validate_limit
      then ok (addresses ms)
      else draw ((number / block_number_limet + 1) % 2 ^ 64) ms

  -- The common text of the three other selections, once the cached committee is not used.
  unfoldable pub select_members : ℕ → GroupMembers → Result (List ℕ)
  unfolding draw addresses
  select_members epoch ms =
      if ltb 0 (length ms)
      then (if ltb (length ms) validate_limit then ok (addresses ms) else draw epoch ms)
      else ok []

  module _ {D : Type 0} where
    -- `SelectThresholds`
    unfoldable pub select_thresholds : ℕ → ValidateGroup D → Result (List ℕ)
    select_thresholds number vg = select_threshold_members number vg.thresholdgroupmembers

    -- `SelectCoinThresholds`
    unfoldable pub select_coin_thresholds : ℕ → ValidateGroup D → Result (List ℕ)
    select_coin_thresholds number vg = select_threshold_members number vg.thresholdcoingroupmembers

    -- `SelectTxThresholds`
    unfoldable pub select_tx_thresholds : ℕ → ValidateGroup D → Result (List ℕ)
    select_tx_thresholds number vg = select_threshold_members number vg.thresholdtxgroupmembers

    -- `SelectConsensus`: the committee, and the group that caches it.
    unfoldable pub select_consensus : ℕ → ValidateGroup D → Result (List ℕ × ValidateGroup D)
    unfolding address_set
    select_consensus number vg =
        elim (cached (number / block_number_limet) vg.number vg.consensus_members) [
          | some committee ↦ ok (committee, vg)
          | none ↦ do
            committee ← select_members (number / block_number_limet) vg.groupmembers
            ok (
              committee,
              record vg {
                consensus_members = committee;
                consensus_address = address_set committee;
              },
            )
        ]

    -- `SelectValidate`
    unfoldable pub select_validate : ℕ → ValidateGroup D → Result (List ℕ × ValidateGroup D)
    unfolding address_set
    select_validate number vg =
        elim (cached (number / block_number_limet) vg.number vg.validate_members) [
          | some committee ↦ ok (committee, vg)
          | none ↦ do
            committee ← select_members (number / block_number_limet) vg.coingroupmembers
            ok (
              committee,
              record vg { validate_members = committee; validate_address = address_set committee },
            )
        ]

    -- `SelectTxConsensus`
    unfoldable pub select_tx_consensus : ℕ → ValidateGroup D → Result (List ℕ × ValidateGroup D)
    unfolding address_set
    select_tx_consensus number vg =
        elim (cached (number / block_number_limet) vg.number vg.consensus_tx_members) [
          | some committee ↦ ok (committee, vg)
          | none ↦ do
            committee ← select_members (number / block_number_limet) vg.transactiongroupmembers
            ok (
              committee,
              record vg {
                consensus_tx_members = committee;
                consensus_tx_address = address_set committee;
              },
            )
        ]
