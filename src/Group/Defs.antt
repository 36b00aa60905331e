-- ===== src/Group/Defs.antt =====
-- `ValidateGroup` (libraries/chain/validategroup/validategroup.go): the members of the consensus
-- groups, those that wait to become members, and the committees that were drawn.
use gocoin.Group.Store.{
  GroupMember, GroupMembers, Database, write_validate_group, write_coin_validate_group,
  write_new_tx_members, write_stell_group,
}
use gocoin.Common.{
  Bool, Bytes, List, Option, [], false, if◌then◌else◌, ltb_ℤ, none, some, ℕ, ◌++◌, ◌==◌, ◌||◌, ◌∷◌,
}

pub record ValidateGroup (D : Type 0) : Type 0 where
  pub group_size : ℕ
  pub number : ℕ
  pub no_validate : Bool
  pub groupmembers : GroupMembers
  pub newgroupmembers : GroupMembers
  pub thresholdgroupmembers : GroupMembers
  pub consensus_members : List ℕ
  pub consensus_address : List ℕ
  pub members_address : List ℕ
  pub coingroupmembers : GroupMembers
  pub newcoingroupmembers : GroupMembers
  pub thresholdcoingroupmembers : GroupMembers
  pub validate_members : List ℕ
  pub validate_address : List ℕ
  pub coin_addresses : List ℕ
  pub transactiongroupmembers : GroupMembers
  pub newtxgroupmembers : GroupMembers
  pub thresholdtxgroupmembers : GroupMembers
  pub consensus_tx_members : List ℕ
  pub consensus_tx_address : List ℕ
  pub transaction_addresses : List ℕ
  pub stellgroupmembers : GroupMembers
  pub stell_addresses : List ℕ
  pub group_db : D

-- What the package takes from elsewhere: the hashes, and `sort.Sort` by time.
pub record Externals : Type 0 where
  pub keccak : Bytes → Bytes
  pub hash_members : GroupMembers → ℕ
  pub hash_address : ℕ → ℕ
  pub sort_by_time : GroupMembers → GroupMembers

abbrev pub validate_limit : ℕ
validate_limit = 10

abbrev pub block_number_limet : ℕ
block_number_limet = 10

-- A key of a Go map of type `map[common.Address]struct{}`, and adding one.
unfoldable pub has : ℕ → List ℕ → Bool
has a [] = false
has a (x ∷ xs) = a == x || has a xs

unfoldable pub include : ℕ → List ℕ → List ℕ
unfolding has
include a l = if has a l then l else a ∷ l

-- The addresses of members, added to a set.
unfoldable pub include_all : GroupMembers → List ℕ → List ℕ
unfolding include
include_all [] l = l
include_all (m ∷ ms) l = include_all ms (include m.address l)

abbrev pub last? : GroupMembers → Option GroupMember
last? [] = none
last? (m ∷ []) = some m
last? (m ∷ m' ∷ ms) = last? (m' ∷ ms)

-- The list with the member appended, if it is later than the last one.
unfoldable pub append_later : GroupMember → GroupMembers → Option GroupMembers
append_later m ms = elim (last? ms) [
  | none ↦ some (ms ++ (m ∷ []))
  | some last ↦ if ltb_ℤ last.time m.time then some (ms ++ (m ∷ [])) else none
]

module _ {D : Type 0} (b : Database D) where
  -- `Add`
  unfoldable pub add : GroupMember → ValidateGroup D → ValidateGroup D
  unfolding append_later include
  add m vg =
      if has m.address vg.members_address then vg else elim (append_later m vg.newgroupmembers) [
        | none ↦ record vg { members_address = include m.address vg.members_address }
        | some ms ↦ record vg {
          members_address = include m.address vg.members_address;
          newgroupmembers = ms;
          group_db = (write_validate_group b ms vg.group_db).1;
        }
      ]

  -- `AddStell`
  unfoldable pub add_stell : GroupMember → ValidateGroup D → ValidateGroup D
  unfolding append_later include
  add_stell m vg =
      if has m.address vg.stell_addresses then vg else elim (append_later m vg.stellgroupmembers) [
        | none ↦ record vg { stell_addresses = include m.address vg.stell_addresses }
        | some ms ↦ record vg {
          stell_addresses = include m.address vg.stell_addresses;
          stellgroupmembers = ms;
          group_db = (write_stell_group b ms vg.group_db).1;
        }
      ]

  -- `AddCoin`
  unfoldable pub add_coin : GroupMember → ValidateGroup D → ValidateGroup D
  unfolding append_later include
  add_coin m vg =
      if has m.address vg.coin_addresses then vg else elim (append_later m vg.newcoingroupmembers) [
        | none ↦ record vg { coin_addresses = include m.address vg.coin_addresses }
        | some ms ↦ record vg {
          coin_addresses = include m.address vg.coin_addresses;
          newcoingroupmembers = ms;
          group_db = (write_coin_validate_group b ms vg.group_db).1;
        }
      ]

  -- `AddTransaction`
  unfoldable pub add_transaction : GroupMember → ValidateGroup D → ValidateGroup D
  unfolding append_later include
  add_transaction m vg =
      if has m.address vg.transaction_addresses
      then vg
      else elim (append_later m vg.newtxgroupmembers) [
        | none ↦ record vg { transaction_addresses = include m.address vg.transaction_addresses }
        | some ms ↦ record vg {
          transaction_addresses = include m.address vg.transaction_addresses;
          newtxgroupmembers = ms;
          group_db = (write_new_tx_members b ms vg.group_db).1;
        }
      ]
