-- ===== src/Group/Store.antt =====
-- How the groups are kept in the database (libraries/chain/validategroup/validategroup.go). The
-- database and the RLP codec are parameters.
use gocoin.Common.{Bool, Bytes, List, Option, [], false, length, none, some, true, ℕ, ℤ, ◌∷◌}

-- `GroupMember`; the time is a big integer.
pub record GroupMember : Type 0 where
  pub address : ℕ
  pub time : ℤ

abbrev pub GroupMembers : Type 0
GroupMembers = List GroupMember

-- The keys that the package uses: its nine fixed ones, and a hash.
pub data DbKey : Type 0 where
  group_members_key threshold_members_key coin_members_key coingroup_members_key : DbKey
  threshold_coin_members_key transaction_members_key new_tx_members_key : DbKey
  threshold_tx_members_key stell_members_key : DbKey
  const_key : ℕ → DbKey

-- `lvldb.Database` and `rlp`, for the type `D` of the database's states. `get` gives no bytes for a
-- missing key; `put` and `delete` say whether their error is non-nil.
pub record Database (D : Type 0) : Type 0 where
  pub get : D → DbKey → Bytes
  pub put : D → DbKey → Bytes → D × Bool
  pub delete : D → DbKey → D × Bool
  pub encode : GroupMembers → Option Bytes
  pub decode : Bytes → Option GroupMembers

module _ {D : Type 0} (b : Database D) where
  abbrev decoded : Bytes → Bool × ℕ × GroupMembers
  decoded [] = (false, 0, [])
  decoded (c ∷ cs) = elim (b.decode (c ∷ cs)) [
    | none ↦ (true, 0, [])
    | some members ↦ (false, length members, members)
  ]

  -- The common text of the nine getters: whether there is an error, the size, and the members.
  abbrev pub get_at : DbKey → D → Bool × ℕ × GroupMembers
  get_at k db = decoded (b.get db k)

  -- The common text of the writers.
  abbrev pub write_at : DbKey → GroupMembers → D → Bool × D
  write_at k members db = elim (b.encode members) [
    | none ↦ (true, db)
    | some enc ↦ let (db', err) = b.put db k enc in (err, db')
  ]

  unfoldable pub get_group_const : ℕ → D → Bool × ℕ × GroupMembers
  get_group_const hash = get_at (const_key hash)

  unfoldable pub write_group_const : ℕ → GroupMembers → D → Bool × D
  write_group_const hash = write_at (const_key hash)

  unfoldable pub get_validate_group : D → Bool × ℕ × GroupMembers
  get_validate_group = get_at group_members_key

  unfoldable pub write_validate_group : GroupMembers → D → Bool × D
  write_validate_group = write_at group_members_key

  unfoldable pub delete_validate_group : D → D × Bool
  delete_validate_group db = b.delete db group_members_key

  unfoldable pub get_coin_validate_group : D → Bool × ℕ × GroupMembers
  get_coin_validate_group = get_at coingroup_members_key

  unfoldable pub write_coin_validate_group : GroupMembers → D → Bool × D
  write_coin_validate_group = write_at coingroup_members_key

  unfoldable pub delete_coin_validate_group : D → D × Bool
  delete_coin_validate_group db = b.delete db coingroup_members_key

  unfoldable pub get_threshold_coin_group : D → Bool × ℕ × GroupMembers
  get_threshold_coin_group = get_at threshold_coin_members_key

  unfoldable pub write_threshold_coin_group : GroupMembers → D → Bool × D
  write_threshold_coin_group = write_at threshold_coin_members_key

  unfoldable pub get_threshold_group : D → Bool × ℕ × GroupMembers
  get_threshold_group = get_at threshold_members_key

  unfoldable pub write_threshold_group : GroupMembers → D → Bool × D
  write_threshold_group = write_at threshold_members_key

  unfoldable pub get_stell_group : D → Bool × ℕ × GroupMembers
  get_stell_group = get_at stell_members_key

  unfoldable pub write_stell_group : GroupMembers → D → Bool × D
  write_stell_group = write_at stell_members_key

  unfoldable pub get_coin_group : D → Bool × ℕ × GroupMembers
  get_coin_group = get_at coin_members_key

  unfoldable pub write_coin_group : GroupMembers → D → Bool × D
  write_coin_group = write_at coin_members_key

  unfoldable pub get_transaction_group : D → Bool × ℕ × GroupMembers
  get_transaction_group = get_at transaction_members_key

  unfoldable pub write_transaction_group : GroupMembers → D → Bool × D
  write_transaction_group = write_at transaction_members_key

  unfoldable pub get_new_tx_members : D → Bool × ℕ × GroupMembers
  get_new_tx_members = get_at new_tx_members_key

  unfoldable pub write_new_tx_members : GroupMembers → D → Bool × D
  write_new_tx_members = write_at new_tx_members_key

  unfoldable pub delete_new_tx_members : D → D × Bool
  delete_new_tx_members db = b.delete db new_tx_members_key

  unfoldable pub get_threshold_tx_members : D → Bool × ℕ × GroupMembers
  get_threshold_tx_members = get_at threshold_tx_members_key

  unfoldable pub write_threshold_tx_members : GroupMembers → D → Bool × D
  write_threshold_tx_members = write_at threshold_tx_members_key

  unfoldable pub delete_threshold_tx_members : D → D × Bool
  delete_threshold_tx_members db = b.delete db threshold_tx_members_key
