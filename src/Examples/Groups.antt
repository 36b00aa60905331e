-- ===== src/Examples/Groups.antt =====
-- The consensus groups at concrete inputs.
use gocoin.Group.Store.{GroupMember, GroupMembers, Database, DbKey}
use gocoin.Group.Defs.{ValidateGroup, Externals, has}
use gocoin.Group.Rand.{rand_from_bytes, random_perm}
use gocoin.Group.Rand.Perm.{random_perm-ok, count}
use gocoin.Group.Select.{select_members, addresses}
use gocoin.Group.Select.Committee.{select_members-ok, IsDrawnFrom}
use gocoin.Group.Members.{IsRoll}
use gocoin.Chain.Apply.{next_epoch, Event}
use gocoin.Chain.Apply.Epoch.{next_epoch-ok, IsQuorate}
use gocoin.Common.{
  Bytes, List, [], arith, false, if◌then◌else◌, length, ltb, none, ok, pos, some, ℕ, ◌∷◌, ◌≡◌, ◌≤◌,
}

abbrev pub Log : Type 0
Log = List (DbKey × Bytes)

-- A database that only records what is written.
abbrev pub log : Database Log
log = record {
  get = λ db k. [];
  put = λ db k v. ((k, v) ∷ db, false);
  delete = λ db k. ((k, []) ∷ db, false);
  encode = λ ms. some (length ms ∷ []);
  decode = λ v. none;
}

abbrev pub outside : Externals
outside = record {
  keccak = λ bytes. 9 ∷ bytes;
  hash_members = λ ms. length ms;
  hash_address = λ a. a;
  sort_by_time = λ ms. ms;
}

abbrev member : ℕ → GroupMember
member n = record { address = n; time = pos n }

abbrev three : GroupMembers
three = member 1 ∷ member 2 ∷ member 3 ∷ []

-- Three threshold members, and one that waits.
abbrev pub group : ValidateGroup Log
group = record {
  group_size = 10;
  number = 0;
  no_validate = false;
  groupmembers = [];
  newgroupmembers = member 4 ∷ [];
  thresholdgroupmembers = three;
  consensus_members = [];
  consensus_address = [];
  members_address = 1 ∷ 2 ∷ 3 ∷ 4 ∷ [];
  coingroupmembers = [];
  newcoingroupmembers = [];
  thresholdcoingroupmembers = three;
  validate_members = [];
  validate_address = [];
  coin_addresses = [];
  transactiongroupmembers = [];
  newtxgroupmembers = [];
  thresholdtxgroupmembers = [];
  consensus_tx_members = [];
  consensus_tx_address = [];
  transaction_addresses = [];
  stellgroupmembers = [];
  stell_addresses = [];
  group_db = [];
}

random_perm-ok_example :
    (l : List ℕ) × (random_perm outside.keccak (rand_from_bytes outside.keccak (7 ∷ [])) 12 10
      ≡ ok l)
    × (length l ≡ 10)
    × ((a : ℕ) → count a l ≤ (if ltb a 12 then 1 else 0))
random_perm-ok_example =
    random_perm-ok outside.keccak (rand_from_bytes outside.keccak (7 ∷ [])) 12 10 (omega arith)

select_members-ok_example :
    (c : List ℕ) × (select_members outside 0 three ≡ ok c) × (length c ≡ 3) × IsDrawnFrom three c
select_members-ok_example = select_members-ok outside 0 three

group-IsRoll : IsRoll group
unfolding count addresses has
group-IsRoll = record { once = λ a. ground arith; known = λ a p. ground arith }

next_epoch-ok_example :
    (es : List Event) × (vg' : ValidateGroup Log) × (next_epoch log outside 3 77 group
      ≡ ok (es, vg'))
    × IsQuorate es
next_epoch-ok_example = next_epoch-ok log outside 3 77 group
