-- ===== src/State/Space.antt =====
-- Spaces: libraries/chain/space/state/space_object.go. Space ids are non-negative big integers.
use gocoin.Common.{
  Bool, List, Option, [], false, if◌then◌else◌, none, pos, some, true, zero, ℕ, ℤ, ◌%◌, ◌&&◌, ◌++◌,
  ◌+◌, ◌==◌, ◌^◌, ◌∷◌,
}

-- `Space`, as it is encoded in the trie; `nonce` is a uint64, and a nil balance is `none`.
pub record Space : Type 0 where
  pub nonce : ℕ
  pub balance : Option ℤ
  pub bind_addr : List ℕ

-- `spaceObject`, with `on_dirty` as in an account object.
pub record SpaceObject : Type 0 where
  pub id : ℕ
  pub nonce : ℕ
  pub balance : ℤ
  pub bind_addr : List ℕ
  pub on_dirty : Bool

abbrev or_zero : Option ℤ → ℤ
or_zero none = pos 0
or_zero (some x) = x

unfoldable pub new_space_object : ℕ → Space → SpaceObject
new_space_object id sp = record {
  id = id;
  nonce = sp.nonce;
  balance = or_zero sp.balance;
  bind_addr = sp.bind_addr;
  on_dirty = true;
}

-- The value that `EncodeRLP` hands to the encoder.
unfoldable pub space_of : SpaceObject → Space
space_of o = record { nonce = o.nonce; balance = some o.balance; bind_addr = o.bind_addr }

abbrev is_empty_list : List ℕ → Bool
is_empty_list [] = true
is_empty_list (x ∷ xs) = false

abbrev is_zero : ℤ → Bool
is_zero (pos zero) = true
is_zero _ = false

-- `empty`
unfoldable pub space_empty : SpaceObject → Bool
space_empty o = o.nonce == 0 && is_zero o.balance && is_empty_list o.bind_addr

-- `setBalance` counts the nonce up, modulo 2^64.
unfoldable pub set_balance : ℤ → SpaceObject → SpaceObject
set_balance x o = record o { balance = x; nonce = (o.nonce + 1) % 2 ^ 64 }

unfoldable pub append_address : ℕ → SpaceObject → SpaceObject
append_address a o = record o { bind_addr = o.bind_addr ++ (a ∷ []) }

-- The loop of `RemoveAddress`, which drops every occurrence.
unfoldable pub without : ℕ → List ℕ → List ℕ
without a [] = []
without a (x ∷ xs) = if x == a then without a xs else x ∷ without a xs

unfoldable pub remove_address : ℕ → SpaceObject → SpaceObject
unfolding without
remove_address a o = record o { bind_addr = without a o.bind_addr }
