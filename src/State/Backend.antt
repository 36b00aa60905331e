-- ===== src/State/Backend.antt =====
-- What the ledger state calls outside its own package: the `Trie` and `Database` interfaces of
-- libraries/chain/space/state/database.go, and the RLP codec. A trie is keyed by the number that
-- its byte key stands for.
use gocoin.Common.{
  Bool, Bytes, Option, [], false, if◌then◌else◌, none, pos, some, ℕ, ◌==◌, ◌↔◌, ◌≡◌, ◌≢◌, ◌≤ℤ◌,
}
use gocoin.State.Account.{Account, AccountObject, account_of}
use gocoin.State.Space.{Space, SpaceObject, space_of}

-- A call that can fail returns its value beside a flag that says whether the error is non-nil. An
-- encoder that fails returns `none`, and so does a decoder. The order in which a node ranges over the
-- attributes of an account is part of its encoder.
pub record Backend (T : Type 0) : Type 0 where
  pub open_trie : ℕ → Option T
  pub try_get : T → ℕ → Bytes × Bool
  pub try_update : T → ℕ → Bytes → T × Bool
  pub try_delete : T → ℕ → T × Bool
  pub commit_to : T → ℕ × Bool
  pub encode_account : Account → Option Bytes
  pub decode_account : Bytes → Option Account
  pub encode_space : Space → Option Bytes
  pub decode_space : Bytes → Option Space

-- What a trie whose nodes are all present promises of one update: a key that was written reads
-- back, a deleted one reads as nothing, the other keys are left alone, and no call fails.
pub record IsTrie {T : Type 0} (b : Backend T) : Type 0 where
  pub get-update :
      (t : T) (j k : ℕ) (v : Bytes)
      → b.try_get (b.try_update t k v).0 j ≡ (if j == k then (v, false) else b.try_get t j)
  pub get-delete :
      (t : T) (j k : ℕ)
      → b.try_get (b.try_delete t k).0 j ≡ (if j == k then ([], false) else b.try_get t j)
  pub update_ok : (t : T) (k : ℕ) (v : Bytes) → (b.try_update t k v).1 ≡ false
  pub delete_ok : (t : T) (k : ℕ) → (b.try_delete t k).1 ≡ false

-- What the RLP codec promises: what was encoded is not empty and decodes to what it was, and the
-- one thing that it cannot encode is a negative integer.
pub record IsCodec {T : Type 0} (b : Backend T) : Type 0 where
  pub decode-encode_account :
      (o : AccountObject) (enc : Bytes)
      → b.encode_account (account_of o) ≡ some enc
      → (enc ≢ []) × (b.decode_account enc ≡ some (account_of o))
  pub encode_account_iff :
      (o : AccountObject) → (b.encode_account (account_of o) ≡ none) ↔ (¬ (pos 0 ≤ℤ o.balance))
  pub decode-encode_space :
      (o : SpaceObject) (enc : Bytes)
      → b.encode_space (space_of o) ≡ some enc
      → (enc ≢ []) × (b.decode_space enc ≡ some (space_of o))
  pub encode_space_iff :
      (o : SpaceObject) → (b.encode_space (space_of o) ≡ none) ↔ (¬ (pos 0 ≤ℤ o.balance))
