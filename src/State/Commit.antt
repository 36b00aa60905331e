-- ===== src/State/Commit.antt =====
-- Writing the dirty objects into the tries, and committing the tries
-- (libraries/chain/space/state/statemanage.go).
pub mod Accounts
pub mod Orders
pub mod Panics
pub mod Overdraft
use gocoin.Common.{
  Bool, List, Result, [], encode_failed, if◌then◌else◌, lookup, nil_pointer, none, ok, panic, some,
  true, ℕ, ◌&&◌, ◌>>=◌, ◌∷◌, nat_eq,
}
use gocoin.State.Account.{AccountObject, account_of, account_empty}
use gocoin.State.Space.{SpaceObject, space_of, space_empty}
use gocoin.State.Backend.{Backend}
use gocoin.State.Db.{StateDb, unmark, set_error}

module _ {T : Type 0} where
  -- `updateAccountObject`, which panics where the encoder fails.
  unfoldable pub update_account_object : Backend T → AccountObject → StateDb T → Result (StateDb T)
  update_account_object b o s = elim (b.encode_account (account_of o)) [
    | none ↦ panic encode_failed
    | some enc ↦
        let (t, err) = b.try_update s.trie_account o.address enc in
        ok (set_error err (record s { trie_account = t }))
  ]

  -- `deleteAccountObject`
  unfoldable pub delete_account_object : Backend T → AccountObject → StateDb T → StateDb T
  delete_account_object b o s =
      let (t, err) = b.try_delete s.trie_account o.address in
      set_error err (record s { trie_account = t })

  -- One round of the loop of `AccountFinalise`.
  unfoldable pub finalise_account : Backend T → Bool → ℕ → StateDb T → Result (StateDb T)
  unfolding update_account_object delete_account_object
  finalise_account b del a s = elim (lookup a s.account_objects) [
    | none ↦ panic nil_pointer
    | some o ↦ do
      s' ←
          if del && account_empty o
          then ok (delete_account_object b o s)
          else update_account_object b o s
      ok (record s' { account_objects_dirty = unmark a s'.account_objects_dirty })
  ]

  unfoldable pub finalise_accounts : Backend T → Bool → List ℕ → StateDb T → Result (StateDb T)
  finalise_accounts b del [] s = ok s
  finalise_accounts b del (a ∷ rest) s = finalise_account b del a s >>= finalise_accounts b del rest

  -- `AccountFinalise`. Go ranges over the dirty set in an order that it does not fix; here it is
  -- the order of the list.
  unfoldable pub account_finalise : Backend T → Bool → StateDb T → Result (StateDb T)
  unfolding finalise_accounts
  account_finalise b del s = finalise_accounts b del s.account_objects_dirty s

  -- `updateSpaceObject`
  unfoldable pub update_space_object : Backend T → SpaceObject → StateDb T → Result (StateDb T)
  update_space_object b o s = elim (b.encode_space (space_of o)) [
    | none ↦ panic encode_failed
    | some enc ↦
        let (t, err) = b.try_update s.trie_space o.id enc in
        ok (set_error err (record s { trie_space = t }))
  ]

  -- `deleteSpaceObject`
  unfoldable pub delete_space_object : Backend T → SpaceObject → StateDb T → StateDb T
  delete_space_object b o s =
      let (t, err) = b.try_delete s.trie_space o.id in set_error err (record s { trie_space = t })

  unfoldable pub finalise_space : Backend T → Bool → ℕ → StateDb T → Result (StateDb T)
  unfolding update_space_object delete_space_object
  finalise_space b del k s = elim (lookup k s.space_objects) [
    | none ↦ panic nil_pointer
    | some o ↦ do
      s' ←
          if del && space_empty o then ok (delete_space_object b o s) else update_space_object b o s
      ok (record s' { space_objects_dirty = unmark k s'.space_objects_dirty })
  ]

  unfoldable pub finalise_spaces : Backend T → Bool → List ℕ → StateDb T → Result (StateDb T)
  finalise_spaces b del [] s = ok s
  finalise_spaces b del (k ∷ rest) s = finalise_space b del k s >>= finalise_spaces b del rest

  -- `SpaceFinalise`
  unfoldable pub space_finalise : Backend T → Bool → StateDb T → Result (StateDb T)
  unfolding finalise_spaces
  space_finalise b del s = finalise_spaces b del s.space_objects_dirty s

  -- `CommitTo`: the two roots, the error, and the state. The error is the one of the account trie.
  unfoldable pub commit_state : Backend T → StateDb T → Result (ℕ × ℕ × Bool × StateDb T)
  commit_state b s = do
    s1 ← space_finalise b true s
    let (root_space, _) = b.commit_to s1.trie_space
    s2 ← account_finalise b true s1
    let (root_account, err) = b.commit_to s2.trie_account
    ok (root_space, root_account, err, s2)
