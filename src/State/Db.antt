-- ===== src/State/Db.antt =====
-- `StateDB` (libraries/chain/space/state/statemanage.go): the object caches above the two tries.
-- A pointer to an object is the key under which the object stands in its cache, or `none` for
-- nil.
use gocoin.Common.{
  Bool, Bytes, Dict, List, Option, [], false, if◌then◌else◌, insert, lookup, none, some, true, ℕ,
  ◌%◌, ◌==◌, ◌^◌, ◌||◌, ◌∷◌, nat_eq,
}
use gocoin.State.Account.{AccountObject, new_account_object}
use gocoin.State.Space.{SpaceObject, new_space_object}
use gocoin.State.Backend.{Backend}

-- `db_err` says whether `dbErr` is non-nil; the dirty sets are lists without repetitions.
pub record StateDb (T : Type 0) : Type 0 where
  pub trie_space : T
  pub trie_account : T
  pub space_objects : Dict ℕ SpaceObject
  pub account_objects : Dict ℕ AccountObject
  pub space_objects_dirty : List ℕ
  pub account_objects_dirty : List ℕ
  pub db_err : Bool

-- `id.Uint64()`, the key of the space cache.
abbrev pub space_key : ℕ → ℕ
space_key id = id % 2 ^ 64

unfoldable pub elem : ℕ → List ℕ → Bool
elem a [] = false
elem a (x ∷ xs) = a == x || elem a xs

-- Adding to a set, and deleting from it.
unfoldable pub mark : ℕ → List ℕ → List ℕ
unfolding elem
mark a l = if elem a l then l else a ∷ l

unfoldable pub unmark : ℕ → List ℕ → List ℕ
unmark a [] = []
unmark a (x ∷ xs) = if a == x then unmark a xs else x ∷ unmark a xs

module _ {T : Type 0} where
  -- `New`, with `none` for the error.
  unfoldable pub new_state : Backend T → ℕ → ℕ → Option (StateDb T)
  new_state b root_space root_account = elim (b.open_trie root_space) [
    | none ↦ none
    | some ts ↦ elim (b.open_trie root_account) [
      | none ↦ none
      | some ta ↦ some (record {
        trie_space = ts;
        trie_account = ta;
        space_objects = [];
        account_objects = [];
        space_objects_dirty = [];
        account_objects_dirty = [];
        db_err = false;
      })
    ]
  ]

  abbrev pub set_error : Bool → StateDb T → StateDb T
  set_error err s = record s { db_err = s.db_err || err }

  unfoldable pub set_account_object : AccountObject → StateDb T → StateDb T
  set_account_object o s = record s { account_objects = insert o.address o s.account_objects }

  unfoldable pub set_space_object : SpaceObject → StateDb T → StateDb T
  set_space_object o s = record s { space_objects = insert (space_key o.id) o s.space_objects }

  -- What a miss in the cache comes to, by what `TryGet` returned.
  abbrev load_account : Backend T → ℕ → Bytes × Bool → StateDb T → Option ℕ × Bool × StateDb T
  load_account b addr ([], err) s = (none, err, set_error err s)
  load_account b addr (c ∷ cs, err) s = elim (b.decode_account (c ∷ cs)) [
    | none ↦ (none, true, s)
    | some acc ↦ (some addr, false, set_account_object (new_account_object addr acc) s)
  ]

  -- `getAccountObject`: the object, the error, and the state.
  unfoldable pub get_account_object : Backend T → ℕ → StateDb T → Option ℕ × Bool × StateDb T
  unfolding set_account_object new_account_object
  get_account_object b addr s = elim (lookup addr s.account_objects) [
    | some o ↦ (some addr, false, s)
    | none ↦ load_account b addr (b.try_get s.trie_account addr) s
  ]

  abbrev load_space : Backend T → ℕ → Bytes × Bool → StateDb T → Option ℕ × Bool × StateDb T
  load_space b id ([], err) s = (none, err, set_error err s)
  load_space b id (c ∷ cs, err) s = elim (b.decode_space (c ∷ cs)) [
    | none ↦ (none, true, s)
    | some sp ↦ (some (space_key id), false, set_space_object (new_space_object id sp) s)
  ]

  -- `getSpaceObject`
  unfoldable pub get_space_object : Backend T → ℕ → StateDb T → Option ℕ × Bool × StateDb T
  unfolding set_space_object new_space_object
  get_space_object b id s = elim (lookup (space_key id) s.space_objects) [
    | some o ↦ (some (space_key id), false, s)
    | none ↦ load_space b id (b.try_get s.trie_space id) s
  ]

  -- A setter of the object behind a pointer: the data changes, and the callback runs if it is set,
  -- and is then nil.
  unfoldable pub modify_account : ℕ → (AccountObject → AccountObject) → StateDb T → StateDb T
  unfolding mark
  modify_account a f s = elim (lookup a s.account_objects) [
    | none ↦ s
    | some o ↦ record s {
      account_objects = insert a (record (f o) { on_dirty = false }) s.account_objects;
      account_objects_dirty =
          if o.on_dirty then mark o.address s.account_objects_dirty else s.account_objects_dirty;
    }
  ]

  unfoldable pub modify_space : ℕ → (SpaceObject → SpaceObject) → StateDb T → StateDb T
  unfolding mark
  modify_space k f s = elim (lookup k s.space_objects) [
    | none ↦ s
    | some o ↦ record s {
      space_objects = insert k (record (f o) { on_dirty = false }) s.space_objects;
      space_objects_dirty =
          if o.on_dirty then mark (space_key o.id) s.space_objects_dirty else s.space_objects_dirty;
    }
  ]
