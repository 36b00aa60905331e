-- ===== src/State/View.antt =====
-- The ledger that a state stands for: each account's and each space's content, whether it is cached
-- or still in the trie. The cache, the dirty sets and the callbacks are forgotten.
use gocoin.Common.{
  Bool, Bytes, Option, [], arith, lookup, lookup-insert, none, some, true, ℕ, ◌∷◌, ◌≡◌, ◌≢◌, nat_eq,
}
use gocoin.State.Account.{AccountObject, new_account_object}
use gocoin.State.Backend.{Backend}
use gocoin.State.Db.{StateDb, get_account_object}

-- An object with its callback forgotten.
abbrev pub content : AccountObject → AccountObject
content o = record o { on_dirty = true }

abbrev pub map_option :
    (AccountObject → AccountObject) → Option AccountObject → Option AccountObject
map_option f none = none
map_option f (some o) = some (f o)

-- The pointer for an account of the ledger.
abbrev pub pointer_to : Option AccountObject → ℕ → Option ℕ
pointer_to none addr = none
pointer_to (some _) addr = some addr

module _ {T : Type 0} where
  abbrev pub stored_from : Backend T → ℕ → Bytes × Bool → Option AccountObject
  stored_from b addr ([], err) = none
  stored_from b addr (c ∷ cs, err) = elim (b.decode_account (c ∷ cs)) [
    | none ↦ none
    | some acc ↦ some (new_account_object addr acc)
  ]

  -- The account that a trie holds at an address.
  abbrev pub stored : Backend T → T → ℕ → Option AccountObject
  stored b t addr = stored_from b addr (b.try_get t addr)

  unfoldable pub view : Backend T → StateDb T → ℕ → Option AccountObject
  view b s addr = elim (lookup addr s.account_objects) [
    | some o ↦ some (content o)
    | none ↦ stored b s.trie_account addr
  ]

module _ {T : Type 0} (b : Backend T) where
  -- `getAccountObject` changes no account of the ledger, whatever it loads into the cache, and
  -- its pointer is nil exactly if the ledger has no account at the address.
  pub get_account_object-view :
      (addr j : ℕ) (s : StateDb T)
      → let (p, _, s') = get_account_object b addr s in
        (p ≡ pointer_to (view b s addr) addr) × (view b s' j ≡ view b s j)
  unfolding get_account_object view
  get_account_object-view addr j s = grind (arith, lookup-insert)

  -- The pointer is to a cached object, which is the ledger's.
  pub get_account_object-cached :
      (addr a : ℕ) (s : StateDb T)
      → (get_account_object b addr s).0 ≡ some a
      → (a ≡ addr) × (lookup a (get_account_object b addr s).2.account_objects ≢ none)
  unfolding get_account_object
  get_account_object-cached addr a s h = grind (arith, lookup-insert)
