-- ===== src/State/Commit/Accounts.antt =====
-- What finalising the accounts leaves in the account trie.
use gocoin.State.Tracked.{IsTracked}
use gocoin.State.Db.{StateDb, elem}
use gocoin.State.Commit.{finalise_account, StateDb, finalise_accounts, account_finalise}
use gocoin.State.Attributes.{IsDistinct, fill_attributes-keys}
use gocoin.State.View.{content, stored_from, stored, view}
use gocoin.State.Account.{new_account_object, AccountObject, account_empty, account_of}
use gocoin.State.Backend.{Backend, IsTrie, IsCodec}
use gocoin.Common.{
  >>=-eq-ok, Bool, Bool-cases, Bytes, Dict, List, Option, Option-cases, [], ap, arith, false,
  if◌then◌else◌, inl, inr, lookup, none, ok, refl, some, ℕ, ◌&&◌, ◌==◌, ◌∙◌, ◌∷◌, ◌≡◌, nat_eq,
}

-- What is written for an object: nothing if it is empty and empty objects are deleted.
abbrev pub written : Bool → AccountObject → Option AccountObject
written del o = if del && account_empty o then none else some (content o)

account_of-back :
    (addr : ℕ) (o : AccountObject)
    → o.address ≡ addr
    → IsDistinct o.attribute
    → new_account_object addr (account_of o) ≡ content o
unfolding new_account_object account_of
account_of-back addr o e d = ground (arith, fill_attributes-keys o.attribute d)

module _ {T : Type 0} (b : Backend T) (trie : IsTrie b) (codec : IsCodec b) (del : Bool) where
  stored-encoded :
      (k : ℕ) (o : AccountObject) (enc : Bytes) (err : Bool)
      → b.encode_account (account_of o) ≡ some enc
      → o.address ≡ k
      → IsDistinct o.attribute
      → stored_from b k (enc, err) ≡ some (content o)
  stored-encoded k o [] err e p d = absurd ((codec.decode-encode_account o [] e).0 refl)
  stored-encoded k o (c ∷ cs) err e p d =
      rw ((codec.decode-encode_account o (c ∷ cs) e).1, stored_from)
        (ap some (account_of-back k o p d))

  finalise_account-missing :
      (k : ℕ) (s s' : StateDb T)
      → lookup k s.account_objects ≡ none
      → finalise_account b del k s ≡ ok s'
      → ⊥
  unfolding finalise_account
  finalise_account-missing k s s' e h = ground arith

  pub finalise_account-stored :
      (k j : ℕ) (o : AccountObject) (s s' : StateDb T)
      → lookup k s.account_objects ≡ some o
      → o.address ≡ k
      → IsDistinct o.attribute
      → finalise_account b del k s ≡ ok s'
      → (stored b s'.trie_account j ≡ (if j == k then written del o else stored b s.trie_account j))
        × (s'.account_objects ≡ s.account_objects)
  unfolding finalise_account
  finalise_account-stored k j o s s' found p d e =
      elim (Option-cases (b.encode_account (account_of o))) [
        | inl bad ↦ grind (arith, trie.get-delete)
        | inr (enc, good) ↦
            grind (arith, trie.get-update, trie.get-delete, stored-encoded k o enc false good p d)
      ]

  -- What is written at an address of the cache.
  unfoldable pub written_at : Dict ℕ AccountObject → ℕ → Option AccountObject
  written_at m a = elim (lookup a m) [ none ↦ none | some o ↦ written del o ]

  written_at_found :
      (m : Dict ℕ AccountObject) (a : ℕ) (o : AccountObject)
      → lookup a m ≡ some o
      → written_at m a ≡ written del o
  unfolding written_at
  written_at_found m a o e = rw (e, written_at)

  written_at_missing :
      (m : Dict ℕ AccountObject) (a : ℕ) → lookup a m ≡ none → written_at m a ≡ none
  unfolding written_at
  written_at_missing m a e = rw (e, written_at)

  -- A tracked cache, and the trie after any list of its addresses.
  module _ {m : Dict ℕ AccountObject}
      (placed : (a : ℕ) (o : AccountObject) → lookup a m ≡ some o → o.address ≡ a)
      (keyed : (a : ℕ) (o : AccountObject) → lookup a m ≡ some o → IsDistinct o.attribute) where
    finalise_account-step :
        (k j : ℕ) (s s' : StateDb T)
        → s.account_objects ≡ m
        → finalise_account b del k s ≡ ok s'
        → (stored b s'.trie_account j
            ≡ (if j == k then written_at m k else stored b s.trie_account j))
          × (s'.account_objects ≡ m)
    finalise_account-step k j s s' e h = elim (Option-cases (lookup k m)) [
      | inl gone ↦ absurd (finalise_account-missing k s s' (rw e gone) h)
      | inr (o, found) ↦
          let (st, same) =
            finalise_account-stored k j o s s' (rw e found) (placed k o found) (keyed k o found)
              h in
          (rw (written_at_found m k o found) st, same ∙ e)
    ]

    pub finalise_accounts-stored :
        (l : List ℕ) (j : ℕ) (s s' : StateDb T)
        → s.account_objects ≡ m
        → finalise_accounts b del l s ≡ ok s'
        → (stored b s'.trie_account j
            ≡ (if elem j l then written_at m j else stored b s.trie_account j))
          × (s'.account_objects ≡ m)
    unfolding finalise_accounts elem
    finalise_accounts-stored [] j s s' e h = ground (arith, e)
    finalise_accounts-stored (k ∷ l) j s s' e h =
        let (s1, first, rest) =
          >>=-eq-ok (finalise_account b del k s) (finalise_accounts b del l) h in
        ground (
          arith,
          finalise_account-step k j s s1 e first,
          finalise_accounts-stored l j s1 s' (finalise_account-step k j s s1 e first).1 rest,
        )

  -- After `AccountFinalise` the trie holds, at each address of the dirty set, the cached object (or
  -- nothing, if it is empty and empty objects are deleted), and what it held at every other one.
  pub account_finalise-stored :
      (s s' : StateDb T) (j : ℕ)
      → IsTracked b s
      → account_finalise b del s ≡ ok s'
      → stored b s'.trie_account j ≡ (
          if elem j s.account_objects_dirty
          then written_at s.account_objects j
          else stored b s.trie_account j)
  unfolding account_finalise
  account_finalise-stored s s' j h e =
      (finalise_accounts-stored h.placed h.keyed s.account_objects_dirty j s s' refl e).0

  -- When `AccountFinalise` comes back on a tracked state, the trie by itself holds every non-
  -- empty account of the ledger, and no account that the ledger does not have, for a trie and a
  -- codec that keep `IsTrie` and `IsCodec`.
  pub account_finalise-view :
      (s s' : StateDb T) (j : ℕ)
      → IsTracked b s
      → account_finalise b del s ≡ ok s'
      → ((o : AccountObject)
          → account_empty o ≡ false
          → view b s j ≡ some o
          → stored b s'.trie_account j ≡ some o)
        × ((o : AccountObject) → stored b s'.trie_account j ≡ some o → view b s j ≡ some o)
  unfolding view account_empty
  account_finalise-view s s' j h e = elim (Option-cases (lookup j s.account_objects)) [
    | inl miss ↦
        let out : elem j s.account_objects_dirty ≡ false =
          elim (Bool-cases (elem j s.account_objects_dirty)) [
            | inl yes' ↦ absurd (h.cached j yes' miss)
            | inr no' ↦ no'
          ] in
        (
          λ o full e'. ground (arith, account_finalise-stored s s' j h e, miss, out),
          λ o e'. ground (arith, account_finalise-stored s s' j h e, miss, out),
        )
    | inr (c, hit) ↦ (
      λ o full e'. ground (
        arith,
        account_finalise-stored s s' j h e,
        h.clean j c hit,
        written_at_found s.account_objects j c hit,
      ),
      λ o e'. ground (
        arith,
        account_finalise-stored s s' j h e,
        h.clean j c hit,
        written_at_found s.account_objects j c hit,
      ),
    )
  ]
