-- ===== src/State/Tracked.antt =====
-- Which changes reach the tries. An object that was changed has used up its callback, and the
-- callback has put it into the dirty set.
pub mod Ops
pub mod Bind
use gocoin.State.Ops.{on_pointer}
use gocoin.State.Attributes.{fill_attributes-IsDistinct, IsDistinct}
use gocoin.State.View.{stored, content}
use gocoin.State.Account.{new_account_object, AccountObject, account_empty}
use gocoin.State.Backend.{Backend}
use gocoin.State.Db.{elem, StateDb, get_account_object, modify_account, unmark, mark, new_state}
use gocoin.Common.{
  Bool-cases, List, Option-cases, [], arith, false, if◌then◌else◌, inl, inr, lookup, lookup-insert,
  none, some, true, ℕ, ◌==◌, ◌∷◌, ◌≡◌, ◌≢◌, ◌⊎◌, nat_eq,
}

-- Every cached object stands under its own address and lists no attribute twice; one whose
-- callback is gone is in the dirty set; one outside the dirty set is as it is in the trie, or it
-- is empty and the trie has none; and the dirty set names cached objects.
pub record IsTracked {T : Type 0} (b : Backend T) (s : StateDb T) : Type 0 where
  pub placed : (a : ℕ) (o : AccountObject) → lookup a s.account_objects ≡ some o → o.address ≡ a
  pub keyed :
      (a : ℕ) (o : AccountObject) → lookup a s.account_objects ≡ some o → IsDistinct o.attribute
  pub changed :
      (a : ℕ) (o : AccountObject)
      → lookup a s.account_objects ≡ some o
      → o.on_dirty ≡ false
      → elem a s.account_objects_dirty ≡ true
  pub clean :
      (a : ℕ) (o : AccountObject)
      → lookup a s.account_objects ≡ some o
      → elem a s.account_objects_dirty ≡ false
      → (stored b s.trie_account a ≡ some (content o))
        ⊎ ((stored b s.trie_account a ≡ none) × (account_empty o ≡ true))
  pub cached : (a : ℕ) → elem a s.account_objects_dirty ≡ true → lookup a s.account_objects ≢ none

elem-mark : (a j : ℕ) (l : List ℕ) → elem j (mark a l) ≡ (if j == a then true else elem j l)
unfolding elem mark
elem-mark a j l = elim (Bool-cases (elem a l)) [ inl e ↦ ground arith | inr e ↦ ground arith ]

elem-unmark : (a j : ℕ) (l : List ℕ) → elem j (unmark a l) ≡ (if j == a then false else elem j l)
unfolding elem unmark
elem-unmark a j [] = ground arith
elem-unmark a j (x ∷ l) = ground (arith, elem-unmark a j l)

module _ {T : Type 0} (b : Backend T) where
  pub get_account_object-IsTracked :
      (a : ℕ) (s : StateDb T) → IsTracked b s → IsTracked b (get_account_object b a s).2
  unfolding get_account_object new_account_object
  get_account_object-IsTracked a s h = record {
    placed = λ j o e. grind (arith, lookup-insert, h.placed);
    keyed = λ j o e. grind (arith, lookup-insert, h.keyed, fill_attributes-IsDistinct);
    changed = λ j o e f. grind (arith, lookup-insert, h.changed);
    clean = λ j o e f. grind (arith, lookup-insert, h.clean);
    cached = λ j e. grind (arith, lookup-insert, h.cached);
  }

  pub modify_account-IsTracked :
      (a : ℕ) (f : AccountObject → AccountObject) (s : StateDb T)
      → ((o : AccountObject) → (f o).address ≡ o.address)
      → ((o : AccountObject) → IsDistinct o.attribute → IsDistinct (f o).attribute)
      → IsTracked b s
      → IsTracked b (modify_account a f s)
  unfolding modify_account
  modify_account-IsTracked a f s keep distinct h =
      elim (Option-cases (lookup a s.account_objects)) [
        | inl e ↦ rw (e, modify_account) h
        | inr (o, e) ↦ record {
          placed = λ j p q. grind (arith, lookup-insert, h.placed, keep o);
          keyed = λ j p q. grind (arith, lookup-insert, h.keyed, distinct o);
          changed = λ j p q r. grind (arith, lookup-insert, h.changed, h.placed, elem-mark, e);
          clean = λ j p q r. grind (arith, lookup-insert, h.clean, h.placed, h.changed, elem-mark);
          cached = λ j q. grind (arith, lookup-insert, h.cached, h.placed, elem-mark);
        }
      ]

  pub on_pointer-IsTracked :
      (a : ℕ) (g : ℕ → StateDb T → StateDb T) (s : StateDb T)
      → ((s' : StateDb T) → IsTracked b s' → (k : ℕ) → IsTracked b (g k s'))
      → IsTracked b s
      → let (p, _, s') = get_account_object b a s in IsTracked b (on_pointer p g s')
  on_pointer-IsTracked a g s step h =
      let (p, _, s') = get_account_object b a s in
      let h' : IsTracked b s' = get_account_object-IsTracked a s h in
      elim p as (λ q. IsTracked b (on_pointer q g s')) [ none ↦ h' | some k ↦ step s' h' k ]

  pub new_state-IsTracked :
      (root_space root_account : ℕ) (s : StateDb T)
      → new_state b root_space root_account ≡ some s
      → IsTracked b s
  unfolding new_state elem lookup
  new_state-IsTracked rs ra s e = record {
    placed = λ a o f. ground arith;
    keyed = λ a o f. ground arith;
    changed = λ a o f g. ground arith;
    clean = λ a o f g. ground arith;
    cached = λ a f. ground arith;
  }
