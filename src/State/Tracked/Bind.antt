-- ===== src/State/Tracked/Bind.antt =====
-- Creating and binding spaces (libraries/chain/space/state/statemanage.go) keeps track of what
-- it changes in the accounts.
use gocoin.State.Tracked.{IsTracked, modify_account-IsTracked, stored, get_account_object-IsTracked}
use gocoin.State.Bind.{
  create_account_object, create_space_object, unassociate_space_and_account, detach,
  associate_space_and_account, create_space_and_bind_addr,
}
use gocoin.State.Account.{
  AccountObject, set_space_id, account_empty, new_account_object, fill_attributes,
}
use gocoin.State.Space.{SpaceObject, append_address, remove_address}
use gocoin.State.View.{view, stored, get_account_object-view}
use gocoin.State.Backend.{Backend}
use gocoin.State.Db.{
  StateDb, get_space_object, set_space_object, modify_account, modify_space, set_account_object,
  get_account_object,
}
use gocoin.Common.{
  Bool-cases, Option, Option-cases, [], arith, if◌then◌else◌, inl, inr, lookup, lookup-insert, none,
  pos, refl, some, ℕ, ◌∙◌, ◌≡◌, nat_eq,
}

module _ {T : Type 0} where
  -- Two states with the same accounts.
  abbrev pub IsSame : StateDb T → StateDb T → Type 0
  IsSame s s' =
      (s'.account_objects ≡ s.account_objects)
      × (s'.account_objects_dirty ≡ s.account_objects_dirty)
      × (s'.trie_account ≡ s.trie_account)

  pub IsTracked-same :
      (b : Backend T) (s s' : StateDb T) → IsSame s s' → IsTracked b s → IsTracked b s'
  IsTracked-same b s s' (e1, e2, e3) h = record {
    placed = λ a o f. h.placed a o (rw e1 at f);
    keyed = λ a o f. h.keyed a o (rw e1 at f);
    changed = λ a o f g. rw e2 (h.changed a o (rw e1 at f) g);
    clean = λ a o f g. rw e3 (h.clean a o (rw e1 at f) (rw e2 at g));
    cached = λ a f. rw e1 (h.cached a (rw e2 at f));
  }

  pub modify_space-IsSame :
      (k : ℕ) (f : SpaceObject → SpaceObject) (s : StateDb T) → IsSame s (modify_space k f s)
  unfolding modify_space
  modify_space-IsSame k f s = ground arith

-- The object that `createAccountObject` makes.
abbrev blank : ℕ → ℕ → AccountObject
blank a id = new_account_object a (record {
  bind_space_id = some 0;
  balance = some (pos 0);
  wallet_id = id;
  code_hash = [];
  account_key = [];
  account_value = [];
})

module _ {T : Type 0} (b : Backend T) where
  pub get_space_object-IsSame : (id : ℕ) (s : StateDb T) → IsSame s (get_space_object b id s).2
  unfolding get_space_object set_space_object
  get_space_object-IsSame id s = ground arith

  create_space_object-IsSame : (id : ℕ) (s : StateDb T) → IsSame s (create_space_object b id s).2
  unfolding create_space_object set_space_object
  create_space_object-IsSame id s = ground (arith, get_space_object-IsSame id s)

  set_space_id-IsTracked :
      (id a : ℕ) (s : StateDb T)
      → IsTracked b s
      → IsTracked b (modify_account a (set_space_id id) s)
  unfolding set_space_id
  set_space_id-IsTracked id a s h =
      modify_account-IsTracked b a (set_space_id id) s (λ o. refl) (λ o d. d) h

  unassociate-IsTracked :
      (p q : Option ℕ) (s : StateDb T)
      → IsTracked b s
      → IsTracked b (unassociate_space_and_account p q s)
  unfolding unassociate_space_and_account
  unassociate-IsTracked none q s h = h
  unassociate-IsTracked (some k) none s h = h
  unassociate-IsTracked (some k) (some a) s h = elim (Option-cases (lookup a s.account_objects)) [
    | inl e ↦ rw (e, unassociate_space_and_account) h
    | inr (o, e) ↦
        rw (e, unassociate_space_and_account)
          (IsTracked-same b (modify_account a (set_space_id 0) s)
            (modify_space k (remove_address o.address) (modify_account a (set_space_id 0) s))
            (modify_space-IsSame k (remove_address o.address) (modify_account a (set_space_id 0) s))
            (set_space_id-IsTracked 0 a s h))
  ]

  detach-IsTracked :
      (a : ℕ) (acc : AccountObject) (s : StateDb T) → IsTracked b s → IsTracked b (detach b a acc s)
  unfolding detach
  detach-IsTracked a acc s h =
      let (p, err, s') = get_space_object b acc.bind_space_id s in
      let h' : IsTracked b s' =
        IsTracked-same b s s' (get_space_object-IsSame acc.bind_space_id s) h in
      elim (Bool-cases (account_empty acc)) [
        | inl e ↦ rw e h
        | inr e ↦ rw e (elim (Bool-cases err) [
          | inl f ↦ rw f h'
          | inr f ↦ rw f (unassociate-IsTracked p (some a) s' h')
        ])
      ]

  associate-IsTracked :
      (p q : Option ℕ) (s : StateDb T)
      → IsTracked b s
      → IsTracked b (associate_space_and_account b p q s)
  unfolding associate_space_and_account
  associate-IsTracked none q s h = h
  associate-IsTracked (some k) none s h = h
  associate-IsTracked (some k) (some a) s h = elim (Option-cases (lookup k s.space_objects)) [
    | inl e ↦ rw (e, associate_space_and_account) h
    | inr (sp, e) ↦ elim (Option-cases (lookup a s.account_objects)) [
      | inl f ↦ rw (e, f, associate_space_and_account) h
      | inr (acc, f) ↦
          rw (e, f, associate_space_and_account)
            (let s1 = modify_account a (set_space_id sp.id) (detach b a acc s) in
              IsTracked-same b s1 (modify_space k (append_address acc.address) s1)
                (modify_space-IsSame k (append_address acc.address) s1)
                (set_space_id-IsTracked sp.id a (detach b a acc s) (detach-IsTracked a acc s h)))
    ]
  ]

  view-none :
      (a : ℕ) (s : StateDb T)
      → view b s a ≡ none
      → (lookup a s.account_objects ≡ none) × (stored b s.trie_account a ≡ none)
  unfolding view
  view-none a s e = elim (Option-cases (lookup a s.account_objects)) [
    | inl f ↦ (f, ground (arith, f))
    | inr (o, f) ↦ ground (arith, f)
  ]

  -- A new, empty object for an account that the ledger does not have.
  fresh-IsTracked :
      (a id : ℕ) (s : StateDb T)
      → view b s a ≡ none
      → IsTracked b s
      → IsTracked b (set_account_object (blank a id) s)
  unfolding set_account_object new_account_object fill_attributes account_empty
  fresh-IsTracked a id s new h =
      let (miss, gone) = view-none a s new in
      record {
        placed = λ j o e. grind (arith, lookup-insert, h.placed);
        keyed = λ j o e. grind (arith, lookup-insert, h.keyed);
        changed = λ j o e f. grind (arith, lookup-insert, h.changed);
        clean = λ j o e f. grind (arith, lookup-insert, h.clean, miss, gone);
        cached = λ j e. grind (arith, lookup-insert, h.cached);
      }

  create_account_object-IsTracked :
      (id a : ℕ) (s : StateDb T)
      → view b s a ≡ none
      → IsTracked b s
      → IsTracked b (create_account_object b id a s).2
  unfolding create_account_object
  create_account_object-IsTracked id a s new h =
      let (prev, err, s') = get_account_object b a s in
      let h' : IsTracked b s' = get_account_object-IsTracked b a s h in
      let new' : view b s' a ≡ none = (get_account_object-view b a a s).1 ∙ new in
      elim (Bool-cases err) [ inl e ↦ rw e h' | inr e ↦ rw e (fresh-IsTracked a id s' new' h') ]

  absent :
      (a : ℕ) (s : StateDb T)
      → (get_account_object b a s).0 ≡ none
      → view b (get_account_object b a s).2 a ≡ none
  absent a s e = elim (Option-cases (view b s a)) [
    | inl f ↦ (get_account_object-view b a a s).1 ∙ f
    | inr (o, f) ↦ ground (arith, f, (get_account_object-view b a a s).0)
  ]

  bind_new-IsTracked :
      (id : ℕ) (q : Option ℕ) (s : StateDb T)
      → IsTracked b s
      → let (newspa, err, s') = create_space_object b id s in
        IsTracked b (if err then s' else associate_space_and_account b newspa q s')
  bind_new-IsTracked id q s h =
      let (newspa, err, s') = create_space_object b id s in
      let h' : IsTracked b s' = IsTracked-same b s s' (create_space_object-IsSame id s) h in
      elim (Bool-cases err) [ inl e ↦ rw e h' | inr e ↦ rw e (associate-IsTracked newspa q s' h') ]

  -- `CreateSpaceAndBindAddr` on a tracked state leaves a tracked state.
  pub create_space_and_bind_addr-IsTracked :
      (id walletid a : ℕ) (s : StateDb T)
      → IsTracked b s
      → IsTracked b (create_space_and_bind_addr b id walletid a s).1
  unfolding create_space_and_bind_addr
  create_space_and_bind_addr-IsTracked id walletid a s h =
      let (acc, _, s1) = get_account_object b a s in
      let h1 : IsTracked b s1 = get_account_object-IsTracked b a s h in
      elim (Option-cases acc) [
        | inl e ↦
            rw (e, create_space_and_bind_addr)
              (let (newacc, _, s2) = create_account_object b walletid a s1 in
                bind_new-IsTracked id newacc s2
                  (create_account_object-IsTracked walletid a s1 (absent a s e) h1))
        | inr (k, e) ↦ rw (e, create_space_and_bind_addr) (bind_new-IsTracked id (some k) s1 h1)
      ]
