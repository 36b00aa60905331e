-- ===== src/State/Commit/Orders.antt =====
-- What does not depend on the order in which an encoder ranges over the attributes of an account
-- (`EncodeRLP` of libraries/chain/space/state/account_object.go). Go does not fix that order, so
-- two nodes, or two commits of one node, are given two encoders.
use gocoin.Common.{
  >>=-eq-ok, >>=-same, Bool, Bytes, List, Option, Option-cases, [], ap, arith, inl, inr, length,
  lookup, ok, refl, some, sym, true, ℕ, ◌∙◌, ◌∷◌, ◌≡◌, ◌≤◌, nat_eq,
}
use gocoin.State.Commit.{
  commit_state, finalise_spaces, finalise_space, finalise_accounts, space_finalise,
  finalise_account, update_account_object, delete_account_object, update_space_object,
  account_finalise, delete_space_object,
}
use gocoin.State.Db.{StateDb}
use gocoin.State.Backend.{Backend}
use gocoin.State.Account.{Account, AccountObject, account_of}

-- The same tries and codec with another encoder of accounts.
abbrev pub with_encoder : {T : Type 0} → (Account → Option Bytes) → Backend T → Backend T
with_encoder enc b = record b { encode_account = enc }

-- Two encoders that agree where there is no choice of an order: on the accounts with one attribute
-- at most. On the others they may differ in any way.
unfoldable pub AgreesOnFew : (enc enc' : Account → Option Bytes) → Type 0
AgreesOnFew enc enc' =
    (o : AccountObject) → length o.attribute ≤ 1 → enc' (account_of o) ≡ enc (account_of o)

-- No account of the state has more than one attribute.
unfoldable pub FewAttributes : {T : Type 0} → StateDb T → Type 0
FewAttributes s =
    (a : ℕ) (o : AccountObject) → lookup a s.account_objects ≡ some o → length o.attribute ≤ 1

module _ {T : Type 0} (b : Backend T) (enc : Account → Option Bytes)
    (agrees : AgreesOnFew b.encode_account enc) where
  update_account_object-same :
      (o : AccountObject) (s : StateDb T)
      → length o.attribute ≤ 1
      → update_account_object (with_encoder enc b) o s ≡ update_account_object b o s
  unfolding update_account_object AgreesOnFew
  update_account_object-same o s few = rw (agrees o few) refl

  finalise_account-same :
      (del : Bool) (a : ℕ) (s : StateDb T)
      → FewAttributes s
      → finalise_account (with_encoder enc b) del a s ≡ finalise_account b del a s
  unfolding finalise_account FewAttributes delete_account_object
  finalise_account-same del a s few = elim (Option-cases (lookup a s.account_objects)) [
    | inl missing ↦ ground arith
    | inr (o, found) ↦ (let same = update_account_object-same o s (few a o found) in ground arith)
  ]

  kept_FewAttributes :
      (s s' : StateDb T)
      → s'.account_objects ≡ s.account_objects
      → FewAttributes s
      → FewAttributes s'
  unfolding FewAttributes lookup
  kept_FewAttributes s s' same few a o e = few a o (ap (lookup a) (sym same) ∙ e)

  finalise_account-objects :
      (del : Bool) (a : ℕ) (s s' : StateDb T)
      → finalise_account b del a s ≡ ok s'
      → s'.account_objects ≡ s.account_objects
  unfolding finalise_account update_account_object delete_account_object
  finalise_account-objects del a s s' e = ground arith

  finalise_space-objects :
      (del : Bool) (k : ℕ) (s s' : StateDb T)
      → finalise_space b del k s ≡ ok s'
      → s'.account_objects ≡ s.account_objects
  unfolding finalise_space update_space_object delete_space_object
  finalise_space-objects del k s s' e = ground arith

  finalise_spaces-objects :
      (del : Bool) (l : List ℕ) (s s' : StateDb T)
      → finalise_spaces b del l s ≡ ok s'
      → s'.account_objects ≡ s.account_objects
  unfolding finalise_spaces
  finalise_spaces-objects del [] s s' e = ground arith
  finalise_spaces-objects del (k ∷ l) s s' e =
      let (s1, e1, f1) = >>=-eq-ok (finalise_space b del k s) _ e in
      finalise_spaces-objects del l s1 s' f1 ∙ finalise_space-objects del k s s1 e1

  finalise_accounts-same :
      (del : Bool) (l : List ℕ) (s : StateDb T)
      → FewAttributes s
      → finalise_accounts (with_encoder enc b) del l s ≡ finalise_accounts b del l s
  unfolding finalise_accounts
  finalise_accounts-same del [] s few = refl
  finalise_accounts-same del (a ∷ l) s few = rw (finalise_account-same del a s few) (
      >>=-same (finalise_account b del a s) (λ s' e.
        finalise_accounts-same del l s'
          (kept_FewAttributes s s' (finalise_account-objects del a s s' e) few)))

  finalise_spaces-same :
      (del : Bool) (l : List ℕ) (s : StateDb T)
      → finalise_spaces (with_encoder enc b) del l s ≡ finalise_spaces b del l s
  unfolding finalise_spaces finalise_space update_space_object delete_space_object
  finalise_spaces-same del [] s = refl
  finalise_spaces-same del (k ∷ l) s =
      >>=-same (finalise_space b del k s) (λ s' e. finalise_spaces-same del l s')

  -- A state in which no account has more than one attribute commits to the same roots.
  pub commit_state-same :
      (s : StateDb T) → FewAttributes s → commit_state (with_encoder enc b) s ≡ commit_state b s
  unfolding commit_state space_finalise account_finalise
  commit_state-same s few = rw (finalise_spaces-same true s.space_objects_dirty s) (
      >>=-same (finalise_spaces b true s.space_objects_dirty s) (λ s1 e.
        rw
          (finalise_accounts-same true s1.account_objects_dirty s1 (
            kept_FewAttributes s s1 (finalise_spaces-objects true s.space_objects_dirty s s1 e)
              few))
          refl))
