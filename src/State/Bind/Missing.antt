-- ===== src/State/Bind/Missing.antt =====
-- `BindAddr` on an address without an account (libraries/chain/space/state/statemanage.go).
use gocoin.State.Bind.{bind_addr, create_account_object}
use gocoin.State.Backend.{Backend}
use gocoin.State.Db.{StateDb, get_account_object, get_space_object}
use gocoin.Common.{Bool-cases, arith, inl, inr, none, refl, true, ℕ, ◌≡◌, nat_eq}

module _ {T : Type 0} (b : Backend T) where
  -- A lookup that failed fails again.
  get_account_object-again :
      (a : ℕ) (s : StateDb T)
      → (get_account_object b a s).1 ≡ true
      → ((get_account_object b a (get_account_object b a s).2).1 ≡ true)
        × ((get_account_object b a (get_account_object b a s).2).0 ≡ none)
  unfolding get_account_object
  get_account_object-again a s e = grind arith

  create_account_object-again :
      (id a : ℕ) (s : StateDb T)
      → (get_account_object b a s).1 ≡ true
      → (create_account_object b id a (get_account_object b a s).2).0 ≡ none
  unfolding create_account_object
  create_account_object-again id a s e = grind (arith, get_account_object-again a s e)

  -- `BindAddr` always returns the wallet id that it was given: its branch that counts a new
  -- account is never taken to its end.
  pub bind_addr-wallet :
      (id walletid a : ℕ) (s : StateDb T) → (bind_addr b id walletid a s).0 ≡ walletid
  unfolding bind_addr
  bind_addr-wallet id walletid a s =
      let s1 = (get_space_object b id s).2 in
      elim (Bool-cases (get_space_object b id s).1) [
        | inl e ↦ rw e refl
        | inr e ↦ elim (Bool-cases (get_account_object b a s1).1) [
          | inl f ↦ rw (e, f, create_account_object-again walletid a s1 f) refl
          | inr f ↦ rw (e, f) refl
        ]
      ]
