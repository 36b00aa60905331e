-- ===== src/Examples/Few.antt =====
-- An encoder that ranges over the attributes backwards, at the concrete inputs.
use gocoin.Common.{
  Bool, Bool-cases, Bytes, Dict, List, Option, Result, [], ap, arith, inl, inr, leb, length, lookup,
  ok, panic, refl, some, subst, true, ℕ, ◌&&◌, ◌++◌, ◌==◌, ◌∙◌, ◌∷◌, ◌≡◌, ◌≤◌, nat_eq,
}
use gocoin.State.Account.{Account, AccountObject, keys, values, account_of}
use gocoin.State.Commit.Orders.{AgreesOnFew, FewAttributes}
use gocoin.Examples.Store.{store, Store}
use gocoin.Chain.Exec.{Run}

abbrev backwards : List Bytes → List Bytes
backwards [] = []
backwards (x ∷ xs) = backwards xs ++ (x ∷ [])

abbrev pub encode_back : Account → Option Bytes
encode_back acc = store.encode_account (record acc {
  account_key = backwards acc.account_key;
  account_value = backwards acc.account_value;
})

same_keys : (d : Dict Bytes Bytes) → length d ≤ 1 → backwards (keys d) ≡ keys d
same_keys [] few = refl
same_keys (x ∷ []) few = refl
same_keys (x ∷ y ∷ d) few = absurd (omega arith)

same_values : (d : Dict Bytes Bytes) → length d ≤ 1 → backwards (values d) ≡ values d
same_values [] few = refl
same_values (x ∷ []) few = refl
same_values (x ∷ y ∷ d) few = absurd (omega arith)

pub encode_back-AgreesOnFew : AgreesOnFew store.encode_account encode_back
unfolding AgreesOnFew account_of
encode_back-AgreesOnFew o few =
    ap
      (λ ks. store.encode_account (record (account_of o) {
        account_key = ks;
        account_value = backwards (values o.attribute);
      }))
      (same_keys o.attribute few)
    ∙ ap (λ vs. store.encode_account (record (account_of o) { account_value = vs }))
        (same_values o.attribute few)

-- Whether no account has more than one attribute.
abbrev are_few : Dict ℕ AccountObject → Bool
are_few [] = true
are_few ((a, o) ∷ d) = leb (length o.attribute) 1 && are_few d

abbrev pub ends_few : Result (Run Store) → Bool
ends_few (ok run) = are_few run.state.account_objects
ends_few (panic fault) = true

few_found :
    (d : Dict ℕ AccountObject) (a : ℕ) (o : AccountObject)
    → are_few d ≡ true
    → lookup a d ≡ some o
    → length o.attribute ≤ 1
unfolding lookup
few_found [] a o few e = cc
few_found ((a', o') ∷ d) a o few e = elim (Bool-cases (a == a')) [
  | inl same ↦
      let here : o' ≡ o = cc in
      subst (λ (z : AccountObject). length z.attribute ≤ 1) here (ground arith)
  | inr other ↦ few_found d a o (ground arith) (ground arith)
]

pub ends_few-FewAttributes : (run : Run Store) → ends_few (ok run) ≡ true → FewAttributes run.state
unfolding FewAttributes
ends_few-FewAttributes run few a o e = few_found run.state.account_objects a o few e
