-- ===== src/State/Commit/Panics.antt =====
-- When finalising the accounts panics: exactly when a changed account is overdrawn.
use gocoin.State.Tracked.{IsTracked}
use gocoin.State.Commit.{
  finalise_account, finalise_accounts, account_finalise, delete_account_object, unmark,
}
use native.Mathlib.Decide.{dec_le}
use gocoin.State.Account.{AccountObject, account_empty, account_of}
use gocoin.State.Db.{StateDb, elem, unmark}
use gocoin.State.Backend.{Backend, IsCodec}
use gocoin.Common.{
  >>=-eq-ok, Bool, Bool-cases, List, Option-cases, [], arith, inl, inr, lookup, neg_part, none, ok,
  pos, pos_part, refl, some, true, ℕ, ◌&&◌, ◌+◌, ◌||◌, ◌↔◌, ◌∷◌, ◌≡◌, ◌≢◌, ◌≤ℤ◌, nat_eq,
}

-- No account of the dirty set has a negative balance.
abbrev pub IsCovered : {T : Type 0} → StateDb T → List ℕ → Type 0
IsCovered s l =
    (a : ℕ) (o : AccountObject)
    → elem a l ≡ true
    → lookup a s.account_objects ≡ some o
    → pos 0 ≤ℤ o.balance

account_empty-nonneg : (o : AccountObject) → account_empty o ≡ true → pos 0 ≤ℤ o.balance
unfolding account_empty
account_empty-nonneg o h = ground arith

module _ {T : Type 0} (b : Backend T) (codec : IsCodec b) (del : Bool) where
  finalise_account-ok :
      (k : ℕ) (o : AccountObject) (s : StateDb T)
      → lookup k s.account_objects ≡ some o
      → pos 0 ≤ℤ o.balance
      → (s' : StateDb T) × (finalise_account b del k s ≡ ok s')
        × (s'.account_objects ≡ s.account_objects)
  unfolding finalise_account
  finalise_account-ok k o s found h = elim (Option-cases (b.encode_account (account_of o))) [
    | inl bad ↦ absurd ((codec.encode_account_iff o).0 bad h)
    | inr (enc, good) ↦ elim (Bool-cases (del && account_empty o)) [
      | inl gone ↦ (
        record (delete_account_object b o s) {
          account_objects_dirty = unmark k s.account_objects_dirty;
        },
        ground arith,
        refl,
      )
      | inr kept ↦ (
        record s {
          trie_account = (b.try_update s.trie_account o.address enc).0;
          account_objects_dirty = unmark k s.account_objects_dirty;
          db_err = s.db_err || (b.try_update s.trie_account o.address enc).1;
        },
        ground arith,
        refl,
      )
    ]
  ]

  -- A round that came back found an object that is covered, and left the cache alone.
  finalise_account-covered :
      (k : ℕ) (s s' : StateDb T)
      → finalise_account b del k s ≡ ok s'
      → (s'.account_objects ≡ s.account_objects)
        × ((o : AccountObject) → lookup k s.account_objects ≡ some o → pos 0 ≤ℤ o.balance)
  unfolding finalise_account
  finalise_account-covered k s s' e = (
    ground arith,
    λ o found. elim (dec_le (0 + neg_part o.balance) (pos_part o.balance + 0)) [
      | yes p ↦ p
      | no p ↦ let bad = (codec.encode_account_iff o).1 p in ground (arith, account_empty-nonneg o)
    ],
  )

  finalise_accounts-ok :
      (l : List ℕ) (s : StateDb T)
      → ((a : ℕ) → elem a l ≡ true → lookup a s.account_objects ≢ none)
      → IsCovered s l
      → (s' : StateDb T) × (finalise_accounts b del l s ≡ ok s')
  unfolding finalise_accounts elem
  finalise_accounts-ok [] s cached h = (s, refl)
  finalise_accounts-ok (k ∷ l) s cached h = elim (Option-cases (lookup k s.account_objects)) [
    | inl gone ↦ absurd (cached k (ground arith) gone)
    | inr (o, found) ↦
        let (s1, first, same) = finalise_account-ok k o s found (h k o (ground arith) found) in
        let (s', rest) =
          finalise_accounts-ok l s1 (λ a m. rw same (cached a (ground arith)))
            (λ a p m f. h a p (ground arith) (rw same at f)) in
        (s', rw first rest)
  ]

  finalise_accounts-IsCovered :
      (l : List ℕ) (s s' : StateDb T) → finalise_accounts b del l s ≡ ok s' → IsCovered s l
  unfolding finalise_accounts elem
  finalise_accounts-IsCovered [] s s' e = λ a o m f. cc
  finalise_accounts-IsCovered (k ∷ l) s s' e = λ a o m f.
      let (s1, first, rest) =
        >>=-eq-ok (finalise_account b del k s) (finalise_accounts b del l) e in
      let (same, head) = finalise_account-covered k s s1 first in
      let tail : elem a l ≡ true → pos 0 ≤ℤ o.balance =
        λ m'. finalise_accounts-IsCovered l s1 s' rest a o m' (rw same f) in
      ground (arith, head o)

  -- On a tracked state, with a codec that keeps `IsCodec`, `AccountFinalise` comes back exactly
  -- if no account of the dirty set has a negative balance.
  pub account_finalise_ok_iff :
      (s : StateDb T)
      → IsTracked b s
      → ((s' : StateDb T) × (account_finalise b del s ≡ ok s'))
        ↔ IsCovered s s.account_objects_dirty
  unfolding account_finalise
  account_finalise_ok_iff s h = (
    λ r. finalise_accounts-IsCovered s.account_objects_dirty s r.0 r.1,
    finalise_accounts-ok s.account_objects_dirty s h.cached,
  )
