-- ===== src/Chain/Exec/Committed.antt =====
-- What a block's transactions change is in the tries once the state is committed
-- (`validateBlock`, libraries/chain/space/worker.go, and `CommitTo`,
-- libraries/chain/space/state/statemanage.go).
use gocoin.Chain.Exec.Tracked.{validate_txs-IsTracked, IsSame-trans}
use gocoin.State.Commit.Accounts.{account_finalise-view}
use gocoin.State.Account.{AccountObject, account_empty}
use gocoin.State.View.{view, stored}
use gocoin.State.Commit.{
  commit_state, finalise_space, finalise_spaces, space_finalise, update_space_object,
  delete_space_object, account_finalise,
}
use gocoin.Chain.Exec.{Run, validate_txs}
use gocoin.Chain.Tx.{Services, Tx}
use gocoin.State.Tracked.{IsTracked, new_state-IsTracked}
use gocoin.State.Tracked.Bind.{IsSame, IsTracked-same}
use gocoin.State.Db.{StateDb, new_state}
use gocoin.State.Backend.{Backend, IsTrie, IsCodec}
use gocoin.Common.{
  >>=-eq-ok, Bool, List, Result, [], ap, arith, false, ok, panic, some, sym, true, ℕ, ◌∙◌, ◌∷◌, ◌≡◌,
  nat_eq,
}

module _ {T R : Type 0} (b : Backend T) (v : Services R) where
  abbrev final : StateDb T → Result (ℕ × ℕ × Bool × StateDb T) → StateDb T
  final s (ok (rs, ra, err, s')) = s'
  final s (panic f) = s

  finalise_space-IsSame :
      (del : Bool) (k : ℕ) (s s' : StateDb T) → finalise_space b del k s ≡ ok s' → IsSame s s'
  unfolding finalise_space update_space_object delete_space_object
  finalise_space-IsSame del k s s' e = grind arith

  finalise_spaces-IsSame :
      (del : Bool) (l : List ℕ) (s s' : StateDb T) → finalise_spaces b del l s ≡ ok s' → IsSame s s'
  unfolding finalise_spaces
  finalise_spaces-IsSame del [] s s' e = ground arith
  finalise_spaces-IsSame del (k ∷ l) s s' e =
      let (s1, e1, f1) = >>=-eq-ok (finalise_space b del k s) _ e in
      IsSame-trans b v s s1 s' (finalise_space-IsSame del k s s1 e1)
        (finalise_spaces-IsSame del l s1 s' f1)

  view-same : (s s' : StateDb T) (j : ℕ) → IsSame s s' → view b s' j ≡ view b s j
  unfolding view
  view-same s s' j (e1, e2, e3) = ground (arith, e1, e3)

  -- When transactions have run as in `validateBlock` on a newly opened state and `CommitTo`
  -- comes back, the account trie by itself holds every non-empty account of the ledger that the
  -- run left, and no account that this ledger does not have, for a trie and a codec that keep
  -- `IsTrie` and `IsCodec`.
  pub commit_state-ledger :
      (trie : IsTrie b) (codec : IsCodec b) (rep : R) (root_space root_account : ℕ) (s : StateDb T)
      (txs : List Tx) (run run' : Run T) (rs ra : ℕ) (err : Bool) (s' : StateDb T) (j : ℕ)
      → new_state b root_space root_account ≡ some s
      → run.state ≡ s
      → validate_txs b v rep txs run ≡ ok run'
      → commit_state b run'.state ≡ ok (rs, ra, err, s')
      → ((o : AccountObject)
          → account_empty o ≡ false
          → view b run'.state j ≡ some o
          → stored b s'.trie_account j ≡ some o)
        × ((o : AccountObject) → stored b s'.trie_account j ≡ some o → view b run'.state j ≡ some o)
  unfolding commit_state space_finalise
  commit_state-ledger trie codec rep rsp rac s txs run run' rs ra err s' j e0 e1 e2 e3 =
      let h : IsTracked b run'.state =
        validate_txs-IsTracked b v rep txs run run' (rw e1 (new_state-IsTracked b rsp rac s e0))
          e2 in
      let (s1, f1, g1) = >>=-eq-ok (space_finalise b true run'.state) _ e3 in
      let (s2, f2, g2) = >>=-eq-ok (account_finalise b true s1) _ g1 in
      let same : IsSame run'.state s1 =
        finalise_spaces-IsSame true run'.state.space_objects_dirty run'.state s1 f1 in
      let last : s2 ≡ s' = ap (final s2) g2 in
      let (keeps, adds) =
        account_finalise-view b trie codec true s1 s2 j (IsTracked-same b run'.state s1 same h)
          f2 in
      (
        λ o n w.
            ap (λ t. stored b t.trie_account j) (sym last)
            ∙ keeps o n (view-same run'.state s1 j same ∙ w),
        λ o w.
            sym (view-same run'.state s1 j same)
            ∙ adds o (ap (λ t. stored b t.trie_account j) last ∙ w),
      )
