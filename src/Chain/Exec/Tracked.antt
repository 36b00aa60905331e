-- ===== src/Chain/Exec/Tracked.antt =====
-- The transactions of a block keep track of the accounts that they change
-- (`validateBlock`, libraries/chain/space/worker.go).
use gocoin.State.Bind.{create_space_and_bind_addr}
use gocoin.Chain.Exec.{
  Run, validate_kind, create_space, liquidate, liquidate_all, liquidation_to_state,
  liquidate_report, create_space_and_bind_addr, with_state, deref, validate_tx, validate_txs, kind,
  sender_of, add_balance, rest_of, set_attribute_of,
}
use gocoin.Chain.Tx.{
  uint64, space_creation, recharge, attr_set, create_group, publish_coin, epoch_tx, epoch_sig_tx,
  apply_group, stell_report, stell_group, coin_group, transaction_group, other_kind, Services, Tx,
  Kind, deref, kind, sender_of, rest_of,
}
use gocoin.State.Tracked.{IsTracked}
use gocoin.State.Tracked.Ops.{balances-IsTracked, attributes-IsTracked}
use gocoin.State.Tracked.Bind.{
  IsSame, create_space_and_bind_addr-IsTracked, IsTracked-same, get_space_object-IsSame,
}
use gocoin.State.Ops.{
  get_space_balance_by_id, sub_space_balance_by_id, sub_space_balance, sub_balance, add_balance,
  set_attribute_of,
}
use gocoin.State.Db.{StateDb, modify_space, get_space_object}
use gocoin.State.Backend.{Backend}
use mathlib.Core.Path.{subst}
use gocoin.Common.{
  >>=-eq-ok, Bool-cases, Bytes, List, Option, Option-cases, Result, [], arith, inl, inr, ltb, none,
  ok, panic, pos, some, subst, ℕ, ℤ, ◌%◌, ◌+ℤ◌, ◌^◌, ◌∙◌, ◌∷◌, ◌≡◌, ◌>>=◌, nat_eq,
}

module _ {T R : Type 0} (b : Backend T) (v : Services R) where
  charge-IsTracked :
      (a : ℕ) (x : ℤ) (s : StateDb T) → IsTracked b s → IsTracked b (sub_balance b a x s).1
  charge-IsTracked a x s h = (balances-IsTracked b a x s h).1

  pub IsSame-trans : (s s1 s2 : StateDb T) → IsSame s s1 → IsSame s1 s2 → IsSame s s2
  IsSame-trans s s1 s2 (a, b', c) (a', b'', c') = (a' ∙ a, b'' ∙ b', c' ∙ c)

  sub_space_balance-IsSame : (x : ℤ) (k : ℕ) (s : StateDb T) → IsSame s (sub_space_balance x k s)
  unfolding sub_space_balance modify_space
  sub_space_balance-IsSame x k s = ground arith

  sub_space_balance_by_id-IsSame :
      (id : ℕ) (x : ℤ) (s : StateDb T) → IsSame s (sub_space_balance_by_id b id x s).1
  unfolding sub_space_balance_by_id sub_space_balance
  sub_space_balance_by_id-IsSame id x s =
      let (p, _, s') = get_space_object b id s in
      elim (Option-cases p) [
        | inl e ↦ rw e (get_space_object-IsSame b id s)
        | inr (k, e) ↦ rw e (
            IsSame-trans s s' (sub_space_balance x k s') (get_space_object-IsSame b id s)
              (sub_space_balance-IsSame x k s'))
      ]

  liquidate-IsTracked :
      (r : ℕ × ℕ) (s : StateDb T) → IsTracked b s → IsTracked b (liquidate b v r s)
  unfolding liquidate get_space_balance_by_id
  liquidate-IsTracked (gas, id) s h =
      let (balance, _, s1) = get_space_balance_by_id b id s in
      let h1 : IsTracked b s1 = IsTracked-same b s s1 (get_space_object-IsSame b id s) h in
      let paid = λ (x : ℤ).
        IsTracked-same b s1 (sub_space_balance_by_id b id x s1).1
          (sub_space_balance_by_id-IsSame id x s1) h1 in
      elim (Bool-cases (ltb (gas % 2 ^ 64) (uint64 balance))) [
        | inl e ↦ rw e (paid (pos gas))
        | inr e ↦ rw e (paid balance)
      ]

  liquidate_all-IsTracked :
      (rs : List (ℕ × ℕ)) (s : StateDb T) → IsTracked b s → IsTracked b (liquidate_all b v rs s)
  unfolding liquidate_all
  liquidate_all-IsTracked [] s h = h
  liquidate_all-IsTracked (r ∷ rs) s h =
      liquidate_all-IsTracked rs (liquidate b v r s) (liquidate-IsTracked r s h)

  liquidate_report-IsTracked :
      (bytes : Bytes) (s : StateDb T) → IsTracked b s → IsTracked b (liquidate_report b v bytes s)
  unfolding liquidate_report liquidation_to_state
  liquidate_report-IsTracked [] s h = h
  liquidate_report-IsTracked (c ∷ cs) s h =
      elim (v.decode_reports (c ∷ cs))
        as (λ q. IsTracked b (elim q [ none ↦ s | some reports ↦ liquidate_all b v reports s ])) [
          | none ↦ h
          | some rs ↦ liquidate_all-IsTracked rs s h
        ]

  create_space-IsTracked :
      (to : ℕ) (run : Run T) → IsTracked b run.state → IsTracked b (create_space b v to run).state
  unfolding create_space
  create_space-IsTracked to run h =
      let (w, s1) = create_space_and_bind_addr b run.space_id run.wallet_id to run.state in
      (balances-IsTracked b to (pos 0) s1
        (create_space_and_bind_addr-IsTracked b run.space_id run.wallet_id to run.state h)).2

  abbrev state_of : Run T → Result (Run T) → StateDb T
  state_of run (ok r) = r.state
  state_of run (panic f) = run.state

  recipient-IsTracked :
      (p : Option ℕ) (f : ℕ → Run T) (run : Run T)
      → ((to : ℕ) → IsTracked b (f to).state)
      → IsTracked b run.state
      → IsTracked b (state_of run (do to ← deref p; ok (f to)))
  recipient-IsTracked none f run h h' = h'
  recipient-IsTracked (some to) f run h h' = h to

  kind-IsTracked :
      (rep : R) (k : Kind) (tx : Tx) (run : Run T)
      → IsTracked b run.state
      → IsTracked b (state_of run (validate_kind b v rep k tx run))
  unfolding validate_kind
  kind-IsTracked rep space_creation tx run h =
      recipient-IsTracked tx.recipient (λ to. create_space b v to run) run
        (λ to. create_space-IsTracked to run h) h
  kind-IsTracked rep recharge tx run h =
      recipient-IsTracked tx.recipient
        (λ to.
          with_state
            (λ s. (sub_balance b (sender_of v tx) tx.cost (add_balance b to tx.amount s).1).1) run)
        run
        (λ to.
          charge-IsTracked (sender_of v tx) tx.cost (add_balance b to tx.amount run.state).1
            (balances-IsTracked b to tx.amount run.state h).0)
        h
  kind-IsTracked rep attr_set tx run h =
      let (key, x) = v.decode_attr (rest_of tx.payload) in
      recipient-IsTracked tx.recipient
        (λ to.
          with_state
            (λ s. (sub_balance b (sender_of v tx) tx.cost (set_attribute_of b to key x s).1).1) run)
        run
        (λ to.
          charge-IsTracked (sender_of v tx) tx.cost (set_attribute_of b to key x run.state).1
            (attributes-IsTracked b to key x run.state h).0)
        h
  kind-IsTracked rep create_group tx run h = charge-IsTracked (sender_of v tx) tx.cost run.state h
  kind-IsTracked rep publish_coin tx run h = charge-IsTracked (sender_of v tx) tx.cost run.state h
  kind-IsTracked rep epoch_tx tx run h = h
  kind-IsTracked rep epoch_sig_tx tx run h = charge-IsTracked (sender_of v tx) tx.cost run.state h
  kind-IsTracked rep apply_group tx run h = charge-IsTracked (sender_of v tx) tx.cost run.state h
  kind-IsTracked rep stell_report tx run h =
      liquidate_report-IsTracked (v.get_report rep (v.tx_hash tx)) run.state h
  kind-IsTracked rep stell_group tx run h = charge-IsTracked (sender_of v tx) tx.cost run.state h
  kind-IsTracked rep coin_group tx run h = charge-IsTracked (sender_of v tx) tx.cost run.state h
  kind-IsTracked rep transaction_group tx run h =
      charge-IsTracked (sender_of v tx) tx.cost run.state h
  kind-IsTracked rep other_kind tx run h = h

  pub validate_tx-IsTracked :
      (rep : R) (tx : Tx) (run run' : Run T)
      → IsTracked b run.state
      → validate_tx b v rep tx run ≡ ok run'
      → IsTracked b run'.state
  unfolding validate_tx
  validate_tx-IsTracked rep tx run run' h e =
      let (k, e1, f1) = >>=-eq-ok (kind tx.payload) _ e in
      let run1 : Run T = record run { cost = run.cost +ℤ tx.cost } in
      subst (λ r. IsTracked b (state_of run1 r)) f1 (kind-IsTracked rep k tx run1 h)

  pub validate_txs-IsTracked :
      (rep : R) (txs : List Tx) (run run' : Run T)
      → IsTracked b run.state
      → validate_txs b v rep txs run ≡ ok run'
      → IsTracked b run'.state
  unfolding validate_txs
  validate_txs-IsTracked rep [] run run' h e = subst (λ r. IsTracked b (state_of run r)) e h
  validate_txs-IsTracked rep (tx ∷ txs) run run' h e =
      let (run1, e1, f1) = >>=-eq-ok (validate_tx b v rep tx run) _ e in
      validate_txs-IsTracked rep txs run1 run' (validate_tx-IsTracked rep tx run run1 h e1) f1
