-- ===== src/Chain/Exec/Effect.antt =====
-- What each type of transaction does to the accounts (libraries/chain/space/worker.go).
use gocoin.Chain.Exec.{
  Run, validate_kind, liquidate, liquidate_all, liquidation_to_state, liquidate_report, deref,
  with_state, sub_balance, set_attribute_of, add_balance,
}
use gocoin.Chain.Tx.{
  Services, Tx, Kind, sender_of, rest_of, space_creation, recharge, attr_set, create_group,
  publish_coin, epoch_tx, epoch_sig_tx, apply_group, stell_report, stell_group, coin_group,
  transaction_group, other_kind, deref,
}
use gocoin.State.Account.{AccountObject, set_attribute}
use gocoin.State.Refine.{
  updated, credit, debit, sub_balance-view, set_attribute_of-view, add_balance-view,
}
use gocoin.State.View.{view}
use gocoin.State.Ops.{
  get_space_balance_by_id, sub_space_balance_by_id, sub_space_balance, sub_balance, add_balance,
  set_attribute_of,
}
use gocoin.State.Db.{StateDb, get_space_object, modify_space}
use gocoin.State.Backend.{Backend}
use gocoin.Common.{
  Bytes, List, Option, Option-cases, Result, [], ap, arith, inl, inr, none, ok, panic, pos, refl,
  some, sym, ℕ, ℤ, ◌∙◌, ◌∷◌, ◌≡◌, ◌≢◌, ◌>>=◌, nat_eq,
}

-- A ledger: the accounts by their addresses.
abbrev pub Ledger : Type 0
Ledger = ℕ → Option AccountObject

abbrev pay : {R : Type 0} → Services R → Tx → Ledger → Ledger
pay v tx m = updated (sender_of v tx) (debit tx.cost) m

abbrev with_recipient : Option ℕ → (ℕ → Ledger → Ledger) → Ledger → Ledger
with_recipient none f m = m
with_recipient (some to) f m = f to m

-- The accounts after a transaction: its cost is taken from the sender, a recharge first adds its
-- amount to the recipient's balance, and an attribute is first set for the recipient. Only the
-- types without an effect and the report take no cost. The type that creates a space is left
-- out.
unfoldable pub effect : {R : Type 0} → Services R → Kind → Tx → Ledger → Ledger
effect v recharge tx m =
    with_recipient tx.recipient (λ to l. pay v tx (updated to (credit tx.amount) l)) m
effect v attr_set tx m =
    with_recipient tx.recipient
      (λ to l.
        let (k, x) = v.decode_attr (rest_of tx.payload) in
        pay v tx (updated to (set_attribute k x) l))
      m
effect v create_group tx m = pay v tx m
effect v publish_coin tx m = pay v tx m
effect v epoch_sig_tx tx m = pay v tx m
effect v apply_group tx m = pay v tx m
effect v stell_group tx m = pay v tx m
effect v coin_group tx m = pay v tx m
effect v transaction_group tx m = pay v tx m
effect v epoch_tx tx m = m
effect v stell_report tx m = m
effect v other_kind tx m = m
effect v space_creation tx m = m

updated-cong :
    (a j : ℕ) (f : AccountObject → AccountObject) {m m' : Ledger}
    → ((i : ℕ) → m i ≡ m' i)
    → updated a f m j ≡ updated a f m' j
updated-cong a j f h = ground (arith, h a, h j)

module _ {T R : Type 0} (b : Backend T) (v : Services R) where
  get_space-view : (id j : ℕ) (s : StateDb T) → view b (get_space_object b id s).2 j ≡ view b s j
  unfolding view get_space_object
  get_space-view id j s = ground arith

  sub_space-view :
      (x : ℤ) (k j : ℕ) (s : StateDb T) → view b (sub_space_balance x k s) j ≡ view b s j
  unfolding view sub_space_balance modify_space
  sub_space-view x k j s = ground arith

  sub_space_balance_by_id-view :
      (id j : ℕ) (x : ℤ) (s : StateDb T)
      → view b (sub_space_balance_by_id b id x s).1 j ≡ view b s j
  unfolding sub_space_balance_by_id
  sub_space_balance_by_id-view id j x s =
      let (p, _, s') = get_space_object b id s in
      elim (Option-cases p) [
        | inl e ↦ grind (arith, get_space-view id j s)
        | inr (k, e) ↦ grind (arith, get_space-view id j s, sub_space-view x k j s')
      ]

  get_space_balance_by_id-view :
      (id j : ℕ) (s : StateDb T) → view b (get_space_balance_by_id b id s).2 j ≡ view b s j
  unfolding get_space_balance_by_id
  get_space_balance_by_id-view id j s = get_space-view id j s

  liquidate-view :
      (gas id j : ℕ) (s : StateDb T) → view b (liquidate b v (gas, id) s) j ≡ view b s j
  unfolding liquidate
  liquidate-view gas id j s =
      let (balance, _, s1) = get_space_balance_by_id b id s in
      grind (
        arith,
        get_space_balance_by_id-view id j s,
        sub_space_balance_by_id-view id j (pos gas) s1,
        sub_space_balance_by_id-view id j balance s1,
      )

  liquidate_all-view :
      (rs : List (ℕ × ℕ)) (j : ℕ) (s : StateDb T) → view b (liquidate_all b v rs s) j ≡ view b s j
  unfolding liquidate_all
  liquidate_all-view [] j s = refl
  liquidate_all-view ((gas, id) ∷ rs) j s =
      liquidate_all-view rs j (liquidate b v (gas, id) s) ∙ liquidate-view gas id j s

  liquidate_report-view :
      (bytes : Bytes) (j : ℕ) (s : StateDb T) → view b (liquidate_report b v bytes s) j ≡ view b s j
  unfolding liquidate_report liquidation_to_state
  liquidate_report-view [] j s = refl
  liquidate_report-view (c ∷ cs) j s =
      elim (v.decode_reports (c ∷ cs))
        as (λ q.
          view b (elim q [ none ↦ s | some reports ↦ liquidate_all b v reports s ]) j
          ≡ view b s j) [ none ↦ refl | some rs ↦ liquidate_all-view rs j s ]

  abbrev state_of : Run T → Result (Run T) → StateDb T
  state_of run (ok r) = r.state
  state_of run (panic f) = run.state

  recharge-effect :
      (p : Option ℕ) (tx : Tx) (run : Run T) (j : ℕ)
      → view b
          (state_of run (do
            to ← deref p
            ok (
                with_state
                  (λ s. (sub_balance b (sender_of v tx) tx.cost (add_balance b to tx.amount s).1).1)
                  run)))
          j
        ≡ with_recipient p (λ to l. pay v tx (updated to (credit tx.amount) l)) (view b run.state) j
  recharge-effect none tx run j = refl
  recharge-effect (some to) tx run j =
      sub_balance-view b (sender_of v tx) j tx.cost (add_balance b to tx.amount run.state).1
      ∙ updated-cong (sender_of v tx) j (debit tx.cost)
          (λ i. add_balance-view b to i tx.amount run.state)

  attribute-effect :
      (p : Option ℕ) (kx : Bytes × Bytes) (tx : Tx) (run : Run T) (j : ℕ)
      → let (k, x) = kx in
        view b
          (state_of run (do
            to ← deref p
            ok (
                with_state
                  (λ s. (sub_balance b (sender_of v tx) tx.cost (set_attribute_of b to k x s).1).1)
                  run)))
          j
        ≡ with_recipient p
            (λ to l. pay v tx (updated to (set_attribute k x) l))
            (view b run.state)
            j
  attribute-effect none kx tx run j = refl
  attribute-effect (some to) (k, x) tx run j =
      sub_balance-view b (sender_of v tx) j tx.cost (set_attribute_of b to k x run.state).1
      ∙ updated-cong (sender_of v tx) j (debit tx.cost)
          (λ i. set_attribute_of-view b to i k x run.state)

  -- If a transaction that does not create a space runs without a panic in `validateBlock`, then
  -- every account of the ledger afterwards is the one that `effect` computes from the ledger
  -- before.
  pub validate_kind-effect :
      (rep : R) (k : Kind) (tx : Tx) (run run' : Run T) (j : ℕ)
      → k ≢ space_creation
      → validate_kind b v rep k tx run ≡ ok run'
      → view b run'.state j ≡ effect v k tx (view b run.state) j
  unfolding validate_kind effect
  validate_kind-effect rep space_creation tx run run' j ne e = absurd (ne refl)
  validate_kind-effect rep recharge tx run run' j ne e =
      ap (λ r. view b (state_of run r) j) (sym e) ∙ recharge-effect tx.recipient tx run j
  validate_kind-effect rep attr_set tx run run' j ne e =
      ap (λ r. view b (state_of run r) j) (sym e)
      ∙ attribute-effect tx.recipient (v.decode_attr (rest_of tx.payload)) tx run j
  validate_kind-effect rep create_group tx run run' j ne e =
      ap (λ r. view b (state_of run r) j) (sym e)
      ∙ sub_balance-view b (sender_of v tx) j tx.cost run.state
  validate_kind-effect rep publish_coin tx run run' j ne e =
      ap (λ r. view b (state_of run r) j) (sym e)
      ∙ sub_balance-view b (sender_of v tx) j tx.cost run.state
  validate_kind-effect rep epoch_tx tx run run' j ne e = ap (λ r. view b (state_of run r) j) (sym e)
  validate_kind-effect rep epoch_sig_tx tx run run' j ne e =
      ap (λ r. view b (state_of run r) j) (sym e)
      ∙ sub_balance-view b (sender_of v tx) j tx.cost run.state
  validate_kind-effect rep apply_group tx run run' j ne e =
      ap (λ r. view b (state_of run r) j) (sym e)
      ∙ sub_balance-view b (sender_of v tx) j tx.cost run.state
  validate_kind-effect rep stell_report tx run run' j ne e =
      ap (λ r. view b (state_of run r) j) (sym e)
      ∙ liquidate_report-view (v.get_report rep (v.tx_hash tx)) j run.state
  validate_kind-effect rep stell_group tx run run' j ne e =
      ap (λ r. view b (state_of run r) j) (sym e)
      ∙ sub_balance-view b (sender_of v tx) j tx.cost run.state
  validate_kind-effect rep coin_group tx run run' j ne e =
      ap (λ r. view b (state_of run r) j) (sym e)
      ∙ sub_balance-view b (sender_of v tx) j tx.cost run.state
  validate_kind-effect rep transaction_group tx run run' j ne e =
      ap (λ r. view b (state_of run r) j) (sym e)
      ∙ sub_balance-view b (sender_of v tx) j tx.cost run.state
  validate_kind-effect rep other_kind tx run run' j ne e =
      ap (λ r. view b (state_of run r) j) (sym e)
