-- ===== src/Chain/Apply/Agree.antt =====
-- Inserting a block (libraries/chain/space/blockchain.go) and validating it
-- (libraries/chain/space/worker.go) run the same ledger.
use gocoin.Chain.Exec.Agree.{bind-cong}
use gocoin.Chain.Apply.{apply_kind, settle, apply_transaction, Chain, kind, apply_transactions}
use gocoin.Chain.Exec.{with_state, Run, validate_kind, validate_tx, liquidate_report, validate_txs}
use gocoin.Chain.Tx.{
  Services, Tx, Kind, space_creation, recharge, attr_set, create_group, publish_coin, epoch_tx,
  epoch_sig_tx, apply_group, stell_report, stell_group, coin_group, transaction_group, other_kind,
  kind,
}
use gocoin.State.Backend.{Backend}
use gocoin.Group.Store.{Database}
use gocoin.Common.{
  >>=-eq-ok, Bytes, Fault, List, Option-cases, Result, [], ap, arith, inl, inr, ok, panic, refl,
  sym, ℕ, ◌+ℤ◌, ◌>>=◌, ◌∙◌, ◌∷◌, ◌≡◌, ◌≢◌, ◌⊎◌,
}

-- The ledger of a result.
abbrev pub run_of : {T D R : Type 0} → Result (Chain T D R) → Result (Run T)
run_of (ok c) = ok c.run
run_of (panic f) = panic f

-- No transaction of a list has the hash.
pub data IsFresh {R : Type 0} (v : Services R) (h : ℕ) : List Tx → Type 0 where
  fresh_nil : IsFresh v h []
  fresh_cons :
      (tx : Tx) (txs : List Tx) → h ≢ v.tx_hash tx → IsFresh v h txs → IsFresh v h (tx ∷ txs)

-- No two transactions of a list have the same hash.
pub data IsOnce {R : Type 0} (v : Services R) : List Tx → Type 0 where
  once_nil : IsOnce v []
  once_cons :
      (tx : Tx) (txs : List Tx) → IsFresh v (v.tx_hash tx) txs → IsOnce v txs → IsOnce v (tx ∷ txs)

-- Two report databases that differ at most at one hash.
abbrev IsSameBut : {R : Type 0} → Services R → ℕ → R → R → Type 0
IsSameBut v h r r' = (h' : ℕ) → h ≢ h' → v.get_report r' h' ≡ v.get_report r h'

-- Deleting a report leaves the others.
pub record IsReports {R : Type 0} (v : Services R) : Type 0 where
  pub delete_other : (r : R) (h : ℕ) → IsSameBut v h r (v.delete_report r h)

Result-cases {ℓ} :
    {A : Type ℓ} (r : Result A) → ((a : A) × (r ≡ ok a)) ⊎ ((f : Fault) × (r ≡ panic f))
Result-cases (ok a) = inl (a, refl)
Result-cases (panic f) = inr (f, refl)

module _ {T D R : Type 0} (b : Backend T) (v : Services R) (d : Database D) where
  settle_run :
      (k : Kind) (tx : Tx) (c : Chain T D R) (report : Bytes)
      → v.get_report c.reports (v.tx_hash tx) ≡ report
      → run_of (apply_kind b v d stell_report tx c)
        ≡ validate_kind b v c.reports stell_report tx c.run
  unfolding apply_kind validate_kind liquidate_report
  settle_run k tx c [] e = rw (e, apply_kind, validate_kind) refl
  settle_run k tx c (x ∷ xs) e = rw (e, apply_kind, validate_kind) refl

  apply_kind-run :
      (k : Kind) (tx : Tx) (c : Chain T D R)
      → run_of (apply_kind b v d k tx c) ≡ validate_kind b v c.reports k tx c.run
  unfolding apply_kind validate_kind
  apply_kind-run space_creation tx c = elim (Option-cases tx.recipient) [
    | inl e ↦ rw e refl
    | inr (to, e) ↦ rw e refl
  ]
  apply_kind-run recharge tx c = elim (Option-cases tx.recipient) [
    | inl e ↦ rw e refl
    | inr (to, e) ↦ rw e refl
  ]
  apply_kind-run attr_set tx c = elim (Option-cases tx.recipient) [
    | inl e ↦ rw e refl
    | inr (to, e) ↦ rw e refl
  ]
  apply_kind-run create_group tx c = refl
  apply_kind-run publish_coin tx c = refl
  apply_kind-run epoch_tx tx c = refl
  apply_kind-run epoch_sig_tx tx c = refl
  apply_kind-run apply_group tx c = refl
  apply_kind-run stell_report tx c =
      settle_run stell_report tx c (v.get_report c.reports (v.tx_hash tx)) refl
  apply_kind-run stell_group tx c = refl
  apply_kind-run coin_group tx c = refl
  apply_kind-run transaction_group tx c = refl
  apply_kind-run other_kind tx c = refl

  -- Inserting a transaction changes the ledger as validating it does, and panics where it does.
  pub apply_transaction-run :
      (tx : Tx) (c : Chain T D R)
      → run_of (apply_transaction b v d tx c) ≡ validate_tx b v c.reports tx c.run
  unfolding apply_transaction validate_tx
  apply_transaction-run tx c = elim (Result-cases (kind tx.payload)) [
    | inl (k, e) ↦
        rw (e, apply_transaction, validate_tx)
          (apply_kind-run k tx (record c { run = record (c.run) { cost = c.run.cost +ℤ tx.cost } }))
    | inr (f, e) ↦ rw (e, apply_transaction, validate_tx) refl
  ]

  settle_reports :
      (laws : IsReports v) (hash : ℕ) (report : Bytes) (c : Chain T D R)
      → IsSameBut v hash c.reports (settle b v d hash report c).reports
  settle_reports laws hash [] c h' ne = refl
  settle_reports laws hash (x ∷ xs) c h' ne = laws.delete_other c.reports hash h' ne

  apply_kind-reports :
      (laws : IsReports v) (k : Kind) (tx : Tx) (c c' : Chain T D R)
      → apply_kind b v d k tx c ≡ ok c'
      → IsSameBut v (v.tx_hash tx) c.reports c'.reports
  unfolding apply_kind
  apply_kind-reports laws space_creation tx c c' e h' ne = elim (Option-cases tx.recipient) [
    | inl f ↦ grind (arith, e, f)
    | inr (to, f) ↦ grind (arith, e, f)
  ]
  apply_kind-reports laws recharge tx c c' e h' ne = elim (Option-cases tx.recipient) [
    | inl f ↦ grind (arith, e, f)
    | inr (to, f) ↦ grind (arith, e, f)
  ]
  apply_kind-reports laws attr_set tx c c' e h' ne = elim (Option-cases tx.recipient) [
    | inl f ↦ grind (arith, e, f)
    | inr (to, f) ↦ grind (arith, e, f)
  ]
  apply_kind-reports laws create_group tx c c' e h' ne = cc
  apply_kind-reports laws publish_coin tx c c' e h' ne = cc
  apply_kind-reports laws epoch_tx tx c c' e h' ne = cc
  apply_kind-reports laws epoch_sig_tx tx c c' e h' ne = cc
  apply_kind-reports laws apply_group tx c c' e h' ne = cc
  apply_kind-reports laws stell_report tx c c' e h' ne = grind (arith, settle_reports laws, e)
  apply_kind-reports laws stell_group tx c c' e h' ne = cc
  apply_kind-reports laws coin_group tx c c' e h' ne = cc
  apply_kind-reports laws transaction_group tx c c' e h' ne = cc
  apply_kind-reports laws other_kind tx c c' e h' ne = cc

  validate_kind-fresh :
      (h : ℕ) (r r' : R) (k : Kind) (tx : Tx) (run : Run T)
      → IsSameBut v h r r'
      → h ≢ v.tx_hash tx
      → validate_kind b v r' k tx run ≡ validate_kind b v r k tx run
  unfolding validate_kind
  validate_kind-fresh h r r' space_creation tx run same ne = refl
  validate_kind-fresh h r r' recharge tx run same ne = refl
  validate_kind-fresh h r r' attr_set tx run same ne = refl
  validate_kind-fresh h r r' create_group tx run same ne = refl
  validate_kind-fresh h r r' publish_coin tx run same ne = refl
  validate_kind-fresh h r r' epoch_tx tx run same ne = refl
  validate_kind-fresh h r r' epoch_sig_tx tx run same ne = refl
  validate_kind-fresh h r r' apply_group tx run same ne = refl
  validate_kind-fresh h r r' stell_report tx run same ne =
      ap (λ l. ok (with_state (liquidate_report b v l) run)) (same (v.tx_hash tx) ne)
  validate_kind-fresh h r r' stell_group tx run same ne = refl
  validate_kind-fresh h r r' coin_group tx run same ne = refl
  validate_kind-fresh h r r' transaction_group tx run same ne = refl
  validate_kind-fresh h r r' other_kind tx run same ne = refl

  validate_tx-fresh :
      (h : ℕ) (r r' : R) (tx : Tx) (run : Run T)
      → IsSameBut v h r r'
      → h ≢ v.tx_hash tx
      → validate_tx b v r' tx run ≡ validate_tx b v r tx run
  unfolding validate_tx
  validate_tx-fresh h r r' tx run same ne =
      bind-cong (kind tx.payload)
        (λ k. validate_kind-fresh h r r' k tx (record run { cost = run.cost +ℤ tx.cost }) same ne)

  validate_txs-fresh :
      (h : ℕ) (r r' : R) (txs : List Tx) (run : Run T)
      → IsSameBut v h r r'
      → IsFresh v h txs
      → validate_txs b v r' txs run ≡ validate_txs b v r txs run
  unfolding validate_txs
  validate_txs-fresh h r r' [] run same fresh = refl
  validate_txs-fresh h r r' (tx ∷ txs) run same (fresh_cons _ _ ne rest) =
      ap (λ r. r >>= validate_txs b v r' txs) (validate_tx-fresh h r r' tx run same ne)
      ∙ bind-cong (validate_tx b v r tx run) (λ run'. validate_txs-fresh h r r' txs run' same rest)

  apply_transaction-reports :
      (laws : IsReports v) (tx : Tx) (c c' : Chain T D R)
      → apply_transaction b v d tx c ≡ ok c'
      → IsSameBut v (v.tx_hash tx) c.reports c'.reports
  unfolding apply_transaction
  apply_transaction-reports laws tx c c' e =
      let (k, e1, f1) = >>=-eq-ok (kind tx.payload) _ e in
      apply_kind-reports laws k tx
        (record c { run = record (c.run) { cost = c.run.cost +ℤ tx.cost } }) c' f1

  -- Inserting transactions, of which no two have the same hash, takes the ledger where
  -- validating them takes it, and panics where validating panics, if deleting a report leaves
  -- the other reports.
  pub apply_transactions-run :
      (laws : IsReports v) (txs : List Tx) (c : Chain T D R)
      → IsOnce v txs
      → run_of (apply_transactions b v d txs c) ≡ validate_txs b v c.reports txs c.run
  unfolding apply_transactions validate_txs
  apply_transactions-run laws [] c once = refl
  apply_transactions-run laws (tx ∷ txs) c (once_cons _ _ fresh once) =
      elim (Result-cases (apply_transaction b v d tx c)) [
        | inl (c', e) ↦
            ap (λ r. run_of (r >>= apply_transactions b v d txs)) e
            ∙ apply_transactions-run laws txs c' once
            ∙ validate_txs-fresh (v.tx_hash tx) c.reports c'.reports txs c'.run
                (apply_transaction-reports laws tx c c' e) fresh
            ∙ ap (λ r. r >>= validate_txs b v c.reports txs)
                (ap run_of (sym e) ∙ apply_transaction-run tx c)
        | inr (f, e) ↦
            ap (λ r. run_of (r >>= apply_transactions b v d txs)) e
            ∙ ap (λ r. r >>= validate_txs b v c.reports txs)
                (ap run_of (sym e) ∙ apply_transaction-run tx c)
      ]
