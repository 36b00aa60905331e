-- ===== src/Chain/Blocks/Accepted.antt =====
-- What it means that `validateBlock` accepts a block (libraries/chain/space/worker.go), and what
-- inserting it does then (libraries/chain/space/blockchain.go).
use gocoin.Chain.Apply.Agree.{run_of, IsReports, IsOnce, apply_transactions-run}
use gocoin.Group.Store.{Database}
use gocoin.Chain.Apply.{Chain, apply_transactions}
use gocoin.Chain.Exec.{Run, validate_txs}
use gocoin.Chain.Blocks.{validate_block, start, open_state, not}
use gocoin.Chain.Tx.{Services, Block, uint64}
use gocoin.State.Commit.{commit_state}
use gocoin.State.Db.{StateDb}
use gocoin.State.Backend.{Backend}
use gocoin.State.Account.{Account}
use gocoin.State.Commit.Orders.{with_encoder, AgreesOnFew, FewAttributes, commit_state-same}
use gocoin.Chain.Exec.Orders.{validate_txs-same}
use gocoin.Common.{
  >>=-eq-ok, Bool, Bool-cases, Bytes, Option, Result, ap, arith, false, inl, inr, leb, ok, panic,
  refl, some, sym, true, ℕ, ◌%◌, ◌&&◌, ◌<◌, ◌==◌, ◌>>=◌, ◌^◌, ◌||◌, ◌∙◌, ◌≡◌,
}

-- A block that fits its head: its transactions run on the head's state, which then commits to
-- the roots in its header, with the space index and the cost in its header (their low 64 bits),
-- and it comes after the head.
pub record IsFitting {T R : Type 0} (b : Backend T) (v : Services R) (rep : R) (head blk : Block)
    (s : StateDb T) (run : Run T) : Type 0 where
  pub opened : open_state b v head ≡ ok s
  pub ran : validate_txs b v rep blk.transactions (start b v head s) ≡ ok run
  pub committed :
      (err : Bool) × (s' : StateDb T) × (commit_state b run.state
        ≡ ok (blk.header.space_root, blk.header.acc_root, err, s'))
  pub parent : blk.header.uncle_hash ≡ v.header_hash head.header
  pub later : head.header.number % 2 ^ 64 < blk.header.number % 2 ^ 64
  pub index : blk.header.id_index % 2 ^ 64 ≡ run.space_id % 2 ^ 64
  pub gas : uint64 blk.header.gas_used ≡ uint64 run.cost

guard_false : (h i m n : ℕ) → (not (h == i) || leb m n) ≡ false → (h ≡ i) × (n < m)
guard_false h i m n e = ground arith

tests_true :
    (a b c d e f g h : ℕ)
    → (a == b && c == d && e == f && g == h) ≡ true
    → (a ≡ b) × (c ≡ d) × (e ≡ f) × (g ≡ h)
tests_true a b c d e f g h p = ground arith

abbrev is_true : Result Bool → Bool
is_true (ok x) = x
is_true (panic f) = false

applied :
    {T D R : Type 0} (r : Result (Chain T D R)) (run : Run T)
    → run_of r ≡ ok run
    → (c : Chain T D R) × (r ≡ ok c) × (c.run ≡ run)
applied (ok c) run e = (c, refl, cc)
applied (panic f) run e = cc

abbrev roots : {T : Type 0} → ℕ → ℕ → Bool → StateDb T → Result (ℕ × ℕ × Bool × StateDb T)
roots rs ra err s = ok (rs, ra, err, s)

same_roots :
    {T : Type 0} {i j : ℕ} (rs ra : ℕ) (err : Bool) (s : StateDb T)
    → i ≡ rs
    → j ≡ ra
    → roots rs ra err s ≡ roots i j err s
same_roots {i} rs ra err s p q =
    ap (λ x. roots x ra err s) (sym p) ∙ ap (λ y. roots i y err s) (sym q)

abbrev run_or : {T : Type 0} → Run T → Result (Run T) → Run T
run_or run (ok r) = r
run_or run (panic f) = run

module _ {T R : Type 0} (b : Backend T) (v : Services R) where
  -- If `validateBlock` accepts a block, then the block fits its head: it names the head's hash,
  -- its number is later in the low 64 bits, its transactions run on the head's state, which
  -- commits to the roots in the block's header, and the space index and the cost of the run are
  -- the header's in the low 64 bits.
  pub validate_block-IsFitting :
      (rep : R) (head blk : Block)
      → validate_block b v rep (some head) blk ≡ ok true
      → (s : StateDb T) × (run : Run T) × IsFitting b v rep head blk s run
  unfolding validate_block
  validate_block-IsFitting rep head blk e =
      elim (Bool-cases (
        not (blk.header.uncle_hash == v.header_hash head.header)
        || leb (blk.header.number % 2 ^ 64) (head.header.number % 2 ^ 64))) [
          | inl g ↦ absurd (ground (arith, rw g at e))
          | inr g ↦
              let e' = rw g at e in
              let (s, e1, f1) = >>=-eq-ok (open_state b v head) _ e' in
              let (run, e2, f2) =
                >>=-eq-ok (validate_txs b v rep blk.transactions (start b v head s)) _ f1 in
              let ((rs, ra, err, s'), e3, f3) = >>=-eq-ok (commit_state b run.state) _ f2 in
              let (p1, p2, p3, p4) =
                tests_true blk.header.space_root rs blk.header.acc_root ra
                  (blk.header.id_index % 2 ^ 64) (run.space_id % 2 ^ 64)
                  (uint64 blk.header.gas_used) (uint64 run.cost) (ap is_true f3) in
              let (q1, q2) =
                guard_false blk.header.uncle_hash (v.header_hash head.header)
                  (blk.header.number % 2 ^ 64) (head.header.number % 2 ^ 64) g in
              (
                s,
                run,
                record {
                  opened = e1;
                  ran = e2;
                  committed = (err, s', e3 ∙ same_roots rs ra err s' p1 p2);
                  parent = q1;
                  later = q2;
                  index = p3;
                  gas = p4;
                },
              )
        ]

  -- If `validateBlock` accepts a block of which no two transactions have the same hash, then
  -- applying its transactions, from the head's state and ids and with the reports of the
  -- validation, does not panic, and leaves a state that commits to the roots in the block's
  -- header, whatever order of the attributes the encoder takes then, if the run of the
  -- validation leaves no cached account with two attributes, and deleting a report leaves the
  -- other reports.
  pub validate_block-insert :
      {D : Type 0} (d : Database D) (laws : IsReports v) (enc : Account → Option Bytes)
      (head blk : Block) (c : Chain T D R)
      → IsOnce v blk.transactions
      → AgreesOnFew b.encode_account enc
      → ((s : StateDb T) (run : Run T)
          → open_state b v head ≡ ok s
          → validate_txs b v c.reports blk.transactions (start b v head s) ≡ ok run
          → FewAttributes run.state)
      → validate_block b v c.reports (some head) blk ≡ ok true
      → (open_state b v head >>= λ s. ok (start b v head s)) ≡ ok c.run
      → (c' : Chain T D R) × (err : Bool) × (s' : StateDb T) × (apply_transactions
            (with_encoder enc b)
            v
            d
            blk.transactions
            c
          ≡ ok c')
        × (commit_state (with_encoder enc b) c'.run.state
            ≡ ok (blk.header.space_root, blk.header.acc_root, err, s'))
  validate_block-insert d laws enc head blk c once agrees few e from =
      let (s, run, fits) = validate_block-IsFitting c.reports head blk e in
      let begun : c.run ≡ start b v head s =
        ap (run_or c.run) (sym from ∙ ap (λ r. r >>= λ t. ok (start b v head t)) fits.opened) in
      let same : run_of (apply_transactions (with_encoder enc b) v d blk.transactions c) ≡ ok run =
        apply_transactions-run (with_encoder enc b) v d laws blk.transactions c once
        ∙ validate_txs-same b v enc c.reports blk.transactions c.run
        ∙ ap (validate_txs b v c.reports blk.transactions) begun
        ∙ fits.ran in
      let (c', e1, e2) =
        applied (apply_transactions (with_encoder enc b) v d blk.transactions c) run same in
      let (err, s', e3) = fits.committed in
      (
        c',
        err,
        s',
        e1,
        ap (λ r. commit_state (with_encoder enc b) r.state) e2
            ∙ commit_state-same b enc agrees run.state (few s run fits.opened fits.ran)
            ∙ e3,
      )
