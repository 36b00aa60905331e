-- ===== src/Chain/Ticks.antt =====
-- `Worker.timeoutSubmission` of libraries/chain/space/worker.go: the ticks after a block was built.
-- The loop has no way out: its `break`s leave the `select` only.
use mathlib.Core.Bool.{not}
use gocoin.Common.{
  Bool, Bool-cases, List, ap, arith, false, if◌then◌else◌, inl, inr, leb, refl, suc, true, zero, ℕ,
  ◌&&◌, ◌+◌, ◌∙◌, ◌∷◌, ◌≡◌, ◌≤◌,
}
use gocoin.Chain.Tx.{Block, Services}

-- What the loop reads and writes, with the blocks that it sent, the last one first.
pub record Ticker : Type 0 where
  pub b_number : ℕ
  pub block_is_true : Bool
  pub receive_block_is_true : Bool
  pub sort_index : ℕ
  pub curr_block : Block
  pub sent : List (ℕ × Block)

module _ {R : Type 0} (v : Services R) where
  -- One tick. `bNumber-2` may be negative.
  unfoldable pub on_tick : Ticker → Ticker
  on_tick w =
      let n = w.b_number + 1 in
      if w.block_is_true && not w.receive_block_is_true && leb n (w.sort_index + 2)
      then record w {
        b_number = n;
        block_is_true = false;
        sent = (v.header_hash w.curr_block.header, w.curr_block) ∷ w.sent;
      }
      else record w { b_number = n }

  unfoldable pub ticks : ℕ → Ticker → Ticker
  unfolding on_tick
  ticks zero w = w
  ticks (suc n) w = ticks n (on_tick w)

  -- After a block was sent, or once it is too late, nothing is sent.
  ticks_done : (n : ℕ) (w : Ticker) → w.block_is_true ≡ false → (ticks n w).sent ≡ w.sent
  unfolding ticks on_tick
  ticks_done zero w e = refl
  ticks_done (suc n) w e =
      let next : on_tick w ≡ record w { b_number = w.b_number + 1 } = ground arith in
      ap (λ z. (ticks n z).sent) next ∙ ticks_done n (record w { b_number = w.b_number + 1 }) e

  ticks_late : (n : ℕ) (w : Ticker) → w.sort_index + 2 ≤ w.b_number → (ticks n w).sent ≡ w.sent
  unfolding ticks on_tick
  ticks_late zero w e = refl
  ticks_late (suc n) w e =
      let too_late : leb (w.b_number + 1) (w.sort_index + 2) ≡ false = ground arith in
      let next : on_tick w ≡ record w { b_number = w.b_number + 1 } = ground arith in
      ap (λ z. (ticks n z).sent) next
      ∙ ticks_late n (record w { b_number = w.b_number + 1 }) (omega arith)

  -- When a built block waits and none was received, then however many ticks follow, at least
  -- one, `timeoutSubmission` sends the block once, at the next tick, if the number of that tick
  -- is at most the node's turn plus 2, and never if it is greater.
  pub ticks-sent :
      (n : ℕ) (w : Ticker)
      → w.block_is_true ≡ true
      → w.receive_block_is_true ≡ false
      → (ticks (suc n) w).sent ≡ (
          if leb (w.b_number + 1) (w.sort_index + 2)
          then (v.header_hash w.curr_block.header, w.curr_block) ∷ w.sent
          else w.sent)
  unfolding ticks on_tick
  ticks-sent n w e q = elim (Bool-cases (leb (w.b_number + 1) (w.sort_index + 2))) [
    | inl soon ↦
        let w1 : Ticker = record w {
          b_number = w.b_number + 1;
          block_is_true = false;
          sent = (v.header_hash w.curr_block.header, w.curr_block) ∷ w.sent;
        } in
        let next : on_tick w ≡ w1 = ground arith in
        rw soon (ap (λ z. (ticks n z).sent) next ∙ ticks_done n w1 refl)
    | inr late ↦ rw late (ticks_late (suc n) w (ground arith))
  ]
