-- ===== src/Chain/Apply/Epoch.antt =====
-- The end of an epoch (`Process`, libraries/chain/space/blockchain.go): the committees that are
-- announced.
use gocoin.Chain.Apply.{next_epoch, announce, Event}
use gocoin.Group.Select.{
  select_threshold_members, select_thresholds, select_coin_thresholds, select_tx_thresholds,
}
use gocoin.Group.Select.Committee.{select_threshold_members-ok}
use gocoin.Group.Reset.{reset, reset_coin_group, reset_tx_group}
use gocoin.Group.Defs.{Externals, ValidateGroup}
use gocoin.Group.Store.{Database, GroupMembers}
use native.Mathlib.Decide.{dec_le}
use gocoin.Common.{List, [], arith, inl, inr, length, ok, refl, ℕ, ◌++◌, ◌∷◌, ◌≡◌, ◌≤◌}

-- Every committee has three to ten addresses.
abbrev pub IsQuorate : List Event → Type 0
IsQuorate [] = Unit {0}
IsQuorate ((gid, committee) ∷ es) = (3 ≤ length committee) × (length committee ≤ 10) × IsQuorate es

IsQuorate-append : (es es' : List Event) → IsQuorate es → IsQuorate es' → IsQuorate (es ++ es')
IsQuorate-append [] es' h h' = h'
IsQuorate-append ((gid, committee) ∷ es) es' (lo, hi, h) h' = (lo, hi, IsQuorate-append es es' h h')

announce-ok :
    (x : Externals) (gid number : ℕ) (ms : GroupMembers)
    → (es : List Event) × (announce gid ms (select_threshold_members x number ms) ≡ ok es)
      × IsQuorate es
announce-ok x gid number ms = elim (dec_le 3 (length ms)) [
  | yes p ↦ elim (select_threshold_members-ok x number ms) [
    | inl (c, e, n, d) ↦ ((gid, c) ∷ [], ground (arith, e), (omega arith, omega arith, tt))
    | inr (none_left, e) ↦ absurd (ground arith)
  ]
  | no p ↦ ([], ground arith, tt)
]

module _ {D : Type 0} (d : Database D) (x : Externals) where
  -- Whatever the groups are, the end of an epoch in `Process` does not panic, and every
  -- committee that it announces has three to ten addresses.
  pub next_epoch-ok :
      (number hash : ℕ) (vg : ValidateGroup D)
      → (es : List Event) × (vg' : ValidateGroup D) × (next_epoch d x number hash vg ≡ ok (es, vg'))
        × IsQuorate es
  unfolding next_epoch select_thresholds select_coin_thresholds select_tx_thresholds
  next_epoch-ok number hash vg =
      let vg1 = reset d x hash vg in
      let vg2 = reset_coin_group d x vg1 in
      let vg3 = reset_tx_group d x vg2 in
      let (e1, q1, h1) = announce-ok x 0 number vg1.thresholdgroupmembers in
      let (e2, q2, h2) = announce-ok x 1 number vg2.thresholdcoingroupmembers in
      let (e3, q3, h3) = announce-ok x 2 number vg3.thresholdtxgroupmembers in
      (
        e1 ++ (e2 ++ e3),
        vg3,
        rw (q1, q2, q3) refl,
        IsQuorate-append e1 (e2 ++ e3) h1 (IsQuorate-append e2 e3 h2 h3),
      )
