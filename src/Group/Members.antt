-- ===== src/Group/Members.antt =====
-- Who is admitted to the group of the space chain, and when (`Add` and `Reset`).
use gocoin.Group.Reset.{reset}
use gocoin.Group.Select.{addresses}
use gocoin.Group.Rand.Perm.{count, hit}
use gocoin.Group.Defs.{ValidateGroup, append_later, has, include, Externals, add, last?}
use gocoin.Group.Store.{Database, GroupMember, GroupMembers}
use mathlib.Core.List.{append_assoc, append-nil}
use gocoin.Common.{
  Bool-cases, List, Option-cases, [], ap, arith, false, if◌then◌else◌, inl, inr, length,
  length-append, some, sym, true, ℕ, ◌++◌, ◌+◌, ◌<◌, ◌==◌, ◌∙◌, ◌∷◌, ◌≡◌, ◌≤ℤ◌, ◌≤◌, ◌⊎◌,
}

-- The waiting members, those of earlier epochs first.
abbrev pub waiting : {D : Type 0} → ValidateGroup D → GroupMembers
waiting vg = vg.thresholdgroupmembers ++ vg.newgroupmembers

-- Every waiting member's address is known, and waits once.
pub record IsRoll {D : Type 0} (vg : ValidateGroup D) : Type 0 where
  pub once : (a : ℕ) → count a (addresses (waiting vg)) ≤ 1
  pub known : (a : ℕ) → 0 < count a (addresses (waiting vg)) → has a vg.members_address ≡ true

count-append :
    (a : ℕ) (xs ys : GroupMembers)
    → count a (addresses (xs ++ ys)) ≡ count a (addresses xs) + count a (addresses ys)
unfolding count addresses
count-append a [] ys = omega arith
count-append a (x ∷ xs) ys = omega (arith, count-append a xs ys)

count-single : (a : ℕ) (m : GroupMember) → count a (addresses (m ∷ [])) ≡ hit a m.address
unfolding count addresses
count-single a m = omega arith

has-include : (a j : ℕ) (l : List ℕ) → has j (include a l) ≡ (if j == a then true else has j l)
unfolding has include
has-include a j l = elim (Bool-cases (has a l)) [ inl e ↦ ground arith | inr e ↦ ground arith ]

append_later-shape :
    (m : GroupMember) (ms r : GroupMembers) → append_later m ms ≡ some r → r ≡ ms ++ (m ∷ [])
unfolding append_later
append_later-shape m ms r h = ground arith

module _ {D : Type 0} (b : Database D) where
  add-seen :
      (m : GroupMember) (vg : ValidateGroup D) → has m.address (add b m vg).members_address ≡ true
  unfolding add
  add-seen m vg = grind (arith, has-include)

  add_known :
      (m : GroupMember) (vg : ValidateGroup D)
      → has m.address vg.members_address ≡ true
      → add b m vg ≡ vg
  unfolding add
  add_known m vg e = rw e

  add-waiting :
      (m : GroupMember) (vg : ValidateGroup D)
      → has m.address vg.members_address ≡ false
      → ((waiting (add b m vg) ≡ waiting vg) ⊎ (waiting (add b m vg) ≡ waiting vg ++ (m ∷ [])))
        × ((add b m vg).members_address ≡ include m.address vg.members_address)
  unfolding add
  add-waiting m vg e = elim (Option-cases (append_later m vg.newgroupmembers)) [
    | inl late ↦ ground arith
    | inr (r, later) ↦ (
      inr (
          rw (e, later, append_later-shape m vg.newgroupmembers r later)
            (sym (append_assoc vg.thresholdgroupmembers vg.newgroupmembers (m ∷ [])))),
      ground arith,
    )
  ]

  -- After an application with some address, a further one with the same address changes nothing,
  -- whatever its time is and however the first one ended.
  pub add-again :
      (m m' : GroupMember) (vg : ValidateGroup D)
      → m'.address ≡ m.address
      → add b m' (add b m vg) ≡ add b m vg
  add-again m m' vg e = add_known m' (add b m vg) (rw e (add-seen m vg))

  -- An application that is not later than the last one that waits in this epoch leaves the
  -- waiting members as they are, and its address is known from then on.
  pub add_late :
      (m last : GroupMember) (vg : ValidateGroup D)
      → last? vg.newgroupmembers ≡ some last
      → m.time ≤ℤ last.time
      → (waiting (add b m vg) ≡ waiting vg) × (has m.address (add b m vg).members_address ≡ true)
  unfolding add append_later
  add_late m last vg e h = ground (arith, has-include m.address m.address vg.members_address)

  -- `Add` keeps the roll: if before it every waiting member's address is known and waits once,
  -- then so it is after it.
  pub add-IsRoll : (m : GroupMember) (vg : ValidateGroup D) → IsRoll vg → IsRoll (add b m vg)
  unfolding add
  add-IsRoll m vg h = elim (Bool-cases (has m.address vg.members_address)) [
    | inl seen ↦ rw (seen, add) h
    | inr fresh ↦
        let (shape, seen) = add-waiting m vg fresh in
        let new : count m.address (addresses (waiting vg)) ≡ 0 =
          ground (arith, h.known m.address) in
        elim shape [
          | inl same ↦ record {
            once = λ a. rw same (h.once a);
            known = λ a p.
                ground (arith, same, seen, has-include m.address a vg.members_address, h.known a);
          }
          | inr more ↦ record {
            once = λ a. rw (more, count-append, count-single) (ground (arith, new, h.once a));
            known = λ a p. ground (
              arith,
              more,
              seen,
              has-include m.address a vg.members_address,
              count-append a (waiting vg) (m ∷ []),
              count-single a m,
              h.known a,
            );
          }
        ]
  ]

module _ {D : Type 0} (b : Database D) (x : Externals) where
  -- A reset keeps the order and the number of the waiting members.
  pub reset-waiting :
      (hash : ℕ) (vg : ValidateGroup D)
      → (waiting (reset b x hash vg) ≡ waiting vg)
        × ((reset b x hash vg).members_address ≡ vg.members_address)
  unfolding reset
  reset-waiting hash vg = ground (arith, append-nil (waiting vg))

  -- `Reset(hash, false)` keeps the roll: if before it every waiting member's address is known
  -- and waits once, then so it is after it.
  pub reset-IsRoll : (hash : ℕ) (vg : ValidateGroup D) → IsRoll vg → IsRoll (reset b x hash vg)
  reset-IsRoll hash vg h = record {
    once = λ a. rw (reset-waiting hash vg).0 (h.once a);
    known = λ a p. rw (reset-waiting hash vg).1 (h.known a (rw (reset-waiting hash vg).0 at p));
  }

  reset-groupmembers :
      (hash : ℕ) (vg : ValidateGroup D)
      → 3 ≤ length vg.thresholdgroupmembers
      → (reset b x hash vg).groupmembers ≡ x.sort_by_time vg.thresholdgroupmembers
  unfolding reset
  reset-groupmembers hash vg h = ground arith

  reset-thresholdgroupmembers :
      (hash : ℕ) (vg : ValidateGroup D) → (reset b x hash vg).thresholdgroupmembers ≡ waiting vg
  unfolding reset
  reset-thresholdgroupmembers hash vg = ground (arith, append-nil vg.thresholdgroupmembers)

  -- If there are three or more threshold members, the members after the next reset are these,
  -- sorted, and the members after the reset that follows it are the sorted waiting members from
  -- before the first reset.
  pub reset_twice :
      (hash hash' : ℕ) (vg : ValidateGroup D)
      → 3 ≤ length vg.thresholdgroupmembers
      → ((reset b x hash vg).groupmembers ≡ x.sort_by_time vg.thresholdgroupmembers)
        × ((reset b x hash' (reset b x hash vg)).groupmembers ≡ x.sort_by_time (waiting vg))
  reset_twice hash hash' vg h =
      let t1 = reset-thresholdgroupmembers hash vg in
      (
        reset-groupmembers hash vg h,
        reset-groupmembers hash' (reset b x hash vg)
              (rw t1 (omega (arith, length-append vg.thresholdgroupmembers vg.newgroupmembers)))
            ∙ ap x.sort_by_time t1,
      )
