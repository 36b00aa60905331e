-- ===== src/Group/Select/Committee.antt =====
-- The committees: their size, and who sits on them.
use gocoin.Group.Rand.{rand_from_bytes, random_perm, shuffle, modulo}
use gocoin.Group.Store.{GroupMembers, GroupMember}
use gocoin.Group.Rand.Perm.{count, random_perm-ok}
use gocoin.Group.Select.{
  addresses, pick, select_threshold_members, draw, select_members, rand_from_bytes,
  encode_block_number,
}
use gocoin.Group.Defs.{has, Externals, validate_limit, block_number_limet}
use Prim.Native.Nat.{min}
use native.Mathlib.Decide.{dec_lt}
use gocoin.Common.{
  List, [], ap, arith, division_by_zero, get_elem?, get_elem?-lt, if◌then◌else◌, inl, inr, length,
  ltb, ok, panic, refl, some, suc, true, zero, ℕ, ◌%◌, ◌+◌, ◌/◌, ◌<◌, ◌^◌, ◌∙◌, ◌∷◌, ◌≡◌, ◌≤◌, ◌⊎◌,
}

-- Every address of the list is an address of the group.
abbrev pub IsDrawnFrom : GroupMembers → List ℕ → Type 0
IsDrawnFrom ms [] = Unit {0}
IsDrawnFrom ms (a ∷ rest) = (has a (addresses ms) ≡ true) × IsDrawnFrom ms rest

abbrev IsInRange : ℕ → List ℕ → Type 0
IsInRange n [] = Unit {0}
IsInRange n (i ∷ rest) = (i < n) × IsInRange n rest

length-addresses : (ms : GroupMembers) → length (addresses ms) ≡ length ms
unfolding addresses
length-addresses [] = refl
length-addresses (m ∷ ms) = ap suc (length-addresses ms)

has-get_elem? :
    (ms : GroupMembers) (i : ℕ) (m : GroupMember)
    → get_elem? ms i ≡ some m
    → has m.address (addresses ms) ≡ true
unfolding has addresses
has-get_elem? [] i m h = cc
has-get_elem? (x ∷ ms) zero m h = ground arith
has-get_elem? (x ∷ ms) (suc i) m h = ground (arith, has-get_elem? ms i m h)

addresses-IsDrawnFrom_tail :
    (m : GroupMember) (ms : GroupMembers) (l : List ℕ) → IsDrawnFrom ms l → IsDrawnFrom (m ∷ ms) l
unfolding has addresses
addresses-IsDrawnFrom_tail m ms [] h = tt
addresses-IsDrawnFrom_tail m ms (a ∷ l) h = (ground arith, addresses-IsDrawnFrom_tail m ms l h.1)

addresses-IsDrawnFrom : (ms : GroupMembers) → IsDrawnFrom ms (addresses ms)
unfolding has addresses
addresses-IsDrawnFrom [] = tt
addresses-IsDrawnFrom (m ∷ ms) =
    (ground arith, addresses-IsDrawnFrom_tail m ms (addresses ms) (addresses-IsDrawnFrom ms))

in_range : (n : ℕ) (l : List ℕ) → ((a : ℕ) → count a l ≤ (if ltb a n then 1 else 0)) → IsInRange n l
unfolding count
in_range n [] h = tt
in_range n (i ∷ l) h = (ground (arith, h i), in_range n l (λ a. omega (arith, h a)))

pick-ok :
    (ms : GroupMembers) (l : List ℕ)
    → IsInRange (length ms) l
    → (c : List ℕ) × (pick ms l ≡ ok c) × (length c ≡ length l) × IsDrawnFrom ms c
unfolding pick
pick-ok ms [] h = ([], refl, refl, tt)
pick-ok ms (i ∷ l) h =
    let (m, e) = get_elem?-lt ms i h.0 in
    let (c, ec, n, d) = pick-ok ms l h.1 in
    (m.address ∷ c, ground arith, ap suc n, (has-get_elem? ms i m e, d))

module _ (x : Externals) where
  draw-ok :
      (epoch : ℕ) (ms : GroupMembers)
      → validate_limit ≤ length ms
      → (c : List ℕ) × (draw x epoch ms ≡ ok c) × (length c ≡ validate_limit) × IsDrawnFrom ms c
  unfolding draw
  draw-ok epoch ms h =
      let r = rand_from_bytes x.keccak (encode_block_number epoch) in
      let (l, e, n, d) = random_perm-ok x.keccak r (length ms) validate_limit h in
      let (c, ec, nc, dc) = pick-ok ms l (in_range (length ms) l d) in (c, rw e ec, nc ∙ n, dc)

  -- Whatever the hash, the text that the committee selections share comes back, for every group,
  -- with the smaller of the group's size and ten addresses, each the address of a member.
  pub select_members-ok :
      (epoch : ℕ) (ms : GroupMembers)
      → (c : List ℕ) × (select_members x epoch ms ≡ ok c)
        × (length c ≡ min (length ms) validate_limit)
        × IsDrawnFrom ms c
  unfolding select_members
  select_members-ok epoch [] = ([], refl, omega arith, tt)
  select_members-ok epoch (m ∷ ms) = elim (dec_lt (length (m ∷ ms)) validate_limit) [
    | yes p ↦ (
      addresses (m ∷ ms),
      ground arith,
      omega (arith, length-addresses (m ∷ ms)),
      addresses-IsDrawnFrom (m ∷ ms),
    )
    | no p ↦
        let (c, e, n, d) = draw-ok epoch (m ∷ ms) (omega arith) in (c, ground arith, omega arith, d)
  ]

  threshold-eq-members :
      (number : ℕ) (m : GroupMember) (ms : GroupMembers)
      → select_threshold_members x number (m ∷ ms)
        ≡ select_members x ((number / block_number_limet + 1) % 2 ^ 64) (m ∷ ms)
  unfolding select_threshold_members select_members
  threshold-eq-members number m ms = ground arith

  -- `SelectThresholds` either comes back with the smaller of the group's size and ten addresses,
  -- each the address of a member, or the group is empty and it panics with a division by zero.
  pub select_threshold_members-ok :
      (number : ℕ) (ms : GroupMembers)
      → ((c : List ℕ) × (select_threshold_members x number ms ≡ ok c)
          × (length c ≡ min (length ms) validate_limit)
          × IsDrawnFrom ms c)
        ⊎ ((ms ≡ []) × (select_threshold_members x number ms ≡ panic division_by_zero))
  unfolding select_threshold_members draw random_perm shuffle modulo
  select_threshold_members-ok number [] = inr (refl, refl)
  select_threshold_members-ok number (m ∷ ms) =
      let (c, e, n, d) = select_members-ok ((number / block_number_limet + 1) % 2 ^ 64) (m ∷ ms) in
      inl (c, threshold-eq-members number m ms ∙ e, n, d)
