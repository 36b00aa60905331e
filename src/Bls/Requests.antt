-- ===== src/Bls/Requests.antt =====
-- The requests for a new group: the loop of `Worker` in libraries/chain/blsgroup/blsgroup.go. A
-- request has the id of the group, its hash and its addresses.
use gocoin.Common.{
  ==_self, Bool, Bool-cases, List, Option, Option-cases, [], ap, arith, false, if◌then◌else◌, inl,
  inr, insert, length, length-append, lookup, lookup-insert, none, refl, some, sym, true, ℕ, ◌*◌,
  ◌++◌, ◌+◌, ◌/◌, ◌<◌, ◌==◌, ◌∙◌, ◌∷◌, ◌≡◌, ◌≤◌, nat_eq,
}
use mathlib.Core.Bool.{not}
use gocoin.Bls.{BlsGroup, Registry}
use gocoin.Bls.Create.{Disk, save_id_hash}
use gocoin.State.Db.{elem}

elem_append : (a : ℕ) (xs ys : List ℕ) → elem a ys ≡ true → elem a (xs ++ ys) ≡ true
unfolding elem
elem_append a [] ys h = h
elem_append a (x ∷ xs) ys h = ground (arith, elem_append a xs ys h)

elem-positive : (a : ℕ) (xs : List ℕ) → elem a xs ≡ true → 0 < length xs
unfolding elem
elem-positive a [] h = absurd (ground arith)
elem-positive a (x ∷ xs) h = omega arith

module _ {I K P D : Type 0} (disk : Disk D) where
  -- The group that is to make its keys.
  abbrev renewed : ℕ → ℕ → List ℕ → BlsGroup I K P → BlsGroup I K P
  renewed gid hash members g = record g {
    gid = gid;
    hash = hash;
    members = members;
    n = length members;
    k = length members / 2 + 1;
  }

  -- A request of which the node is a member, with the members of the group so far.
  abbrev with_members :
      ℕ → ℕ → ℕ → List ℕ → BlsGroup I K P → Registry I K P D → Bool × Registry I K P D
  unfolding save_id_hash
  with_members p gid hash members g reg = elim (lookup hash reg.bls_hash_groups) [
    | some v ↦ (
      false,
      record reg {
        groups = insert p (record g { members = members }) reg.groups;
        id_hash = insert gid hash reg.id_hash;
        bls_groups = insert gid v reg.bls_groups;
        db = (save_id_hash disk gid hash reg.db).0;
      },
    )
    | none ↦ (
      true,
      record reg {
        groups = insert p (renewed gid hash members g) reg.groups;
        bls_hash_groups = insert hash p reg.bls_hash_groups;
        id_hash = insert gid hash reg.id_hash;
      },
    )
  ]

  -- One round of the loop, for the group `p`: whether it starts `CreateBlsGroup`.
  unfoldable pub on_request : ℕ → ℕ → ℕ → List ℕ → Registry I K P D → Bool × Registry I K P D
  unfolding save_id_hash
  on_request p gid hash addrs reg = elim (lookup p reg.groups) [
    | none ↦ (false, reg)
    | some g ↦
        if g.is_create
        then (false, reg)
        else if not (elem g.self addrs)
        then (false, record reg { groups = insert p (record g { members = [] }) reg.groups })
        else with_members p gid hash (g.members ++ addrs) g reg
  ]

  -- A group that has its keys is left alone by every request.
  pub on_request-created :
      (p q gid hash : ℕ) (addrs : List ℕ) (reg : Registry I K P D) (g : BlsGroup I K P)
      → lookup q reg.groups ≡ some g
      → g.is_create ≡ true
      → lookup q (on_request p gid hash addrs reg).1.groups ≡ some g
  unfolding on_request
  on_request-created p q gid hash addrs reg g at made = elim (Option-cases (lookup p reg.groups)) [
    | inl no_group ↦ ground (arith, at)
    | inr (g0, e) ↦ elim (Bool-cases g0.is_create) [
      | inl m ↦ ground (arith, at)
      | inr m ↦ elim (Bool-cases (q == p)) [
        | inl same ↦
            let eq : q ≡ p = ground arith in
            let both : some g ≡ some g0 = sym at ∙ ap (λ z. lookup z reg.groups) eq ∙ e in
            absurd (
              ground (
                arith,
                ap {B = Bool}
                    (λ (o : Option (BlsGroup I K P)). elim o [
                      | none ↦ false
                      | some z ↦ z.is_create
                    ])
                    both,
              ))
        | inr other ↦ elim (Bool-cases (elem g0.self addrs)) [
          | inr out ↦ ground (arith, at, lookup-insert q p (record g0 { members = [] }) reg.groups)
          | inl inside ↦ elim (Option-cases (lookup hash reg.bls_hash_groups)) [
            | inl fresh ↦ ground (
              arith,
              at,
              lookup-insert q p (renewed gid hash (g0.members ++ addrs) g0) reg.groups,
            )
            | inr (v, known) ↦ ground (
              arith,
              at,
              lookup-insert q p (record g0 { members = g0.members ++ addrs }) reg.groups,
            )
          ]
        ]
      ]
    ]
  ]

  -- When a request makes `Worker` start the making of keys, whatever came before it, the group
  -- is not finished, the node is one of its members, its size is the number of its members, its
  -- threshold is more than half of them and at most all, and the hash and the id of the request
  -- lead to it.
  pub on_request-started :
      (p gid hash : ℕ) (addrs : List ℕ) (reg : Registry I K P D)
      → (on_request p gid hash addrs reg).0 ≡ true
      → (g : BlsGroup I K P) × (lookup p (on_request p gid hash addrs reg).1.groups ≡ some g)
        × (g.is_create ≡ false)
        × (elem g.self g.members ≡ true)
        × (g.n ≡ length g.members)
        × (g.n < 2 * g.k)
        × (g.k ≤ g.n)
        × (lookup hash (on_request p gid hash addrs reg).1.bls_hash_groups ≡ some p)
        × (lookup gid (on_request p gid hash addrs reg).1.id_hash ≡ some hash)
  unfolding on_request
  on_request-started p gid hash addrs reg started = elim (Option-cases (lookup p reg.groups)) [
    | inl no_group ↦ absurd (ground arith)
    | inr (g0, e) ↦ elim (Bool-cases g0.is_create) [
      | inl m ↦ absurd (ground arith)
      | inr m ↦ elim (Bool-cases (elem g0.self addrs)) [
        | inr out ↦ absurd (ground arith)
        | inl inside ↦ elim (Option-cases (lookup hash reg.bls_hash_groups)) [
          | inr (v, known) ↦ absurd (ground arith)
          | inl fresh ↦
              let g1 = renewed gid hash (g0.members ++ addrs) g0 in
              (
                g1,
                ground (arith, lookup-insert p p g1 reg.groups, ==_self p),
                m,
                elem_append g0.self g0.members addrs inside,
                refl,
                omega arith,
                let some_member =
                      elem-positive g1.self g1.members
                        (elem_append g0.self g0.members addrs inside) in
                    omega arith,
                ground (arith, lookup-insert hash hash p reg.bls_hash_groups, ==_self hash),
                ground (arith, lookup-insert gid gid hash reg.id_hash, ==_self gid),
              )
        ]
      ]
    ]
  ]

  on_request-fresh :
      (p gid hash : ℕ) (addrs : List ℕ) (reg : Registry I K P D) (g : BlsGroup I K P)
      → lookup p reg.groups ≡ some g
      → g.is_create ≡ false
      → elem g.self addrs ≡ true
      → lookup hash reg.bls_hash_groups ≡ none
      → lookup p (on_request p gid hash addrs reg).1.groups
        ≡ some (renewed gid hash (g.members ++ addrs) g)
  unfolding on_request
  on_request-fresh p gid hash addrs reg g at made inside fresh =
      ground
        (arith, lookup-insert p p (renewed gid hash (g.members ++ addrs) g) reg.groups, ==_self p)

  -- After a request with a known hash, a request with a new hash makes a group of the members
  -- before, those of the first request and those of the second one, if the node is in both
  -- requests and the group has no keys yet.
  pub on_request-piled :
      (p gid1 gid2 hash1 hash2 v : ℕ) (addrs1 addrs2 : List ℕ) (reg : Registry I K P D)
      (g : BlsGroup I K P)
      → lookup p reg.groups ≡ some g
      → g.is_create ≡ false
      → elem g.self addrs1 ≡ true
      → elem g.self addrs2 ≡ true
      → lookup hash1 reg.bls_hash_groups ≡ some v
      → lookup hash2 reg.bls_hash_groups ≡ none
      → (g' : BlsGroup I K P) × (lookup p
            (on_request p gid2 hash2 addrs2 (on_request p gid1 hash1 addrs1 reg).1).1.groups
          ≡ some g')
        × (g'.members ≡ (g.members ++ addrs1) ++ addrs2)
        × (g'.n ≡ length g.members + length addrs1 + length addrs2)
  unfolding on_request
  on_request-piled p gid1 gid2 hash1 hash2 v addrs1 addrs2 reg g at made in1 in2 known fresh =
      let g1 : BlsGroup I K P = record g { members = g.members ++ addrs1 } in
      let g2 = renewed gid2 hash2 (g1.members ++ addrs2) g1 in
      let r1 = (on_request p gid1 hash1 addrs1 reg).1 in
      let first : lookup p r1.groups ≡ some g1 =
        ground (arith, lookup-insert p p g1 reg.groups, ==_self p) in
      let same : r1.bls_hash_groups ≡ reg.bls_hash_groups = ground arith in
      (
        g2,
        on_request-fresh p gid2 hash2 addrs2 r1 g1 first made in2 (ap (lookup hash2) same ∙ fresh),
        refl,
        ground (arith, length-append g.members addrs1, length-append (g.members ++ addrs1) addrs2),
      )
