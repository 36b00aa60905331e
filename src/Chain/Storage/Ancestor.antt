-- ===== src/Chain/Storage/Ancestor.antt =====
-- `FindCommonAncestor` of libraries/chain/space/database_util.go. Its loops take fuel, which is
-- enough where it is above the numbers of both headers.
use gocoin.Common.{
  Bool-cases, Option, Option-cases, ap, arith, if◌then◌else◌, inl, inr, ltb, none, some, suc, zero,
  ℕ, ◌%◌, ◌+◌, ◌-◌, ◌<◌, ◌==◌, ◌^◌, ◌∙◌, ◌≡◌, ◌≤◌, ◌⊎◌,
}
use gocoin.Chain.Storage.{KeyValue, get_header, number_of}
use gocoin.Chain.Tx.{Header, Services}

-- What a search comes to: a header, nil, or the end of the fuel.
pub data Search : Type 0 where
  found : Header → Search
  missing unfinished : Search

module _ {D R : Type 0} (kv : KeyValue D) (v : Services R) (db : D) where
  -- `GetHeader(db, a.UncleHash, a.Number.Uint64()-1)`
  unfoldable pub parent : Header → Option Header
  parent a = get_header kv a.uncle_hash ((number_of a + (2 ^ 64 - 1)) % 2 ^ 64) db

  -- The first and the second loop: up to a number.
  unfoldable pub climb : ℕ → ℕ → Header → Search
  climb zero number a = if ltb number (number_of a) then unfinished else found a
  climb (suc fuel) number a =
      if ltb number (number_of a)
      then elim (parent a) [ none ↦ missing | some p ↦ climb fuel number p ]
      else found a

  -- The third loop: up on both sides to a common hash.
  unfoldable pub meet : ℕ → Header → Header → Search
  meet zero a b = if v.header_hash a == v.header_hash b then found a else unfinished
  meet (suc fuel) a b = if v.header_hash a == v.header_hash b then found a else elim (parent a) [
    | none ↦ missing
    | some p ↦ elim (parent b) [ none ↦ missing | some q ↦ meet fuel p q ]
  ]

  unfoldable pub find_common_ancestor : ℕ → Header → Header → Search
  unfolding climb meet
  find_common_ancestor fuel a b = elim (climb fuel (number_of b) a) [
    | missing ↦ missing
    | unfinished ↦ unfinished
    | found a' ↦ elim (climb fuel (number_of a') b) [
      | missing ↦ missing
      | unfinished ↦ unfinished
      | found b' ↦ meet fuel a' b'
    ]
  ]

  -- A header is on the way up from another one.
  pub data IsAncestor (c : Header) : Header → Type 0 where
    itself : IsAncestor c c
    above : {a p : Header} → parent a ≡ some p → IsAncestor c p → IsAncestor c a

  -- Headers are stored under their numbers, and none has the last number there is.
  pub record IsNumbered : Type 0 where
    pub number_is :
        (hash number : ℕ) (h : Header)
        → get_header kv hash number db ≡ some h
        → number_of h ≡ number
    pub not_last : (hash : ℕ) → get_header kv hash (2 ^ 64 - 1) db ≡ none

  higher : {c b a : Header} → IsAncestor c b → IsAncestor b a → IsAncestor c a
  higher s itself = s
  higher s (above e t) = above e (higher s t)

  module _ (law : IsNumbered) where
    parent-number : (a p : Header) → parent a ≡ some p → number_of p + 1 ≡ number_of a
    unfolding parent
    parent-number a p e = elim (Bool-cases (number_of a == 0)) [
      | inl first ↦
          let last : (number_of a + (2 ^ 64 - 1)) % 2 ^ 64 ≡ 2 ^ 64 - 1 = ground arith in
          let gone = ap (λ n. get_header kv a.uncle_hash n db) last ∙ law.not_last a.uncle_hash in
          absurd (ground (arith, gone))
      | inr later ↦
          let n = law.number_is a.uncle_hash ((number_of a + (2 ^ 64 - 1)) % 2 ^ 64) p e in
          ground arith
    ]

    -- What a search that ends comes to.
    Ends : Search → (Header → Type 0) → Type 0
    Ends s good = ((c : Header) × (s ≡ found c) × good c) ⊎ (s ≡ missing)

    climb-Ends :
        (fuel number : ℕ) (a : Header)
        → number_of a < fuel + 1
        → Ends (climb fuel number a) (λ c. IsAncestor c a × (number_of c ≤ number_of a))
    unfolding climb Ends
    climb-Ends zero number a h = inl (a, ground arith, (itself, omega arith))
    climb-Ends (suc fuel) number a h = elim (Bool-cases (ltb number (number_of a))) [
      | inr there ↦ inl (a, ground arith, (itself, omega arith))
      | inl below ↦ elim (Option-cases (parent a)) [
        | inl gone ↦ inr (ground arith)
        | inr (p, e) ↦
            let n = parent-number a p e in
            elim (climb-Ends fuel number p (omega arith)) [
              | inr no_header ↦ inr (ground arith)
              | inl (c, q, (up, le)) ↦ inl (c, ground arith, (above e up, omega arith))
            ]
      ]
    ]

    meet-Ends :
        (fuel : ℕ) (a b : Header)
        → number_of a < fuel
        → Ends (meet fuel a b) (λ c.
          IsAncestor c a × ((d : Header) × IsAncestor d b × (v.header_hash c ≡ v.header_hash d)))
    unfolding meet Ends
    meet-Ends zero a b h = absurd (omega arith)
    meet-Ends (suc fuel) a b h = elim (Bool-cases (v.header_hash a == v.header_hash b)) [
      | inl same ↦ inl (a, ground arith, (itself, (b, itself, ground arith)))
      | inr other ↦ elim (Option-cases (parent a)) [
        | inl gone ↦ inr (ground arith)
        | inr (p, e) ↦ elim (Option-cases (parent b)) [
          | inl gone ↦ inr (ground arith)
          | inr (q, f) ↦
              let n = parent-number a p e in
              elim (meet-Ends fuel p q (omega arith)) [
                | inr no_header ↦ inr (ground arith)
                | inl (c, eq, (up, (d, down, same))) ↦
                    inl (c, ground arith, (above e up, (d, above f down, same)))
              ]
        ]
      ]
    ]

    -- If headers are stored under their numbers and none has the number 2^64-1, then
    -- `FindCommonAncestor` ends on any two headers, within as many rounds of each loop as the
    -- greater of their numbers plus one, with nil or with a header that is on the way up from
    -- the first one and has the hash of a header on the way up from the second one.
    pub find_common_ancestor-Ends :
        (fuel : ℕ) (a b : Header)
        → number_of a < fuel
        → number_of b < fuel
        → ((c : Header) × (find_common_ancestor fuel a b ≡ found c)
            × (IsAncestor c a)
            × ((d : Header) × IsAncestor d b × (v.header_hash c ≡ v.header_hash d)))
          ⊎ (find_common_ancestor fuel a b ≡ missing)
    unfolding find_common_ancestor Ends
    find_common_ancestor-Ends fuel a b ha hb =
        elim (climb-Ends fuel (number_of b) a (omega arith)) [
          | inr gone ↦ inr (ground arith)
          | inl (a', ea, (ua, la)) ↦ elim (climb-Ends fuel (number_of a') b (omega arith)) [
            | inr gone ↦ inr (ground arith)
            | inl (b', eb, (ub, lb)) ↦ elim (meet-Ends fuel a' b' (omega arith)) [
              | inr gone ↦ inr (ground arith)
              | inl (c, ec, (uc, (d, dd, same))) ↦
                  inl (c, ground arith, higher uc ua, (d, higher dd ub, same))
            ]
          ]
        ]
