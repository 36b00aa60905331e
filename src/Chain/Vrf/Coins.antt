-- ===== src/Chain/Vrf/Coins.antt =====
-- The coins that a node is to validate: `ValidateCoin` of libraries/chain/vrf/vrf.go.
use gocoin.Chain.Vrf.{
  validate_coins, check_each, Hashes, Vrf, CoinRun, coin_address, next_run, validate_coin,
  check_validate_coin, coin_start,
}
use gocoin.Common.{
  >>=-eq-ok, Bool-cases, Dict, List, [], arith, if◌then◌else◌, inl, inr, lookup, lookup-insert, ok,
  subst, true, ℕ, ◌∷◌, ◌≡◌, ◌≢◌, nat_eq,
}

-- No coin stands twice in the list.
abbrev pub IsFresh : ℕ → List ℕ → Type 0
IsFresh c [] = Unit {0}
IsFresh c (d ∷ ds) = (c ≢ d) × IsFresh c ds

abbrev pub AllFresh : List ℕ → Type 0
AllFresh [] = Unit {0}
AllFresh (c ∷ cs) = IsFresh c cs × AllFresh cs

module _ (x : Hashes) (txhash blockhash : ℕ) (f : Vrf) where
  coin_run :
      (cid : ℕ) (cids : List ℕ) (r : CoinRun) {mine : List ℕ} {info : Dict ℕ ℕ}
      → validate_coins x txhash blockhash f (cid ∷ cids) r ≡ ok (mine, info)
      → (addr : ℕ) × (rest : List ℕ) × (coin_address x txhash blockhash f cid r ≡ ok addr)
        × (validate_coins x txhash blockhash f cids (next_run f 4 cid addr r) ≡ ok (rest, info))
        × (mine ≡ (if (next_run f 4 cid addr r).add_flag then cid ∷ rest else rest))
  unfolding validate_coins
  coin_run cid cids r e =
      let (addr, e1, r1) = >>=-eq-ok (coin_address x txhash blockhash f cid r) _ e in
      let ((rest, info'), e2, r2) =
        >>=-eq-ok (validate_coins x txhash blockhash f cids (next_run f 4 cid addr r)) _ r1 in
      (addr, rest, e1, ground arith, ground arith)

  -- What the loop keeps of the coins before it.
  validate_coins-kept :
      (c : ℕ) (cids : List ℕ) (r : CoinRun) {mine : List ℕ} {info : Dict ℕ ℕ}
      → IsFresh c cids
      → validate_coins x txhash blockhash f cids r ≡ ok (mine, info)
      → lookup c info ≡ lookup c r.info
  unfolding validate_coins
  validate_coins-kept c [] r fresh e = ground arith
  validate_coins-kept c (cid ∷ cids) r (other, fresh) e =
      let (addr, rest, e1, e2, q) = coin_run cid cids r e in
      ground (
        arith,
        validate_coins-kept c cids (next_run f 4 cid addr r) fresh e2,
        lookup-insert c cid addr r.info,
      )

  -- The coins that the loop selects are known as the node's own.
  validate_coins-mine :
      (cids : List ℕ) (r : CoinRun) {mine : List ℕ} {info : Dict ℕ ℕ}
      → AllFresh cids
      → (r.add_flag ≡ true → r.addr ≡ f.address)
      → validate_coins x txhash blockhash f cids r ≡ ok (mine, info)
      → check_each mine f.address info ≡ true
  unfolding validate_coins check_each
  validate_coins-mine [] r fresh flag e = ground arith
  validate_coins-mine (cid ∷ cids) r {mine = mine} {info = info} (fresh, all) flag e =
      let (addr, rest, e1, e2, q) = coin_run cid cids r e in
      let next = next_run f 4 cid addr r in
      let own : next.add_flag ≡ true → addr ≡ f.address = λ h. ground (arith, flag) in
      let known = validate_coins-kept cid cids next fresh e2 in
      let tail = validate_coins-mine cids next all own e2 in
      elim (Bool-cases next.add_flag) [
        | inl good ↦
            let found : check_each (cid ∷ rest) f.address info ≡ true =
              ground (arith, known, tail, own good, lookup-insert cid cid addr r.info) in
            subst (λ l. check_each l f.address info ≡ true) {x = cid ∷ rest} {y = mine}
              (ground arith) found
        | inr other ↦
            subst (λ l. check_each l f.address info ≡ true) {x = rest} {y = mine} (ground arith)
              tail
      ]

  -- If `ValidateCoin` comes back on coins without repetitions and selects at least one for the
  -- node, then `CheckValidateCoin` accepts the selected coins for the node's address.
  pub check_validate_coin-validate_coin :
      (cids : List ℕ) (c : ℕ) (mine : List ℕ) (f' : Vrf)
      → AllFresh cids
      → validate_coin x cids txhash blockhash f ≡ ok (c ∷ mine, f')
      → check_validate_coin (c ∷ mine) f.address f' ≡ true
  unfolding validate_coin check_validate_coin
  check_validate_coin-validate_coin cids c mine f' fresh e =
      let ((own, info), e1, r1) =
        >>=-eq-ok (validate_coins x txhash blockhash f cids coin_start) _ e in
      let kept = validate_coins-mine cids coin_start fresh (λ h. ground arith) e1 in
      ground (arith, kept)
