-- ===== src/Chain/Tx/Lists.antt =====
-- The transactions of a block and lists of transactions: `Transaction`, `WithBody` and `SetPK` of
-- libraries/chain/space/protocol/block.go, and `TxDifference` of tx.go there.
use mathlib.Core.Bool.{not}
use gocoin.Common.{
  Bool-cases, Bytes, List, Option, [], arith, false, if◌then◌else◌, inl, inr, none, refl, some,
  true, ℕ, ◌&&◌, ◌==◌, ◌∷◌, ◌≡◌, ◌⊎◌,
}
use gocoin.Chain.Tx.{Tx, Block, Services}
use gocoin.State.Db.{elem}

module _ {R : Type 0} (v : Services R) where
  abbrev pub hashes_of : List Tx → List ℕ
  hashes_of [] = []
  hashes_of (tx ∷ txs) = v.tx_hash tx ∷ hashes_of txs

  -- `TxDifference`, whose map has the hashes of the second list.
  unfoldable pub tx_difference : List Tx → List Tx → List Tx
  tx_difference [] b = []
  tx_difference (tx ∷ txs) b =
      if elem (v.tx_hash tx) (hashes_of b) then tx_difference txs b else tx ∷ tx_difference txs b

  -- `Block.Transaction`
  unfoldable pub find_transaction : ℕ → List Tx → Option Tx
  find_transaction hash [] = none
  find_transaction hash (tx ∷ txs) =
      if v.tx_hash tx == hash then some tx else find_transaction hash txs

  -- `WithBody`
  unfoldable pub with_body : List Tx → Bytes → Block → Block
  with_body txs extra block = record {
    header = record (block.header) { tx_root = v.derive_sha txs };
    transactions = txs;
    extra_data = extra;
  }

  -- `TxDifference` keeps a transaction with some hash exactly if the first list has one and the
  -- second has none.
  pub hashes_of-tx_difference :
      (a b : List Tx) (hash : ℕ)
      → elem hash (hashes_of (tx_difference a b))
        ≡ (elem hash (hashes_of a) && not (elem hash (hashes_of b)))
  unfolding tx_difference elem
  hashes_of-tx_difference [] b hash = refl
  hashes_of-tx_difference (tx ∷ txs) b hash = ground (arith, hashes_of-tx_difference txs b hash)

  -- `Transaction` finds a transaction of a block under every hash that one of them has, and only
  -- under such a hash, and it has that hash.
  pub find_transaction-hash :
      (hash : ℕ) (txs : List Tx)
      → ((find_transaction hash txs ≡ none) × (elem hash (hashes_of txs) ≡ false))
        ⊎ ((tx : Tx) × (find_transaction hash txs ≡ some tx)
            × (v.tx_hash tx ≡ hash)
            × (elem hash (hashes_of txs) ≡ true))
  unfolding find_transaction elem
  find_transaction-hash hash [] = inl (refl, refl)
  find_transaction-hash hash (tx ∷ txs) = elim (Bool-cases (v.tx_hash tx == hash)) [
    | inl same ↦ inr (tx, ground arith, ground arith, ground arith)
    | inr other ↦ elim (find_transaction-hash hash txs) [
      | inl (absent, gone) ↦ inl (ground arith, ground arith)
      | inr (tx', found, q, there) ↦ inr (tx', ground arith, q, ground arith)
    ]
  ]

-- `SetPK`, which leaves the key for an empty one.
unfoldable pub set_pk : Bytes → Block → Block
set_pk [] block = block
set_pk (c ∷ cs) block = record block { header = record (block.header) { pk = c ∷ cs } }
