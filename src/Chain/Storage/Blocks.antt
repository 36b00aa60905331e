-- ===== src/Chain/Storage/Blocks.antt =====
-- Storing a block and reading it back: `WriteBlock` and `GetBlock` of
-- libraries/chain/space/database_util.go.
use gocoin.Chain.Storage.Keys.{IsKey}
use gocoin.Chain.Tx.{Header, Services, Block}
use gocoin.Common.{
  Bytes, [], ap, arith, false, if◌then◌else◌, length, length-digits, number_from,
  number_from-digits, ok, refl, some, ℕ, ◌<◌, ◌==◌, ◌^◌, ◌∙◌, ◌∷◌, ◌≡◌, ◌≢◌,
}
use gocoin.Chain.Storage.{
  KeyValue, Services, new_block, Header, get_block_number, get_body, Block, get_block, get_header,
  number_of, body_of, number_key, header_key, Body, body_key, encode_number, assemble, write_block,
  header_at, body_at, Key, missing_number,
}
use gocoin.Chain.Storage.Laws.{IsKeyValue, write_block-eq_ok, key_beq_refl, key_beq-false}

-- A block as `GetBlock` makes it: the root is the one of its transactions, and there is no extra
-- data.
unfoldable pub IsSealed : {R : Type 0} → Services R → Block → Type 0
IsSealed v block =
    (block.header.tx_root ≡ v.derive_sha block.transactions) × (block.extra_data ≡ [])

pub new_block-IsSealed :
    {R : Type 0} (v : Services R) (block : Block)
    → IsSealed v block
    → new_block v block.header (body_of block) ≡ block
unfolding IsSealed new_block
new_block-IsSealed v block (p, q) = cc

pub number_of_lt : (h : Header) → number_of h < 2 ^ 64
number_of_lt h = omega arith

key_hash : Key → ℕ
key_hash (header_key n h) = h
key_hash (body_key n h) = h
key_hash (number_key h) = h
key_hash _ = 0

header_key-hash : {n m g h : ℕ} → header_key n g ≡ header_key m h → g ≡ h
unfolding key_hash
header_key-hash e = ap key_hash e

body_key-hash : {n m g h : ℕ} → body_key n g ≡ body_key m h → g ≡ h
unfolding key_hash
body_key-hash e = ap key_hash e

number_key-hash : {g h : ℕ} → number_key g ≡ number_key h → g ≡ h
unfolding key_hash
number_key-hash e = ap key_hash e

module _ {D R : Type 0} (kv : KeyValue D) (laws : IsKeyValue kv) (v : Services R) where
  pub header_found :
      (hash number : ℕ) (h : Header) (bytes : Bytes) (db : D)
      → kv.encode_header h ≡ some bytes
      → kv.get db (header_key number hash) ≡ bytes
      → get_header kv hash number db ≡ some h
  unfolding get_header
  header_found hash number h [] db e g = absurd ((laws.decode-encode_header h [] e).0 refl)
  header_found hash number h (c ∷ cs) db e g =
      ground (arith, laws.decode-encode_header h (c ∷ cs) e)

  pub body_found :
      (hash number : ℕ) (body : Body) (bytes : Bytes) (db : D)
      → kv.encode_body body ≡ some bytes
      → kv.get db (body_key number hash) ≡ bytes
      → get_body kv hash number db ≡ some body
  unfolding get_body
  body_found hash number body [] db e g = absurd ((laws.decode-encode_body body [] e).0 refl)
  body_found hash number body (c ∷ cs) db e g =
      ground (arith, laws.decode-encode_body body (c ∷ cs) e)

  pub block_found :
      (hash number : ℕ) (header : Header) (body : Body) (db : D)
      → get_header kv hash number db ≡ some header
      → get_body kv hash number db ≡ some body
      → get_block kv v hash number db ≡ some (new_block v header body)
  unfolding get_block
  block_found hash number header body db e g = ground arith

  block_frame :
      (hash number : ℕ) (db db' : D)
      → kv.get db' (header_key number hash) ≡ kv.get db (header_key number hash)
      → kv.get db' (body_key number hash) ≡ kv.get db (body_key number hash)
      → get_block kv v hash number db' ≡ get_block kv v hash number db
  unfolding get_block get_header get_body
  block_frame hash number db db' e g =
      ap
        (λ bytes.
          assemble kv v (header_at kv bytes) (body_at kv (kv.get db' (body_key number hash))))
        e
      ∙ ap
          (λ bytes.
            assemble kv v (header_at kv (kv.get db (header_key number hash))) (body_at kv bytes))
          g

  pub number_found :
      (hash number : ℕ) (db : D)
      → number < 2 ^ 64
      → kv.get db (number_key hash) ≡ encode_number number
      → get_block_number kv hash db ≡ number
  unfolding get_block_number
  number_found hash number db p e =
      ground (arith, length-digits 8 number, number_from-digits 8 number (omega arith))

  -- The three entries of a stored block, and the other keys.
  pub stored_entries :
      (block : Block) (db db' : D)
      → v.header_hash block.header < 2 ^ 256
      → write_block kv v block db ≡ ok (false, db')
      → (hb : Bytes) × (bb : Bytes) × (kv.encode_header block.header ≡ some hb)
        × (kv.encode_body (body_of block) ≡ some bb)
        × (kv.get db' (header_key (number_of block.header) (v.header_hash block.header)) ≡ hb)
        × (kv.get db' (body_key (number_of block.header) (v.header_hash block.header)) ≡ bb)
        × (kv.get db' (number_key (v.header_hash block.header))
            ≡ encode_number (number_of block.header))
        × ((j : Key)
            → IsKey j
            → j ≢ header_key (number_of block.header) (v.header_hash block.header)
            → j ≢ body_key (number_of block.header) (v.header_hash block.header)
            → j ≢ number_key (v.header_hash block.header)
            → kv.get db' j ≡ kv.get db j)
  stored_entries block db db' p e =
      let (hb, bb, eh, eb, f) = write_block-eq_ok kv laws v block db e in
      let h = v.header_hash block.header in
      let n = number_of block.header in
      let n_lt = number_of_lt block.header in
      (
        hb,
        bb,
        eh,
        eb,
        ground (arith, f (header_key n h), key_beq_refl (header_key n h)),
        ground (
          arith,
          f (body_key n h),
          key_beq_refl (body_key n h),
          key_beq-false (body_key n h) (header_key n h) (n_lt, p) (n_lt, p) (λ q. cc),
          key_beq-false (body_key n h) (number_key h) (n_lt, p) p (λ q. cc),
        ),
        ground (
          arith,
          f (number_key h),
          key_beq_refl (number_key h),
          key_beq-false (number_key h) (header_key n h) p (n_lt, p) (λ q. cc),
        ),
        λ j is nh nb nn. ground (
          arith,
          f j,
          key_beq-false j (header_key n h) is (n_lt, p) nh,
          key_beq-false j (body_key n h) is (n_lt, p) nb,
          key_beq-false j (number_key h) is p nn,
        ),
      )

  -- A block that `WriteBlock` stored without an error is read back by `GetBlock` under its hash
  -- and its number, and `GetBlockNumber` finds the number, if its hash has 256 bits, its root is
  -- the hash of its transactions and it has no extra data; no block and no number under another
  -- hash changes. The database and its codecs keep `IsKeyValue`.
  pub get_block-write_block :
      (block : Block) (db db' : D)
      → v.header_hash block.header < 2 ^ 256
      → IsSealed v block
      → write_block kv v block db ≡ ok (false, db')
      → (get_block kv v (v.header_hash block.header) (number_of block.header) db' ≡ some block)
        × (get_block_number kv (v.header_hash block.header) db' ≡ number_of block.header)
        × ((hash number : ℕ)
            → hash < 2 ^ 256
            → number < 2 ^ 64
            → hash ≢ v.header_hash block.header
            → (get_block kv v hash number db' ≡ get_block kv v hash number db)
              × (get_block_number kv hash db' ≡ get_block_number kv hash db))
  unfolding get_block_number
  get_block-write_block block db db' p sealed e =
      let (hb, bb, eh, eb, gh, gb, gn, frame) = stored_entries block db db' p e in
      let h = v.header_hash block.header in
      let n = number_of block.header in
      (
        block_found h n block.header (body_of block) db'
              (header_found h n block.header hb db' eh gh)
              (body_found h n (body_of block) bb db' eb gb)
            ∙ ap some (new_block-IsSealed v block sealed),
        number_found h n db' (number_of_lt block.header) gn,
        λ hash number q r other. (
          block_frame hash number db db'
              (frame (header_key number hash) (r, q) (λ u. other (header_key-hash u)) (λ u. cc)
                (λ u. cc))
              (frame (body_key number hash) (r, q) (λ u. cc) (λ u. other (body_key-hash u))
                (λ u. cc)),
          ap (λ bytes. if length bytes == 8 then number_from 0 bytes else missing_number)
              (frame (number_key hash) q (λ u. cc) (λ u. cc) (λ u. other (number_key-hash u))),
        ),
      )
