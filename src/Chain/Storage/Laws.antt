-- ===== src/Chain/Storage/Laws.antt =====
-- What the writes of libraries/chain/space/database_util.go leave in the database.
use gocoin.Chain.Tx.{Header, Services, Block}
use gocoin.Common.{
  >>=-eq-ok, Bool, Bytes, Option-cases, Result, [], arith, bytes_beq, bytes_beq_iff, false,
  if◌then◌else◌, inl, inr, ok, refl, some, true, ℕ, ◌>>=◌, ◌≡◌, ◌≢◌,
}
use gocoin.Chain.Storage.{
  KeyValue, Key, Body, TxLookupEntry, Header, write_header, put_or_exit, Services, header_key,
  number_of, number_key, encode_number, write_body, body_key, write_block, Block, body_of,
}
use gocoin.Chain.Storage.Keys.{key_bytes, IsKey, key_bytes-inj}

-- What the database and the codecs promise: a successful write is read back under the bytes of its
-- key, and no other key changes; what was encoded is not empty and decodes to what it was.
pub record IsKeyValue {D : Type 0} (kv : KeyValue D) : Type 0 where
  pub get-put :
      (db : D) (j k : Key) (bytes : Bytes)
      → (kv.put db k bytes).1 ≡ false
      → kv.get (kv.put db k bytes).0 j
        ≡ (if bytes_beq (key_bytes j) (key_bytes k) then bytes else kv.get db j)
  pub get-delete :
      (db : D) (j k : Key)
      → (kv.delete db k).1 ≡ false
      → kv.get (kv.delete db k).0 j
        ≡ (if bytes_beq (key_bytes j) (key_bytes k) then [] else kv.get db j)
  pub decode-encode_header :
      (h : Header) (bytes : Bytes)
      → kv.encode_header h ≡ some bytes
      → (bytes ≢ []) × (kv.decode_header bytes ≡ some h)
  pub decode-encode_body :
      (body : Body) (bytes : Bytes)
      → kv.encode_body body ≡ some bytes
      → (bytes ≢ []) × (kv.decode_body bytes ≡ some body)
  pub decode-encode_entry :
      (entry : TxLookupEntry) (bytes : Bytes)
      → kv.encode_entry entry ≡ some bytes
      → (bytes ≢ []) × (kv.decode_entry bytes ≡ some entry)

-- Whether two keys are the same bytes.
abbrev pub key_beq : Key → Key → Bool
key_beq j k = bytes_beq (key_bytes j) (key_bytes k)

pub key_beq_refl : (k : Key) → key_beq k k ≡ true
key_beq_refl k = (bytes_beq_iff (key_bytes k) (key_bytes k)).1 refl

pub key_beq-false : (j k : Key) → IsKey j → IsKey k → j ≢ k → key_beq j k ≡ false
key_beq-false j k p q n =
    ground (arith, bytes_beq_iff (key_bytes j) (key_bytes k), key_bytes-inj j k p q)

module _ {D : Type 0} (kv : KeyValue D) (laws : IsKeyValue kv) where
  pub get-put_or_exit :
      (k : Key) (bytes : Bytes) (db : D) {db' : D}
      → put_or_exit kv k bytes db ≡ ok db'
      → (j : Key) → kv.get db' j ≡ (if key_beq j k then bytes else kv.get db j)
  unfolding put_or_exit
  get-put_or_exit k bytes db e j = ground (arith, laws.get-put db j k bytes)

  abbrev succeed : D → Result (Bool × D)
  succeed db = ok (false, db)

  put_twice :
      (k1 k2 : Key) (b1 b2 : Bytes) (db : D) {db' : D}
      → (put_or_exit kv k1 b1 db >>= λ db1. put_or_exit kv k2 b2 db1 >>= succeed) ≡ ok (false, db')
      → (j : Key)
      → kv.get db' j ≡ (if key_beq j k2 then b2 else if key_beq j k1 then b1 else kv.get db j)
  put_twice k1 k2 b1 b2 db e j =
      let (db1, e1, rest) =
        >>=-eq-ok (put_or_exit kv k1 b1 db) (λ d. put_or_exit kv k2 b2 d >>= succeed) e in
      let (db2, e2, last) = >>=-eq-ok (put_or_exit kv k2 b2 db1) succeed rest in
      ground (arith, get-put_or_exit k1 b1 db e1 j, get-put_or_exit k2 b2 db1 e2 j)

  pub write_header-eq_ok :
      {R : Type 0} (v : Services R) (h : Header) (db : D) {db' : D}
      → write_header kv v h db ≡ ok (false, db')
      → (bytes : Bytes) × (kv.encode_header h ≡ some bytes)
        × ((j : Key)
            → kv.get db' j ≡ (
                if key_beq j (header_key (number_of h) (v.header_hash h))
                then bytes
                else if key_beq j (number_key (v.header_hash h))
                then encode_number (number_of h)
                else kv.get db j))
  unfolding write_header
  write_header-eq_ok v h db e = elim (Option-cases (kv.encode_header h)) [
    | inl n ↦ ground arith
    | inr (bytes, q) ↦ (
      bytes,
      q,
      λ j.
          put_twice (number_key (v.header_hash h)) (header_key (number_of h) (v.header_hash h))
            (encode_number (number_of h)) bytes db (ground arith) j,
    )
  ]

  pub write_body-eq_ok :
      (hash number : ℕ) (body : Body) (db : D) {db' : D}
      → write_body kv hash number body db ≡ ok (false, db')
      → (bytes : Bytes) × (kv.encode_body body ≡ some bytes)
        × ((j : Key)
            → kv.get db' j ≡ (if key_beq j (body_key number hash) then bytes else kv.get db j))
  unfolding write_body
  write_body-eq_ok hash number body db {db'} e = elim (Option-cases (kv.encode_body body)) [
    | inl q ↦ ground arith
    | inr (bytes, q) ↦ (
      bytes,
      q,
      λ j.
          let (db1, e1, last) =
            >>=-eq-ok (put_or_exit kv (body_key number hash) bytes db) succeed {y = (false, db')}
              (ground arith) in
          ground (arith, get-put_or_exit (body_key number hash) bytes db e1 j),
    )
  ]

  -- The bytes that a stored block adds, and where.
  abbrev pub Stored : {R : Type 0} → Services R → Block → D → D → Type 0
  Stored v block db db' =
      (hb : Bytes) × (bb : Bytes) × (kv.encode_header block.header ≡ some hb)
      × (kv.encode_body (body_of block) ≡ some bb)
      × ((j : Key)
          → kv.get db' j ≡ (
              if key_beq j (header_key (number_of block.header) (v.header_hash block.header))
              then hb
              else if key_beq j (number_key (v.header_hash block.header))
              then encode_number (number_of block.header)
              else if key_beq j (body_key (number_of block.header) (v.header_hash block.header))
              then bb
              else kv.get db j))

  write_block_rest :
      {R : Type 0} (v : Services R) (block : Block) (db : D) {db' : D} (err : Bool) (db1 : D)
      → write_body kv (v.header_hash block.header) (number_of block.header) (body_of block) db
        ≡ ok (err, db1)
      → (if err then ok (true, db1) else write_header kv v block.header db1) ≡ ok (false, db')
      → Stored v block db db'
  write_block_rest v block db true db1 e h = ground arith
  write_block_rest v block db false db1 e h =
      let (bb, qb, fb) =
        write_body-eq_ok (v.header_hash block.header) (number_of block.header) (body_of block) db
          e in
      let (hb, qh, fh) = write_header-eq_ok v block.header db1 h in
      (hb, bb, qh, qb, λ j. ground (arith, fb j, fh j))

  -- What the database reads after a block was stored without an error.
  pub write_block-eq_ok :
      {R : Type 0} (v : Services R) (block : Block) (db : D) {db' : D}
      → write_block kv v block db ≡ ok (false, db')
      → Stored v block db db'
  unfolding write_block
  write_block-eq_ok v block db e =
      let ((err, db1), e1, rest) =
        >>=-eq-ok
          (write_body kv (v.header_hash block.header) (number_of block.header) (body_of block) db)
          (λ (err, db1). if err then ok (true, db1) else write_header kv v block.header db1) e in
      write_block_rest v block db err db1 e1 rest
