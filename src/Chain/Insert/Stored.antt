-- ===== src/Chain/Insert/Stored.antt =====
-- What `Insert` leaves in the database of the chain, and what a restart finds there
-- (libraries/chain/space/blockchain.go).
use gocoin.Chain.Storage.Blocks.{
  IsSealed, number_of_lt, stored_entries, get_block-write_block, header_found,
}
use gocoin.Chain.Tx.{Services, Header, Block}
use gocoin.Chain.Storage.Laws.{IsKeyValue, key_beq, get-put_or_exit, key_beq_refl}
use gocoin.Common.{
  >>=-eq-ok, Bytes, Result, ap, arith, digits, false, if◌then◌else◌, number_from-digits, ok, some,
  subst, sym, ℕ, ◌<◌, ◌>>=◌, ◌^◌, ◌∙◌, ◌≡◌,
}
use gocoin.Chain.Storage.{
  KeyValue, get_head_block_hash, Key, get_canonical_hash, hash_bytes, hash_at, number_of,
  get_head_header_hash, put_or_exit, write_canonical_hash, write_head_header_hash,
  write_head_block_hash, head_header_key, write_block, head_block_key, canonical_key, get_block,
  get_header,
}
use gocoin.Chain.Insert.{
  BlockChain, Services, get_head_block_hash, get_canonical_hash, hash_bytes, number_of,
  get_head_header_hash, get_block_by_hash, set_current_header, record_block, write_head_header_hash,
  write_canonical_hash, Header, write_head_block_hash, Block, write_block, get_block,
  get_header_by_hash, get_header,
}

-- The current block is the head of the database, the canonical block of its number, and there to
-- be read.
unfoldable pub IsStored : {D K R : Type 0} → KeyValue K → Services R → BlockChain D K → Type 0
IsStored kv v c =
    (get_head_block_hash kv c.db ≡ v.header_hash c.current_block.header)
    × (get_canonical_hash kv (number_of c.current_block.header) c.db
        ≡ v.header_hash c.current_block.header)
    × (get_head_header_hash kv c.db ≡ v.header_hash c.current_block.header)
    × (get_header_by_hash kv (v.header_hash c.current_block.header) c.db
        ≡ some c.current_block.header)
    × (get_block_by_hash kv v (v.header_hash c.current_block.header) c.db ≡ some c.current_block)

module _ {K : Type 0} (kv : KeyValue K) (laws : IsKeyValue kv) where
  pub hash_found :
      (k : Key) (hash : ℕ) (db : K)
      → hash < 2 ^ 256
      → kv.get db k ≡ hash_bytes hash
      → hash_at kv (kv.get db k) ≡ hash
  unfolding digits
  hash_found k hash db p e = ap (hash_at kv) e ∙ number_from-digits 32 hash (omega arith)

  pub put_then :
      {X : Type 0} (k : Key) (bytes : Bytes) (db : K) (next : K → Result X) {y : X}
      → (put_or_exit kv k bytes db >>= next) ≡ ok y
      → (db' : K) × (next db' ≡ ok y)
        × ((j : Key) → kv.get db' j ≡ (if key_beq j k then bytes else kv.get db j))
  put_then k bytes db next e =
      let (db', e1, rest) = >>=-eq-ok (put_or_exit kv k bytes db) next e in
      (db', rest, λ j. get-put_or_exit kv laws k bytes db e1 j)

  module _ {D R : Type 0} (v : Services R) where
    set_current_header-eq_ok :
        (head : Header) (c : BlockChain D K) {c' : BlockChain D K}
        → set_current_header kv v head c ≡ ok c'
        → (db : K) × (c' ≡ record c { db = db; current_header = some head })
          × ((j : Key)
              → kv.get db j ≡ (
                  if key_beq j head_header_key
                  then hash_bytes (v.header_hash head)
                  else kv.get c.db j))
    unfolding set_current_header write_head_header_hash
    set_current_header-eq_ok head c {c' = c'} e =
        let (db, rest, f) =
          put_then head_header_key (hash_bytes (v.header_hash head)) c.db
            (λ db. ok (record c { db = db; current_header = some head })) e in
        (db, ground arith, f)

    -- What `Insert` wrote, and where.
    record_block-eq_ok :
        (block : Block) (c : BlockChain D K) {c' : BlockChain D K}
        → record_block kv v block c ≡ ok c'
        → (db db3 : K) × (c'
            ≡ record c { db = db; current_block = block; current_header = some block.header })
          × (write_block kv v block db3 ≡ ok (false, db))
          × ((j : Key)
              → kv.get db3 j ≡ (
                  if key_beq j head_header_key
                  then hash_bytes (v.header_hash block.header)
                  else if key_beq j head_block_key
                  then hash_bytes (v.header_hash block.header)
                  else if key_beq j (canonical_key (number_of block.header))
                  then hash_bytes (v.header_hash block.header)
                  else kv.get c.db j))
    unfolding record_block write_canonical_hash write_head_block_hash
    record_block-eq_ok block c e =
        let (db1, e1, f1) =
          put_then (canonical_key (number_of block.header))
            (hash_bytes (v.header_hash block.header)) c.db _ e in
        let (db2, e2, f2) =
          put_then head_block_key (hash_bytes (v.header_hash block.header)) db1 _ e1 in
        let (c2, e3, rest) =
          >>=-eq-ok
            (set_current_header kv v block.header (record c { db = db2; current_block = block })) _
            e2 in
        let (db3, q, f3) =
          set_current_header-eq_ok block.header (record c { db = db2; current_block = block }) e3 in
        let ((err, db4), e4, last) = >>=-eq-ok (write_block kv v block c2.db) _ rest in
        (db4, db3, ground arith, ground arith, λ j. ground (arith, f1 j, f2 j, f3 j))

    -- A chain whose last writes went through is stored.
    pub record_block-IsStored :
        (block : Block) (c : BlockChain D K) {c' : BlockChain D K}
        → v.header_hash block.header < 2 ^ 256
        → IsSealed v block
        → record_block kv v block c ≡ ok c'
        → IsStored kv v c' × (c'.current_block ≡ block)
    unfolding IsStored get_head_block_hash get_head_header_hash get_canonical_hash get_block_by_hash
        get_header_by_hash
    record_block-IsStored block c {c' = c'} p sealed e =
        let h = v.header_hash block.header in
        let n = number_of block.header in
        let n_lt = number_of_lt block.header in
        let (db, db3, q, stored, f) = record_block-eq_ok block c e in
        let (hb, bb, eh, eb, gh, gb, gn, frame) = stored_entries kv laws v block db3 db p stored in
        let (found, number, others) =
          get_block-write_block kv laws v block db3 db p sealed stored in
        let same : (IsStored kv v
            (record c { db = db; current_block = block; current_header = some block.header })) =
          (
            hash_found head_block_key h db p (
                frame head_block_key tt (λ u. cc) (λ u. cc) (λ u. cc)
                ∙ ground (arith, f head_block_key, key_beq_refl head_block_key)),
            hash_found (canonical_key n) h db p (
                frame (canonical_key n) n_lt (λ u. cc) (λ u. cc) (λ u. cc)
                ∙ ground (arith, f (canonical_key n), key_beq_refl (canonical_key n))),
            hash_found head_header_key h db p (
                frame head_header_key tt (λ u. cc) (λ u. cc) (λ u. cc)
                ∙ ground (arith, f head_header_key, key_beq_refl head_header_key)),
            ap (λ m. get_header kv h m db) number
                ∙ header_found kv laws v h n block.header hb db eh gh,
            ap (λ m. get_block kv v h m db) number ∙ found,
          ) in
        (subst (λ z. IsStored kv v z) (sym q) same, ap (λ z. z.current_block) q)
