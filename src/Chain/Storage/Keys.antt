-- ===== src/Chain/Storage/Keys.antt =====
-- The keys as bytes: libraries/chain/space/database_util.go.
use gocoin.Chain.Storage.{
  Key, head_header_key, head_block_key, head_fast_key, header_key, body_key, canonical_key,
  number_key, lookup_key, liquidation_key,
}
use gocoin.Common.{
  Bytes, [], ap, arith, digits, drop, drop-digits, if◌then◌else◌, number_from, number_from-digits,
  refl, sym, take, take-digits, ℕ, ◌++◌, ◌<◌, ◌==◌, ◌^◌, ◌∙◌, ◌∷◌, ◌≡◌,
}

-- What the code appends to the prefixes "sh", "sb", "sH", "sl" and "lr", and the fixed keys.
unfoldable pub key_bytes : Key → Bytes
key_bytes head_header_key = b'L' ∷ b'a' ∷ b's' ∷ b't' ∷ b'H' ∷ b'e' ∷ b'a' ∷ b'd' ∷ b'e' ∷ b'r' ∷ []
key_bytes head_block_key = b'L' ∷ b'a' ∷ b's' ∷ b't' ∷ b'B' ∷ b'l' ∷ b'o' ∷ b'c' ∷ b'k' ∷ []
key_bytes head_fast_key = b'L' ∷ b'a' ∷ b's' ∷ b't' ∷ b'F' ∷ b'a' ∷ b's' ∷ b't' ∷ []
key_bytes (header_key number hash) = b's' ∷ b'h' ∷ (digits 8 number ++ digits 32 hash)
key_bytes (body_key number hash) = b's' ∷ b'b' ∷ (digits 8 number ++ digits 32 hash)
key_bytes (canonical_key number) = b's' ∷ b'h' ∷ (digits 8 number ++ (b's' ∷ b'n' ∷ []))
key_bytes (number_key hash) = b's' ∷ b'H' ∷ digits 32 hash
key_bytes (lookup_key hash) = b's' ∷ b'l' ∷ digits 32 hash
key_bytes (liquidation_key hash) = b'l' ∷ b'r' ∷ digits 32 hash

-- The numbers are uint64, and the hashes have 256 bits.
abbrev pub IsKey : Key → Type 0
IsKey (header_key number hash) = (number < 2 ^ 64) × (hash < 2 ^ 256)
IsKey (body_key number hash) = (number < 2 ^ 64) × (hash < 2 ^ 256)
IsKey (canonical_key number) = number < 2 ^ 64
IsKey (number_key hash) = hash < 2 ^ 256
IsKey (lookup_key hash) = hash < 2 ^ 256
IsKey (liquidation_key hash) = hash < 2 ^ 256
IsKey _ = Unit {0}

-- The key that the bytes after "sh" and a number belong to.
abbrev numbered : ℕ → ℕ → Bytes → Key
numbered tag number (c ∷ d ∷ []) = canonical_key number
numbered tag number rest =
    if tag == b'h'
    then header_key number (number_from 0 rest)
    else body_key number (number_from 0 rest)

abbrev fixed : ℕ → Key
fixed c = if c == b'H' then head_header_key else if c == b'B' then head_block_key else head_fast_key

abbrev fifth : Bytes → ℕ
fifth (a ∷ b ∷ c ∷ r) = c
fifth _ = 0

-- Reads a key back.
unfoldable pub read_key : Bytes → Key
read_key (a ∷ b ∷ rest) =
    if b == b'a'
    then fixed (fifth rest)
    else if b == b'r'
    then liquidation_key (number_from 0 rest)
    else if b == b'H'
    then number_key (number_from 0 rest)
    else if b == b'l'
    then lookup_key (number_from 0 rest)
    else numbered b (number_from 0 (take 8 rest)) (drop 8 rest)
read_key _ = head_fast_key

abbrev suffix : Bytes
suffix = b's' ∷ b'n' ∷ []

hash_lem : (h : ℕ) → h < 2 ^ 256 → number_from 0 (digits 32 h) ≡ h
hash_lem h p = number_from-digits 32 h (omega arith)

number_lem : (n : ℕ) (r : Bytes) → n < 2 ^ 64 → number_from 0 (take 8 (digits 8 n ++ r)) ≡ n
number_lem n r p = ap (number_from 0) (take-digits 8 n r) ∙ number_from-digits 8 n (omega arith)

-- A hash has more than two bytes.
numbered_hash :
    (tag n h : ℕ)
    → numbered tag n (digits 32 h) ≡ (
        if tag == b'h'
        then header_key n (number_from 0 (digits 32 h))
        else body_key n (number_from 0 (digits 32 h)))
unfolding digits
numbered_hash tag n h = refl

-- A key whose number is a uint64 and whose hash has 256 bits can be read back from its bytes, so
-- that no two of the keys of the database are the same bytes.
pub read_key-key_bytes : (k : Key) → IsKey k → read_key (key_bytes k) ≡ k
unfolding read_key key_bytes
read_key-key_bytes head_header_key p = refl
read_key-key_bytes head_block_key p = refl
read_key-key_bytes head_fast_key p = refl
read_key-key_bytes (header_key number hash) (p, q) =
    ap (λ r. numbered b'h' (number_from 0 (take 8 (digits 8 number ++ digits 32 hash))) r)
      (drop-digits 8 number (digits 32 hash))
    ∙ ap (λ n. numbered b'h' n (digits 32 hash)) (number_lem number (digits 32 hash) p)
    ∙ numbered_hash b'h' number hash
    ∙ ap (header_key number) (hash_lem hash q)
read_key-key_bytes (body_key number hash) (p, q) =
    ap (λ r. numbered b'b' (number_from 0 (take 8 (digits 8 number ++ digits 32 hash))) r)
      (drop-digits 8 number (digits 32 hash))
    ∙ ap (λ n. numbered b'b' n (digits 32 hash)) (number_lem number (digits 32 hash) p)
    ∙ numbered_hash b'b' number hash
    ∙ ap (body_key number) (hash_lem hash q)
read_key-key_bytes (canonical_key number) p =
    ap (λ r. numbered b'h' (number_from 0 (take 8 (digits 8 number ++ suffix))) r)
      (drop-digits 8 number suffix)
    ∙ ap canonical_key (number_lem number suffix p)
read_key-key_bytes (number_key hash) p = ap number_key (hash_lem hash p)
read_key-key_bytes (lookup_key hash) p = ap lookup_key (hash_lem hash p)
read_key-key_bytes (liquidation_key hash) p = ap liquidation_key (hash_lem hash p)

pub key_bytes-inj : (j k : Key) → IsKey j → IsKey k → key_bytes j ≡ key_bytes k → j ≡ k
key_bytes-inj j k p q e = sym (read_key-key_bytes j p) ∙ ap read_key e ∙ read_key-key_bytes k q
