-- ===== src/Examples/Chains.antt =====
-- The chain over its database at concrete inputs.
use gocoin.Chain.Genesis.Written.{new_block_chain-write_genesis}
use gocoin.Chain.Genesis.{write_genesis, new_block_chain}
use gocoin.Group.Store.{Database}
use gocoin.State.Db.{new_state}
use gocoin.State.Commit.{
  commit_state, space_finalise, account_finalise, finalise_spaces, finalise_accounts,
}
use gocoin.Chain.Insert.Restart.{
  insert_chain-IsStored, insert_block-IsStored, load_last_state-IsStored,
}
use gocoin.Chain.Apply.{process, apply_transactions}
use gocoin.Chain.Insert.Stored.{IsStored, record_block-IsStored}
use gocoin.Examples.Store.{Store, store}
use gocoin.Examples.Groups.{Log, log, outside}
use gocoin.Chain.Insert.{
  Nodes, block_siger_verifier, Verifier, insert_chain, BlockChain, insert_block, record_block,
  insert_verified, insert_blocks, load_last_state, is_linked, extend, set_current_header,
}
use gocoin.Chain.Tx.{Block, Services}
use gocoin.Chain.Storage.Blocks.{IsSealed, get_block-write_block}
use gocoin.Chain.Storage.{
  canonical_key, header_key, hash_bytes, write_block, write_body, number_key, number_of,
  write_canonical_hash, head_header_key, encode_number, write_head_block_hash, write_header,
  head_block_key, put_or_exit, body_key, get_block, write_head_header_hash, get_block_number,
  get_canonical_hash,
}
use gocoin.Examples.Memory.{Memory, write, encode_head, memory, memory-IsKeyValue}
use gocoin.Chain.Storage.Keys.{key_bytes, read_key, read_key-key_bytes}
use gocoin.Common.{
  Bytes, Option, [], arith, bytes_beq, digits, false, none, number_from, ok, refl, some, true, ℕ,
  ◌+◌, ◌<◌, ◌^◌, ◌∷◌, ◌≡◌, ◌≢◌, ◌⊎◌,
}
use gocoin.Examples.Blocks.{services, head, Reports}

read_key-key_bytes_example : read_key (key_bytes (header_key 5 9)) ≡ header_key 5 9
read_key-key_bytes_example = read_key-key_bytes (header_key 5 9) (omega arith, omega arith)

abbrev nothing : Memory
nothing = λ k. []

abbrev bytes_in : Option Bytes → Bytes
bytes_in none = []
bytes_in (some bytes) = bytes

-- The database with a block.
abbrev with_block : Block → Memory → Memory
with_block block db =
    let h = block.header.number in
    write (header_key h h) (bytes_in (encode_head block.header))
      (write (number_key h) (encode_number h) (write (body_key h h) (1 ∷ []) db))

head-IsSealed : IsSealed services head
unfolding IsSealed
head-IsSealed = (refl, refl)

get_block-write_block_example :
    (get_block memory services 4 4 (with_block head nothing) ≡ some head)
    × (get_block_number memory 4 (with_block head nothing) ≡ 4)
    × ((hash number : ℕ)
        → hash < 2 ^ 256
        → number < 2 ^ 64
        → hash ≢ 4
        → (get_block memory services hash number (with_block head nothing)
            ≡ get_block memory services hash number nothing)
          × (get_block_number memory hash (with_block head nothing)
              ≡ get_block_number memory hash nothing))
unfolding write_block write_body write_header put_or_exit
get_block-write_block_example =
    get_block-write_block memory memory-IsKeyValue services head nothing (with_block head nothing)
      (omega arith) head-IsSealed refl

-- A chain at a block, with the block written as `Insert` does.
abbrev written_at : Block → Memory → Memory
written_at block db =
    let h = hash_bytes block.header.number in
    with_block block (
      write head_header_key h
        (write head_block_key h (write (canonical_key block.header.number) h db)))

abbrev chain_at : Block → Memory → BlockChain Log Memory
chain_at block db = record {
  db = written_at block db;
  genesis_block = head;
  current_block = block;
  current_header = some block.header;
  group = none;
}

abbrev first : BlockChain Log Memory
first = chain_at head nothing

first-IsStored : IsStored memory services first
unfolding record_block write_canonical_hash write_head_block_hash set_current_header
    write_head_header_hash put_or_exit write_block write_body write_header
first-IsStored =
    (record_block-IsStored memory memory-IsKeyValue services head
      (record first { db = nothing; current_header = none }) (omega arith) head-IsSealed refl).0

-- The next block, without transactions, which the threshold group signed.
abbrev next : Block
next = record head {
  header = record (head.header) { uncle_hash = 4; number = 5; pk = 2 ∷ []; sign = 9 ∷ [] };
}

next-IsSealed : IsSealed services next
unfolding IsSealed
next-IsSealed = (refl, refl)

abbrev nodes : Nodes Store Memory
nodes = record { backend = λ db. store; save = λ t db. db }

abbrev verifier : Verifier
verifier = record {
  hash_no_sig = λ h. h.number;
  sign_sender = λ hash sign. none;
  bls_verify = λ sign hash key. true;
}

abbrev second : BlockChain Log Memory
second = chain_at next (written_at head nothing)

inserted : insert_block nodes memory services verifier log outside next first ≡ ok ([], second)
unfolding insert_block insert_verified block_siger_verifier extend process apply_transactions
    commit_state space_finalise account_finalise finalise_spaces finalise_accounts new_state
    get_canonical_hash record_block write_canonical_hash write_head_block_hash set_current_header
    write_head_header_hash put_or_exit write_block write_body write_header bytes_beq key_bytes
    digits number_from
inserted = refl

insert_block-IsStored_example :
    (second ≡ first)
    ⊎ ((block_siger_verifier verifier next ≡ ok true)
        × (number_of next.header ≢ number_of first.current_block.header)
        × (second.current_block ≡ next)
        × IsStored memory services second)
insert_block-IsStored_example =
    insert_block-IsStored nodes memory memory-IsKeyValue services verifier log outside next first
      (omega arith) next-IsSealed inserted

insert_chain-IsStored_example : IsStored memory services second
unfolding insert_chain insert_blocks is_linked
insert_chain-IsStored_example =
    insert_chain-IsStored nodes memory memory-IsKeyValue services verifier log outside (next ∷ [])
      first {n = 1} {events = []} {c' = second} (omega arith, next-IsSealed, tt) first-IsStored
      (rw inserted refl)

load_last_state-IsStored_example :
    (c' : BlockChain Log Memory) × (load_last_state memory services first ≡ ok c')
    × (c'.current_block ≡ head)
    × (c'.current_header ≡ some head.header)
    × (c'.genesis_block ≡ head)
load_last_state-IsStored_example =
    load_last_state-IsStored memory services first first first-IsStored (λ e. omega arith) refl

-- A genesis block, with the hash 1.
abbrev hashing : Services Reports
hashing = record services { header_hash = λ h. h.number + 1 }

abbrev zeroth : Block
zeroth = record head { header = record (head.header) { number = 0; uncle_hash = 0 } }

abbrev at_zero : Memory
at_zero =
    let h = hash_bytes 1 in
    write head_header_key h (
      write head_block_key h (
        write (canonical_key 0) h (
          write (header_key 0 1) (bytes_in (encode_head zeroth.header))
            (write (number_key 1) (encode_number 0) (write (body_key 0 1) (1 ∷ []) nothing)))))

zeroth-IsSealed : IsSealed hashing zeroth
unfolding IsSealed
zeroth-IsSealed = (refl, refl)

abbrev chain_db : Database Memory
chain_db = record {
  get = λ db k. [];
  put = λ db k v. (db, false);
  delete = λ db k. (db, false);
  encode = λ ms. none;
  decode = λ v. none;
}

new_block_chain-write_genesis_example :
    (c : BlockChain Log Memory) × (new_block_chain nodes memory hashing chain_db outside 7 none
        at_zero
      ≡ ok (some c))
    × (c.current_block ≡ zeroth)
    × (c.genesis_block ≡ zeroth)
unfolding write_genesis write_canonical_hash write_head_block_hash write_head_header_hash
    put_or_exit write_block write_body write_header
new_block_chain-write_genesis_example =
    new_block_chain-write_genesis nodes memory memory-IsKeyValue hashing chain_db outside zeroth
      nothing at_zero 7 none (omega arith) (λ e. omega arith) refl zeroth-IsSealed refl refl
