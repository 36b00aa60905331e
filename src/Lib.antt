-- ===== src/Lib.antt =====
-- The space chain of gocoin: the ledger state, the groups of validators, and the execution of
-- transactions in blocks.
--
-- The program. A node keeps a ledger of accounts and spaces in two Merkle tries. Transactions wait in
-- a pool. A worker builds a block from the pool on the head block: it runs the transactions on a
-- state that is opened at the head's roots, commits the state, and writes the new roots into the
-- header. Other nodes validate the block by running it again, and insert it by running it a third
-- time, where the applications for the groups of validators take effect too. At the end of an epoch
-- the waiting members move on, and committees are drawn from the groups by a hash chain.
--
-- The files.
--   Common: lists, integers, maps, results and Boolean tests on the native numbers.
--   State: libraries/chain/space/state. State.Account and State.Space are account_object.go and
--     space_object.go; State.Db, State.Ops, State.ByAddress, State.Bind and State.Commit are StateDB
--     in statemanage.go; State.Backend is the interface to the tries and the RLP codec, with the laws
--     that they are taken to keep. State.View gives the ledger that a state stands for: each
--     account, from the cache or from the trie. State.Tracked is the invariant of the dirty
--     set.
--   Group: libraries/chain/validategroup/validategroup.go. Group.Rand is the hash chain and
--     RandomPerm, Group.Store the lists in the database, Group.Defs the state and the applications,
--     Group.Reset the resets, Group.Select the selections.
--   Chain: libraries/chain/space. Chain.Tx is the data of protocol/tx.go and protocol/block.go,
--     Chain.Tx.Lists what block.go and tx.go do with lists of transactions, and Chain.Make the
--     constructors of protocol/tx.go; Chain.Exec is the transaction switch of validateBlock and
--     buildBlock in worker.go, Chain.Blocks these two, and Chain.Apply ApplyTransaction and
--     Process of blockchain.go. Chain.Storage is database_util.go, with the keys and their
--     bytes; Chain.Insert is headerchain.go and the rest of blockchain.go over that database;
--     Chain.Pool is tx_pool.go and tx_list.go, Chain.Pool.Steps its steps in any order;
--     Chain.Genesis is genesis.go and NewBlockChain; Chain.Votes is the case of update in
--     worker.go for a vote, Chain.Votes.Proposed the case for a proposed block, with the loop
--     around the cases, what else changes its state and the rest of buildBlock in
--     Chain.Votes.Proposed.Rounds, Chain.Ticks timeoutSubmission there.
--     Chain.Vrf is libraries/chain/vrf/vrf.go, with the sort of the
--     addresses in Chain.Vrf.Sort.
--   Bls: libraries/chain/blsgroup/blsgroup.go. Bls.Peers is about the messages of the peers,
--     Bls.Create the making of the keys, Bls.Requests the requests for a group, Bls.Signs signing
--     and verifying, Bls.Saved what is read after a restart.
--   Examples: a concrete trie, codec, database and block, at which the theorems are applied.
--
-- How the code is modelled. A pointer to a cached object is the key of the object in its cache, so
-- that two pointers to one object are one key. Addresses and hashes are numbers. A big.Int that can
-- be negative is an integer, one that cannot is a number; the places where the code takes the low
-- 64 bits are written out. A Go map is an association list, and the order of one iteration is the
-- order of the list. Go does not fix that order, and it matters where accounts are encoded: an
-- account with two attributes has several encodings, and a block with such an account several
-- roots. A statement about two commits therefore has two encoders, in State.Commit.Orders, which
-- need to agree on accounts with one attribute at most. A call that panics returns the fault. A
-- loop runs over a list or counts down, but for two, which take fuel; a loop that needs more is a
-- result of its own, which is not one that comes back. In the sort the length of the list is
-- enough, for the loop and for the nested calls, since a round moves the ends of a range towards
-- each other and a call is on a shorter range. Worker.update is a relation of steps: its cases, the
-- two parts of buildBlock, the ticks and the setters, in any order, with whatever groups a round
-- finds. In FindCommonAncestor a number above those of both headers is enough, since a round goes
-- up to a header with a lower number.
-- The groups of blsgroup.go are shared by pointers: they are kept in a store under numbers. What is
-- computed elsewhere is an argument: tries, RLP, hashes, signatures, the BLS library, the clock,
-- the database, the sorting of members, the reading of files, and the proof that the proposer of a
-- block carries. A coefficient is kept as its divisor. The database of the chain keeps a successful
-- write and no other key changes, which is its law IsKeyValue; log.Crit is the fault process_exit.
--
-- Not modelled: the loop that builds blocks, reading the genesis file, the intermediate roots of
-- StateDB, the BLS library, and the networking around them. Printed messages are left out.
pub mod Common
pub mod State
pub mod Group
pub mod Chain
pub mod Bls
pub mod Examples
