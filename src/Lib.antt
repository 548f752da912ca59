-- ===== src/Lib.antt =====
-- Exonum: a model of the consensus of the node and of the database under it, and what makes them
-- correct.
--
-- A node (exonum-node) takes part in a Byzantine fault tolerant consensus on blocks. It keeps a
-- state and handles events one after another: messages of other nodes, transactions, and timeouts.
-- Each handler changes the state, calls the blockchain, and leaves effects: messages to send and
-- timeouts to start.
--
-- The files, by the code that they model:
--   Helpers/Height, Helpers/Round: `Height` and `Round` of exonum/src/helpers/types.rs.
--   Helpers/Quorum: `byzantine_quorum` of exonum/src/helpers/mod.rs.
--   Helpers/Word, Helpers/Bits: machine arithmetic, and bit vectors as lists.
--   Helpers/Descending: numbers sorted downwards, as the code sorts rounds and times.
--   Node/Messages: exonum-node/src/messages, and `Precommit` of exonum/src/messages/types.rs. A
--     signed message is its payload and its author, and verification is done before the handlers.
--   Node/Chain: the interface `Chain` to exonum/src/blockchain, the pool manager of
--     exonum-node/src/pool.rs, hashes, and the clock. It is a parameter of the whole model.
--   Node/Votes, Node/State and the files below it: exonum-node/src/state.rs. A method of `State` is
--     a function of the same name; one that may panic returns an `Option`, whose `none` is the
--     panic.
--   Node/Handler and the files below it: `NodeHandler` of exonum-node/src/lib.rs. A handler is a
--     function from the node to an outcome: done with a result and the node after it, a panic, or
--     fuel that is spent. Node/Handler/Steps has the rules by which a handler is shown to keep a
--     relation between the states before and after, and to spend no fuel where there is enough,
--     from the operations that it is made of. The relations are the regimes of Node/Handler/Kept
--     and Node/Handler/Finishing, and the lemmas on the handlers hold in any of them.
--   Node/Consensus and the files below it: exonum-node/src/consensus.rs, a function for each
--     handler.
--   Node/Basic, Node/Events: statuses of exonum-node/src/basic.rs, and the dispatch of events of
--     exonum-node/src/events_impl.rs.
--   Time: the time service of services/time/src, a service that runs on the blockchain. A report is
--     a function of the service's state, the keys of the validators, and the author of the call.
--   Supervisor: the votes on requests to the supervisor service, multisig.rs and mode.rs of
--     services/supervisor/src.
--   Merkledb and the files below it: the database under the blockchain, components/merkledb/src.
--     Changes, Patch, Fork and Backup are db.rs, Views is views/mod.rs, and Iter the iterators of
--     both. An iterator is the list of the entries that it has left; the loops of `ForkIter` take
--     fuel, and a step for each change and one more are enough. A reference counter of a cell of
--     changes is the number of views for reading that hold it. Fork/Commands has a client of a
--     fork, and Fork/Borrow the views that are open. Temporary is the database in memory,
--     backends/temporarydb.rs, which is an instance of the interface `Database` of Backup.
--     Merkledb/Keys is the keys of integers, keys.rs, over the byteorder crate, which is a
--     parameter, and Merkledb/ProofListKey those of a proof list, indexes/proof_list/key.rs.
--     ListIndex is the list over a view, indexes/list.rs, whose length is kept in memory only; its
--     `truncate` takes fuel, and its length is enough. Elsewhere keys and values are bytes, as
--     `key_bytes` and `into_bytes` give them.
--   Prelude: shared types and lemmas, among them `HashMap`, and `BTreeMap` over numbers (BTreeMap)
--     and over the keys of an order (SortedMap).
-- A file called Kept proves of the code above it what is kept; Node/Tests has a node of four
-- validators and runs it, and Time/Tests, Supervisor/Tests and Merkledb/Tests run the other parts.
--
-- Whether the build has debug assertions and overflow checks is the flag `debug` of `Chain`:
-- without them, sums wrap around and `debug_assert!` does nothing. Numbers are natural, and each
-- sum of the source in machine words is written with its width. Maps are association lists, ordered
-- ones for `BTreeMap`; sets are lists without repetition, whose order stands for the order of
-- iteration.
--
-- `handle_consensus` is called again by `commit` for each message that was queued, so it takes
-- fuel; three nested calls are enough, since each commit raises the epoch and no message is queued
-- that is later than the next epoch.
--
-- Not modelled: encodings of messages and signatures, the network threads, the handshake, the
-- node's API and its configuration files, and answers to requests for stored data; they do not
-- change the state of the consensus. The blockchain's own rules and the execution of services are
-- behind `Chain`, and so is the database for the node; of the database, the system schema, the
-- metadata of indexes, the other kinds of indexes, proofs, migrations and the files of RocksDB are
-- left out; of the services themselves, Time and Supervisor are modelled as far as their files say.
pub mod Prelude
pub mod Helpers
pub mod Node
pub mod Merkledb
pub mod Supervisor
pub mod Time
