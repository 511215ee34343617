-- ===== src/Lib.antt =====
-- stupid-kv, an embedded key-value store in memory with multi-version concurrency control, snapshot
-- isolation or serializable snapshot isolation, background collection of old versions, and optional
-- persistence by snapshots and an append-only log. Source paths in this library are from the
-- repository's root.
--
-- A `Database` holds one shared state, `Inner` (src/db/inner.rs). A transaction begins by reading the
-- oracle's timestamp as its snapshot and the last commit id as its start, and counts itself in two
-- maps of counters, so that the collectors keep what it needs. It reads the version chains at its
-- snapshot, over merges that are under way and its own write set. Its commit queues its write set
-- with a Bloom filter and a key range, compares it with the commits since its start, merges it into
-- the chains at a new version, and appends it to the log. When the handle goes, the counters are
-- released and the transaction goes back to a pool. A snapshot writes all chains to a file and cuts
-- the log; a start loads the snapshot and then the log.
--
-- The files, with the code that each is about:
--   Base            names, lists, Boolean tests and orders that the others share; `Base.BTreeMap` is
--                   an ordered map as an ascending list; `Base.Collections` is the interface of the
--                   third-party crates (skip map, hash set, bounded and unbounded queue, bincode,
--                   LZ4) with their documented laws, which the definitions take as an instance
--                   argument; `Base.Collections.Instance` fills it with lists
--   Versions        src/versions: the chain of one key; Search, Push, Read, Gc, Bounds are about
--                   its searches, its insertion, its reads, its collection, its greatest version
--   Bloom           src/bloom/bloom.rs
--   Queue           src/queue: commit and merge entries, and the tests for shared keys
--   Options         src/options: defaults and builders
--   Oracle          src/oracle: `Oracle` and its `Inner` as one record
--   Counters        register_counter, release_counter (src/tx/transaction_inner.rs) and
--                   earliest_active (src/db/inner.rs)
--   Compression     src/compression/compression.rs
--   Persistence     src/persistence/persistence.rs: `append`; Persistence.Files has `load`, `snapshot`
--                   and `truncate`, Persistence.Workers the rounds of the append and fsync threads
--                   and the end of `Drop`. Append, Drain and Safety are about these; Decode,
--                   Chains, Replay, Recovery and Torn about `load`; Entries, Heights and Again about
--                   a log that is replayed over a snapshot which already has its commits;
--                   Faults says by the modes and the disk when `append` fails
--   Db              src/db/inner.rs: the state, the two collectors; `Database::run_gc` and
--                   `Database::run_cleanup` of src/db/db.rs; Db.Lifecycle has the start, the rounds
--                   of the collector threads and the shutdown of src/db/db.rs
--   Tx              src/tx/transaction_inner.rs, src/tx/isolation.rs, src/error/tx_error.rs;
--                   Tx.Commit has `commit`, `auto_commit` and `atomic_merge`
--   Pool            src/pool/pool.rs, and `Transaction` of src/tx/transaction.rs
--   Race            `commit` of several threads that overlap, one access to the shared state at a time,
--                   from the start of the transaction to the end of its walk over the commit queue
--   System          the database with its pool and the list of its open handles, and a step relation:
--                   begin, a call on a handle, commit, drop, and the two collections, in any order
--   Startup         `Persistence::new_with_options`, `Database::new_with_persistence` and
--                   `Database::snapshot`: the start of a database from its files
--   Server          server/src/main.rs: the five handlers, as transactions from start to drop, and
--                   sequences of requests; Server.Refinement compares them with a map and the
--                   failures of its log
--   Bindings        stupid-kv-c/src/lib.rs: the calls of the C interface on a transaction;
--                   Bindings.Options has the conversion of its options
--   Python          stupid-kv-py/src/lib.rs: the classes of the Python module
--   Tests           concrete data and runs
--
-- Numbers of 64 bits are natural numbers with their wrap-around written out where the code adds.
-- Clocks and the answers of the disk are arguments. The shared state is passed in and out; an
-- operation of one thread runs to its end before another thread's, but for `register_counter`,
-- whose loads are arbitrary in each round, so that they can be those of any interleaving, and for
-- Race, where threads take turns by any schedule. Counter cells, which the code shares by `Arc`, are
-- places of a list. A file is its bytes; what a writer still buffers is not in it, and a write that
-- fails leaves any first part of its bytes.
--
-- Fuel: `auto_commit` and `atomic_merge` wait for a free place in a queue; they have a number of
-- rounds and one clock reading for each round, and one round is enough when no other commit is under
-- way. `gc_dirty` has one round more than there are keys in its queue. `register_counter` has one
-- round for each entry of the list of loads. A release of a counter that nobody holds would spin for
-- ever, and is `none`. The loop of `load` has one round more than the file has bytes, which is enough
-- because no entry is encoded as nothing. The threads have one round for each reading of the clock
-- or state of the disk that they are given.
--
-- Not modelled: commits that overlap after the end of their walk, and the collection of the commit
-- queue beside them; a snapshot that other threads write beside, but for the truncation at an
-- earlier position; starting, sleeping, waking and joining of threads; conversions to bytes (src/kv);
-- the port and the texts of the server; of the C interface the constructors of a database, the texts
-- of errors, the catching of panics and the freeing of memory; of the Python classes the constructors
-- of a database, the setters of single options and all texts; the examples, which call the library.
pub mod Base
pub mod Versions
pub mod Bloom
pub mod Queue
pub mod Options
pub mod Oracle
pub mod Counters
pub mod Compression
pub mod Persistence
pub mod Db
pub mod Tx
pub mod Pool
pub mod Race
pub mod System
pub mod Startup
pub mod Server
pub mod Bindings
pub mod Python
mod Tests
