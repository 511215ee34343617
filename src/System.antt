-- ===== src/System.antt =====
-- The whole program at work: a database, its pool and the handles that are open, and the calls that
-- change them, one call after the other in any order.
pub mod Handles
pub mod Operations
pub mod Invariant
pub mod Calls
pub mod Steps
pub mod Snapshots
pub mod Current
pub mod Collected
pub mod Serial
pub mod Progress
use stupid_kv.Base.{
  ℕ, suc, ◌+◌, ◌^◌, ◌<◌, ◌≡◌, Bool, some, List, [], ◌∷◌, ◌++◌, Bytes, length, Result, Crates,
}
use stupid_kv.Counters.{counter_tombstone}
use stupid_kv.Persistence.{Disk}
use stupid_kv.Db.{Inner, run_gc, run_cleanup}
use stupid_kv.Tx.{TransactionInner, Error, set, put, del, get, exists, cancel}
use stupid_kv.Tx.Commit.{commit}
use stupid_kv.Pool.{Pool, with_snapshot_isolation, with_serializable_snapshot_isolation}
use stupid_kv.Pool

pub record System ⦃c : Crates⦄ : Type 0 where
  pub pool : Pool
  pub db : Inner
  pub handles : List TransactionInner

module _ ⦃c : Crates⦄ where
  -- The calls on an open handle that change no shared state. A read has room in the count of the
  -- read filter.
  pub data Operation (db : Inner) (tx : TransactionInner) : TransactionInner → Type 0 where
    sets : (key val : Bytes) → Operation db tx (set tx key val).1
    puts : (key val : Bytes) → Operation db tx (put db tx key val).1
    dels : (key : Bytes) → Operation db tx (del tx key).1
    gets : (key : Bytes) → tx.readset_bloom.count + 1 < 2 ^ 64 → Operation db tx (get db tx key).1
    looks :
        (key : Bytes) → tx.readset_bloom.count + 1 < 2 ^ 64 → Operation db tx (exists db tx key).1
    cancels : Operation db tx (cancel tx).1
    to_snapshot : Operation db tx (with_snapshot_isolation tx)
    to_serializable : Operation db tx (with_serializable_snapshot_isolation tx)

  -- One call. There are fewer handles than the tombstone, and the two counters of a commit have
  -- room below 2^64.
  pub data Step : System → System → Type 0 where
    begins :
        (s : System) (write : Bool) (tx : TransactionInner) (pool : Pool) (db : Inner)
        → Pool.get s.pool s.db write ≡ some (tx, pool, db)
        → length s.handles + 1 < counter_tombstone
        → Step s (record { pool = pool; db = db; handles = tx ∷ s.handles })
    operates :
        (s : System) (l r : List TransactionInner) (tx tx' : TransactionInner)
        → s.handles ≡ l ++ tx ∷ r
        → Operation s.db tx tx'
        → Step s (record s { handles = l ++ tx' ∷ r })
    commits :
        (s : System) (l r : List TransactionInner) (tx tx' : TransactionInner) (rounds instant : ℕ)
        (instants : List ℕ) (disk : Disk) (result : Result Error (Unit {0})) (db : Inner)
        → s.handles ≡ l ++ tx ∷ r
        → commit (suc rounds) (instant ∷ instants) disk s.db tx ≡ some (result, db, tx')
        → s.db.transaction_commit_id + 1 < 2 ^ 64
        → s.db.oracle.timestamp + 1 < 2 ^ 64
        → Step s (record s { db = db; handles = l ++ tx' ∷ r })
    drops :
        (s : System) (l r : List TransactionInner) (tx : TransactionInner) (pool : Pool)
        (db : Inner)
        → s.handles ≡ l ++ tx ∷ r
        → Pool.drop s.pool s.db (some tx) ≡ some (pool, db)
        → Step s (record { pool = pool; db = db; handles = l ++ r })
    collects : (s : System) (instant : ℕ) → Step s (record s { db = run_gc s.db instant })
    cleans : (s : System) → Step s (record s { db = run_cleanup s.db })
