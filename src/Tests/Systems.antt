-- ===== src/Tests/Systems.antt =====
-- A run of two handles at work, and the theorems on whole runs at it.
use stupid_kv.Base.{
  ◌≡◌, refl, true, none, some, Option, [], ◌∷◌, bytes_ord, nat_ord, arith, ok, cmp_bytes,
}
use stupid_kv.Base.Collections.Instance.{list_crates, sort_entries}
use stupid_kv.Base.BTreeMap
use stupid_kv.Db.{Inner, run_gc}
use stupid_kv.Db
use stupid_kv.Oracle
use stupid_kv.Counters.{register_counter, no_counters}
use stupid_kv.Counters
use stupid_kv.Tx.{TransactionInner, register}
use stupid_kv.Tx
use stupid_kv.Tx.Commit.{
  Committed, commit, commit_entry, commit_writes, auto_commit, find_conflict, range_conflict,
  merge_writes, atomic_merge, store_writes, persist,
}
use stupid_kv.Tx.Commit.View.{view, takes_effect}
use stupid_kv.Pool
use stupid_kv.System.{System, Step, begins, operates, commits, collects, sets, to_serializable}
use stupid_kv.System.Invariant.{IsConsistent}
use stupid_kv.System.Snapshots.{fetch_in_datastore-HeldRun, held_steps, held_rests}
use stupid_kv.System.Serial.{commit_serial}
use stupid_kv.System.Progress.{Returns, run-Returns}
use stupid_kv.Counters.Holders.{holders}
use stupid_kv.Tx.{fetch_in_datastore}
use stupid_kv.System.Steps.{Run, rests, steps, started, run-IsConsistent}
use stupid_kv.Tx.{Error}
use stupid_kv.Tests.{key_a, key_b, good_disk, fresh, writer}

abbrev begun_or :
    Option (TransactionInner × Pool.Pool × Inner) → TransactionInner × Pool.Pool × Inner
begun_or none = (writer, Pool.new 1, fresh)
begun_or (some x) = x

abbrev committed_or : Option Committed → Committed
committed_or none = (ok tt, fresh, writer)
committed_or (some x) = x

abbrev first : TransactionInner × Pool.Pool × Inner
first = begun_or (Pool.get (Pool.new 1) fresh true)

abbrev second : TransactionInner × Pool.Pool × Inner
second = begun_or (Pool.get first.1 first.2 true)

abbrev written : TransactionInner
written = (Tx.set (Pool.with_serializable_snapshot_isolation second.0) key_a key_b).1

abbrev applied : Committed
applied = committed_or (commit 1 (9 ∷ []) good_disk second.2 written)

first_begins : Pool.get (Pool.new 1) fresh true ≡ some first
unfolding Pool.get Pool.new Db.new Oracle.new Tx.new register register_counter Counters.no_counters
    Counters.slot BTreeMap.get Tx.set Pool.with_serializable_snapshot_isolation BTreeMap.insert
first_begins = refl

second_begins : Pool.get first.1 first.2 true ≡ some second
unfolding Pool.get Pool.new Db.new Oracle.new Tx.new register register_counter Counters.no_counters
    Counters.slot BTreeMap.get Tx.set Pool.with_serializable_snapshot_isolation BTreeMap.insert
second_begins = refl

applied_returns : commit 1 (9 ∷ []) good_disk second.2 written ≡ some applied
unfolding commit commit_writes auto_commit find_conflict range_conflict merge_writes atomic_merge
    Pool.get Pool.new Db.new Oracle.new Tx.new register register_counter Counters.no_counters
    Counters.slot BTreeMap.get Tx.set Pool.with_serializable_snapshot_isolation BTreeMap.insert
    commit_entry sort_entries
applied_returns = refl

applied_effect : takes_effect applied.0 ≡ true
unfolding commit commit_writes auto_commit find_conflict range_conflict merge_writes atomic_merge
    Pool.get Pool.new Db.new Oracle.new Tx.new register register_counter Counters.no_counters
    Counters.slot BTreeMap.get Tx.set Pool.with_serializable_snapshot_isolation BTreeMap.insert
    commit_entry sort_entries persist store_writes
applied_effect = refl

abbrev one_open : System
one_open = record { pool = first.1; db = first.2; handles = first.0 ∷ [] }

abbrev two_open : System
two_open = record { pool = second.1; db = second.2; handles = second.0 ∷ first.0 ∷ [] }

abbrev serializable : TransactionInner
serializable = Pool.with_serializable_snapshot_isolation second.0

abbrev before_write : System
before_write = record two_open { handles = serializable ∷ first.0 ∷ [] }

abbrev before_commit : System
before_commit = record two_open { handles = written ∷ first.0 ∷ [] }

abbrev after_commit : System
after_commit = record two_open { db = applied.1; handles = applied.2 ∷ first.0 ∷ [] }

abbrev after_gc : System
after_gc = record after_commit { db = run_gc applied.1 20 }

run : Run (started 1 100 50 0) before_commit
unfolding Pool.get Pool.new Db.new Oracle.new Tx.new register register_counter Counters.no_counters
    Counters.slot BTreeMap.get Tx.set Pool.with_serializable_snapshot_isolation BTreeMap.insert
    started
run = steps _ one_open _ (begins _ true first.0 first.1 first.2 first_begins (omega arith)) (
    steps _ two_open _ (begins _ true second.0 second.1 second.2 second_begins (omega arith)) (
      steps _ before_write _ (operates _ [] (first.0 ∷ []) second.0 _ refl to_serializable) (
        steps _ before_commit _
          (operates _ [] (first.0 ∷ []) serializable written refl (sets key_a key_b)) (rests _))))

commit-Step : Step before_commit after_commit
unfolding Pool.get Pool.new Db.new Oracle.new Tx.new register register_counter Counters.no_counters
    Counters.slot BTreeMap.get Tx.set Pool.with_serializable_snapshot_isolation BTreeMap.insert
commit-Step =
    commits before_commit [] (first.0 ∷ []) written applied.2 0 9 [] good_disk applied.0 applied.1
      refl applied_returns (omega arith) (omega arith)

run-IsConsistent_example : IsConsistent before_commit
run-IsConsistent_example = run-IsConsistent 1 100 50 0 before_commit run

run-Returns_example : Returns before_commit
unfolding Pool.get Pool.new Db.new Oracle.new Tx.new register register_counter Counters.no_counters
    Counters.slot BTreeMap.get Tx.set Pool.with_serializable_snapshot_isolation BTreeMap.insert
run-Returns_example = run-Returns 1 100 50 0 before_commit run (omega arith) (omega arith)

-- The key was not there before.
commit_serial_example :
    fetch_in_datastore before_commit.db key_a written.version ≡ view before_commit.db key_a
unfolding Pool.get Pool.new Db.new Oracle.new Tx.new register register_counter Counters.no_counters
    Counters.slot BTreeMap.get Tx.set Pool.with_serializable_snapshot_isolation BTreeMap.insert
    cmp_bytes
commit_serial_example =
    commit_serial 1 100 50 0 before_commit [] (first.0 ∷ []) written 0 9 [] good_disk applied key_a
      run refl applied_returns (omega arith) (omega arith) applied_effect (λ e. cc e) refl

-- The reader `first` has the snapshot 50 all the time.
fetch_in_datastore-HeldRun_example :
    fetch_in_datastore after_gc.db key_a 50 ≡ fetch_in_datastore before_commit.db key_a 50
unfolding Pool.get Pool.new Db.new Oracle.new Tx.new register register_counter Counters.no_counters
    Counters.slot BTreeMap.get Tx.set Pool.with_serializable_snapshot_isolation BTreeMap.insert
    holders
fetch_in_datastore-HeldRun_example =
    fetch_in_datastore-HeldRun 50 key_a before_commit after_gc
      (run-IsConsistent 1 100 50 0 before_commit run)
      (held_steps before_commit after_commit after_gc (omega arith) commit-Step (
        held_steps after_commit after_gc after_gc (omega arith) (collects after_commit 20)
          (held_rests after_gc)))
