-- ===== src/Python.antt =====
-- stupid-kv-py/src/lib.rs: the Python classes. A method that raises is an error; the texts of the
-- exceptions, the representations of the objects and the release of the interpreter's lock around a
-- call are not modelled. A path is the bytes of its name.
pub mod Exit
use stupid_kv.Base.{
  ℕ, Bool, true, false, ◌*◌, Option, none, some, List, Bytes, Result, ok, err, Crates,
  if◌then◌else◌,
}
use stupid_kv.Persistence.{Disk, PersistenceError}
use stupid_kv.Options.{DatabaseOptions, PersistenceOptions}
use stupid_kv.Options
use stupid_kv.Db.{Inner}
use stupid_kv.Tx.{TransactionInner, Error}
use stupid_kv.Tx
use stupid_kv.Tx.Commit.{commit as tx_commit}
use stupid_kv.Pool.{Pool}
use stupid_kv.Pool

pub data PyErr : Type 0 where
  key_write_conflict key_read_conflict key_already_exists tx_closed tx_not_writable : PyErr
  os_error : PersistenceError → PyErr

unfoldable pub tx_err_to_py : Error → PyErr
tx_err_to_py Error.key_write_conflict = key_write_conflict
tx_err_to_py Error.key_read_conflict = key_read_conflict
tx_err_to_py Error.key_already_exists = key_already_exists
tx_err_to_py Error.tx_closed = tx_closed
tx_err_to_py Error.tx_not_writable = tx_not_writable
tx_err_to_py (Error.tx_commit_not_persisted p) = os_error p

abbrev pub PyResult : Type 0 → Type 0
PyResult A = Result PyErr A

abbrev pub raising : {A : Type 0} → Result Error A → PyResult A
raising (ok a) = ok a
raising (err e) = err (tx_err_to_py e)

module _ ⦃c : Crates⦄ where
  -- The transaction, which is there but while its isolation is switched.
  abbrev pub PyTransaction : Type 0
  PyTransaction = Option TransactionInner

  unfoldable pub transaction : Pool → Inner → Bool → Option (PyTransaction × Pool × Inner)
  transaction pool db write = elim (Pool.get pool db write) [
    | none ↦ none
    | some (tx, pool', db') ↦ some (some tx, pool', db')
  ]

  unfoldable pub with_snapshot_isolation : PyTransaction → PyTransaction
  with_snapshot_isolation none = none
  with_snapshot_isolation (some tx) = some (Pool.with_snapshot_isolation tx)

  unfoldable pub with_serializable_snapshot_isolation : PyTransaction → PyTransaction
  with_serializable_snapshot_isolation none = none
  with_serializable_snapshot_isolation (some tx) =
      some (Pool.with_serializable_snapshot_isolation tx)

  unfoldable pub version : PyTransaction → ℕ
  version none = 0
  version (some tx) = tx.version

  unfoldable pub closed : PyTransaction → Bool
  closed none = true
  closed (some tx) = Tx.closed tx

  -- A call on the transaction, which raises `TxClosed` where it is not there.
  abbrev pub calling :
      {A : Type 0}
      → (TransactionInner → Result Error A × TransactionInner)
      → PyTransaction
      → PyResult A × PyTransaction
  calling call none = (err tx_closed, none)
  calling call (some tx) = (raising (call tx).0, some (call tx).1)

  unfoldable pub commit :
      ℕ
      → List ℕ
      → Disk
      → Inner
      → PyTransaction
      → Option (PyResult (Unit {0}) × Inner × PyTransaction)
  commit rounds instants disk db none = some (err tx_closed, db, none)
  commit rounds instants disk db (some tx) = elim (tx_commit rounds instants disk db tx) [
    | none ↦ none
    | some (result, db', tx') ↦ some (raising result, db', some tx')
  ]

  unfoldable pub cancel : PyTransaction → PyResult (Unit {0}) × PyTransaction
  cancel = calling Tx.cancel

  unfoldable pub exists : Inner → Bytes → PyTransaction → PyResult Bool × PyTransaction
  exists db key = calling (λ tx. Tx.exists db tx key)

  unfoldable pub get : Inner → Bytes → PyTransaction → PyResult (Option Bytes) × PyTransaction
  get db key = calling (λ tx. Tx.get db tx key)

  unfoldable pub set : Bytes → Bytes → PyTransaction → PyResult (Unit {0}) × PyTransaction
  set key value = calling (λ tx. Tx.set tx key value)

  unfoldable pub put : Inner → Bytes → Bytes → PyTransaction → PyResult (Unit {0}) × PyTransaction
  put db key value = calling (λ tx. Tx.put db tx key value)

  unfoldable pub delete : Bytes → PyTransaction → PyResult (Unit {0}) × PyTransaction
  delete key = calling (λ tx. Tx.del tx key)

  -- The end of a `with` block, and whether an exception is in flight: what the commit or the
  -- cancellation answers is dropped.
  unfoldable pub exit_open :
      ℕ → List ℕ → Disk → Inner → TransactionInner → Bool → Option (Bool × Inner × PyTransaction)
  exit_open rounds instants disk db tx raised =
      if raised
      then some (false, db, some (Tx.cancel tx).1)
      else elim (tx_commit rounds instants disk db tx) [
        | none ↦ none
        | some (result, db', tx') ↦ some (false, db', some tx')
      ]

  unfoldable pub exit :
      ℕ → List ℕ → Disk → Inner → PyTransaction → Bool → Option (Bool × Inner × PyTransaction)
  unfolding exit_open
  exit rounds instants disk db none raised = some (false, db, none)
  exit rounds instants disk db (some tx) raised =
      if Tx.closed tx
      then some (false, db, some tx)
      else exit_open rounds instants disk db tx raised

-- The options: intervals of a database are milliseconds, those of the files seconds.
unfoldable pub with_gc_interval : ℕ → DatabaseOptions → DatabaseOptions
with_gc_interval ms opts = Options.with_gc_interval ms opts

unfoldable pub with_cleanup_interval : ℕ → DatabaseOptions → DatabaseOptions
with_cleanup_interval ms opts = Options.with_cleanup_interval ms opts

unfoldable pub with_pure_snapshot : ℕ → PersistenceOptions → PersistenceOptions
with_pure_snapshot interval_sec opts = Options.with_pure_snapshot (interval_sec * 1000) opts

unfoldable pub with_async_aol : ℕ → PersistenceOptions → PersistenceOptions
with_async_aol interval_sec opts = Options.with_async_aol (interval_sec * 1000) opts

unfoldable pub with_sync_aol : ℕ → PersistenceOptions → PersistenceOptions
with_sync_aol interval_sec opts = Options.with_sync_aol (interval_sec * 1000) opts

unfoldable pub with_snapshot_path : Bytes → PersistenceOptions → PersistenceOptions
with_snapshot_path path opts = Options.with_snapshot_path (some path) opts

unfoldable pub with_aol_path : Bytes → PersistenceOptions → PersistenceOptions
with_aol_path path opts = Options.with_aol_path (some path) opts
