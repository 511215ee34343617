-- ===== src/Bindings.antt =====
-- src/stupid-kv-c/src/lib.rs: the C interface. A pointer is an option, `none` where it is null; a
-- number of the type i32 is `none` where it is negative. The texts of the errors are not modelled,
-- nor is the catching of panics.
pub mod Options
pub mod Calls
use stupid_kv.Base.{
  ℕ, Bool, true, not, Option, none, some, List, [], Bytes, Result, ok, err, ◌==◌, if◌then◌else◌,
  length, Crates,
}
use stupid_kv.Persistence.{Disk}
use stupid_kv.Db.{Inner}
use stupid_kv.Tx.{
  TransactionInner, Error, tx_closed, key_write_conflict, key_read_conflict, tx_not_writable,
  key_already_exists, tx_commit_not_persisted,
}
use stupid_kv.Tx
use stupid_kv.Tx.Commit.{commit}
use stupid_kv.Pool.{Pool, drop, with_snapshot_isolation, with_serializable_snapshot_isolation}
use stupid_kv.Pool

pub data Code : Type 0 where
  sk_ok sk_not_found sk_null_arg sk_tx_closed sk_tx_not_writable : Code
  sk_write_conflict sk_read_conflict sk_already_exists sk_commit_not_persisted : Code

unfoldable pub map_err : Error → Code
map_err tx_closed = sk_tx_closed
map_err key_write_conflict = sk_write_conflict
map_err key_read_conflict = sk_read_conflict
map_err tx_not_writable = sk_tx_not_writable
map_err key_already_exists = sk_already_exists
map_err (tx_commit_not_persisted e) = sk_commit_not_persisted

-- The code of a call that gives nothing back.
abbrev pub status : {A : Type 0} → Result Error A → Code
status (ok a) = sk_ok
status (err e) = map_err e

-- A buffer of the caller: a null pointer with a length, or the bytes it points to.
pub data Buffer : Type 0 where
  null : ℕ → Buffer
  at : Bytes → Buffer

unfoldable pub bytes : Buffer → Result Code Bytes
bytes (null len) = if len == 0 then ok [] else err sk_null_arg
bytes (at content) = ok content

-- What a pointer that is given to the caller points to.
pub data Given : Type 0 where
  live : Bytes → Given
  freed : Given

pub data WriteOp : Type 0 where
  set put del : WriteOp

-- What `sk_tx_get` writes to its two out-parameters, `none` where it writes nothing.
pub record Found : Type 0 where
  pub code : Code
  pub val_out : Option Given
  pub val_len : Option ℕ

abbrev pub only : Code → Found
only code = record { code = code; val_out = none; val_len = none }

-- The value is freed again unless both parameters are there.
unfoldable pub hand_out : Bool → Bool → Bytes → Found
hand_out has_val has_len v = record {
  code = sk_ok;
  val_out = if has_val then some (if has_len then live v else freed) else none;
  val_len = if has_len then some (length v) else none;
}

module _ ⦃c : Crates⦄ where
  -- `TxHandle`: the transaction, which is there but during a switch of its isolation.
  abbrev pub TxHandle : Type 0
  TxHandle = Option TransactionInner

  -- `write != 0`, for a number of the type i32.
  abbrev nonzero : Option ℕ → Bool
  nonzero none = true
  nonzero (some n) = not (n == 0)

  unfoldable pub sk_db_tx_begin : Pool → Inner → Option ℕ → Option (TxHandle × Pool × Inner)
  sk_db_tx_begin pool db write = elim (Pool.get pool db (nonzero write)) [
    | none ↦ none
    | some (tx, pool', db') ↦ some (some tx, pool', db')
  ]

  unfoldable pub sk_tx_free : Pool → Inner → Option TxHandle → Option (Pool × Inner)
  sk_tx_free pool db none = some (pool, db)
  sk_tx_free pool db (some tx) = drop pool db tx

  unfoldable pub sk_tx_version : Option TxHandle → ℕ
  sk_tx_version (some (some tx)) = tx.version
  sk_tx_version _ = 0

  unfoldable pub sk_tx_is_closed : Option TxHandle → Bool
  sk_tx_is_closed (some (some tx)) = Tx.closed tx
  sk_tx_is_closed _ = true

  unfoldable pub switch_isolation : Option TxHandle → Bool → Code × Option TxHandle
  switch_isolation none ssi = (sk_null_arg, none)
  switch_isolation (some none) ssi = (sk_tx_closed, some none)
  switch_isolation (some (some tx)) ssi = (
    sk_ok,
    some (
        some (if ssi then with_serializable_snapshot_isolation tx else with_snapshot_isolation tx)),
  )

  unfoldable pub found : Bool → Bool → Result Error (Option Bytes) → Found
  unfolding hand_out map_err
  found has_val has_len (ok (some v)) = hand_out has_val has_len v
  found has_val has_len (ok none) = only sk_not_found
  found has_val has_len (err e) = only (map_err e)

  -- The calls look at the key buffer before the handle.
  unfoldable pub sk_tx_get :
      Inner → Option TxHandle → Buffer → Bool → Bool → Found × Option TxHandle
  unfolding found bytes
  sk_tx_get db none key has_val has_len = (only sk_null_arg, none)
  sk_tx_get db (some handle) key has_val has_len = elim (bytes key) [
    | err code ↦ (only code, some handle)
    | ok k ↦ elim handle [
      | none ↦ (only sk_tx_closed, some none)
      | some tx ↦ (found has_val has_len (Tx.get db tx k).0, some (some (Tx.get db tx k).1))
    ]
  ]

  -- The code, and what is written to `out`.
  unfoldable pub exists_reply : Bool → Result Error Bool → Code × Option Bool
  exists_reply has_out (ok b) = (sk_ok, if has_out then some b else none)
  exists_reply has_out (err e) = (map_err e, none)

  unfoldable pub sk_tx_exists :
      Inner → Option TxHandle → Buffer → Bool → (Code × Option Bool) × Option TxHandle
  unfolding exists_reply bytes
  sk_tx_exists db none key has_out = ((sk_null_arg, none), none)
  sk_tx_exists db (some handle) key has_out = elim (bytes key) [
    | err code ↦ ((code, none), some handle)
    | ok k ↦ elim handle [
      | none ↦ ((sk_tx_closed, none), some none)
      | some tx ↦ (exists_reply has_out (Tx.exists db tx k).0, some (some (Tx.exists db tx k).1))
    ]
  ]

  unfoldable pub value_of : Option Buffer → Result Code (Option Bytes)
  unfolding bytes
  value_of none = ok none
  value_of (some buffer) = elim (bytes buffer) [ err code ↦ err code | ok v ↦ ok (some v) ]

  unfoldable pub write_action :
      Inner
      → TransactionInner
      → Bytes
      → Option Bytes
      → WriteOp
      → Result Error (Unit {0}) × TransactionInner
  write_action db tx k (some v) WriteOp.set = Tx.set tx k v
  write_action db tx k (some v) put = Tx.put db tx k v
  write_action db tx k none WriteOp.set = (err tx_not_writable, tx)
  write_action db tx k none put = (err tx_not_writable, tx)
  write_action db tx k value del = Tx.del tx k

  unfoldable pub write_op :
      Inner → Option TxHandle → Buffer → Option Buffer → WriteOp → Code × Option TxHandle
  unfolding value_of write_action bytes
  write_op db none key val op = (sk_null_arg, none)
  write_op db (some handle) key val op = elim (bytes key) [
    | err code ↦ (code, some handle)
    | ok k ↦ elim (value_of val) [
      | err code ↦ (code, some handle)
      | ok v ↦ elim handle [
        | none ↦ (sk_tx_closed, some none)
        | some tx ↦
            (status (write_action db tx k v op).0, some (some (write_action db tx k v op).1))
      ]
    ]
  ]

  unfoldable pub sk_tx_set : Inner → Option TxHandle → Buffer → Buffer → Code × Option TxHandle
  unfolding write_op
  sk_tx_set db tx key val = write_op db tx key (some val) WriteOp.set

  unfoldable pub sk_tx_put : Inner → Option TxHandle → Buffer → Buffer → Code × Option TxHandle
  unfolding write_op
  sk_tx_put db tx key val = write_op db tx key (some val) put

  unfoldable pub sk_tx_del : Inner → Option TxHandle → Buffer → Code × Option TxHandle
  unfolding write_op
  sk_tx_del db tx key = write_op db tx key none del

  unfoldable pub sk_tx_commit :
      ℕ → List ℕ → Disk → Inner → Option TxHandle → Option (Code × Inner × Option TxHandle)
  unfolding map_err
  sk_tx_commit rounds instants disk db none = some (sk_null_arg, db, none)
  sk_tx_commit rounds instants disk db (some none) = some (sk_tx_closed, db, some none)
  sk_tx_commit rounds instants disk db (some (some tx)) = elim (commit rounds instants disk db tx) [
    | none ↦ none
    | some (result, db', tx') ↦ some (status result, db', some (some tx'))
  ]

  unfoldable pub sk_tx_cancel : Option TxHandle → Code × Option TxHandle
  unfolding map_err
  sk_tx_cancel none = (sk_null_arg, none)
  sk_tx_cancel (some none) = (sk_tx_closed, some none)
  sk_tx_cancel (some (some tx)) = (status (Tx.cancel tx).0, some (some (Tx.cancel tx).1))
