-- ===== src/Tx.antt =====
-- src/tx/isolation.rs, src/error/tx_error.rs and src/tx/transaction_inner.rs but for its commit,
-- which is in `Tx.Commit`. The shared database is passed in and out of the methods that change it.
pub mod Commit
pub mod Reads
pub mod Writes
pub mod Begin
use stupid_kv.Base.{
  ℕ, zero, suc, ◌+◌, Bool, true, false, not, ◌&&◌, Option, none, some, List, [], ◌∷◌, Bytes,
  bytes_ord, nat_ord, ltb, leb, if◌then◌else◌, length, reverse, Result, ok, err, Crates,
}
use stupid_kv.Base.BTreeMap.{BTreeMap}
use stupid_kv.Base.BTreeMap
use stupid_kv.Base.SkipMap
use stupid_kv.Versions.{fetch_version, exists_version, is_some}
use stupid_kv.Bloom.{BloomFilter}
use stupid_kv.Bloom
use stupid_kv.Queue.{Merge, Writeset}
use stupid_kv.Counters.{Counters, Loads, register_counter}
use stupid_kv.Persistence.{PersistenceError}
use stupid_kv.Db.{Inner}

pub data IsolationLevel : Type 0 where
  snapshot_isolation serializable_snapshot_isolation : IsolationLevel

-- `mode >= level`, by the order of the variants.
abbrev pub at_least : IsolationLevel → IsolationLevel → Bool
at_least serializable_snapshot_isolation level = true
at_least snapshot_isolation snapshot_isolation = true
at_least snapshot_isolation serializable_snapshot_isolation = false

abbrev pub is_serializable : IsolationLevel → Bool
is_serializable mode = at_least mode serializable_snapshot_isolation

pub data Error : Type 0 where
  tx_closed key_write_conflict key_read_conflict tx_not_writable key_already_exists : Error
  tx_commit_not_persisted : PersistenceError → Error

-- The two counters are cells of the database's counters; the database itself is no field.
pub record TransactionInner ⦃c : Crates⦄ : Type 0 where
  pub mode : IsolationLevel
  pub done : Bool
  pub write : Bool
  pub commit : ℕ
  pub counter_commit : ℕ
  pub version : ℕ
  pub counter_version : ℕ
  pub readset : c.HashSet
  pub readset_bloom : BloomFilter
  pub writeset : Writeset
  pub reset_threshold : ℕ

module _ ⦃c : Crates⦄ where
  -- What `register_counter` loads when no other thread runs: one round is enough.
  abbrev pub version_loads : Inner → List Loads
  version_loads db =
      record { first = db.oracle.timestamp; again = db.oracle.timestamp; floor = some db.gc_floor }
      ∷ []

  abbrev pub commit_loads : Inner → List Loads
  commit_loads db =
      record { first = db.transaction_commit_id; again = db.transaction_commit_id; floor = none }
      ∷ []

  -- The two registrations of a new or a reset transaction: version and commit, each with its
  -- counter, and the database.
  unfoldable pub register : Inner → Option ((ℕ × ℕ) × (ℕ × ℕ) × Inner)
  register db = elim (register_counter (version_loads db) db.counter_by_oracle) [
    | none ↦ none
    | some (version, counter_version, by_oracle) ↦
        elim (register_counter (commit_loads db) db.counter_by_commit) [
          | none ↦ none
          | some (commit, counter_commit, by_commit) ↦ some (
            (version, counter_version),
            (commit, counter_commit),
            record db { counter_by_oracle = by_oracle; counter_by_commit = by_commit },
          )
        ]
  ]

  unfoldable pub new : Inner → Bool → Option (TransactionInner × Inner)
  unfolding register
  new db write = elim (register db) [
    | none ↦ none
    | some ((version, counter_version), (commit, counter_commit), db') ↦ some (
      record {
        mode = snapshot_isolation;
        done = false;
        write = write;
        commit = commit;
        counter_commit = counter_commit;
        version = version;
        counter_version = counter_version;
        readset = c.no_keys;
        readset_bloom = Bloom.new;
        writeset = [];
        reset_threshold = db.reset_threshold;
      },
      db',
    )
  ]

  -- The write set is replaced or cleared by the threshold; both leave it empty.
  abbrev cleared_writeset : Writeset → ℕ → Writeset
  cleared_writeset w threshold = if ltb threshold (length w) then [] else []

  unfoldable pub reset : TransactionInner → Inner → Bool → Option (TransactionInner × Inner)
  unfolding register
  reset tx db write = elim (register db) [
    | none ↦ none
    | some ((version, counter_version), (commit, counter_commit), db') ↦ some (
      record {
        mode = snapshot_isolation;
        done = false;
        write = write;
        commit = commit;
        counter_commit = counter_commit;
        version = version;
        counter_version = counter_version;
        readset = c.no_keys;
        readset_bloom = Bloom.clear tx.readset_bloom;
        writeset = cleared_writeset tx.writeset db.reset_threshold;
        reset_threshold = db.reset_threshold;
      },
      db',
    )
  ]

  -- The sets are dropped, the read set only under serializable isolation.
  unfoldable pub clear_sets : TransactionInner → TransactionInner
  clear_sets tx =
      if is_serializable tx.mode
      then record tx {
        readset = c.no_keys;
        readset_bloom = Bloom.clear tx.readset_bloom;
        writeset = [];
      }
      else record tx { writeset = [] }

  unfoldable pub closed : TransactionInner → Bool
  closed tx = tx.done

  unfoldable pub cancel : TransactionInner → Result Error (Unit {0}) × TransactionInner
  unfolding clear_sets
  cancel tx =
      if tx.done then (err tx_closed, tx) else (ok tt, clear_sets (record tx { done = true }))

  -- `range(..=version)`, and the first entry of a list that writes the key.
  unfoldable pub up_to : ℕ → BTreeMap ℕ Merge → BTreeMap ℕ Merge
  up_to version [] = []
  up_to version ((v, m) ∷ rest) =
      let more = up_to version rest in if leb v version then (v, m) ∷ more else more

  unfoldable pub first_write : List (ℕ × Merge) → Bytes → Option (Option Bytes)
  first_write [] key = none
  first_write ((v, m) ∷ rest) key = elim (BTreeMap.get key m.writeset) [
    | none ↦ first_write rest key
    | some value ↦ some value
  ]

  -- What a merge that is under way has written to the key, the newest first.
  unfoldable pub merging : Inner → Bytes → ℕ → Option (Option Bytes)
  unfolding up_to first_write
  merging db key version =
      first_write (reverse (up_to version (SkipMap.iter db.transaction_merge_queue))) key

  unfoldable pub fetch_in_datastore : Inner → Bytes → ℕ → Option Bytes
  unfolding merging
  fetch_in_datastore db key version = elim (merging db key version) [
    | some value ↦ value
    | none ↦ elim (SkipMap.get db.datastore key) [
      | none ↦ none
      | some vs ↦ fetch_version vs version
    ]
  ]

  unfoldable pub exists_in_datastore : Inner → Bytes → ℕ → Bool
  unfolding merging
  exists_in_datastore db key version = elim (merging db key version) [
    | some value ↦ is_some value
    | none ↦ elim (SkipMap.get db.datastore key) [
      | none ↦ false
      | some vs ↦ exists_version vs version
    ]
  ]

  -- Under serializable isolation a key that is read from the store is recorded.
  unfoldable pub track : TransactionInner → Bytes → TransactionInner
  track tx key =
      if is_serializable tx.mode
      then (if c.contains tx.readset key then tx else record tx {
        readset = c.add_key tx.readset key;
        readset_bloom = Bloom.insert key tx.readset_bloom;
      })
      else tx

  unfoldable pub exists : Inner → TransactionInner → Bytes → Result Error Bool × TransactionInner
  unfolding track
  exists db tx key =
      if tx.done
      then (err tx_closed, tx)
      else if tx.write
      then elim (BTreeMap.get key tx.writeset) [
        | some v ↦ (ok true, tx)
        | none ↦ (ok (exists_in_datastore db key tx.version), track tx key)
      ]
      else (ok (exists_in_datastore db key tx.version), tx)

  unfoldable pub get :
      Inner → TransactionInner → Bytes → Result Error (Option Bytes) × TransactionInner
  unfolding track
  get db tx key =
      if tx.done
      then (err tx_closed, tx)
      else if tx.write
      then elim (BTreeMap.get key tx.writeset) [
        | some v ↦ (ok v, tx)
        | none ↦ (ok (fetch_in_datastore db key tx.version), track tx key)
      ]
      else (ok (fetch_in_datastore db key tx.version), tx)

  -- The guards of the three writes.
  abbrev writing :
      TransactionInner
      → Result Error (Unit {0}) × TransactionInner
      → Result Error (Unit {0}) × TransactionInner
  writing tx action =
      if tx.done
      then (err tx_closed, tx)
      else if tx.write
      then action
      else (err tx_not_writable, tx)

  abbrev write_key : TransactionInner → Bytes → Option Bytes → TransactionInner
  write_key tx key v = record tx { writeset = BTreeMap.insert key v tx.writeset }

  unfoldable pub set : TransactionInner → Bytes → Bytes → Result Error (Unit {0}) × TransactionInner
  set tx key val = writing tx (ok tt, write_key tx key (some val))

  unfoldable pub put :
      Inner → TransactionInner → Bytes → Bytes → Result Error (Unit {0}) × TransactionInner
  put db tx key val = writing tx (elim (BTreeMap.get key tx.writeset) [
    | some v ↦ (err key_already_exists, tx)
    | none ↦
        if exists_in_datastore db key tx.version
        then (err key_already_exists, tx)
        else (ok tt, write_key tx key (some val))
  ])

  unfoldable pub del : TransactionInner → Bytes → Result Error (Unit {0}) × TransactionInner
  del tx key = writing tx (ok tt, write_key tx key none)
