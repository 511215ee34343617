-- ===== src/Tx/Commit.antt =====
-- `commit` of src/tx/transaction_inner.rs, with `auto_commit` and `atomic_merge`, stage by stage.
pub mod Entry
pub mod Conflict
pub mod Store
pub mod Stages
pub mod Effect
pub mod Entered
pub mod Outcome
pub mod View
pub mod Logged
use stupid_kv.Base.{
  ℕ, zero, suc, ◌+◌, max, Bool, true, false, not, ◌&&◌, Option, none, some, List, [], ◌∷◌, Bytes,
  bytes_ord, nat_ord, ltb, leb, ◌==◌, if◌then◌else◌, length, last, Result, ok, err, add_u64, Crates,
}
use stupid_kv.Base.BTreeMap.{BTreeMap, keys}
use stupid_kv.Base.SkipMap
use stupid_kv.Versions.{Versions, Version, push}
use stupid_kv.Versions
use stupid_kv.Bloom
use stupid_kv.Bloom.Contains.{insert_all}
use stupid_kv.Queue.{Commit, Merge, Writeset, is_disjoint_writeset_bloom, is_disjoint_readset_bloom}
use stupid_kv.Oracle.{current_time_ns}
use stupid_kv.Persistence.{Persistence, PersistenceError, Disk, append}
use stupid_kv.Db.{Inner, Datastore}
use stupid_kv.Tx.{
  TransactionInner, Error, tx_closed, key_write_conflict, key_read_conflict,
  tx_commit_not_persisted, is_serializable, at_least, snapshot_isolation, clear_sets,
}

-- `unwrap_or_default` on the first and the last key.
abbrev key_or_default : Option Bytes → Bytes
key_or_default none = []
key_or_default (some k) = k

abbrev first_key : List Bytes → Option Bytes
first_key [] = none
first_key (k ∷ ks) = some k

-- The entry of a write set for the commit queue, with its filter and its key range.
unfoldable pub commit_entry : Writeset → ℕ → Commit
commit_entry writeset id = record {
  id = id;
  writeset = writeset;
  writeset_bloom = insert_all (keys writeset) Bloom.new;
  max_key = key_or_default (last (keys writeset));
  min_key = key_or_default (first_key (keys writeset));
}

module _ ⦃c : Crates⦄ where
  -- The first argument counts the rounds of the loop; the result is `none` when they are used up.
  unfoldable pub auto_commit : ℕ → Inner → Commit → Option (ℕ × Inner)
  auto_commit zero db updates = none
  auto_commit (suc rounds) db updates =
      let version = add_u64 db.transaction_commit_id 1 in
      let (queue, entry) = SkipMap.get_or_insert db.transaction_commit_queue version updates in
      let db' = record db { transaction_commit_queue = queue } in
      let again = auto_commit rounds db' updates in
      if updates.id == entry.id
      then some (version, record db' { transaction_commit_id = add_u64 db.transaction_commit_id 1 })
      else again

  -- One round for each reading of the monotonic clock.
  unfoldable pub atomic_merge : List ℕ → Inner → Merge → Option (ℕ × Inner)
  atomic_merge [] db updates = none
  atomic_merge (instant ∷ instants) db updates =
      let now = current_time_ns db.oracle instant in
      let last_ts = db.oracle.timestamp in
      let version = (if leb now last_ts then add_u64 last_ts 1 else now) in
      let (queue, entry) = SkipMap.get_or_insert db.transaction_merge_queue version updates in
      let db' = record db { transaction_merge_queue = queue } in
      let again = atomic_merge instants db' updates in
      if updates.id == entry.id
      then some
          (version, record db' { oracle = record db.oracle { timestamp = max last_ts version } })
      else again

  -- The comparison with one earlier entry.
  unfoldable pub entry_conflict : TransactionInner → Commit → Commit → Option Error
  entry_conflict tx entry t =
      if not (is_disjoint_writeset_bloom t entry)
      then some key_write_conflict
      else if is_serializable tx.mode
          && not (is_disjoint_readset_bloom t tx.readset tx.readset_bloom)
      then some key_read_conflict
      else none

  -- The walk over `range(self.commit + 1 .. version)`, to the first conflict.
  unfoldable pub range_conflict : TransactionInner → Commit → ℕ → BTreeMap ℕ Commit → Option Error
  range_conflict tx entry version [] = none
  range_conflict tx entry version ((v, t) ∷ rest) =
      let later = range_conflict tx entry version rest in
      if leb (add_u64 tx.commit 1) v && ltb v version
      then elim (entry_conflict tx entry t) [ some e ↦ some e | none ↦ later ]
      else later

  unfoldable pub find_conflict : TransactionInner → Commit → ℕ → Inner → Option Error
  unfolding range_conflict
  find_conflict tx entry version db =
      if at_least tx.mode snapshot_isolation
      then range_conflict tx entry version (SkipMap.iter db.transaction_commit_queue)
      else none

  -- One key: the chain is found or made with this version, and then the version is pushed.
  unfoldable pub store_write : Datastore → ℕ → Bytes → Option Bytes → Datastore
  store_write ds version key value =
      let written : Version = record { version = version; value = value } in
      let (ds', vs) = SkipMap.get_or_insert ds key (Versions.from written) in
      SkipMap.insert ds' key (push vs written)

  -- The loop over the write set; each key also goes to the queue of the version collection.
  unfoldable pub store_writes : Inner → ℕ → Writeset → Inner
  store_writes db version [] = db
  store_writes db version ((key, value) ∷ rest) =
      store_writes
        (record db {
          datastore = store_write db.datastore version key value;
          gc_dirty_keys = c.push Bytes db.gc_dirty_keys key;
        })
        version rest

  abbrev pub Committed : Type 0
  Committed = Result Error (Unit {0}) × Inner × TransactionInner

  -- The end of a commit, whether the log was written or not.
  unfoldable pub finish : Result Error (Unit {0}) → ℕ → Inner → TransactionInner → Committed
  finish result version db tx = (
    result,
    record db { transaction_merge_queue = SkipMap.remove db.transaction_merge_queue version },
    clear_sets tx,
  )

  abbrev pub commit_result : Result PersistenceError (Unit {0}) → Result Error (Unit {0})
  commit_result (ok u) = ok u
  commit_result (err e) = err (tx_commit_not_persisted e)

  -- The log is written if there is a persistence.
  unfoldable pub persist :
      Option Persistence → ℕ → Writeset → Disk → Inner → TransactionInner → Committed
  unfolding finish
  persist none version writeset disk db tx = finish (ok tt) version db tx
  persist (some p) version writeset disk db tx =
      let (p', result) = append p version writeset disk in
      finish (commit_result result) version (record db { persistence = some p' }) tx

  -- From the merge queue to the end. `tx` has no write set any more.
  unfoldable pub merge_writes :
      List ℕ → Disk → Inner → TransactionInner → Writeset → Option Committed
  merge_writes instants disk db tx writeset =
      let id = add_u64 db.transaction_merge_id 1 in
      let entry : Merge = record { id = id; writeset = writeset } in
      elim (atomic_merge instants (record db { transaction_merge_id = id }) entry) [
        | none ↦ none
        | some (version, db') ↦
            let stored = store_writes db' version writeset in
            some (persist stored.persistence version writeset disk stored tx)
      ]

  -- A write set that is not empty: it is taken out of the transaction, queued, and compared.
  unfoldable pub commit_writes : ℕ → List ℕ → Disk → Inner → TransactionInner → Option Committed
  commit_writes rounds instants disk db tx =
      let id = add_u64 db.transaction_queue_id 1 in
      let entry = commit_entry tx.writeset id in
      let tx' = record tx { writeset = [] } in
      elim (auto_commit rounds (record db { transaction_queue_id = id }) entry) [
        | none ↦ none
        | some (version, db') ↦ elim (find_conflict tx' entry version db') [
          | some e ↦ some (
            err e,
            record db' {
              transaction_commit_queue = SkipMap.remove db'.transaction_commit_queue version;
            },
            clear_sets tx',
          )
          | none ↦ merge_writes instants disk db' tx' tx.writeset
        ]
      ]

  -- `rounds` and `instants` bound the rounds of the two loops that wait for a free place.
  unfoldable pub commit : ℕ → List ℕ → Disk → Inner → TransactionInner → Option Committed
  commit rounds instants disk db tx =
      if tx.done
      then some (err tx_closed, db, tx)
      else if length tx.writeset == 0
      then some (ok tt, db, record tx { done = true })
      else commit_writes rounds instants disk db (record tx { done = true })
