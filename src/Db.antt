-- ===== src/Db.antt =====
-- src/db/inner.rs: the shared state of a database, and its two collectors. The calls of one thread
-- run to their end before another thread's call; `Counters.Register` and `Counters.Earliest` say
-- what holds of the counters when the loaded values change in between.
pub mod Chains
pub mod Watermark
pub mod Collect
pub mod Lifecycle
use stupid_kv.Base.{
  ℕ, zero, suc, ◌+◌, min, max, Bool, true, false, Option, none, some, List, [], ◌∷◌, Bytes,
  bytes_ord, nat_ord, eqb, ltb, leb, ◌==◌, if◌then◌else◌, length, any, Crates,
}
use stupid_kv.Base.BTreeMap.{BTreeMap, keys}
use stupid_kv.Base.SkipMap
use stupid_kv.Versions.{Versions, gc_older_versions}
use stupid_kv.Queue.{Commit, Merge}
use stupid_kv.Counters.{Counters, no_counters, earliest_active}
use stupid_kv.Oracle.{Oracle, current_time_ns}
use stupid_kv.Oracle
use stupid_kv.Persistence.{Persistence}

-- The handles of the two collector threads are `Bool`s: is a thread there to be joined.
pub record Inner ⦃c : Crates⦄ : Type 0 where
  pub oracle : Oracle
  pub transaction_commit_id : ℕ
  pub transaction_queue_id : ℕ
  pub transaction_commit_queue : c.SkipMap ℕ Commit
  pub transaction_merge_id : ℕ
  pub transaction_merge_queue : c.SkipMap ℕ Merge
  pub counter_by_commit : Counters
  pub transaction_cleanup_handle : Bool
  pub counter_by_oracle : Counters
  pub garbage_collection_handle : Bool
  pub gc_floor : ℕ
  pub gc_dirty_keys : c.SegQueue Bytes
  pub datastore : c.SkipMap Bytes Versions
  pub background_threads_enabled : Bool
  pub persistence : Option Persistence
  pub reset_threshold : ℕ

module _ ⦃c : Crates⦄ where
  abbrev pub Datastore : Type 0
  Datastore = c.SkipMap Bytes Versions

  -- `unix` and `instant` are the clocks at the start.
  unfoldable pub new : ℕ → ℕ → ℕ → Inner
  unfolding Oracle.new no_counters
  new reset_threshold unix instant = record {
    oracle = Oracle.new unix instant;
    transaction_commit_id = 0;
    transaction_queue_id = 0;
    transaction_commit_queue = c.empty ℕ Commit;
    transaction_merge_id = 0;
    transaction_merge_queue = c.empty ℕ Merge;
    counter_by_commit = no_counters;
    transaction_cleanup_handle = false;
    counter_by_oracle = no_counters;
    garbage_collection_handle = false;
    gc_floor = 0;
    gc_dirty_keys = c.seg_queue Bytes;
    datastore = c.empty Bytes Versions;
    background_threads_enabled = true;
    persistence = none;
    reset_threshold = reset_threshold;
  }

  unfoldable pub earlist_active_version : Inner → ℕ → ℕ
  earlist_active_version db fallback = earliest_active db.counter_by_oracle fallback

  unfoldable pub earliest_active_commit : Inner → ℕ → ℕ
  earliest_active_commit db fallback = earliest_active db.counter_by_commit fallback

  -- The removal of the entries of `range(..oldest)`, one after the other.
  unfoldable pub remove_below : ℕ → BTreeMap ℕ Commit → c.SkipMap ℕ Commit → c.SkipMap ℕ Commit
  remove_below oldest [] queue = queue
  remove_below oldest ((v, t) ∷ entries) queue =
      remove_below oldest entries (if ltb v oldest then SkipMap.remove queue v else queue)

  unfoldable pub run_cleanup_inner : Inner → Inner
  unfolding earliest_active_commit remove_below
  run_cleanup_inner db =
      let oldest = earliest_active_commit db db.transaction_commit_id in
      record db {
        transaction_commit_queue =
            remove_below oldest (SkipMap.iter db.transaction_commit_queue)
              db.transaction_commit_queue;
      }

  -- The database with the new `gc_floor`, and the watermark. `instant` is the monotonic clock.
  unfoldable pub compute_cleanup_ts : Inner → ℕ → Inner × ℕ
  unfolding earlist_active_version
  compute_cleanup_ts db instant =
      let now = current_time_ns db.oracle instant in
      let earliest_tx = earlist_active_version db now in
      let oracle_now = db.oracle.timestamp in
      let proposed = min (min now earliest_tx) oracle_now in
      let earliest_after = earlist_active_version db now in
      (record db { gc_floor = max db.gc_floor proposed }, min proposed earliest_after)

  -- The chain of one key is collected, and an empty chain is taken out of the store.
  unfoldable pub gc_entry : ℕ → Datastore → Bytes → Versions → Datastore
  gc_entry cleanup_ts ds k vs =
      let (kept, left) = gc_older_versions vs cleanup_ts in
      if left == 0 then SkipMap.remove ds k else SkipMap.insert ds k kept

  unfoldable pub gc_key : ℕ → Datastore → Bytes → Datastore
  unfolding gc_entry
  gc_key cleanup_ts ds k = elim (SkipMap.get ds k) [
    | none ↦ ds
    | some vs ↦ gc_entry cleanup_ts ds k vs
  ]

  -- The walk over all entries: each key is looked at once, at the chain that it has then.
  unfoldable pub gc_keys : ℕ → List Bytes → Datastore → Datastore
  gc_keys cleanup_ts [] ds = ds
  gc_keys cleanup_ts (k ∷ ks) ds = gc_keys cleanup_ts ks (gc_key cleanup_ts ds k)

  unfoldable pub run_gc_full : Inner → ℕ → Inner
  unfolding gc_keys
  run_gc_full db cleanup_ts = record db {
    datastore = gc_keys cleanup_ts (keys (SkipMap.iter db.datastore)) db.datastore;
  }

  -- `while let Some(key) = pop()` with the set of the keys that were seen; the fuel counts rounds.
  unfoldable pub gc_dirty :
      ℕ → ℕ → List Bytes → c.SegQueue Bytes → Datastore → c.SegQueue Bytes × Datastore
  gc_dirty cleanup_ts zero seen queue ds = (queue, ds)
  gc_dirty cleanup_ts (suc fuel) seen queue ds = elim (c.pop Bytes queue) [
    | none ↦ (queue, ds)
    | some (k, rest) ↦
        if any (eqb k) seen
        then gc_dirty cleanup_ts fuel seen rest ds
        else gc_dirty cleanup_ts fuel (k ∷ seen) rest (gc_key cleanup_ts ds k)
  ]

  -- One round more than there are keys in the queue.
  unfoldable pub run_gc_dirty_inner : Inner → ℕ → Inner
  unfolding gc_dirty
  run_gc_dirty_inner db cleanup_ts =
      let fuel = suc (length (c.queued Bytes db.gc_dirty_keys)) in
      let (queue, ds) = gc_dirty cleanup_ts fuel [] db.gc_dirty_keys db.datastore in
      record db { gc_dirty_keys = queue; datastore = ds }

  -- `Database::run_gc` and `Database::run_cleanup` of src/db/db.rs.
  unfoldable pub run_gc : Inner → ℕ → Inner
  run_gc db instant =
      let (db', cleanup_ts) = compute_cleanup_ts db instant in
      run_gc_full (run_gc_dirty_inner db' cleanup_ts) cleanup_ts

  unfoldable pub run_cleanup : Inner → Inner
  run_cleanup db = run_cleanup_inner db
