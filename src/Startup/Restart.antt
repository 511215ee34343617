-- ===== src/Startup/Restart.antt =====
-- A database that starts from the files of another one.
use stupid_kv.Base.{
  ℕ, ◌≤◌, ◌≡◌, refl, sym, ap, ◌∙◌, Bool, Option, none, some, [], Bytes, bytes_ord, nat_ord, arith,
  eqb, eqb_iff, if◌then◌else◌, ok, encode_all, Bool-cases, inl, inr, Crates,
}
use stupid_kv.Base.SkipMap
use stupid_kv.Compression.{CompressionMode, plain, detect}
use stupid_kv.Options.{DatabaseOptions, PersistenceOptions}
use stupid_kv.Persistence.{AolMode, Aol, Persistence}
use stupid_kv.Persistence.Files.{Loaded, load, load_write, snapshot_contents}
use stupid_kv.Persistence.Replay.{
  restored, restored-IsBounded, stored-restored, Commits, store_commits, log_of, IsLog,
  last_version, replay-IsBounded, replay-Agrees,
}
use stupid_kv.Persistence.Decode.{fold_left}
use stupid_kv.Persistence.Recovery.{snapshot_bytes, load_log}
use stupid_kv.Counters.Holders.{no_counters-IsCount}
use stupid_kv.Queue.{Commit}
use stupid_kv.Db.{Inner, Datastore}
use stupid_kv.Db
use stupid_kv.Db.Chains.{stored}
use stupid_kv.Db.Lifecycle.{with_workers}
use stupid_kv.Tx.Reads.{fetch_in_datastore-stored}
use stupid_kv.Tx.Commit.Store.{IsBounded, IsBounded-mono}
use stupid_kv.Tx.Commit.View.{view, stored-newest}
use stupid_kv.Pool.{Pool, default_pool_size}
use stupid_kv.Pool
use stupid_kv.System.Invariant.{Agree}
use stupid_kv.Startup.{
  Opening, Disk, open_aol, or_empty, aol_path, snapshot_path, fresh_persistence, loaded_with,
  restore, unless, opened_with, started_with, new_with_options, new_with_persistence,
}

-- No call of the system fails in the start.
pub record Succeeds (o : Opening) : Type 0 where
  pub base_dir : o.base_dir ≡ none
  pub aol_dir : o.aol_dir ≡ none
  pub aol : o.aol ≡ none
  pub snapshot_dir : o.snapshot_dir ≡ none
  pub read_snapshot : o.read_snapshot ≡ none
  pub read_aol : o.read_aol ≡ none

module _ (path : Bytes) (o : Opening) (disk : Disk) (contents : Bytes) (s : Succeeds o)
    (e : disk path ≡ some contents) where
  kept : (p : Bytes) → (if eqb p path then some (or_empty (disk path)) else disk p) ≡ disk p
  kept p = elim (Bool-cases (eqb p path)) [
    | inl here ↦
        rw here (ap (λ x. some (or_empty x)) e ∙ sym e ∙ ap disk (sym ((eqb_iff p path).0 here)))
    | inr other ↦ rw other refl
  ]

  abbrev opened_log : Option Aol × Disk
  opened_log = (
    some (record { contents = or_empty (disk path); synced = 0 }),
    λ p. if eqb p path then some (or_empty (disk path)) else disk p,
  )

  opened : unless o.aol_dir (unless o.aol (ok opened_log)) ≡ ok opened_log
  opened =
      ap (λ x. unless x (unless o.aol (ok opened_log))) s.aol_dir
      ∙ ap (λ x. unless x (ok opened_log)) s.aol

  -- The opening of a log that is there leaves every file as it is.
  open_aol-same :
      (mode : AolMode)
      → (aol : Option Aol) × (after : Disk) × (open_aol mode path o disk ≡ ok (aol, after))
        × ((p : Bytes) → after p ≡ disk p)
  unfolding open_aol
  open_aol-same AolMode.never = (none, disk, refl, λ p. refl)
  open_aol-same AolMode.synchronous_on_commit = (opened_log.0, opened_log.1, opened, kept)
  open_aol-same AolMode.asynchronous_after_commit = (opened_log.0, opened_log.1, opened, kept)

module _ ⦃c : Crates⦄ where
  -- A new database with a store of versions in the past.
  abbrev filled : DatabaseOptions → ℕ → ℕ → Datastore → Persistence → Inner
  filled opts unix instant ds p =
      with_workers opts
        (record (Db.new opts.reset_threshold unix instant) { datastore = ds; persistence = some p })

  filled-Agree :
      (opts : DatabaseOptions) (unix instant : ℕ) (ds : Datastore) (p : Persistence)
      → IsBounded unix ds
      → Agree (filled opts unix instant ds p) []
  unfolding Db.new with_workers
  filled-Agree opts unix instant ds p v = record {
    database = record {
      bounded = v;
      quiet = λ v. SkipMap.get-empty v;
      queued = λ v t h. cc (SkipMap.get-empty {V = Commit} v);
    };
    by_oracle = no_counters-IsCount;
    by_starts = no_counters-IsCount;
    floor = omega arith;
    few = omega arith;
    each = tt;
  }

  filled-view :
      (opts : DatabaseOptions) (unix instant : ℕ) (ds : Datastore) (p : Persistence) (k : Bytes)
      → view (filled opts unix instant ds p) k ≡ stored ds k unix
  unfolding Db.new with_workers view
  filled-view opts unix instant ds p k =
      fetch_in_datastore-stored (filled opts unix instant ds p) k unix (λ v. SkipMap.get-empty v)

  module _ (is_absolute : Bytes → Bool) (join : Bytes → Bytes → Bytes)
      (options : PersistenceOptions) (o : Opening) (disk : Disk) (snapshot log : Bytes)
      (s : Succeeds o)
      (has_snapshot : disk (snapshot_path is_absolute join options) ≡ some snapshot)
      (has_log : disk (aol_path is_absolute join options) ≡ some log) where
    -- With the two files on the disk, and where nothing fails, a start comes down to `load`.
    new_with_options-eq :
        (ds out : Datastore)
        → load none (some snapshot) none (some log) ds ≡ (out, ok tt)
        → (p : Persistence) × (new_with_options is_absolute join options o disk ds ≡ ok (p, out))
    unfolding new_with_options restore
    new_with_options-eq ds out loads =
        let (aol, after, opens, same) =
          open_aol-same (aol_path is_absolute join options) o disk log s has_log options.aol_mode in
        let snapshot_file = snapshot_path is_absolute join options in
        let log_file = aol_path is_absolute join options in
        let opening = open_aol options.aol_mode (aol_path is_absolute join options) o disk in
        let loading : Disk → Loaded = λ d.
          load o.read_snapshot (d (snapshot_path is_absolute join options)) o.read_aol
            (d (aol_path is_absolute join options)) ds in
        (
          fresh_persistence options o aol,
          ap (λ x. unless x (opened_with is_absolute join options o ds opening)) s.base_dir
              ∙ ap (opened_with is_absolute join options o ds) opens
              ∙ ap (λ x. unless x (loaded_with (fresh_persistence options o aol) (loading after)))
                  s.snapshot_dir
              ∙ ap (loaded_with (fresh_persistence options o aol)) (
                  ap (λ x. load x (after snapshot_file) o.read_aol (after log_file) ds)
                    s.read_snapshot
                  ∙ ap (λ x. load none x o.read_aol (after log_file) ds)
                      (same snapshot_file ∙ has_snapshot)
                  ∙ ap (λ x. load none (some snapshot) x (after log_file) ds) s.read_aol
                  ∙ ap (λ x. load none (some snapshot) none x ds) (same log_file ∙ has_log)
                  ∙ loads),
        )

  module _ (is_absolute : Bytes → Bool) (join : Bytes → Bytes → Bytes) (opts : DatabaseOptions)
      (popts : PersistenceOptions) (unix instant : ℕ) (o : Opening) (disk : Disk)
      (s : Succeeds o) where
    -- A start from the files of a database: the snapshot of its sound store, and the log of its
    -- commits since then in the order of their versions, neither taken for an LZ4 frame that it is
    -- not, at the paths of the options, with the clock not before the last version and no failure
    -- of the system. The new database is made, whatever its options; it has no open handle and the
    -- invariant of all runs; and it shows at every key what the old one showed that had made these
    -- commits, at the last version and at any later one.
    pub new_with_persistence-view :
        (mode : CompressionMode) (b : ℕ) (db : Inner) (cs : Commits)
        → disk (snapshot_path is_absolute join popts) ≡ some (snapshot_contents mode db.datastore)
        → disk (aol_path is_absolute join popts) ≡ some (encode_all c.write_codec (log_of cs))
        → (mode ≡ plain → detect (snapshot_bytes db.datastore) ≡ plain)
        → detect (encode_all c.write_codec (log_of cs)) ≡ plain
        → IsBounded b db.datastore
        → IsLog b cs
        → last_version b cs ≤ unix
        → (out : Inner) × (new_with_persistence is_absolute join opts popts unix instant o disk
            ≡ ok (out, Pool.new default_pool_size))
          × Agree out []
          × ((k : Bytes) (q : ℕ)
              → last_version b cs ≤ q
              → view out k ≡ stored (store_commits db cs).datastore k q)
    unfolding new_with_persistence Db.new
    new_with_persistence-view mode b db cs has_snapshot has_log readable legible v l past =
        let ds = fold_left load_write (restored db.datastore) (log_of cs) in
        let bounded =
          replay-IsBounded b cs (restored db.datastore) l (restored-IsBounded b db.datastore v) in
        let (p, made) =
          new_with_options-eq is_absolute join popts o disk (snapshot_contents mode db.datastore)
            (encode_all c.write_codec (log_of cs)) s has_snapshot has_log
            (Db.new opts.reset_threshold unix instant).datastore ds
            (load_log mode b db cs readable legible) in
        (
          filled opts unix instant ds p,
          ap (started_with opts (Db.new opts.reset_threshold unix instant)) made,
          filled-Agree opts unix instant ds p
              (IsBounded-mono (last_version b cs) unix ds past bounded),
          λ k q later.
              filled-view opts unix instant ds p k
              ∙ stored-newest (last_version b cs) unix ds k bounded past
              ∙ sym (stored-newest (last_version b cs) q ds k bounded later)
              ∙ replay-Agrees b cs (restored db.datastore) db l
                  (restored-IsBounded b db.datastore v) v
                  (λ j r. stored-restored b db.datastore j r v) k q,
        )
