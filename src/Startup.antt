-- ===== src/Startup.antt =====
-- The start of a database with its files: `Persistence::new_with_options` of
-- src/persistence/persistence.rs and `Database::new_with_persistence` of src/db/db.rs. The files are a
-- function of their paths; the two tests on paths are those of the standard library.
pub mod Restart
use stupid_kv.Base.{
  ℕ, Bool, true, Option, none, some, List, [], ◌∷◌, Bytes, bytes_ord, eqb, if◌then◌else◌, Result,
  ok, err, Crates,
}
use stupid_kv.Options.{DatabaseOptions, PersistenceOptions}
use stupid_kv.Persistence.{PersistenceError, AolMode, Aol, Persistence}
use stupid_kv.Persistence.Files.{Loaded, load, Saving, Files, snapshot as save}
use stupid_kv.Db.{Inner, Datastore}
use stupid_kv.Db
use stupid_kv.Db.Lifecycle.{with_workers}
use stupid_kv.Pool.{Pool, default_pool_size}
use stupid_kv.Pool

-- What the system does in one start: the making of the three directories, the opening of the log,
-- and the opening of the two files for reading; and the clock.
pub record Opening : Type 0 where
  pub base_dir : Option PersistenceError
  pub aol_dir : Option PersistenceError
  pub aol : Option PersistenceError
  pub snapshot_dir : Option PersistenceError
  pub read_snapshot : Option PersistenceError
  pub read_aol : Option PersistenceError
  pub now : ℕ

abbrev pub Disk : Type 0
Disk = Bytes → Option Bytes

-- The names "aol.bin" and "snapshot.bin".
abbrev pub aol_bin : Bytes
aol_bin = 97 ∷ 111 ∷ 108 ∷ 46 ∷ 98 ∷ 105 ∷ 110 ∷ []

abbrev pub snapshot_bin : Bytes
snapshot_bin = 115 ∷ 110 ∷ 97 ∷ 112 ∷ 115 ∷ 104 ∷ 111 ∷ 116 ∷ 46 ∷ 98 ∷ 105 ∷ 110 ∷ []

abbrev pub or_empty : Option Bytes → Bytes
or_empty none = []
or_empty (some contents) = contents

-- A call of the system that may fail, and what follows it.
abbrev pub unless :
    {A : Type 0} → Option PersistenceError → Result PersistenceError A → Result PersistenceError A
unless none rest = rest
unless (some e) rest = err e

-- The log opened for appending and made if it is not there; and the disk after that.
unfoldable pub open_aol :
    AolMode → Bytes → Opening → Disk → Result PersistenceError (Option Aol × Disk)
open_aol AolMode.never path o disk = ok (none, disk)
open_aol mode path o disk =
    let contents = or_empty (disk path) in
    unless o.aol_dir (
      unless o.aol (
        ok (
          some (record { contents = contents; synced = 0 }),
          λ p. if eqb p path then some contents else disk p,
        )))

-- The fields of a new persistence.
abbrev pub fresh_persistence : PersistenceOptions → Opening → Option Aol → Persistence
fresh_persistence options o aol = record {
  aol = aol;
  aol_mode = options.aol_mode;
  fsync_mode = options.fsync_mode;
  last_fsync = o.now;
  pending_syncs = 0;
  async_append_injector = [];
}

module _ ⦃c : Crates⦄ where
  -- What `load` leaves, with the persistence if it went well.
  abbrev pub loaded_with : Persistence → Loaded → Result PersistenceError (Persistence × Datastore)
  loaded_with p (ds, ok u) = ok (p, ds)
  loaded_with p (ds, err e) = err e

  -- The database with what was loaded.
  abbrev pub started_with :
      DatabaseOptions
      → Inner
      → Result PersistenceError (Persistence × Datastore)
      → Result PersistenceError (Inner × Pool)
  started_with opts inner (err e) = err e
  started_with opts inner (ok (p, ds)) = ok (
    with_workers opts (record inner { datastore = ds; persistence = some p }),
    Pool.new default_pool_size,
  )

module _ (is_absolute : Bytes → Bool) (join : Bytes → Bytes → Bytes) where
  -- A path of the options: absolute, below the base path, or the default below it.
  unfoldable pub resolve : Bytes → Option Bytes → Bytes → Bytes
  resolve base none default = join base default
  resolve base (some path) default = if is_absolute path then path else join base path

  abbrev pub aol_path : PersistenceOptions → Bytes
  aol_path options = resolve options.base_path options.aol_path aol_bin

  abbrev pub snapshot_path : PersistenceOptions → Bytes
  snapshot_path options = resolve options.base_path options.snapshot_path snapshot_bin

  module _ ⦃c : Crates⦄ where
    -- From the opened log on.
    unfoldable pub restore :
        PersistenceOptions
        → Opening
        → Datastore
        → Option Aol × Disk
        → Result PersistenceError (Persistence × Datastore)
    unfolding resolve
    restore options o ds (aol, disk) = unless o.snapshot_dir (
        loaded_with (fresh_persistence options o aol) (
          load o.read_snapshot (disk (snapshot_path options)) o.read_aol (disk (aol_path options))
            ds))

    abbrev pub opened_with :
        PersistenceOptions
        → Opening
        → Datastore
        → Result PersistenceError (Option Aol × Disk)
        → Result PersistenceError (Persistence × Datastore)
    opened_with options o ds (err e) = err e
    opened_with options o ds (ok opened) = restore options o ds opened

    -- `Persistence::new_with_options`, into the store of the database.
    unfoldable pub new_with_options :
        PersistenceOptions
        → Opening
        → Disk
        → Datastore
        → Result PersistenceError (Persistence × Datastore)
    unfolding open_aol restore
    new_with_options options o disk ds =
        unless o.base_dir
          (opened_with options o ds (open_aol options.aol_mode (aol_path options) o disk))

    -- `Database::new_with_persistence`; `unix` and `instant` are the clocks.
    unfoldable pub new_with_persistence :
        DatabaseOptions
        → PersistenceOptions
        → ℕ
        → ℕ
        → Opening
        → Disk
        → Result PersistenceError (Inner × Pool)
    unfolding new_with_options
    new_with_persistence opts popts unix instant o disk =
        let inner = Db.new opts.reset_threshold unix instant in
        started_with opts inner (new_with_options popts o disk inner.datastore)

-- `Database::snapshot`.
unfoldable pub snapshot :
    ⦃c : Crates⦄
    → PersistenceOptions
    → Saving
    → Files
    → Inner
    → Files × Inner × Result PersistenceError (Unit {0})
snapshot options s files db = elim db.persistence [
  | none ↦ (files, db, ok tt)
  | some p ↦
      let (files', p', result) = save options.compression_mode db.datastore s files p in
      (files', record db { persistence = some p' }, result)
]
