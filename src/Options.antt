-- ===== src/Options.antt =====
-- src/options/database_options.rs and src/options/persistence_options.rs: the defaults and the
-- builders. A duration is a number of milliseconds, a path the bytes of its name.
use stupid_kv.Base.{ℕ, Bool, true, Option, none, [], ◌∷◌, Bytes}
use stupid_kv.Compression.{CompressionMode, plain}
use stupid_kv.Pool.{default_pool_size}
use stupid_kv.Persistence.{AolMode, FsyncMode}

pub record DatabaseOptions : Type 0 where
  pub pool_size : ℕ
  pub resync_interval : ℕ
  pub enable_cleanup : Bool
  pub cleanup_interval : ℕ
  pub enable_gc : Bool
  pub gc_interval : ℕ
  pub gc_full_scan_frequency : ℕ
  pub reset_threshold : ℕ

unfoldable pub default_database : DatabaseOptions
default_database = record {
  pool_size = default_pool_size;
  resync_interval = 5000;
  enable_cleanup = true;
  cleanup_interval = 1000;
  enable_gc = true;
  gc_interval = 500;
  gc_full_scan_frequency = 20;
  reset_threshold = 100;
}

unfoldable pub with_gc_interval : ℕ → DatabaseOptions → DatabaseOptions
with_gc_interval interval opts = record opts { gc_interval = interval }

unfoldable pub with_cleanup_interval : ℕ → DatabaseOptions → DatabaseOptions
with_cleanup_interval interval opts = record opts { cleanup_interval = interval }

pub data SnapshotMode : Type 0 where
  never : SnapshotMode
  interval : ℕ → SnapshotMode

pub record PersistenceOptions : Type 0 where
  pub base_path : Bytes
  pub snapshot_mode : SnapshotMode
  pub snapshot_path : Option Bytes
  pub aol_mode : AolMode
  pub aol_path : Option Bytes
  pub fsync_mode : FsyncMode
  pub compression_mode : CompressionMode

-- The base path "./data".
unfoldable pub default_persistence : PersistenceOptions
default_persistence = record {
  base_path = 46 ∷ 47 ∷ 100 ∷ 97 ∷ 116 ∷ 97 ∷ [];
  snapshot_mode = SnapshotMode.never;
  snapshot_path = none;
  aol_mode = AolMode.never;
  aol_path = none;
  fsync_mode = FsyncMode.never;
  compression_mode = plain;
}

unfoldable pub new : Bytes → PersistenceOptions
new base_path = record default_persistence { base_path = base_path }

unfoldable pub with_base_path : Bytes → PersistenceOptions → PersistenceOptions
with_base_path base_path opts = record opts { base_path = base_path }

unfoldable pub with_snapshot_mode : SnapshotMode → PersistenceOptions → PersistenceOptions
with_snapshot_mode mode opts = record opts { snapshot_mode = mode }

unfoldable pub with_snapshot_path : Option Bytes → PersistenceOptions → PersistenceOptions
with_snapshot_path path opts = record opts { snapshot_path = path }

unfoldable pub with_aol_mode : AolMode → PersistenceOptions → PersistenceOptions
with_aol_mode mode opts = record opts { aol_mode = mode }

unfoldable pub with_fsync_mode : FsyncMode → PersistenceOptions → PersistenceOptions
with_fsync_mode mode opts = record opts { fsync_mode = mode }

unfoldable pub with_aol_path : Option Bytes → PersistenceOptions → PersistenceOptions
with_aol_path path opts = record opts { aol_path = path }

unfoldable pub with_compression_mode : CompressionMode → PersistenceOptions → PersistenceOptions
with_compression_mode mode opts = record opts { compression_mode = mode }

unfoldable pub with_pure_snapshot : ℕ → PersistenceOptions → PersistenceOptions
with_pure_snapshot snapshot_interval opts = record opts {
  snapshot_mode = SnapshotMode.interval snapshot_interval;
  aol_mode = AolMode.never;
  fsync_mode = FsyncMode.never;
}

unfoldable pub with_async_aol : ℕ → PersistenceOptions → PersistenceOptions
with_async_aol snapshot_interval opts = record opts {
  snapshot_mode = SnapshotMode.interval snapshot_interval;
  aol_mode = AolMode.asynchronous_after_commit;
  fsync_mode = FsyncMode.interval 100;
}

unfoldable pub with_sync_aol : ℕ → PersistenceOptions → PersistenceOptions
with_sync_aol snapshot_interval opts = record opts {
  snapshot_mode = SnapshotMode.interval snapshot_interval;
  aol_mode = AolMode.synchronous_on_commit;
  fsync_mode = FsyncMode.every_append;
}
