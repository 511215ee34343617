-- ===== src/Bindings/Options.antt =====
-- The options of src/stupid-kv-c/src/lib.rs. A field of the type i32 is `none` where it is negative,
-- a string `none` where its pointer is null.
use stupid_kv.Base.{
  ℕ, zero, suc, Bool, not, Option, none, some, Bytes, Result, ok, err, ◌==◌, ltb, if◌then◌else◌,
}
use stupid_kv.Compression.{CompressionMode, plain, lz4}
use stupid_kv.Persistence.{AolMode, FsyncMode}
use stupid_kv.Options.{DatabaseOptions, PersistenceOptions, SnapshotMode, default_database, new}

pub record SkDbOptions : Type 0 where
  pub gc_interval_ms : ℕ
  pub cleanup_interval_ms : ℕ
  pub gc_full_scan_frequency : ℕ
  pub pool_size : ℕ
  pub reset_threshold : ℕ
  pub enable_cleanup : Option ℕ
  pub enable_gc : Option ℕ

pub record SkPersistOptions : Type 0 where
  pub base_path : Option Bytes
  pub snapshot_path : Option Bytes
  pub aol_path : Option Bytes
  pub snapshot_mode : Option ℕ
  pub snapshot_interval_ms : ℕ
  pub aol_mode : Option ℕ
  pub fsync_mode : Option ℕ
  pub fsync_interval_ms : ℕ
  pub compression : Option ℕ

-- A number where it is not 0, a flag where it is not negative.
abbrev pub or_number : ℕ → ℕ → ℕ
or_number default n = if n == 0 then default else n

abbrev pub or_flag : Bool → Option ℕ → Bool
or_flag default none = default
or_flag default (some n) = not (n == 0)

unfoldable pub to_database : SkDbOptions → DatabaseOptions
unfolding default_database
to_database o = record default_database {
  gc_interval = or_number default_database.gc_interval o.gc_interval_ms;
  cleanup_interval = or_number default_database.cleanup_interval o.cleanup_interval_ms;
  gc_full_scan_frequency =
      or_number default_database.gc_full_scan_frequency o.gc_full_scan_frequency;
  pool_size = or_number default_database.pool_size o.pool_size;
  reset_threshold = or_number default_database.reset_threshold o.reset_threshold;
  enable_cleanup = or_flag default_database.enable_cleanup o.enable_cleanup;
  enable_gc = or_flag default_database.enable_gc o.enable_gc;
}

-- The message of a refused option: what is wrong, and the number that was given.
pub data Refused : Type 0 where
  base_path_null : Refused
  invalid_snapshot_mode invalid_aol_mode invalid_fsync_mode invalid_compression : Option ℕ → Refused

unfoldable pub to_snapshot_mode : Option ℕ → ℕ → Result Refused SnapshotMode
to_snapshot_mode (some zero) ms = ok SnapshotMode.never
to_snapshot_mode (some (suc zero)) ms = ok (SnapshotMode.interval ms)
to_snapshot_mode other ms = err (invalid_snapshot_mode other)

unfoldable pub to_aol_mode : Option ℕ → Result Refused AolMode
to_aol_mode (some zero) = ok AolMode.never
to_aol_mode (some (suc zero)) = ok AolMode.synchronous_on_commit
to_aol_mode (some (suc (suc zero))) = ok AolMode.asynchronous_after_commit
to_aol_mode other = err (invalid_aol_mode other)

unfoldable pub to_fsync_mode : Option ℕ → ℕ → Result Refused FsyncMode
to_fsync_mode (some zero) ms = ok FsyncMode.never
to_fsync_mode (some (suc zero)) ms = ok FsyncMode.every_append
to_fsync_mode (some (suc (suc zero))) ms = ok (FsyncMode.interval (if ltb ms 1 then 1 else ms))
to_fsync_mode other ms = err (invalid_fsync_mode other)

unfoldable pub to_compression_mode : Option ℕ → Result Refused CompressionMode
to_compression_mode (some zero) = ok plain
to_compression_mode (some (suc zero)) = ok lz4
to_compression_mode other = err (invalid_compression other)

abbrev pub and_then : {A B : Type 0} → Result Refused A → (A → Result Refused B) → Result Refused B
and_then (ok a) f = f a
and_then (err e) f = err e

-- `lossy` is the standard library's reading of a C string as UTF-8.
module _ (lossy : Bytes → Bytes) where
  abbrev pub or_path : Option Bytes → Option Bytes → Option Bytes
  or_path default none = default
  or_path default (some path) = some (lossy path)

  unfoldable pub to_persistence : SkPersistOptions → Result Refused PersistenceOptions
  unfolding new to_snapshot_mode to_aol_mode to_fsync_mode to_compression_mode
  to_persistence o = elim o.base_path [
    | none ↦ err base_path_null
    | some base ↦
        and_then (to_snapshot_mode o.snapshot_mode o.snapshot_interval_ms) (λ snapshot_mode.
          and_then (to_aol_mode o.aol_mode) (λ aol_mode.
            and_then (to_fsync_mode o.fsync_mode o.fsync_interval_ms) (λ fsync_mode.
              and_then (to_compression_mode o.compression) (λ compression_mode.
                let defaults = new (lossy base) in
                ok (record defaults {
                  snapshot_path = or_path defaults.snapshot_path o.snapshot_path;
                  aol_path = or_path defaults.aol_path o.aol_path;
                  snapshot_mode = snapshot_mode;
                  aol_mode = aol_mode;
                  fsync_mode = fsync_mode;
                  compression_mode = compression_mode;
                })))))
  ]
