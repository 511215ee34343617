-- ===== src/Tests/Starts.antt =====
-- A database that starts from the files of another one.
use stupid_kv.Base.{
  ℕ, ◌≤◌, ◌≡◌, refl, Bool, false, none, some, [], ◌∷◌, ◌++◌, Bytes, bytes_ord, arith, eqb,
  if◌then◌else◌, ok, encode_all, cmp_bytes,
}
use stupid_kv.Base.Collections.Instance.{list_crates}
use stupid_kv.Compression.{lz4, detect}
use stupid_kv.Options.{default_database, default_persistence}
use stupid_kv.Persistence.{log_entries}
use stupid_kv.Persistence.Files.{snapshot_contents}
use stupid_kv.Persistence.Replay.{store_commits, log_of}
use stupid_kv.Db.{Inner}
use stupid_kv.Db.Chains.{stored}
use stupid_kv.Tx.Commit.View.{view}
use stupid_kv.Pool.{default_pool_size}
use stupid_kv.Pool
use stupid_kv.System.Invariant.{Agree}
use stupid_kv.Startup.{Opening, Disk, aol_bin, resolve, new_with_persistence}
use stupid_kv.Startup.Restart.{new_with_persistence-view}
use stupid_kv.Tests.{filled}
use stupid_kv.Tests.Logs.{since}
use stupid_kv.Tests.Transactions.{filled-IsBounded}
use stupid_kv.Tests.Chains.{two_writes-IsAscending}

-- A path is absolute where it starts with a slash.
abbrev from_root : Bytes → Bool
from_root [] = false
from_root (x ∷ xs) = eqb (x ∷ []) (47 ∷ [])

abbrev below : Bytes → Bytes → Bytes
below base path = base ++ 47 ∷ path

abbrev smooth : Opening
smooth = record {
  base_dir = none;
  aol_dir = none;
  aol = none;
  snapshot_dir = none;
  read_snapshot = none;
  read_aol = none;
  now = 0;
}

abbrev log : Bytes
log = encode_all list_crates.write_codec (log_of since)

abbrev snapshot_file : Bytes
snapshot_file = snapshot_contents lz4 filled.datastore

abbrev files : Disk
files path =
    if eqb path (resolve from_root below default_persistence.base_path none aol_bin)
    then some log
    else some snapshot_file

new_with_persistence-view_example :
    (out : Inner) × (new_with_persistence from_root below default_database default_persistence 70 0
        smooth files
      ≡ ok (out, Pool.new default_pool_size))
    × Agree out []
    × ((k : Bytes) (q : ℕ)
        → 60 ≤ q
        → view out k ≡ stored (store_commits filled since).datastore k q)
unfolding resolve default_persistence default_database detect encode_all cmp_bytes log_entries
new_with_persistence-view_example =
    new_with_persistence-view from_root below default_database default_persistence 70 0 smooth files
      (record {
        base_dir = refl;
        aol_dir = refl;
        aol = refl;
        snapshot_dir = refl;
        read_snapshot = refl;
        read_aol = refl;
      })
      lz4 50 filled since refl refl (λ e. cc e) refl filled-IsBounded
      (omega arith, two_writes-IsAscending, (omega arith, (tt, tt), tt)) (omega arith)
