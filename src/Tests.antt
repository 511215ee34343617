-- ===== src/Tests.antt =====
-- Concrete data, and in the children the theorems at it.
pub mod Chains
pub mod Databases
pub mod Transactions
pub mod Logs
pub mod Systems
pub mod Bindings
pub mod Races
pub mod Servers
pub mod Starts
use stupid_kv.Base.{ℕ, true, false, none, some, [], ◌∷◌, Bytes, bytes_ord, refl, Crates}
use stupid_kv.Base.Collections.Instance.{list_crates}
use stupid_kv.Base.SkipMap
use stupid_kv.Versions.{Versions, Version}
use stupid_kv.Bloom
use stupid_kv.Queue.{Writeset, Commit}
use stupid_kv.Persistence.{Disk}
use stupid_kv.Db.{Inner}
use stupid_kv.Db
use stupid_kv.Tx.{TransactionInner, snapshot_isolation}

abbrev pub key_a : Bytes
key_a = 97 ∷ []

abbrev pub key_b : Bytes
key_b = 98 ∷ []

abbrev pub version_1 : Version
version_1 = record { version = 1; value = some key_a }

abbrev pub version_3 : Version
version_3 = record { version = 3; value = none }

abbrev pub version_5 : Version
version_5 = record { version = 5; value = some key_b }

abbrev pub chain : Versions
chain = version_1 ∷ version_3 ∷ version_5 ∷ []

abbrev pub two_writes : Writeset
two_writes = (key_a, some key_b) ∷ (key_b, none) ∷ []

abbrev pub one_write : Writeset
one_write = (key_b, some key_a) ∷ []

-- A database that starts with the wall clock at 50, and the same with a chain in its store.
abbrev pub fresh : Inner
fresh = Db.new 100 50 0

abbrev pub filled : Inner
filled = record fresh { datastore = SkipMap.insert fresh.datastore key_a chain }

abbrev pub writer : TransactionInner
writer = record {
  mode = snapshot_isolation;
  done = false;
  write = true;
  commit = 0;
  counter_commit = 0;
  version = 50;
  counter_version = 0;
  readset = list_crates.no_keys;
  readset_bloom = Bloom.new;
  writeset = two_writes;
  reset_threshold = 100;
}

abbrev pub good_disk : Disk
good_disk = record {
  lock = none;
  write = none;
  reached = 0;
  clock_lock = none;
  sync = none;
  now = 0;
}
