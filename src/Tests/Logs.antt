-- ===== src/Tests/Logs.antt =====
-- The theorems on the log and the snapshot, at a log of one entry and disks that fail.
use stupid_kv.Base.{
  ℕ, suc, length, false, arith, ◌≡◌, List, take, ok, Bytes, ◌≤◌, bytes_ord, cmp_bytes, none, some,
  [], ◌∷◌, refl, encode_all,
}
use stupid_kv.Base.Collections.Instance.{list_crates}
use stupid_kv.Compression.{lz4, detect}
use stupid_kv.Db.{Datastore}
use stupid_kv.Db.Chains.{stored}
use stupid_kv.Persistence.Files.{Files, Saving, load, snapshot, snapshot_contents, cut_log}
use stupid_kv.Persistence.Replay.{Commits, store_commits, log_of, Agrees}
use stupid_kv.Persistence.Decode.{IsWhole}
use stupid_kv.Persistence.Recovery.{write_full, load-store_commits, empty_store}
use stupid_kv.Persistence.Torn.{last_seen, load_cut}
use stupid_kv.Persistence.Again.{load_again}
use stupid_kv.Persistence.Safety.{IsSafe, snapshot-IsSafe, Cut, cut_log-Cut}
use stupid_kv.Tests.Chains.{two_writes-IsAscending}
use stupid_kv.Tests.Transactions.{filled-IsBounded}
use stupid_kv.Persistence.{
  LogEntry, Persistence, Aol, Disk, FsyncMode, synchronous_on_commit, append, log_entries, io,
}
use stupid_kv.Persistence.Append.{Logged, log_bytes, append-Logged}
use stupid_kv.Tests.{key_a, key_b, one_write, filled, two_writes, good_disk}

abbrev log : Aol
log = record { contents = encode_all list_crates.write_codec ((key_a, 7, none) ∷ []); synced = 1 }

abbrev logging : Persistence
logging = record {
  aol = some log;
  aol_mode = synchronous_on_commit;
  fsync_mode = FsyncMode.every_append;
  last_fsync = 0;
  pending_syncs = 0;
  async_append_injector = [];
}

abbrev full_disk : Disk
full_disk = record good_disk { write = some io; reached = 3 }

append-Logged_example :
    Logged FsyncMode.every_append log
      (log_bytes 8 two_writes)
      (append logging 8 two_writes full_disk)
append-Logged_example = append-Logged logging log 8 two_writes full_disk refl refl

-- The bytes of two entries, cut in the middle of the second.
abbrev entries : List LogEntry
entries = (key_a, 51, none) ∷ (key_b, 52, some key_a) ∷ []

abbrev bytes_left : ℕ
bytes_left = suc (length (encode_all list_crates.write_codec ((key_a, 51, none) ∷ [])))

load_cut_example :
    (k : ℕ) × (out : Datastore) × IsWhole list_crates.write_codec write_full entries bytes_left k
    × (load none
          (some (snapshot_contents lz4 filled.datastore))
          none
          (some (take bytes_left (encode_all list_crates.write_codec entries)))
          empty_store
        ≡ (out, ok tt))
    × ((j : Bytes) (q : ℕ)
        → stored out j q ≡ last_seen (take k entries) j q (stored filled.datastore j q))
unfolding detect encode_all cmp_bytes
load_cut_example =
    load_cut lz4 filled.datastore 50 52 (λ e. cc e) filled-IsBounded entries bytes_left
      (omega arith, (omega arith, omega arith)) refl

-- The snapshot of a store with one chain, and two commits after it.
abbrev pub since : Commits
since = (51, two_writes) ∷ (60, one_write) ∷ []

abbrev first_commit : Commits
first_commit = (51, two_writes) ∷ []

abbrev second_commit : Commits
second_commit = (60, one_write) ∷ []

load-store_commits_example :
    (ds : Datastore) × (load none
        (some (snapshot_contents lz4 filled.datastore))
        none
        (some (encode_all list_crates.write_codec (log_of since)))
        empty_store
      ≡ (ds, ok tt))
    × Agrees ds (store_commits filled since).datastore
unfolding detect encode_all cmp_bytes log_entries
load-store_commits_example =
    load-store_commits lz4 50 filled since (λ e. cc e) refl filled-IsBounded
      (omega arith, two_writes-IsAscending, (omega arith, (tt, tt), tt))

-- The snapshot has the first of the two commits, and the log has both.
load_again_example :
    (ds : Datastore) × (load none
        (some (snapshot_contents lz4 (store_commits filled first_commit).datastore))
        none
        (some (encode_all list_crates.write_codec (log_of since)))
        empty_store
      ≡ (ds, ok tt))
    × ((j : Bytes) (q : ℕ)
        → 60 ≤ q
        → stored ds j q ≡ stored (store_commits filled since).datastore j q)
unfolding detect encode_all cmp_bytes log_entries
load_again_example =
    load_again 50 filled first_commit second_commit filled-IsBounded
      (omega arith, two_writes-IsAscending, (omega arith, (tt, tt), tt)) lz4 (λ e. cc e) refl

-- Two operations wait, and the log does not reach the disk in the first round.
abbrev waiting : Persistence
waiting = record logging {
  async_append_injector =
      record { version = 8; writeset = two_writes }
      ∷ record { version = 9; writeset = one_write }
      ∷ [];
}

abbrev saving : Saving
saving = record {
  before = some (record { error = io; written = some 2 });
  sync = none;
  truncating = record { lock = none; failed = some io; copied = 0 };
  removes = false;
}

abbrev no_files : Files
no_files = record { snapshot = none; temp = none }

-- The writing fails after two bytes, and the temporary file stays.
snapshot-IsSafe_example :
    IsSafe lz4 filled.datastore no_files logging false
      (snapshot lz4 filled.datastore saving no_files logging)
snapshot-IsSafe_example = snapshot-IsSafe lz4 filled.datastore no_files logging saving

-- Three bytes, with the position after the first.
abbrev three_bytes : Aol
three_bytes = record { contents = 1 ∷ 2 ∷ 3 ∷ []; synced = 0 }

cut_log-Cut_example : Cut three_bytes (2 ∷ 3 ∷ []) (cut_log 1 saving.truncating three_bytes)
cut_log-Cut_example = cut_log-Cut three_bytes (1 ∷ []) (2 ∷ 3 ∷ []) saving.truncating refl
