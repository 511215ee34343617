-- ===== src/Tests/Servers.antt =====
-- The theorem on the server, at two requests to a new database.
use stupid_kv.Base.{◌≡◌, refl, ok, err, some, List, [], ◌∷◌, bytes_ord, nat_ord, arith, cmp_bytes}
use stupid_kv.Base.Collections.Instance.{list_crates, sort_entries}
use stupid_kv.Base.BTreeMap
use stupid_kv.Db.{Inner}
use stupid_kv.Db
use stupid_kv.Oracle
use stupid_kv.Counters.{register_counter}
use stupid_kv.Counters
use stupid_kv.Tx.{register, tx_commit_not_persisted}
use stupid_kv.Tx
use stupid_kv.Tx.Commit.{
  commit, commit_entry, commit_writes, auto_commit, find_conflict, range_conflict, merge_writes,
  atomic_merge, store_writes, persist,
}
use stupid_kv.Tx.Commit.View.{view}
use stupid_kv.Persistence.{Disk, FsyncMode, synchronous_on_commit, io}
use stupid_kv.Persistence.Faults.{logging}
use stupid_kv.Db.Chains.{stored}
use stupid_kv.Pool
use stupid_kv.System.Invariant.{Agree}
use stupid_kv.System.Steps.{started, started-IsConsistent}
use stupid_kv.Server.{
  Call, internal_server_error, written, value, insert_route, get_route, serve, route,
}
use stupid_kv.Server
use stupid_kv.Server.Refinement.{HasRoom, responses_of, serve-Follows}
use stupid_kv.Tests.{key_a, key_b, good_disk, fresh}

-- A new database with an empty log that is synchronised at every append.
abbrev logged : Inner
logged = record fresh {
  persistence = some (record {
    aol = some (record { contents = []; synced = 0 });
    aol_mode = synchronous_on_commit;
    fsync_mode = FsyncMode.every_append;
    last_fsync = 0;
    pending_syncs = 0;
    async_append_injector = [];
  });
}

logged-Agree : Agree logged []
unfolding Db.new Oracle.new started
logged-Agree =
    let a = started-IsConsistent 1 100 50 0 in
    record {
      database = record {
        bounded = a.database.bounded;
        quiet = a.database.quiet;
        queued = a.database.queued;
      };
      by_oracle = a.by_oracle;
      by_starts = a.by_starts;
      floor = a.floor;
      few = a.few;
      each = a.each;
    }

abbrev call : Server.Request → Disk → Call
call request disk = record { request = request; instant = 9; instants = []; disk = disk }

-- The disk does not synchronise at the first request.
abbrev calls : List Call
calls =
    call (insert_route key_a key_b) (record good_disk { sync = some io })
    ∷ call (get_route key_a) good_disk
    ∷ []

calls-HasRoom : HasRoom calls (Pool.new 1) logged
unfolding route Server.insert_handler Server.get_handler Tx.put Tx.exists_in_datastore Tx.merging
    commit commit_writes auto_commit find_conflict range_conflict merge_writes atomic_merge Pool.get
    Pool.new Pool.drop Db.new Oracle.new Tx.new register register_counter Counters.no_counters
    Counters.slot BTreeMap.get BTreeMap.insert commit_entry sort_entries persist store_writes
    cmp_bytes Counters.release_counter Tx.clear_sets Oracle.current_time_ns Tx.reset BTreeMap.remove
    Tx.get
calls-HasRoom = (omega arith, omega arith, (omega arith, omega arith, tt))

serve-Follows_example :
    (pool : Pool.Pool) × (out : Inner) × (serve calls (Pool.new 1) logged
      ≡ some (responses_of calls (view logged) (logging logged.persistence), pool, out))
    × Agree out []
unfolding Db.new Oracle.new started
serve-Follows_example =
    serve-Follows calls (Pool.new 1) logged [] logged-Agree (omega arith) calls-HasRoom

-- What the map answers: the error of the log, and then the value that was written all the same.
answers :
    responses_of calls (view logged) (logging logged.persistence)
    ≡ written (err (internal_server_error, tx_commit_not_persisted io))
      ∷ value (ok (some key_b))
      ∷ []
unfolding view Tx.fetch_in_datastore Tx.merging Db.new Oracle.new cmp_bytes stored Tx.up_to
    Tx.first_write sort_entries BTreeMap.get
answers = refl
