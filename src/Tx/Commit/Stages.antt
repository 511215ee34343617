-- ===== src/Tx/Commit/Stages.antt =====
-- The stages of a commit that no other commit interleaves with: the place in each queue, and the
-- log.
use stupid_kv.Base.{
  ℕ, suc, ◌+◌, ◌^◌, ◌≤◌, ◌<◌, ◌≡◌, refl, Option, none, some, List, ◌∷◌, Bytes, nat_ord, bytes_ord,
  arith, leb, if◌then◌else◌, max, add_u64, Result, ok, Crates,
}
use stupid_kv.Base.SkipMap
use stupid_kv.Queue.{Commit, Merge, Writeset}
use stupid_kv.Queue.Disjoint.{IsCommit}
use stupid_kv.Oracle.{current_time_ns}
use stupid_kv.Persistence.{Persistence, Disk, append}
use stupid_kv.Db.{Inner}
use stupid_kv.Db.Chains.{stored}
use stupid_kv.Tx.{clear_sets, TransactionInner, Error}
use stupid_kv.Tx.Commit.{auto_commit, atomic_merge, finish, persist, commit_result}
use stupid_kv.Tx.Commit.Store.{IsBounded, overlay}

module _ ⦃c : Crates⦄ where
  -- A database with no commit under way: versions up to the clock, queued commits up to the last
  -- commit id.
  pub record IsDb (db : Inner) : Type 0 where
    pub bounded : IsBounded db.oracle.timestamp db.datastore
    pub quiet : (v : ℕ) → SkipMap.get db.transaction_merge_queue v ≡ none
    pub queued :
        (v : ℕ) (t : Commit)
        → SkipMap.get db.transaction_commit_queue v ≡ some t
        → (v ≤ db.transaction_commit_id) × IsCommit t

  -- The first round of the commit queue finds its place free.
  pub auto_commit_first :
      (rounds : ℕ) (db : Inner) (entry : Commit)
      → SkipMap.get db.transaction_commit_queue (add_u64 db.transaction_commit_id 1) ≡ none
      → auto_commit (suc rounds) db entry
        ≡ some (
          add_u64 db.transaction_commit_id 1,
          record db {
            transaction_commit_queue =
                SkipMap.insert db.transaction_commit_queue
                  (add_u64 db.transaction_commit_id 1)
                  entry;
            transaction_commit_id = add_u64 db.transaction_commit_id 1;
          },
        )
  unfolding auto_commit
  auto_commit_first rounds db entry e = ground arith

  abbrev pub version_of : ℕ → Inner → ℕ
  version_of instant db =
      if leb (current_time_ns db.oracle instant) db.oracle.timestamp
      then add_u64 db.oracle.timestamp 1
      else current_time_ns db.oracle instant

  pub atomic_merge_first :
      (instant : ℕ) (instants : List ℕ) (db : Inner) (m : Merge)
      → SkipMap.get db.transaction_merge_queue (version_of instant db) ≡ none
      → atomic_merge (instant ∷ instants) db m
        ≡ some (
          version_of instant db,
          record db {
            transaction_merge_queue =
                SkipMap.insert db.transaction_merge_queue (version_of instant db) m;
            oracle = record db.oracle {
              timestamp = max db.oracle.timestamp (version_of instant db);
            };
          },
        )
  unfolding atomic_merge
  atomic_merge_first instant instants db m e = ground arith

  pub version_of-newer :
      (instant : ℕ) (db : Inner)
      → db.oracle.timestamp + 1 < 2 ^ 64
      → db.oracle.timestamp < version_of instant db
  version_of-newer instant db room = ground arith

  -- The part of the database that no commit touches.
  pub record Frame (db out : Inner) : Type 0 where
    pub oracle_counters : out.counter_by_oracle ≡ db.counter_by_oracle
    pub commit_counters : out.counter_by_commit ≡ db.counter_by_commit
    pub floor : out.gc_floor ≡ db.gc_floor

  -- What a commit that goes through leaves, from the database before it.
  pub record Merged (db : Inner) (ws : Writeset) (out : Inner) : Type 0 where
    pub version : ℕ
    pub newer : db.oracle.timestamp < version
    pub clock : out.oracle.timestamp ≡ version
    pub reads :
        (j : Bytes) (q : ℕ)
        → stored out.datastore j q ≡ (
            if leb version q
            then overlay ws j (stored db.datastore j q)
            else stored db.datastore j q)
    pub kept : IsDb out

  -- The log changes nothing of the state in memory but the log's own.
  pub record Persisted (version : ℕ) (db out : Inner) : Type 0 where
    pub datastore : out.datastore ≡ db.datastore
    pub oracle : out.oracle ≡ db.oracle
    pub merges : out.transaction_merge_queue ≡ SkipMap.remove db.transaction_merge_queue version
    pub commits : out.transaction_commit_queue ≡ db.transaction_commit_queue
    pub commit_id : out.transaction_commit_id ≡ db.transaction_commit_id
    pub frame : Frame db out

  pub persist-Persisted :
      (p : Option Persistence) (version : ℕ) (ws : Writeset) (disk : Disk) (db : Inner)
      (tx : TransactionInner)
      → Persisted version db (persist p version ws disk db tx).1
  unfolding persist finish
  persist-Persisted none version ws disk db tx = record {
    datastore = refl;
    oracle = refl;
    merges = refl;
    commits = refl;
    commit_id = refl;
    frame = record { oracle_counters = refl; commit_counters = refl; floor = refl };
  }
  persist-Persisted (some p) version ws disk db tx = record {
    datastore = refl;
    oracle = refl;
    merges = refl;
    commits = refl;
    commit_id = refl;
    frame = record { oracle_counters = refl; commit_counters = refl; floor = refl };
  }

  pub persist-handle :
      (p : Option Persistence) (version : ℕ) (ws : Writeset) (disk : Disk) (db : Inner)
      (tx : TransactionInner)
      → (persist p version ws disk db tx).2 ≡ clear_sets tx
  unfolding persist finish
  persist-handle none version ws disk db tx = refl
  persist-handle (some p) version ws disk db tx = refl

  -- What the log says: nothing without a persistence.
  abbrev pub log_result : Option Persistence → ℕ → Writeset → Disk → Result Error (Unit {0})
  log_result none version ws disk = ok tt
  log_result (some p) version ws disk = commit_result (append p version ws disk).1

  pub persist-result :
      (p : Option Persistence) (version : ℕ) (ws : Writeset) (disk : Disk) (db : Inner)
      (tx : TransactionInner)
      → (persist p version ws disk db tx).0 ≡ log_result p version ws disk
  unfolding persist finish
  persist-result none version ws disk db tx = refl
  persist-result (some p) version ws disk db tx = refl

  -- The persistence after a commit, with its log.
  abbrev pub log_after : Option Persistence → ℕ → Writeset → Disk → Option Persistence
  log_after none version ws disk = none
  log_after (some p) version ws disk = some (append p version ws disk).0

  pub persist-persistence :
      (p : Option Persistence) (version : ℕ) (ws : Writeset) (disk : Disk) (db : Inner)
      (tx : TransactionInner)
      → db.persistence ≡ p
      → (persist p version ws disk db tx).1.persistence ≡ log_after p version ws disk
  unfolding persist finish
  persist-persistence none version ws disk db tx e = e
  persist-persistence (some p) version ws disk db tx e = refl
