-- ===== src/Tests/Transactions.antt =====
-- The theorems on transactions and commits, at concrete ones.
use stupid_kv.Base.{
  ℕ, ◌≤◌, ◌≡◌, ◌&&◌, ◌||◌, subst, inl, inr, refl, true, false, none, some, [], ◌∷◌, Bytes,
  bytes_ord, nat_ord, arith, eqb, if◌then◌else◌, cmp_bytes, ok, err, Bool-cases, add_u64,
}
use stupid_kv.Base.BTreeMap.{IsAscending}
use stupid_kv.Base.BTreeMap
use stupid_kv.Base.SkipMap
use stupid_kv.Base.Collections.Instance.{list_crates}
use stupid_kv.Versions.{is_some}
use stupid_kv.Bloom
use stupid_kv.Queue.{Commit}
use stupid_kv.Queue.Disjoint.{IsCommit, IsReadset}
use stupid_kv.Db.{Inner}
use stupid_kv.Db
use stupid_kv.Oracle
use stupid_kv.Tx.{
  TransactionInner, serializable_snapshot_isolation, fetch_in_datastore, exists_in_datastore,
  key_already_exists,
}
use stupid_kv.Tx
use stupid_kv.Tx.Begin.{fresh-IsReadset, new_empty}
use stupid_kv.Tx.Reads.{exists-get}
use stupid_kv.Tx.Writes.{put-exists}
use stupid_kv.Tx.Commit.{Committed, commit, commit_entry, find_conflict}
use stupid_kv.Tx.Commit.Entry.{commit_entry-IsCommit}
use stupid_kv.Tx.Commit.Conflict.{Verdict, find_conflict-Verdict}
use stupid_kv.Tx.Commit.Store.{IsBounded, overlay, insert-IsBounded}
use stupid_kv.Tx.Commit.Effect.{new-IsDb}
use stupid_kv.Tx.Commit.Stages.{IsDb}
use stupid_kv.Tx.Commit.View.{commit-snapshot, view, takes_effect, view-commit}
use stupid_kv.Tx.Commit.Outcome.{Outcome, commit-Outcome}
use stupid_kv.Python.{closed, exit}
use stupid_kv.Python.Exit.{Exited, exit-Exited}
use stupid_kv.Tests.{key_a, key_b, chain, fresh, filled, writer, one_write, two_writes, good_disk}
use stupid_kv.Tests.Chains.{chain-IsSorted, two_writes-IsAscending}

-- A database where another transaction has committed `key_b` since `writer` began.
abbrev other_commit : Commit
other_commit = commit_entry one_write 1

abbrev contested : Inner
contested = record filled {
  transaction_commit_id = 1;
  transaction_commit_queue = SkipMap.insert fresh.transaction_commit_queue 1 other_commit;
}

contested-queued :
    (v : ℕ) (t : Commit)
    → SkipMap.get contested.transaction_commit_queue v ≡ some t
    → (v ≤ contested.transaction_commit_id) × IsCommit t
unfolding Db.new BTreeMap.get
contested-queued v t h = elim (Bool-cases (eqb v 1)) [
  | inl here ↦ (
    ground arith,
    subst IsCommit (ground (arith, h, here)) (commit_entry-IsCommit one_write 1 (tt, tt)),
  )
  | inr other ↦ absurd (ground (arith, h, other))
]

pub filled-IsBounded : IsBounded 50 filled.datastore
unfolding Db.new Oracle.new
filled-IsBounded =
    insert-IsBounded 50 fresh.datastore key_a chain chain-IsSorted
      (omega arith, (omega arith, (omega arith, tt))) (new-IsDb 100 50 0).bounded

contested-IsDb : IsDb contested
unfolding Db.new Oracle.new
contested-IsDb = record {
  bounded = filled-IsBounded;
  quiet = (new-IsDb 100 50 0).quiet;
  queued = contested-queued;
}

writer-IsReadset : IsReadset list_crates.no_keys Bloom.new
writer-IsReadset = fresh-IsReadset Bloom.new new_empty

commit-Outcome_example :
    (out : Committed) × (commit 1 (9 ∷ []) good_disk contested writer ≡ some out)
    × Outcome good_disk contested writer out
unfolding Db.new Oracle.new
commit-Outcome_example =
    commit-Outcome good_disk contested writer contested-IsDb two_writes-IsAscending writer-IsReadset
      (omega arith) (omega arith) 0 9 []

-- The commit conflicts, and the end of the block answers false all the same.
exit-Exited_example :
    (db' : Inner) × (tx' : TransactionInner) × (exit 1
        (9 ∷ [])
        good_disk
        contested
        (some writer)
        false
      ≡ some (false, db', some tx'))
    × (closed (some tx') ≡ true)
    × Exited good_disk contested writer false db' tx'
unfolding Db.new Oracle.new
exit-Exited_example =
    exit-Exited good_disk contested writer contested-IsDb two_writes-IsAscending writer-IsReadset
      (omega arith) (omega arith) 0 9 [] false

-- The commit once more, for the theorem on its readers.
ended :
    (out : Committed) × (commit 1 (9 ∷ []) good_disk contested writer ≡ some out)
    × Outcome good_disk contested writer out
unfolding Db.new Oracle.new
ended =
    commit-Outcome good_disk contested writer contested-IsDb two_writes-IsAscending writer-IsReadset
      (omega arith) (omega arith) 0 9 []

commit-snapshot_example :
    fetch_in_datastore ended.0.1 key_a 50 ≡ fetch_in_datastore contested key_a 50
unfolding Db.new Oracle.new
commit-snapshot_example =
    commit-snapshot good_disk contested writer contested-IsDb two_writes-IsAscending
      writer-IsReadset (omega arith) (omega arith) 0 9 [] ended.0 ended.1 key_a 50 (omega arith)

view-commit_example : view ended.0.1 key_a ≡ (
    if takes_effect ended.0.0
    then overlay writer.writeset key_a (view contested key_a)
    else view contested key_a)
unfolding Db.new Oracle.new
view-commit_example =
    view-commit good_disk contested writer contested-IsDb two_writes-IsAscending writer-IsReadset
      (omega arith) (omega arith) 0 9 [] ended.0 ended.1 key_a

find_conflict-Verdict_example :
    Verdict writer
      (commit_entry two_writes 2)
      (add_u64 0 1)
      2
      (SkipMap.get contested.transaction_commit_queue)
      (find_conflict writer (commit_entry two_writes 2) 2 contested)
find_conflict-Verdict_example =
    find_conflict-Verdict writer (commit_entry two_writes 2) 2
      (commit_entry-IsCommit two_writes 2 two_writes-IsAscending) writer-IsReadset contested
      (λ v t h. (contested-queued v t h).1)

-- The transaction has deleted `key_b`: `get` finds nothing, and `exists` answers `true`.
exists-get_example :
    (Tx.exists filled writer key_b).0
    ≡ ok
        (is_some {A = Bytes} none || (writer.write && is_some (BTreeMap.get key_b writer.writeset)))
unfolding Tx.get BTreeMap.get cmp_bytes
exists-get_example = exists-get filled writer key_b none refl

put-exists_example :
    Tx.put filled writer key_b key_a
    ≡ (if true then (err key_already_exists, writer) else Tx.set writer key_b key_a)
unfolding Tx.exists BTreeMap.get cmp_bytes
put-exists_example = put-exists filled writer refl refl key_b key_a true refl
