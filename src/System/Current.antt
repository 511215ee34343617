-- ===== src/System/Current.antt =====
-- What no commit since the start of a handle has written, the handle reads as it is now.
use stupid_kv.Base.{
  ℕ, ◌+◌, ◌^◌, ◌<◌, ◌≤◌, ◌≡◌, refl, sym, ap, ◌∙◌, some, bytes_ord, nat_ord, arith, Crates, Bytes,
  add_u64, false, eqb_iff, eqb_refl,
}
use stupid_kv.Base.SkipMap
use stupid_kv.Queue.{Commit, contains_key}
use stupid_kv.Persistence.{Disk}
use stupid_kv.Oracle.{Oracle}
use stupid_kv.Db.{Inner}
use stupid_kv.Tx.{TransactionInner, fetch_in_datastore}
use stupid_kv.Tx.Commit.{Committed, commit_entry}
use stupid_kv.Tx.Commit.Stages.{IsDb}
use stupid_kv.Tx.Commit.Store.{overlay}
use stupid_kv.Tx.Commit.Entered.{own_entry}
use stupid_kv.Tx.Commit.Outcome.{
  Outcome, with_own, was_closed, nothing_written, conflicted, applied,
}
use stupid_kv.Tx.Commit.View.{view, view-applied, snapshot_outcome}
use stupid_kv.System.Snapshots.{fetch-frame}

module _ ⦃c : Crates⦄ where
  -- No queued commit after the start writes the key.
  abbrev pub Unseen : Inner → ℕ → Bytes → Type 0
  Unseen db start k =
      (v : ℕ) (t : Commit)
      → SkipMap.get db.transaction_commit_queue v ≡ some t
      → start < v
      → contains_key t.writeset k ≡ false

  pub record IsCurrent (db : Inner) (tx : TransactionInner) : Type 0 where
    pub current :
        (k : Bytes) → Unseen db tx.commit k → fetch_in_datastore db k tx.version ≡ view db k

  -- A change of the database that keeps the reads of a handle, and hides no commit from it.
  pub IsCurrent-change :
      (db out : Inner) (tx : TransactionInner)
      → ((k : Bytes) → Unseen out tx.commit k → Unseen db tx.commit k)
      → ((k : Bytes) → fetch_in_datastore out k tx.version ≡ fetch_in_datastore db k tx.version)
      → ((k : Bytes) → Unseen out tx.commit k → view out k ≡ view db k)
      → IsCurrent db tx
      → IsCurrent out tx
  IsCurrent-change db out tx unseen reads newest v = record {
    current = λ k u. reads k ∙ v.current k (unseen k u) ∙ sym (newest k u);
  }

  -- A handle whose snapshot is the clock reads the present.
  pub fresh-IsCurrent :
      (db : Inner) (tx : TransactionInner) → tx.version ≡ db.oracle.timestamp → IsCurrent db tx
  unfolding view
  fresh-IsCurrent db tx e = record { current = λ k u. ap (fetch_in_datastore db k) e }

  -- The counters play no part.
  pub frame-IsCurrent :
      (db out : Inner) (tx : TransactionInner)
      → out ≡ record db {
        counter_by_oracle = out.counter_by_oracle;
        counter_by_commit = out.counter_by_commit;
      }
      → IsCurrent db tx
      → IsCurrent out tx
  unfolding view
  frame-IsCurrent db out tx e v =
      let queue = ap (λ (d : Inner). d.transaction_commit_queue) e in
      let clock = ap (λ (d : Inner). d.oracle.timestamp) e in
      IsCurrent-change db out tx
        (λ k u w t at later. u w t (ap (λ q. SkipMap.get q w) queue ∙ at) later)
        (λ k. fetch-frame db out k tx.version e)
        (λ k u. fetch-frame db out k out.oracle.timestamp e ∙ ap (fetch_in_datastore db k) clock) v

  -- The same handle under another state of its sets.
  pub moved-IsCurrent :
      (db : Inner) (tx tx' : TransactionInner)
      → tx'.version ≡ tx.version
      → tx'.commit ≡ tx.commit
      → IsCurrent db tx
      → IsCurrent db tx'
  moved-IsCurrent db tx tx' e f v = record {
    current = λ k u. rw e (v.current k (λ w t at later. u w t at (ground arith)));
  }

  module _ (disk : Disk) (db : Inner) (own x : TransactionInner) (out : Committed) (v : IsDb db)
      (room : db.transaction_commit_id + 1 < 2 ^ 64) (past : x.version ≤ db.oracle.timestamp)
      (start : x.commit ≤ db.transaction_commit_id) where
    reads_same :
        Outcome disk db own out
        → (k : Bytes) → fetch_in_datastore out.1 k x.version ≡ fetch_in_datastore db k x.version
    reads_same o k = snapshot_outcome disk db own out k x.version v o past

    old_visible :
        (w : ℕ) (t : Commit)
        → SkipMap.get db.transaction_commit_queue w ≡ some t
        → with_own db own w ≡ some t
    old_visible w t at =
        ground (arith, at, v.queued w t at, eqb_iff w (add_u64 db.transaction_commit_id 1))

    not_written :
        (k : Bytes)
        → ((w : ℕ) → SkipMap.get out.1.transaction_commit_queue w ≡ with_own db own w)
        → Unseen out.1 x.commit k
        → overlay own.writeset k (view db k) ≡ view db k
    unfolding commit_entry
    not_written k queue u =
        let place = add_u64 db.transaction_commit_id 1 in
        let at = queue place ∙ rw (eqb_refl place) refl in
        let absent = u place (own_entry db own) at (ground arith) in ground (arith, absent)

    same_view :
        (k : Bytes) → out.1.oracle ≡ db.oracle → Outcome disk db own out → view out.1 k ≡ view db k
    unfolding view
    same_view k e o =
        ap (λ (t : Oracle). fetch_in_datastore out.1 k t.timestamp) e
        ∙ snapshot_outcome disk db own out k db.oracle.timestamp v o (omega arith)

    -- A commit keeps every other handle current.
    pub outcome-IsCurrent : Outcome disk db own out → IsCurrent db x → IsCurrent out.1 x
    outcome-IsCurrent (was_closed d e) h = rw e h
    outcome-IsCurrent (nothing_written d w e) h = rw e h
    outcome-IsCurrent (conflicted e d c r s o i left) h =
        IsCurrent-change db out.1 x (λ k u w t at later. u w t (left.queue_at w ∙ at) later)
          (reads_same (conflicted e d c r s o i left))
          (λ k u. same_view k o (conflicted e d c r s o i left)) h
    outcome-IsCurrent (applied d c m r p left) h =
        IsCurrent-change db out.1 x
          (λ k u w t at later. u w t (left.queue_at w ∙ old_visible w t at) later)
          (reads_same (applied d c m r p left))
          (λ k u. view-applied db out.1 own.writeset k v m ∙ not_written k left.queue_at u) h
