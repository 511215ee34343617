-- ===== src/Tx/Commit/Outcome.antt =====
-- `commit` from end to end, on each of its branches.
use stupid_kv.Base.{
  ℕ, suc, ◌+◌, ◌^◌, ◌<◌, ◌≡◌, ap, refl, subst, ◌∙◌, true, false, Option, none, some, List, [], ◌∷◌,
  nat_ord, bytes_ord, arith, eqb, eqb_iff, ◌==◌, if◌then◌else◌, add_u64, length, ok, err, Crates,
  Option-cases, Bool-cases, inl, inr,
}
use stupid_kv.Base.BTreeMap.{IsAscending}
use stupid_kv.Base.SkipMap
use stupid_kv.Queue.{Commit, Writeset}
use stupid_kv.Queue.Disjoint.{IsReadset}
use stupid_kv.Persistence.{Disk}
use stupid_kv.Db.{Inner}
use stupid_kv.Tx.{TransactionInner, Error, tx_closed, clear_sets}
use stupid_kv.Tx.Commit.{find_conflict, commit_writes, commit, merge_writes, Committed}
use stupid_kv.Tx.Commit.Conflict.{Verdict}
use stupid_kv.Tx.Commit.Effect.{
  done, done-Frame, done-persistence, done-handle, done-commits, done-commit_id, done-Merged,
  merge_writes_done, done-result,
}
use stupid_kv.Tx.Commit.Stages.{Frame, IsDb, Merged, log_result, log_after, auto_commit_first}
use stupid_kv.Tx.Commit.Entered.{
  own_entry, taken, place, queued, dropped, place-free, queued-IsDb, dropped-IsDb, get-queued,
  verdict,
}

module _ ⦃c : Crates⦄ where
  -- What a commit that compares its writes leaves besides the store: the handle, the queue, the id.
  pub record Left (db : Inner) (tx : TransactionInner) (queue : ℕ → Option Commit) (out : Committed)
      : Type 0 where
    pub frame : Frame db out.1
    pub handle : out.2 ≡ clear_sets (record tx { done = true; writeset = [] })
    pub commit_id : out.1.transaction_commit_id ≡ add_u64 db.transaction_commit_id 1
    pub queue_at : (v : ℕ) → SkipMap.get out.1.transaction_commit_queue v ≡ queue v

  abbrev pub with_own : Inner → TransactionInner → ℕ → Option Commit
  with_own db tx v =
      if eqb v (add_u64 db.transaction_commit_id 1)
      then some (own_entry db tx)
      else SkipMap.get db.transaction_commit_queue v

  -- What a commit does, on each branch.
  pub data Outcome (disk : Disk) (db : Inner) (tx : TransactionInner) (out : Committed)
      : Type 0 where
    was_closed : tx.done ≡ true → out ≡ (err tx_closed, db, tx) → Outcome disk db tx out
    nothing_written :
        tx.done ≡ false
        → tx.writeset ≡ []
        → out ≡ (ok tt, db, record tx { done = true })
        → Outcome disk db tx out
    conflicted :
        (e : Error)
        → tx.done ≡ false
        → Verdict tx
            (own_entry db tx)
            (add_u64 tx.commit 1)
            (db.transaction_commit_id + 1)
            (SkipMap.get db.transaction_commit_queue)
            (some e)
        → out.0 ≡ err e
        → out.1.datastore ≡ db.datastore
        → out.1.oracle ≡ db.oracle
        → IsDb out.1
        → Left db tx (SkipMap.get db.transaction_commit_queue) out
        → Outcome disk db tx out
    applied :
        tx.done ≡ false
        → Verdict tx
            (own_entry db tx)
            (add_u64 tx.commit 1)
            (db.transaction_commit_id + 1)
            (SkipMap.get db.transaction_commit_queue)
            none
        → (m : Merged db tx.writeset out.1)
        → out.0 ≡ log_result db.persistence m.version tx.writeset disk
        → out.1.persistence ≡ log_after db.persistence m.version tx.writeset disk
        → Left db tx (with_own db tx) out
        → Outcome disk db tx out

  module _ (disk : Disk) (db : Inner) (tx : TransactionInner) (v : IsDb db)
      (s : IsAscending tx.writeset) (readset : IsReadset tx.readset tx.readset_bloom)
      (room : db.transaction_commit_id + 1 < 2 ^ 64)
      (ticks : db.oracle.timestamp + 1 < 2 ^ 64) where
    sound : IsDb (queued db tx)
    sound = queued-IsDb db tx v s readset room

    -- The verdict of the walk, where its result is known.
    judged :
        {o : Option Error}
        → find_conflict (taken tx) (own_entry db tx) (place db tx) (queued db tx) ≡ o
        → Verdict tx
            (own_entry db tx)
            (add_u64 tx.commit 1)
            (db.transaction_commit_id + 1)
            (SkipMap.get db.transaction_commit_queue)
            o
    judged e =
        subst
          (Verdict tx (own_entry db tx) (add_u64 tx.commit 1) (db.transaction_commit_id + 1)
            (SkipMap.get db.transaction_commit_queue))
          e (verdict db tx v s readset room)

    dropped-Left :
        (e : Error)
        → Left db tx
            (SkipMap.get db.transaction_commit_queue)
            (err e, dropped db tx, clear_sets (taken tx))
    dropped-Left e = record {
      frame = record { oracle_counters = refl; commit_counters = refl; floor = refl };
      handle = refl;
      commit_id = refl;
      queue_at = λ w. ground (
        arith,
        SkipMap.get-remove (queued db tx).transaction_commit_queue (place db tx) w,
        get-queued db tx v s readset room w,
        place-free db tx v s readset room,
        eqb_iff w (place db tx),
      );
    }

    module _ (rounds instant : ℕ) (instants : List ℕ) where
      abbrev run : Option Committed
      run = commit_writes (suc rounds) (instant ∷ instants) disk db (record tx { done = true })

      run-conflict :
          (e : Error)
          → find_conflict (taken tx) (own_entry db tx) (place db tx) (queued db tx) ≡ some e
          → run ≡ some (err e, dropped db tx, clear_sets (taken tx))
      unfolding commit_writes
      run-conflict e found =
          rw
            (
              auto_commit_first rounds
                  (record db { transaction_queue_id = add_u64 db.transaction_queue_id 1 })
                  (own_entry db tx) (place-free db tx v s readset room),
              found,
              commit_writes,
            )
            refl

      run-apply :
          find_conflict (taken tx) (own_entry db tx) (place db tx) (queued db tx) ≡ none
          → run ≡ merge_writes (instant ∷ instants) disk (queued db tx) (taken tx) tx.writeset
      unfolding commit_writes
      run-apply found =
          rw
            (
              auto_commit_first rounds
                  (record db { transaction_queue_id = add_u64 db.transaction_queue_id 1 })
                  (own_entry db tx) (place-free db tx v s readset room),
              found,
              commit_writes,
            )
            refl

      abbrev merged : Committed
      merged = done instant instants disk tx.writeset (taken tx) (queued db tx) sound ticks s

      applied-Left : Left db tx (with_own db tx) merged
      applied-Left =
          let f =
            done-Frame instant instants disk tx.writeset (taken tx) (queued db tx) sound ticks s in
          record {
            frame = record {
              oracle_counters = f.oracle_counters;
              commit_counters = f.commit_counters;
              floor = f.floor;
            };
            handle =
                done-handle instant instants disk tx.writeset (taken tx) (queued db tx) sound ticks
                  s;
            commit_id =
                done-commit_id instant instants disk tx.writeset (taken tx) (queued db tx) sound
                  ticks s;
            queue_at = λ w.
                ap (λ m. SkipMap.get m w)
                  (done-commits instant instants disk tx.writeset (taken tx) (queued db tx) sound
                    ticks s)
                ∙ get-queued db tx v s readset room w;
          }

      run-Outcome : tx.done ≡ false → (out : Committed) × (run ≡ some out) × Outcome disk db tx out
      run-Outcome active =
          elim (Option-cases
            (find_conflict (taken tx) (own_entry db tx) (place db tx) (queued db tx))) [
              | inl free ↦
                  let m =
                    done-Merged instant instants disk tx.writeset (taken tx) (queued db tx) sound
                      ticks s in
                  (
                    _,
                    run-apply free
                        ∙ merge_writes_done instant instants disk tx.writeset (taken tx)
                            (queued db tx) sound ticks s,
                    applied active (judged free)
                        (record {
                          version = m.version;
                          newer = m.newer;
                          clock = m.clock;
                          reads = m.reads;
                          kept = m.kept;
                        })
                        (done-result instant instants disk tx.writeset (taken tx) (queued db tx)
                          sound ticks s)
                        (done-persistence instant instants disk tx.writeset (taken tx)
                          (queued db tx) sound ticks s)
                        applied-Left,
                  )
              | inr (e, found) ↦ (
                (err e, dropped db tx, clear_sets (taken tx)),
                run-conflict e found,
                conflicted e active (judged found) refl refl refl
                    (dropped-IsDb db tx v s readset room) (dropped-Left e),
              )
            ]

      empty_writeset : (w : Writeset) → length w == 0 ≡ true → w ≡ []
      empty_writeset [] h = refl
      empty_writeset (x ∷ w) h = absurd (ground arith)

      -- On a database with no commit under way, for a transaction with an ascending write set
      -- and a sound read filter, and with room for one more commit id and one more timestamp
      -- below 2^64: `commit` returns, after one round of each of its two loops, whatever the
      -- clock and the disk say. A closed transaction gets `TxClosed` and nothing changes; an
      -- empty write set gets `Ok`; a transaction that shares a key with a commit since its start
      -- gets the conflict error and leaves the store as it was; any other transaction gets a
      -- version above the oracle's timestamp, readers at that version or later see its writes
      -- and all else as before, readers below it see no change, and the result is `Ok`, or what
      -- the log says where there is one. In the last two cases the database is again one with no
      -- commit under way.
      pub commit-Outcome :
          (out : Committed) × (commit (suc rounds) (instant ∷ instants) disk db tx ≡ some out)
          × Outcome disk db tx out
      unfolding commit
      commit-Outcome = elim (Bool-cases tx.done) [
        | inl closed ↦ ((err tx_closed, db, tx), rw (closed, commit) refl, was_closed closed refl)
        | inr active ↦ elim (Bool-cases (length tx.writeset == 0)) [
          | inl none_written ↦ (
            (ok tt, db, record tx { done = true }),
            rw (active, none_written, commit) refl,
            nothing_written active (empty_writeset tx.writeset none_written) refl,
          )
          | inr some_written ↦
              let (out, same, o) = run-Outcome active in
              (out, rw (active, some_written, commit) same, o)
        ]
      ]
